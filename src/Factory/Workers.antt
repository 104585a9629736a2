-- ===== src/Factory/Workers.antt =====
-- The worker's row: touchWorker, agentReport, workerReady and pruneWorkers of
-- worker/src/routes/factory.ts.
use omarchy_cli.Base.{
  Bool, List, Option, String, Text, [], codes, delete, exists, false, if◌then◌else◌, is_some, leb,
  length, ltb, none, not, or_else, slice_front, some, str_eq, text_eq, true, update, ℕ, ◌&&◌, ◌-◌,
  ◌==◌, ◌||◌, ◌∷◌,
}
use omarchy_cli.Factory.Rows.{AgentStatus, Arch, Kind, Trust, Worker}
use omarchy_cli.Factory.Tests.{is_project, kind_in}

-- What a claim says of the probe: nothing (an older client), or a text, or something else.
pub data Said : Type 0 where
  nothing other : Said
  text : Text → Said

pub record AgentReport : Type 0 where
  pub status : Option AgentStatus
  pub error : Option Text
  pub checked_at : Option Text

report_status : Said → Option AgentStatus
report_status (Said.text s) =
    if text_eq s (codes "ok")
    then some AgentStatus.ok
    else if text_eq s (codes "error")
    then some AgentStatus.error
    else none
report_status _ = none

report_error : Option AgentStatus → Said → Option Text
report_error (some AgentStatus.error) (Said.text e) = some (slice_front 300 e)
report_error _ _ = none

-- A text that is not empty.
report_time : Said → Option Text
report_time (Said.text (c ∷ s)) = some (c ∷ s)
report_time _ = none

-- `agentReport`
unfoldable pub agent_report : Said → Said → Said → Option AgentReport
unfolding report_status report_error report_time
agent_report Said.nothing err at = none
agent_report st err at = some (record {
  status = report_status st;
  error = report_error (report_status st) err;
  checked_at = report_time at;
})

abbrev is_lower : ℕ → Bool
is_lower c = leb b'a' c && leb c b'z'

abbrev is_digit : ℕ → Bool
is_digit c = leb b'0' c && leb c b'9'

abbrev is_upper : ℕ → Bool
is_upper c = leb b'A' c && leb c b'Z'

-- [a-z0-9-]
abbrev provider_char : ℕ → Bool
provider_char c = is_lower c || is_digit c || c == b'-'

-- [A-Za-z0-9._:-]
abbrev model_char : ℕ → Bool
model_char c =
    is_upper c || is_lower c || is_digit c || c == b'.' || c == b'_' || c == b':' || c == b'-'

every : (ℕ → Bool) → Text → Bool
every test [] = true
every test (c ∷ s) = test c && every test s

-- The model behind the slash: one to sixty characters.
is_model : Text → Bool
unfolding every
is_model [] = false
is_model (c ∷ s) = leb (length (c ∷ s)) 60 && every model_char (c ∷ s)

-- The provider, of which `seen` tells whether a character came, up to the slash.
is_agent_from : Bool → Text → Bool
unfolding is_model
is_agent_from seen [] = false
is_agent_from seen (c ∷ s) =
    let rest = is_agent_from true s in
    if c == b'/' then seen && is_model s else provider_char c && rest

-- `/^[a-z0-9-]+\/[A-Za-z0-9._:-]{1,60}$/`
unfoldable pub is_agent : Text → Bool
unfolding is_agent_from
is_agent s = is_agent_from false s

-- What a worker says of itself with a claim.
pub record Touch : Type 0 where
  pub worker : String
  pub arch : Arch
  pub hostname : Option String
  pub labels : Option Text
  pub version : Option String
  pub mode : Option String
  pub agent : Said
  pub kinds : List Kind
  pub probe : Option AgentReport

-- COALESCE(a, b)
abbrev pub coalesce {ℓ} : {A : Type ℓ} → Option A → Option A → Option A
coalesce none b = b
coalesce (some a) b = some a

-- The agent that a claim sets: none where it says nothing.
said_agent : Said → Option (Option Text)
unfolding is_agent
said_agent Said.nothing = none
said_agent Said.other = some none
said_agent (Said.text s) = some (if is_agent s then some s else none)

probed : Option AgentReport → AgentReport
probed none = record { status = none; error = none; checked_at = none }
probed (some p) = p

-- The row that the upsert inserts.
new_worker : Touch → ℕ → Option ℕ → Worker
unfolding said_agent probed
new_worker w now current = record {
  id = w.worker;
  arch = w.arch;
  hostname = w.hostname;
  labels = w.labels;
  version = w.version;
  last_seen = now;
  current_task = current;
  builds_done = 0;
  builds_failed = 0;
  mode = "project";
  agent = or_else (said_agent w.agent) none;
  kinds = some w.kinds;
  agent_status = (probed w.probe).status;
  agent_error = (probed w.probe).error;
  agent_checked_at = (probed w.probe).checked_at;
  trust = Trust.community;
  owner = none;
  token_hash = none;
  revoked_at = none;
}

-- The row that it updates.
touched : Touch → ℕ → Option ℕ → Worker → Worker
unfolding said_agent
touched w now current row = record row {
  arch = w.arch;
  hostname = coalesce w.hostname row.hostname;
  labels = coalesce w.labels row.labels;
  version = coalesce w.version row.version;
  last_seen = now;
  current_task = current;
  mode = or_else w.mode row.mode;
  agent = or_else (said_agent w.agent) row.agent;
  kinds = some w.kinds;
  agent_status = elim w.probe [ none ↦ row.agent_status | some p ↦ p.status ];
  agent_error = elim w.probe [ none ↦ row.agent_error | some p ↦ p.error ];
  agent_checked_at = elim w.probe [ none ↦ row.agent_checked_at | some p ↦ p.checked_at ];
}

abbrev pub is_worker : String → Worker → Bool
is_worker id row = str_eq row.id id

-- `touchWorker`
unfoldable pub touch_worker : Touch → ℕ → Option ℕ → List Worker → List Worker
unfolding new_worker touched
touch_worker w now current rows =
    if exists (is_worker w.worker) rows
    then update (is_worker w.worker) (touched w now current) rows
    else new_worker w now current ∷ rows

-- A worker that is not project and names no kinds builds.
ready_kinds : Worker → List Kind
ready_kinds w = elim w.kinds [
  | some ks ↦ ks
  | none ↦ if is_project w.trust then [] else Kind.build ∷ []
]

agent_ok : Option AgentStatus → Bool
agent_ok (some AgentStatus.ok) = true
agent_ok _ = false

-- `workerReady`
unfoldable pub worker_ready : Worker → ℕ → Bool
unfolding ready_kinds agent_ok
worker_ready w alive_since =
    let kinds = ready_kinds w in
    let needs_agent =
      kind_in Kind.audit kinds || (kind_in Kind.build kinds && not (is_project w.trust)) in
    if leb w.last_seen alive_since then false else (not needs_agent || agent_ok w.agent_status)

day_ms : ℕ
day_ms = 86400000

forgettable : ℕ → Worker → Bool
unfolding day_ms
forgettable now w = not (is_some w.token_hash) && ltb w.last_seen (now - day_ms)

-- `pruneWorkers`
unfoldable pub prune_workers : ℕ → List Worker → List Worker
unfolding forgettable
prune_workers now rows = delete (forgettable now) rows
