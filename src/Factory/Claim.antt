-- ===== src/Factory/Claim.antt =====
-- Claiming a task: handleClaim of worker/src/routes/factory.ts.
use omarchy_cli.Base.{
  Bool, List, Option, String, Text, [], codes, false, first, if◌then◌else◌, leb, like_prefix, ltb,
  none, not, or_else, some, str_eq, true, update, ℕ, ◌&&◌, ◌*◌, ◌++◌, ◌+◌, ◌/◌, ◌==◌, ◌||◌, ◌∷◌,
}
use omarchy_cli.Factory.Rows.{
  AgentStatus, Arch, Contributor, Kind, Registration, Role, Stage, Status, Store, Task, Trust,
}
use omarchy_cli.Factory.Tests.{arch_eq, has_id, holds_name, is_project, is_queued, kind_eq, kind_in}
use omarchy_cli.Factory.Reply.{Reply, or_refuse, require, ◌>>=◌, ◌>>◌, answer, refuse}
use omarchy_cli.Factory.Journal.{arch_text, set_stage}
use omarchy_cli.Factory.Workers.{AgentReport, Said, Touch, agent_report, touch_worker}
use omarchy_cli.Factory.Enqueue.{repo_arch}
use omarchy_cli.Token.Claims.{Claims}
use omarchy_cli.Token.Scopes.{is_review, scopes_for}

abbrev pub lease_minutes : ℕ
lease_minutes = 30

unfoldable pub plus_minutes : ℕ → ℕ → ℕ
plus_minutes now m = now + m * 60000

-- A registered worker, or a job by its token.
pub record WorkerIdentity : Type 0 where
  pub id : String
  pub arch : Arch
  pub trust : Trust
  pub owner : Option String

pub data Actor : Type 0 where
  worker : WorkerIdentity → Actor
  job : Claims → Actor

abbrev pub all_kinds : List Kind
all_kinds =
    Kind.build ∷ Kind.sync ∷ Kind.promote ∷ Kind.rollback ∷ Kind.render ∷ Kind.health
    ∷ Kind.security ∷ Kind.metrics ∷ Kind.gc ∷ Kind.enqueue ∷ Kind.audit ∷ Kind.verify
    ∷ Kind.relayout ∷ Kind.publish ∷ []

abbrev pub any_arch_kinds : List Kind
any_arch_kinds =
    Kind.metrics ∷ Kind.gc ∷ Kind.security ∷ Kind.promote ∷ Kind.audit ∷ Kind.verify ∷ Kind.relayout
    ∷ []

-- `AGENT_SCOPE`: the work that needs an agent that answers.
abbrev pub agent_scope : Task → Bool
agent_scope t =
    kind_eq t.kind Kind.audit
    || (kind_eq t.kind Kind.build
        && (like_prefix (codes "draft:") t.pkgbuild_ref
            || like_prefix (codes "review:") t.pkgbuild_ref))

-- Who asks for a task, with what the code has settled of it before the statement runs.
pub record Claimant : Type 0 where
  pub worker : String
  pub arch : Arch
  pub trust : Trust
  pub kinds : List Kind
  pub shared : Bool
  pub owner : String
  pub probe_ok : Bool
  pub now : ℕ

-- `shared_after IS NULL OR shared_after <= ?`
abbrev pub shared_by : ℕ → Option ℕ → Bool
shared_by now none = true
shared_by now (some at) = leb at now

-- The part of the scope that goes by trust.
abbrev pub trust_scope : Claimant → Task → Bool
trust_scope c t =
    if is_project c.trust
    then not (kind_eq t.kind Kind.build) || is_project t.trust
    else (not (is_project t.trust)
        && (if c.shared
            then holds_name t.owner c.owner || shared_by c.now t.shared_after
            else holds_name t.owner c.owner))

-- The WHERE clause of the claim.
abbrev pub claimable : Claimant → Task → Bool
claimable c t =
    is_queued t.status
    && (arch_eq t.arch c.arch || kind_in t.kind any_arch_kinds)
    && kind_in t.kind c.kinds
    && (c.probe_ok || not (agent_scope t))
    && trust_scope c t

-- ORDER BY priority, id
abbrev pub before : Task → Task → Bool
before t u = ltb t.priority u.priority || (t.priority == u.priority && leb t.id u.id)

unfoldable pub earlier : Task → Option Task → Task
earlier t none = t
earlier t (some u) = if before t u then t else u

-- SELECT … WHERE test ORDER BY priority, id LIMIT 1
unfoldable pub pick : (Task → Bool) → List Task → Option Task
unfolding earlier
pick test [] = none
pick test (t ∷ ts) = let rest = pick test ts in if test t then some (earlier t rest) else rest

-- The SET clause of the claim.
unfoldable pub lease : Claimant → Task → Task
unfolding plus_minutes
lease c t = record t {
  status = Status.leased;
  lease_owner = some c.worker;
  lease_expires_at = some (plus_minutes c.now lease_minutes);
  started_at = some c.now;
  attempts = t.attempts + 1;
  error = none;
}

abbrev pub picked : ℕ → Task → Bool
picked id t = has_id id t && is_queued t.status

-- The claim's one statement: the row it leased, and the table behind it.
unfoldable pub claim_next : Claimant → List Task → Option Task × List Task
claim_next c tasks = elim (pick (claimable c) tasks) [
  | none ↦ (none, tasks)
  | some t ↦ (some (lease c t), update (picked t.id) (lease c) tasks)
]

pub record ClaimBody : Type 0 where
  pub arch : Option String
  pub hostname : Option String
  pub labels : Option Text
  pub version : Option String
  -- The texts of `kinds`, where it is a list.
  pub kinds : Option (List String)
  -- `shared === true`
  pub shared : Bool
  pub agent : Said
  pub agent_status : Said
  pub agent_error : Said
  pub agent_checked_at : Said

unfoldable pub kind_name : Kind → String
kind_name Kind.build = "build"
kind_name Kind.sync = "sync"
kind_name Kind.promote = "promote"
kind_name Kind.rollback = "rollback"
kind_name Kind.render = "render"
kind_name Kind.health = "health"
kind_name Kind.security = "security"
kind_name Kind.metrics = "metrics"
kind_name Kind.gc = "gc"
kind_name Kind.enqueue = "enqueue"
kind_name Kind.audit = "audit"
kind_name Kind.verify = "verify"
kind_name Kind.relayout = "relayout"
kind_name Kind.publish = "publish"

-- The kind that a text of the claim names, if it is one of ALL_KINDS.
kinds_named : List String → List Kind
unfolding kind_name
kinds_named [] = []
kinds_named (s ∷ ss) = elim (first (λ k. str_eq s (kind_name k)) all_kinds) [
  | some k ↦ k ∷ kinds_named ss
  | none ↦ kinds_named ss
]

-- The kinds that a worker may take: what it declares for the project, builds for the community.
unfoldable pub claim_kinds : Trust → Option (List String) → List Kind
unfolding kinds_named
claim_kinds Trust.community named = Kind.build ∷ []
claim_kinds Trust.project none = all_kinds
claim_kinds Trust.project (some names) = kinds_named names

is_maintainer : Option Contributor → Bool
is_maintainer none = false
is_maintainer (some c) = elim c.role [ Role.maintainer ↦ true | Role.contributor ↦ false ]

-- Whether the worker's owner may donate it: a maintainer.
unfoldable pub owner_may_share : Option String → List Contributor → Bool
unfolding is_maintainer
owner_may_share none people = false
owner_may_share (some login) people = is_maintainer (first (λ c. str_eq c.login login) people)

report_ok : Option AgentReport → Bool
report_ok none = false
report_ok (some r) = elim r.status [
  | some s ↦ elim s [ AgentStatus.ok ↦ true | AgentStatus.error ↦ false ]
  | none ↦ false
]

-- The claimant that the code makes of a registered worker and its claim.
unfoldable pub claimant : WorkerIdentity → ClaimBody → Option AgentReport → ℕ → Store → Claimant
unfolding owner_may_share report_ok
claimant w b probe now st = record {
  worker = w.id;
  arch = w.arch;
  trust = w.trust;
  kinds = claim_kinds w.trust b.kinds;
  shared = not (is_project w.trust) && b.shared && owner_may_share w.owner st.contributors;
  owner = or_else w.owner "-";
  probe_ok = report_ok probe;
  now = now;
}

unfoldable pub claim_touch : Claimant → ClaimBody → Option AgentReport → Touch
claim_touch c b probe = record {
  worker = c.worker;
  arch = c.arch;
  hostname = b.hostname;
  labels = b.labels;
  version = b.version;
  mode = if is_project c.trust then none else some (if c.shared then "shared" else "dedicated");
  agent = b.agent;
  kinds = c.kinds;
  probe = probe;
}

-- A contributor's build shows on its registration.
show_building : Claimant → Option Task → List Registration → List Registration
unfolding set_stage
show_building c none regs = regs
show_building c (some t) regs =
    if not (is_project t.trust) && kind_eq t.kind Kind.build
    then set_stage t.name Stage.building
        (codes "building on " ++ codes c.worker ++ codes " (" ++ arch_text t.arch ++ codes ")")
        c.now regs
    else regs

-- The claims of the token of a leased task: its scopes, for as long as the lease.
unfoldable pub lease_claims : Task → String → ℕ → Claims
unfolding scopes_for
lease_claims t who now = record {
  t = t.id;
  k = t.kind;
  s = scopes_for t.kind t.id t.trust (or_else t.params []);
  e = now / 1000 + lease_minutes * 60;
  w = who;
}

-- What a claim answers: nothing (204), or the task with its token's claims and whether its
-- result goes to staging.
pub record Granted : Type 0 where
  pub task : Task
  pub claims : Claims
  pub upload : Bool

unfoldable pub granted : String → ℕ → Task → Granted
unfolding lease_claims
granted who now t = record {
  task = t;
  claims = lease_claims t who now;
  upload = not (is_project t.trust) || is_review (or_else t.params []);
}

task_id : Option Task → Option ℕ
task_id none = none
task_id (some t) = some t.id

-- The store behind the claim's statements: the tasks, the worker's row, the registration.
unfoldable pub claim_store : Claimant → Touch → Store → Option Granted × Store
unfolding claim_next touch_worker show_building granted task_id
claim_store c touch st =
    let (task, tasks) = claim_next c st.tasks in
    let st' : Store = record st {
      tasks = tasks;
      workers = touch_worker touch c.now (task_id task) st.workers;
      registrations = show_building c task st.registrations;
    } in
    (elim task [ none ↦ none | some t ↦ some (granted c.worker c.now t) ], st')

unfoldable pub claim_worker : WorkerIdentity → ClaimBody → ℕ → Store → Option Granted × Store
unfolding claim_store claimant claim_touch agent_report
claim_worker w b now st =
    let probe = agent_report b.agent_status b.agent_error b.agent_checked_at in
    let c = claimant w b probe now st in claim_store c (claim_touch c b probe) st

-- `handleClaim`
unfoldable pub handle_claim : Actor → ClaimBody → ℕ → Store → Reply (Option Granted × Store)
unfolding claim_worker repo_arch
handle_claim (Actor.job j) b now st = do
  arch ← or_refuse (repo_arch (or_else b.arch "")) 400
  refuse 403
handle_claim (Actor.worker w) b now st = do
  arch ← or_refuse (repo_arch (or_else b.arch "")) 400
  require (arch_eq w.arch arch) 400
  answer (claim_worker w b now st)
