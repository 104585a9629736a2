-- ===== src/Factory/Enqueue.antt =====
-- Queueing and cancelling builds: parseArches, splitByUpstream, enqueue, handleEnqueue and
-- handleCancelTask of worker/src/routes/factory.ts, and createJob of worker/src/scheduler.ts.
use omarchy_cli.Base.{
  Bool, List, Option, String, Text, [], codes, decimal, exists, false, first, if◌then◌else◌, length,
  none, not, or_else, shown_after, some, str_eq, suc, text_eq, true, update, ℕ, ◌&&◌, ◌++◌, ◌||◌,
  ◌∷◌,
}
use omarchy_cli.Factory.Rows.{Arch, Kind, Level, Provided, Status, Store, Task, Trust}
use omarchy_cli.Factory.Tests.{arch_eq, has_id, is_open}
use omarchy_cli.Factory.Reply.{Reply, require, ◌>>◌, answer}
use omarchy_cli.Factory.Journal.{arch_text, factory_event}

-- Which architecture a text names (isRepoArch of worker/src/r2.ts).
unfoldable pub repo_arch : String → Option Arch
repo_arch s =
    if str_eq s "x86_64"
    then some Arch.x86_64
    else if str_eq s "aarch64"
    then some Arch.aarch64
    else none

known_arches : List String → List Arch
unfolding repo_arch
known_arches [] = []
known_arches (s ∷ ss) = elim (repo_arch s) [ some a ↦ a ∷ known_arches ss | none ↦ known_arches ss ]

-- `parseArches`: the texts of the list; both architectures where no list is given.
unfoldable pub parse_arches : Option (List String) → List Arch
unfolding known_arches
parse_arches none = Arch.x86_64 ∷ Arch.aarch64 ∷ []
parse_arches (some list) = known_arches list

pub record Skipped : Type 0 where
  pub arch : Arch
  pub source : String
  pub version : Text

-- Somebody but the factory and chaotic ships the name for this architecture.
unfoldable pub ships : Arch → Provided → Bool
ships arch p = arch_eq p.arch arch && not (str_eq p.source "factory" || str_eq p.source "chaotic")

pub record Split : Type 0 where
  pub build : List Arch
  pub skipped : List Skipped

unfoldable pub split_step : Bool → Arch → Option Provided → Split → Split
split_step override arch none s = record s { build = arch ∷ s.build }
split_step true arch (some p) s = record s { build = arch ∷ s.build }
split_step false arch (some p) s = record s {
  skipped = record { arch = arch; source = p.source; version = p.version } ∷ s.skipped;
}

-- `splitByUpstream`
unfoldable pub split_by_upstream : List Provided → List Arch → Bool → Split
unfolding ships split_step
split_by_upstream provided [] override = record { build = []; skipped = [] }
split_by_upstream provided (arch ∷ arches) override =
    split_step override arch (first (ships arch) provided)
      (split_by_upstream provided arches override)

-- A row with the columns' defaults (worker/migrations): the first of three attempts to come, a
-- build for the project, published.
unfoldable pub blank_task : ℕ → String → Arch → Text → Text → ℕ → Task
blank_task id name arch ref reason now = record {
  id = id;
  name = name;
  arch = arch;
  version = none;
  pkgbuild_ref = ref;
  reason = reason;
  priority = 100;
  status = Status.queued;
  attempts = 0;
  max_attempts = 3;
  lease_owner = none;
  lease_expires_at = none;
  started_at = none;
  finished_at = none;
  result_sha256 = none;
  result_filename = none;
  result_version = none;
  duration_ms = none;
  log_tail = none;
  error = none;
  created_at = now;
  kind = Kind.build;
  params = none;
  result = none;
  publish = true;
  trust = Trust.project;
  owner = none;
  staged_prefix = none;
  shared_after = none;
}

-- INSERT INTO build_tasks … RETURNING id: the row gets the next id.
unfoldable pub insert_task : (ℕ → Task) → Store → Store
insert_task row st = record st { tasks = row st.next_task ∷ st.tasks; next_task = suc st.next_task }

pub record Order : Type 0 where
  pub name : String
  pub pkgbuild_ref : Text
  pub reason : Text
  pub version : Option Text
  pub priority : Option ℕ
  pub publish : Bool

-- The row of an order for one architecture.
unfoldable pub order_task : Order → Arch → ℕ → ℕ → Task
unfolding blank_task
order_task t arch now id =
    let row = blank_task id t.name arch t.pkgbuild_ref t.reason now in
    record row { version = t.version; priority = or_else t.priority 100; publish = t.publish }

-- An open task of the same name, architecture and recipe.
abbrev pub same_order : Order → Arch → Task → Bool
same_order t arch u =
    str_eq u.name t.name
    && arch_eq u.arch arch
    && text_eq u.pkgbuild_ref t.pkgbuild_ref
    && is_open u.status

-- One architecture of `enqueue`: the id of the open task, or of a new one.
unfoldable pub enqueue_one : Order → Arch → ℕ → Store → ℕ × Store
unfolding order_task insert_task
enqueue_one t arch now st = elim (first (same_order t arch) st.tasks) [
  | some u ↦ (u.id, st)
  | none ↦ (st.next_task, insert_task (order_task t arch now) st)
]

-- `enqueue`
unfoldable pub enqueue : Order → List Arch → ℕ → Store → List ℕ × Store
unfolding enqueue_one
enqueue t [] now st = ([], st)
enqueue t (arch ∷ arches) now st =
    let (id, st') = enqueue_one t arch now st in
    let (ids, st'') = enqueue t arches now st' in (id ∷ ids, st'')

pub record EnqueueBody : Type 0 where
  pub name : Option String
  pub arches : Option (List String)
  pub pkgbuild_ref : Option Text
  pub reason : Option Text
  pub version : Option Text
  pub priority : Option ℕ
  pub override : Bool
  -- `publish === false` asks for a dry run.
  pub publish : Option Bool

pub record Enqueued : Type 0 where
  pub tasks : List ℕ
  pub arches : List Arch
  pub skipped : List Skipped

abbrev pub nonempty_text : Option Text → Bool
nonempty_text none = false
nonempty_text (some []) = false
nonempty_text (some (c ∷ s)) = true

abbrev pub nonempty_name : Option String → Bool
nonempty_name none = false
nonempty_name (some s) = not (str_eq s "")

unfoldable pub is_dry : Option Bool → Bool
is_dry (some false) = true
is_dry _ = false

abbrev pub is_empty {ℓ} : {A : Type ℓ} → List A → Bool
is_empty [] = true
is_empty (x ∷ xs) = false

arch_list : List Arch → Text
arch_list [] = []
arch_list (a ∷ []) = arch_text a
arch_list (a ∷ b ∷ more) = arch_text a ++ codes ", " ++ arch_list (b ∷ more)

skipped_list : List Skipped → Text
skipped_list [] = []
skipped_list (s ∷ []) =
    arch_text s.arch ++ codes " skipped, " ++ codes s.source ++ codes " ships " ++ s.version
skipped_list (s ∷ r ∷ rs) =
    arch_text s.arch
    ++ codes " skipped, "
    ++ codes s.source
    ++ codes " ships "
    ++ s.version
    ++ codes ", "
    ++ skipped_list (r ∷ rs)

-- The journal's line of an enqueue.
unfoldable pub enqueue_summary : Order → Split → List ℕ → Text
unfolding arch_list skipped_list
enqueue_summary t split tasks =
    codes t.name
    ++ shown_after (codes " ") t.version
    ++ codes ": "
    ++ decimal (length tasks)
    ++ codes " build task(s) queued for "
    ++ arch_list split.build
    ++ codes " ("
    ++ t.reason
    ++ codes ")"
    ++ (if is_empty split.skipped then [] else codes "; " ++ skipped_list split.skipped)
    ++ (if t.publish then [] else codes "; dry run, nothing will be published")

-- `handleEnqueue`. `provided` answers `providedBy`.
unfoldable pub handle_enqueue :
    (String → List Provided) → EnqueueBody → ℕ → Store → Reply (Enqueued × Store)
unfolding enqueue_summary is_dry
handle_enqueue provided b now st = do
  require (nonempty_name b.name && nonempty_text b.pkgbuild_ref && nonempty_text b.reason) 400
  let name = or_else b.name ""
  let split = split_by_upstream (provided name) (parse_arches b.arches) b.override
  require (not (is_empty split.build)) 409
  let order : Order = record {
    name = name;
    pkgbuild_ref = or_else b.pkgbuild_ref [];
    reason = or_else b.reason [];
    version = b.version;
    priority = b.priority;
    publish = not (is_dry b.publish);
  }
  let queued = enqueue order split.build now st
  let line = factory_event "enqueue" Level.ok (enqueue_summary order split queued.0)
  answer (
    record { tasks = queued.0; arches = split.build; skipped = split.skipped },
    record (queued.1) { events = line ∷ queued.1.events },
  )

unfoldable pub cancel : ℕ → Task → Task
cancel now t = record t { status = Status.cancelled; finished_at = some now }

-- `handleCancelTask`: refused unless the task is queued or leased.
unfoldable pub handle_cancel : ℕ → ℕ → Store → Reply Store
unfolding cancel
handle_cancel id now st = do
  require (exists (λ t. has_id id t && is_open t.status) st.tasks) 409
  answer (record st { tasks = update (λ t. has_id id t && is_open t.status) (cancel now) st.tasks })
