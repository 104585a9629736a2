-- ===== src/Schedule/Queue.antt =====
-- The scheduler's jobs in the queue: jobMode, recentJobs, createJob, the loop of runScheduler over
-- the rules with a job, and factoryDemand (worker/src/scheduler.ts).
use omarchy_cli.Base.{
  Bool, List, Option, String, Text, [], codes, decimal, exists, false, if◌then◌else◌, is_some, leb,
  length, ltb, map, none, not, or_else, select, some, str_eq, text_eq, true, ℕ, ◌&&◌, ◌*◌, ◌++◌,
  ◌+◌, ◌==◌, ◌||◌, ◌∷◌, take,
}
use omarchy_cli.Factory.Rows.{
  Arch, Event, Kind, Level, Params, Source, Store, Task, Value, Worker, param,
}
use omarchy_cli.Schedule.Rules.{Job, Rule, jobs_of}
use omarchy_cli.Schedule.Due.{RunSummary, is_due, minute_ms}
use omarchy_cli.Factory.Claim.{kind_name}
use omarchy_cli.Factory.Enqueue.{blank_task, insert_task, is_empty}
use omarchy_cli.Factory.Journal.{arch_text}
use omarchy_cli.Factory.Tests.{arch_eq, is_open, is_project, is_queued, kind_eq, kind_in}
use omarchy_cli.Factory.Workers.{coalesce}

unfoldable pub option_eq {ℓ} : {A : Type ℓ} → (A → A → Bool) → Option A → Option A → Bool
option_eq same none none = true
option_eq same (some a) (some b) = same a b
option_eq same _ _ = false

unfoldable pub list_eq {ℓ} : {A : Type ℓ} → (A → A → Bool) → List A → List A → Bool
list_eq same [] [] = true
list_eq same (a ∷ more) (b ∷ rest) = same a b && list_eq same more rest
list_eq same _ _ = false

unfoldable pub source_eq : Source → Source → Bool
unfolding option_eq
source_eq a b =
    str_eq a.source b.source
    && arch_eq a.arch b.arch
    && str_eq a.ring b.ring
    && str_eq a.base_url b.base_url
    && str_eq a.db_name b.db_name
    && str_eq a.keyring b.keyring
    && option_eq str_eq a.defer_to b.defer_to

-- Two values have the same JSON text; a text is one, whether it is kept as a string or as prose.
unfoldable pub value_eq : Value → Value → Bool
unfolding list_eq source_eq
value_eq Value.null Value.null = true
value_eq (Value.num a) (Value.num b) = a == b
value_eq (Value.str a) (Value.str b) = str_eq a b
value_eq (Value.str a) (Value.prose b) = text_eq (codes a) b
value_eq (Value.prose a) (Value.str b) = text_eq a (codes b)
value_eq (Value.prose a) (Value.prose b) = text_eq a b
value_eq (Value.names a) (Value.names b) = list_eq str_eq a b
value_eq (Value.texts a) (Value.texts b) = list_eq text_eq a b
value_eq (Value.sources a) (Value.sources b) = list_eq source_eq a b
value_eq _ _ = false

-- `params = ?` with the JSON text of the other parameters: the same keys in the same order.
unfoldable pub params_eq : Params → Params → Bool
unfolding value_eq list_eq
params_eq = list_eq (λ (j, v) (k, w). str_eq j k && value_eq v w)

unfoldable pub same_params : Option Params → Params → Bool
unfolding params_eq
same_params none ps = false
same_params (some qs) ps = params_eq qs ps

-- A row of `recentJobs`, shaped like a run.
unfoldable pub job_run : Task → RunSummary
job_run t = record {
  created_at = t.created_at;
  status = if is_open t.status then "in_progress" else "completed";
  event = "schedule";
  display_title = none;
}

abbrev pub same_job : Kind → Params → Task → Bool
same_job kind params t = kind_eq t.kind kind && same_params t.params params

-- `recentJobs`: the ten newest tasks of the kind with these parameters.
unfoldable pub recent_jobs : Kind → Params → List Task → List RunSummary
unfolding job_run take select same_params
recent_jobs kind params tasks = map job_run (take 10 (select (same_job kind params) tasks))

-- The row of a job.
unfoldable pub job_task : Job → Text → ℕ → ℕ → Task
unfolding blank_task
job_task job reason now id =
    let row = blank_task id (kind_name job.kind) job.arch (codes "-") reason now in
    record row { priority = 50; kind = job.kind; params = some job.params }

-- `createJob`
unfoldable pub create_job : Job → Text → ℕ → Store → ℕ × Store
unfolding job_task insert_task
create_job job reason now st = (st.next_task, insert_task (job_task job reason now) st)

-- JavaScript's white space.
abbrev is_space : ℕ → Bool
is_space c =
    (leb 9 c && leb c 13)
    || c == 32
    || c == 160
    || c == 5760
    || (leb 8192 c && leb c 8202)
    || c == 8232
    || c == 8233
    || c == 8239
    || c == 8287
    || c == 12288
    || c == 65279

trim_start : Text → Text
trim_start [] = []
trim_start (c ∷ s) = let rest = trim_start s in if is_space c then rest else c ∷ s

trim_end : Text → Text
trim_end [] = []
trim_end (c ∷ s) = let rest = trim_end s in if is_space c && is_empty rest then [] else c ∷ rest

-- `s.trim()`
unfoldable pub trim : Text → Text
unfolding trim_start trim_end
trim s = trim_end (trim_start s)

-- `s.split(",")`, the piece in front of the first comma and the others.
unfoldable pub split_commas : Text → Text × List Text
split_commas [] = ([], [])
split_commas (c ∷ s) =
    let (piece, more) = split_commas s in
    if c == b',' then ([], piece ∷ more) else (c ∷ piece, more)

-- `jobMode`: JOB_KINDS lists the kind.
unfoldable pub job_mode : Option Text → Kind → Bool
unfolding split_commas trim
job_mode job_kinds kind =
    let (piece, more) = split_commas (or_else job_kinds []) in
    exists (λ s. text_eq (trim s) (codes (kind_name kind))) (piece ∷ more)

-- A name among the parameters.
unfoldable pub name_param : String → Params → Option String
name_param k ps = elim (param k ps) [
  | some v ↦ elim v [ Value.str s ↦ some s | _ ↦ none ]
  | none ↦ none
]

-- A parameter that counts: given, and not the empty text.
unfoldable pub filled_param : String → Params → Option String
unfolding name_param
filled_param k ps = elim (name_param k ps) [
  | none ↦ none
  | some s ↦ if str_eq s "" then none else some s
]

unfoldable pub label_of : Job → Text
unfolding filled_param
label_of job =
    let arch = codes "/" ++ arch_text job.arch in
    codes (kind_name job.kind) ++ (elim (filled_param "source" job.params) [
      | some s ↦ codes " " ++ codes s ++ arch
      | none ↦ elim (filled_param "to" job.params) [
        | some s ↦ codes " → " ++ codes s
        | none ↦ elim (filled_param "ring" job.params) [
          | some s ↦ codes " " ++ codes s ++ arch
          | none ↦ []
        ]
      ]
    ])

-- The journal's line of a job that was queued.
unfoldable pub dispatch_event : Job → Text → Event
unfolding name_param
dispatch_event job summary = record {
  kind = "dispatch";
  ring = coalesce (name_param "to" job.params) (name_param "ring" job.params);
  source = name_param "source" job.params;
  status = Level.ok;
  summary = summary;
}

-- One job of a rule: queued when it is due.
unfoldable pub schedule_job : Rule → Job → ℕ → Store → Store
unfolding is_due recent_jobs create_job dispatch_event label_of
schedule_job rule job now st =
    let verdict =
      is_due (record rule { inputs = none }) (recent_jobs job.kind job.params st.tasks) now in
    let (id, made) = create_job job (codes "scheduled") now st in
    if verdict.due
    then record made {
      events =
          dispatch_event job (
            label_of job
            ++ codes " queued by the pool scheduler as task "
            ++ decimal id
            ++ codes " — "
            ++ verdict.why)
          ∷ made.events;
    }
    else st

unfoldable pub schedule_jobs : Rule → List Job → ℕ → Store → Store
unfolding schedule_job
schedule_jobs rule [] now st = st
schedule_jobs rule (job ∷ more) now st = schedule_jobs rule more now (schedule_job rule job now st)

-- The kinds that the cost guard pauses.
abbrev pub paused_kinds : List Kind
paused_kinds = Kind.sync ∷ Kind.promote ∷ Kind.render ∷ Kind.security ∷ Kind.enqueue ∷ []

-- Whether a rule's jobs are looked at: its kind is a pulled one, and the guard does not pause it.
unfoldable pub runs_rule : Option Text → Bool → Rule → Bool
unfolding job_mode
runs_rule job_kinds guard rule = elim rule.job [
  | none ↦ false
  | some j ↦ job_mode job_kinds j.kind && not (guard && kind_in j.kind paused_kinds)
]

-- The loop over the rules whose kind runs as pulled jobs.
unfoldable pub schedule_rules : Option Text → Bool → List Rule → ℕ → Store → Store
unfolding runs_rule schedule_jobs jobs_of
schedule_rules job_kinds guard [] now st = st
schedule_rules job_kinds guard (rule ∷ more) now st =
    schedule_rules job_kinds guard more now
      (if runs_rule job_kinds guard rule then schedule_jobs rule (jobs_of rule) now st else st)

-- A row of `factoryDemand`.
pub record Demand : Type 0 where
  pub arch : Arch
  pub queued : ℕ
  pub alive : ℕ
  pub pool : ℕ

abbrev pub waits_for_project : Arch → Task → Bool
waits_for_project arch t =
    is_queued t.status
    && (not (kind_eq t.kind Kind.build) || is_project t.trust)
    && arch_eq t.arch arch

-- Alive and idle.
abbrev pub is_idle : ℕ → Arch → Worker → Bool
is_idle now arch w =
    arch_eq w.arch arch
    && ltb now (w.last_seen + 10 * minute_ms)
    && not (is_some w.current_task)
    && is_project w.trust
    && not (is_some w.revoked_at)

unfoldable pub demand_of : ℕ → Store → Arch → List Demand
unfolding select
demand_of now st arch =
    let waiting = select (waits_for_project arch) st.tasks in
    if is_empty waiting
    then []
    else (record {
      arch = arch;
      queued = length waiting;
      alive = length (select (is_idle now arch) st.workers);
      pool = length waiting;
    })
      ∷ []

-- `factoryDemand`, the groups in the order of their names.
unfoldable pub factory_demand : ℕ → Store → List Demand
unfolding demand_of
factory_demand now st = demand_of now st Arch.aarch64 ++ demand_of now st Arch.x86_64
