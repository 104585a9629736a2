-- ===== src/Factory/Complete/Build.antt =====
-- The two ways a build completes (handleComplete of worker/src/routes/factory.ts): staged for a
-- maintainer, or published.
use omarchy_cli.Base.{
  Bool, List, Option, String, Text, [], codes, decimal, exists, false, first, if◌then◌else◌,
  is_some, ltb, none, not, or_else, select, shown, slice_back, some, str_eq, text_eq, true, update,
  ℕ, ◌&&◌, ◌++◌, ◌==◌, ◌||◌, ◌∷◌,
}
use omarchy_cli.Factory.Rows.{
  Approval, Arch, Decision, Indexed, Kind, Level, Report, Stage, StagingObject, Status, Store, Task,
  Value, Verdict, Vet, param,
}
use omarchy_cli.Factory.Tests.{arch_eq, has_id, is_project, is_queued, is_staged, kind_eq, trust_eq}
use omarchy_cli.Factory.Journal.{arch_name, arch_text, factory_event, set_stage}
use omarchy_cli.Factory.Workers.{coalesce}
use omarchy_cli.Factory.Enqueue.{blank_task, insert_task, is_empty}
use omarchy_cli.Factory.Record.{evidence_files, record_evidence, request_of}
use omarchy_cli.Factory.Lease.{review_of, staging_prefix}
use omarchy_cli.Factory.Complete.Job.{Attest, CompleteBody, attested_store, one_done, took}

-- The files that must be in staging before a build is staged.
unfoldable pub staged_files : String → List Text
staged_files filename = codes filename ∷ codes "PKGBUILD" ∷ codes "build.log" ∷ []

uploaded : ℕ → Text → Text → List StagingObject → Bool
uploaded id prefix file rows = exists (λ o. o.task_id == id && text_eq o.key (prefix ++ file)) rows

unfoldable pub all_uploaded : ℕ → Text → List Text → List StagingObject → Bool
unfolding uploaded
all_uploaded id prefix [] rows = true
all_uploaded id prefix (f ∷ fs) rows = uploaded id prefix f rows && all_uploaded id prefix fs rows

-- `vet.verdict === "fail"`
unfoldable pub gate_failed : Option Vet → Bool
gate_failed none = false
gate_failed (some v) = elim v.verdict [ Verdict.fail ↦ true | _ ↦ false ]

-- The SET clause of a build that is staged.
unfoldable pub stage_task : CompleteBody → Text → Option Vet → ℕ → Task → Task
stage_task b prefix vet now t = record t {
  status = Status.staged;
  finished_at = some now;
  result_sha256 = b.sha256;
  result_filename = b.filename;
  result_version = b.version;
  version = coalesce t.version b.version;
  duration_ms = b.duration_ms;
  log_tail = some (slice_back 4000 (or_else b.log_tail []));
  staged_prefix = some prefix;
  result = elim vet [ none ↦ none | some v ↦ some (Report.gate v) ];
  lease_owner = none;
  lease_expires_at = none;
}

-- A staged build of the same package, architecture and trust with a smaller id.
abbrev pub older_staged : Task → Task → Bool
older_staged t u =
    kind_eq u.kind Kind.build
    && trust_eq u.trust t.trust
    && is_staged u.status
    && str_eq u.name t.name
    && arch_eq u.arch t.arch
    && ltb u.id t.id

unfoldable pub superseded : Text → Task → Task
superseded note u = record u { status = Status.cancelled; error = some note }

-- json_extract(params, '$.task') = ?
abbrev pub audits : ℕ → Task → Bool
audits id u =
    kind_eq u.kind Kind.audit && is_queued u.status && (elim (param "task" (or_else u.params [])) [
      | some v ↦ elim v [ Value.num n ↦ n == id | _ ↦ false ]
      | none ↦ false
    ])

-- One older build: it is cancelled, and the audit of it that has not started.
unfoldable pub supersede_one : Task → Text → Task → List Task → List Task
unfolding superseded
supersede_one t note o tasks =
    update (audits o.id) (superseded (codes "the build it audited was superseded"))
      (update (has_id o.id) (superseded note) tasks)

unfoldable pub supersede : Task → Text → List Task → List Task → List Task
unfolding supersede_one
supersede t note [] tasks = tasks
supersede t note (o ∷ olds) tasks = supersede t note olds (supersede_one t note o tasks)

unfoldable pub superseded_note : Task → CompleteBody → Text
superseded_note t b =
    codes "superseded by task "
    ++ decimal t.id
    ++ (if is_empty (shown b.version) then [] else codes " (" ++ shown b.version ++ codes ")")

-- The row of the second agent's audit of a staged build.
unfoldable pub audit_task : Task → CompleteBody → ℕ → ℕ → Task
unfolding blank_task
audit_task t b now id =
    let row =
      blank_task id t.name t.arch (codes "staging:" ++ decimal t.id)
        (codes "staged as task " ++ decimal t.id) now in
    record row {
      version = b.version;
      priority = 40;
      publish = false;
      kind = Kind.audit;
      params = some (
          ("task", Value.num t.id)
          ∷ ("name", Value.str t.name)
          ∷ ("owner", (elim t.owner [ none ↦ Value.null | some o ↦ Value.str o ]))
          ∷ ("arch", Value.str (arch_name t.arch))
          ∷ []);
    }

verdict_text : Option Vet → Text
verdict_text none = codes "n/a"
verdict_text (some v) = elim v.verdict [
  | Verdict.pass ↦ codes "pass"
  | Verdict.fail ↦ codes "fail"
  | Verdict.unknown ↦ codes "unknown"
]

warnings_text : Option Vet → Text
warnings_text none = []
warnings_text (some v) =
    if v.warnings == 0 then [] else codes " with " ++ decimal v.warnings ++ codes " warning(s)"

staged_detail : Task → CompleteBody → Option Vet → String → Text
unfolding verdict_text warnings_text
staged_detail t b vet who =
    if review_of t
    then shown b.version
      ++ codes " for "
      ++ arch_text t.arch
      ++ codes " built by the project (task "
      ++ decimal t.id
      ++ codes "), gate "
      ++ verdict_text vet
      ++ warnings_text vet
      ++ codes "; waiting for a maintainer's approval"
    else shown b.version
      ++ codes " built for "
      ++ arch_text t.arch
      ++ codes " by "
      ++ codes who
      ++ codes "; waiting for a maintainer"

review_number : Task → ℕ
review_number t = elim (param "review" (or_else t.params [])) [
  | some v ↦ elim v [ Value.num n ↦ n | _ ↦ 0 ]
  | none ↦ 0
]

staged_summary : Task → CompleteBody → String → Text
unfolding review_number took
staged_summary t b who =
    codes t.name
    ++ codes " "
    ++ shown b.version
    ++ (if review_of t
        then codes " built by the project for "
          ++ arch_text t.arch
          ++ codes " on "
          ++ codes who
          ++ took 60000 (codes " min") b.duration_ms
          ++ codes " — from "
          ++ codes (or_else t.owner "?")
          ++ codes "'s build "
          ++ decimal (review_number t)
          ++ codes ", staged for approval"
        else codes " built for "
          ++ arch_text t.arch
          ++ codes " by "
          ++ codes who
          ++ took 60000 (codes " min") b.duration_ms
          ++ codes " — staged for a maintainer ("
          ++ codes (or_else t.owner "null")
          ++ codes ")")

-- The statements of a build that is staged, in their order.
unfoldable pub stage_store : Task → CompleteBody → Option Vet → String → ℕ → Store → Store
unfolding stage_task supersede superseded_note audit_task staged_detail staged_summary one_done
stage_store t b vet who now st =
    let prefix = staging_prefix t in
    let staged = update (has_id t.id) (stage_task b prefix vet now) st.tasks in
    let st' : Store = record st {
      tasks = supersede t (superseded_note t b) (select (older_staged t) staged) staged;
      pool =
          record_evidence st.staging t.name (request_of t.name st.registrations) t.id prefix
            evidence_files st.pool;
      workers = one_done who now st.workers;
      registrations =
          set_stage t.name Stage.staged (staged_detail t b vet who) now st.registrations;
      events = factory_event "build" Level.ok (staged_summary t b who) ∷ st.events;
    } in
    insert_task (audit_task t b now) st'

-- A build whose result goes to staging: a contributor's, or the project's review build.
abbrev pub goes_to_staging : Task → Bool
goes_to_staging t = not (is_project t.trust) || review_of t

-- The object of the pool that a published build is: by its hash, else by its file.
unfoldable pub indexed_as : String → String → Arch → List Indexed → Option String
indexed_as sha filename arch rows = elim (first (λ p. str_eq p.sha256 sha) rows) [
  | some p ↦ some p.sha256
  | none ↦ elim (first (λ p. str_eq p.filename filename && arch_eq p.repo_arch arch) rows) [
    | some p ↦ some p.sha256
    | none ↦ none
  ]
]

-- The SET clause of a build that is done.
unfoldable pub build_done : CompleteBody → String → ℕ → Task → Task
build_done b sha now t = record t {
  status = Status.done;
  finished_at = some now;
  result_sha256 = some sha;
  result_filename = b.filename;
  result_version = b.version;
  duration_ms = b.duration_ms;
  log_tail = some (slice_back 4000 (or_else b.log_tail []));
  lease_expires_at = none;
}

-- An approval of the name and architecture that no build has answered.
unanswered : Task → Approval → Bool
unanswered t a =
    str_eq a.name t.name
    && arch_eq a.arch t.arch
    && (elim a.decision [ Decision.approved ↦ true | Decision.rejected ↦ false ])
    && not (is_some a.rebuild_task)

-- ORDER BY id DESC LIMIT 1
latest : Option Approval → Approval → Approval
latest none a = a
latest (some b) a = if ltb a.id b.id then b else a

unfoldable pub latest_unanswered : Task → List Approval → Option Approval
unfolding unanswered latest
latest_unanswered t [] = none
latest_unanswered t (a ∷ rows) =
    let rest = latest_unanswered t rows in if unanswered t a then some (latest rest a) else rest

-- The approval that led here keeps the task.
unfoldable pub answer_approval : ℕ → Option Approval → List Approval → List Approval
answer_approval id none rows = rows
answer_approval id (some a) rows =
    update (λ c. c.id == a.id) (λ c. record c { rebuild_task = some id }) rows

unfoldable pub publish_store : Task → CompleteBody → ℕ → Store → Store
unfolding latest_unanswered answer_approval
publish_store t b now st = record st {
  registrations =
      set_stage t.name Stage.published
        (shown b.version
          ++ codes " for "
          ++ arch_text t.arch
          ++ codes " built by the project (task "
          ++ decimal t.id
          ++ codes "), signed, in edge")
        now st.registrations;
  approvals = answer_approval t.id (latest_unanswered t st.approvals) st.approvals;
}

unfoldable pub done_summary : Task → CompleteBody → String → Text
unfolding took
done_summary t b who =
    codes t.name
    ++ codes " "
    ++ shown b.version
    ++ codes " built for "
    ++ arch_text t.arch
    ++ codes " by "
    ++ codes who
    ++ took 60000 (codes " min") b.duration_ms
    ++ (if t.publish then [] else codes " (dry run, not published)")

-- The statements of a build that is done.
unfoldable pub done_store :
    Attest → Task → CompleteBody → String → String → ℕ → Store → Bool × Store
unfolding build_done one_done publish_store done_summary attested_store
done_store attest t b sha who now st =
    let ended : Store = record st {
      tasks = update (has_id t.id) (build_done b sha now) st.tasks;
      workers = one_done who now st.workers;
    } in
    let kept = if t.publish then publish_store t b now ended else ended in
    let told : Store = record kept {
      events = factory_event "build" Level.ok (done_summary t b who) ∷ kept.events;
    } in
    if t.publish then attested_store attest t (some sha) told else (false, told)
