-- ===== src/Factory/Complete/Job.antt =====
-- Completing a task: handleComplete of worker/src/routes/factory.ts. The three ways it ends are
-- a pool job, a build that is staged for a maintainer, and a build that is published. The
-- attestation (writeAttestation of worker/src/routes/seal.ts) is a parameter: for an object it
-- throws, or tells whether it wrote one, with the pool's bucket behind it.
use omarchy_cli.Base.{
  Bool, List, Option, String, Text, [], codes, decimal, exists, false, first, if◌then◌else◌,
  is_some, none, not, or_else, slice_back, some, str_eq, true, update, ℕ, ◌&&◌, ◌++◌, ◌+◌, ◌==◌,
  ◌∷◌, suc, zero, ◌/◌,
}
use omarchy_cli.Factory.Rows.{
  Blob, Kind, Level, Params, Registration, Report, Stage, Status, Store, Task, Value, Worker, param,
}
use omarchy_cli.Factory.Tests.{has_id, is_staged, kind_eq}
use omarchy_cli.Factory.Enqueue.{is_empty}
use omarchy_cli.Factory.Claim.{kind_name}
use omarchy_cli.Factory.Journal.{factory_event, is_named, set_stage}
use omarchy_cli.Factory.Workers.{coalesce, is_worker}
use omarchy_cli.Factory.Record.{audit_files, record_evidence, request_of}

pub record CompleteBody : Type 0 where
  pub sha256 : Option String
  pub filename : Option String
  pub version : Option Text
  pub duration_ms : Option ℕ
  pub log_tail : Option Text
  pub result : Option Params
  pub summary : Option Text

-- What `writeAttestation` comes to: whether it wrote one, with the pool's bucket behind it, or the
-- text of what it threw.
pub data Attestation : Type 0 where
  written : Bool → List Blob → Attestation
  thrown : Text → Attestation

abbrev pub Attest : Type 0
Attest = String → List Blob → Attestation

-- UPDATE build_workers SET last_seen = ?, current_task = NULL, builds_done = builds_done + 1
unfoldable pub one_done : String → ℕ → List Worker → List Worker
one_done who now =
    update (is_worker who)
      (λ w. record w { last_seen = now; current_task = none; builds_done = w.builds_done + 1 })

-- What is kept of an attestation: what was thrown is a line of the journal, not of the answer.
unfoldable pub sealed_store : Task → Store → Attestation → Bool × Store
unfolding factory_event
sealed_store t st (Attestation.written wrote pool) = (wrote, record st { pool = pool })
sealed_store t st (Attestation.thrown why) = (
  false,
  record st {
    events =
        factory_event "build" Level.warn
          (codes t.name ++ codes ": attestation not written — " ++ why)
        ∷ st.events;
  },
)

-- The attestation of the object that a result names, where it names one.
unfoldable pub attested_store : Attest → Task → Option String → Store → Bool × Store
unfolding sealed_store
attested_store attest t none st = (false, st)
attested_store attest t (some sha) st = sealed_store t st (attest sha st.pool)

-- The SET clause of a job that is done: the lease ends, its holder stays on the row.
unfoldable pub job_done : CompleteBody → ℕ → Task → Task
job_done b now t = record t {
  status = Status.done;
  finished_at = some now;
  duration_ms = b.duration_ms;
  log_tail = some (slice_back 4000 (or_else b.log_tail []));
  result = elim b.result [ none ↦ none | some r ↦ some (Report.job r) ];
  lease_expires_at = none;
}

-- `Number(p.task)` where `p.task` is given and not zero; the pool writes it as a number.
unfoldable pub task_param : Option Params → Option ℕ
task_param none = none
task_param (some ps) = elim (param "task" ps) [
  | some v ↦ elim v [ Value.num n ↦ (if n == 0 then none else some n) | _ ↦ none ]
  | none ↦ none
]

unfoldable pub sha_of : Option Params → Option String
sha_of none = none
sha_of (some r) = elim (param "sha256" r) [
  | some v ↦ elim v [ Value.str s ↦ some s | _ ↦ none ]
  | none ↦ none
]

text_of : Option Value → Text
text_of (some (Value.str s)) = codes s
text_of (some (Value.prose s)) = s
text_of _ = []

-- UPDATE build_tasks SET status = 'done', … WHERE id = ? AND status = 'staged'
unfoldable pub published_build : Option String → Task → Task
published_build sha t = record t {
  status = Status.done;
  result_sha256 = coalesce sha t.result_sha256;
  publish = true;
}

unfoldable pub publish_detail : CompleteBody → Params → ℕ → Text
unfolding text_of
publish_detail b p built =
    text_of (coalesce (param "version" (or_else b.result [])) (param "version" p))
    ++ codes " for "
    ++ text_of (param "arch" p)
    ++ codes " built by the project (task "
    ++ decimal built
    ++ codes "), approved, signed, in edge"

-- A publish job: the registration is published, the build's row says so, the seal is written.
unfoldable pub finish_publish : Attest → Task → CompleteBody → ℕ → Option ℕ → Store → Store
unfolding publish_detail published_build sha_of attested_store set_stage
finish_publish attest t b now none st = st
finish_publish attest t b now (some built) st =
    let st' : Store = record st {
      registrations =
          set_stage t.name Stage.published (publish_detail b (or_else t.params []) built) now
            st.registrations;
      tasks =
          update (λ u. has_id built u && is_staged u.status) (published_build (sha_of b.result))
            st.tasks;
    } in
    (attested_store attest t (sha_of b.result) st').1

abbrev categories : List String
categories =
    "terminal" ∷ "editors" ∷ "development" ∷ "browsers" ∷ "communication" ∷ "media" ∷ "graphics"
    ∷ "office" ∷ "games" ∷ "system" ∷ "networking" ∷ "security" ∷ "fonts" ∷ "themes" ∷ "libraries"
    ∷ "other" ∷ []

-- The category that a result proposes, if it is one (isCategory of worker/src/categories.ts).
proposed_category : Option Params → Option String
proposed_category none = none
proposed_category (some r) = elim (param "category" r) [
  | some v ↦ elim v [ Value.str s ↦ first (str_eq s) categories | _ ↦ none ]
  | none ↦ none
]

uncategorised : String → Registration → Bool
uncategorised name p = is_named name p && not (is_some p.category)

-- The agent's proposal is taken only while no category is set; then the journal says so.
unfoldable pub take_category : String → ℕ → Option String → Store → Store
unfolding factory_event uncategorised
take_category name audited none st = st
take_category name audited (some c) st =
    if exists (uncategorised name) st.registrations
    then record st {
      registrations =
          update (uncategorised name) (λ p. record p { category = some c }) st.registrations;
      events =
          factory_event "category" Level.ok (
            codes name
            ++ codes ": "
            ++ codes c
            ++ codes ", proposed by the project's agent (audit of task "
            ++ decimal audited
            ++ codes "); a maintainer settles it at review")
          ∷ st.events;
    }
    else st

audit_evidence : Task → ℕ → Store → List Blob
audit_evidence audited id st = elim audited.staged_prefix [
  | none ↦ st.pool
  | some prefix ↦
      record_evidence st.staging audited.name (request_of audited.name st.registrations) id prefix
        audit_files st.pool
]

unfoldable pub audited_store : CompleteBody → ℕ → Option Task → Store → Store
unfolding audit_evidence take_category proposed_category
audited_store b id none st = st
audited_store b id (some audited) st =
    take_category audited.name id (proposed_category b.result)
      (record st { pool = audit_evidence audited id st })

-- An audit job: its report joins the evidence, its category is a proposal.
unfoldable pub finish_audit : CompleteBody → Option ℕ → Store → Store
unfolding audited_store
finish_audit b none st = st
finish_audit b (some id) st = audited_store b id (first (has_id id) st.tasks) st

slash_list : List Text → Text
slash_list [] = []
slash_list ([] ∷ more) = slash_list more
slash_list ((c ∷ s) ∷ more) =
    let rest = slash_list more in c ∷ s ++ (if is_empty rest then [] else codes "/" ++ rest)

moved : Text → Text → Text
moved [] to = []
moved (c ∷ from) [] = []
moved (c ∷ from) (d ∷ to) = c ∷ from ++ codes " → " ++ d ∷ to

-- What a job is about, by its kind.
job_label : Kind → Params → Text
unfolding slash_list moved text_of
job_label Kind.audit p =
    text_of (param "name" p)
    ++ codes " (task "
    ++ decimal (or_else (task_param (some p)) 0)
    ++ codes ")"
job_label Kind.publish p =
    text_of (param "name" p)
    ++ codes " "
    ++ text_of (param "version" p)
    ++ codes " ("
    ++ text_of (param "arch" p)
    ++ codes ")"
job_label kind p = slash_list (
    text_of (param "source" p)
    ∷ text_of (param "arch" p)
    ∷ text_of (param "ring" p)
    ∷ moved (text_of (param "from" p)) (text_of (param "to" p))
    ∷ [])

-- `d ? " in " + Math.round(d / unit) + suffix : ""`
unfoldable pub took : ℕ → Text → Option ℕ → Text
took unit suffix none = []
took unit suffix (some zero) = []
took unit suffix (some (suc d)) = codes " in " ++ decimal ((suc d + unit / 2) / unit) ++ suffix

job_summary : Task → CompleteBody → String → Text
unfolding job_label
job_summary t b who =
    let label = job_label t.kind (or_else t.params []) in
    codes (kind_name t.kind)
    ++ (if is_empty label then [] else codes " " ++ label)
    ++ codes ": "
    ++ or_else b.summary (codes "done")
    ++ codes " by "
    ++ codes who
    ++ took 1000 (codes " s") b.duration_ms

-- What a job's kind adds to its completion.
unfoldable pub finish_kind : Attest → Task → CompleteBody → ℕ → Store → Store
unfolding finish_publish finish_audit
finish_kind attest t b now st =
    if kind_eq t.kind Kind.publish
    then finish_publish attest t b now (task_param t.params) st
    else if kind_eq t.kind Kind.audit
    then finish_audit b (task_param t.params) st
    else st

-- The end of a pool job.
unfoldable pub complete_job : Attest → Task → CompleteBody → String → ℕ → Store → Store
unfolding finish_kind job_summary job_done one_done
complete_job attest t b who now st =
    let ended : Store = record st {
      tasks = update (has_id t.id) (job_done b now) st.tasks;
      workers = one_done who now st.workers;
    } in
    let st' = finish_kind attest t b now ended in
    record st' { events = factory_event "job" Level.ok (job_summary t b who) ∷ st'.events }
