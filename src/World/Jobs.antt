-- ===== src/World/Jobs.antt =====
-- The jobs that the scheduler and a maintainer queue are sound: none of them publishes
-- (worker/src/scheduler.ts, worker/src/jobs.ts).
use omarchy_cli.Base.{
  All, Bool, Bool-cases, List, Option, String, Text, [], arith, codes, false, inl, inr, none, refl,
  ℕ, ◌∷◌, ◌≡◌, Option-cases, if◌then◌else◌, or_else, str_eq, true, some, ◌++◌,
}
use omarchy_cli.Factory.Enqueue.{blank_task, insert_task}
use omarchy_cli.Factory.Reply.{answer, Reply, Reply-cases, after, or_refuse, ◌>>=◌}
use omarchy_cli.Factory.Rows.{Kind, Store, Params}
use omarchy_cli.Factory.Tests.{kind_eq}
use omarchy_cli.Schedule.Due.{is_due}
use omarchy_cli.Schedule.Jobs.{
  JobBody, job_request, promote_request, ring_request, rollback_request, sync_of_source,
  sync_request, verify_request, gc_request, handle_queue_job, plain_request,
}
use omarchy_cli.Schedule.Queue.{
  create_job, job_task, recent_jobs, runs_rule, schedule_job, schedule_jobs, schedule_rules,
  filled_param,
}
use omarchy_cli.Schedule.Rules.{Job, Rule, jobs_of, rules, sync_job_for}
use omarchy_cli.World.Sound.{SoundStep, SoundStep-trans, SoundStep-refl, insert-Sound}

-- A job that does not publish.
abbrev pub Plain : Job → Type 0
Plain j = kind_eq j.kind Kind.publish ≡ false

pub create_job-Sound :
    (job : Job) (reason : Text) (now : ℕ) (st : Store)
    → Plain job
    → SoundStep st (create_job job reason now st).1
unfolding create_job job_task insert_task blank_task
create_job-Sound job reason now st p =
    insert-Sound (job_task job reason now st.next_task) st.tasks st.next_task st.approvals refl
      (refl, refl, omega arith) p

schedule_job-Sound :
    (rule : Rule) (job : Job) (now : ℕ) (st : Store)
    → Plain job
    → SoundStep st (schedule_job rule job now st)
unfolding schedule_job
schedule_job-Sound rule job now st p =
    let runs = recent_jobs job.kind job.params st.tasks in
    elim (Bool-cases (is_due (record rule { inputs = none }) runs now).due) [
      | inl e ↦ rw (e, schedule_job) (create_job-Sound job (codes "scheduled") now st p)
      | inr e ↦ rw (e, schedule_job) (SoundStep-refl st)
    ]

schedule_jobs-Sound :
    (rule : Rule) (jobs : List Job) (now : ℕ) (st : Store)
    → All Plain jobs
    → SoundStep st (schedule_jobs rule jobs now st)
unfolding schedule_jobs
schedule_jobs-Sound rule [] now st h = SoundStep-refl st
schedule_jobs-Sound rule (job ∷ more) now st (p, h) =
    let next = schedule_job rule job now st in
    SoundStep-trans st next (schedule_jobs rule more now next)
      (schedule_job-Sound rule job now st p) (schedule_jobs-Sound rule more now next h)

-- A rule whose job does not publish.
abbrev pub PlainRule : Rule → Type 0
PlainRule rule = All Plain (jobs_of rule)

pub schedule_rules-Sound :
    (job_kinds : Option Text) (guard : Bool) (rs : List Rule) (now : ℕ) (st : Store)
    → All PlainRule rs
    → SoundStep st (schedule_rules job_kinds guard rs now st)
unfolding schedule_rules
schedule_rules-Sound job_kinds guard [] now st h = SoundStep-refl st
schedule_rules-Sound job_kinds guard (rule ∷ more) now st (p, h) =
    elim (Bool-cases (runs_rule job_kinds guard rule)) [
      | inr e ↦ rw (e, schedule_rules) (schedule_rules-Sound job_kinds guard more now st h)
      | inl e ↦
          let next = schedule_jobs rule (jobs_of rule) now st in
          rw (e, schedule_rules)
            (SoundStep-trans st next (schedule_rules job_kinds guard more now next)
              (schedule_jobs-Sound rule (jobs_of rule) now st p)
              (schedule_rules-Sound job_kinds guard more now next h))
    ]

pub rules-Plain : All PlainRule rules
unfolding jobs_of sync_job_for
rules-Plain = ground arith

-- Whatever is queued by hand does not publish, a request at a time.
abbrev Asked : Reply Job → Type 0
Asked r = (job : Job) → r ≡ answer job → Plain job

answer-Asked : (job : Job) → Plain job → Asked (answer job)
answer-Asked job p other e = ground arith

-- A row that was found, or nothing.
or_refuse-Asked {ℓ} :
    {A : Type ℓ}
    → (f : A → Job) → ((a : A) → Plain (f a))
    → (o : Option A) → Asked (or_refuse o 400 >>= λ a. answer (f a))
or_refuse-Asked f p none job e = ground arith
or_refuse-Asked f p (some a) job e = answer-Asked (f a) (p a) job e

sync_request-Asked : (ps : Params) → Asked (sync_request ps)
unfolding sync_request sync_job_for sync_of_source
sync_request-Asked ps = elim (Option-cases (filled_param "source" ps)) [
  | inl f ↦ rw (f, sync_request) (or_refuse-Asked sync_job_for (λ a. refl) _)
  | inr (source, f) ↦ rw (f, sync_request) (or_refuse-Asked sync_of_source (λ a. refl) _)
]

promote_request-Asked : (login : String) (ps : Params) → Asked (promote_request login ps)
unfolding promote_request
promote_request-Asked login ps job e = ground arith

rollback_request-Asked : (login : String) (ps : Params) → Asked (rollback_request login ps)
unfolding rollback_request
rollback_request-Asked login ps job e = ground arith

ring_request-Asked :
    (kind : Kind) (ps : Params) → kind_eq kind Kind.publish ≡ false → Asked (ring_request kind ps)
unfolding ring_request
ring_request-Asked kind ps k job e = ground arith

verify_request-Asked : (ps : Params) → Asked (verify_request ps)
unfolding verify_request
verify_request-Asked ps job e = ground arith

-- A kind is chosen by its name.
choice-Asked :
    (b : Bool) (one other : Reply Job) → Asked one → Asked other → Asked (if b then one else other)
choice-Asked true one other y n = y
choice-Asked false one other y n = n

pub job_request-Asked : (login : String) (b : JobBody) → Asked (job_request login b)
unfolding job_request gc_request plain_request
job_request-Asked login b =
    let ps = b.params in
    let kind = or_else b.kind "" in
    choice-Asked (str_eq kind "sync") _ _ (sync_request-Asked ps) (
      choice-Asked (str_eq kind "promote") _ _ (promote_request-Asked login ps) (
        choice-Asked (str_eq kind "rollback") _ _ (rollback_request-Asked login ps) (
          choice-Asked (str_eq kind "render") _ _ (ring_request-Asked Kind.render ps refl) (
            choice-Asked (str_eq kind "health") _ _ (ring_request-Asked Kind.health ps refl) (
              choice-Asked (str_eq kind "gc") _ _ (answer-Asked (gc_request ps) refl) (
                choice-Asked (str_eq kind "relayout") _ _ (answer-Asked _ refl) (
                  choice-Asked (str_eq kind "security") _ _
                    (answer-Asked (plain_request Kind.security b.arch) refl)
                    (choice-Asked (str_eq kind "enqueue") _ _
                      (answer-Asked (plain_request Kind.enqueue b.arch) refl)
                      (choice-Asked (str_eq kind "verify") _ _ (verify_request-Asked ps)
                        (λ job e. ground arith))))))))))

pub handle_queue_job-Sound :
    (login : String) (b : JobBody) (now : ℕ) (st : Store)
    → SoundStep st (after st (handle_queue_job login b now st))
unfolding handle_queue_job
handle_queue_job-Sound login b now st = elim (Reply-cases (job_request login b)) [
  | inr (n, e) ↦ rw (e, handle_queue_job) (SoundStep-refl st)
  | inl (job, e) ↦
      rw (e, handle_queue_job)
        (create_job-Sound job (codes "queued by " ++ codes login) now st
          (job_request-Asked login b job e))
]
