-- ===== src/Schedule/Guard.antt =====
-- The cost guard: what the scheduler does not queue while it is up (worker/src/scheduler.ts).
use omarchy_cli.Base.{
  All, Bool, Bool-cases, List, Option, Option-cases, Text, [], arith, false, inl, inr, none, refl,
  select, true, ℕ, ◌∙◌, ◌∷◌, ◌≡◌, some,
}
use omarchy_cli.Factory.Enqueue.{blank_task, insert_task}
use omarchy_cli.Factory.Rows.{Kind, Store, Task}
use omarchy_cli.Factory.Tests.{kind_eq, kind_in}
use omarchy_cli.Schedule.Due.{is_due}
use omarchy_cli.Schedule.Queue.{
  create_job, job_task, paused_kinds, recent_jobs, runs_rule, schedule_job, schedule_jobs,
  schedule_rules,
}
use omarchy_cli.Schedule.Rules.{Job, Rule, jobs_of, sync_job_for, RuleJob}

abbrev pub is_paused : Task → Bool
is_paused t = kind_in t.kind paused_kinds

-- A job whose kind the guard does not pause.
abbrev Unpaused : Job → Type 0
Unpaused job = kind_in job.kind paused_kinds ≡ false

unpaused_kind :
    (job_kinds : Option Text) (rule : Rule) (j : RuleJob)
    → rule.job ≡ some j
    → runs_rule job_kinds true rule ≡ true
    → kind_in j.kind paused_kinds ≡ false
unfolding runs_rule
unpaused_kind job_kinds rule j f e = ground arith

jobs_of-Unpaused :
    (rule : Rule) (job_kinds : Option Text)
    → runs_rule job_kinds true rule ≡ true
    → All Unpaused (jobs_of rule)
unfolding jobs_of sync_job_for runs_rule
jobs_of-Unpaused rule job_kinds e = elim (Option-cases rule.job) [
  | inl f ↦ rw f tt
  | inr (j, f) ↦
      let u : kind_in j.kind paused_kinds ≡ false = unpaused_kind job_kinds rule j f e in
      elim (Bool-cases (kind_eq j.kind Kind.sync)) [
        | inl s ↦ ground arith
        | inr s ↦ elim (Bool-cases (kind_eq j.kind Kind.health)) [
          | inl h ↦ rw (f, s, h, jobs_of) (refl, (refl, (refl, (refl, (refl, (refl, tt))))))
          | inr h ↦ rw (f, s, h, jobs_of) (u, tt)
        ]
      ]
]

schedule_job-paused :
    (rule : Rule) (job : Job) (now : ℕ) (st : Store)
    → Unpaused job
    → select is_paused (schedule_job rule job now st).tasks ≡ select is_paused st.tasks
unfolding schedule_job create_job job_task insert_task blank_task select
schedule_job-paused rule job now st u =
    let runs = recent_jobs job.kind job.params st.tasks in
    elim (Bool-cases (is_due (record rule { inputs = none }) runs now).due) [
      | inl e ↦ rw (e, schedule_job) (ground arith)
      | inr e ↦ rw (e, schedule_job) refl
    ]

schedule_jobs-paused :
    (rule : Rule) (jobs : List Job) (now : ℕ) (st : Store)
    → All Unpaused jobs
    → select is_paused (schedule_jobs rule jobs now st).tasks ≡ select is_paused st.tasks
unfolding schedule_jobs
schedule_jobs-paused rule [] now st u = refl
schedule_jobs-paused rule (job ∷ more) now st (u, us) =
    schedule_jobs-paused rule more now (schedule_job rule job now st) us
    ∙ schedule_job-paused rule job now st u

-- While the cost guard is up, a turn of the scheduler over any rules queues no job of a kind that
-- writes: the tasks of those kinds are the same, in the same order, behind it.
pub schedule_rules-paused :
    (job_kinds : Option Text) (rs : List Rule) (now : ℕ) (st : Store)
    → select is_paused (schedule_rules job_kinds true rs now st).tasks ≡ select is_paused st.tasks
unfolding schedule_rules
schedule_rules-paused job_kinds [] now st = refl
schedule_rules-paused job_kinds (rule ∷ more) now st =
    elim (Bool-cases (runs_rule job_kinds true rule)) [
      | inr e ↦ rw (e, schedule_rules) (schedule_rules-paused job_kinds more now st)
      | inl e ↦
          let next = schedule_jobs rule (jobs_of rule) now st in
          rw (e, schedule_rules)
            (schedule_rules-paused job_kinds more now next
              ∙ schedule_jobs-paused rule (jobs_of rule) now st (jobs_of-Unpaused rule job_kinds e))
    ]
