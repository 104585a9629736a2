-- ===== src/Schedule/Once.antt =====
-- A job is queued once: recentJobs and createJob of worker/src/scheduler.ts.
use omarchy_cli.Base.{
  Bool, List, String, Text, [], arith, refl, str_eq, text_eq, true, ◌∷◌, ◌≡◌, Option, codes,
  eq_refl, exists, false, none, select, some, text_eq_refl, ℕ, subst, sym, take,
}
use omarchy_cli.Factory.Rows.{Params, Source, Value, Arch, Kind, Store}
use omarchy_cli.Schedule.Queue.{
  list_eq, option_eq, params_eq, source_eq, value_eq, create_job, job_run, job_task, recent_jobs,
  same_params, schedule_job,
}
use omarchy_cli.Factory.Enqueue.{blank_task, insert_task}
use omarchy_cli.Factory.Tests.{arch_eq, kind_eq}
use omarchy_cli.Schedule.Due.{is_due, matches, not_due}
use omarchy_cli.Schedule.Rules.{Job, Rule}

list_eq_refl {ℓ} :
    {A : Type ℓ}
    → (same : A → A → Bool) → ((a : A) → same a a ≡ true)
    → (xs : List A) → list_eq same xs xs ≡ true
unfolding list_eq
list_eq_refl same r [] = refl
list_eq_refl same r (x ∷ xs) = rw (r x) (list_eq_refl same r xs)

str_eq_refl : (s : String) → str_eq s s ≡ true
str_eq_refl s = eq_refl s

arch_eq_refl : (a : Arch) → arch_eq a a ≡ true
arch_eq_refl Arch.x86_64 = refl
arch_eq_refl Arch.aarch64 = refl

option_eq_refl : (o : Option String) → option_eq str_eq o o ≡ true
unfolding option_eq
option_eq_refl none = refl
option_eq_refl (some s) = str_eq_refl s

source_eq_refl : (s : Source) → source_eq s s ≡ true
unfolding source_eq option_eq
source_eq_refl s =
    let a = str_eq_refl s.source in
    let b = str_eq_refl s.ring in
    let c = str_eq_refl s.base_url in
    let d = str_eq_refl s.db_name in
    let e = str_eq_refl s.keyring in
    let f = arch_eq_refl s.arch in
    let g = option_eq_refl s.defer_to in rw (a, f, b, c, d, e, g) refl

value_eq_refl : (v : Value) → value_eq v v ≡ true
unfolding value_eq
value_eq_refl Value.null = refl
value_eq_refl (Value.num n) = ground arith
value_eq_refl (Value.str s) = str_eq_refl s
value_eq_refl (Value.prose s) = text_eq_refl s
value_eq_refl (Value.names ss) = list_eq_refl str_eq str_eq_refl ss
value_eq_refl (Value.texts ss) = list_eq_refl text_eq text_eq_refl ss
value_eq_refl (Value.sources ss) = list_eq_refl source_eq source_eq_refl ss

params_eq_refl : (ps : Params) → params_eq ps ps ≡ true
unfolding params_eq
params_eq_refl ps = list_eq_refl _ (λ (k, v). rw (str_eq_refl k) (value_eq_refl v)) ps

kind_eq_refl : (k : Kind) → kind_eq k k ≡ true
kind_eq_refl k = ground arith

-- Behind a job that was just queued, the rule is not due.
made_job-pending :
    (rule : Rule) (job : Job) (reason : Text) (now later : ℕ) (st : Store)
    → (is_due
        (record rule { inputs = none })
        (recent_jobs job.kind job.params (create_job job reason now st).1.tasks)
        later).due
      ≡ false
unfolding is_due not_due recent_jobs take select job_run matches same_params create_job job_task
    insert_task blank_task exists
made_job-pending rule job reason now later st =
    rw (kind_eq_refl job.kind, params_eq_refl job.params) refl

-- A rule that is not due leaves the store.
schedule_job_idle :
    (rule : Rule) (job : Job) (now : ℕ) (st : Store)
    → (is_due (record rule { inputs = none }) (recent_jobs job.kind job.params st.tasks) now).due
      ≡ false
    → schedule_job rule job now st ≡ st
unfolding schedule_job
schedule_job_idle rule job now st e = rw (e, schedule_job) refl

schedule_job-tasks :
    (rule : Rule) (job : Job) (now : ℕ) (st : Store)
    → (is_due (record rule { inputs = none }) (recent_jobs job.kind job.params st.tasks) now).due
      ≡ true
    → (schedule_job rule job now st).tasks ≡ (create_job job (codes "scheduled") now st).1.tasks
unfolding schedule_job
schedule_job-tasks rule job now st e = rw (e, schedule_job) refl

-- A job that a turn of the scheduler queued is not queued by a turn right behind it, at any time:
-- that turn leaves the store as it is.
pub schedule_job-again :
    (rule : Rule) (job : Job) (now later : ℕ) (st : Store)
    → (is_due (record rule { inputs = none }) (recent_jobs job.kind job.params st.tasks) now).due
      ≡ true
    → schedule_job rule job later (schedule_job rule job now st) ≡ schedule_job rule job now st
schedule_job-again rule job now later st e =
    schedule_job_idle rule job later (schedule_job rule job now st) (
      subst
        (λ ts.
          (is_due (record rule { inputs = none }) (recent_jobs job.kind job.params ts) later).due
          ≡ false)
        (sym (schedule_job-tasks rule job now st e))
        (made_job-pending rule job (codes "scheduled") now later st))
