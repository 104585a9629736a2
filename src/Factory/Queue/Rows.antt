-- ===== src/Factory/Queue/Rows.antt =====
-- The invariant of a row of build_tasks, and the SET clauses that keep it.
use omarchy_cli.Base.{Option, arith, is_some, none, true, ℕ, ◌<◌, ◌≡◌, ◌≤◌, String, Text, refl}
use omarchy_cli.Factory.Rows.{Status, Task, Arch, Vet}
use omarchy_cli.Factory.Tests.{is_leased, is_queued, is_staged}
use omarchy_cli.Factory.Claim.{Claimant, lease}
use omarchy_cli.Factory.Lease.{FailBody, exhausted, fail_task, extend_lease, requeue_task}
use omarchy_cli.Factory.Complete.Build.{build_done, stage_task, superseded}
use omarchy_cli.Factory.Complete.Job.{CompleteBody, job_done, published_build}
use omarchy_cli.Factory.Enqueue.{blank_task, cancel}

-- A queued row is nobody's and has an attempt left; a leased one has a holder and an end; and
-- no row has more attempts than it may.
abbrev pub Fits : Status → Task → Type 0
Fits Status.queued t =
    (t.lease_owner ≡ none) × (t.lease_expires_at ≡ none) × (t.attempts < t.max_attempts)
Fits Status.leased t =
    (is_some t.lease_owner ≡ true)
    × (is_some t.lease_expires_at ≡ true)
    × (0 < t.attempts)
    × (t.attempts ≤ t.max_attempts)
Fits Status.staged t =
    (t.lease_owner ≡ none) × (t.lease_expires_at ≡ none) × (t.attempts ≤ t.max_attempts)
Fits Status.done t = (t.lease_expires_at ≡ none) × (t.attempts ≤ t.max_attempts)
Fits Status.failed t = (t.lease_expires_at ≡ none) × (t.attempts ≤ t.max_attempts)
Fits Status.cancelled t = t.attempts ≤ t.max_attempts

abbrev pub RowFits : Task → Type 0
RowFits t = Fits t.status t

pub RowFits-attempts : (t : Task) → RowFits t → t.attempts ≤ t.max_attempts
RowFits-attempts t h = ground arith

-- The changes of a row, one lemma each.
pub lease-RowFits :
    (c : Claimant) (t : Task) → is_queued t.status ≡ true → RowFits t → RowFits (lease c t)
unfolding lease
lease-RowFits c t q h = ground arith

pub cancel-RowFits : (now : ℕ) (t : Task) → RowFits t → RowFits (cancel now t)
unfolding cancel
cancel-RowFits now t h = RowFits-attempts t h

pub superseded-RowFits : (note : Text) (t : Task) → RowFits t → RowFits (superseded note t)
unfolding superseded
superseded-RowFits note t h = RowFits-attempts t h

pub extend_lease-RowFits :
    (now : ℕ) (t : Task) → is_leased t.status ≡ true → RowFits t → RowFits (extend_lease now t)
unfolding extend_lease
extend_lease-RowFits now t l h = ground arith

pub job_done-RowFits :
    (b : CompleteBody) (now : ℕ) (t : Task) → RowFits t → RowFits (job_done b now t)
unfolding job_done
job_done-RowFits b now t h = (refl, RowFits-attempts t h)

pub stage_task-RowFits :
    (b : CompleteBody) (prefix : Text) (vet : Option Vet) (now : ℕ) (t : Task)
    → RowFits t
    → RowFits (stage_task b prefix vet now t)
unfolding stage_task
stage_task-RowFits b prefix vet now t h = (refl, refl, RowFits-attempts t h)

pub build_done-RowFits :
    (b : CompleteBody) (sha : String) (now : ℕ) (t : Task)
    → RowFits t
    → RowFits (build_done b sha now t)
unfolding build_done
build_done-RowFits b sha now t h = (refl, RowFits-attempts t h)

pub published_build-RowFits :
    (sha : Option String) (t : Task)
    → is_staged t.status ≡ true
    → RowFits t
    → RowFits (published_build sha t)
unfolding published_build
published_build-RowFits sha t l h = ground arith

pub requeue_task-RowFits :
    (now : ℕ) (t : Task) → is_leased t.status ≡ true → RowFits t → RowFits (requeue_task now t t)
unfolding requeue_task exhausted
requeue_task-RowFits now t l h = ground arith

-- A new row is queued, with three attempts to come.
pub blank_task-RowFits :
    (id : ℕ) (name : String) (arch : Arch) (ref reason : Text) (now : ℕ)
    → RowFits (blank_task id name arch ref reason now)
unfolding blank_task
blank_task-RowFits id name arch ref reason now = (refl, refl, omega arith)

pub fail_task-RowFits :
    (b : FailBody) (t : Task) (now : ℕ)
    → is_leased t.status ≡ true
    → RowFits t
    → RowFits (fail_task (exhausted b.final t) b t.lease_owner now t)
unfolding fail_task exhausted
fail_task-RowFits b t now l h = ground arith
