-- ===== src/Factory/Lease.antt =====
-- A task under lease: owned, handleHeartbeat, handleFail and requeueExpiredLeases of
-- worker/src/routes/factory.ts.
use omarchy_cli.Base.{
  Bool, List, Option, String, Text, [], codes, decimal, exists, false, first, if◌then◌else◌,
  is_some, leb, length, ltb, none, not, or_else, select, shown, slice_back, slice_front, some,
  text_eq, true, update, ℕ, ◌&&◌, ◌++◌, ◌+◌, ◌||◌, ◌∷◌,
}
use omarchy_cli.Factory.Rows.{Event, Kind, Level, Registration, Stage, Status, Store, Task, Worker}
use omarchy_cli.Factory.Tests.{has_id, holds_name, holds_number, is_leased, is_project, kind_eq}
use omarchy_cli.Factory.Reply.{Reply, or_refuse, require, ◌>>=◌, ◌>>◌, answer}
use omarchy_cli.Factory.Journal.{arch_text, factory_event, is_named, set_detail, set_stage}
use omarchy_cli.Factory.Workers.{is_worker}
use omarchy_cli.Factory.Claim.{Actor, lease_claims, lease_minutes, plus_minutes}
use omarchy_cli.Factory.Record.{failure_files, record_evidence, request_of}
use omarchy_cli.Token.Claims.{Claims}
use omarchy_cli.Token.Scopes.{is_review}

-- `workerName`
unfoldable pub worker_name : Actor → String
worker_name (Actor.worker w) = w.id
worker_name (Actor.job j) = j.w

-- A job's token names the task it is for; a registered worker's does not.
unfoldable pub names_task : ℕ → Actor → Bool
names_task id (Actor.worker w) = true
names_task id (Actor.job j) = exists (text_eq (codes "task:" ++ decimal id)) j.s

-- `owned`: the task, if its lease is the actor's.
unfoldable pub owned : ℕ → Actor → Store → Reply Task
unfolding worker_name
owned id actor st = do
  require (names_task id actor) 403
  t ← or_refuse (first (has_id id) st.tasks) 404
  require (is_leased t.status && holds_name t.lease_owner (worker_name actor)) 409
  answer t

pub record Beat : Type 0 where
  pub lease_expires_at : ℕ
  pub claims : Claims

unfoldable pub extend_lease : ℕ → Task → Task
unfolding plus_minutes
extend_lease now t = record t { lease_expires_at = some (plus_minutes now lease_minutes) }

-- UPDATE build_workers SET last_seen = ?, current_task = ? WHERE id = ?
seen_at : ℕ → ℕ → Worker → Worker
seen_at id now w = record w { last_seen = now; current_task = some id }

-- `handleHeartbeat`
unfoldable pub handle_heartbeat : ℕ → Actor → ℕ → Store → Reply (Beat × Store)
unfolding owned extend_lease plus_minutes seen_at lease_claims
handle_heartbeat id actor now st = do
  t ← owned id actor st
  let who = worker_name actor
  answer (
    record { lease_expires_at = plus_minutes now lease_minutes; claims = lease_claims t who now },
    record st {
      tasks = update (has_id id) (extend_lease now) st.tasks;
      workers = update (is_worker who) (seen_at id now) st.workers;
    },
  )

pub record FailBody : Type 0 where
  pub error : Option Text
  pub duration_ms : Option ℕ
  pub log_tail : Option Text
  pub final : Bool

-- No attempt is left, or the worker says that none would help.
unfoldable pub exhausted : Bool → Task → Bool
exhausted final t = final || leb t.max_attempts t.attempts

abbrev pub failed_status : Bool → Status
failed_status out = if out then Status.failed else Status.queued

-- The SET clause of a failure.
unfoldable pub fail_task : Bool → FailBody → Option String → ℕ → Task → Task
fail_task out b holder now t = record t {
  status = failed_status out;
  finished_at = if out then some now else none;
  error = some (slice_front 2000 (or_else b.error (codes "build failed")));
  log_tail = some (slice_back 4000 (or_else b.log_tail []));
  duration_ms = b.duration_ms;
  lease_owner = if out then holder else none;
  lease_expires_at = none;
  priority = t.priority + 10;
}

-- UPDATE build_workers SET last_seen = ?, current_task = NULL, builds_failed = builds_failed + 1
one_failed : ℕ → Worker → Worker
one_failed now w = record w {
  last_seen = now;
  current_task = none;
  builds_failed = w.builds_failed + 1;
}

-- The review that a build's parameters name.
abbrev pub review_of : Task → Bool
review_of t = is_review (or_else t.params [])

-- The workspace of a build's staging prefix: the project's, or the owner's.
unfoldable pub staging_prefix : Task → Text
staging_prefix t =
    codes "staging/"
    ++ (if review_of t then codes "@project" else codes (or_else t.owner "null"))
    ++ codes "/"
    ++ codes t.name
    ++ codes "/"
    ++ decimal t.id
    ++ codes "/"

-- A build whose worker uploads evidence: a contributor's with an owner, or a review build.
fail_leaves_evidence : Task → Bool
fail_leaves_evidence t =
    kind_eq t.kind Kind.build && (if is_project t.trust then review_of t else is_some t.owner)

-- What the registration says of the failure: back to registered, or the reason alone.
fail_stage : Task → Bool → FailBody → String → ℕ → List Registration → List Registration
unfolding set_stage set_detail
fail_stage t out b who now regs =
    let reason = slice_front 160 (shown b.error) in
    if not (is_project t.trust) && out
    then set_stage t.name Stage.registered
        (codes "build failed on " ++ codes who ++ codes ": " ++ reason) now regs
    else if kind_eq t.kind Kind.build && review_of t && out
    then set_detail t.name
        (codes "the project's build (task "
          ++ decimal t.id
          ++ codes ") failed on "
          ++ codes who
          ++ codes ": "
          ++ reason)
        now regs
    else regs

fail_summary : Task → Bool → FailBody → String → Text
fail_summary t out b who =
    codes t.name
    ++ codes " for "
    ++ arch_text t.arch
    ++ codes " failed on "
    ++ codes who
    ++ codes " (attempt "
    ++ decimal t.attempts
    ++ codes "/"
    ++ decimal t.max_attempts
    ++ codes ")"
    ++ (if b.final
        then codes " — the recipe's, not retried"
        else if out
        then codes " — giving up"
        else codes " — back in the queue")
    ++ codes ": "
    ++ slice_front 120 (shown b.error)

pub record Failed : Type 0 where
  pub status : Status
  pub attempts : ℕ

unfoldable pub fail_store : Task → FailBody → String → ℕ → Store → Store
unfolding fail_leaves_evidence fail_stage fail_summary one_failed exhausted fail_task
fail_store t b who now st =
    let out = exhausted b.final t in
    record st {
      pool =
          if fail_leaves_evidence t
          then record_evidence st.staging t.name (request_of t.name st.registrations) t.id
              (staging_prefix t) failure_files st.pool
          else st.pool;
      tasks = update (has_id t.id) (fail_task out b t.lease_owner now) st.tasks;
      workers = update (is_worker who) (one_failed now) st.workers;
      registrations = fail_stage t out b who now st.registrations;
      events =
          factory_event "build" (if out then Level.error else Level.warn) (fail_summary t out b who)
          ∷ st.events;
    }

-- `handleFail`
unfoldable pub handle_fail : ℕ → Actor → FailBody → ℕ → Store → Reply (Failed × Store)
unfolding owned fail_store exhausted
handle_fail id actor b now st = do
  t ← owned id actor st
  answer (
    record { status = failed_status (exhausted b.final t); attempts = t.attempts },
    fail_store t b (worker_name actor) now st,
  )

-- A lease whose end is before now.
abbrev pub expired : ℕ → Task → Bool
expired now t =
    is_leased t.status && (elim t.lease_expires_at [ none ↦ false | some at ↦ ltb at now ])

-- `lease by ${owner} expired`
expiry_error : Task → Text
expiry_error t = codes "lease by " ++ codes (or_else t.lease_owner "null") ++ codes " expired"

-- The SET clause of a requeue: what the expired row `t` had, on the row as it is.
unfoldable pub requeue_task : ℕ → Task → Task → Task
unfolding expiry_error exhausted
requeue_task now t row =
    let out = exhausted false t in
    record row {
      status = failed_status out;
      finished_at = if out then some now else none;
      error = some (expiry_error t);
      lease_owner = if out then t.lease_owner else none;
      lease_expires_at = none;
      priority = row.priority + 10;
    }

requeue_detail : Task → Text
unfolding expiry_error exhausted
requeue_detail t =
    if exhausted false t
    then codes "build failed on "
      ++ codes (or_else t.lease_owner "null")
      ++ codes ": "
      ++ expiry_error t
      ++ codes " (the worker stopped mid-build?)"
    else expiry_error t ++ codes "; queued again"

is_building : Stage → Bool
is_building Stage.building = true
is_building _ = false

requeue_stage : ℕ → Task → List Registration → List Registration
unfolding requeue_detail is_building
requeue_stage now t regs =
    if not (is_project t.trust) && kind_eq t.kind Kind.build
    then update (λ p. is_named t.name p && is_building p.status)
        (λ p. record p {
          status = if exhausted false t then Stage.registered else Stage.waiting;
          detail = some (requeue_detail t);
          updated_at = now;
        })
        regs
    else regs

let_go : Worker → Worker
let_go w = record w { current_task = none }

held_by : Option String → Worker → Bool
held_by owner w = holds_name owner w.id

requeue_event : Task → Event
unfolding factory_event
requeue_event t = factory_event "build" (if exhausted false t then Level.error else Level.warn) (
    codes t.name
    ++ codes " for "
    ++ arch_text t.arch
    ++ codes ": "
    ++ expiry_error t
    ++ (if exhausted false t then codes " — giving up" else codes " — back in the queue"))

-- One round of the loop over the expired leases.
unfoldable pub requeue_one : ℕ → Task → Store → Store
unfolding requeue_task requeue_stage let_go held_by requeue_event
requeue_one now t st = record st {
  tasks = update (λ u. has_id t.id u && is_leased u.status) (requeue_task now t) st.tasks;
  workers =
      update (λ w. held_by t.lease_owner w && holds_number w.current_task t.id) let_go st.workers;
  registrations = requeue_stage now t st.registrations;
  events = requeue_event t ∷ st.events;
}

unfoldable pub requeue_all : ℕ → List Task → Store → Store
requeue_all now [] st = st
requeue_all now (t ∷ ts) st = requeue_all now ts (requeue_one now t st)

-- `requeueExpiredLeases`: the number of leases that had expired, and the store.
unfoldable pub requeue_expired : ℕ → Store → ℕ × Store
unfolding requeue_all
requeue_expired now st =
    let rows = select (expired now) st.tasks in (length rows, requeue_all now rows st)
