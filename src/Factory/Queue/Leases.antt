-- ===== src/Factory/Queue/Leases.antt =====
-- The requests on a task under lease keep the queue's invariant: a heartbeat, a failure, and the
-- scheduler's requeue; so does cancelling a task.
use omarchy_cli.Base.{
  Bool, Bool-cases, List, Option, String, [], arith, exists, first, first-test, inl, inr, refl,
  select, some, true, update, ℕ, ◌&&◌, ◌∷◌, ◌≡◌, ap, ◌∙◌,
}
use omarchy_cli.Factory.Rows.{Store, Task}
use omarchy_cli.Factory.Claim.{Actor}
use omarchy_cli.Factory.Enqueue.{cancel, handle_cancel}
use omarchy_cli.Factory.Lease.{
  FailBody, exhausted, expired, extend_lease, fail_store, fail_task, handle_fail, handle_heartbeat,
  owned, requeue_all, requeue_expired, requeue_one, requeue_task, worker_name,
}
use omarchy_cli.Factory.Queue.Operations.{QueueOk, same_tasks, update-QueueOk, update_id-QueueOk}
use omarchy_cli.Factory.Queue.Requeue.{requeue_expired-tasks}
use omarchy_cli.Factory.Queue.Rows.{
  cancel-RowFits, extend_lease-RowFits, fail_task-RowFits, requeue_task-RowFits,
}
use omarchy_cli.Factory.Reply.{Reply, Reply-cases, after, answer, refuse}
use omarchy_cli.Factory.Tests.{has_id, holds_name, is_leased, is_open}

-- Only the lease's holder gets the task, while it is leased: `owned` answers with the row of the
-- id, leased, and held by the worker who calls.
pub owned-holder :
    (id : ℕ) (actor : Actor) (st : Store) (t : Task)
    → owned id actor st ≡ answer t
    → (first (has_id id) st.tasks ≡ some t)
      × (is_leased t.status ≡ true)
      × (holds_name t.lease_owner (worker_name actor) ≡ true)
unfolding owned
owned-holder id actor st t h = ground arith

pub has_id-eq : (id : ℕ) (ts : List Task) (t : Task) → first (has_id id) ts ≡ some t → t.id ≡ id
has_id-eq id ts t e = ground (arith, first-test (has_id id) ts t e)

-- The row under `t.id`, as the handlers' updates name it.
pub row_of :
    (id : ℕ) (ts : List Task) (t : Task)
    → first (has_id id) ts ≡ some t
    → first (has_id t.id) ts ≡ some t
row_of id ts t e = ap (λ k. first (has_id k) ts) (has_id-eq id ts t e) ∙ e

extend_lease-id : (now : ℕ) (t : Task) → (extend_lease now t).id ≡ t.id
unfolding extend_lease
extend_lease-id now t = refl

pub handle_heartbeat-QueueOk :
    (id : ℕ) (actor : Actor) (now : ℕ) (st : Store)
    → QueueOk st
    → QueueOk (after st (handle_heartbeat id actor now st))
unfolding handle_heartbeat
handle_heartbeat-QueueOk id actor now st q = elim (Reply-cases (owned id actor st)) [
  | inr (n, e) ↦ rw (e, handle_heartbeat) q
  | inl (t, e) ↦
      let (row, leased, held) = owned-holder id actor st t e in
      let next =
        update_id-QueueOk (extend_lease now) id st t (extend_lease-id now) row
          (extend_lease-RowFits now t leased) q in
      rw (e, handle_heartbeat) (record { keys = next.keys; rows = next.rows })
]

fail_task-id :
    (out : Bool) (b : FailBody) (o : Option String) (now : ℕ) (t : Task)
    → (fail_task out b o now t).id ≡ t.id
unfolding fail_task
fail_task-id out b o now t = refl

pub handle_fail-QueueOk :
    (id : ℕ) (actor : Actor) (b : FailBody) (now : ℕ) (st : Store)
    → QueueOk st
    → QueueOk (after st (handle_fail id actor b now st))
unfolding handle_fail fail_store
handle_fail-QueueOk id actor b now st q = elim (Reply-cases (owned id actor st)) [
  | inr (n, e) ↦ rw (e, handle_fail) q
  | inl (t, e) ↦
      let (row, leased, held) = owned-holder id actor st t e in
      let next =
        update_id-QueueOk (fail_task (exhausted b.final t) b t.lease_owner now) t.id st t
          (fail_task-id (exhausted b.final t) b t.lease_owner now) (row_of id st.tasks t row)
          (fail_task-RowFits b t now leased) q in
      rw (e, handle_fail) (record { keys = next.keys; rows = next.rows })
]

requeue_task-id : (now : ℕ) (t : Task) → (requeue_task now t t).id ≡ t.id
unfolding requeue_task
requeue_task-id now t = refl

requeue_all-next :
    (now : ℕ) (ts : List Task) (st : Store) → (requeue_all now ts st).next_task ≡ st.next_task
unfolding requeue_all requeue_one
requeue_all-next now [] st = refl
requeue_all-next now (t ∷ ts) st = requeue_all-next now ts (requeue_one now t st)

requeue_expired-next : (now : ℕ) (st : Store) → (requeue_expired now st).1.next_task ≡ st.next_task
unfolding requeue_expired
requeue_expired-next now st = requeue_all-next now (select (expired now) st.tasks) st

pub requeue_expired-QueueOk :
    (now : ℕ) (st : Store) → QueueOk st → QueueOk (requeue_expired now st).1
requeue_expired-QueueOk now st q =
    let next =
      update-QueueOk (expired now) (λ t. requeue_task now t t) st (requeue_task-id now)
        (λ t e f. requeue_task-RowFits now t (ground arith) f) q in
    same_tasks (record st { tasks = update (expired now) (λ t. requeue_task now t t) st.tasks })
      (requeue_expired now st).1 (requeue_expired-tasks now st.next_task st q.keys)
      (requeue_expired-next now st) next

cancel-id : (now : ℕ) (t : Task) → (cancel now t).id ≡ t.id
unfolding cancel
cancel-id now t = refl

abbrev pub after_cancel : Store → Reply Store → Store
after_cancel st (answer st') = st'
after_cancel st (refuse n) = st

pub handle_cancel-QueueOk :
    (id now : ℕ) (st : Store) → QueueOk st → QueueOk (after_cancel st (handle_cancel id now st))
unfolding handle_cancel
handle_cancel-QueueOk id now st q =
    elim (Bool-cases (exists (λ t. has_id id t && is_open t.status) st.tasks)) [
      | inr e ↦ rw (e, handle_cancel) q
      | inl e ↦
          rw (e, handle_cancel)
            (update-QueueOk (λ t. has_id id t && is_open t.status) (cancel now) st (cancel-id now)
              (λ t h f. cancel-RowFits now t f) q)
    ]
