-- ===== src/Factory/Queue/Operations.antt =====
-- Each request of the factory keeps the queue's invariant.
use omarchy_cli.Base.{
  All, Bool, List, Option-cases, [], arith, first, first-All, inl, inr, refl, some, true, update,
  update-All, ℕ, ◌∷◌, ◌≡◌,
}
use omarchy_cli.Factory.Rows.{Arch, Store, Task}
use omarchy_cli.Factory.Claim.{Claimant, claim_next, claimable, lease, pick, picked}
use omarchy_cli.Factory.Enqueue.{
  Order, blank_task, enqueue, enqueue_one, insert_task, order_task, same_order,
}
use omarchy_cli.Factory.Queue.Keys.{Below, update-Below, update_id-All}
use omarchy_cli.Factory.Queue.Rows.{RowFits, lease-RowFits}
use omarchy_cli.Factory.Tests.{has_id}

pub record QueueOk (st : Store) : Type 0 where
  pub keys : Below st.next_task st.tasks
  pub rows : All RowFits st.tasks

pub same_tasks :
    (st st' : Store)
    → st'.tasks ≡ st.tasks
    → st'.next_task ≡ st.next_task
    → QueueOk st
    → QueueOk st'
same_tasks st st' e n q = record { keys = rw (e, n) q.keys; rows = rw e q.rows }

pub insert_task-QueueOk :
    (row : ℕ → Task) (st : Store)
    → ((id : ℕ) → (row id).id ≡ id)
    → ((id : ℕ) → RowFits (row id))
    → QueueOk st
    → QueueOk (insert_task row st)
unfolding insert_task
insert_task-QueueOk row st same fits q = record {
  keys = rw (same st.next_task) (omega arith, q.keys);
  rows = (fits st.next_task, q.rows);
}

order_task-id : (t : Order) (arch : Arch) (now id : ℕ) → (order_task t arch now id).id ≡ id
unfolding order_task blank_task
order_task-id t arch now id = refl

order_task-RowFits : (t : Order) (arch : Arch) (now id : ℕ) → RowFits (order_task t arch now id)
unfolding order_task blank_task
order_task-RowFits t arch now id = (refl, refl, omega arith)

enqueue_one-QueueOk :
    (t : Order) (arch : Arch) (now : ℕ) (st : Store)
    → QueueOk st
    → QueueOk (enqueue_one t arch now st).1
unfolding enqueue_one
enqueue_one-QueueOk t arch now st q = elim (Option-cases (first (same_order t arch) st.tasks)) [
  | inl e ↦
      rw (e, enqueue_one)
        (insert_task-QueueOk (order_task t arch now) st (order_task-id t arch now)
          (order_task-RowFits t arch now) q)
  | inr (u, e) ↦ rw (e, enqueue_one) q
]

pub enqueue-QueueOk :
    (t : Order) (arches : List Arch) (now : ℕ) (st : Store)
    → QueueOk st
    → QueueOk (enqueue t arches now st).1
unfolding enqueue
enqueue-QueueOk t [] now st q = q
enqueue-QueueOk t (arch ∷ arches) now st q =
    enqueue-QueueOk t arches now (enqueue_one t arch now st).1 (enqueue_one-QueueOk t arch now st q)

-- An update of rows by any test, with a change that keeps the id and the row's invariant.
pub update-QueueOk :
    (test : Task → Bool) (change : Task → Task) (st : Store)
    → ((t : Task) → (change t).id ≡ t.id)
    → ((t : Task) → test t ≡ true → RowFits t → RowFits (change t))
    → QueueOk st
    → QueueOk (record st { tasks = update test change st.tasks })
update-QueueOk test change st same keep q = record {
  keys = update-Below test change st.next_task st.tasks same q.keys;
  rows = update-All RowFits test change st.tasks keep q.rows;
}

-- An update by id, with a change that keeps the invariant of the row that has the id.
pub update_id-QueueOk :
    (change : Task → Task) (id : ℕ) (st : Store) (t : Task)
    → ((u : Task) → (change u).id ≡ u.id)
    → first (has_id id) st.tasks ≡ some t
    → (RowFits t → RowFits (change t))
    → QueueOk st
    → QueueOk (record st { tasks = update (has_id id) change st.tasks })
update_id-QueueOk change id st t same e keep q = record {
  keys = update-Below (has_id id) change st.next_task st.tasks same q.keys;
  rows =
      update_id-All RowFits change id st.next_task st.tasks t q.keys e
        (keep (first-All RowFits (has_id id) st.tasks t q.rows e)) q.rows;
}

pub claim_next-QueueOk :
    (c : Claimant) (st : Store)
    → QueueOk st
    → QueueOk (record st { tasks = (claim_next c st.tasks).1 })
unfolding claim_next
claim_next-QueueOk c st q = elim (Option-cases (pick (claimable c) st.tasks)) [
  | inl e ↦ rw (e, claim_next) q
  | inr (t, e) ↦
      rw (e, claim_next)
        (update-QueueOk (picked t.id) (lease c) st (lease-id c)
          (λ u h f. lease-RowFits c u (ground arith) f) q)
]
  where
    lease-id : (c' : Claimant) (t : Task) → (lease c' t).id ≡ t.id
    lease-id c' t = unfold lease in refl
