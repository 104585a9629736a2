-- ===== src/World/Handlers.antt =====
-- The handlers of the factory evolve the queue (worker/src/routes/factory.ts).
use omarchy_cli.Base.{
  Bool-cases, List, Option-cases, String, [], exists, first, inl, inr, refl, select, ℕ, ◌&&◌, ◌∷◌,
  not, or_else,
}
use omarchy_cli.Factory.Reply.{Reply-cases, after}
use omarchy_cli.World.Evolves.{Evolves, Evolves-trans, Moves-refl, insert-Moves, update-Moves}
use omarchy_cli.Factory.Claim.{
  Actor, Claimant, claim_next, claim_store, claimable, lease, pick, picked,
}
use omarchy_cli.Factory.Enqueue.{
  EnqueueBody, Order, blank_task, cancel, enqueue, enqueue_one, handle_cancel, handle_enqueue,
  insert_task, order_task, same_order, is_dry, is_empty, nonempty_name, nonempty_text, parse_arches,
  split_by_upstream,
}
use omarchy_cli.Factory.Lease.{
  FailBody, exhausted, expired, extend_lease, fail_store, fail_task, handle_fail, handle_heartbeat,
  owned, requeue_all, requeue_expired, requeue_one, requeue_task,
}
use omarchy_cli.Factory.Queue.Leases.{after_cancel}
use omarchy_cli.Factory.Rows.{Arch, Provided, Store, Task}
use omarchy_cli.Factory.Tests.{has_id, is_leased, is_open}
use omarchy_cli.Factory.Workers.{Touch}

enqueue_one-Evolves :
    (t : Order) (arch : Arch) (now : ℕ) (st : Store) → Evolves st (enqueue_one t arch now st).1
unfolding enqueue_one insert_task order_task blank_task
enqueue_one-Evolves t arch now st = elim (Option-cases (first (same_order t arch) st.tasks)) [
  | inl e ↦
      rw (e, enqueue_one)
        (insert-Moves (order_task t arch now st.next_task) st.tasks st.approvals refl)
  | inr (u, e) ↦ rw (e, enqueue_one) (Moves-refl st.tasks st.approvals)
]

enqueue-Evolves :
    (t : Order) (arches : List Arch) (now : ℕ) (st : Store) → Evolves st (enqueue t arches now st).1
unfolding enqueue
enqueue-Evolves t [] now st = Moves-refl st.tasks st.approvals
enqueue-Evolves t (arch ∷ arches) now st =
    let next = (enqueue_one t arch now st).1 in
    Evolves-trans st next (enqueue t arches now next).1 (enqueue_one-Evolves t arch now st)
      (enqueue-Evolves t arches now next)

pub handle_enqueue-Evolves :
    (provided : String → List Provided) (b : EnqueueBody) (now : ℕ) (st : Store)
    → Evolves st (after st (handle_enqueue provided b now st))
unfolding handle_enqueue
handle_enqueue-Evolves provided b now st =
    let split =
      split_by_upstream (provided (or_else b.name "")) (parse_arches b.arches) b.override in
    let order : Order = record {
      name = or_else b.name "";
      pkgbuild_ref = or_else b.pkgbuild_ref [];
      reason = or_else b.reason [];
      version = b.version;
      priority = b.priority;
      publish = not (is_dry b.publish);
    } in
    elim (Bool-cases
      (nonempty_name b.name && nonempty_text b.pkgbuild_ref && nonempty_text b.reason)) [
        | inr e ↦ rw (e, handle_enqueue) (Moves-refl st.tasks st.approvals)
        | inl e ↦ elim (Bool-cases (not (is_empty split.build))) [
          | inr f ↦ rw (e, f, handle_enqueue) (Moves-refl st.tasks st.approvals)
          | inl f ↦ rw (e, f, handle_enqueue) (enqueue-Evolves order split.build now st)
        ]
      ]

pub handle_cancel-Evolves :
    (id now : ℕ) (st : Store) → Evolves st (after_cancel st (handle_cancel id now st))
unfolding handle_cancel cancel
handle_cancel-Evolves id now st =
    elim (Bool-cases (exists (λ t. has_id id t && is_open t.status) st.tasks)) [
      | inr e ↦ rw (e, handle_cancel) (Moves-refl st.tasks st.approvals)
      | inl e ↦
          rw (e, handle_cancel)
            (update-Moves (λ t. has_id id t && is_open t.status) (cancel now) st.tasks st.approvals
              (λ t. (refl, refl)))
    ]

pub claim_store-Evolves :
    (c : Claimant) (touch : Touch) (st : Store) → Evolves st (claim_store c touch st).1
unfolding claim_store claim_next lease
claim_store-Evolves c touch st = elim (Option-cases (pick (claimable c) st.tasks)) [
  | inl e ↦ rw (e, claim_next, claim_store) (Moves-refl st.tasks st.approvals)
  | inr (t, e) ↦
      rw (e, claim_next, claim_store)
        (update-Moves (picked t.id) (lease c) st.tasks st.approvals (λ u. (refl, refl)))
]

pub handle_heartbeat-Evolves :
    (id : ℕ) (actor : Actor) (now : ℕ) (st : Store)
    → Evolves st (after st (handle_heartbeat id actor now st))
unfolding handle_heartbeat extend_lease
handle_heartbeat-Evolves id actor now st = elim (Reply-cases (owned id actor st)) [
  | inr (n, e) ↦ rw (e, handle_heartbeat) (Moves-refl st.tasks st.approvals)
  | inl (t, e) ↦
      rw (e, handle_heartbeat)
        (update-Moves (has_id id) (extend_lease now) st.tasks st.approvals (λ u. (refl, refl)))
]

pub handle_fail-Evolves :
    (id : ℕ) (actor : Actor) (b : FailBody) (now : ℕ) (st : Store)
    → Evolves st (after st (handle_fail id actor b now st))
unfolding handle_fail fail_store fail_task
handle_fail-Evolves id actor b now st = elim (Reply-cases (owned id actor st)) [
  | inr (n, e) ↦ rw (e, handle_fail) (Moves-refl st.tasks st.approvals)
  | inl (t, e) ↦
      rw (e, handle_fail)
        (update-Moves (has_id t.id) (fail_task (exhausted b.final t) b t.lease_owner now) st.tasks
          st.approvals (λ u. (refl, refl)))
]

requeue_all-Evolves : (now : ℕ) (ts : List Task) (st : Store) → Evolves st (requeue_all now ts st)
unfolding requeue_all requeue_one requeue_task
requeue_all-Evolves now [] st = Moves-refl st.tasks st.approvals
requeue_all-Evolves now (t ∷ ts) st =
    let next = requeue_one now t st in
    Evolves-trans st next (requeue_all now ts next)
      (update-Moves (λ u. has_id t.id u && is_leased u.status) (requeue_task now t) st.tasks
        st.approvals (λ u. (refl, refl)))
      (requeue_all-Evolves now ts next)

pub requeue_expired-Evolves : (now : ℕ) (st : Store) → Evolves st (requeue_expired now st).1
unfolding requeue_expired
requeue_expired-Evolves now st = requeue_all-Evolves now (select (expired now) st.tasks) st
