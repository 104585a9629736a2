-- ===== src/Factory/Queue/Once.antt =====
-- Queueing the same order again queues nothing, whatever was queued, claimed or beaten in between
-- (enqueue, handleEnqueue, handleClaim and handleHeartbeat of worker/src/routes/factory.ts).
use omarchy_cli.Base.{
  All, List, Option, Option-cases, String, Text, [], arith, inl, inr, not, or_else, refl, ℕ, ◌∷◌,
  ◌≡◌, Bool-cases, ◌&&◌,
}
use omarchy_cli.Factory.Queue.Trace as QueueTrace
use omarchy_cli.Factory.Queue.Trace.{Request}
use omarchy_cli.Factory.Chains.{or_refuse-after, require-after}
use omarchy_cli.Factory.Claim.{
  Actor, ClaimBody, Claimant, claim_next, claim_store, claim_worker, claimable, claimant,
  handle_claim, lease, pick, picked,
}
use omarchy_cli.Factory.Complete.Job.{Attest}
use omarchy_cli.Factory.Enqueue.{
  EnqueueBody, Order, enqueue, handle_enqueue, is_dry, is_empty, parse_arches, repo_arch,
  split_by_upstream, nonempty_name, nonempty_text,
}
use omarchy_cli.Factory.Lease.{extend_lease, handle_heartbeat, owned}
use omarchy_cli.Factory.Queue.Orders.{
  AllQueued, KeepsOrder, Queued, Queued-enqueue, QueuedIn, enqueue-AllQueued, enqueue_queued,
  update-Queued,
}
use omarchy_cli.Factory.Reply.{Reply-cases, after}
use omarchy_cli.Factory.Rows.{Arch, Provided, Store, Task, Vet}
use omarchy_cli.Factory.Tests.{arch_eq, has_id}
use omarchy_cli.Factory.Workers.{agent_report}

lease-KeepsOrder :
    (t : Order) (arch : Arch) (c : Claimant) (id : ℕ) → KeepsOrder t arch (picked id) (lease c)
unfolding lease
lease-KeepsOrder t arch c id u h = (refl, ground arith)

claim_next-QueuedIn :
    (t : Order) (arch : Arch) (id : ℕ) (c : Claimant) (ts : List Task)
    → QueuedIn t arch id ts
    → QueuedIn t arch id (claim_next c ts).1
unfolding claim_next
claim_next-QueuedIn t arch id c ts q = elim (Option-cases (pick (claimable c) ts)) [
  | inl e ↦ rw (e, claim_next) q
  | inr (u, e) ↦
      rw (e, claim_next)
        (update-Queued t arch id (picked u.id) (lease c) ts (lease-KeepsOrder t arch c u.id) q)
]

handle_claim-Queued :
    (t : Order) (arch : Arch) (id : ℕ) (actor : Actor) (b : ClaimBody) (now : ℕ) (st : Store)
    → Queued t arch id st
    → Queued t arch id (after st (handle_claim actor b now st))
unfolding handle_claim claim_worker claim_store
handle_claim-Queued t arch id (Actor.job j) b now st q = ground arith
handle_claim-Queued t arch id (Actor.worker w) b now st q =
    let probe = agent_report b.agent_status b.agent_error b.agent_checked_at in
    let kept = claim_next-QueuedIn t arch id (claimant w b probe now st) st.tasks q in
    let P : Store → Type 0 = Queued t arch id in
    or_refuse-after P st (repo_arch (or_else b.arch "")) 400 _ q
      (λ a. require-after P st (arch_eq w.arch a) 400 _ q kept)

handle_heartbeat-Queued :
    (t : Order) (arch : Arch) (id job : ℕ) (actor : Actor) (now : ℕ) (st : Store)
    → Queued t arch id st
    → Queued t arch id (after st (handle_heartbeat job actor now st))
unfolding handle_heartbeat extend_lease
handle_heartbeat-Queued t arch id job actor now st q = elim (Reply-cases (owned job actor st)) [
  | inr (n, e) ↦ rw (e, handle_heartbeat) q
  | inl (u, e) ↦
      rw (e, handle_heartbeat)
        (update-Queued t arch id (has_id job) (extend_lease now) st.tasks (λ v h. (refl, refl)) q)
]

handle_enqueue-Queued :
    (t : Order) (arch : Arch) (id : ℕ) (provided : String → List Provided) (b : EnqueueBody)
    → (now : ℕ) (st : Store) → Queued t arch id st
    → Queued t arch id (after st (handle_enqueue provided b now st))
unfolding handle_enqueue
handle_enqueue-Queued t arch id provided b now st q =
    let split =
      split_by_upstream (provided (or_else b.name "")) (parse_arches b.arches) b.override in
    let order : Order = record {
      name = or_else b.name "";
      pkgbuild_ref = or_else b.pkgbuild_ref [];
      reason = or_else b.reason [];
      version = b.version;
      priority = b.priority;
      publish = not (is_dry b.publish);
    } in
    let kept = Queued-enqueue t order split.build arch now id st q in
    elim (Bool-cases
      (nonempty_name b.name && nonempty_text b.pkgbuild_ref && nonempty_text b.reason)) [
        | inr e ↦ rw (e, handle_enqueue) q
        | inl e ↦ elim (Bool-cases (not (is_empty split.build))) [
          | inr f ↦ rw (e, f, handle_enqueue) q
          | inl f ↦ rw (e, f, handle_enqueue) kept
        ]
      ]

AllQueued-map :
    (t : Order) (arches : List Arch) (ids : List ℕ) (st st' : Store)
    → ((arch : Arch) (id : ℕ) → Queued t arch id st → Queued t arch id st')
    → AllQueued t arches ids st
    → AllQueued t arches ids st'
AllQueued-map t [] [] st st' f q = tt
AllQueued-map t [] (i ∷ ids) st st' f q = elim q [ ]
AllQueued-map t (a ∷ arches) [] st st' f q = elim q [ ]
AllQueued-map t (a ∷ arches) (i ∷ ids) st st' f q =
    (f a i q.0, AllQueued-map t arches ids st st' f q.1)

-- A request that ends no task and gives none up: it queues, claims or beats.
abbrev pub GoesOn : ℕ × Request → Type 0
GoesOn (now, Request.enqueues b) = Unit {0}
GoesOn (now, Request.claims actor b) = Unit {0}
GoesOn (now, Request.beats id actor) = Unit {0}
GoesOn _ = ⊥

module _ (read_vet : Text → Option Vet) (attest : Attest) (provided : String → List Provided) where
  step-Queued :
      (t : Order) (arch : Arch) (id : ℕ) (r : ℕ × Request) (st : Store)
      → GoesOn r
      → Queued t arch id st
      → Queued t arch id (QueueTrace.step read_vet attest provided r st)
  unfolding QueueTrace.step
  step-Queued t arch id (now, Request.enqueues b) st g q =
      handle_enqueue-Queued t arch id provided b now st q
  step-Queued t arch id (now, Request.claims actor b) st g q =
      handle_claim-Queued t arch id actor b now st q
  step-Queued t arch id (now, Request.beats job actor) st g q =
      handle_heartbeat-Queued t arch id job actor now st q
  step-Queued t arch id (now, Request.cancels job) st g q = elim g [ ]
  step-Queued t arch id (now, Request.fails job actor b) st g q = elim g [ ]
  step-Queued t arch id (now, Request.completes job actor b) st g q = elim g [ ]
  step-Queued t arch id (now, Request.requeues) st g q = elim g [ ]

  run-AllQueued :
      (t : Order) (arches : List Arch) (ids : List ℕ) (rs : List (ℕ × Request)) (st : Store)
      → All GoesOn rs
      → AllQueued t arches ids st
      → AllQueued t arches ids (QueueTrace.run read_vet attest provided rs st)
  unfolding QueueTrace.run
  run-AllQueued t arches ids [] st g q = q
  run-AllQueued t arches ids (r ∷ rs) st g q =
      let st' = QueueTrace.step read_vet attest provided r st in
      run-AllQueued t arches ids rs st' g.1
        (AllQueued-map t arches ids st st' (λ a i. step-Queued t a i r st g.0) q)

  -- Queueing an order twice is queueing it once: after any requests that queue orders, claim tasks
  -- or beat, in any order, by anyone, granted or refused, the same order for the same architectures
  -- is answered with the ids of the first time, and the store stays as it is.
  pub enqueue_again :
      (t : Order) (arches : List Arch) (now later : ℕ) (rs : List (ℕ × Request)) (st : Store)
      → All GoesOn rs
      → enqueue t arches later
          (QueueTrace.run read_vet attest provided rs (enqueue t arches now st).1)
        ≡ (
          (enqueue t arches now st).0,
          QueueTrace.run read_vet attest provided rs (enqueue t arches now st).1,
        )
  enqueue_again t arches now later rs st g =
      let (ids, first_time) = enqueue t arches now st in
      enqueue_queued t arches ids later _
        (run-AllQueued t arches ids rs first_time g (enqueue-AllQueued t arches now st))
