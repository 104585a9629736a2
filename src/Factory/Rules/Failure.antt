-- ===== src/Factory/Rules/Failure.antt =====
-- What becomes of a task that failed (handleFail of worker/src/routes/factory.ts).
use omarchy_cli.Base.{
  Bool, Bool-cases, List, Option, String, [], ap, arith, false, first, inl, inr, none, refl, some,
  subst, sym, true, update, ℕ, ◌+◌, ◌<◌, ◌∙◌, ◌∷◌, ◌≡◌, ◌≤◌, ◌⊎◌,
}
use omarchy_cli.Factory.Rows.{Status, Store, Task}
use omarchy_cli.Factory.Claim.{Actor}
use omarchy_cli.Factory.Lease.{
  FailBody, Failed, exhausted, fail_store, fail_task, handle_fail, owned, worker_name,
  failed_status,
}
use omarchy_cli.Factory.Queue.Leases.{has_id-eq, owned-holder}
use omarchy_cli.Factory.Reply.{Reply-cases, answer}
use omarchy_cli.Factory.Tests.{has_id, holds_name}

-- The row of a failure: given up with its holder kept, or back in the queue behind its peers.
abbrev pub Outcome : FailBody → Task → Failed → Task → Type 0
Outcome b t r u =
    ((r.status ≡ Status.failed)
      × (u.status ≡ Status.failed)
      × ((b.final ≡ true) ⊎ (t.max_attempts ≤ t.attempts))
      × (u.lease_owner ≡ t.lease_owner))
    ⊎ ((r.status ≡ Status.queued)
        × (u.status ≡ Status.queued)
        × (b.final ≡ false)
        × (t.attempts < t.max_attempts)
        × (u.lease_owner ≡ none))

fail_task-Outcome :
    (b : FailBody) (t : Task) (now : ℕ)
    → Outcome b t
        (record { status = failed_status (exhausted b.final t); attempts = t.attempts })
        (fail_task (exhausted b.final t) b t.lease_owner now t)
unfolding fail_task exhausted
fail_task-Outcome b t now = ground arith

fail_task-rest :
    (b : FailBody) (t : Task) (now : ℕ)
    → let u = fail_task (exhausted b.final t) b t.lease_owner now t in
      (u.priority ≡ t.priority + 10) × (u.attempts ≡ t.attempts) × (u.lease_expires_at ≡ none)
unfolding fail_task
fail_task-rest b t now = (refl, refl, refl)

pub first-update_id :
    (change : Task → Task) (id : ℕ) (ts : List Task) (t : Task)
    → ((u : Task) → (change u).id ≡ u.id)
    → first (has_id id) ts ≡ some t
    → first (has_id id) (update (has_id id) change ts) ≡ some (change t)
unfolding first update
first-update_id change id [] t same e = cc
first-update_id change id (u ∷ us) t same e = elim (Bool-cases (has_id id u)) [
  | inl h ↦
      let here : has_id id (change u) ≡ true = ground (arith, same u) in
      let it : u ≡ t = ground arith in rw h (rw here (ap (λ (x : Task). some (change x)) it))
  | inr h ↦ rw (h, h) (first-update_id change id us t same (ground arith))
]

fail_task-id :
    (out : Bool) (b : FailBody) (o : Option String) (now : ℕ) (t : Task)
    → (fail_task out b o now t).id ≡ t.id
unfolding fail_task
fail_task-id out b o now t = refl

-- A failure that is answered was reported by the holder of the lease. The task's row is then given
-- up, with its last holder kept, exactly when the worker said that no retry would help or its
-- attempts are used up; otherwise it is back in the queue with no holder. Either way its lease has
-- no end, its priority is ten behind, and its attempts are as they were.
pub handle_fail-Outcome :
    (id : ℕ) (actor : Actor) (b : FailBody) (now : ℕ) (st st' : Store) (r : Failed)
    → handle_fail id actor b now st ≡ answer (r, st')
    → (t : Task) × (u : Task) × (first (has_id id) st.tasks ≡ some t)
      × (holds_name t.lease_owner (worker_name actor) ≡ true)
      × (first (has_id id) st'.tasks ≡ some u)
      × Outcome b t r u
      × (u.priority ≡ t.priority + 10)
      × (u.attempts ≡ t.attempts)
      × (u.lease_expires_at ≡ none)
unfolding handle_fail fail_store
handle_fail-Outcome id actor b now st st' r h = elim (Reply-cases (owned id actor st)) [
  | inr (n, e) ↦ absurd (ground arith)
  | inl (t, e) ↦
      let (row, leased, held) = owned-holder id actor st t e in
      let change = fail_task (exhausted b.final t) b t.lease_owner now in
      let same : t.id ≡ id = has_id-eq id st.tasks t row in
      let tasks : st'.tasks ≡ update (has_id t.id) change st.tasks = ground arith in
      let reply : r
          ≡ record { status = failed_status (exhausted b.final t); attempts = t.attempts } =
        ground arith in
      let (behind, kept, ended) = fail_task-rest b t now in
      let found =
        first-update_id change id st.tasks t
          (fail_task-id (exhausted b.final t) b t.lease_owner now) row in
      let there : first (has_id id) st'.tasks ≡ some (change t) =
        ap (first (has_id id)) (tasks ∙ ap (λ k. update (has_id k) change st.tasks) same) ∙ found in
      (
        t,
        change t,
        row,
        held,
        there,
        subst (λ x. Outcome b t x (change t)) (sym reply) (fail_task-Outcome b t now),
        behind,
        kept,
        ended,
      )
]
