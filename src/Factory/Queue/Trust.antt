-- ===== src/Factory/Queue/Trust.antt =====
-- Whose work a worker may be given (the scope of handleClaim in worker/src/routes/factory.ts).
use omarchy_cli.Base.{
  Option, arith, false, or_else, refl, some, subst, sym, true, ℕ, ◌&&◌, ◌≡◌, ◌⊎◌,
}
use omarchy_cli.Factory.Rows.{Kind, Store, Task, Trust}
use omarchy_cli.Factory.Claim.{
  Actor, ClaimBody, Claimant, Granted, WorkerIdentity, claim_kinds, claim_next, claim_store,
  claim_worker, claimable, claimant, granted, handle_claim, lease, owner_may_share, shared_by,
}
use omarchy_cli.Factory.Queue.Claims.{Claimed, claim_next-Claimed}
use omarchy_cli.Factory.Reply.{answer}
use omarchy_cli.Factory.Tests.{holds_name, is_project, kind_eq}
use omarchy_cli.Factory.Workers.{AgentReport, agent_report}

-- A project worker builds for the project alone; a community worker builds its owner's packages,
-- or another's where it is donated by a maintainer and the owner's term is over.
abbrev pub MayDo : WorkerIdentity → ClaimBody → ℕ → Store → Trust → Task → Type 0
MayDo w b now st Trust.project t = kind_eq t.kind Kind.build ≡ true → is_project t.trust ≡ true
MayDo w b now st Trust.community t =
    (kind_eq t.kind Kind.build ≡ true)
    × (is_project t.trust ≡ false)
    × ((holds_name t.owner (or_else w.owner "-") ≡ true)
        ⊎ ((b.shared && owner_may_share w.owner st.contributors && shared_by now t.shared_after)
            ≡ true))

claimable-MayDo :
    (w : WorkerIdentity) (b : ClaimBody) (probe : Option AgentReport) (now : ℕ) (st : Store)
    (trust : Trust) (t : Task)
    → w.trust ≡ trust
    → claimable (claimant w b probe now st) t ≡ true
    → MayDo w b now st trust t
unfolding claimant claim_kinds
claimable-MayDo w b probe now st Trust.project t e h = λ k. ground arith
claimable-MayDo w b probe now st Trust.community t e h = ground arith

lease-MayDo :
    (w : WorkerIdentity) (b : ClaimBody) (now : ℕ) (st : Store) (trust : Trust) (c : Claimant)
    (t : Task)
    → MayDo w b now st trust t
    → MayDo w b now st trust (lease c t)
unfolding lease
lease-MayDo w b now st Trust.project c t h = h
lease-MayDo w b now st Trust.community c t h = h

-- What the claim answers is what its statement leased.
claim_worker-task :
    (w : WorkerIdentity) (b : ClaimBody) (now : ℕ) (st : Store) (g : Granted)
    → (claim_worker w b now st).0 ≡ some g
    → let probe = agent_report b.agent_status b.agent_error b.agent_checked_at in
      (claim_next (claimant w b probe now st) st.tasks).0 ≡ some g.task
unfolding claim_worker claim_store granted
claim_worker-task w b now st g h = ground arith

claim_worker-MayDo :
    (w : WorkerIdentity) (b : ClaimBody) (now : ℕ) (st : Store) (g : Granted)
    → (claim_worker w b now st).0 ≡ some g
    → MayDo w b now st w.trust g.task
claim_worker-MayDo w b now st g h =
    let probe = agent_report b.agent_status b.agent_error b.agent_checked_at in
    let c = claimant w b probe now st in
    let (t, _, ok, _, same, _) =
      subst (λ o. Claimed c st.tasks (o, (claim_next c st.tasks).1))
        (claim_worker-task w b now st g h) (claim_next-Claimed c st.tasks) in
    subst (MayDo w b now st w.trust) (sym same)
      (lease-MayDo w b now st w.trust c t (claimable-MayDo w b probe now st w.trust t refl ok))

-- A claim that is granted gives a project worker no build but the project's own, and a community
-- worker only builds of the community: its owner's, or, where the claim donates the worker, its
-- owner is a maintainer and the task's term for its own owner is over, anyone's.
pub handle_claim-MayDo :
    (w : WorkerIdentity) (b : ClaimBody) (now : ℕ) (st st' : Store) (g : Granted)
    → handle_claim (Actor.worker w) b now st ≡ answer (some g, st')
    → MayDo w b now st w.trust g.task
unfolding handle_claim
handle_claim-MayDo w b now st st' g h = claim_worker-MayDo w b now st g (ground arith)
