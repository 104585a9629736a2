-- ===== src/World/Reviews.antt =====
-- A project build that is asked for and a rejection are sound (worker/src/routes/review.ts).
use omarchy_cli.Base.{
  List, Option, Option-cases, Text, arith, codes, exists, first, inl, inr, refl, subst, sym, update,
  ℕ, ◌∷◌, ◌≡◌,
}
use omarchy_cli.Factory.Complete.Build.{audits}
use omarchy_cli.Factory.Enqueue.{blank_task, insert_task}
use omarchy_cli.Factory.Journal.{is_named}
use omarchy_cli.Factory.Queue.Rows.{RowFits-attempts}
use omarchy_cli.Factory.Reply.{Reply-cases, after}
use omarchy_cli.Factory.Rows.{Approval, Contributor, Store, Task}
use omarchy_cli.Factory.Tests.{has_id}
use omarchy_cli.Review.Approve.{decide, handle_reject, reason_given, reject_store, rejected_task}
use omarchy_cli.Review.Decide.{
  build_store, cancel_pending_audit, handle_project_build, owner_of, review_task,
}
use omarchy_cli.World.Evolves.{KeepsApprovals}
use omarchy_cli.World.Sound.{
  Sound, SoundStep, SoundStep-refl, insert-Sound, superseded-Sound, update-Sound,
}

pub handle_project_build-Sound :
    (c : Contributor) (id : ℕ) (note : Option Text) (now : ℕ) (st : Store)
    → SoundStep st (after st (handle_project_build c id note now st))
unfolding handle_project_build build_store insert_task review_task blank_task
handle_project_build-Sound c id note now st =
    elim (Reply-cases (handle_project_build c id note now st)) [
      | inr (n, e) ↦ rw (e, handle_project_build) (SoundStep-refl st)
      | inl ((made, s), e) ↦ elim (Option-cases (first (has_id id) st.tasks)) [
        | inl f ↦ ground arith
        | inr (t, f) ↦
            let owner = owner_of t.name t.owner st.registrations in
            let regs = first (is_named t.name) st.registrations in
            let row = review_task c t owner note regs now st.next_task in
            let same : s ≡ build_store c t owner note now st = ground arith in
            let sound : SoundStep st (build_store c t owner note now st) =
              insert-Sound row st.tasks st.next_task st.approvals refl (refl, refl, omega arith)
                refl in
            rw (e, handle_project_build) (subst (λ x. SoundStep st x) (sym same) sound)
      ]
    ]

cancel_pending_audit-Sound :
    (id : ℕ) (ts : List Task) (n : ℕ) (xs : List Approval)
    → Sound ts n xs (cancel_pending_audit id ts) n xs
unfolding cancel_pending_audit
cancel_pending_audit-Sound id ts n xs =
    superseded-Sound (audits id) (codes "the build was decided before the audit ran") ts n xs

-- One more decision takes none back.
pub more-KeepsApprovals : (a : Approval) (xs : List Approval) → KeepsApprovals xs (a ∷ xs)
unfolding exists
more-KeepsApprovals a xs id h = ground arith

reject_store-Sound :
    (c : Contributor) (t : Task) (note : Text) (now : ℕ) (st : Store)
    → SoundStep st (reject_store c t note now st)
unfolding reject_store decide rejected_task
reject_store-Sound c t note now st =
    let n = st.next_task in
    let xs = st.approvals in
    let change = rejected_task c note in
    let once : List Task = update (has_id t.id) change st.tasks in
    let a =
      update-Sound (has_id t.id) change st.tasks n xs (λ u. (refl, refl)) (λ u. refl)
        (λ u e f. RowFits-attempts u f) in
    let b = cancel_pending_audit-Sound t.id once n xs in
    (
      λ k r. let (k', r') = a.0 k r in b.0 k' r',
      (λ P s h. b.1.0 P s (a.1.0 P s h), λ id h. more-KeepsApprovals _ xs id h),
    )

pub handle_reject-Sound :
    (c : Contributor) (id : ℕ) (note : Option Text) (now : ℕ) (st : Store)
    → SoundStep st (after st (handle_reject c id note now st))
unfolding handle_reject
handle_reject-Sound c id note now st = elim (Reply-cases (handle_reject c id note now st)) [
  | inr (n, e) ↦ rw (e, handle_reject) (SoundStep-refl st)
  | inl ((made, s), e) ↦ elim (Option-cases (reason_given note)) [
    | inl f ↦ ground arith
    | inr (why, f) ↦ elim (Option-cases (first (has_id id) st.tasks)) [
      | inl g ↦ ground arith
      | inr (t, g) ↦
          let same : s ≡ reject_store c t why now st = ground arith in
          rw (e, handle_reject)
            (subst (λ x. SoundStep st x) (sym same) (reject_store-Sound c t why now st))
    ]
  ]
]
