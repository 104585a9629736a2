-- ===== src/Factory/Queue/Supersede.antt =====
-- One staged build per package, architecture and side in the review queue (handleComplete of
-- worker/src/routes/factory.ts): a newer one cancels the older ones.
use omarchy_cli.Base.{
  ==_refl, All, Bool, Bool-cases, List, Option, String, Text, [], arith, codes, exists, false, inl,
  inr, refl, select, true, update, update-All, ℕ, ◌==◌, ◌∷◌, ◌≡◌, select_hit, select_miss, subst,
  sym,
}
use omarchy_cli.Factory.Rows.{Store, Task, Vet}
use omarchy_cli.Factory.Complete.Build.{
  audit_task, audits, older_staged, stage_store, stage_task, supersede, supersede_one, superseded,
  superseded_note,
}
use omarchy_cli.Factory.Complete.Job.{CompleteBody}
use omarchy_cli.Factory.Enqueue.{blank_task, insert_task}
use omarchy_cli.Factory.Lease.{staging_prefix}
use omarchy_cli.Factory.Tests.{has_id}

-- A staged older build is among the rows still to be cancelled.
abbrev Covered : Task → List Task → Task → Type 0
Covered t olds u = older_staged t u ≡ true → exists (λ o. o.id == u.id) olds ≡ true

Covered-cons :
    (t o : Task) (olds : List Task) (us : List Task)
    → All (Covered t olds) us
    → All (Covered t (o ∷ olds)) us
Covered-cons t o olds [] a = tt
Covered-cons t o olds (u ∷ us) a = (
  (λ h. unfold exists in elim (Bool-cases (o.id == u.id)) [ inl e ↦ rw e | inr e ↦ rw e (a.0 h) ]),
  Covered-cons t o olds us a.1,
)

Covered-select : (t : Task) (us : List Task) → All (Covered t (select (older_staged t) us)) us
Covered-select t [] = tt
Covered-select t (u ∷ us) =
    let rest = Covered-select t us in
    let test = older_staged t in
    elim (Bool-cases (older_staged t u)) [
      | inl e ↦
          subst (λ l. All (Covered t l) (u ∷ us)) (sym (select_hit test u us e))
            ((λ h. unfold exists in rw (==_refl u.id)), Covered-cons t u (select test us) us rest)
      | inr e ↦
          subst (λ l. All (Covered t l) (u ∷ us)) (sym (select_miss test u us e)) ((λ h. cc), rest)
    ]

superseded-off : (t : Task) (note : Text) (u : Task) → older_staged t (superseded note u) ≡ false
unfolding superseded
superseded-off t note u = ground arith

-- A round that cancels rows of this id leaves the others to the later rounds.
Covered-step :
    (t o : Task) (olds : List Task) (note : Text) (us : List Task)
    → All (Covered t (o ∷ olds)) us
    → All (Covered t olds) (update (has_id o.id) (superseded note) us)
unfolding update
Covered-step t o olds note [] a = tt
Covered-step t o olds note (u ∷ us) a = elim (Bool-cases (has_id o.id u)) [
  | inl e ↦ rw e ((λ h. let off = superseded-off t note u in cc), Covered-step t o olds note us a.1)
  | inr e ↦
      let other : (o.id == u.id) ≡ false = ground arith in
      rw e ((λ h. unfold exists in rw other at (a.0 h)), Covered-step t o olds note us a.1)
]

Covered-update :
    (t : Task) (olds : List Task) (test : Task → Bool) (note : Text) (us : List Task)
    → All (Covered t olds) us
    → All (Covered t olds) (update test (superseded note) us)
Covered-update t olds test note us =
    update-All (Covered t olds) test (superseded note) us
      (λ u e c h. let off = superseded-off t note u in cc)

-- No row is a staged older build.
abbrev pub NoOlder : Task → List Task → Type 0
NoOlder t = All (λ u. older_staged t u ≡ false)

Covered-nil : (t : Task) (us : List Task) → All (Covered t []) us → NoOlder t us
Covered-nil t [] a = tt
Covered-nil t (u ∷ us) a = (
  elim (Bool-cases (older_staged t u)) [
    | inl e ↦
        let no : exists {A = Task} (λ o. o.id == u.id) [] ≡ true = a.0 e in
        unfold exists in absurd (cc)
    | inr e ↦ e
  ],
  Covered-nil t us a.1,
)

supersede-NoOlder :
    (t : Task) (note : Text) (olds us : List Task)
    → All (Covered t olds) us
    → NoOlder t (supersede t note olds us)
unfolding supersede supersede_one
supersede-NoOlder t note [] us a = Covered-nil t us a
supersede-NoOlder t note (o ∷ olds) us a = supersede-NoOlder t note olds _ (
    Covered-update t olds (audits o.id) (codes "the build it audited was superseded") _
      (Covered-step t o olds note us a))

audit_task-off :
    (t : Task) (b : CompleteBody) (now id : ℕ) → older_staged t (audit_task t b now id) ≡ false
unfolding audit_task blank_task
audit_task-off t b now id = refl

-- When a build is staged, no staged build of the same package, architecture and side with a
-- smaller id is left in the review queue.
pub stage_store-NoOlder :
    (t : Task) (b : CompleteBody) (vet : Option Vet) (who : String) (now : ℕ) (st : Store)
    → NoOlder t (stage_store t b vet who now st).tasks
unfolding stage_store insert_task
stage_store-NoOlder t b vet who now st =
    let rows : List Task =
      update (has_id t.id) (stage_task b (staging_prefix t) vet now) st.tasks in
    (
      audit_task-off t b now st.next_task,
      supersede-NoOlder t (superseded_note t b) (select (older_staged t) rows) rows
          (Covered-select t rows),
    )
