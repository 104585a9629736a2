-- ===== src/Release/History.antt =====
-- A new release extends the history and changes nothing of it (handleCreateRelease of
-- worker/src/routes/releases.ts).
use omarchy_cli.Base.{
  ◌<◌, Bool, arith, false, if◌then◌else◌, ℕ, ◌==◌, ◌≡◌, Bool-cases, inl, inr, refl, ◌++◌, ◌∙◌, All,
  All-both, All-map, List, Option, Option-cases, [], first, first-All, first-test, none, some,
  subst, sym, ◌∷◌,
}
use omarchy_cli.Release.Delta.{
  moved_pins-chosen, moved_pins-other, select-deltas_new, select-deltas_old, apply_deltas-chosen,
  ring_eq-eq,
}
use omarchy_cli.Release.Create.{CreateRelease}
use omarchy_cli.Release.Members.{
  checkpoint_members, deltas_of, ring_members, heads_ring, is_release, ring_head,
}
use omarchy_cli.Release.Replay.{
  History, Lists, CheckpointKept, ReleaseKept, DeltaKept, HeadKept, first-id,
}
use omarchy_cli.Release.Rows.{Pool, Ring, ring_eq, Op, Release}
use omarchy_cli.Release.Selection.{except, holds, pinned, pinned-pin, holds-pin, Pin}
use omarchy_cli.Release.Write.{Plan, write_release, delta_rows, new_release, id_of}
use omarchy_cli.Release.Checkpoint.{IsOld, RowOld, Keeps}

-- The history with a new release's selection.
abbrev pub extend : History → ℕ → (ℕ → Bool) → History
extend history id chosen i p = if i == id then chosen p else history i p

-- The history that a plan makes: the next release holds the target.
abbrev pub planned : History → Plan → Pool → History
planned history plan st = extend history st.next_release (λ p. holds p plan.chosen)

-- No row is pinned under an id that is not there yet.
pinned-fresh :
    (next p : ℕ) (rows : List (Pin ℕ))
    → All (λ k. k.key < next) rows
    → holds p (pinned (λ k. k == next) rows) ≡ false
unfolding pinned holds
pinned-fresh next p [] all = refl
pinned-fresh next p (r ∷ rows) all = ground (arith, all.0, pinned-fresh next p rows all.1)

pub id_of-some :
    (o : Option Release) (q : ℕ) → id_of o ≡ some q → (r : Release) × (o ≡ some r) × (r.id ≡ q)
id_of-some none q e = cc
id_of-some (some r) q e = (r, refl, ground arith)

-- The ring serves what its parent release was made to hold.
abbrev pub ParentServed : History → Ring → Option Release → Pool → Type 0
ParentServed history ring parent st =
    (r : Release)
    → parent ≡ some r
    → Lists (ring_members ring st) (history r.id) × (r.id < st.next_release)

-- A ring serves what its head was made to hold.
pub ring_head-Lists :
    (history : History) (st : Pool) (ring : Ring)
    → Keeps history st
    → ParentServed history ring (ring_head ring st) st
unfolding ring_head
ring_head-Lists history st ring keeps r e =
    elim (Option-cases (first (heads_ring ring) st.ring_heads)) [
      | inl f ↦ ground arith
      | inr (head, f) ↦
          let found : first (is_release head.release_id) st.releases ≡ some r = ground arith in
          let kept : HeadKept history st head =
            first-All (HeadKept history st) (heads_ring ring) st.ring_heads head keeps.0 f in
          let at : r.id ≡ head.release_id = first-id head.release_id st.releases r found in
          let same : ring ≡ head.ring =
            ring_eq-eq ring head.ring (first-test (heads_ring ring) st.ring_heads head f) in
          let old : RowOld st.next_release r =
            first-All (RowOld st.next_release) (is_release head.release_id) st.releases r keeps.3.0
              found in
          (
            subst (λ x. Lists (ring_members x st) (history r.id)) (sym same)
                (subst (λ i. Lists (ring_members head.ring st) (history i)) (sym at) kept),
            old.0,
          )
    ]

module _ (history : History) (b : CreateRelease) (plan : Plan) (st : Pool) where
  -- The ring serves the target.
  pub write_release-live :
      Lists (ring_members plan.ring (write_release b plan st)) (λ p. holds p plan.chosen)
  unfolding ring_members write_release
  write_release-live p = moved_pins-chosen plan.ring plan.chosen st.ring_packages p

  -- The other rings serve what they served.
  pub write_release-other :
      (other : Ring)
      → ring_eq other plan.ring ≡ false
      → ring_members other (write_release b plan st) ≡ ring_members other st
  unfolding ring_members write_release
  write_release-other other h =
      let own = pinned (ring_eq plan.ring) st.ring_packages in
      moved_pins-other other plan.ring (except plan.chosen own) (except own plan.chosen)
        st.ring_packages h

  pub planned-new : (p : ℕ) → planned history plan st st.next_release p ≡ holds p plan.chosen
  planned-new p = ground arith

  pub planned-old : (i p : ℕ) → i < st.next_release → planned history plan st i p ≡ history i p
  planned-old i p lt = ground arith

  -- The rows of the delta are found under the new id, and under no older one.
  pub write_release-deltas :
      (i : ℕ) → i < st.next_release → deltas_of i (write_release b plan st) ≡ deltas_of i st
  unfolding deltas_of write_release
  write_release-deltas i lt =
      let own = pinned (ring_eq plan.ring) st.ring_packages in
      select-deltas_old st.next_release i (except own plan.chosen) (except plan.chosen own)
        st.release_deltas (ground arith)

  pub write_release-checkpoint :
      (i : ℕ)
      → i < st.next_release
      → checkpoint_members i (write_release b plan st) ≡ checkpoint_members i st
  unfolding checkpoint_members write_release ring_members
  write_release-checkpoint i lt =
      let id = st.next_release in
      let live = ring_members plan.ring (write_release b plan st) in
      elim (Bool-cases (new_release b plan st).checkpoint) [
        | inl c ↦
            rw c
              (pinned-pin (λ k. k == i) (λ k. k == id) id live st.release_packages (ground arith))
        | inr c ↦ rw c refl
      ]

  pub write_release-OldKept :
      (r : Release)
      → RowOld st.next_release r
      → ReleaseKept history st r
      → ReleaseKept (planned history plan st) (write_release b plan st) r
  write_release-OldKept r old kept = (
    λ c p. rw (write_release-checkpoint r.id old.0, planned-old r.id p old.0) (kept.0 c p),
    λ q ids at lists p.
        rw (write_release-deltas r.id old.0, planned-old r.id p old.0)
          (kept.1 q ids at (λ p. lists p ∙ planned-old q p (old.1 q at)) p),
  )

  pub write_release-new_deltas :
      IsOld st
      → let own = ring_members plan.ring st in
        deltas_of st.next_release (write_release b plan st)
        ≡ delta_rows st.next_release Op.remove (except own plan.chosen)
          ++ delta_rows st.next_release Op.add (except plan.chosen own)
  unfolding deltas_of write_release ring_members
  write_release-new_deltas old =
      let own = pinned (ring_eq plan.ring) st.ring_packages in
      select-deltas_new st.next_release (except own plan.chosen) (except plan.chosen own)
        st.release_deltas old.1

  pub write_release-new_checkpoint :
      IsOld st
      → CheckpointKept (planned history plan st) (write_release b plan st) (new_release b plan st)
  unfolding write_release checkpoint_members new_release
  write_release-new_checkpoint old c p =
      let id = st.next_release in
      let live = ring_members plan.ring (write_release b plan st) in
      rw c (
        holds-pin p (λ k. k == id) id live st.release_packages (ground arith)
        ∙ ground (
          arith,
          write_release-live p,
          planned-new p,
          pinned-fresh id p st.release_packages old.2,
        ))

  pub write_release-new_delta :
      Keeps history st
      → ParentServed history plan.ring plan.parent st
      → DeltaKept (planned history plan st) (write_release b plan st) (new_release b plan st)
  unfolding new_release
  write_release-new_delta keeps from q ids at lists p =
      let (parent, found, is_q) = id_of-some plan.parent q at in
      let (served, lt) = from parent found in
      let own = ring_members plan.ring st in
      rw (write_release-new_deltas keeps.3) (
        apply_deltas-chosen st.next_release p plan.chosen own ids (
          lists p
          ∙ planned-old q p (subst (λ i. i < st.next_release) is_q lt)
          ∙ sym (subst (λ i. Lists own (history i)) is_q served p))
        ∙ sym (planned-new p))

  pub write_release-releases :
      Keeps history st
      → ParentServed history plan.ring plan.parent st
      → All
          (ReleaseKept (planned history plan st) (write_release b plan st))
          (write_release b plan st).releases
  unfolding write_release
  write_release-releases keeps from = (
    (write_release-new_checkpoint keeps.3, write_release-new_delta keeps from),
    All-map (λ r. RowOld st.next_release r × ReleaseKept history st r)
        (ReleaseKept (planned history plan st) (write_release b plan st)) st.releases
        (λ r h. write_release-OldKept r h.0 h.1)
        (All-both (RowOld st.next_release) (ReleaseKept history st) st.releases keeps.3.0 keeps.1),
  )
