-- ===== src/Release/Served.antt =====
-- What handleCreateRelease of worker/src/routes/releases.ts answers is what the ring serves, and
-- the pool keeps its history.
use omarchy_cli.Base.{
  All, All-both, update-All_cases, update_miss, ◌<◌, Bool-cases, exists, false, inl, inr, subst,
  sym, true, ◌∙◌, ◌≡◌, All-map, List, [], arith, ℕ, ◌++◌, ◌+◌, ◌==◌, ◌∷◌, All-append, update-All,
}
use omarchy_cli.Release.History.{
  planned, planned-new, planned-old, write_release-live, write_release-other,
  write_release-releases, id_of-some, ParentServed,
}
use omarchy_cli.Release.Checkpoint.{Keeps, PinKept, pin-All, IsOld, RowOld}
use omarchy_cli.Release.Create.{CreateRelease}
use omarchy_cli.Release.Delta.{ring_eq-eq, ring_eq_refl}
use omarchy_cli.Release.Members.{heads_ring, ring_members}
use omarchy_cli.Release.Replay.{HeadKept, History}
use omarchy_cli.Release.Rows.{Head, Pool, Delta, Op, Ring, ring_eq}
use omarchy_cli.Release.Selection.{holds, Pin, except, pinned}
use omarchy_cli.Release.Write.{Plan, set_head, write_release, delta_rows, new_release}

ring_eq_flip : (a b : Ring) → ring_eq a b ≡ false → ring_eq b a ≡ false
ring_eq_flip a b h = ground arith

module _ (history : History) (b : CreateRelease) (plan : Plan) (st : Pool) where
  head_hit :
      (h : Head)
      → heads_ring plan.ring h ≡ true
      → HeadKept
          (planned history plan st)
          (write_release b plan st)
          (record h { release_id = st.next_release })
  head_hit h t p =
      let same = ring_eq-eq plan.ring h.ring t in
      subst
        (λ x.
          holds p (ring_members x (write_release b plan st))
          ≡ planned history plan st st.next_release p)
        same (write_release-live history b plan st p ∙ sym (planned-new history b plan st p))

  head_miss :
      (h : Head)
      → heads_ring plan.ring h ≡ false
      → (h.release_id < st.next_release) × HeadKept history st h
      → HeadKept (planned history plan st) (write_release b plan st) h
  head_miss h t (lt, kept) p =
      rw
        (
          write_release-other history b plan st h.ring (ring_eq_flip plan.ring h.ring t),
          planned-old history b plan st h.release_id p lt,
        )
        (kept p)

  write_release-heads :
      Keeps history st
      → All
          (HeadKept (planned history plan st) (write_release b plan st))
          (set_head plan.ring st.next_release st.ring_heads)
  unfolding set_head
  write_release-heads keeps =
      let P : Head → Type 0 = λ h. (h.release_id < st.next_release) × HeadKept history st h in
      let Q : Head → Type 0 = HeadKept (planned history plan st) (write_release b plan st) in
      let rows =
        update-All_cases P Q (heads_ring plan.ring) (λ h. record h { release_id = st.next_release })
          st.ring_heads (λ h t k. head_hit h t) head_miss
          (All-both (λ h. h.release_id < st.next_release) (HeadKept history st) st.ring_heads
            keeps.3.3 keeps.0) in
      elim (Bool-cases (exists (heads_ring plan.ring) st.ring_heads)) [
        | inl e ↦ rw e rows
        | inr e ↦ rw e (
          head_hit (record { ring = plan.ring; release_id = st.next_release })
              (ring_eq_refl plan.ring),
          subst (All Q)
              (update_miss (heads_ring plan.ring) (λ h. record h { release_id = st.next_release })
                st.ring_heads e)
              rows,
        )
      ]

  write_release-pins :
      Keeps history st
      → All (PinKept (planned history plan st)) (write_release b plan st).release_packages
  unfolding write_release ring_members
  write_release-pins keeps =
      let Q : Pin ℕ → Type 0 = PinKept (planned history plan st) in
      let rows : All Q st.release_packages =
        All-map (λ k. (k.key < st.next_release) × PinKept history k) Q st.release_packages
          (λ k h. planned-old history b plan st k.key k.package_id h.0 ∙ h.1)
          (All-both (λ k. k.key < st.next_release) (PinKept history) st.release_packages keeps.3.2
            keeps.2) in
      let id = st.next_release in
      elim (Bool-cases (new_release b plan st).checkpoint) [
        | inl c ↦ rw c (
            pin-All Q (λ k. k == id) id (ring_members plan.ring (write_release b plan st))
              st.release_packages
              (λ p h.
                planned-new history b plan st p ∙ sym (write_release-live history b plan st p) ∙ h)
              rows)
        | inr c ↦ rw c rows
      ]

  delta_rows-old :
      (op : Op) (ps : List ℕ)
      → All (λ d. d.release_id < st.next_release + 1) (delta_rows st.next_release op ps)
  unfolding delta_rows
  delta_rows-old op [] = tt
  delta_rows-old op (p ∷ ps) = (omega arith, delta_rows-old op ps)

  new_release-RowOld :
      Keeps history st
      → ParentServed history plan.ring plan.parent st
      → RowOld (st.next_release + 1) (new_release b plan st)
  unfolding new_release
  new_release-RowOld keeps from = (
    omega arith,
    λ q at.
        let (parent, found, is_q) = id_of-some plan.parent q at in
        let (served, lt) = from parent found in ground arith,
  )

  write_release-IsOld :
      Keeps history st
      → ParentServed history plan.ring plan.parent st
      → IsOld (write_release b plan st)
  unfolding write_release set_head ring_members
  write_release-IsOld keeps from =
      let next = st.next_release in
      let own = pinned (ring_eq plan.ring) st.ring_packages in
      let D : Delta → Type 0 = λ d. d.release_id < next + 1 in
      let K : Pin ℕ → Type 0 = λ k. k.key < next + 1 in
      let H : Head → Type 0 = λ h. h.release_id < next + 1 in
      let gone = delta_rows next Op.remove (except own plan.chosen) in
      let new = delta_rows next Op.add (except plan.chosen own) in
      let pins : All K st.release_packages =
        All-map (λ k. k.key < next) K st.release_packages (λ k h. omega arith) keeps.3.2 in
      let heads : All H st.ring_heads =
        All-map (λ h. h.release_id < next) H st.ring_heads (λ h lt. omega arith) keeps.3.3 in
      (
        (
          new_release-RowOld keeps from,
          All-map (RowOld next) (RowOld (next + 1)) st.releases
              (λ r h. (let lt = h.0 in omega arith, λ q at. let lt = h.1 q at in omega arith))
              keeps.3.0,
        ),
        All-append D (gone ++ new) st.release_deltas
            (All-append D gone new (delta_rows-old Op.remove (except own plan.chosen))
              (delta_rows-old Op.add (except plan.chosen own)))
            (All-map (λ d. d.release_id < next) D st.release_deltas (λ d h. omega arith) keeps.3.1),
        elim (Bool-cases (new_release b plan st).checkpoint) [
          | inl c ↦ rw c (
              pin-All K (λ k. k == next) next (ring_members plan.ring (write_release b plan st))
                st.release_packages (λ p h. omega arith) pins)
          | inr c ↦ rw c pins
        ],
        elim (Bool-cases (exists (heads_ring plan.ring) st.ring_heads)) [
          | inl e ↦ rw e (
              update-All H (heads_ring plan.ring) (λ h. record h { release_id = next })
                st.ring_heads (λ h t k. omega arith) heads)
          | inr e ↦ rw e (omega arith, heads)
        ],
      )

  pub write_release-Keeps :
      Keeps history st
      → ParentServed history plan.ring plan.parent st
      → Keeps (planned history plan st) (write_release b plan st)
  unfolding write_release
  write_release-Keeps keeps from = (
    write_release-heads keeps,
    write_release-releases history b plan st keeps from,
    write_release-pins keeps,
    write_release-IsOld keeps from,
  )
