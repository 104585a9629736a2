-- ===== src/Release/Delta.antt =====
-- The delta of a release takes what the ring served to what the release selects, and the ring's
-- live rows move the same way (handleCreateRelease of worker/src/routes/releases.ts).
use omarchy_cli.Base.{
  All, ◌<◌, delete, select, Bool, Bool-cases, List, [], arith, false, inl, inr, not, refl, subst,
  sym, true, ℕ, ◌&&◌, ◌++◌, ◌==◌, ◌||◌, ◌∙◌, ◌∷◌, ◌≡◌, select-append,
}
use mathlib.Core.List.{append-nil}
use omarchy_cli.Release.Selection.{
  holds-except, holds-pin, holds-unpin, Pin, except, holds, pinned, pinned-pin, pinned-unpin, unpin,
}
use omarchy_cli.Release.Members.{apply_delta, apply_deltas}
use omarchy_cli.Release.Rows.{Delta, Op, Ring, ring_eq}
use omarchy_cli.Release.Write.{delta_rows, moved_pins}

pub ring_eq-eq : (a b : Ring) → ring_eq a b ≡ true → a ≡ b
ring_eq-eq a b h = ground arith

pub ring_eq_refl : (a : Ring) → ring_eq a a ≡ true
ring_eq_refl Ring.edge = refl
ring_eq_refl Ring.rc = refl
ring_eq_refl Ring.stable = refl

ring_eq_apart : (a b c : Ring) → ring_eq a b ≡ false → ring_eq a c ≡ true → ring_eq b c ≡ false
ring_eq_apart a b c h e = elim (Bool-cases (ring_eq b c)) [
  | inl f ↦
      let ac = ring_eq-eq a c e in
      let bc = ring_eq-eq b c f in
      let same : ring_eq a a ≡ false = subst (λ x. ring_eq a x ≡ false) (bc ∙ sym ac) h in
      ground (arith, ring_eq_refl a)
  | inr f ↦ f
]

-- The ring's live rows are the target.
pub moved_pins-chosen :
    (ring : Ring) (chosen : List ℕ) (rows : List (Pin Ring)) (p : ℕ)
    → let own = pinned (ring_eq ring) rows in
      holds p (pinned (ring_eq ring) (moved_pins ring (except chosen own) (except own chosen) rows))
      ≡ holds p chosen
unfolding moved_pins
moved_pins-chosen ring chosen rows p =
    let own = pinned (ring_eq ring) rows in
    let gone = except own chosen in
    let dropped = unpin (ring_eq ring) gone rows in
    let a = holds-pin p (ring_eq ring) ring (except chosen own) dropped (ring_eq_refl ring) in
    let b = holds-unpin p (ring_eq ring) gone rows in
    let c = holds-except p chosen own in
    let d = holds-except p own chosen in a ∙ ground (arith, b, c, d)

-- Another ring's rows stay.
pub moved_pins-other :
    (other ring : Ring) (new gone : List ℕ) (rows : List (Pin Ring))
    → ring_eq other ring ≡ false
    → pinned (ring_eq other) (moved_pins ring new gone rows) ≡ pinned (ring_eq other) rows
unfolding moved_pins
moved_pins-other other ring new gone rows h =
    pinned-pin (ring_eq other) (ring_eq ring) ring new (unpin (ring_eq ring) gone rows) h
    ∙ pinned-unpin (ring_eq other) (ring_eq ring) gone rows (λ k. ring_eq_apart other ring k h)

pub holds-delete :
    (p q : ℕ) (ids : List ℕ) → holds p (delete (λ x. x == q) ids) ≡ (holds p ids && not (p == q))
unfolding holds delete
holds-delete p q [] = refl
holds-delete p q (x ∷ ids) = grind (arith, holds-delete p q ids)

apply_adds :
    (id p : ℕ) (ps : List ℕ) (ids : List ℕ)
    → holds p (apply_deltas (delta_rows id Op.add ps) ids) ≡ (holds p ps || holds p ids)
unfolding apply_deltas apply_delta delta_rows holds
apply_adds id p [] ids = refl
apply_adds id p (x ∷ ps) ids = ground (arith, apply_adds id p ps ids)

apply_removes :
    (id p : ℕ) (ps : List ℕ) (ds : List Delta) (ids : List ℕ)
    → holds p (apply_deltas (delta_rows id Op.remove ps ++ ds) ids)
      ≡ (holds p (apply_deltas ds ids) && not (holds p ps))
unfolding apply_deltas apply_delta delta_rows holds
apply_removes id p [] ds ids = ground arith
apply_removes id p (x ∷ ps) ds ids =
    let a = holds-delete p x (apply_deltas (delta_rows id Op.remove ps ++ ds) ids) in
    ground (arith, apply_removes id p ps ds ids, a)

-- The delta takes the ring's selection to the target.
pub apply_deltas-chosen :
    (id p : ℕ) (chosen own ids : List ℕ)
    → holds p ids ≡ holds p own
    → holds p (
        apply_deltas
          (delta_rows id Op.remove (except own chosen) ++ delta_rows id Op.add (except chosen own))
          ids)
      ≡ holds p chosen
apply_deltas-chosen id p chosen own ids h =
    let a = apply_removes id p (except own chosen) (delta_rows id Op.add (except chosen own)) ids in
    let b = apply_adds id p (except chosen own) ids in
    let c = holds-except p chosen own in
    let d = holds-except p own chosen in a ∙ ground (arith, b, c, d, h)

abbrev pub of_release : ℕ → Delta → Bool
of_release id d = d.release_id == id

pub select-delta_rows :
    (id : ℕ) (op : Op) (ps : List ℕ)
    → select (of_release id) (delta_rows id op ps) ≡ delta_rows id op ps
unfolding select delta_rows
select-delta_rows id op [] = refl
select-delta_rows id op (p ∷ ps) = ground (arith, select-delta_rows id op ps)

pub select-delta_rows_other :
    (id other : ℕ) (op : Op) (ps : List ℕ)
    → (id == other) ≡ false
    → select (of_release other) (delta_rows id op ps) ≡ []
unfolding select delta_rows
select-delta_rows_other id other op [] h = refl
select-delta_rows_other id other op (p ∷ ps) h =
    ground (arith, select-delta_rows_other id other op ps h)

pub select-fresh :
    (next : ℕ) (ds : List Delta)
    → All (λ d. d.release_id < next) ds
    → select (of_release next) ds ≡ []
unfolding select
select-fresh next [] all = refl
select-fresh next (d ∷ ds) all = ground (arith, all.0, select-fresh next ds all.1)

-- Of the table with a new release's rows in front, an older release sees what it saw, and the new
-- one its own rows.
pub select-deltas_old :
    (id i : ℕ) (gone new : List ℕ) (ds : List Delta)
    → (id == i) ≡ false
    → select (of_release i) (delta_rows id Op.remove gone ++ delta_rows id Op.add new ++ ds)
      ≡ select (of_release i) ds
select-deltas_old id i gone new ds h =
    rw
      (
        select-append (of_release i) (delta_rows id Op.remove gone ++ delta_rows id Op.add new) ds,
        select-append (of_release i) (delta_rows id Op.remove gone) (delta_rows id Op.add new),
        select-delta_rows_other id i Op.remove gone h,
        select-delta_rows_other id i Op.add new h,
      )
      refl

pub select-deltas_new :
    (id : ℕ) (gone new : List ℕ) (ds : List Delta)
    → All (λ d. d.release_id < id) ds
    → select (of_release id) (delta_rows id Op.remove gone ++ delta_rows id Op.add new ++ ds)
      ≡ delta_rows id Op.remove gone ++ delta_rows id Op.add new
select-deltas_new id gone new ds all =
    rw
      (
        select-append (of_release id) (delta_rows id Op.remove gone ++ delta_rows id Op.add new) ds,
        select-append (of_release id) (delta_rows id Op.remove gone) (delta_rows id Op.add new),
        select-delta_rows id Op.remove gone,
        select-delta_rows id Op.add new,
        select-fresh id ds all,
        append-nil (delta_rows id Op.remove gone ++ delta_rows id Op.add new),
      )
      refl
