-- ===== src/Release/Cuts.antt =====
-- What `retention` keeps of a ring (worker/src/routes/gc.ts): its checkpoints and its cut.
use omarchy_cli.Base.{
  All, Bool, Bool-cases, List, Option-cases, [], ap, arith, exists, first, inl, inr, map, not, refl,
  select, some, subst, sym, take, true, ℕ, ◌&&◌, ◌++◌, ◌==◌, ◌||◌, ◌∷◌, ◌≡◌, false,
}
use omarchy_cli.Release.Delta.{ring_eq-eq}
use omarchy_cli.Release.Kept.{append-All}
use omarchy_cli.Release.Readable.{AtBase}
use omarchy_cli.Release.Retention.{Retention, id_in, is_base, keep_ring, keep_rings, last}
use omarchy_cli.Release.Rows.{Pool, Release, Ring, ring_eq}

-- One ring of `retention`: what was kept stays kept.
pub id_in_append : (id : ℕ) (xs ys : List ℕ) → id_in id xs ≡ true → id_in id (xs ++ ys) ≡ true
unfolding exists
id_in_append id [] ys e = cc
id_in_append id (x ∷ xs) ys e = elim (Bool-cases (x == id)) [
  | inl h ↦ rw h refl
  | inr h ↦ rw h (id_in_append id xs ys (ground arith))
]

id_in_last : (id : ℕ) (xs : List ℕ) → id_in id (xs ++ (id ∷ [])) ≡ true
unfolding exists
id_in_last id [] = ground arith
id_in_last id (x ∷ xs) = elim (Bool-cases (x == id)) [
  | inl h ↦ rw h refl
  | inr h ↦ rw h (id_in_last id xs)
]

abbrev pub rows_of : ℕ → Pool → Ring → List Release
rows_of keep st ring = take keep (select (λ r. ring_eq ring r.ring) st.releases)

abbrev pub marks_of : ℕ → Pool → Ring → List ℕ
marks_of keep st ring = map (λ r. r.id) (select (λ r. r.checkpoint) (rows_of keep st ring))

pub keep_ring-grows :
    (keep : ℕ) (st : Pool) (kept : Retention) (ring : Ring) (id : ℕ)
    → id_in id (kept.kept_checkpoints ++ marks_of keep st ring) ≡ true
    → id_in id (keep_ring keep st kept ring).kept_checkpoints ≡ true
unfolding keep_ring
keep_ring-grows keep st kept ring id h = elim (Option-cases (last (rows_of keep st ring))) [
  | inl e ↦ rw (e, keep_ring) h
  | inr (oldest, e) ↦ elim (Option-cases (first (is_base ring oldest.seq) st.releases)) [
    | inl f ↦ rw (e, f, keep_ring) h
    | inr (base, f) ↦
        let marked = kept.kept_checkpoints ++ marks_of keep st ring in
        elim (Bool-cases (id_in base.id marked)) [
          | inl g ↦ rw (e, f, g, keep_ring) h
          | inr g ↦ rw (e, f, g, keep_ring) (id_in_append id marked (base.id ∷ []) h)
        ]
  ]
]

pub keep_ring-base :
    (keep : ℕ) (st : Pool) (kept : Retention) (ring : Ring) (oldest base : Release)
    → last (rows_of keep st ring) ≡ some oldest
    → first (is_base ring oldest.seq) st.releases ≡ some base
    → id_in base.id (keep_ring keep st kept ring).kept_checkpoints ≡ true
unfolding keep_ring
keep_ring-base keep st kept ring oldest base e f =
    let marked = kept.kept_checkpoints ++ marks_of keep st ring in
    elim (Bool-cases (id_in base.id marked)) [
      | inl g ↦ rw (e, f, g, keep_ring) g
      | inr g ↦ rw (e, f, g, keep_ring) (id_in_last base.id marked)
    ]

-- A ring adds a cut of its own, at its base.
keep_ring-cuts :
    (P : Ring × ℕ → Type 0) (keep : ℕ) (st : Pool) (kept : Retention) (ring : Ring)
    → ((oldest base : Release)
        → last (rows_of keep st ring) ≡ some oldest
        → first (is_base ring oldest.seq) st.releases ≡ some base
        → P (ring, base.seq))
    → All P kept.checkpoint_seq
    → All P (keep_ring keep st kept ring).checkpoint_seq
unfolding keep_ring
keep_ring-cuts P keep st kept ring own h = elim (Option-cases (last (rows_of keep st ring))) [
  | inl e ↦ rw (e, keep_ring) h
  | inr (oldest, e) ↦ elim (Option-cases (first (is_base ring oldest.seq) st.releases)) [
    | inl f ↦ rw (e, f, keep_ring) h
    | inr (base, f) ↦
        rw (e, f, keep_ring)
          (append-All P kept.checkpoint_seq ((ring, base.seq) ∷ []) h (own oldest base e f, tt))
  ]
]

keep_rings-grows :
    (keep : ℕ) (st : Pool) (rings : List Ring) (kept : Retention) (id : ℕ)
    → id_in id kept.kept_checkpoints ≡ true
    → id_in id (keep_rings keep st kept rings).kept_checkpoints ≡ true
unfolding keep_rings
keep_rings-grows keep st [] kept id h = h
keep_rings-grows keep st (ring ∷ more) kept id h =
    keep_rings-grows keep st more (keep_ring keep st kept ring) id (
      keep_ring-grows keep st kept ring id
        (id_in_append id kept.kept_checkpoints (marks_of keep st ring) h))

-- What a ring of the list keeps is kept at the end.
pub keep_rings-own :
    (keep : ℕ) (st : Pool) (ring : Ring) (id : ℕ) (rings : List Ring) (kept : Retention)
    → ((k : Retention) → id_in id (keep_ring keep st k ring).kept_checkpoints ≡ true)
    → exists (ring_eq ring) rings ≡ true
    → id_in id (keep_rings keep st kept rings).kept_checkpoints ≡ true
unfolding keep_rings exists
keep_rings-own keep st ring id [] kept own e = cc
keep_rings-own keep st ring id (other ∷ more) kept own e = elim (Bool-cases (ring_eq ring other)) [
  | inl h ↦
      let same : ring ≡ other = ring_eq-eq ring other h in
      keep_rings-grows keep st more (keep_ring keep st kept other) id
        (subst (λ x. id_in id (keep_ring keep st kept x).kept_checkpoints ≡ true) same (own kept))
  | inr h ↦ keep_rings-own keep st ring id more (keep_ring keep st kept other) own (ground arith)
]

pub keep_rings-cuts :
    (keep : ℕ) (st : Pool) (ring : Ring) (oldest base : Release) (rings : List Ring)
    (kept : Retention)
    → last (rows_of keep st ring) ≡ some oldest
    → first (is_base ring oldest.seq) st.releases ≡ some base
    → All (AtBase ring base.seq) kept.checkpoint_seq
    → All (AtBase ring base.seq) (keep_rings keep st kept rings).checkpoint_seq
unfolding keep_rings
keep_rings-cuts keep st ring oldest base [] kept e f h = h
keep_rings-cuts keep st ring oldest base (other ∷ more) kept e f h =
    keep_rings-cuts keep st ring oldest base more (keep_ring keep st kept other) e f (
      keep_ring-cuts (AtBase ring base.seq) keep st kept other
        (λ oldest' base' e' f'. elim (Bool-cases (ring_eq other ring)) [
          | inr g ↦ rw g refl
          | inl g ↦
              let same : other ≡ ring = ring_eq-eq other ring g in
              let rows = subst (λ x. last (rows_of keep st x) ≡ some oldest') same e' in
              let old : oldest ≡ oldest' = ground arith in
              let at : first (is_base ring oldest'.seq) st.releases ≡ some base' =
                subst (λ x. first (is_base x oldest'.seq) st.releases ≡ some base') same f' in
              let at' =
                subst (λ (o : Release). first (is_base ring o.seq) st.releases ≡ some base) old f in
              let one : base ≡ base' = ground arith in
              let place : base'.seq ≡ base.seq = ap (λ (x : Release). x.seq) (sym one) in
              rw (g, place) (ground arith)
        ])
        h)

abbrev marks : List Release → List ℕ
marks rows = map (λ r. r.id) (select (λ r. r.checkpoint) rows)

marks_yes :
    (r : Release) (rows : List Release) → r.checkpoint ≡ true → marks (r ∷ rows) ≡ r.id ∷ marks rows
unfolding select
marks_yes r rows c = rw c refl

marks_no :
    (r : Release) (rows : List Release) → r.checkpoint ≡ false → marks (r ∷ rows) ≡ marks rows
unfolding select
marks_no r rows c = rw c refl

id_in_cons : (id x : ℕ) (xs : List ℕ) → id_in id xs ≡ true → id_in id (x ∷ xs) ≡ true
unfolding exists
id_in_cons id x xs h = ground arith

-- The checkpoints among rows are among their marks.
pub marked_rows :
    (ids : List ℕ) (rows : List Release)
    → ((id : ℕ)
        → id_in id (map (λ r. r.id) (select (λ r. r.checkpoint) rows)) ≡ true
        → id_in id ids ≡ true)
    → All (λ x. (not x.checkpoint || id_in x.id ids) ≡ true) rows
unfolding select exists
marked_rows ids [] sub = tt
marked_rows ids (r ∷ rows) sub = elim (Bool-cases r.checkpoint) [
  | inr c ↦
      let less = marks_no r rows c in
      (
        ground arith,
        marked_rows ids rows (λ id h. sub id (subst (λ xs. id_in id xs ≡ true) (sym less) h)),
      )
  | inl c ↦
      let more = marks_yes r rows c in
      let mine : id_in r.id ids ≡ true =
        sub r.id (subst (λ xs. id_in r.id xs ≡ true) (sym more) (ground arith)) in
      (
        ground arith,
        marked_rows ids rows
            (λ id h. sub id (subst (λ xs. id_in id xs ≡ true) (sym more) (id_in_cons id r.id _ h))),
      )
]

pub first-select {ℓ} :
    {A : Type ℓ}
    → (p q : A → Bool) (xs : List A) → first (λ x. p x && q x) xs ≡ first q (select p xs)
unfolding first select
first-select p q [] = refl
first-select p q (x ∷ xs) =
    let rest = first-select p q xs in
    elim (Bool-cases (p x)) [
      | inl e ↦ elim (Bool-cases (q x)) [ inl f ↦ rw (e, f) refl | inr f ↦ rw (e, f) rest ]
      | inr e ↦ rw e rest
    ]

-- Tests that agree find the same.
pub first-same {ℓ} :
    {A : Type ℓ} → (p q : A → Bool) (xs : List A) → ((x : A) → p x ≡ q x) → first p xs ≡ first q xs
unfolding first
first-same p q [] h = refl
first-same p q (x ∷ xs) h = let rest = first-same p q xs h in rw (h x, rest) refl
