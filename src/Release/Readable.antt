-- ===== src/Release/Readable.antt =====
-- The retention keeps its promise: every protected release is read as before
-- (worker/src/routes/gc.ts with worker/src/db.ts).
use omarchy_cli.Base.{
  All, Bool, Bool-cases, List, [], arith, exists, false, first, inl, inr, leb, not, refl, some,
  subst, sym, true, ℕ, ◌&&◌, ◌<◌, ◌==◌, ◌∷◌, ◌≡◌,
}
use omarchy_cli.Release.Line.{Ends, upto, upto_go, upto_stop}
use omarchy_cli.Release.Members.{is_release}
use omarchy_cli.Release.Prune.{Intact, drops, loses_mark}
use omarchy_cli.Release.Retention.{Retention}
use omarchy_cli.Release.Rows.{Pool, Release, Ring, ring_eq}
use omarchy_cli.Release.Delta.{ring_eq-eq}

-- Every release is found under its id, the primary key.
abbrev pub Keyed : List Release → Type 0
Keyed rs = All (λ c. first (is_release c.id) rs ≡ some c) rs

pub upto-All {κ} : (P : Release → Type κ) (rs : List Release) → All P rs → All P (upto rs)
unfolding upto
upto-All P [] h = tt
upto-All P (r ∷ rs) (p, h) = elim (Bool-cases r.checkpoint) [
  | inl c ↦ subst (All P) (sym (upto_stop r rs c)) (p, tt)
  | inr c ↦ subst (All P) (sym (upto_go r rs c)) (p, upto-All P rs h)
]

pub Ends-stays :
    (kept : Retention) (seq : ℕ) (chain : List Release)
    → Ends kept seq chain
    → All (λ c. loses_mark kept c ≡ false) chain
Ends-stays kept seq [] h = tt
Ends-stays kept seq (r ∷ []) h = (ground arith, tt)
Ends-stays kept seq (r ∷ s ∷ rest) (c, lt, h) = (ground arith, Ends-stays kept seq (s ∷ rest) h)

-- The cuts of a ring are at the base.
abbrev pub AtBase : Ring → ℕ → Ring × ℕ → Type 0
AtBase ring seq cut = (ring_eq cut.0 ring && not (cut.1 == seq)) ≡ false

exists-none {ℓ} :
    {A : Type ℓ}
    → (test : A → Bool) (xs : List A) → All (λ x. test x ≡ false) xs
    → exists test xs ≡ false
unfolding exists
exists-none test [] h = refl
exists-none test (x ∷ xs) (e, h) = rw e (exists-none test xs h)

pub map-All {ℓ κ μ} :
    {A : Type ℓ}
    → (P : A → Type κ) (Q : A → Type μ) (xs : List A) → ((x : A) → P x → Q x)
    → All P xs
    → All Q xs
map-All P Q [] f h = tt
map-All P Q (x ∷ xs) f (p, h) = (f x p, map-All P Q xs f h)

drops-none :
    (st : Pool) (ring : Ring) (seq : ℕ) (c : Release) (cut : Ring × ℕ)
    → Keyed st.releases
    → first (is_release c.id) st.releases ≡ some c
    → ring_eq ring c.ring ≡ true
    → seq < c.seq
    → AtBase ring seq cut
    → drops st c.id cut ≡ false
drops-none st ring seq c (at, place) keyed found here lt base = exists-none _ st.releases (
    map-All _ _ st.releases
      (λ x own. elim (Bool-cases (x.id == c.id)) [
        | inr e ↦ rw e refl
        | inl e ↦
            let same : x.id ≡ c.id = ground arith in
            let again = subst (λ i. first (is_release i) st.releases ≡ some x) same own in
            let it : x ≡ c = ground arith in
            subst (λ y. (y.id == c.id && ring_eq at y.ring && leb y.seq place) ≡ false) (sym it)
              (at_base c.ring here)
      ])
      keyed)
  where
    at_base :
        (other : Ring)
        → ring_eq ring other ≡ true
        → (c.id == c.id && ring_eq at other && leb c.seq place) ≡ false
    at_base other e = elim (Bool-cases (ring_eq at other)) [
      | inr f ↦ rw f (ground arith)
      | inl f ↦
          let same : ring ≡ other = ring_eq-eq ring other e in
          let mine : ring_eq at ring ≡ true = subst (λ x. ring_eq at x ≡ true) (sym same) f in
          ground arith
    ]

pub Ends-Intact :
    (kept : Retention) (st : Pool) (ring : Ring) (seq : ℕ) (chain : List Release)
    → Keyed st.releases
    → All (AtBase ring seq) kept.checkpoint_seq
    → All (λ c. (first (is_release c.id) st.releases ≡ some c) × (ring_eq ring c.ring ≡ true)) chain
    → Ends kept seq chain
    → Intact kept st chain
Ends-Intact kept st ring seq [] keyed cuts here h = tt
Ends-Intact kept st ring seq (r ∷ []) keyed cuts here h = h
Ends-Intact kept st ring seq (r ∷ s ∷ rest) keyed cuts ((f, o), here) (c, lt, h) = (
  map-All (AtBase ring seq) (λ cut. drops st r.id cut ≡ false) kept.checkpoint_seq
      (λ cut base. drops-none st ring seq r cut keyed f o lt base) cuts,
  Ends-Intact kept st ring seq (s ∷ rest) keyed cuts here h,
)
