-- ===== src/Release/Line.antt =====
-- The releases of a ring in a line, and what the retention keeps of it
-- (worker/src/routes/gc.ts).
use omarchy_cli.Base.{
  All, Bool, Bool-cases, List, Option-cases, [], arith, false, first, if◌then◌else◌, inl, inr, leb,
  none, some, suc, true, zero, ℕ, ◌&&◌, ◌<◌, ◌∷◌, ◌≡◌, ◌≤◌, ap, subst, sym, ◌∙◌, not, take, ◌||◌,
  first-test, refl,
}
use omarchy_cli.Release.Members.{chain_from, is_release}
use omarchy_cli.Release.Retention.{Retention, id_in, last}
use omarchy_cli.Release.Rows.{Pool, Release}
use omarchy_cli.Release.Kept.{take-All}

-- A ring's releases, newest first: each one's parent is the next, found under its id, with a
-- smaller place in the sequence.
abbrev pub InLine : Pool → List Release → Type 0
InLine st [] = Unit
InLine st (r ∷ []) = r.parent_id ≡ none
InLine st (r ∷ s ∷ rest) =
    (r.parent_id ≡ some s.id)
    × (first (is_release s.id) st.releases ≡ some s)
    × (s.seq < r.seq)
    × InLine st (s ∷ rest)

-- The front of a line, up to its first checkpoint.
unfoldable pub upto : List Release → List Release
upto [] = []
upto (r ∷ rest) = if r.checkpoint then r ∷ [] else r ∷ upto rest

-- Everything behind a release is older.
older_behind :
    (st : Pool) (r : Release) (rest : List Release) (m : ℕ)
    → InLine st (r ∷ rest)
    → r.seq ≤ m
    → All (λ x. x.seq ≤ m) (r ∷ rest)
older_behind st r [] m h le = (le, tt)
older_behind st r (s ∷ rest) m (p, f, lt, h) le = (le, older_behind st s rest m h (omega arith))

pub upto_stop : (r : Release) (rest : List Release) → r.checkpoint ≡ true → upto (r ∷ rest) ≡ r ∷ []
unfolding upto
upto_stop r rest c = ground arith

pub upto_go :
    (r : Release) (rest : List Release) → r.checkpoint ≡ false → upto (r ∷ rest) ≡ r ∷ upto rest
unfolding upto
upto_go r rest c = ground arith

-- A chain is the front of its line.
pub chain_from-upto :
    (st : Pool) (n : ℕ) (r : Release) (rest chain : List Release)
    → InLine st (r ∷ rest)
    → chain_from n r st ≡ some chain
    → upto (r ∷ rest) ≡ chain
unfolding chain_from upto
chain_from-upto st zero r rest chain h e = ground arith
chain_from-upto st (suc n) r [] chain h e = ground arith
chain_from-upto st (suc n) r (s ∷ rest) chain (p, f, lt, h) e = elim (Bool-cases r.checkpoint) [
  | inl c ↦ ground arith
  | inr c ↦ elim (Option-cases (chain_from n s st)) [
    | inl g ↦ ground arith
    | inr (behind, g) ↦
        let tail = chain_from-upto st n s rest behind h g in
        let shape : r ∷ behind ≡ chain = ground arith in
        upto_go r (s ∷ rest) c ∙ ap (λ xs. r ∷ xs) tail ∙ shape
  ]
]

-- The front of a line ends at a kept checkpoint, and what is in front of it is newer than `seq`.
abbrev pub Ends : Retention → ℕ → List Release → Type 0
Ends kept seq [] = Unit
Ends kept seq (r ∷ []) = id_in r.id kept.kept_checkpoints ≡ true
Ends kept seq (r ∷ s ∷ rest) = (r.checkpoint ≡ false) × (seq < r.seq) × Ends kept seq (s ∷ rest)

abbrev pub is_base_of : ℕ → Release → Bool
is_base_of m r = r.checkpoint && leb r.seq m

Ends-one :
    (kept : Retention) (seq : ℕ) (r : Release) (rest : List Release)
    → r.checkpoint ≡ true
    → id_in r.id kept.kept_checkpoints ≡ true
    → Ends kept seq (upto (r ∷ rest))
Ends-one kept seq r rest c k = subst (Ends kept seq) (sym (upto_stop r rest c)) k

Ends-more :
    (kept : Retention) (seq : ℕ) (r s : Release) (rest : List Release)
    → r.checkpoint ≡ false
    → seq < r.seq
    → Ends kept seq (upto (s ∷ rest))
    → Ends kept seq (upto (r ∷ s ∷ rest))
Ends-more kept seq r s rest c lt h =
    subst (Ends kept seq) (sym (upto_go r (s ∷ rest) c)) (elim (Bool-cases s.checkpoint) [
      | inl d ↦
          let shape = upto_stop s rest d in
          subst (λ xs. Ends kept seq (r ∷ xs)) (sym shape) (c, lt, subst (Ends kept seq) shape h)
      | inr d ↦
          let shape = upto_go s rest d in
          subst (λ xs. Ends kept seq (r ∷ xs)) (sym shape) (c, lt, subst (Ends kept seq) shape h)
    ])

-- A mark at the front is the base.
base_here :
    (kept : Retention) (m : ℕ) (base r : Release) (rest : List Release)
    → r.checkpoint ≡ true
    → r.seq ≤ m
    → first (is_base_of m) (r ∷ rest) ≡ some base
    → r ≡ base
unfolding first
base_here kept m base r rest c le e = ground arith

base_behind :
    (m : ℕ) (base r : Release) (rest : List Release)
    → r.checkpoint ≡ false
    → first (is_base_of m) (r ∷ rest) ≡ some base
    → first (is_base_of m) rest ≡ some base
unfolding first
base_behind m base r rest c e = ground arith

upto-here :
    (kept : Retention) (m : ℕ) (base r : Release) (rest : List Release)
    → r.checkpoint ≡ true
    → r.seq ≤ m
    → first (is_base_of m) (r ∷ rest) ≡ some base
    → id_in base.id kept.kept_checkpoints ≡ true
    → Ends kept base.seq (upto (r ∷ rest)) × (base.seq ≤ r.seq)
upto-here kept m base r rest c le e k =
    let same = base_here kept m base r rest c le e in
    (
      Ends-one kept base.seq r rest c
          (subst (λ (x : Release). id_in x.id kept.kept_checkpoints ≡ true) (sym same) k),
      subst (λ (x : Release). x.seq ≤ r.seq) same (omega arith),
    )

-- Behind the protected releases the front of a line ends at the base.
upto-base :
    (kept : Retention) (st : Pool) (m : ℕ) (base r : Release) (rest : List Release)
    → InLine st (r ∷ rest)
    → r.seq ≤ m
    → first (is_base_of m) (r ∷ rest) ≡ some base
    → id_in base.id kept.kept_checkpoints ≡ true
    → Ends kept base.seq (upto (r ∷ rest)) × (base.seq ≤ r.seq)
unfolding first
upto-base kept st m base r [] h le e k = elim (Bool-cases r.checkpoint) [
  | inl c ↦ upto-here kept m base r [] c le e k
  | inr c ↦ let never = base_behind m base r [] c e in cc
]
upto-base kept st m base r (s ∷ rest) (p, f, lt, h) le e k = elim (Bool-cases r.checkpoint) [
  | inl c ↦ upto-here kept m base r (s ∷ rest) c le e k
  | inr c ↦
      let behind = base_behind m base r (s ∷ rest) c e in
      let (tail, lower) = upto-base kept st m base s rest h (omega arith) behind k in
      (Ends-more kept base.seq r s rest c (omega arith) tail, omega arith)
]

last_cons {ℓ} : {A : Type ℓ} → (x y : A) (xs : List A) → last (x ∷ y ∷ xs) ≡ last (y ∷ xs)
unfolding last
last_cons x y xs = elim (Option-cases (last xs)) [ inl e ↦ rw e refl | inr (z, e) ↦ rw e refl ]

last-All {ℓ κ} :
    {A : Type ℓ} → (P : A → Type κ) (xs : List A) (y : A) → All P xs → last xs ≡ some y → P y
unfolding last
last-All P [] y h e = cc
last-All P (x ∷ xs) y (p, h) e = elim (Option-cases (last xs)) [
  | inl f ↦ let it : x ≡ y = ground arith in subst P it p
  | inr (z, f) ↦ let it : z ≡ y = ground arith in subst P it (last-All P xs z h f)
]

-- The checkpoints among the protected releases are kept.
abbrev pub is_marked : Retention → Release → Bool
is_marked kept r = not r.checkpoint || id_in r.id kept.kept_checkpoints

-- The front of the line of each protected release, to a kept checkpoint.
protected-Ends :
    (kept : Retention) (st : Pool) (k : ℕ) (oldest base r : Release) (rest : List Release)
    → InLine st (r ∷ rest)
    → last (take (suc k) (r ∷ rest)) ≡ some oldest
    → All (λ x. is_marked kept x ≡ true) (take (suc k) (r ∷ rest))
    → first (is_base_of oldest.seq) (r ∷ rest) ≡ some base
    → id_in base.id kept.kept_checkpoints ≡ true
    → Ends kept base.seq (upto (r ∷ rest)) × (base.seq ≤ r.seq)
unfolding take last first
protected-Ends kept st zero oldest base r rest h l a e b =
    let it : r ≡ oldest = ground arith in
    upto-base kept st oldest.seq base r rest h
      (subst (λ (x : Release). r.seq ≤ x.seq) it (omega arith)) e b
protected-Ends kept st (suc k) oldest base r [] h l a e b =
    let it : r ≡ oldest = ground arith in
    upto-base kept st oldest.seq base r [] h
      (subst (λ (x : Release). r.seq ≤ x.seq) it (omega arith)) e b
protected-Ends kept st (suc k) oldest base r (s ∷ rest) (p, f, lt, h) l (m, a) e b =
    let all =
      take-All _ (suc (suc k)) (r ∷ s ∷ rest)
        (older_behind st r (s ∷ rest) r.seq (p, f, lt, h) (omega arith)) in
    let top = last-All _ (take (suc (suc k)) (r ∷ s ∷ rest)) oldest all l in
    let tested = first-test (is_base_of oldest.seq) (r ∷ s ∷ rest) base e in
    let low : base.seq ≤ oldest.seq = ground arith in
    elim (Bool-cases r.checkpoint) [
      | inl c ↦ (Ends-one kept base.seq r (s ∷ rest) c (ground arith), omega arith)
      | inr c ↦
          let next = sym (last_cons r s (take k rest)) ∙ l in
          let behind = base_behind oldest.seq base r (s ∷ rest) c e in
          let (tail, lower) = protected-Ends kept st k oldest base s rest h next a behind b in
          (Ends-more kept base.seq r s rest c (omega arith) tail, omega arith)
    ]

-- A release above the place is passed over.
first-skips :
    (m : ℕ) (base r : Release) (rest : List Release)
    → m < r.seq
    → first (is_base_of m) (r ∷ rest) ≡ some base
    → first (is_base_of m) rest ≡ some base
unfolding first
first-skips m base r rest lt e = ground arith

-- A protected release, with what stands behind it in its line.
abbrev pub Front : Retention → Pool → (Release → Type 0) → ℕ → Release → Type 0
Front kept st P seq r =
    (rest : List Release) × InLine st (r ∷ rest)
    × All P (r ∷ rest)
    × Ends kept seq (upto (r ∷ rest))

pub protected-Front :
    (kept : Retention) (st : Pool) (P : Release → Type 0) (k : ℕ) (oldest base : Release)
    (rs : List Release)
    → InLine st rs
    → All P rs
    → last (take k rs) ≡ some oldest
    → All (λ x. is_marked kept x ≡ true) (take k rs)
    → first (is_base_of oldest.seq) rs ≡ some base
    → id_in base.id kept.kept_checkpoints ≡ true
    → All (Front kept st P base.seq) (take k rs)
unfolding take
protected-Front kept st P zero oldest base rs h ps l a e b = tt
protected-Front kept st P (suc k) oldest base [] h ps l a e b = tt
protected-Front kept st P (suc zero) oldest base (r ∷ rest) h ps l a e b =
    let ends = (protected-Ends kept st zero oldest base r rest h l a e b).0 in
    ((rest, h, ps, ends), tt)
protected-Front kept st P (suc (suc k)) oldest base (r ∷ []) h ps l a e b =
    let ends = (protected-Ends kept st (suc k) oldest base r [] h l a e b).0 in
    (([], h, ps, ends), tt)
protected-Front kept st P (suc (suc k)) oldest base (r ∷ s ∷ rest) (p, f, lt, h) (q, ps) l (m, a) e
      b =
    let whole : InLine st (r ∷ s ∷ rest) = (p, f, lt, h) in
    let ends = (protected-Ends kept st (suc k) oldest base r (s ∷ rest) whole l (m, a) e b).0 in
    let next = sym (last_cons r s (take k rest)) ∙ l in
    let lower =
      last-All _ (take (suc k) (s ∷ rest)) oldest
        (take-All _ (suc k) (s ∷ rest) (older_behind st s rest s.seq h (omega arith))) next in
    let behind : first (is_base_of oldest.seq) (s ∷ rest) ≡ some base =
      first-skips oldest.seq base r (s ∷ rest) (omega arith) e in
    (
      (s ∷ rest, whole, (q, ps), ends),
      protected-Front kept st P (suc k) oldest base (s ∷ rest) h ps next a behind b,
    )
