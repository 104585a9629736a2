-- ===== src/Base/Table.antt =====
-- A database table as the list of its rows, newest first, and the SQL statements on it:
-- SELECT, UPDATE and DELETE with a WHERE test, and the lemmas on them.
use Prim.Native.Nat.{ℕ, suc, zero}
use mathlib.Core.Path.{◌≡◌, refl, ap}
use mathlib.Core.Bool.{Bool, true, false}
use mathlib.Core.Logic.{inl, inr}
use mathlib.Core.Option.{Option, none, some}
use mathlib.Core.List.{List, [], ◌∷◌, ◌++◌}
use native.Mathlib.Omega.{arith}
use omarchy_cli.Base.Tests.{if◌then◌else◌, Bool-cases}

module _ {ℓ} {A : Type ℓ} where
  -- SELECT * WHERE test
  unfoldable pub select : (A → Bool) → List A → List A
  select test [] = []
  select test (x ∷ xs) = let rest = select test xs in if test x then x ∷ rest else rest

  -- SELECT * WHERE test LIMIT 1
  unfoldable pub first : (A → Bool) → List A → Option A
  first test [] = none
  first test (x ∷ xs) = let rest = first test xs in if test x then some x else rest

  -- UPDATE SET change WHERE test
  unfoldable pub update : (A → Bool) → (A → A) → List A → List A
  update test change [] = []
  update test change (x ∷ xs) = (if test x then change x else x) ∷ update test change xs

  -- DELETE WHERE test
  unfoldable pub delete : (A → Bool) → List A → List A
  delete test [] = []
  delete test (x ∷ xs) = let rest = delete test xs in if test x then rest else x ∷ rest

  -- LIMIT n
  unfoldable pub take : ℕ → List A → List A
  take zero xs = []
  take (suc n) [] = []
  take (suc n) (x ∷ xs) = x ∷ take n xs

  -- EXISTS (SELECT 1 WHERE test)
  unfoldable pub exists : (A → Bool) → List A → Bool
  exists test [] = false
  exists test (x ∷ xs) = let rest = exists test xs in if test x then true else rest

  abbrev pub length : List A → ℕ
  length [] = 0
  length (x ∷ xs) = suc (length xs)

  abbrev pub All {κ} : (A → Type κ) → List A → Type κ
  All P [] = Unit
  All P (x ∷ xs) = P x × All P xs

module _ {ℓ κ} {A : Type ℓ} (P : A → Type κ) where
  -- Every row keeps a predicate that the change keeps on the rows that it changes.
  pub update-All :
      (test : A → Bool) (change : A → A) (xs : List A)
      → ((x : A) → test x ≡ true → P x → P (change x))
      → All P xs
      → All P (update test change xs)
  unfolding update
  update-All test change [] keep h = tt
  update-All test change (x ∷ xs) keep h = (go (test x) refl, update-All test change xs keep h.1)
    where
      go : (b : Bool) → test x ≡ b → P (if b then change x else x)
      go true e = keep x e h.0
      go false e = h.0

  pub first-All : (test : A → Bool) (xs : List A) (x : A) → All P xs → first test xs ≡ some x → P x
  unfolding first
  first-All test [] x h e = cc
  first-All test (y ∷ ys) x h e = elim (Bool-cases (test y)) [
    | inl t ↦ let same : y ≡ x = ground arith in rw (← same) h.0
    | inr f ↦ first-All test ys x h.1 (ground arith)
  ]

module _ {ℓ} {A : Type ℓ} where
  pub first-test : (test : A → Bool) (xs : List A) (x : A) → first test xs ≡ some x → test x ≡ true
  unfolding first
  first-test test [] x e = cc
  first-test test (y ∷ ys) x e = ground (arith, first-test test ys x)

  pub length-update :
      (test : A → Bool) (change : A → A) (xs : List A) → length (update test change xs) ≡ length xs
  unfolding update
  length-update test change [] = refl
  length-update test change (x ∷ xs) = ap suc (length-update test change xs)

  pub select_hit :
      (test : A → Bool) (x : A) (xs : List A)
      → test x ≡ true
      → select test (x ∷ xs) ≡ x ∷ select test xs
  unfolding select
  select_hit test x xs e = ground arith

  pub select_miss :
      (test : A → Bool) (x : A) (xs : List A)
      → test x ≡ false
      → select test (x ∷ xs) ≡ select test xs
  unfolding select
  select_miss test x xs e = ground arith

module _ {ℓ κ} {A : Type ℓ} (P : A → Type κ) where
  pub All-append : (xs ys : List A) → All P xs → All P ys → All P (xs ++ ys)
  All-append [] ys p q = q
  All-append (x ∷ xs) ys p q = (p.0, All-append xs ys p.1 q)

module _ {ℓ κ μ} {A : Type ℓ} (P : A → Type κ) (Q : A → Type μ) where
  pub All-map : (xs : List A) → ((x : A) → P x → Q x) → All P xs → All Q xs
  All-map [] f h = tt
  All-map (x ∷ xs) f h = (f x h.0, All-map xs f h.1)

  -- An UPDATE gives every row P, whichever way its test goes.
  pub update-All_cases :
      (test : A → Bool) (change : A → A) (xs : List A)
      → ((x : A) → test x ≡ true → P x → Q (change x))
      → ((x : A) → test x ≡ false → P x → Q x)
      → All P xs
      → All Q (update test change xs)
  unfolding update
  update-All_cases test change [] hit miss h = tt
  update-All_cases test change (x ∷ xs) hit miss h =
      (go (test x) refl, update-All_cases test change xs hit miss h.1)
    where
      go : (b : Bool) → test x ≡ b → Q (if b then change x else x)
      go true e = hit x e h.0
      go false e = miss x e h.0

  pub All-both : (xs : List A) → All P xs → All Q xs → All (λ x. P x × Q x) xs
  All-both [] p q = tt
  All-both (x ∷ xs) p q = ((p.0, q.0), All-both xs p.1 q.1)

module _ {ℓ} {A : Type ℓ} where
  pub update_miss :
      (test : A → Bool) (change : A → A) (xs : List A)
      → exists test xs ≡ false
      → update test change xs ≡ xs
  unfolding update exists
  update_miss test change [] e = refl
  update_miss test change (x ∷ xs) e = ground (arith, update_miss test change xs)

  pub select-append :
      (test : A → Bool) (xs ys : List A) → select test (xs ++ ys) ≡ select test xs ++ select test ys
  unfolding select
  select-append test [] ys = refl
  select-append test (x ∷ xs) ys = ground (arith, select-append test xs ys)
