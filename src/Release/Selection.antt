-- ===== src/Release/Selection.antt =====
-- A selection of packages: the ids that the rows of a key pin, as ring_packages does for a ring
-- and release_packages for a release, and the statements on such a table.
use omarchy_cli.Base.{
  Bool, List, [], ◌∷◌, ◌++◌, ◌==◌, ◌&&◌, ◌||◌, ◌≡◌, true, false, not, if◌then◌else◌, delete, select,
  ℕ, arith, refl, ◌∙◌,
}

-- A row: this key pins this package.
pub record Pin (K : Type 0) : Type 0 where
  pub key : K
  pub package_id : ℕ

-- The id is in the list.
unfoldable pub holds : ℕ → List ℕ → Bool
holds p [] = false
holds p (q ∷ qs) = p == q || holds p qs

-- DISTINCT
unfoldable pub distinct : List ℕ → List ℕ
unfolding holds
distinct [] = []
distinct (p ∷ ps) = let rest = distinct ps in if holds p rest then rest else p ∷ rest

-- EXCEPT and UNION, which give no row twice.
unfoldable pub except : List ℕ → List ℕ → List ℕ
unfolding holds distinct select
except ps qs = distinct (select (λ p. not (holds p qs)) ps)

unfoldable pub union : List ℕ → List ℕ → List ℕ
unfolding distinct
union ps qs = distinct (ps ++ qs)

module _ {K : Type 0} where
  -- SELECT package_id WHERE test key
  unfoldable pub pinned : (K → Bool) → List (Pin K) → List ℕ
  pinned test [] = []
  pinned test (r ∷ rs) =
      let rest = pinned test rs in if test r.key then r.package_id ∷ rest else rest

  -- DELETE WHERE test key AND package_id IN ids
  unfoldable pub unpin : (K → Bool) → List ℕ → List (Pin K) → List (Pin K)
  unfolding holds delete
  unpin test ids rows = delete (λ r. test r.key && holds r.package_id ids) rows

  abbrev pub new_pin : K → ℕ → Pin K
  new_pin key id = record { key = key; package_id = id }

  -- INSERT OR IGNORE of the ids under a key, which `test` tells.
  unfoldable pub pin : (K → Bool) → K → List ℕ → List (Pin K) → List (Pin K)
  unfolding holds pinned
  pin test key [] rows = rows
  pin test key (id ∷ ids) rows =
      let rest = pin test key ids rows in
      if holds id (pinned test rest) then rest else new_pin key id ∷ rest

pub holds-append : (p : ℕ) (ps qs : List ℕ) → holds p (ps ++ qs) ≡ (holds p ps || holds p qs)
unfolding holds
holds-append p [] qs = refl
holds-append p (x ∷ ps) qs = ground (arith, holds-append p ps qs)

holds-distinct : (p : ℕ) (ps : List ℕ) → holds p (distinct ps) ≡ holds p ps
unfolding holds distinct
holds-distinct p [] = refl
holds-distinct p (x ∷ ps) = grind (arith, holds-distinct p ps, holds-distinct x ps)

pub holds-union : (p : ℕ) (ps qs : List ℕ) → holds p (union ps qs) ≡ (holds p ps || holds p qs)
unfolding union
holds-union p ps qs = holds-distinct p (ps ++ qs) ∙ holds-append p ps qs

-- Selecting by a test of the id keeps the ids that pass it.
pub holds-select :
    (p : ℕ) (test : ℕ → Bool) (ps : List ℕ) → holds p (select test ps) ≡ (holds p ps && test p)
unfolding holds select
holds-select p test [] = refl
holds-select p test (x ∷ ps) = grind (arith, holds-select p test ps)

pub holds-except :
    (p : ℕ) (ps qs : List ℕ) → holds p (except ps qs) ≡ (holds p ps && not (holds p qs))
unfolding except
holds-except p ps qs =
    holds-distinct p (select (λ x. not (holds x qs)) ps) ∙ holds-select p (λ x. not (holds x qs)) ps

module _ {K : Type 0} where
  pub holds-unpin :
      (p : ℕ) (test : K → Bool) (ids : List ℕ) (rows : List (Pin K))
      → holds p (pinned test (unpin test ids rows))
        ≡ (holds p (pinned test rows) && not (holds p ids))
  unfolding holds pinned unpin delete
  holds-unpin p test ids [] = refl
  holds-unpin p test ids (r ∷ rows) = grind (arith, holds-unpin p test ids rows)

  pub holds-pin :
      (p : ℕ) (test : K → Bool) (key : K) (ids : List ℕ) (rows : List (Pin K))
      → test key ≡ true
      → holds p (pinned test (pin test key ids rows)) ≡ (holds p ids || holds p (pinned test rows))
  unfolding holds pinned pin
  holds-pin p test key [] rows h = refl
  holds-pin p test key (id ∷ ids) rows h = grind (arith, holds-pin p test key ids rows h)

  -- The rows of another key stay.
  pub pinned-unpin :
      (other test : K → Bool) (ids : List ℕ) (rows : List (Pin K))
      → ((k : K) → other k ≡ true → test k ≡ false)
      → pinned other (unpin test ids rows) ≡ pinned other rows
  unfolding holds pinned unpin delete
  pinned-unpin other test ids [] apart = refl
  pinned-unpin other test ids (r ∷ rows) apart =
      ground (arith, pinned-unpin other test ids rows apart, apart r.key)

  pub pinned-pin :
      (other test : K → Bool) (key : K) (ids : List ℕ) (rows : List (Pin K))
      → other key ≡ false
      → pinned other (pin test key ids rows) ≡ pinned other rows
  unfolding holds pinned pin
  pinned-pin other test key [] rows h = refl
  pinned-pin other test key (id ∷ ids) rows h = ground (arith, pinned-pin other test key ids rows h)
