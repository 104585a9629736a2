-- ===== src/Factory/Queue/Keys.antt =====
-- The ids of the rows of build_tasks: given once, falling along the table (newest first). What an
-- update by id does to a table of such rows.
use omarchy_cli.Base.{
  All, Bool, Bool-cases, List, [], arith, first, inl, inr, none, refl, select, some, update, ℕ,
  ◌&&◌, ◌<◌, ◌∷◌, ◌≡◌, ◌≤◌,
}
use omarchy_cli.Factory.Rows.{Task}
use omarchy_cli.Factory.Tests.{has_id}

-- The ids fall along the table and stay below `n`.
abbrev pub Below : ℕ → List Task → Type 0
Below n [] = Unit {0}
Below n (t ∷ ts) = (t.id < n) × Below t.id ts

pub Below-mono : (m n : ℕ) (ts : List Task) → m ≤ n → Below m ts → Below n ts
Below-mono m n [] h b = tt
Below-mono m n (t ∷ ts) h b = (omega arith, b.1)

pub update-Below :
    (test : Task → Bool) (change : Task → Task) (n : ℕ) (ts : List Task)
    → ((t : Task) → (change t).id ≡ t.id)
    → Below n ts
    → Below n (update test change ts)
unfolding update
update-Below test change n [] keep b = tt
update-Below test change n (t ∷ ts) keep b = elim (Bool-cases (test t)) [
  | inl e ↦ rw e (rw (keep t) (b.0, update-Below test change t.id ts keep b.1))
  | inr e ↦ rw e (b.0, update-Below test change t.id ts keep b.1)
]

pub select-Below :
    (test : Task → Bool) (n : ℕ) (ts : List Task) → Below n ts → Below n (select test ts)
unfolding select
select-Below test n [] b = tt
select-Below test n (t ∷ ts) b = elim (Bool-cases (test t)) [
  | inl e ↦ rw e (b.0, select-Below test t.id ts b.1)
  | inr e ↦ rw e (Below-mono t.id n (select test ts) (omega arith) (select-Below test t.id ts b.1))
]

-- An id that is not below the bound names no row.
pub update_above :
    (extra : Task → Bool) (change : Task → Task) (id n : ℕ) (ts : List Task)
    → Below n ts
    → n ≤ id
    → update (λ u. has_id id u && extra u) change ts ≡ ts
unfolding update
update_above extra change id n [] b h = refl
update_above extra change id n (t ∷ ts) b h =
    ground (arith, update_above extra change id t.id ts b.1)

pub update-has_id_above :
    (change : Task → Task) (id n : ℕ) (ts : List Task)
    → Below n ts
    → n ≤ id
    → update (has_id id) change ts ≡ ts
unfolding update
update-has_id_above change id n [] b h = refl
update-has_id_above change id n (t ∷ ts) b h =
    ground (arith, update-has_id_above change id t.id ts b.1)

pub first-has_id_above :
    (id n : ℕ) (ts : List Task) → Below n ts → n ≤ id → first (has_id id) ts ≡ none
unfolding first
first-has_id_above id n [] b h = refl
first-has_id_above id n (t ∷ ts) b h = ground (arith, first-has_id_above id t.id ts b.1)

-- An update by id keeps a predicate of all rows if it keeps it of the row with that id.
pub update_id-All {κ} :
    (P : Task → Type κ) (change : Task → Task) (id n : ℕ) (ts : List Task) (t : Task)
    → Below n ts
    → first (has_id id) ts ≡ some t
    → P (change t)
    → All P ts
    → All P (update (has_id id) change ts)
unfolding update first
update_id-All P change id n [] t b e p a = tt
update_id-All P change id n (x ∷ xs) t b e p a = elim (Bool-cases (has_id id x)) [
  | inl hit ↦
      let same : x ≡ t = ground arith in
      let rest : update (has_id id) change xs ≡ xs =
        update-has_id_above change id x.id xs b.1 (ground arith) in
      rw (hit, rest) (rw same p, a.1)
  | inr miss ↦ rw miss (a.0, update_id-All P change id x.id xs t b.1 (ground arith) p a.1)
]
