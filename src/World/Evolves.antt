-- ===== src/World/Evolves.antt =====
-- What the factory's operations (worker/src/routes/factory.ts) do to the queue, as far as the kind
-- and the parameters of its tasks and the approvals go: no task changes them, no task that is new
-- publishes, and no approval is taken back.
use omarchy_cli.Base.{
  All, Bool, List, exists, false, true, update, update-All, ℕ, ◌∷◌, ◌≡◌, Bool-cases, [], arith, inl,
  inr,
}
use omarchy_cli.Factory.Rows.{Approval, Kind, Store, Task}
use omarchy_cli.Factory.Tests.{kind_eq}
use omarchy_cli.Review.Approve.{approves}

-- A predicate that the kind and the parameters of a task decide, and that holds of every task that
-- does not publish.
pub record Steady (P : Task → Type 0) : Type 0 where
  pub keep : (t u : Task) → u.kind ≡ t.kind → u.params ≡ t.params → P t → P u
  pub fresh : (t : Task) → kind_eq t.kind Kind.publish ≡ false → P t

abbrev pub KeepsApprovals : List Approval → List Approval → Type 0
KeepsApprovals xs ys = (id : ℕ) → exists (approves id) xs ≡ true → exists (approves id) ys ≡ true

-- From the tasks and approvals `ts`, `xs` to `us`, `ys`.
abbrev pub Moves : List Task → List Approval → List Task → List Approval → Type 1
Moves ts xs us ys = ((P : Task → Type 0) → Steady P → All P ts → All P us) × KeepsApprovals xs ys

abbrev pub Evolves : Store → Store → Type 1
Evolves st st' = Moves st.tasks st.approvals st'.tasks st'.approvals

pub Evolves-trans : (a b c : Store) → Evolves a b → Evolves b c → Evolves a c
Evolves-trans a b c f g = (λ P s h. g.0 P s (f.0 P s h), λ id h. g.1 id (f.1 id h))

-- Nothing is done to them.
pub Moves-refl : (ts : List Task) (xs : List Approval) → Moves ts xs ts xs
Moves-refl ts xs = (λ P s h. h, λ id h. h)

-- Tasks are changed in other columns.
pub update-Moves :
    (test : Task → Bool) (change : Task → Task) (ts : List Task) (xs : List Approval)
    → ((t : Task) → ((change t).kind ≡ t.kind) × ((change t).params ≡ t.params))
    → Moves ts xs (update test change ts) xs
update-Moves test change ts xs same = (
  λ P s h. update-All P test change ts (λ t x p. s.keep t (change t) (same t).0 (same t).1 p) h,
  λ id h. h,
)

-- A task that does not publish is new.
pub insert-Moves :
    (row : Task) (ts : List Task) (xs : List Approval)
    → kind_eq row.kind Kind.publish ≡ false
    → Moves ts xs (row ∷ ts) xs
insert-Moves row ts xs k = (λ P s h. (s.fresh row k, h), λ id h. h)

pub same-Evolves :
    (st st' : Store) → st'.tasks ≡ st.tasks → st'.approvals ≡ st.approvals → Evolves st st'
same-Evolves st st' e a = (λ P s h. rw e h, λ id h. rw a h)

-- Approvals are changed in columns that do not decide.
pub update-KeepsApprovals :
    (test : Approval → Bool) (change : Approval → Approval) (xs : List Approval)
    → ((a : Approval) → ((change a).task_id ≡ a.task_id) × ((change a).decision ≡ a.decision))
    → KeepsApprovals xs (update test change xs)
unfolding update exists
update-KeepsApprovals test change [] same id h = h
update-KeepsApprovals test change (a ∷ xs) same id h =
    let rest = update-KeepsApprovals test change xs same id in
    let (t, d) = same a in
    elim (Bool-cases (test a)) [
      | inl e ↦ rw e (rw (t, d) (ground (arith, rest)))
      | inr e ↦ rw e (ground (arith, rest))
    ]
