-- ===== src/World/Sound.antt =====
-- An operation is sound when it keeps the queue in order and evolves it; here those of
-- worker/src/routes/review.ts, scheduler.ts, jobs.ts, updates.ts and routes/blocks.ts.
use omarchy_cli.Base.{
  All, Bool, List, Text, arith, false, refl, suc, true, update, update-All, ℕ, ◌∷◌, ◌≡◌,
}
use omarchy_cli.Factory.Complete.Build.{superseded}
use omarchy_cli.Factory.Queue.Keys.{Below, update-Below}
use omarchy_cli.Factory.Queue.Operations.{QueueOk}
use omarchy_cli.Factory.Queue.Rows.{RowFits, RowFits-attempts}
use omarchy_cli.Factory.Rows.{Approval, Kind, Store, Task}
use omarchy_cli.Factory.Tests.{kind_eq}
use omarchy_cli.World.Evolves.{Evolves-trans, Moves, Moves-refl, insert-Moves, update-Moves}

-- From the tasks, next id and approvals `ts`, `n`, `xs` to `us`, `m`, `ys`.
abbrev pub Sound : List Task → ℕ → List Approval → List Task → ℕ → List Approval → Type 1
Sound ts n xs us m ys =
    (Below n ts → All RowFits ts → Below m us × All RowFits us) × Moves ts xs us ys

abbrev pub SoundStep : Store → Store → Type 1
SoundStep st st' = Sound st.tasks st.next_task st.approvals st'.tasks st'.next_task st'.approvals

pub SoundStep-refl : (st : Store) → SoundStep st st
SoundStep-refl st = (λ k r. (k, r), Moves-refl st.tasks st.approvals)

pub SoundStep-trans : (a b c : Store) → SoundStep a b → SoundStep b c → SoundStep a c
SoundStep-trans a b c f g =
    (λ k r. let (k', r') = f.0 k r in g.0 k' r', Evolves-trans a b c f.1 g.1)

pub SoundStep-QueueOk : (st st' : Store) → SoundStep st st' → QueueOk st → QueueOk st'
SoundStep-QueueOk st st' s q =
    let (keys, rows) = s.0 q.keys q.rows in record { keys = keys; rows = rows }

pub update-Sound :
    (test : Task → Bool) (change : Task → Task) (ts : List Task) (n : ℕ) (xs : List Approval)
    → ((t : Task) → ((change t).kind ≡ t.kind) × ((change t).params ≡ t.params))
    → ((t : Task) → (change t).id ≡ t.id)
    → ((t : Task) → test t ≡ true → RowFits t → RowFits (change t))
    → Sound ts n xs (update test change ts) n xs
update-Sound test change ts n xs same id fits = (
  λ k r. (update-Below test change n ts id k, update-All RowFits test change ts fits r),
  update-Moves test change ts xs same,
)

-- Tasks that are cancelled, with the reason.
pub superseded-Sound :
    (test : Task → Bool) (note : Text) (ts : List Task) (n : ℕ) (xs : List Approval)
    → Sound ts n xs (update test (superseded note) ts) n xs
unfolding superseded
superseded-Sound test note ts n xs =
    update-Sound test (superseded note) ts n xs (λ t. (refl, refl)) (λ t. refl)
      (λ t e f. RowFits-attempts t f)

pub insert-Sound :
    (row : Task) (ts : List Task) (n : ℕ) (xs : List Approval)
    → row.id ≡ n
    → RowFits row
    → kind_eq row.kind Kind.publish ≡ false
    → Sound ts n xs (row ∷ ts) (suc n) xs
insert-Sound row ts n xs id fits k =
    (λ b r. (rw id (omega arith, b), (fits, r)), insert-Moves row ts xs k)
