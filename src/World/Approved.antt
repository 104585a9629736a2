-- ===== src/World/Approved.antt =====
-- An approval is for good: once a build is approved, nothing that the pool does has it approved
-- again (worker/src/routes/review.ts).
use omarchy_cli.Base.{Option, Text, exists, ℕ, List, [], arith, inl, inr, true, ◌∷◌, ◌≡◌}
use omarchy_cli.Blocks.Packages.{Town}
use omarchy_cli.Factory.Reply.{Reply-cases, refuse}
use omarchy_cli.Factory.Rows.{Contributor, Store}
use omarchy_cli.Review.Approve.{approves, handle_approve}
use omarchy_cli.World.Evolves.{KeepsApprovals}
use omarchy_cli.World.Trace.{Operation, Outside, operate, operate_all}
use omarchy_cli.Review.Approval.{handle_approve-Approved}
use omarchy_cli.World.Pool.{operate-Effect}

operate_all-KeepsApprovals :
    (out : Outside) (ops : List (ℕ × Operation)) (town : Town)
    → KeepsApprovals town.factory.approvals (operate_all out ops town).factory.approvals
unfolding operate_all
operate_all-KeepsApprovals out [] town id h = h
operate_all-KeepsApprovals out (o ∷ more) town id h =
    operate_all-KeepsApprovals out more (operate out o town) id ((operate-Effect out o town).1 id h)

approved-refused :
    (c : Contributor) (id : ℕ) (why : Option Text) (now : ℕ) (st : Store)
    → exists (approves id) st.approvals ≡ true
    → (n : ℕ) × (handle_approve c id why now st ≡ refuse n)
approved-refused c id why now st h = elim (Reply-cases (handle_approve c id why now st)) [
  | inr r ↦ r
  | inl ((job, s), e) ↦
      let never = (handle_approve-Approved c id why now job st s e).0.undecided in ground arith
]

-- Once a build has been approved, no approval of it is answered again, whoever asks and whatever
-- the pool did in between: claims, completions, rejections, jobs, blocks, releases.
pub operate_all-approves_once :
    (out : Outside) (ops : List (ℕ × Operation)) (town : Town) (c : Contributor) (id : ℕ)
    (why : Option Text) (now : ℕ)
    → exists (approves id) town.factory.approvals ≡ true
    → (n : ℕ) × (handle_approve c id why now (operate_all out ops town).factory ≡ refuse n)
operate_all-approves_once out ops town c id why now h =
    approved-refused c id why now (operate_all out ops town).factory
      (operate_all-KeepsApprovals out ops town id h)
