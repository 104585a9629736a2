-- ===== src/Checks/Review.antt =====
-- The review's and the blocks' theorems at the small town.
use omarchy_cli.Base.{
  [], arith, codes, first, none, refl, some, true, ℕ, ◌∷◌, ◌≡◌, exists, like_prefix, update,
}
use omarchy_cli.Blocks.Contributors.{Clock, handle_block_contributor, handle_unblock_contributor}
use omarchy_cli.Blocks.People.{Shut, handle_block_contributor-Shut, handle_block_contributor-kept}
use omarchy_cli.Checks.Town.{approved, mona, projects_staged, reviewed}
use omarchy_cli.Factory.Reply.{after, refuse}
use omarchy_cli.Factory.Rows.{Store, param}
use omarchy_cli.Factory.Tests.{has_id}
use omarchy_cli.Review.Approval.{Approvable, Published, handle_approve-Approved}
use omarchy_cli.Review.Approve.{handle_reject, publish_task, handle_approve, reason_given}
use omarchy_cli.Review.Decide.{handle_project_build}
use omarchy_cli.Review.Rebuild.{handle_project_build-once, handle_reject-others}
use omarchy_cli.Review.Rejection.{Rejectable, Rejected, handle_reject-Rejected}

handle_approve-Approved_example : Approvable mona 3 reviewed × Published mona 3 4 approved
unfolding handle_approve first exists like_prefix
handle_approve-Approved_example = handle_approve-Approved mona 3 none 50 4 reviewed approved refl

abbrev rebuilt : Store
rebuilt = after reviewed (handle_project_build mona 2 none 50 reviewed)

handle_project_build-once_example :
    (n : ℕ) × (handle_project_build mona 2 none 60 rebuilt ≡ refuse n)
unfolding handle_project_build first exists param
handle_project_build-once_example =
    handle_project_build-once mona mona 2 none none 50 60 4 reviewed rebuilt refl

-- Mona approves the project's build, and rejects it before its publish job runs.
handle_reject-others_example :
    first
      (has_id 4)
      (after approved (handle_reject mona 3 (some (codes "broken")) 60 approved)).tasks
    ≡ some (publish_task mona projects_staged (codes "hello-1.0-1-x86_64.pkg.tar.zst" ∷ []) 50 4)
unfolding publish_task first handle_approve exists like_prefix update
handle_reject-others_example =
    handle_reject-others mona 3 4 (some (codes "broken")) 60
      (publish_task mona projects_staged (codes "hello-1.0-1-x86_64.pkg.tar.zst" ∷ []) 50 4)
      approved (λ w. ground arith) (omega arith) refl

abbrev turned_down : Store
turned_down = after approved (handle_reject mona 3 (some (codes "broken")) 60 approved)

handle_reject-Rejected_example :
    Rejectable mona 3 (some (codes "broken")) approved × Rejected mona 3 approved turned_down
unfolding handle_reject reason_given first handle_approve exists like_prefix update
handle_reject-Rejected_example =
    handle_reject-Rejected mona 3 3 (some (codes "broken")) 60 approved turned_down refl

abbrev clock : Clock
clock = record { stamp = λ n. []; iso = λ n. []; document = λ d. [] }

abbrev blocked : Store
blocked =
    after reviewed (handle_block_contributor clock mona "ada" (some (codes "malware")) 70 reviewed)

handle_block_contributor-Shut_example : Shut "ada" "mona" blocked
unfolding handle_block_contributor first
handle_block_contributor-Shut_example =
    handle_block_contributor-Shut clock mona "ada" (some (codes "malware")) 70 reviewed true blocked
      refl

handle_block_contributor-kept_example :
    (n : ℕ) × (handle_unblock_contributor clock mona "ada" (some (codes "sorry")) 80 blocked
      ≡ refuse n)
unfolding handle_block_contributor first
handle_block_contributor-kept_example =
    handle_block_contributor-kept clock mona "ada" (some (codes "malware")) (some (codes "sorry"))
      70 80 reviewed true blocked refl
