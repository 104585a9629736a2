-- ===== src/Checks/Queue.antt =====
-- The queue's theorems at the small factory.
use omarchy_cli.Base.{
  List, Option, String, Text, [], codes, first, none, refl, some, true, update, ℕ, ◌∷◌, ◌≡◌,
  like_prefix,
}
use omarchy_cli.Factory.Rows.{Arch, Provided, Status, Task, Trust, Vet, param}
use omarchy_cli.Checks.Samples.{
  ada_claims, adas_build, adas_worker, factory, factory-QueueOk, finished, no_row, plain_claim,
  studio,
}
use omarchy_cli.Factory.Claim.{
  Actor, claim_kinds, claim_next, claim_worker, claimant, earlier, handle_claim, lease, pick,
}
use omarchy_cli.Factory.Complete.{
  complete_build, complete_built, done_reply, handle_complete, result_object,
}
use omarchy_cli.Factory.Complete.Build.{stage_store}
use omarchy_cli.Factory.Complete.Job.{Attest, Attestation}
use omarchy_cli.Factory.Enqueue.{Order, enqueue, repo_arch}
use omarchy_cli.Factory.Lease.{expired, names_task, owned, requeue_expired, requeue_task}
use omarchy_cli.Factory.Queue.Claims.{Claimed, claim_next-Claimed, claim_twice}
use omarchy_cli.Factory.Queue.Ends.{Refused, handle_complete-Refused}
use omarchy_cli.Factory.Queue.Once.{enqueue_again}
use omarchy_cli.Factory.Queue.Operations.{QueueOk}
use omarchy_cli.Factory.Queue.Requeue.{requeue_expired-tasks, requeue_expired_again}
use omarchy_cli.Factory.Queue.Supersede.{NoOlder, stage_store-NoOlder}
use omarchy_cli.Factory.Queue.Trace.{Request, run, run-QueueOk}
use omarchy_cli.Factory.Queue.Trust.{MayDo, handle_claim-MayDo}
use omarchy_cli.Factory.Reply.{after}

abbrev pub no_vet : Text → Option Vet
no_vet s = none

abbrev pub no_seal : Attest
no_seal sha pool = Attestation.thrown (codes "no key")

abbrev pub nobody_ships : String → List Provided
nobody_ships name = []

abbrev history : List (ℕ × Request)
history =
    (5, Request.claims (Actor.worker adas_worker) plain_claim)
    ∷ (6, Request.completes 0 (Actor.worker studio) finished)
    ∷ (2000, Request.requeues)
    ∷ []

run-QueueOk_example : QueueOk (run no_vet no_seal nobody_ships history factory)
run-QueueOk_example = run-QueueOk no_vet no_seal nobody_ships history factory factory-QueueOk

claim_next-Claimed_example : Claimed ada_claims factory.tasks (claim_next ada_claims factory.tasks)
claim_next-Claimed_example = claim_next-Claimed ada_claims factory.tasks

handle_claim-MayDo_example :
    MayDo adas_worker plain_claim 10 factory Trust.community (lease ada_claims adas_build)
unfolding handle_claim repo_arch claim_worker lease claimant claim_kinds pick like_prefix
handle_claim-MayDo_example = handle_claim-MayDo adas_worker plain_claim 10 factory _ _ refl

-- The queue with a second build of Ada's.
abbrev two_builds : List Task
two_builds =
    let row : Task = no_row 2 "world" Status.queued Trust.community in
    record row { owner = some "ada" } ∷ adas_build ∷ []

claim_twice_example : ¬ (◌≡◌ {A = ℕ} 1 2)
unfolding claim_next pick earlier lease update like_prefix
claim_twice_example = claim_twice ada_claims ada_claims two_builds _ _ refl refl

requeue_expired-tasks_example :
    (requeue_expired 2000 factory).1.tasks
    ≡ update (expired 2000) (λ t. requeue_task 2000 t t) factory.tasks
requeue_expired-tasks_example = requeue_expired-tasks 2000 2 factory factory-QueueOk.keys

requeue_expired_again_example : (requeue_expired 2000 (requeue_expired 2000 factory).1).0 ≡ 0
requeue_expired_again_example = requeue_expired_again 2000 2 factory factory-QueueOk.keys

stage_store-NoOlder_example :
    NoOlder adas_build (stage_store adas_build finished none "ada-1" 9 factory).tasks
stage_store-NoOlder_example = stage_store-NoOlder adas_build finished none "ada-1" 9 factory

abbrev order : Order
order = record {
  name = "hello";
  pkgbuild_ref = codes "c0ffee";
  reason = codes "retry";
  version = none;
  priority = none;
  publish = true;
}

-- The worker that holds task 0 beats, and claims what it can.
abbrev meanwhile : List (ℕ × Request)
meanwhile =
    (8, Request.beats 0 (Actor.worker studio))
    ∷ (9, Request.claims (Actor.worker studio) plain_claim)
    ∷ []

enqueue_again_example :
    enqueue order
      (Arch.x86_64 ∷ [])
      10
      (run no_vet no_seal nobody_ships meanwhile (enqueue order (Arch.x86_64 ∷ []) 7 factory).1)
    ≡ (
      (enqueue order (Arch.x86_64 ∷ []) 7 factory).0,
      run no_vet no_seal nobody_ships meanwhile (enqueue order (Arch.x86_64 ∷ []) 7 factory).1,
    )
enqueue_again_example =
    enqueue_again no_vet no_seal nobody_ships order (Arch.x86_64 ∷ []) 7 10 meanwhile factory
      (tt, (tt, tt))

handle_complete-Refused_example : Refused (
    owned 0
      (Actor.worker studio)
      (after factory (handle_complete no_vet no_seal 0 (Actor.worker studio) finished 20 factory)))
unfolding handle_complete owned names_task first result_object complete_built complete_build
    done_reply param
handle_complete-Refused_example =
    handle_complete-Refused no_vet no_seal 0 (Actor.worker studio) (Actor.worker studio) finished 20
      factory _ _ refl
