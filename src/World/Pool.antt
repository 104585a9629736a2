-- ===== src/World/Pool.antt =====
-- What holds of the whole pool after any operations of its components.
use omarchy_cli.Base.{List, [], ℕ, ◌∷◌}
use omarchy_cli.Factory.Queue.Trace as QueueTrace
use omarchy_cli.Blocks.Packages.{Town}
use omarchy_cli.Factory.Queue.Operations.{QueueOk}
use omarchy_cli.Factory.Rows.{Store}
use omarchy_cli.Schedule.Jobs.{checked}
use omarchy_cli.Schedule.Rules.{rules}
use omarchy_cli.World.Blocked.{
  handle_block_contributor-Sound, handle_block_package-Sound, handle_unblock_contributor-Sound,
  handle_unblock_package-Sound,
}
use omarchy_cli.World.Completions.{handle_claim-Evolves, handle_complete-Evolves}
use omarchy_cli.World.Evolves.{Evolves, KeepsApprovals}
use omarchy_cli.World.Handlers.{
  handle_cancel-Evolves, handle_enqueue-Evolves, handle_fail-Evolves, handle_heartbeat-Evolves,
  requeue_expired-Evolves,
}
use omarchy_cli.World.Jobs.{handle_queue_job-Sound, rules-Plain, schedule_rules-Sound}
use omarchy_cli.World.Reviews.{handle_project_build-Sound, handle_reject-Sound}
use omarchy_cli.World.Sound.{SoundStep}
use omarchy_cli.World.Sweeps.{check_updates-Sound}
use omarchy_cli.World.Trace.{Operation, Outside, operate, operate_all}
use omarchy_cli.World.Vouched.{
  SoundStep-Trusted, Trusted, handle_approve-Trusted, handle_approve-KeepsApprovals,
}
use omarchy_cli.World.Requests.{
  handle_build_package-Sound, handle_delete_package-Sound, handle_revoke_worker-Sound,
}

step-Evolves :
    (out : Outside) (now : ℕ) (r : QueueTrace.Request) (st : Store)
    → Evolves st (QueueTrace.step out.read_vet out.attest out.provided (now, r) st)
unfolding QueueTrace.step
step-Evolves out now (QueueTrace.Request.enqueues b) st =
    handle_enqueue-Evolves out.provided b now st
step-Evolves out now (QueueTrace.Request.cancels id) st = handle_cancel-Evolves id now st
step-Evolves out now (QueueTrace.Request.claims actor b) st = handle_claim-Evolves actor b now st
step-Evolves out now (QueueTrace.Request.beats id actor) st =
    handle_heartbeat-Evolves id actor now st
step-Evolves out now (QueueTrace.Request.fails id actor b) st =
    handle_fail-Evolves id actor b now st
step-Evolves out now (QueueTrace.Request.completes id actor b) st =
    handle_complete-Evolves out.read_vet out.attest id actor b now st
step-Evolves out now QueueTrace.Request.requeues st = requeue_expired-Evolves now st

step-Sound :
    (out : Outside) (now : ℕ) (r : QueueTrace.Request) (st : Store)
    → SoundStep st (QueueTrace.step out.read_vet out.attest out.provided (now, r) st)
step-Sound out now r st = (
  λ keys rows.
      let q : QueueOk st = record { keys = keys; rows = rows } in
      let q' = QueueTrace.step-QueueOk out.read_vet out.attest out.provided (now, r) st q in
      (q'.keys, q'.rows),
  step-Evolves out now r st,
)

-- What an operation keeps: the invariant, and the approvals.
abbrev pub Effect : Store → Store → Type 0
Effect st st' = (Trusted st → Trusted st') × KeepsApprovals st.approvals st'.approvals

sound-Effect : (st st' : Store) → SoundStep st st' → Effect st st'
sound-Effect st st' s = (SoundStep-Trusted st st' s, s.1.1)

pub operate-Effect :
    (out : Outside) (o : ℕ × Operation) (town : Town)
    → Effect town.factory (operate out o town).factory
unfolding operate
operate-Effect out (now, Operation.factory r) town =
    sound-Effect town.factory _ (step-Sound out now r town.factory)
operate-Effect out (now, Operation.releases r) town = (λ h. h, λ i x. x)
operate-Effect out (now, Operation.asks_build c id why) town =
    sound-Effect town.factory _ (handle_project_build-Sound c id why now town.factory)
operate-Effect out (now, Operation.approves_build c id why) town = (
  handle_approve-Trusted c id why now town.factory,
  handle_approve-KeepsApprovals c id why now town.factory,
)
operate-Effect out (now, Operation.rejects_build c id why) town =
    sound-Effect town.factory _ (handle_reject-Sound c id why now town.factory)
operate-Effect out (now, Operation.queues_job login b) town =
    sound-Effect town.factory _ (handle_queue_job-Sound login b now town.factory)
operate-Effect out (now, Operation.schedules job_kinds guard) town =
    sound-Effect town.factory _
      (schedule_rules-Sound job_kinds guard rules now town.factory rules-Plain)
operate-Effect out (now, Operation.checks_updates checked) town =
    sound-Effect town.factory _ (check_updates-Sound out.latest_tag checked now town.factory)
operate-Effect out (now, Operation.blocks_contributor c login why) town =
    sound-Effect town.factory _
      (handle_block_contributor-Sound out.clock c login why now town.factory)
operate-Effect out (now, Operation.unblocks_contributor c login why) town =
    sound-Effect town.factory _
      (handle_unblock_contributor-Sound out.clock c login why now town.factory)
operate-Effect out (now, Operation.blocks_package c name why) town =
    sound-Effect town.factory _ (handle_block_package-Sound out.clock c name why now town)
operate-Effect out (now, Operation.removes_package c name) town =
    sound-Effect town.factory _ (handle_delete_package-Sound c name town.factory)
operate-Effect out (now, Operation.asks_builds c name b) town =
    sound-Effect town.factory _ (handle_build_package-Sound c name b now town.factory)
operate-Effect out (now, Operation.revokes_worker c id) town =
    sound-Effect town.factory _ (handle_revoke_worker-Sound c id now town.factory)
operate-Effect out (now, Operation.unblocks_package c name why) town =
    sound-Effect town.factory _ (handle_unblock_package-Sound out.clock c name why now town.factory)

-- After any operations of the factory, the releases, the review, the scheduler, the update check,
-- the blocks and the contributors' requests, in any order, granted or refused, a factory that was
-- trusted is trusted: the queue is in order (an id is given once and is below the next one, a
-- row's lease and attempts fit its status), and every publish job names a task that has an
-- approval on record.
pub operate_all-Trusted :
    (out : Outside) (ops : List (ℕ × Operation)) (town : Town)
    → Trusted town.factory
    → Trusted (operate_all out ops town).factory
unfolding operate_all
operate_all-Trusted out [] town h = h
operate_all-Trusted out (o ∷ more) town h =
    operate_all-Trusted out more (operate out o town) ((operate-Effect out o town).0 h)
