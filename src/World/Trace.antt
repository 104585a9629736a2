-- ===== src/World/Trace.antt =====
-- The whole pool as one step over the factory's store and the releases: the handlers of
-- worker/src/routes/factory.ts, releases.ts, review.ts, blocks.ts and contributors.ts and of
-- worker/src/jobs.ts that are modelled, the scheduler's rules and the update check, in any order.
use omarchy_cli.Base.{Bool, Option, String, Text, ℕ, List, [], ◌∷◌}
use omarchy_cli.Factory.Queue.Trace as QueueTrace
use omarchy_cli.Release.Trace as ReleaseTrace
use omarchy_cli.Factory.Rows.{Contributor, Provided, Store, Vet}
use omarchy_cli.Schedule.Jobs.{JobBody, checked, handle_queue_job}
use omarchy_cli.Blocks.Contributors.{Clock, handle_block_contributor, handle_unblock_contributor}
use omarchy_cli.Blocks.Packages.{Town, handle_block_package, handle_unblock_package}
use omarchy_cli.Factory.Complete.Job.{Attest}
use omarchy_cli.Factory.Reply.{Reply, after}
use omarchy_cli.Review.Approve.{handle_approve, handle_reject}
use omarchy_cli.Review.Decide.{handle_project_build}
use omarchy_cli.Schedule.Queue.{schedule_rules}
use omarchy_cli.Schedule.Rules.{rules}
use omarchy_cli.Updates.{Latest, check_updates}
use omarchy_cli.Contributors.{
  BuildBody, handle_build_package, handle_delete_package, handle_revoke_worker,
}

-- A request, or a turn of the scheduler, without its time.
pub data Operation : Type 0 where
  factory : QueueTrace.Request → Operation
  releases : ReleaseTrace.Request → Operation
  asks_build : Contributor → ℕ → Option Text → Operation
  approves_build : Contributor → ℕ → Option Text → Operation
  rejects_build : Contributor → ℕ → Option Text → Operation
  queues_job : String → JobBody → Operation
  schedules : Option Text → Bool → Operation
  checks_updates : Option ℕ → Operation
  blocks_contributor : Contributor → String → Option Text → Operation
  unblocks_contributor : Contributor → String → Option Text → Operation
  blocks_package : Contributor → String → Option Text → Operation
  removes_package : Contributor → String → Operation
  asks_builds : Contributor → String → BuildBody → Operation
  revokes_worker : Contributor → String → Operation
  unblocks_package : Contributor → String → Option Text → Operation

-- What is not the repository's: the parser of a package's vet, the seal, the upstream packages,
-- the tags on GitHub, the clock's texts.
pub record Outside : Type 0 where
  pub read_vet : Text → Option Vet
  pub attest : Attest
  pub provided : String → List Provided
  pub latest_tag : Text → Latest
  pub clock : Clock

module _ (out : Outside) where
  -- A handler of the factory alone.
  abbrev in_factory {ℓ} : {A : Type ℓ} → Town → Reply (A × Store) → Town
  in_factory town r = record town { factory = after town.factory r }

  unfoldable pub operate : ℕ × Operation → Town → Town
  operate (now, Operation.factory r) town = record town {
    factory = QueueTrace.step out.read_vet out.attest out.provided (now, r) town.factory;
  }
  operate (now, Operation.releases r) town = record town {
    releases = ReleaseTrace.serve r town.releases;
  }
  operate (now, Operation.asks_build c id reason) town =
      in_factory town (handle_project_build c id reason now town.factory)
  operate (now, Operation.approves_build c id reason) town =
      in_factory town (handle_approve c id reason now town.factory)
  operate (now, Operation.rejects_build c id reason) town =
      in_factory town (handle_reject c id reason now town.factory)
  operate (now, Operation.queues_job login b) town =
      in_factory town (handle_queue_job login b now town.factory)
  operate (now, Operation.schedules job_kinds guard) town = record town {
    factory = schedule_rules job_kinds guard rules now town.factory;
  }
  operate (now, Operation.checks_updates checked) town = record town {
    factory = (check_updates out.latest_tag checked now town.factory).1;
  }
  operate (now, Operation.blocks_contributor c login reason) town =
      in_factory town (handle_block_contributor out.clock c login reason now town.factory)
  operate (now, Operation.unblocks_contributor c login reason) town =
      in_factory town (handle_unblock_contributor out.clock c login reason now town.factory)
  operate (now, Operation.blocks_package c name reason) town =
      after town (handle_block_package out.clock c name reason now town)
  operate (now, Operation.removes_package c name) town =
      in_factory town (handle_delete_package c name town.factory)
  operate (now, Operation.asks_builds c name b) town =
      in_factory town (handle_build_package c name b now town.factory)
  operate (now, Operation.revokes_worker c id) town =
      in_factory town (handle_revoke_worker c id now town.factory)
  operate (now, Operation.unblocks_package c name reason) town =
      in_factory town (handle_unblock_package out.clock c name reason now town.factory)

  unfoldable pub operate_all : List (ℕ × Operation) → Town → Town
  operate_all [] town = town
  operate_all (o ∷ more) town = operate_all more (operate o town)
