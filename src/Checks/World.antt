-- ===== src/Checks/World.antt =====
-- The theorems about the whole pool, the review and the blocks at the small town.
use omarchy_cli.Base.{
  List, [], codes, false, none, some, ℕ, ◌∷◌, arith, refl, true, ◌≡◌, exists, first, like_prefix,
}
use omarchy_cli.Release.Trace as ReleaseTrace
use omarchy_cli.Blocks.Contributors.{Clock}
use omarchy_cli.Checks.Releases.{with_zed, one_release-Keeps, seven}
use omarchy_cli.Checks.Town.{mona, reviewed-Trusted, town, approved}
use omarchy_cli.Updates.{Latest}
use omarchy_cli.World.Pool.{operate_all-Trusted}
use omarchy_cli.World.Trace.{Operation, Outside, operate_all, operate}
use omarchy_cli.World.Vouched.{Trusted}
use omarchy_cli.Checks.Queue.{no_seal, no_vet, nobody_ships}
use omarchy_cli.Blocks.Packages.{Town}
use omarchy_cli.Factory.Reply.{refuse}
use omarchy_cli.Release.Replay.{Lists}
use omarchy_cli.Review.Approve.{handle_approve}
use omarchy_cli.World.Approved.{operate_all-approves_once}
use omarchy_cli.World.Shelf.{operate_all-immutable}
use omarchy_cli.Release.Members.{release_members}

abbrev no_clock : Clock
no_clock = record { stamp = λ n. []; iso = λ n. []; document = λ d. [] }

abbrev nothing_outside : Outside
nothing_outside = record {
  read_vet = no_vet;
  attest = no_seal;
  provided = nobody_ships;
  latest_tag = λ url. Latest.tagged (codes "v1.1");
  clock = no_clock;
}

-- An approval, a turn of the scheduler, an update check, a release, and a block of the package.
abbrev operations : List (ℕ × Operation)
operations =
    (50, Operation.approves_build mona 3 none)
    ∷ (60, Operation.schedules (some (codes "health, gc")) false)
    ∷ (70, Operation.checks_updates none)
    ∷ (80, Operation.releases (ReleaseTrace.Request.create with_zed))
    ∷ (90, Operation.blocks_package mona "hello" (some (codes "malware")))
    ∷ []

operate_all-Trusted_example : Trusted (operate_all nothing_outside operations town).factory
operate_all-Trusted_example = operate_all-Trusted nothing_outside operations town reviewed-Trusted

operate_all-approves_once_example :
    (n : ℕ) × (handle_approve mona 3 none 99
        (operate_all nothing_outside operations (record town { factory = approved })).factory
      ≡ refuse n)
unfolding handle_approve exists first like_prefix
operate_all-approves_once_example =
    operate_all-approves_once nothing_outside operations (record town { factory = approved }) mona 3
      none 99 refl

-- The operations that make and read no release but the given one.
abbrev later_town : Town
later_town =
    operate_all nothing_outside
      ((80, Operation.releases (ReleaseTrace.Request.create with_zed))
        ∷ (85, Operation.schedules none true)
        ∷ [])
      town

operate_all-immutable_example : Lists (7 ∷ []) (seven 1)
unfolding release_members operate_all operate ReleaseTrace.serve
operate_all-immutable_example =
    operate_all-immutable nothing_outside seven
      ((80, Operation.releases (ReleaseTrace.Request.create with_zed))
        ∷ (85, Operation.schedules none true)
        ∷ [])
      town later_town.releases 1 (7 ∷ []) one_release-Keeps (omega arith) refl
