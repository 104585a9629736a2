-- ===== src/Checks/Retention.antt =====
-- The retention's theorems at three releases of edge.
use omarchy_cli.Base.{Memᴰ, [], arith, codes, refl, select, some, ℕ, ◌∷◌, ◌≡◌, first, take}
use omarchy_cli.Checks.Releases.{first_release, second_release, three_releases}
use omarchy_cli.Release.Kept.{handle_gc-keeps, is_pinned}
use omarchy_cli.Release.Members.{reconstruct, ring_members}
use omarchy_cli.Release.Promise.{handle_gc-reconstructs}
use omarchy_cli.Release.Retention.{Depot, handle_gc, retention, last}
use omarchy_cli.Release.Rows.{Ring}

abbrev depot : Depot
depot = record {
  index = three_releases;
  objects = codes "x86_64/ghostty" ∷ codes "x86_64/zed" ∷ [];
}

-- Two releases are protected, a day's grace, long after.
abbrev later : ℕ
later = 1_000_000_000_000

handle_gc-keeps_example :
    (select
        (λ p. is_pinned (retention 2 three_releases) three_releases p.id)
        (handle_gc 2 200 1 later depot).1.index.packages
      ≡ select
          (λ p. is_pinned (retention 2 three_releases) three_releases p.id)
          three_releases.packages)
    × ((ring : Ring)
        → ring_members ring (handle_gc 2 200 1 later depot).1.index
          ≡ ring_members ring three_releases)
    × ((handle_gc 2 200 1 later depot).1.index.ring_heads ≡ three_releases.ring_heads)
handle_gc-keeps_example = handle_gc-keeps 2 200 1 later depot

handle_gc-reconstructs_example :
    reconstruct second_release (handle_gc 2 200 1 later depot).1.index ≡ some (8 ∷ 7 ∷ [])
unfolding first select last take reconstruct
handle_gc-reconstructs_example =
    handle_gc-reconstructs 2 200 1 later depot Ring.edge second_release first_release second_release
      (8 ∷ 7 ∷ []) (refl, (refl, (refl, tt)))
      (refl, refl, omega arith, (refl, refl, omega arith, refl)) refl refl
      (Memᴰ.tail (Memᴰ.head refl)) refl
