-- ===== src/Checks/Releases.antt =====
-- The releases at concrete inputs: two packages, edge serving both, a promotion to rc.
use omarchy_cli.Base.{
  codes, String, [], arith, false, none, refl, select, some, true, ℕ, ◌==◌, ◌||◌, ◌∷◌, List, ◌&&◌,
  delete, first, inr, ◌≡◌, if◌then◌else◌, subst,
}
use omarchy_cli.Factory.Rows.{Arch}
use omarchy_cli.Release.Checkpoint.{Keeps}
use omarchy_cli.Release.Create.{CreateRelease, source_release}
use omarchy_cli.Release.Members.{
  apply_deltas, checkpoint_members, deltas_of, ring_members, release_members, apply_delta,
}
use omarchy_cli.Release.Replay.{History, Lists}
use omarchy_cli.Release.Rows.{Package, Pool, Release, Ring, Op}
use omarchy_cli.Release.Selection.{holds, pinned}
use omarchy_cli.Release.Write.{handle_create_release, Created}
use omarchy_cli.Factory.Reply.{after}
use omarchy_cli.Release.Promote.{handle_create_release-promoted, indexed}
use omarchy_cli.Release.Create.{source_release}
use omarchy_cli.Release.Trace.{
  Request, Made, handle_create_release-Made, serve_all, serve_all-immutable,
}
use omarchy_cli.Release.Reach.{release_members-reads}
use omarchy_cli.Release.Delta.{holds-delete}

abbrev indexed_package : ℕ → String → Package
indexed_package id name = record {
  id = id;
  sha256 = name;
  name = name;
  source = "factory";
  repo_arch = Arch.x86_64;
  version = "1.0-1";
  released = true;
  filename = codes name;
  r2_key = none;
  created_at = 0;
}

abbrev pub first_release : Release
first_release = record {
  id = 1;
  ring = Ring.edge;
  seq = 1;
  parent_id = none;
  source_id = none;
  note = none;
  checkpoint = true;
}

-- Release 1 of edge pins package 7.
abbrev pub one_release : Pool
one_release = record {
  packages = indexed_package 7 "ghostty" ∷ indexed_package 8 "zed" ∷ [];
  releases = first_release ∷ [];
  release_deltas = [];
  release_packages = (record { key = 1; package_id = 7 }) ∷ [];
  ring_packages = (record { key = Ring.edge; package_id = 7 }) ∷ [];
  ring_heads = (record { ring = Ring.edge; release_id = 1 }) ∷ [];
  release_artifacts = [];
  next_release = 2;
}

abbrev pub seven : History
seven i p = (p == 7) || false

pub one_release-Keeps : Keeps seven one_release
unfolding ring_members checkpoint_members pinned holds deltas_of select apply_deltas
one_release-Keeps = (
  (λ p. refl, tt),
  ((λ c p. refl, λ q ids e. cc), tt),
  (refl, tt),
  (((omega arith, λ q e. cc), tt), tt, (omega arith, tt), (omega arith, tt)),
)

-- Promote edge to rc; add zed to edge.
abbrev to_rc : CreateRelease
to_rc = record {
  ring = "rc";
  from_ring = some "edge";
  from_release_id = none;
  add = none;
  remove = none;
  remove_from = none;
  remove_arch = none;
  arch = none;
  note = none;
}

abbrev pub with_zed : CreateRelease
with_zed = record to_rc { ring = "edge"; from_ring = none; add = some ("zed" ∷ []) }

abbrev rc_created : Created
rc_created = record {
  release = record {
    id = 2;
    ring = Ring.rc;
    seq = 1;
    parent_id = none;
    source_id = some 1;
    note = none;
    checkpoint = true;
  };
  unchanged_arches = [];
}

abbrev zed_created : Created
zed_created = record {
  release = record {
    id = 2;
    ring = Ring.edge;
    seq = 2;
    parent_id = some 1;
    source_id = none;
    note = none;
    checkpoint = false;
  };
  unchanged_arches = [];
}

abbrev after_zed : Pool
after_zed = after one_release (handle_create_release with_zed one_release)

abbrev after_rc : Pool
after_rc = after one_release (handle_create_release to_rc one_release)

handle_create_release-Made_example : Made seven one_release zed_created after_zed
unfolding handle_create_release
handle_create_release-Made_example =
    handle_create_release-Made seven with_zed one_release after_zed zed_created one_release-Keeps
      refl

handle_create_release-promoted_example :
    Lists (ring_members Ring.rc after_rc) (λ p. seven 1 p && indexed one_release p)
unfolding source_release handle_create_release
handle_create_release-promoted_example =
    handle_create_release-promoted seven to_rc first_release one_release after_rc rc_created
      one_release-Keeps (refl, refl, refl, refl) refl refl

abbrev pub requests : List Request
requests = Request.create with_zed ∷ Request.create to_rc ∷ Request.read 1 ∷ []

serve_all-immutable_example : Lists (7 ∷ []) (seven 1)
unfolding serve_all release_members
serve_all-immutable_example =
    serve_all-immutable seven requests one_release (serve_all requests one_release) 1 (7 ∷ [])
      one_release-Keeps (omega arith) refl

-- Release 2 adds package 8, release 3 drops package 7; only release 1 is a checkpoint.
abbrev pub second_release : Release
second_release = record first_release { id = 2; seq = 2; parent_id = some 1; checkpoint = false }

abbrev pub third_release : Release
third_release = record first_release { id = 3; seq = 3; parent_id = some 2; checkpoint = false }

abbrev pub three_releases : Pool
three_releases = record one_release {
  releases = third_release ∷ second_release ∷ first_release ∷ [];
  release_deltas =
      (record { release_id = 3; package_id = 7; op = Op.remove })
      ∷ (record { release_id = 2; package_id = 8; op = Op.add })
      ∷ [];
  ring_packages = (record { key = Ring.edge; package_id = 8 }) ∷ [];
  ring_heads = (record { ring = Ring.edge; release_id = 3 }) ∷ [];
  next_release = 4;
}

abbrev three : History
three i p =
    if i == 1
    then (p == 7) || false
    else if i == 2
    then (p == 8) || ((p == 7) || false)
    else (p == 8) || false

three_releases-Keeps : Keeps three three_releases
unfolding ring_members checkpoint_members pinned holds deltas_of select apply_deltas apply_delta
    delete
three_releases-Keeps = (
  (λ p. refl, tt),
  (
    (
      λ c. cc,
      λ q ids at l p.
          let same : q ≡ 2 = ground arith in
          let l' = subst (λ x. Lists ids (three x)) same l p in
          ground (arith, holds-delete p 7 ids, l'),
    ),
    (
      (
        λ c. cc,
        λ q ids at l p.
            let same : q ≡ 1 = ground arith in
            let l' = subst (λ x. Lists ids (three x)) same l p in ground (arith, l'),
      ),
      ((λ c p. refl, λ q ids e. cc), tt),
    ),
  ),
  (refl, tt),
  (
    (
      (omega arith, λ q e. ground arith),
      ((omega arith, λ q e. ground arith), ((omega arith, λ q e. cc), tt)),
    ),
    (omega arith, (omega arith, tt)),
    (omega arith, tt),
    (omega arith, tt),
  ),
)

release_members-reads_example :
    (ids : List ℕ) × (st' : Pool) × (release_members 2 three_releases ≡ some (ids, st'))
    × Keeps three st'
    × Lists ids (three 2)
unfolding first
release_members-reads_example =
    release_members-reads three three_releases 1 2 second_release three_releases-Keeps refl
      (omega arith) (inr (1, first_release, refl, refl, refl))
