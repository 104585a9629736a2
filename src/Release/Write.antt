-- ===== src/Release/Write.antt =====
-- The batch that writes a release, and the handler around it: handleCreateRelease of
-- worker/src/routes/releases.ts.
use omarchy_cli.Base.{
  Bool, List, Option, [], ◌∷◌, ◌++◌, ◌==◌, ◌+◌, if◌then◌else◌, ℕ, true, false, none, some, update,
  select, exists, leb, or_else, is_some, not, ◌&&◌, ◌||◌,
}
use omarchy_cli.Factory.Reply.{Reply, answer, or_refuse, require, ◌>>=◌, ◌>>◌}
use omarchy_cli.Release.Rows.{Artifact, Delta, Head, Op, Pool, Release, Ring, ring_eq}
use omarchy_cli.Factory.Rows.{Arch}
use omarchy_cli.Factory.Tests.{arch_eq}
use omarchy_cli.Release.Create.{
  ring_of, CreateRelease, added_ids, arch_param, base_members, max_seq, source_release, target,
}
use omarchy_cli.Release.Members.{checkpoint_every, heads_ring, ring_head, ring_members}
use omarchy_cli.Release.Selection.{Pin, except, holds, pin, pinned, unpin}

unfoldable pub delta_rows : ℕ → Op → List ℕ → List Delta
delta_rows id op [] = []
delta_rows id op (p ∷ ps) =
    (record { release_id = id; package_id = p; op = op }) ∷ delta_rows id op ps

-- INSERT … ON CONFLICT (ring) DO UPDATE SET release_id
unfoldable pub set_head : Ring → ℕ → List Head → List Head
unfolding exists update
set_head ring id heads =
    if exists (heads_ring ring) heads
    then update (heads_ring ring) (λ h. record h { release_id = id }) heads
    else (record { ring = ring; release_id = id }) ∷ heads

-- The artifact rows of the parent, for the architectures that the release leaves as they were.
unfoldable pub carried : ℕ → ℕ → List Arch → List Artifact → List Artifact
unfolding exists
carried id parent arches [] = []
carried id parent arches (a ∷ more) =
    let rest = carried id parent arches more in
    if a.release_id == parent && exists (arch_eq a.arch) arches
    then (record a { release_id = id }) ∷ rest
    else rest

-- The architectures that the request could not have touched.
unfoldable pub other_arches : Option Arch → List Arch
unfolding select
other_arches none = []
other_arches (some a) = select (λ x. not (arch_eq x a)) (Arch.x86_64 ∷ Arch.aarch64 ∷ [])

same_scope : Option Arch → Option Arch → Bool
same_scope (some a) (some b) = arch_eq a b
same_scope _ _ = false

is_nil : {A : Type 0} → List A → Bool
is_nil [] = true
is_nil (x ∷ xs) = false

unfoldable pub unchanged_arches :
    CreateRelease → Option Release → Option Release → Option Arch → Option Arch → List ℕ → List Arch
unfolding other_arches same_scope is_nil
unchanged_arches b source none scope only adds = []
unchanged_arches b source (some parent) scope only adds =
    let untouched =
      is_nil (or_else b.remove []) && is_nil (or_else b.remove_from []) && is_nil adds in
    if (or_else source parent).id == parent.id
    then other_arches scope
    else if untouched || same_scope scope only
    then other_arches only
    else []

-- The first release of a ring is a checkpoint, then one every CHECKPOINT_EVERY.
unfoldable pub is_checkpoint : Ring → ℕ → Option Release → List Release → Bool
unfolding max_seq
is_checkpoint ring seq parent releases =
    not (is_some parent)
    || leb (max_seq (λ r. ring_eq ring r.ring && r.checkpoint) releases + checkpoint_every) seq

-- What the batch writes, with the target and what the ring serves.
pub record Plan : Type 0 where
  pub ring : Ring
  pub source : Option Release
  pub parent : Option Release
  pub adds : List ℕ
  pub chosen : List ℕ
  pub unchanged : List Arch

abbrev pub id_of : Option Release → Option ℕ
id_of none = none
id_of (some r) = some r.id

unfoldable pub next_seq : Ring → List Release → ℕ
unfolding max_seq
next_seq ring releases = max_seq (λ r. ring_eq ring r.ring) releases + 1

unfoldable pub new_release : CreateRelease → Plan → Pool → Release
unfolding next_seq is_checkpoint
new_release b plan st = record {
  id = st.next_release;
  ring = plan.ring;
  seq = next_seq plan.ring st.releases;
  parent_id = id_of plan.parent;
  source_id = id_of plan.source;
  note = b.note;
  checkpoint = is_checkpoint plan.ring (next_seq plan.ring st.releases) plan.parent st.releases;
}

-- The ring's live rows, moved by the delta.
unfoldable pub moved_pins : Ring → List ℕ → List ℕ → List (Pin Ring) → List (Pin Ring)
unfolding pin unpin
moved_pins ring new gone rows = pin (ring_eq ring) ring new (unpin (ring_eq ring) gone rows)

-- The batch, one transaction.
unfoldable pub write_release : CreateRelease → Plan → Pool → Pool
unfolding new_release moved_pins delta_rows set_head carried pin except ring_members holds update
write_release b plan st =
    let own = ring_members plan.ring st in
    let new = except plan.chosen own in
    let gone = except own plan.chosen in
    let id = st.next_release in
    let row = new_release b plan st in
    let live = moved_pins plan.ring new gone st.ring_packages in
    record st {
      next_release = id + 1;
      releases = row ∷ st.releases;
      release_deltas =
          delta_rows id Op.remove gone ++ delta_rows id Op.add new ++ st.release_deltas;
      ring_packages = live;
      ring_heads = set_head plan.ring id st.ring_heads;
      release_packages =
          if row.checkpoint
          then pin (λ k. k == id) id (pinned (ring_eq plan.ring) live) st.release_packages
          else st.release_packages;
      packages =
          update (λ p. not p.released && holds p.id plan.adds) (λ p. record p { released = true })
            st.packages;
      release_artifacts = elim plan.parent [
        | none ↦ st.release_artifacts
        | some parent ↦
            carried id parent.id plan.unchanged st.release_artifacts ++ st.release_artifacts
      ];
    }

pub record Created : Type 0 where
  pub release : Release
  pub unchanged_arches : List Arch

-- The plan of a request, and the pool with the source's checkpoint where it had to be written.
unfoldable pub plan_release : CreateRelease → Pool → Reply (Plan × Pool)
unfolding ring_of source_release arch_param added_ids base_members target unchanged_arches
plan_release b st = do
  ring ← or_refuse (ring_of b.ring) 400
  source ← source_release b st
  let parent = ring_head ring st
  scope ← arch_param b.remove_arch
  adds ← or_refuse (added_ids (or_else b.add []) scope st.packages) 404
  only ← arch_param b.arch
  require (not (is_some only && not (is_some source))) 400
  (base, st') ← or_refuse (base_members source parent only ring st) 500
  answer (
    record {
      ring = ring;
      source = source;
      parent = parent;
      adds = adds;
      chosen = target b scope adds st'.packages base;
      unchanged = unchanged_arches b source parent scope only adds;
    },
    st',
  )

-- `handleCreateRelease`
unfoldable pub handle_create_release : CreateRelease → Pool → Reply (Created × Pool)
unfolding plan_release write_release new_release
handle_create_release b st = do
  (plan, st') ← plan_release b st
  answer (
    record { release = new_release b plan st'; unchanged_arches = plan.unchanged },
    write_release b plan st',
  )
