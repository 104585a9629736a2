-- ===== src/Blocks/Packages.antt =====
-- Blocking a package and lifting the block: pullFromRings, handleBlockPackage and
-- handleUnblockPackage of worker/src/routes/blocks.ts, on the factory's store and the releases.
use omarchy_cli.Base.{
  Bool, Option, String, Text, [], codes, exists, first, is_some, none, not, or_else, slice_front,
  some, str_eq, update, ℕ, ◌&&◌, ◌++◌, ◌||◌, ◌∷◌, List, select,
}
use omarchy_cli.Factory.Rows.{Arch, Contributor, Kind, Level, Stage, Store, Task, Value}
use omarchy_cli.Factory.Reply.{Reply, answer, or_refuse, refuse, require, ◌>>=◌, ◌>>◌}
use omarchy_cli.Release.Rows.{Package, Pool, Ring}
use omarchy_cli.Release.Create.{CreateRelease, joins}
use omarchy_cli.Release.Write.{handle_create_release}
use omarchy_cli.Blocks.Contributors.{BlockNote, Clock, audit_with, block_line, noted, reason_of}
use omarchy_cli.Factory.Complete.Build.{superseded}
use omarchy_cli.Factory.Journal.{arch_name, is_named}
use omarchy_cli.Factory.Record.{record_key}
use omarchy_cli.Factory.Tests.{kind_eq}
use omarchy_cli.Release.Members.{ring_members}
use omarchy_cli.Review.Decide.{is_live, is_maintainer}
use omarchy_cli.Schedule.Queue.{create_job}
use omarchy_cli.Schedule.Rules.{Job}

pub record Town : Type 0 where
  pub factory : Store
  pub releases : Pool

abbrev pub ring_name : Ring → String
ring_name Ring.edge = "edge"
ring_name Ring.rc = "rc"
ring_name Ring.stable = "stable"

-- A row of the factory's source under this name.
abbrev pub factory_row : String → Package → Bool
factory_row name p = str_eq p.name name && str_eq p.source "factory"

unfoldable pub serves : String → Ring → Pool → Bool
unfolding ring_members joins exists
serves name ring st = exists (joins st.packages (factory_row name)) (ring_members ring st)

-- The release that takes a name of the factory's out of a ring.
unfoldable pub pull_request : String → Text → Ring → CreateRelease
pull_request name note ring = record {
  ring = ring_name ring;
  from_ring = none;
  from_release_id = none;
  add = none;
  remove = none;
  remove_from = some (("factory", name) ∷ []);
  remove_arch = none;
  arch = none;
  note = some note;
}

abbrev pub render_job : Ring → Arch → Job
render_job ring arch = record {
  kind = Kind.render;
  params = ("ring", Value.str (ring_name ring)) ∷ ("arch", Value.str (arch_name arch)) ∷ [];
  arch = arch;
}

-- The renders of a ring, one an architecture.
unfoldable pub render_ring : Text → Ring → ℕ → Store → Store
unfolding create_job
render_ring reason ring now st =
    (create_job (render_job ring Arch.aarch64) reason now
      (create_job (render_job ring Arch.x86_64) reason now st).1).1

unfoldable pub pull_ring : String → Text → ℕ → Ring → Town → Town
unfolding handle_create_release pull_request render_ring
pull_ring name note now ring town =
    let left = codes "block: " ++ codes name ++ codes " left " ++ codes (ring_name ring) in
    elim (handle_create_release (pull_request name note ring) town.releases) [
      | refuse n ↦ town
      | answer (made, releases) ↦ record {
        factory = render_ring left ring now town.factory;
        releases = releases;
      }
    ]

unfoldable pub pull_rings : String → Text → ℕ → List Ring → Town → Town
unfolding pull_ring
pull_rings name note now [] town = town
pull_rings name note now (ring ∷ more) town =
    pull_rings name note now more (pull_ring name note now ring town)

-- The rings that serve the package.
unfoldable pub serving_rings : String → Pool → List Ring
unfolding serves select
serving_rings name st =
    select (λ ring. serves name ring st) (Ring.edge ∷ Ring.rc ∷ Ring.stable ∷ [])

-- `pullFromRings`
unfoldable pub pull_from_rings : String → Text → ℕ → Town → Town
unfolding pull_rings serving_rings
pull_from_rings name note now town =
    pull_rings name note now (serving_rings name town.releases) town

-- kind IN ('build', 'publish') AND status IN ('queued', 'leased', 'staged')
abbrev pub builds_package : String → Task → Bool
builds_package name t =
    str_eq t.name name
    && (kind_eq t.kind Kind.build || kind_eq t.kind Kind.publish)
    && is_live t.status

unfoldable pub block_package_store : Contributor → String → Text → Text → ℕ → Store → Store
unfolding superseded
block_package_store c name reason note now st = record st {
  registrations =
      update (is_named name)
        (λ p. record p {
          status = Stage.rejected;
          blocked = some (record { at = now; by = c.login; reason = reason });
          detail = some note;
          updated_at = now;
        })
        st.registrations;
  tasks =
      update (audit_with "name" name) (superseded (codes "the build it audited was blocked"))
        (update (builds_package name) (superseded note) st.tasks);
}

-- Where the decision is recorded: under the package's request, or under 0.
unfoldable pub decision_key : Clock → String → Option ℕ → ℕ → Text
unfolding record_key
decision_key clock name request now =
    record_key name (or_else request 0) (codes "decision-" ++ clock.stamp now ++ codes ".json")

ring_list : List Ring → Text
ring_list [] = []
ring_list (r ∷ []) = codes (ring_name r)
ring_list (r ∷ s ∷ more) = codes (ring_name r) ++ codes ", " ++ ring_list (s ∷ more)

unfoldable pub pulled_text : List Ring → Text
unfolding ring_list
pulled_text [] = []
pulled_text (r ∷ more) = codes " — pulled from " ++ ring_list (r ∷ more)

module _ (clock : Clock) where
  -- `handleBlockPackage`: whether the record was written, and the store.
  unfoldable pub handle_block_package :
      Contributor → String → Option Text → ℕ → Town → Reply (Bool × Town)
  unfolding is_maintainer reason_of pull_from_rings block_package_store noted block_line
      decision_key pulled_text
  handle_block_package c name reason now town = do
    require (is_maintainer c) 403
    why ← or_refuse (reason_of reason) 400
    pkg ← or_refuse (first (is_named name) town.factory.registrations) 404
    require (not (is_some pkg.blocked)) 409
    let note = codes "blocked by " ++ codes c.login ++ codes ": " ++ slice_front 200 why
    let pulled = pull_from_rings name note now town
    let said : BlockNote = record {
      subject = name;
      lifted = none;
      by = c.login;
      at = now;
      reason = why;
      packages = [];
      workers = [];
    }
    let (wrote, st) =
        noted (decision_key clock name pkg.request_id now) (clock.document said)
          (block_line Level.warn (
            codes name
            ++ codes " blocked by "
            ++ codes c.login
            ++ codes ": "
            ++ slice_front 140 why
            ++ pulled_text (serving_rings name town.releases)))
          (block_package_store c name why note now pulled.factory)
    answer (wrote, record pulled { factory = st })

  -- `handleUnblockPackage`
  unfoldable pub handle_unblock_package :
      Contributor → String → Option Text → ℕ → Store → Reply (Bool × Store)
  unfolding is_maintainer reason_of noted block_line decision_key
  handle_unblock_package c name reason now st = do
    require (is_maintainer c) 403
    why ← or_refuse (reason_of reason) 400
    pkg ← or_refuse (first (is_named name) st.registrations) 409
    block ← or_refuse pkg.blocked 409
    require (not (str_eq block.by c.login)) 403
    let said : BlockNote = record {
      subject = name;
      lifted = some block;
      by = c.login;
      at = now;
      reason = why;
      packages = [];
      workers = [];
    }
    answer (
        noted (decision_key clock name pkg.request_id now) (clock.document said)
          (block_line Level.ok (
            codes name
            ++ codes " unblocked by "
            ++ codes c.login
            ++ codes ": "
            ++ slice_front 140 why
            ++ codes " (blocked by "
            ++ codes block.by
            ++ codes " since "
            ++ clock.iso block.at
            ++ codes ")"))
          (record st {
            registrations =
                update (is_named name)
                  (λ p. record p {
                    blocked = none;
                    detail = some (
                        codes "block lifted by "
                        ++ codes c.login
                        ++ codes ": "
                        ++ slice_front 200 why
                        ++ codes "; a new build starts it over");
                    updated_at = now;
                  })
                  st.registrations;
          }))
