-- ===== src/World/Blocked.antt =====
-- A block of a contributor or of a package, and its lifting, are sound
-- (worker/src/routes/blocks.ts).
use omarchy_cli.Base.{
  Option, String, Text, codes, first, is_some, not, slice_front, str_eq, ℕ, ◌++◌,
}
use omarchy_cli.Blocks.Contributors.{
  Clock, block_contributor_store, handle_block_contributor, handle_unblock_contributor, is_login,
  reason_of,
}
use omarchy_cli.Blocks.Packages.{
  Town, block_package_store, handle_block_package, handle_unblock_package, pull_from_rings,
  pull_rings, serving_rings,
}
use omarchy_cli.Factory.Journal.{is_named}
use omarchy_cli.Factory.Reply.{after}
use omarchy_cli.Factory.Rows.{Contributor, Store}
use omarchy_cli.Review.Decide.{is_maintainer}
use omarchy_cli.Factory.Chains.{or_refuse-after, require-after}
use omarchy_cli.World.Sound.{SoundStep, SoundStep-trans, SoundStep-refl}
use omarchy_cli.World.Sweeps.{
  block_contributor_store-Sound, block_package_store-Sound, noted-Sound, pull_rings-Sound,
}

module _ (clock : Clock) (c : Contributor) (name : String) (reason : Option Text) (now : ℕ) where
  pub handle_block_contributor-Sound :
      (st : Store) → SoundStep st (after st (handle_block_contributor clock c name reason now st))
  unfolding handle_block_contributor
  handle_block_contributor-Sound st =
      let same = SoundStep-refl st in
      require-after (SoundStep st) st (is_maintainer c) 403 _ same (
        or_refuse-after (SoundStep st) st (reason_of reason) 400 _ same (λ why.
          require-after (SoundStep st) st (not (str_eq name c.login)) 400 _ same (
            or_refuse-after (SoundStep st) st (first (is_login name) st.contributors) 404 _ same
              (λ who. require-after (SoundStep st) st (not (is_maintainer who)) 409 _ same (
                require-after (SoundStep st) st (not (is_some who.blocked)) 409 _ same (
                  noted-Sound _ _ _ st (block_contributor_store c name why now st)
                    (block_contributor_store-Sound c name why now st)))))))

  pub handle_unblock_contributor-Sound :
      (st : Store) → SoundStep st (after st (handle_unblock_contributor clock c name reason now st))
  unfolding handle_unblock_contributor
  handle_unblock_contributor-Sound st =
      let same = SoundStep-refl st in
      require-after (SoundStep st) st (is_maintainer c) 403 _ same (
        or_refuse-after (SoundStep st) st (reason_of reason) 400 _ same (λ why.
          or_refuse-after (SoundStep st) st (first (is_login name) st.contributors) 409 _ same
            (λ who. or_refuse-after (SoundStep st) st who.blocked 409 _ same (λ block.
              require-after (SoundStep st) st (not (str_eq block.by c.login)) 403 _ same
                (noted-Sound _ _ _ st _ same)))))

  pub handle_unblock_package-Sound :
      (st : Store) → SoundStep st (after st (handle_unblock_package clock c name reason now st))
  unfolding handle_unblock_package
  handle_unblock_package-Sound st =
      let same = SoundStep-refl st in
      require-after (SoundStep st) st (is_maintainer c) 403 _ same (
        or_refuse-after (SoundStep st) st (reason_of reason) 400 _ same (λ why.
          or_refuse-after (SoundStep st) st (first (is_named name) st.registrations) 409 _ same
            (λ pkg. or_refuse-after (SoundStep st) st pkg.blocked 409 _ same (λ block.
              require-after (SoundStep st) st (not (str_eq block.by c.login)) 403 _ same
                (noted-Sound _ _ _ st _ same)))))

  pub handle_block_package-Sound :
      (town : Town)
      → SoundStep town.factory
          (after town (handle_block_package clock c name reason now town)).factory
  unfolding handle_block_package pull_from_rings
  handle_block_package-Sound town =
      let P : Town → Type 1 = λ t. SoundStep town.factory t.factory in
      let same = SoundStep-refl town.factory in
      let rings = serving_rings name town.releases in
      require-after P town (is_maintainer c) 403 _ same (
        or_refuse-after P town (reason_of reason) 400 _ same (λ why.
          or_refuse-after P town (first (is_named name) town.factory.registrations) 404 _ same
            (λ pkg. require-after P town (not (is_some pkg.blocked)) 409 _ same (
              let note =
                codes "blocked by " ++ codes c.login ++ codes ": " ++ slice_front 200 why in
              let pulled = pull_rings name note now rings town in
              let blocked = block_package_store c name why note now pulled.factory in
              noted-Sound _ _ _ town.factory blocked (
                SoundStep-trans town.factory pulled.factory blocked
                  (pull_rings-Sound name note now rings town)
                  (block_package_store-Sound c name why note now pulled.factory))))))
