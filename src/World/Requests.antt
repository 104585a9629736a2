-- ===== src/World/Requests.antt =====
-- A contributor's requests are sound (worker/src/routes/contributors.ts).
use omarchy_cli.Base.{
  List, Option, Option-cases, String, Text, [], arith, exists, first, inl, inr, is_some, length,
  ltb, not, refl, select, str_eq, ℕ, ◌&&◌, ◌∷◌,
}
use omarchy_cli.Contributors.{
  BuildBody, build_arch, build_arches, community_task, handle_build_package, handle_delete_package,
  handle_revoke_worker, may_remove, queued_quota, ref_of, remove_store, revokes, same_build, tag_of,
  version_of, waiting_store, waits_for, wanted_arches,
}
use omarchy_cli.Factory.Chains.{or_refuse-after, require-after}
use omarchy_cli.Factory.Enqueue.{blank_task, insert_task}
use omarchy_cli.Factory.Journal.{is_named}
use omarchy_cli.Factory.Reply.{after}
use omarchy_cli.Factory.Rows.{Arch, Contributor, Store}
use omarchy_cli.Updates.{waits_in_community}
use omarchy_cli.World.Sound.{
  SoundStep, SoundStep-refl, SoundStep-trans, insert-Sound, superseded-Sound,
}

pub handle_delete_package-Sound :
    (c : Contributor) (name : String) (st : Store)
    → SoundStep st (after st (handle_delete_package c name st))
unfolding handle_delete_package remove_store
handle_delete_package-Sound c name st =
    let same = SoundStep-refl st in
    or_refuse-after (SoundStep st) st (first (is_named name) st.registrations) 404 _ same (λ p.
      require-after (SoundStep st) st (may_remove c p) 403 _ same
        (superseded-Sound (waits_in_community name) _ st.tasks st.next_task st.approvals))

pub handle_revoke_worker-Sound :
    (c : Contributor) (id : String) (now : ℕ) (st : Store)
    → SoundStep st (after st (handle_revoke_worker c id now st))
unfolding handle_revoke_worker
handle_revoke_worker-Sound c id now st =
    require-after (SoundStep st) st (exists (revokes c id) st.workers) 404 _ (SoundStep-refl st)
      (SoundStep-refl st)

build_arch-Sound :
    (c : Contributor) (name : String) (ref : Text) (reason version : Option Text) (now : ℕ)
    (arch : Arch) (st : Store)
    → SoundStep st (build_arch c name ref reason version now arch st).1
unfolding build_arch community_task insert_task blank_task
build_arch-Sound c name ref reason version now arch st =
    elim (Option-cases (first (same_build name arch ref) st.tasks)) [
      | inr (t, e) ↦ rw (e, build_arch) (SoundStep-refl st)
      | inl e ↦
          rw (e, build_arch)
            (insert-Sound (community_task c name ref reason version now arch st.next_task) st.tasks
              st.next_task st.approvals refl (refl, refl, omega arith) refl)
    ]

build_arches-Sound :
    (c : Contributor) (name : String) (ref : Text) (reason version : Option Text) (now : ℕ)
    (arches : List Arch) (st : Store)
    → SoundStep st (build_arches c name ref reason version now arches st).1
unfolding build_arches
build_arches-Sound c name ref reason version now [] st = SoundStep-refl st
build_arches-Sound c name ref reason version now (arch ∷ more) st =
    let next = (build_arch c name ref reason version now arch st).1 in
    SoundStep-trans st next (build_arches c name ref reason version now more next).1
      (build_arch-Sound c name ref reason version now arch st)
      (build_arches-Sound c name ref reason version now more next)

pub handle_build_package-Sound :
    (c : Contributor) (name : String) (b : BuildBody) (now : ℕ) (st : Store)
    → SoundStep st (after st (handle_build_package c name b now st))
unfolding handle_build_package waiting_store
handle_build_package-Sound c name b now st =
    let same = SoundStep-refl st in
    require-after (SoundStep st) st (not (is_some c.blocked)) 403 _ same (
      or_refuse-after (SoundStep st) st
        (first (λ p. str_eq p.name name && str_eq p.owner c.login) st.registrations) 404 _ same
        (λ p. require-after (SoundStep st) st (not (is_some p.blocked)) 403 _ same (
          require-after (SoundStep st) st
            (ltb (length (select (waits_for c.login) st.tasks)) queued_quota) 429 _ same
            (build_arches-Sound c name (ref_of p (tag_of b.release p)) b.reason
              (version_of (tag_of b.release p)) now (wanted_arches b.arches p) st))))
