-- ===== src/World/Sweeps.antt =====
-- The update check, and blocks with the renders that they ask for, are sound
-- (worker/src/updates.ts, worker/src/routes/blocks.ts).
use omarchy_cli.Base.{
  Bool-cases, List, Option-cases, String, Text, [], arith, exists, first, inl, inr, or_else, refl,
  some, text_eq, ℕ, ◌∷◌, Bool, Option, select, update, ◌/◌, ◌≡◌,
}
use omarchy_cli.Factory.Enqueue.{blank_task, insert_task, parse_arches}
use omarchy_cli.Factory.Rows.{Arch, Registration, Store, Approval, Contributor, Event, Task}
use omarchy_cli.Updates.{
  Latest, approves_name, bump_package, bump_reason, bump_store, bump_task, check_packages,
  insert_bumps, is_pending_bump, mark_all, mark_unmaintained, pkgver_of, waits_in_community,
  without_epoch, without_pkgrel, check_updates, follow, is_watched, stale_names,
}
use omarchy_cli.World.Sound.{
  SoundStep, SoundStep-trans, SoundStep-refl, insert-Sound, superseded-Sound, Sound,
}
use omarchy_cli.Blocks.Contributors.{
  audit_with, block_contributor_store, builds_for, noted, put_record,
}
use omarchy_cli.Blocks.Packages.{
  Town, block_package_store, builds_package, pull_request, pull_ring, pull_rings, render_job,
  render_ring,
}
use omarchy_cli.Factory.Claim.{before}
use omarchy_cli.Factory.Complete.Build.{superseded}
use omarchy_cli.Factory.Reply.{Reply-cases}
use omarchy_cli.Factory.Tests.{holds_number}
use omarchy_cli.Release.Rows.{Ring}
use omarchy_cli.Release.Write.{handle_create_release}
use omarchy_cli.Schedule.Due.{day_ms}
use omarchy_cli.Schedule.Jobs.{checked}
use omarchy_cli.Schedule.Queue.{create_job}
use omarchy_cli.World.Jobs.{create_job-Sound}

mark_all-Sound : (now : ℕ) (names : List String) (st : Store) → SoundStep st (mark_all now names st)
unfolding mark_all mark_unmaintained
mark_all-Sound now [] st = SoundStep-refl st
mark_all-Sound now (name ∷ more) st =
    let next = mark_unmaintained now name st in
    SoundStep-trans st next (mark_all now more next)
      (superseded-Sound (waits_in_community name) _ st.tasks st.next_task st.approvals)
      (mark_all-Sound now more next)

insert_bumps-Sound :
    (p : Registration) (from : ℕ) (tag want : Text) (now : ℕ) (arches : List Arch) (st : Store)
    → SoundStep st (insert_bumps p from tag want now arches st)
unfolding insert_bumps insert_task bump_task blank_task
insert_bumps-Sound p from tag want now [] st = SoundStep-refl st
insert_bumps-Sound p from tag want now (arch ∷ more) st =
    let row = bump_task p from tag want now arch st.next_task in
    let next = insert_task (bump_task p from tag want now arch) st in
    SoundStep-trans st next (insert_bumps p from tag want now more next)
      (insert-Sound row st.tasks st.next_task st.approvals refl (refl, refl, omega arith) refl)
      (insert_bumps-Sound p from tag want now more next)

bump_package-Sound :
    (p : Registration) (tag : Text) (now : ℕ) (st : Store)
    → SoundStep st (bump_package p tag now st)
unfolding bump_package bump_store
bump_package-Sound p tag now st = elim (Option-cases (first (approves_name p.name) st.approvals)) [
  | inl e ↦ rw (e, bump_package) (SoundStep-refl st)
  | inr (a, e) ↦
      let same = text_eq (without_pkgrel (without_epoch (or_else a.version []))) (pkgver_of tag) in
      elim (Bool-cases same) [
        | inl f ↦ rw (e, f, bump_package) (SoundStep-refl st)
        | inr f ↦ elim (Bool-cases (exists (is_pending_bump p.name (bump_reason tag)) st.tasks)) [
          | inl g ↦ rw (e, f, g, bump_package) (SoundStep-refl st)
          | inr g ↦
              let arches = parse_arches (some p.arches) in
              rw (e, f, g, bump_package)
                (insert_bumps-Sound p a.task_id tag (pkgver_of tag) now arches st)
        ]
      ]
]

follow-Sound :
    (p : Registration) (l : Latest) (now : ℕ) (st : Store) → SoundStep st (follow p l now st)
unfolding follow
follow-Sound p Latest.failed now st = SoundStep-refl st
follow-Sound p Latest.nothing now st = SoundStep-refl st
follow-Sound p (Latest.tagged []) now st = SoundStep-refl st
follow-Sound p (Latest.tagged (c ∷ tag)) now st = bump_package-Sound p (c ∷ tag) now st

check_packages-Sound :
    (latest_tag : Text → Latest) (ps : List Registration) (now : ℕ) (st : Store)
    → SoundStep st (check_packages latest_tag ps now st)
unfolding check_packages
check_packages-Sound latest_tag [] now st = SoundStep-refl st
check_packages-Sound latest_tag (p ∷ more) now st =
    let next = follow p (latest_tag p.url) now st in
    SoundStep-trans st next (check_packages latest_tag more now next)
      (follow-Sound p (latest_tag p.url) now st) (check_packages-Sound latest_tag more now next)

pub check_updates-Sound :
    (latest_tag : Text → Latest) (checked : Option ℕ) (now : ℕ) (st : Store)
    → SoundStep st (check_updates latest_tag checked now st).1
unfolding check_updates
check_updates-Sound latest_tag checked now st =
    let marked = mark_all now (stale_names now st.tasks) st in
    let watched = select (is_watched marked.approvals) marked.registrations in
    elim (Bool-cases (holds_number checked (now / day_ms))) [
      | inl e ↦ rw (e, check_updates) (SoundStep-refl st)
      | inr e ↦
          rw (e, check_updates)
            (SoundStep-trans st marked (check_packages latest_tag watched now marked)
              (mark_all-Sound now (stale_names now st.tasks) st)
              (check_packages-Sound latest_tag watched now marked))
    ]

-- Two sweeps that cancel tasks, one after the other.
sweeps-Sound :
    (first_test other_test : Task → Bool) (note why : Text) (ts : List Task) (n : ℕ)
    (xs : List Approval)
    → Sound ts n xs
        (update other_test (superseded why) (update first_test (superseded note) ts))
        n
        xs
sweeps-Sound first_test other_test note why ts n xs =
    let once : List Task = update first_test (superseded note) ts in
    let a = superseded-Sound first_test note ts n xs in
    let b = superseded-Sound other_test why once n xs in
    (λ k r. let (k', r') = a.0 k r in b.0 k' r', (λ P s h. b.1.0 P s (a.1.0 P s h), λ id h. h))

-- A record that is written, or an exception, leaves the queue.
noted-queue :
    (key bytes : Text) (line : Event) (st : Store)
    → ((noted key bytes line st).1.tasks ≡ st.tasks)
      × ((noted key bytes line st).1.next_task ≡ st.next_task)
      × ((noted key bytes line st).1.approvals ≡ st.approvals)
unfolding noted
noted-queue key bytes line st = elim (Option-cases (put_record key bytes st.pool)) [
  | inl e ↦ rw (e, noted) (refl, refl, refl)
  | inr (pool, e) ↦ rw (e, noted) (refl, refl, refl)
]

pub noted-Sound :
    (key bytes : Text) (line : Event) (before st : Store)
    → SoundStep before st
    → SoundStep before (noted key bytes line st).1
noted-Sound key bytes line before st s =
    let (a, b, c) = noted-queue key bytes line st in rw (a, b, c) s

pub block_contributor_store-Sound :
    (c : Contributor) (login : String) (reason : Text) (now : ℕ) (st : Store)
    → SoundStep st (block_contributor_store c login reason now st)
unfolding block_contributor_store
block_contributor_store-Sound c login reason now st =
    sweeps-Sound (builds_for login) (audit_with "owner" login) _ _ st.tasks st.next_task
      st.approvals

pub render_ring-Sound :
    (reason : Text) (ring : Ring) (now : ℕ) (st : Store)
    → SoundStep st (render_ring reason ring now st)
unfolding render_ring
render_ring-Sound reason ring now st =
    let next = (create_job (render_job ring Arch.x86_64) reason now st).1 in
    SoundStep-trans st next (create_job (render_job ring Arch.aarch64) reason now next).1
      (create_job-Sound (render_job ring Arch.x86_64) reason now st refl)
      (create_job-Sound (render_job ring Arch.aarch64) reason now next refl)

pull_ring-Sound :
    (name : String) (note : Text) (now : ℕ) (ring : Ring) (town : Town)
    → SoundStep town.factory (pull_ring name note now ring town).factory
unfolding pull_ring
pull_ring-Sound name note now ring town =
    elim (Reply-cases (handle_create_release (pull_request name note ring) town.releases)) [
      | inr (n, e) ↦ rw (e, pull_ring) (SoundStep-refl town.factory)
      | inl ((made, releases), e) ↦ rw (e, pull_ring) (render_ring-Sound _ ring now town.factory)
    ]

pub pull_rings-Sound :
    (name : String) (note : Text) (now : ℕ) (rings : List Ring) (town : Town)
    → SoundStep town.factory (pull_rings name note now rings town).factory
unfolding pull_rings
pull_rings-Sound name note now [] town = SoundStep-refl town.factory
pull_rings-Sound name note now (ring ∷ more) town =
    let next = pull_ring name note now ring town in
    SoundStep-trans town.factory next.factory (pull_rings name note now more next).factory
      (pull_ring-Sound name note now ring town) (pull_rings-Sound name note now more next)

pub block_package_store-Sound :
    (c : Contributor) (name : String) (reason note : Text) (now : ℕ) (st : Store)
    → SoundStep st (block_package_store c name reason note now st)
unfolding block_package_store
block_package_store-Sound c name reason note now st =
    sweeps-Sound (builds_package name) (audit_with "name" name) note _ st.tasks st.next_task
      st.approvals
