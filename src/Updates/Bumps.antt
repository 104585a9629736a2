-- ===== src/Updates/Bumps.antt =====
-- What the update check touches, and that it asks once: worker/src/updates.ts.
use omarchy_cli.Base.{
  Bool, Bool-cases, List, Option, Option-cases, String, Text, [], arith, exists, false, first, inl,
  inr, or_else, refl, select, some, text_eq, true, update, ℕ, ◌/◌, ◌∙◌, ◌∷◌, ◌≡◌, eq_refl,
  text_eq_refl, ap, none, subst, sym,
}
use omarchy_cli.Factory.Complete.Build.{superseded}
use omarchy_cli.Factory.Enqueue.{blank_task, insert_task, parse_arches, is_empty}
use omarchy_cli.Factory.Rows.{Arch, Registration, Store, Task, Approval}
use omarchy_cli.Factory.Tests.{holds_number, is_project}
use omarchy_cli.Schedule.Due.{day_ms}
use omarchy_cli.Schedule.Jobs.{checked}
use omarchy_cli.Updates.{
  Latest, approves_name, bump_package, bump_reason, bump_store, bump_task, check_packages,
  check_updates, follow, insert_bumps, is_pending_bump, is_watched, mark_all, mark_unmaintained,
  pkgver_of, stale_names, waits_in_community, without_epoch, without_pkgrel,
}

abbrev pub is_projects : Task → Bool
is_projects t = is_project t.trust

-- Rows outside a selection are changed, and stay outside.
select-update {ℓ} :
    {A : Type ℓ}
    → (chosen test : A → Bool) (change : A → A) (xs : List A)
    → ((x : A) → test x ≡ true → (chosen x ≡ false) × (chosen (change x) ≡ false))
    → select chosen (update test change xs) ≡ select chosen xs
unfolding select update
select-update chosen test change [] h = refl
select-update chosen test change (x ∷ xs) h =
    let rest = select-update chosen test change xs h in
    elim (Bool-cases (test x)) [
      | inl e ↦ let (a, b) = h x e in rw e (rw (a, b) rest)
      | inr e ↦ rw e (rw rest refl)
    ]

mark_all-projects :
    (now : ℕ) (names : List String) (st : Store)
    → select is_projects (mark_all now names st).tasks ≡ select is_projects st.tasks
unfolding mark_all mark_unmaintained superseded
mark_all-projects now [] st = refl
mark_all-projects now (name ∷ more) st =
    mark_all-projects now more (mark_unmaintained now name st)
    ∙ select-update is_projects (waits_in_community name) _ st.tasks
        (λ t e. (ground arith, ground arith))

insert_bumps-projects :
    (p : Registration) (from : ℕ) (tag want : Text) (now : ℕ) (arches : List Arch) (st : Store)
    → select is_projects (insert_bumps p from tag want now arches st).tasks
      ≡ select is_projects st.tasks
unfolding insert_bumps insert_task bump_task blank_task select
insert_bumps-projects p from tag want now [] st = refl
insert_bumps-projects p from tag want now (arch ∷ more) st =
    insert_bumps-projects p from tag want now more
      (insert_task (bump_task p from tag want now arch) st)

bump_package-projects :
    (p : Registration) (tag : Text) (now : ℕ) (st : Store)
    → select is_projects (bump_package p tag now st).tasks ≡ select is_projects st.tasks
unfolding bump_package bump_store
bump_package-projects p tag now st =
    elim (Option-cases (first (approves_name p.name) st.approvals)) [
      | inl e ↦ rw (e, bump_package) refl
      | inr (a, e) ↦
          let same =
            text_eq (without_pkgrel (without_epoch (or_else a.version []))) (pkgver_of tag) in
          elim (Bool-cases same) [
            | inl f ↦ rw (e, f, bump_package) refl
            | inr f ↦
                elim (Bool-cases (exists (is_pending_bump p.name (bump_reason tag)) st.tasks)) [
                  | inl g ↦ rw (e, f, g, bump_package) refl
                  | inr g ↦
                      rw (e, f, g, bump_package)
                        (insert_bumps-projects p a.task_id tag (pkgver_of tag) now
                          (parse_arches (some p.arches)) st)
                ]
          ]
    ]

follow-projects :
    (p : Registration) (l : Latest) (now : ℕ) (st : Store)
    → select is_projects (follow p l now st).tasks ≡ select is_projects st.tasks
unfolding follow
follow-projects p Latest.failed now st = refl
follow-projects p Latest.nothing now st = refl
follow-projects p (Latest.tagged []) now st = refl
follow-projects p (Latest.tagged (c ∷ tag)) now st = bump_package-projects p (c ∷ tag) now st

check_packages-projects :
    (latest_tag : Text → Latest) (ps : List Registration) (now : ℕ) (st : Store)
    → select is_projects (check_packages latest_tag ps now st).tasks ≡ select is_projects st.tasks
unfolding check_packages
check_packages-projects latest_tag [] now st = refl
check_packages-projects latest_tag (p ∷ more) now st =
    check_packages-projects latest_tag more now (follow p (latest_tag p.url) now st)
    ∙ follow-projects p (latest_tag p.url) now st

-- Whatever GitHub answers, the update check leaves the project's tasks, builds and pool jobs, as
-- they are and in their order: it queues and cancels contributors' builds only.
pub check_updates-projects :
    (latest_tag : Text → Latest) (checked : Option ℕ) (now : ℕ) (st : Store)
    → select is_projects (check_updates latest_tag checked now st).1.tasks
      ≡ select is_projects st.tasks
unfolding check_updates
check_updates-projects latest_tag checked now st =
    let marked = mark_all now (stale_names now st.tasks) st in
    let watched = select (is_watched marked.approvals) marked.registrations in
    elim (Bool-cases (holds_number checked (now / day_ms))) [
      | inl e ↦ rw (e, check_updates) refl
      | inr e ↦
          rw (e, check_updates)
            (check_packages-projects latest_tag watched now marked
              ∙ mark_all-projects now (stale_names now st.tasks) st)
    ]

insert_bumps-keeps :
    (p : Registration) (from : ℕ) (tag want : Text) (now : ℕ) (arches : List Arch) (st : Store)
    (test : Task → Bool)
    → exists test st.tasks ≡ true
    → exists test (insert_bumps p from tag want now arches st).tasks ≡ true
unfolding insert_bumps insert_task exists
insert_bumps-keeps p from tag want now [] st test h = h
insert_bumps-keeps p from tag want now (arch ∷ more) st test h =
    insert_bumps-keeps p from tag want now more
      (insert_task (bump_task p from tag want now arch) st) test (ground arith)

insert_bumps-pending :
    (p : Registration) (from : ℕ) (tag want : Text) (now : ℕ) (arches : List Arch) (st : Store)
    → is_empty arches ≡ false
    → exists
        (is_pending_bump p.name (bump_reason tag))
        (insert_bumps p from tag want now arches st).tasks
      ≡ true
unfolding insert_bumps insert_task bump_task blank_task exists
insert_bumps-pending p from tag want now [] st e = cc
insert_bumps-pending p from tag want now (arch ∷ more) st e =
    insert_bumps-keeps p from tag want now more
      (insert_task (bump_task p from tag want now arch) st)
      (is_pending_bump p.name (bump_reason tag))
      (rw (eq_refl p.name, text_eq_refl (bump_reason tag)) refl)

insert_bumps-approvals :
    (p : Registration) (from : ℕ) (tag want : Text) (now : ℕ) (arches : List Arch) (st : Store)
    → (insert_bumps p from tag want now arches st).approvals ≡ st.approvals
unfolding insert_bumps insert_task
insert_bumps-approvals p from tag want now [] st = refl
insert_bumps-approvals p from tag want now (arch ∷ more) st =
    insert_bumps-approvals p from tag want now more
      (insert_task (bump_task p from tag want now arch) st)

-- Nothing is done about a package without an approval, at the approved version, or on its way.
bump_package-none :
    (p : Registration) (tag : Text) (now : ℕ) (st : Store)
    → first (approves_name p.name) st.approvals ≡ none
    → bump_package p tag now st ≡ st
unfolding bump_package
bump_package-none p tag now st e = rw (e, bump_package) refl

bump_package-current :
    (p : Registration) (tag : Text) (now : ℕ) (st : Store) (a : Approval)
    → first (approves_name p.name) st.approvals ≡ some a
    → text_eq (without_pkgrel (without_epoch (or_else a.version []))) (pkgver_of tag) ≡ true
    → bump_package p tag now st ≡ st
unfolding bump_package
bump_package-current p tag now st a e f = rw (e, f, bump_package) refl

bump_package-pending :
    (p : Registration) (tag : Text) (now : ℕ) (st : Store) (a : Approval)
    → first (approves_name p.name) st.approvals ≡ some a
    → text_eq (without_pkgrel (without_epoch (or_else a.version []))) (pkgver_of tag) ≡ false
    → exists (is_pending_bump p.name (bump_reason tag)) st.tasks ≡ true
    → bump_package p tag now st ≡ st
unfolding bump_package
bump_package-pending p tag now st a e f g = rw (e, f, g, bump_package) refl

bump_package-made :
    (p : Registration) (tag : Text) (now : ℕ) (st : Store) (a : Approval)
    → first (approves_name p.name) st.approvals ≡ some a
    → text_eq (without_pkgrel (without_epoch (or_else a.version []))) (pkgver_of tag) ≡ false
    → exists (is_pending_bump p.name (bump_reason tag)) st.tasks ≡ false
    → bump_package p tag now st ≡ bump_store p a tag now st
unfolding bump_package
bump_package-made p tag now st a e f g = rw (e, f, g, bump_package) refl

-- What is idle at one time is so at another.
idle_again :
    (p : Registration) (tag : Text) (now later : ℕ) (st : Store)
    → ((t : ℕ) → bump_package p tag t st ≡ st)
    → bump_package p tag later (bump_package p tag now st) ≡ bump_package p tag now st
idle_again p tag now later st h = ap (bump_package p tag later) (h now) ∙ h later ∙ sym (h now)

bumped_again :
    (p : Registration) (tag : Text) (now later : ℕ) (st : Store) (a : Approval)
    → is_empty (parse_arches (some p.arches)) ≡ false
    → first (approves_name p.name) st.approvals ≡ some a
    → text_eq (without_pkgrel (without_epoch (or_else a.version []))) (pkgver_of tag) ≡ false
    → bump_package p tag later (bump_store p a tag now st) ≡ bump_store p a tag now st
unfolding bump_store
bumped_again p tag now later st a arches e f =
    let list = parse_arches (some p.arches) in
    let want = pkgver_of tag in
    bump_package-pending p tag later (bump_store p a tag now st) a
      (ap (first (approves_name p.name)) (insert_bumps-approvals p a.task_id tag want now list st)
        ∙ e)
      f (insert_bumps-pending p a.task_id tag want now list st arches)

-- A tag is followed once: right behind a check that followed it, or that had no reason to, the
-- next one leaves the store as it is, for a package with an architecture that the pool has.
pub bump_package-again :
    (p : Registration) (tag : Text) (now later : ℕ) (st : Store)
    → is_empty (parse_arches (some p.arches)) ≡ false
    → bump_package p tag later (bump_package p tag now st) ≡ bump_package p tag now st
bump_package-again p tag now later st arches =
    elim (Option-cases (first (approves_name p.name) st.approvals)) [
      | inl e ↦ idle_again p tag now later st (λ t. bump_package-none p tag t st e)
      | inr (a, e) ↦
          let same =
            text_eq (without_pkgrel (without_epoch (or_else a.version []))) (pkgver_of tag) in
          elim (Bool-cases same) [
            | inl f ↦ idle_again p tag now later st (λ t. bump_package-current p tag t st a e f)
            | inr f ↦
                elim (Bool-cases (exists (is_pending_bump p.name (bump_reason tag)) st.tasks)) [
                  | inl g ↦
                      idle_again p tag now later st (λ t. bump_package-pending p tag t st a e f g)
                  | inr g ↦
                      subst (λ s. bump_package p tag later s ≡ s)
                        (sym (bump_package-made p tag now st a e f g))
                        (bumped_again p tag now later st a arches e f)
                ]
          ]
    ]
