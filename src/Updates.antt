-- ===== src/Updates.antt =====
-- New upstream releases of approved packages: pkgverOf and checkUpdates of
-- worker/src/updates.ts. What GitHub answers (latestTag) is an argument: an exception, no release,
-- or a tag; the date of a time and its text are the runtime's.
pub mod Bumps
use omarchy_cli.Base.{
  Bool, List, Option, String, Text, [], codes, decimal, exists, false, first, if◌then◌else◌,
  is_some, leb, like_prefix, ltb, map, none, not, or_else, select, some, str_eq, text_eq, true,
  update, ℕ, ◌&&◌, ◌*◌, ◌++◌, ◌+◌, ◌/◌, ◌==◌, ◌||◌, ◌∷◌,
}
use omarchy_cli.Factory.Rows.{Approval, Arch, Event, Level, Registration, Stage, Store, Task, Trust}
use omarchy_cli.Schedule.Due.{day_ms}
use omarchy_cli.Factory.Complete.Build.{superseded}
use omarchy_cli.Factory.Enqueue.{blank_task, insert_task, is_empty, parse_arches}
use omarchy_cli.Factory.Journal.{arch_text, set_stage}
use omarchy_cli.Factory.Tests.{holds_number, is_project, is_queued}
use omarchy_cli.Governance.{distinct_names}
use omarchy_cli.Review.Approve.{is_approved}
use omarchy_cli.Review.Decide.{file_name, is_live}
use omarchy_cli.Schedule.Jobs.{checked}

abbrev pub shared_after_days : ℕ
shared_after_days = 14

abbrev pub unmaintained_after_days : ℕ
unmaintained_after_days = 30

-- What follows the last slash.
unfoldable pub after_slash : Text → Text
unfolding file_name
after_slash tag = file_name tag

-- `.replace(/^[vV]/, "")`
unfoldable pub without_v : Text → Text
without_v [] = []
without_v (c ∷ s) = if c == b'v' || c == b'V' then s else c ∷ s

-- [A-Za-z0-9.+_:~]
abbrev pub is_pkgver_char : ℕ → Bool
is_pkgver_char c =
    (leb b'A' c && leb c b'Z')
    || (leb b'a' c && leb c b'z')
    || (leb b'0' c && leb c b'9')
    || c == b'.'
    || c == b'+'
    || c == b'_'
    || c == b':'
    || c == b'~'

unfoldable pub dashes_to_dots : Text → Text
dashes_to_dots [] = []
dashes_to_dots (c ∷ s) = (if c == b'-' then b'.' else c) ∷ dashes_to_dots s

-- `pkgverOf`
unfoldable pub pkgver_of : Text → Text
unfolding after_slash without_v dashes_to_dots select
pkgver_of tag = select is_pkgver_char (dashes_to_dots (without_v (after_slash tag)))

abbrev is_digit : ℕ → Bool
is_digit c = leb b'0' c && leb c b'9'

-- Behind digits, one or more of them (`seen`) and a colon: the rest; otherwise nothing.
behind_colon : Bool → Text → Option Text
behind_colon seen [] = none
behind_colon seen (c ∷ s) =
    let rest = behind_colon true s in
    if is_digit c then rest else if seen && c == b':' then some s else none

-- `.replace(/^\d+:/, "")`
unfoldable pub without_epoch : Text → Text
unfolding behind_colon
without_epoch s = or_else (behind_colon false s) s

all_digits : Text → Bool
all_digits [] = true
all_digits (c ∷ s) = is_digit c && all_digits s

-- `.replace(/-\d+$/, "")`
unfoldable pub without_pkgrel : Text → Text
unfolding all_digits
without_pkgrel [] = []
without_pkgrel (c ∷ s) =
    let rest = without_pkgrel s in
    if c == b'-' && not (is_empty s) && all_digits s then [] else c ∷ rest

-- A bump that waits in the queue since thirty days.
abbrev pub is_stale : ℕ → Task → Bool
is_stale now t =
    is_queued t.status
    && not (is_project t.trust)
    && like_prefix (codes "bump to ") t.reason
    && ltb (t.created_at + unmaintained_after_days * day_ms) now

-- SELECT DISTINCT name
unfoldable pub stale_names : ℕ → List Task → List String
unfolding distinct_names select
stale_names now tasks = distinct_names (map (λ t. t.name) (select (is_stale now) tasks))

abbrev pub waits_in_community : String → Task → Bool
waits_in_community name t = str_eq t.name name && is_queued t.status && not (is_project t.trust)

unfoldable pub bump_event : Level → Text → Event
bump_event status summary = record {
  kind = "bump";
  ring = none;
  source = some "factory";
  status = status;
  summary = summary;
}

-- A package of which nobody built the bump: its queue is cancelled, and it is unmaintained.
unfoldable pub mark_unmaintained : ℕ → String → Store → Store
unfolding superseded set_stage bump_event
mark_unmaintained now name st =
    let days = decimal unmaintained_after_days in
    record st {
      tasks =
          update (waits_in_community name)
            (superseded (
              codes "no worker built this bump in "
              ++ days
              ++ codes " days; the package is unmaintained"))
            st.tasks;
      registrations =
          set_stage name Stage.unmaintained
            (codes "no worker built the last bump in "
              ++ days
              ++ codes
                  " days; bumps stop until the owner builds again or a maintainer removes the registration")
            now st.registrations;
      events =
          bump_event Level.warn (
            codes name
            ++ codes " is unmaintained: no worker built its bump in "
            ++ days
            ++ codes " days")
          ∷ st.events;
    }

unfoldable pub mark_all : ℕ → List String → Store → Store
unfolding mark_unmaintained
mark_all now [] st = st
mark_all now (name ∷ more) st = mark_all now more (mark_unmaintained now name st)

abbrev is_unmaintained : Stage → Bool
is_unmaintained Stage.unmaintained = true
is_unmaintained _ = false

abbrev pub approves_name : String → Approval → Bool
approves_name name a = str_eq a.name name && is_approved a.decision

-- The packages that are looked at.
abbrev pub is_watched : List Approval → Registration → Bool
is_watched approvals p =
    not (is_unmaintained p.status)
    && not (is_some p.blocked)
    && like_prefix (codes "https://github.com/") p.url
    && exists (approves_name p.name) approvals

-- status IN ('queued', 'leased', 'staged') with this reason
abbrev pub is_pending_bump : String → Text → Task → Bool
is_pending_bump name reason t = str_eq t.name name && text_eq t.reason reason && is_live t.status

unfoldable pub bump_reason : Text → Text
bump_reason tag = codes "bump to " ++ tag

-- The row of a bump for one architecture.
unfoldable pub bump_task : Registration → ℕ → Text → Text → ℕ → Arch → ℕ → Task
unfolding blank_task bump_reason
bump_task p from tag want now arch id =
    let row =
      blank_task id p.name arch (codes "bump:" ++ decimal from ++ codes "@" ++ tag)
        (bump_reason tag) now in
    record row {
      version = some (want ++ codes "-1");
      priority = 100;
      publish = false;
      trust = Trust.community;
      owner = some p.owner;
      shared_after = some (now + shared_after_days * day_ms);
    }

unfoldable pub insert_bumps : Registration → ℕ → Text → Text → ℕ → List Arch → Store → Store
unfolding bump_task insert_task
insert_bumps p from tag want now [] st = st
insert_bumps p from tag want now (arch ∷ more) st =
    insert_bumps p from tag want now more (insert_task (bump_task p from tag want now arch) st)

unfoldable pub arch_names : List Arch → Text
arch_names [] = []
arch_names (a ∷ []) = arch_text a
arch_names (a ∷ b ∷ more) = arch_text a ++ codes ", " ++ arch_names (b ∷ more)

unfoldable pub bump_store : Registration → Approval → Text → ℕ → Store → Store
unfolding insert_bumps set_stage bump_event pkgver_of parse_arches arch_names
bump_store p approved tag now st =
    let arches = parse_arches (some p.arches) in
    let made = insert_bumps p approved.task_id tag (pkgver_of tag) now arches st in
    record made {
      registrations =
          set_stage p.name Stage.waiting
            (tag
              ++ codes " released upstream; a build is queued for "
              ++ codes p.owner
              ++ codes "'s worker (anyone's after "
              ++ decimal shared_after_days
              ++ codes " days)")
            now made.registrations;
      events =
          bump_event Level.ok (
            codes p.name
            ++ codes ": upstream "
            ++ tag
            ++ codes " (approved "
            ++ or_else approved.version (codes "?")
            ++ codes "); build queued for "
            ++ codes p.owner
            ++ codes "'s worker on "
            ++ arch_names arches)
          ∷ made.events;
    }

-- What GitHub answers about a package's releases.
pub data Latest : Type 0 where
  failed : Latest
  nothing : Latest
  tagged : Text → Latest

-- A package whose latest release is known: bumped where it is not what was approved last, and no
-- build of it is on its way. Approvals are newest first.
unfoldable pub bump_package : Registration → Text → ℕ → Store → Store
unfolding bump_store first without_epoch without_pkgrel pkgver_of bump_reason exists
bump_package p tag now st = elim (first (approves_name p.name) st.approvals) [
  | none ↦ st
  | some approved ↦
      if text_eq (without_pkgrel (without_epoch (or_else approved.version []))) (pkgver_of tag)
      then st
      else if exists (is_pending_bump p.name (bump_reason tag)) st.tasks
      then st
      else bump_store p approved tag now st
]

-- What GitHub answers, followed.
unfoldable pub follow : Registration → Latest → ℕ → Store → Store
unfolding bump_package
follow p Latest.failed now st = st
follow p Latest.nothing now st = st
follow p (Latest.tagged []) now st = st
follow p (Latest.tagged (c ∷ tag)) now st = bump_package p (c ∷ tag) now st

module _ (latest_tag : Text → Latest) where
  unfoldable pub check_packages : List Registration → ℕ → Store → Store
  unfolding follow
  check_packages [] now st = st
  check_packages (p ∷ more) now st = check_packages more now (follow p (latest_tag p.url) now st)

  -- `checkUpdates`, with the day that was checked last: once a day.
  unfoldable pub check_updates : Option ℕ → ℕ → Store → ℕ × Store
  unfolding mark_all stale_names check_packages select
  check_updates checked now st =
      let day = now / day_ms in
      let marked = mark_all now (stale_names now st.tasks) st in
      let bumped =
        check_packages (select (is_watched marked.approvals) marked.registrations) now marked in
      if holds_number checked day then (day, st) else (day, bumped)
