-- ===== src/Contributors.antt =====
-- What a contributor does with a package and a worker of theirs: handleDeletePackage,
-- handleBuildPackage and handleRevokeWorker of worker/src/routes/contributors.ts. The recipe's
-- reference and the version come from the registration's url, tag and path, as texts.
use omarchy_cli.Base.{
  Bool, List, Option, String, Text, [], codes, delete, exists, false, first, is_some, none, not,
  or_else, some, str_eq, text_eq, true, update, ℕ, ◌&&◌, ◌*◌, ◌++◌, ◌+◌, ◌||◌, ◌∷◌, decimal,
  if◌then◌else◌, length, ltb, select, ◌==◌,
}
use omarchy_cli.Blocks.Contributors.{revoke}
use omarchy_cli.Factory.Complete.Build.{superseded}
use omarchy_cli.Factory.Enqueue.{blank_task, insert_task, parse_arches}
use omarchy_cli.Factory.Journal.{is_named, factory_event, set_stage}
use omarchy_cli.Factory.Reply.{Reply, answer, or_refuse, require, ◌>>=◌, ◌>>◌}
use omarchy_cli.Factory.Rows.{
  Arch, Contributor, Event, Level, Registration, Stage, Store, Task, Trust, Worker,
}
use omarchy_cli.Factory.Tests.{arch_eq, holds_name, is_open}
use omarchy_cli.Review.Decide.{is_maintainer}
use omarchy_cli.Schedule.Due.{day_ms}
use omarchy_cli.Updates.{waits_in_community, arch_names}
use omarchy_cli.Factory.Workers.{coalesce}

-- `QUEUED_QUOTA`
abbrev pub queued_quota : ℕ
queued_quota = 10

abbrev is_decided : Stage → Bool
is_decided Stage.approved = true
is_decided Stage.published = true
is_decided _ = false

-- Who may free the name: its owner while nothing is decided, or a maintainer.
unfoldable pub may_remove : Contributor → Registration → Bool
unfolding is_maintainer
may_remove c p = (str_eq p.owner c.login && not (is_decided p.status)) || is_maintainer c

-- name = ? AND trust = 'community' AND status = 'queued'
unfoldable pub remove_store : Contributor → String → Store → Store
unfolding superseded delete
remove_store c name st = record st {
  tasks =
      update (waits_in_community name)
        (superseded (codes "registration removed by " ++ codes c.login)) st.tasks;
  registrations = delete (is_named name) st.registrations;
}

-- `handleDeletePackage`
unfoldable pub handle_delete_package : Contributor → String → Store → Reply (String × Store)
unfolding may_remove remove_store
handle_delete_package c name st = do
  p ← or_refuse (first (is_named name) st.registrations) 404
  require (may_remove c p) 403
  answer (name, remove_store c name st)

-- owner = ? AND status IN ('queued', 'leased')
abbrev pub waits_for : String → Task → Bool
waits_for login t = holds_name t.owner login && is_open t.status

-- The row of a community build.
unfoldable pub community_task :
    Contributor → String → Text → Option Text → Option Text → ℕ → Arch → ℕ → Task
unfolding blank_task
community_task c name ref reason version now arch id =
    let row = blank_task id name arch ref (or_else reason (codes "contributor")) now in
    record row {
      version = version;
      priority = 100;
      publish = false;
      trust = Trust.community;
      owner = some c.login;
      shared_after = some (now + 14 * day_ms);
    }

abbrev pub same_build : String → Arch → Text → Task → Bool
same_build name arch ref t =
    str_eq t.name name && arch_eq t.arch arch && text_eq t.pkgbuild_ref ref && is_open t.status

-- One architecture: the id of the open build, or of a new one.
unfoldable pub build_arch :
    Contributor → String → Text → Option Text → Option Text → ℕ → Arch → Store → ℕ × Store
unfolding community_task insert_task first
build_arch c name ref reason version now arch st =
    elim (first (same_build name arch ref) st.tasks) [
      | some t ↦ (t.id, st)
      | none ↦ (st.next_task, insert_task (community_task c name ref reason version now arch) st)
    ]

unfoldable pub build_arches :
    Contributor → String → Text → Option Text → Option Text → ℕ → List Arch → Store → List ℕ × Store
unfolding build_arch
build_arches c name ref reason version now [] st = ([], st)
build_arches c name ref reason version now (arch ∷ more) st =
    let (id, made) = build_arch c name ref reason version now arch st in
    let (ids, done) = build_arches c name ref reason version now more made in (id ∷ ids, done)

-- A text that is given and not empty.
abbrev given : Option Text → Option Text
given none = none
given (some []) = none
given (some (c ∷ s)) = some (c ∷ s)

-- `b.release ?? pkg.release ?? detected.latest_tag ?? null`
unfoldable pub tag_of : Option Text → Registration → Option Text
tag_of release p = coalesce release (coalesce p.release p.detected_tag)

-- The recipe: the project's own file at the tag, or a draft.
unfoldable pub ref_of : Registration → Option Text → Text
ref_of p tag = elim (given p.pkgbuild_path) [
  | some path ↦ p.url ++ codes "@" ++ or_else tag (codes "HEAD") ++ codes ":" ++ path
  | none ↦ codes "draft:" ++ p.url ++ codes "@" ++ or_else tag (codes "latest")
]

abbrev without_small_v : Text → Text
without_small_v [] = []
without_small_v (c ∷ s) = if c == b'v' then s else c ∷ s

abbrev dashes_to_lines : Text → Text
dashes_to_lines [] = []
dashes_to_lines (c ∷ s) = (if c == b'-' then b'_' else c) ∷ dashes_to_lines s

-- `tag.replace(/^v/, "").replace(/-/g, "_")`
unfoldable pub version_of : Option Text → Option Text
version_of tag = elim (given tag) [
  | none ↦ none
  | some s ↦ some (dashes_to_lines (without_small_v s))
]

-- What is wanted, of what the registration has.
unfoldable pub wanted_arches : Option (List String) → Registration → List Arch
unfolding parse_arches select exists
wanted_arches wanted p =
    select (λ a. exists (arch_eq a) (parse_arches (some p.arches)))
      (parse_arches (some (or_else wanted p.arches)))

unfoldable pub waiting_store :
    Contributor → String → List Arch → Option Text → List ℕ → ℕ → Store → Store
unfolding set_stage factory_event arch_names
waiting_store c name arches version ids now st = record st {
  registrations =
      set_stage name Stage.waiting
        (codes "waiting for a worker (" ++ arch_names arches ++ codes ")") now st.registrations;
  events =
      factory_event "enqueue" Level.ok (
        codes name
        ++ (elim (given version) [ some v ↦ codes " " ++ v | none ↦ [] ])
        ++ codes ": "
        ++ decimal (length ids)
        ++ codes " community build(s) queued by "
        ++ codes c.login
        ++ codes " for "
        ++ arch_names arches
        ++ codes " — results go to staging")
      ∷ st.events;
}

pub record BuildBody : Type 0 where
  pub arches : Option (List String)
  pub reason : Option Text
  pub release : Option Text

-- `handleBuildPackage`: the ids of the builds.
unfoldable pub handle_build_package :
    Contributor → String → BuildBody → ℕ → Store → Reply (List ℕ × Store)
unfolding select build_arches tag_of ref_of version_of wanted_arches waiting_store
handle_build_package c name b now st = do
  require (not (is_some c.blocked)) 403
  p ← or_refuse (first (λ p. str_eq p.name name && str_eq p.owner c.login) st.registrations) 404
  require (not (is_some p.blocked)) 403
  require (ltb (length (select (waits_for c.login) st.tasks)) queued_quota) 429
  let arches = wanted_arches b.arches p
  let tag = tag_of b.release p
  let (ids, made) = build_arches c name (ref_of p tag) b.reason (version_of tag) now arches st
  answer (ids, waiting_store c name arches (version_of tag) ids now made)

-- id = ? AND revoked_at IS NULL, of the owner's where it is no maintainer who asks.
abbrev pub revokes : Contributor → String → Worker → Bool
revokes c id w =
    str_eq w.id id && not (is_some w.revoked_at) && (is_maintainer c || holds_name w.owner c.login)

unfoldable pub revoke_event : Contributor → String → Event
revoke_event c id = record {
  kind = "trust";
  ring = none;
  source = some "factory";
  status = Level.warn;
  summary = codes "worker " ++ codes id ++ codes " revoked by " ++ codes c.login;
}

-- `handleRevokeWorker`
unfoldable pub handle_revoke_worker : Contributor → String → ℕ → Store → Reply (String × Store)
unfolding revoke revoke_event exists is_maintainer
handle_revoke_worker c id now st = do
  require (exists (revokes c id) st.workers) 404
  answer (
    id,
    record st {
      workers = update (revokes c id) (revoke now) st.workers;
      events = revoke_event c id ∷ st.events;
    },
  )
