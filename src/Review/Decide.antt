-- ===== src/Review/Decide.antt =====
-- The decisions on a staged build: handleProjectBuild, handleApprove and handleReject of
-- worker/src/routes/review.ts.
use omarchy_cli.Base.{
  Bool, List, Option, String, Text, [], codes, decimal, exists, false, first, if◌then◌else◌, none,
  not, or_else, shown, some, true, update, ℕ, ◌&&◌, ◌++◌, ◌==◌, ◌∷◌, length, like_prefix,
}
use omarchy_cli.Factory.Rows.{
  Contributor, Event, Kind, Level, Params, Registration, Role, StagingObject, Status, Store, Task,
  Value, param,
}
use omarchy_cli.Factory.Tests.{has_id, holds_name, is_project, is_staged, kind_eq, is_open}
use omarchy_cli.Factory.Reply.{Reply, answer, or_refuse, require, ◌>>=◌, ◌>>◌}
use omarchy_cli.Factory.Complete.Build.{audits, superseded}
use omarchy_cli.Factory.Enqueue.{blank_task, insert_task}
use omarchy_cli.Factory.Journal.{arch_text, is_named, set_detail}
use omarchy_cli.Factory.Workers.{coalesce}

-- `isMaintainer` of worker/src/routes/contributors.ts, and `canReview`.
unfoldable pub is_maintainer : Contributor → Bool
is_maintainer c = elim c.role [ Role.maintainer ↦ true | Role.contributor ↦ false ]

-- `ownerOf`: who registered the package, or else the task's owner.
unfoldable pub owner_of : String → Option String → List Registration → Option String
owner_of name fallback regs = elim (first (is_named name) regs) [
  | some p ↦ some p.owner
  | none ↦ fallback
]

-- json_extract(params, '$.review') = ?
abbrev pub reviews : ℕ → Task → Bool
reviews id u = elim (param "review" (or_else u.params [])) [
  | some v ↦ elim v [ Value.num n ↦ n == id | _ ↦ false ]
  | none ↦ false
]

-- status IN ('queued', 'leased', 'staged')
abbrev pub is_live : Status → Bool
is_live Status.staged = true
is_live s = is_open s

-- The project's build of a contributor's one, on its way.
abbrev pub in_flight : ℕ → Task → Bool
in_flight id u = kind_eq u.kind Kind.build && is_project u.trust && reviews id u && is_live u.status

unfoldable pub text_value : Option Text → Value
text_value none = Value.null
text_value (some s) = Value.prose s

unfoldable pub name_value : Option String → Value
name_value none = Value.null
name_value (some s) = Value.str s

unfoldable pub number_value : Option ℕ → Value
number_value none = Value.null
number_value (some n) = Value.num n

-- A column of the registration, where there is one.
unfoldable pub of_registration {ℓ} :
    {A : Type ℓ} → (Registration → Option A) → Option Registration → Option A
of_registration column none = none
of_registration column (some p) = column p

-- The parameters of the project's build: what was asked for, and the contributor's build.
unfoldable pub review_params :
    Contributor → Task → Option String → Option Text → Option Registration → Params
unfolding text_value name_value number_value of_registration
review_params c t owner note p =
    ("review", Value.num t.id)
    ∷ ("request", number_value (of_registration (λ r. r.request_id) p))
    ∷ ("project", text_value (of_registration (λ r. r.project) p))
    ∷ ("source", text_value (of_registration (λ r. r.source) p))
    ∷ ("version", text_value (coalesce (of_registration (λ r. r.release) p) t.version))
    ∷ ("description", text_value (of_registration (λ r. r.description) p))
    ∷ ("license", text_value (of_registration (λ r. r.license) p))
    ∷ ("owner", name_value owner)
    ∷ ("by", Value.str c.login)
    ∷ ("note", text_value note)
    ∷ []

-- The row of the project's build.
unfoldable pub review_task :
    Contributor → Task → Option String → Option Text → Option Registration → ℕ → ℕ → Task
unfolding blank_task review_params
review_task c t owner note p now id =
    let row =
      blank_task id t.name t.arch (codes "review:" ++ decimal t.id)
        (codes "project build asked by " ++ codes c.login) now in
    record row {
      version = t.version;
      priority = 30;
      publish = false;
      owner = owner;
      params = some (review_params c t owner note p);
    }

-- A line of the journal about a decision, of a ring where it names one.
unfoldable pub decision_event : String → Option String → Level → Text → Event
decision_event kind ring status summary = record {
  kind = kind;
  ring = ring;
  source = some "factory";
  status = status;
  summary = summary;
}

unfoldable pub version_and_arch : Task → Text
version_and_arch t =
    codes t.name ++ codes " " ++ shown t.version ++ codes " (" ++ arch_text t.arch ++ codes ")"

unfoldable pub build_store : Contributor → Task → Option String → Option Text → ℕ → Store → Store
unfolding review_task insert_task set_detail decision_event version_and_arch
build_store c t owner note now st =
    let id = st.next_task in
    let made =
      insert_task (review_task c t owner note (first (is_named t.name) st.registrations) now) st in
    record made {
      registrations =
          set_detail t.name
            (shown t.version
              ++ codes " for "
              ++ arch_text t.arch
              ++ codes ": the project is building it (task "
              ++ decimal id
              ++ codes "), asked by "
              ++ codes c.login)
            now made.registrations;
      events =
          decision_event "review" none Level.ok (
            version_and_arch t
            ++ codes ": "
            ++ codes c.login
            ++ codes " asked the project to build it — task "
            ++ decimal id
            ++ codes ", from "
            ++ codes (or_else owner "?")
            ++ codes "'s build "
            ++ decimal t.id)
          ∷ made.events;
    }

-- `handleProjectBuild`: the id of the build that was queued.
unfoldable pub handle_project_build : Contributor → ℕ → Option Text → ℕ → Store → Reply (ℕ × Store)
unfolding is_maintainer owner_of build_store
handle_project_build c id note now st = do
  t ← or_refuse (first (has_id id) st.tasks) 404
  require (not (is_project t.trust) && is_staged t.status) 409
  require (is_maintainer c) 403
  let owner = owner_of t.name t.owner st.registrations
  require (not (holds_name owner c.login)) 403
  require (not (exists (in_flight id) st.tasks)) 409
  answer (st.next_task, build_store c t owner note now st)

-- `cancelPendingAudit`
unfoldable pub cancel_pending_audit : ℕ → List Task → List Task
unfolding superseded
cancel_pending_audit id =
    update (audits id) (superseded (codes "the build was decided before the audit ran"))

-- `key LIKE '%.pkg.tar.zst'`; the letters of a suffix fold.
unfoldable pub ends_like : Text → Text → Bool
ends_like suffix [] = like_prefix suffix []
ends_like suffix (c ∷ s) =
    let rest = ends_like suffix s in
    if length suffix == length (c ∷ s) then like_prefix suffix (c ∷ s) else rest

-- `key.slice(key.lastIndexOf("/") + 1)`
unfoldable pub file_name : Text → Text
file_name [] = []
file_name (c ∷ s) =
    let rest = file_name s in if exists (λ d. d == b'/') (c ∷ s) then rest else c ∷ s

-- The packages that a build left in staging.
unfoldable pub staged_packages : ℕ → List StagingObject → List Text
unfolding ends_like file_name
staged_packages id [] = []
staged_packages id (o ∷ more) =
    let rest = staged_packages id more in
    if o.task_id == id && ends_like (codes ".pkg.tar.zst") o.key
    then file_name o.key ∷ rest
    else rest
