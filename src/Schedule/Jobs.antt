-- ===== src/Schedule/Jobs.antt =====
-- A pool job that a maintainer queues by hand: handleQueueJob of worker/src/jobs.ts.
use omarchy_cli.Base.{
  Bool, Option, String, Text, [], codes, decimal, false, first, if◌then◌else◌, leb, none, not,
  or_else, some, str_eq, true, ℕ, ◌&&◌, ◌++◌, ◌||◌, ◌∷◌,
}
use omarchy_cli.Factory.Rows.{Arch, Kind, Params, Source, Store, Value}
use omarchy_cli.Factory.Reply.{Reply, answer, or_refuse, require, ◌>>=◌, ◌>>◌, refuse}
use omarchy_cli.Schedule.Rules.{Job, sync_job_for, sync_sources}
use omarchy_cli.Factory.Claim.{kind_name}
use omarchy_cli.Factory.Enqueue.{repo_arch}
use omarchy_cli.Factory.Journal.{arch_name}
use omarchy_cli.Schedule.Queue.{create_job, dispatch_event, filled_param, name_param}

pub record JobBody : Type 0 where
  pub kind : Option String
  pub params : Params
  pub arch : Option String

-- `s(k)`: the parameter where it is a text, or else the empty one.
unfoldable pub text_param : Params → String → String
unfolding name_param
text_param ps k = or_else (name_param k ps) ""

-- `s(k) || d`
unfoldable pub param_or : Params → String → String → String
unfolding filled_param
param_or ps k d = or_else (filled_param k ps) d

unfoldable pub is_ring : String → Bool
is_ring s = str_eq s "edge" || str_eq s "rc" || str_eq s "stable"

-- The same for an architecture, `ARCHES.includes`.
unfoldable pub is_arch : String → Bool
is_arch s = str_eq s "x86_64" || str_eq s "aarch64"

unfoldable pub is_digits : Text → Bool
is_digits [] = true
is_digits (c ∷ s) = leb b'0' c && leb c b'9' && is_digits s

-- `/^\d+$/`
unfoldable pub is_number : Text → Bool
unfolding is_digits
is_number [] = false
is_number (c ∷ s) = is_digits (c ∷ s)

-- The note that is given, or else one that says what was asked for and by whom.
unfoldable pub note_or : Params → Text → Value
unfolding filled_param
note_or ps text = elim (filled_param "note" ps) [ some s ↦ Value.str s | none ↦ Value.prose text ]

-- An optional parameter, refused where it is given and does not pass the test.
unfoldable pub checked : (String → Bool) → String → Params → Reply Params
unfolding filled_param
checked test k ps = elim (filled_param k ps) [
  | none ↦ answer []
  | some s ↦ if test s then answer ((k, Value.str s) ∷ []) else refuse 400
]

abbrev plain_job : Kind → Params → Job
plain_job kind params = record { kind = kind; params = params; arch = Arch.x86_64 }

-- A sync: of an architecture, or of one source that the table has.
unfoldable pub sync_of_source : Source → Job
sync_of_source s = record {
  kind = Kind.sync;
  params =
      ("source", Value.str s.source)
      ∷ ("arch", Value.str (arch_name s.arch))
      ∷ ("ring", Value.str s.ring)
      ∷ ("base_url", Value.str s.base_url)
      ∷ ("db_name", Value.str s.db_name)
      ∷ ("keyring", Value.str s.keyring)
      ∷ ("defer_to", Value.str (or_else s.defer_to ""))
      ∷ [];
  arch = s.arch;
}

unfoldable pub sync_request : Params → Reply Job
unfolding filled_param param_or repo_arch sync_job_for sync_of_source first
sync_request ps = elim (filled_param "source" ps) [
  | none ↦ (do
    arch ← or_refuse (repo_arch (param_or ps "arch" "x86_64")) 400
    answer (sync_job_for arch))
  | some source ↦ (do
    src ←
        or_refuse
          (first
            (λ x.
              str_eq x.source source
              && str_eq (arch_name x.arch) (param_or ps "arch" "x86_64")
              && str_eq x.ring (param_or ps "ring" "edge"))
            sync_sources)
          400
    answer (sync_of_source src))
]

unfoldable pub promote_request : String → Params → Reply Job
unfolding text_param is_ring is_arch note_or checked
promote_request login ps = do
  let from = text_param ps "from"
  let to = text_param ps "to"
  require (is_ring from && is_ring to && not (str_eq from to)) 400
  arch ← checked is_arch "arch" ps
  answer (
      plain_job Kind.promote (
        ("from", Value.str from)
        ∷ ("to", Value.str to)
        ∷ (
          "note",
          note_or ps (
              codes "manual "
              ++ codes from
              ++ codes " → "
              ++ codes to
              ++ codes " by "
              ++ codes login),
        )
        ∷ (if str_eq (text_param ps "force") "yes"
            then ("force", Value.str "yes") ∷ arch
            else arch)))

unfoldable pub rollback_request : String → Params → Reply Job
unfolding text_param is_ring is_arch is_number note_or checked
rollback_request login ps = do
  let ring = text_param ps "ring"
  let to = text_param ps "to"
  require (is_ring ring && is_number (codes to)) 400
  arch ← checked is_arch "arch" ps
  answer (
      plain_job Kind.rollback (
        ("ring", Value.str ring)
        ∷ ("to", Value.str to)
        ∷ (
          "note",
          note_or ps (codes "rollback to release " ++ codes to ++ codes " by " ++ codes login),
        )
        ∷ arch))

-- A render or a health check, of a ring and an architecture.
unfoldable pub ring_request : Kind → Params → Reply Job
unfolding text_param param_or is_ring repo_arch
ring_request kind ps = do
  let ring = text_param ps "ring"
  require (is_ring ring) 400
  arch ← or_refuse (repo_arch (param_or ps "arch" "x86_64")) 400
  answer (record {
    kind = kind;
    params = ("ring", Value.str ring) ∷ ("arch", Value.str (arch_name arch)) ∷ [];
    arch = arch;
  })

unfoldable pub gc_request : Params → Job
unfolding filled_param
gc_request ps =
    plain_job Kind.gc
      (elim (filled_param "keep" ps) [ none ↦ [] | some keep ↦ ("keep", Value.str keep) ∷ [] ])

unfoldable pub verify_request : Params → Reply Job
unfolding checked is_ring is_arch text_param
verify_request ps = do
  ring ← checked is_ring "ring" ps
  arch ← checked is_arch "arch" ps
  let repair : Params =
      if str_eq (text_param ps "repair") "no" then ("repair", Value.str "no") ∷ [] else []
  answer (plain_job Kind.verify (ring ++ arch ++ repair))

-- A security run or a reconcile, on the architecture that the body names.
unfoldable pub plain_request : Kind → Option String → Job
unfolding repo_arch
plain_request kind arch = record {
  kind = kind;
  params = [];
  arch = or_else (repo_arch (or_else arch "")) Arch.x86_64;
}

-- The `switch` over the kind.
unfoldable pub job_request : String → JobBody → Reply Job
unfolding sync_request promote_request rollback_request ring_request gc_request verify_request
    plain_request
job_request login b =
    let kind = or_else b.kind "" in
    if str_eq kind "sync"
    then sync_request b.params
    else if str_eq kind "promote"
    then promote_request login b.params
    else if str_eq kind "rollback"
    then rollback_request login b.params
    else if str_eq kind "render"
    then ring_request Kind.render b.params
    else if str_eq kind "health"
    then ring_request Kind.health b.params
    else if str_eq kind "gc"
    then answer (gc_request b.params)
    else if str_eq kind "relayout"
    then answer (plain_job Kind.relayout [])
    else if str_eq kind "security"
    then answer (plain_request Kind.security b.arch)
    else if str_eq kind "enqueue"
    then answer (plain_request Kind.enqueue b.arch)
    else if str_eq kind "verify"
    then verify_request b.params
    else refuse 400

-- `handleQueueJob`: the id of the task, and the job.
unfoldable pub handle_queue_job : String → JobBody → ℕ → Store → Reply ((ℕ × Job) × Store)
unfolding job_request create_job dispatch_event
handle_queue_job login b now st = do
  job ← job_request login b
  let (id, made) = create_job job (codes "queued by " ++ codes login) now st
  answer (
    (id, job),
    record made {
      events =
          dispatch_event job (
            codes (kind_name job.kind)
            ++ codes " queued by "
            ++ codes login
            ++ codes " as task "
            ++ decimal id)
          ∷ made.events;
    },
  )
