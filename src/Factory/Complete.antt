-- ===== src/Factory/Complete.antt =====
-- Completing a task: handleComplete of worker/src/routes/factory.ts. What a pool job does is in
-- Job, what a build does in Build; `read_vet` parses a staged vet.json (vetOf).
pub mod Job
pub mod Build
use omarchy_cli.Base.{
  Bool, List, Option, String, Text, codes, false, first, if◌then◌else◌, none, not, or_else, some,
  str_eq, ℕ, ◌&&◌, ◌++◌,
}
use omarchy_cli.Factory.Rows.{Blob, Kind, Status, Store, Task, Vet}
use omarchy_cli.Factory.Tests.{kind_eq}
use omarchy_cli.Factory.Reply.{Reply, or_refuse, require, ◌>>=◌, ◌>>◌, answer}
use omarchy_cli.Factory.Claim.{Actor}
use omarchy_cli.Factory.Record.{has_key}
use omarchy_cli.Factory.Lease.{owned, staging_prefix, worker_name}
use omarchy_cli.Factory.Complete.Job.{Attest, CompleteBody, complete_job}
use omarchy_cli.Factory.Complete.Build.{
  all_uploaded, done_store, gate_failed, goes_to_staging, indexed_as, stage_store, staged_files,
}

-- What a completion answers: the status, and whether an attestation was written.
pub record Completed : Type 0 where
  pub status : Status
  pub attested : Bool

-- `vetOf`: the gate's verdict staged under the prefix; a file that does not parse is unknown.
unfoldable pub vet_of : (Text → Option Vet) → Text → List Blob → Option Vet
vet_of read_vet prefix staging = elim (first (has_key (prefix ++ codes "vet.json")) staging) [
  | none ↦ none
  | some o ↦ read_vet o.bytes
]

abbrev pub nonempty : Option String → Bool
nonempty none = false
nonempty (some s) = not (str_eq s "")

-- A build that is staged: refused until its files are there, and where the gate failed.
unfoldable pub complete_staged :
    (Text → Option Vet) → Task → CompleteBody → String → ℕ → Store → Reply (Completed × Store)
unfolding vet_of
complete_staged read_vet t b who now st = do
  let prefix = staging_prefix t
  require (all_uploaded t.id prefix (staged_files (or_else b.filename "")) st.staging_objects) 409
  let vet = vet_of read_vet prefix st.staging
  require (not (gate_failed vet)) 409
  answer (record { status = Status.staged; attested = false }, stage_store t b vet who now st)

-- The object that a build is, without the pool's index on a dry run.
unfoldable pub result_object : Task → CompleteBody → Store → Option String
result_object t b st =
    if t.publish
    then indexed_as (or_else b.sha256 "") (or_else b.filename "") t.arch st.packages
    else b.sha256

unfoldable pub done_reply : Bool × Store → Completed × Store
done_reply (attested, st) = (record { status = Status.done; attested = attested }, st)

-- A build that is published, or measured on a dry run.
unfoldable pub complete_built :
    Attest → Task → CompleteBody → String → ℕ → Store → Reply (Completed × Store)
unfolding result_object done_reply
complete_built attest t b who now st = do
  sha ← or_refuse (result_object t b st) 409
  answer (done_reply (done_store attest t b sha who now st))

unfoldable pub complete_build :
    (Text → Option Vet)
    → Attest
    → Task
    → CompleteBody
    → String
    → ℕ
    → Store
    → Reply (Completed × Store)
unfolding complete_staged complete_built
complete_build read_vet attest t b who now st = do
  require (nonempty b.sha256 && nonempty b.filename) 400
  if goes_to_staging t
      then complete_staged read_vet t b who now st
      else complete_built attest t b who now st

-- `handleComplete`
unfoldable pub handle_complete :
    (Text → Option Vet) → Attest → ℕ → Actor → CompleteBody → ℕ → Store → Reply (Completed × Store)
unfolding owned complete_build complete_job
handle_complete read_vet attest id actor b now st = do
  t ← owned id actor st
  let who = worker_name actor
  if kind_eq t.kind Kind.build
      then complete_build read_vet attest t b who now st
      else answer
          (record { status = Status.done; attested = false }, complete_job attest t b who now st)
