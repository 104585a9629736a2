-- ===== src/Checks/Samples.antt =====
-- A small factory: one contributor's queued build, a leased one of the project, and two workers.
use omarchy_cli.Base.{String, [], arith, false, none, some, true, ℕ, ◌∷◌}
use omarchy_cli.Factory.Rows.{Arch, Kind, Status, Store, Task, Trust}
use omarchy_cli.Factory.Claim.{ClaimBody, Claimant, WorkerIdentity}
use omarchy_cli.Factory.Complete.Job.{CompleteBody}
use omarchy_cli.Factory.Lease.{FailBody}
use omarchy_cli.Factory.Queue.Operations.{QueueOk}
use omarchy_cli.Factory.Workers.{Said}

abbrev pub no_row : ℕ → String → Status → Trust → Task
no_row id name status trust = record {
  id = id;
  name = name;
  arch = Arch.x86_64;
  version = none;
  pkgbuild_ref = [];
  reason = [];
  priority = 100;
  status = status;
  attempts = 0;
  max_attempts = 3;
  lease_owner = none;
  lease_expires_at = none;
  started_at = none;
  finished_at = none;
  result_sha256 = none;
  result_filename = none;
  result_version = none;
  duration_ms = none;
  log_tail = none;
  error = none;
  created_at = 0;
  kind = Kind.build;
  params = none;
  result = none;
  publish = true;
  trust = trust;
  owner = none;
  staged_prefix = none;
  shared_after = none;
}

-- Ada's build, queued.
abbrev pub adas_build : Task
adas_build =
    let row : Task = no_row 1 "hello" Status.queued Trust.community in
    record row { owner = some "ada" }

-- A dry run of the project's, leased by a worker up to time 1000.
abbrev pub dry_run : Task
dry_run =
    let row : Task = no_row 0 "tool" Status.leased Trust.project in
    record row {
      publish = false;
      lease_owner = some "studio";
      lease_expires_at = some 1000;
      attempts = 1;
    }

abbrev pub factory : Store
factory = record {
  tasks = adas_build ∷ dry_run ∷ [];
  next_task = 2;
  workers = [];
  registrations = [];
  approvals = [];
  next_approval = 1;
  staging_objects = [];
  packages = [];
  contributors = [];
  events = [];
  staging = [];
  pool = [];
}

abbrev pub adas_worker : WorkerIdentity
adas_worker = record {
  id = "ada-1";
  arch = Arch.x86_64;
  trust = Trust.community;
  owner = some "ada";
}

abbrev pub studio : WorkerIdentity
studio = record { id = "studio"; arch = Arch.x86_64; trust = Trust.project; owner = none }

abbrev pub plain_claim : ClaimBody
plain_claim = record {
  arch = some "x86_64";
  hostname = none;
  labels = none;
  version = none;
  kinds = none;
  shared = false;
  agent = Said.nothing;
  agent_status = Said.nothing;
  agent_error = Said.nothing;
  agent_checked_at = Said.nothing;
}

abbrev pub ada_claims : Claimant
ada_claims = record {
  worker = "ada-1";
  arch = Arch.x86_64;
  trust = Trust.community;
  kinds = Kind.build ∷ [];
  shared = false;
  owner = "ada";
  probe_ok = false;
  now = 10;
}

abbrev pub finished : CompleteBody
finished = record {
  sha256 = some "f00d";
  filename = some "tool.pkg";
  version = none;
  duration_ms = none;
  log_tail = none;
  result = none;
  summary = none;
}

abbrev pub broke : FailBody
broke = record { error = none; duration_ms = none; log_tail = none; final = false }

pub factory-QueueOk : QueueOk factory
factory-QueueOk = record { keys = omega arith; rows = ground arith }
