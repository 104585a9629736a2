-- ===== src/Checks/Rules.antt =====
-- The single rules of the factory at the small factory.
use omarchy_cli.Base.{List, [], codes, false, first, none, refl, some, text_eq, true, ◌+◌, ◌∷◌, ◌≡◌}
use omarchy_cli.Factory.Rows.{Arch, Blob, Provided, Status, Task}
use omarchy_cli.Checks.Samples.{broke, dry_run, factory, studio}
use omarchy_cli.Factory.Claim.{Actor}
use omarchy_cli.Factory.Enqueue.{split_by_upstream}
use omarchy_cli.Factory.Lease.{
  exhausted, fail_store, fail_task, handle_fail, names_task, owned, worker_name,
}
use omarchy_cli.Factory.Record.{failure_files, has_key, record_evidence}
use omarchy_cli.Factory.Rules.Evidence.{record_evidence-first}
use omarchy_cli.Factory.Rules.Failure.{Outcome, handle_fail-Outcome}
use omarchy_cli.Factory.Rules.Upstream.{Splits, split_by_upstream-Splits}
use omarchy_cli.Factory.Tests.{has_id, holds_name}

abbrev in_core : List Provided
in_core = record { source = "core"; arch = Arch.x86_64; version = codes "1-1" } ∷ []

split_by_upstream-Splits_example :
    Splits in_core false
      (Arch.x86_64 ∷ Arch.aarch64 ∷ [])
      (split_by_upstream in_core (Arch.x86_64 ∷ Arch.aarch64 ∷ []) false).build
      (split_by_upstream in_core (Arch.x86_64 ∷ Arch.aarch64 ∷ []) false).skipped
split_by_upstream-Splits_example =
    split_by_upstream-Splits in_core (Arch.x86_64 ∷ Arch.aarch64 ∷ []) false

abbrev old_log : Blob
old_log = record { key = codes "factory/hello/7/build-1/build.log"; bytes = codes "old" }

abbrev new_log : Blob
new_log = record { key = codes "staging/ada/hello/1/build.log"; bytes = codes "new" }

record_evidence-first_example :
    first (has_key old_log.key) (
      record_evidence
        (new_log ∷ [])
        "hello"
        (some 7)
        1
        (codes "staging/ada/hello/1/")
        failure_files
        (old_log ∷ []))
    ≡ some old_log
unfolding first text_eq
record_evidence-first_example =
    record_evidence-first (new_log ∷ []) "hello" (some 7) 1 (codes "staging/ada/hello/1/")
      failure_files (old_log ∷ []) old_log.key old_log refl

abbrev requeued : Task
requeued = fail_task (exhausted false dry_run) broke dry_run.lease_owner 20 dry_run

handle_fail-Outcome_example :
    (t : Task) × (u : Task) × (first (has_id 0) factory.tasks ≡ some t)
    × (holds_name t.lease_owner "studio" ≡ true)
    × (first (has_id 0) (fail_store dry_run broke "studio" 20 factory).tasks ≡ some u)
    × Outcome broke t (record { status = Status.queued; attempts = 1 }) u
    × (u.priority ≡ t.priority + 10)
    × (u.attempts ≡ t.attempts)
    × (u.lease_expires_at ≡ none)
unfolding handle_fail owned names_task first worker_name exhausted
handle_fail-Outcome_example =
    handle_fail-Outcome 0 (Actor.worker studio) broke 20 factory
      (fail_store dry_run broke "studio" 20 factory)
      (record { status = Status.queued; attempts = 1 }) refl
