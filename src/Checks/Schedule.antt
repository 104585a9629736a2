-- ===== src/Checks/Schedule.antt =====
-- The theorems about the scheduler, the update check and governance at concrete inputs.
use omarchy_cli.Base.{
  All, [], codes, none, refl, select, some, true, ℕ, ◌+◌, ◌∷◌, ◌≡◌, exists, update,
}
use omarchy_cli.Checks.Samples.{factory}
use omarchy_cli.Checks.Town.{ada, approved, hello, mona}
use omarchy_cli.Factory.Rows.{Arch, Kind, Status, Store}
use omarchy_cli.Governance.{Roles, apply_governance, listed_role, role_for}
use omarchy_cli.Governance.Table.{role_for-applied}
use omarchy_cli.Governance.Trust.{Ruled, apply_governance-Ruled}
use omarchy_cli.Schedule.Due.{is_due}
use omarchy_cli.Schedule.Guard.{is_paused, schedule_rules-paused}
use omarchy_cli.Schedule.Once.{schedule_job-again}
use omarchy_cli.Schedule.Queue.{schedule_job, schedule_rules, recent_jobs}
use omarchy_cli.Schedule.Rules.{At, Job, Rule, rules}
use omarchy_cli.Updates.{Latest, bump_package, check_updates}
use omarchy_cli.Updates.Bumps.{bump_package-again, check_updates-projects, is_projects}
use omarchy_cli.Factory.Enqueue.{parse_arches}
use omarchy_cli.Factory.Tests.{kind_eq}
use omarchy_cli.Schedule.Daily.{moment_of}

abbrev six : At
six = record { hour = 6; minute = 0; weekday = none }

abbrev noon : ℕ
noon = 43_200_000

schedule_rules-paused_example :
    select is_paused (schedule_rules (some (codes "sync, gc")) true rules noon factory).tasks
    ≡ select is_paused factory.tasks
schedule_rules-paused_example = schedule_rules-paused (some (codes "sync, gc")) rules noon factory

abbrev gc_job : Job
gc_job = record { kind = Kind.gc; params = []; arch = Arch.x86_64 }

-- The rule of the retention, on Sundays at four, and its run of the Sunday before.
abbrev sunday_four : At
sunday_four = record { hour = 4; minute = 0; weekday = some 0 }

abbrev each_sunday : Rule
each_sunday = record {
  workflow = "gc";
  every = none;
  at = some sunday_four;
  inputs = none;
  job = some (record { kind = Kind.gc; params = []; arch = none });
}

-- The retention of a Sunday, queued a while behind its time and ended, and the next one.
abbrev ended : Store
ended =
    let made : Store =
      schedule_job each_sunday gc_job (moment_of sunday_four 3 + 700_000) factory in
    record made {
      tasks =
          update (λ t. kind_eq t.kind Kind.gc) (λ t. record t { status = Status.done }) made.tasks;
    }

abbrev hourly : Rule
hourly = record { workflow = "gc"; every = some 60; at = none; inputs = none; job = none }

schedule_job-again_example :
    schedule_job hourly gc_job 86_400_000 (schedule_job hourly gc_job noon factory)
    ≡ schedule_job hourly gc_job noon factory
unfolding is_due exists select recent_jobs
schedule_job-again_example = schedule_job-again hourly gc_job noon 86_400_000 factory refl

abbrev roles : Roles
roles = record {
  maintainers = (record { login = "eve"; since = 1 }) ∷ [];
  governance_sha256 = none;
  contributors = ada ∷ mona ∷ [];
  events = [];
}

apply_governance-Ruled_example :
    All (Ruled ("ada" ∷ [])) (apply_governance ("ada" ∷ []) "f00d" 9 roles).contributors
apply_governance-Ruled_example = apply_governance-Ruled ("ada" ∷ []) "f00d" 9 roles

role_for-applied_example :
    role_for "eve" (apply_governance ("ada" ∷ []) "f00d" 9 roles).maintainers
    ≡ listed_role "eve" ("ada" ∷ [])
role_for-applied_example = role_for-applied ("ada" ∷ []) "f00d" 9 roles "eve"

check_updates-projects_example :
    select is_projects
      (check_updates (λ url. Latest.tagged (codes "v1.1")) none noon approved).1.tasks
    ≡ select is_projects approved.tasks
check_updates-projects_example =
    check_updates-projects (λ url. Latest.tagged (codes "v1.1")) none noon approved

bump_package-again_example :
    bump_package hello (codes "v1.1") 60 (bump_package hello (codes "v1.1") 55 approved)
    ≡ bump_package hello (codes "v1.1") 55 approved
unfolding parse_arches
bump_package-again_example = bump_package-again hello (codes "v1.1") 55 60 approved refl
