-- ===== src/Schedule/Daily.antt =====
-- A rule with a time of the day comes round: isDue, recentJobs and createJob of
-- worker/src/scheduler.ts.
use omarchy_cli.Base.{false, none, some, true, ℕ, ◌%◌, ◌*◌, ◌+◌, ◌<◌, ◌∷◌, ◌≡◌, ◌⊎◌}
use omarchy_cli.Factory.Rows.{Store, Task}
use omarchy_cli.Factory.Tests.{is_open, is_queued}
use omarchy_cli.Schedule.Due.{RunSummary, day_ms, is_pending, minute_ms}
use omarchy_cli.Schedule.Rules.{At, Job}

-- The time of a rule on a day, in milliseconds since the first one.
abbrev pub moment_of : At → ℕ → ℕ
moment_of at day = day * day_ms + (at.hour * 60 + at.minute) * minute_ms

-- A rule without a weekday is for every day. The first day of all was a Thursday.
abbrev pub IsDay : At → ℕ → Type 0
IsDay at day = (at.weekday ≡ none) ⊎ (at.weekday ≡ some ((day + 4) % 7))

-- A task that is neither queued nor under lease, made before this moment.
abbrev pub Rested : ℕ → Task → Type 0
Rested moment t = (is_open t.status ≡ false) × (t.created_at < moment)

RunRested : ℕ → RunSummary → Type 0
RunRested moment r = (is_pending r ≡ false) × (r.created_at < moment)

-- The row that a turn puts in front of the table for a job.
abbrev pub QueuedJob : Job → ℕ → Store → Store → Type 0
QueuedJob job now st st' =
    (row : Task) × (st'.tasks ≡ row ∷ st.tasks)
    × (row.kind ≡ job.kind)
    × (row.params ≡ some job.params)
    × (row.arch ≡ job.arch)
    × (is_queued row.status ≡ true)
    × (row.created_at ≡ now)
