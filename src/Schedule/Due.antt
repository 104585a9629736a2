-- ===== src/Schedule/Due.antt =====
-- When a rule is due: matches and isDue of worker/src/scheduler.ts. A time is the number of
-- milliseconds since 1970, a Thursday, in UTC.
use omarchy_cli.Base.{
  Bool, List, Option, String, Text, [], codes, decimal, exists, false, if◌then◌else◌, leb, ltb,
  none, not, or_else, select, some, starts_with, str_eq, true, ℕ, ◌%◌, ◌*◌, ◌++◌, ◌+◌, ◌-◌, ◌/◌,
  ◌==◌, ◌||◌, ◌∷◌,
}
use omarchy_cli.Schedule.Rules.{At, Rule}
use omarchy_cli.Factory.Queue.Trace.{run}

-- A run of a workflow, or a task shaped like one.
pub record RunSummary : Type 0 where
  pub created_at : ℕ
  pub status : String
  pub event : String
  pub display_title : Option Text

pub record Due : Type 0 where
  pub due : Bool
  pub why : Text

abbrev pub day_ms : ℕ
day_ms = 86_400_000

abbrev pub minute_ms : ℕ
minute_ms = 60_000

-- `s.includes(p)`
unfoldable pub includes : Text → Text → Bool
unfolding starts_with
includes p [] = starts_with p []
includes p (c ∷ s) = let rest = includes p s in starts_with p (c ∷ s) || rest

-- `matches`
unfoldable pub matches : Rule → RunSummary → Bool
unfolding includes
matches rule run = elim rule.inputs [
  | none ↦ true
  | some inputs ↦
      str_eq inputs.to ""
      || str_eq run.event "schedule"
      || includes (codes inputs.note) (or_else run.display_title [])
      || str_eq run.event "workflow_dispatch"
]

abbrev pub is_pending : RunSummary → Bool
is_pending r =
    str_eq r.status "queued"
    || str_eq r.status "in_progress"
    || str_eq r.status "waiting"
    || str_eq r.status "pending"

unfoldable pub not_due : String → Due
not_due why = record { due = false; why = codes why }

-- `Math.round(ms / 60000)`
unfoldable pub rounded_minutes : ℕ → ℕ
rounded_minutes ms = (ms + 30_000) / minute_ms

-- A rule with an interval: five minutes over it, the run is missed.
unfoldable pub due_every : ℕ → ℕ → ℕ → Due
unfolding not_due rounded_minutes
due_every every last now =
    if leb (last + (every + 5) * minute_ms) now
    then record {
      due = true;
      why =
          codes "last run "
          ++ decimal (rounded_minutes (now - last))
          ++ codes " min ago, expected every "
          ++ decimal every;
    }
    else not_due "on time"

-- `getUTCDay`
unfoldable pub weekday_of : ℕ → ℕ
weekday_of now = (now / day_ms + 4) % 7

-- `Date.UTC(y, m, d, hour, minute)` of the day of `now`.
unfoldable pub slot_of : At → ℕ → ℕ
slot_of at now = now / day_ms * day_ms + (at.hour * 60 + at.minute) * minute_ms

-- `String(n).padStart(2, "0")`
unfoldable pub two_digits : ℕ → Text
two_digits n = if ltb n 10 then codes "0" ++ decimal n else decimal n

abbrev pub other_day : At → ℕ → Bool
other_day at now = elim at.weekday [ none ↦ false | some d ↦ not (weekday_of now == d) ]

-- A rule with a time of the day: ten minutes behind it, once.
unfoldable pub due_at : At → ℕ → ℕ → Due
unfolding not_due slot_of weekday_of two_digits
due_at at last now =
    if other_day at now
    then not_due "not today"
    else if ltb now (slot_of at now + 10 * minute_ms)
    then not_due "slot not reached"
    else if leb (slot_of at now) last
    then not_due "already ran after the slot"
    else record {
      due = true;
      why =
          codes "nothing ran since the "
          ++ decimal at.hour
          ++ codes ":"
          ++ two_digits at.minute
          ++ codes " UTC slot";
    }

-- When the newest run was made; 0 where there is none.
unfoldable pub last_run : List RunSummary → ℕ
last_run [] = 0
last_run (r ∷ rs) = r.created_at

-- `isDue`
unfoldable pub is_due : Rule → List RunSummary → ℕ → Due
unfolding matches last_run due_every due_at not_due
is_due rule runs now =
    let relevant = select (matches rule) runs in
    if exists is_pending relevant
    then not_due "a run is queued or in progress"
    else (elim rule.every [
      | some every ↦ due_every every (last_run relevant) now
      | none ↦ elim rule.at [
        | some at ↦ due_at at (last_run relevant) now
        | none ↦ not_due "no rule"
      ]
    ])
