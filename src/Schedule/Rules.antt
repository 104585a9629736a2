-- ===== src/Schedule/Rules.antt =====
-- The scheduler's tables: SYNC_SOURCES and RULES of worker/src/scheduler.ts, and the jobs that a
-- rule expands to (jobsOf, syncJobFor).
use omarchy_cli.Base.{
  List, Option, String, [], ◌∷◌, ◌++◌, none, some, ℕ, select, map, or_else, if◌then◌else◌,
}
use omarchy_cli.Factory.Rows.{Arch, Kind, Params, Source, Value}
use omarchy_cli.Factory.Tests.{arch_eq, kind_eq}
use omarchy_cli.Factory.Journal.{arch_name}

-- A time of the day in UTC, on one day of the week where it names one (0 is Sunday).
pub record At : Type 0 where
  pub hour : ℕ
  pub minute : ℕ
  pub weekday : Option ℕ

-- The job of a rule.
pub record RuleJob : Type 0 where
  pub kind : Kind
  pub params : Params
  pub arch : Option Arch

pub record Inputs : Type 0 where
  pub from : String
  pub to : String
  pub note : String

pub record Rule : Type 0 where
  pub workflow : String
  pub every : Option ℕ
  pub at : Option At
  pub inputs : Option Inputs
  pub job : Option RuleJob

-- A job as it goes into the queue.
pub record Job : Type 0 where
  pub kind : Kind
  pub params : Params
  pub arch : Arch

abbrev source_row : String → Arch → String → String → String → String → Option String → Source
source_row source arch ring base_url db_name keyring defer_to = record {
  source = source;
  arch = arch;
  ring = ring;
  base_url = base_url;
  db_name = db_name;
  keyring = keyring;
  defer_to = defer_to;
}

-- `SYNC_SOURCES`
abbrev pub sync_sources : List Source
sync_sources =
    source_row "core" Arch.x86_64 "edge" "https://mirror.omarchy.org/core/os/x86_64" "core"
      "archlinux" none
    ∷ source_row "multilib" Arch.x86_64 "edge" "https://mirror.omarchy.org/multilib/os/x86_64"
        "multilib" "archlinux" none
    ∷ source_row "extra" Arch.x86_64 "edge" "https://mirror.omarchy.org/extra/os/x86_64" "extra"
        "archlinux" none
    ∷ source_row "packages" Arch.x86_64 "edge" "https://pkgs.omarchy.org/edge/x86_64" "omarchy"
        "omarchy" none
    ∷ source_row "packages" Arch.x86_64 "rc" "https://pkgs.omarchy.org/rc/x86_64" "omarchy"
        "omarchy" none
    ∷ source_row "packages" Arch.x86_64 "stable" "https://pkgs.omarchy.org/stable/x86_64" "omarchy"
        "omarchy" none
    ∷ source_row "chaotic" Arch.x86_64 "edge"
        "https://builds.garudalinux.org/repos/chaotic-aur/x86_64" "chaotic-aur" "chaotic"
        (some "core,extra,multilib,packages,factory")
    ∷ source_row "core" Arch.aarch64 "edge" "http://os.archlinuxarm.org/aarch64/core" "core"
        "archlinuxarm" none
    ∷ source_row "alarm" Arch.aarch64 "edge" "http://os.archlinuxarm.org/aarch64/alarm" "alarm"
        "archlinuxarm" none
    ∷ source_row "extra" Arch.aarch64 "edge" "http://os.archlinuxarm.org/aarch64/extra" "extra"
        "archlinuxarm" none
    ∷ source_row "packages" Arch.aarch64 "edge" "https://pkgs.omarchy.org/edge/aarch64" "omarchy"
        "omarchy" none
    ∷ source_row "asahi" Arch.aarch64 "edge"
        "github-release://maralcbr/omarchy-pkgs/asahi-packages-stable-" "omarchy" "omarchy-asahi"
        none
    ∷ source_row "asahi-alarm" Arch.aarch64 "edge"
        "https://github.com/asahi-alarm/asahi-alarm/releases/download/aarch64" "asahi-alarm"
        "asahi-alarm" none
    ∷ source_row "aur" Arch.aarch64 "edge" "http://os.archlinuxarm.org/aarch64/aur" "aur"
        "archlinuxarm" (some "asahi,asahi-alarm,packages,factory,core,extra,alarm")
    ∷ []

abbrev plain_job : Kind → Params → Option RuleJob
plain_job kind params = some (record { kind = kind; params = params; arch = none })

abbrev every_minutes : String → ℕ → Kind → Rule
every_minutes workflow minutes kind = record {
  workflow = workflow;
  every = some minutes;
  at = none;
  inputs = none;
  job = plain_job kind [];
}

abbrev daily : String → ℕ → ℕ → Option ℕ → Option Inputs → Option RuleJob → Rule
daily workflow hour minute weekday inputs job = record {
  workflow = workflow;
  every = none;
  at = some (record { hour = hour; minute = minute; weekday = weekday });
  inputs = inputs;
  job = job;
}

abbrev promotion : String → ℕ → String → String → String → Rule
promotion workflow hour from to note =
    daily workflow hour 0 none (some (record { from = from; to = to; note = note })) (
      plain_job Kind.promote
        (("from", Value.str from) ∷ ("to", Value.str to) ∷ ("note", Value.str note) ∷ []))

-- `RULES`
abbrev pub rules : List Rule
rules =
    every_minutes "sync" 180 Kind.sync
    ∷ every_minutes "security" 180 Kind.security
    ∷ every_minutes "enqueue" 60 Kind.enqueue
    ∷ promotion "promote" 6 "edge" "rc" "daily rc"
    ∷ promotion "promote" 9 "rc" "stable" "daily stable"
    ∷ daily "health" 8 30 none none (plain_job Kind.health [])
    ∷ daily "factory-update.yml" 5 45 none none none
    ∷ daily "gc" 4 0 (some 0) none (plain_job Kind.gc [])
    ∷ daily "verify" 3 0 (some 6) none (plain_job Kind.verify [])
    ∷ []

abbrev deferring : Source → Source
deferring s = record s { defer_to = some (or_else s.defer_to "") }

-- `syncJobFor`: every source of an architecture, in the order of the table.
unfoldable pub sync_job_for : Arch → Job
unfolding select
sync_job_for arch = record {
  kind = Kind.sync;
  params =
      ("arch", Value.str (arch_name arch))
      ∷ ("sources", Value.sources (map deferring (select (λ s. arch_eq s.arch arch) sync_sources)))
      ∷ [];
  arch = arch;
}

abbrev health_job : String → Arch → Job
health_job ring arch = record {
  kind = Kind.health;
  params = ("ring", Value.str ring) ∷ ("arch", Value.str (arch_name arch)) ∷ [];
  arch = arch;
}

abbrev health_jobs : String → List Job
health_jobs ring = health_job ring Arch.x86_64 ∷ health_job ring Arch.aarch64 ∷ []

-- `jobsOf`: a sync is one job an architecture, a health check one a ring and an architecture.
unfoldable pub jobs_of : Rule → List Job
unfolding sync_job_for
jobs_of rule = elim rule.job [
  | none ↦ []
  | some j ↦
      if kind_eq j.kind Kind.sync
      then sync_job_for Arch.x86_64 ∷ sync_job_for Arch.aarch64 ∷ []
      else if kind_eq j.kind Kind.health
      then health_jobs "edge" ++ health_jobs "rc" ++ health_jobs "stable"
      else (record { kind = j.kind; params = j.params; arch = or_else j.arch Arch.x86_64 }) ∷ []
]
