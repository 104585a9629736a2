-- ===== src/Factory/Rows.antt =====
-- The tables that the factory's handlers read and write (worker/src/routes/factory.ts): the rows
-- of build_tasks, build_workers, factory_packages, approvals, staging_objects, packages,
-- contributors and events, and the two buckets. A column that the database restricts to a few
-- words is a data type; a time is a number of milliseconds; a JSON column is its parsed value.
use omarchy_cli.Base.{
  ℕ, String, Bool, Option, none, some, List, [], ◌∷◌, Text, str_eq, if◌then◌else◌,
}

pub data Arch : Type 0 where
  x86_64 aarch64 : Arch

pub data Kind : Type 0 where
  build sync promote rollback render health security metrics gc enqueue audit verify relayout : Kind
  publish : Kind

pub data Trust : Type 0 where
  project community : Trust

pub data Status : Type 0 where
  queued leased staged done failed cancelled : Status

-- One source of a sync, as the scheduler's table lists it.
pub record Source : Type 0 where
  pub source : String
  pub arch : Arch
  pub ring : String
  pub base_url : String
  pub db_name : String
  pub keyring : String
  pub defer_to : Option String

-- A value of a task's params.
pub data Value : Type 0 where
  null : Value
  num : ℕ → Value
  str : String → Value
  prose : Text → Value
  names : List String → Value
  texts : List Text → Value
  sources : List Source → Value

abbrev pub Params : Type 0
Params = List (String × Value)

-- `params[k]`
unfoldable pub param : String → Params → Option Value
param k [] = none
param k ((j, v) ∷ ps) = let rest = param k ps in if str_eq j k then some v else rest

-- The gate's verdict that a worker staged with its build.
pub data Verdict : Type 0 where
  pass fail unknown : Verdict

pub record Vet : Type 0 where
  pub verdict : Verdict
  pub fails : ℕ
  pub warnings : ℕ
  pub failed : List Text
  pub warned : List Text

pub data Report : Type 0 where
  job : Params → Report
  gate : Vet → Report

pub record Task : Type 0 where
  pub id : ℕ
  pub name : String
  pub arch : Arch
  pub version : Option Text
  pub pkgbuild_ref : Text
  pub reason : Text
  pub priority : ℕ
  pub status : Status
  pub attempts : ℕ
  pub max_attempts : ℕ
  pub lease_owner : Option String
  pub lease_expires_at : Option ℕ
  pub started_at : Option ℕ
  pub finished_at : Option ℕ
  pub result_sha256 : Option String
  pub result_filename : Option String
  pub result_version : Option Text
  pub duration_ms : Option ℕ
  pub log_tail : Option Text
  pub error : Option Text
  pub created_at : ℕ
  pub kind : Kind
  pub params : Option Params
  pub result : Option Report
  pub publish : Bool
  pub trust : Trust
  pub owner : Option String
  pub staged_prefix : Option Text
  pub shared_after : Option ℕ

-- What a worker's agent answered to the probe.
pub data AgentStatus : Type 0 where
  ok error : AgentStatus

pub record Worker : Type 0 where
  pub id : String
  pub arch : Arch
  pub hostname : Option String
  pub labels : Option Text
  pub version : Option String
  pub last_seen : ℕ
  pub current_task : Option ℕ
  pub builds_done : ℕ
  pub builds_failed : ℕ
  pub mode : String
  pub agent : Option Text
  pub kinds : Option (List Kind)
  pub agent_status : Option AgentStatus
  pub agent_error : Option Text
  pub agent_checked_at : Option Text
  pub trust : Trust
  pub owner : Option String
  pub token_hash : Option String
  pub revoked_at : Option ℕ

pub data Stage : Type 0 where
  registered waiting building staged approved published unmaintained rejected : Stage

-- A block that a maintainer put on a contributor or a package: since when, by whom, and why.
pub record Block : Type 0 where
  pub at : ℕ
  pub by : String
  pub reason : Text

pub record Registration : Type 0 where
  pub name : String
  pub owner : String
  pub status : Stage
  pub detail : Option Text
  pub updated_at : ℕ
  pub category : Option String
  pub request_id : Option ℕ
  pub url : Text
  pub arches : List String
  pub project : Option Text
  pub source : Option Text
  pub release : Option Text
  pub description : Option Text
  pub license : Option Text
  pub pkgbuild_path : Option Text
  pub detected_tag : Option Text
  pub blocked : Option Block

pub data Decision : Type 0 where
  approved rejected : Decision

pub record Approval : Type 0 where
  pub id : ℕ
  pub task_id : ℕ
  pub name : String
  pub arch : Arch
  pub version : Option Text
  pub decision : Decision
  pub by : String
  pub note : Option Text
  pub rebuild_task : Option ℕ

pub record StagingObject : Type 0 where
  pub task_id : ℕ
  pub key : Text

-- A row of the index of what the pool stores.
pub record Indexed : Type 0 where
  pub sha256 : String
  pub filename : String
  pub repo_arch : Arch

-- Who already serves a name in edge.
pub record Provided : Type 0 where
  pub source : String
  pub arch : Arch
  pub version : Text

pub data Role : Type 0 where
  maintainer contributor : Role

pub record Contributor : Type 0 where
  pub login : String
  pub role : Role
  pub blocked : Option Block

pub data Level : Type 0 where
  ok warn error : Level

pub record Event : Type 0 where
  pub kind : String
  pub ring : Option String
  pub source : Option String
  pub status : Level
  pub summary : Text

-- An object of a bucket.
pub record Blob : Type 0 where
  pub key : Text
  pub bytes : Text

pub record Store : Type 0 where
  pub tasks : List Task
  pub next_task : ℕ
  pub workers : List Worker
  pub registrations : List Registration
  pub approvals : List Approval
  pub next_approval : ℕ
  pub staging_objects : List StagingObject
  pub packages : List Indexed
  pub contributors : List Contributor
  pub events : List Event
  -- The buckets STAGING and PACKAGES.
  pub staging : List Blob
  pub pool : List Blob
