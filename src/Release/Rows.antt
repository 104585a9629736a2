-- ===== src/Release/Rows.antt =====
-- The tables of the releases (worker/migrations/0001_init.sql and 0017_delta_releases.sql).
-- A release's cached counts (package_count, bytes, sources) and its time are left out.
use omarchy_cli.Base.{Bool, List, Option, String, Text, ℕ, true, false}
use omarchy_cli.Factory.Rows.{Arch}
use omarchy_cli.Release.Selection.{Pin}

pub data Ring : Type 0 where
  edge rc stable : Ring

pub record Package : Type 0 where
  pub id : ℕ
  pub sha256 : String
  pub name : String
  pub source : String
  pub repo_arch : Arch
  pub version : String
  pub released : Bool
  pub filename : Text
  pub r2_key : Option Text
  pub created_at : ℕ

pub record Release : Type 0 where
  pub id : ℕ
  pub ring : Ring
  pub seq : ℕ
  pub parent_id : Option ℕ
  pub source_id : Option ℕ
  pub note : Option Text
  pub checkpoint : Bool

pub data Op : Type 0 where
  add remove : Op

pub record Delta : Type 0 where
  pub release_id : ℕ
  pub package_id : ℕ
  pub op : Op

pub record Head : Type 0 where
  pub ring : Ring
  pub release_id : ℕ

pub record Artifact : Type 0 where
  pub release_id : ℕ
  pub repo : String
  pub arch : Arch
  pub kind : String
  pub r2_key : String
  pub size : ℕ

-- `ring_packages` is what each ring serves now; `release_packages` the checkpoints.
pub record Pool : Type 0 where
  pub packages : List Package
  pub releases : List Release
  pub release_deltas : List Delta
  pub release_packages : List (Pin ℕ)
  pub ring_packages : List (Pin Ring)
  pub ring_heads : List Head
  pub release_artifacts : List Artifact
  pub next_release : ℕ

abbrev pub ring_eq : Ring → Ring → Bool
ring_eq Ring.edge Ring.edge = true
ring_eq Ring.rc Ring.rc = true
ring_eq Ring.stable Ring.stable = true
ring_eq _ _ = false
