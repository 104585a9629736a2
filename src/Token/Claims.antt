-- ===== src/Token/Claims.antt =====
-- What a job token says (JobClaims of worker/src/jobtoken.ts).
use omarchy_cli.Base.{List, String, Text, ℕ}
use omarchy_cli.Factory.Rows.{Kind}

pub record Claims : Type 0 where
  -- The task, its kind, the scopes, the end in seconds, and the worker.
  pub t : ℕ
  pub k : Kind
  pub s : List Text
  pub e : ℕ
  pub w : String
