-- ===== src/Blocks/Contributors.antt =====
-- Blocking a contributor and lifting the block: handleBlockContributor and handleUnblockContributor
-- of worker/src/routes/blocks.ts. The runtime's date format and JSON are parameters: the stamp in
-- a record's key, a time as it is shown, and the text of the record.
use omarchy_cli.Base.{
  Bool, List, Option, String, Text, [], codes, decimal, exists, false, first, if◌then◌else◌,
  is_some, leb, length, map, none, not, or_else, select, slice_front, some, str_eq, true, update, ℕ,
  ◌&&◌, ◌++◌, ◌∷◌,
}
use omarchy_cli.Factory.Rows.{
  Blob, Block, Contributor, Event, Kind, Level, Stage, Store, Task, Value, Worker, param,
}
use omarchy_cli.Factory.Reply.{Reply, answer, or_refuse, require, ◌>>=◌, ◌>>◌}
use omarchy_cli.Review.Decide.{is_live, is_maintainer}
use omarchy_cli.Factory.Complete.Build.{superseded}
use omarchy_cli.Factory.Record.{has_key}
use omarchy_cli.Factory.Tests.{holds_name, is_project, is_queued, kind_eq}
use omarchy_cli.Schedule.Queue.{trim}

-- What a record of a block says, less the owner and the rings of a package.
pub record BlockNote : Type 0 where
  pub subject : String
  pub lifted : Option Block
  pub by : String
  pub at : ℕ
  pub reason : Text
  pub packages : List String
  pub workers : List String

pub record Clock : Type 0 where
  pub stamp : ℕ → Text
  pub iso : ℕ → Text
  pub document : BlockNote → Text

-- A reason of four characters or more.
unfoldable pub reason_of : Option Text → Option Text
unfolding trim
reason_of none = none
reason_of (some s) = if leb 4 (length (trim s)) then some s else none

abbrev pub is_login : String → Contributor → Bool
is_login login c = str_eq c.login login

-- `putRecord`: refused where the key is taken.
unfoldable pub put_record : Text → Text → List Blob → Option (List Blob)
unfolding exists
put_record key bytes pool =
    if exists (has_key key) pool then none else some ((record { key = key; bytes = bytes }) ∷ pool)

-- UPDATE build_workers SET revoked_at = ? WHERE owner = ? AND revoked_at IS NULL
abbrev pub works_for : String → Worker → Bool
works_for login w = holds_name w.owner login && not (is_some w.revoked_at)

unfoldable pub revoke : ℕ → Worker → Worker
revoke at w = record w { revoked_at = some at }

-- owner = ? AND trust = 'community' AND status IN ('queued', 'leased', 'staged')
abbrev pub builds_for : String → Task → Bool
builds_for login t = holds_name t.owner login && not (is_project t.trust) && is_live t.status

-- kind = 'audit' AND status = 'queued' AND json_extract(params, ?) = ?
abbrev pub audit_with : String → String → Task → Bool
audit_with key s t =
    kind_eq t.kind Kind.audit && is_queued t.status && (elim (param key (or_else t.params [])) [
      | some v ↦ elim v [ Value.str x ↦ str_eq x s | _ ↦ false ]
      | none ↦ false
    ])

unfoldable pub block_contributor_store : Contributor → String → Text → ℕ → Store → Store
unfolding superseded revoke
block_contributor_store c login reason now st =
    let short = slice_front 200 reason in
    record st {
      contributors =
          update (is_login login)
            (λ p. record p { blocked = some (record { at = now; by = c.login; reason = reason }) })
            st.contributors;
      workers = update (works_for login) (revoke now) st.workers;
      tasks =
          update (audit_with "owner" login)
            (superseded (codes "the build it audited was cancelled: its owner was blocked"))
            (update (builds_for login)
              (superseded
                (codes login ++ codes " was blocked by " ++ codes c.login ++ codes ": " ++ short))
              st.tasks);
      registrations =
          update (λ p. str_eq p.owner login)
            (λ p. record p {
              status = Stage.rejected;
              detail = some (codes "owner blocked by " ++ codes c.login ++ codes ": " ++ short);
              updated_at = now;
            })
            st.registrations;
    }

unfoldable pub block_line : Level → Text → Event
block_line status summary = record {
  kind = "block";
  ring = none;
  source = some "factory";
  status = status;
  summary = summary;
}

-- The record and the line of the journal; an exception of the record leaves what is written.
unfoldable pub noted : Text → Text → Event → Store → Bool × Store
unfolding put_record
noted key bytes line st = elim (put_record key bytes st.pool) [
  | none ↦ (false, st)
  | some pool ↦ (true, record st { pool = pool; events = line ∷ st.events })
]

module _ (clock : Clock) where
  -- `handleBlockContributor`: whether the record was written, and the store.
  unfoldable pub handle_block_contributor :
      Contributor → String → Option Text → ℕ → Store → Reply (Bool × Store)
  unfolding is_maintainer reason_of block_contributor_store noted block_line
  handle_block_contributor c login reason now st = do
    require (is_maintainer c) 403
    why ← or_refuse (reason_of reason) 400
    require (not (str_eq login c.login)) 400
    who ← or_refuse (first (is_login login) st.contributors) 404
    require (not (is_maintainer who)) 409
    require (not (is_some who.blocked)) 409
    let packages = map (λ p. p.name) (select (λ p. str_eq p.owner login) st.registrations)
    let workers = map (λ w. w.id) (select (works_for login) st.workers)
    let note : BlockNote = record {
      subject = login;
      lifted = none;
      by = c.login;
      at = now;
      reason = why;
      packages = packages;
      workers = workers;
    }
    answer (
        noted
          (codes "contributors/"
            ++ codes login
            ++ codes "/block-"
            ++ clock.stamp now
            ++ codes ".json")
          (clock.document note)
          (block_line Level.warn (
            codes login
            ++ codes " blocked by "
            ++ codes c.login
            ++ codes ": "
            ++ slice_front 140 why
            ++ codes " — "
            ++ decimal (length packages)
            ++ codes " package(s) rejected, "
            ++ decimal (length workers)
            ++ codes " worker(s) revoked"))
          (block_contributor_store c login why now st))

  -- `handleUnblockContributor`
  unfoldable pub handle_unblock_contributor :
      Contributor → String → Option Text → ℕ → Store → Reply (Bool × Store)
  unfolding is_maintainer reason_of noted block_line
  handle_unblock_contributor c login reason now st = do
    require (is_maintainer c) 403
    why ← or_refuse (reason_of reason) 400
    who ← or_refuse (first (is_login login) st.contributors) 409
    block ← or_refuse who.blocked 409
    require (not (str_eq block.by c.login)) 403
    let note : BlockNote = record {
      subject = login;
      lifted = some block;
      by = c.login;
      at = now;
      reason = why;
      packages = [];
      workers = [];
    }
    answer (
        noted
          (codes "contributors/"
            ++ codes login
            ++ codes "/unblock-"
            ++ clock.stamp now
            ++ codes ".json")
          (clock.document note)
          (block_line Level.ok (
            codes login
            ++ codes " unblocked by "
            ++ codes c.login
            ++ codes ": "
            ++ slice_front 140 why
            ++ codes " (blocked by "
            ++ codes block.by
            ++ codes " since "
            ++ clock.iso block.at
            ++ codes "); workers and packages need registering again"))
          (record st {
            contributors =
                update (is_login login) (λ p. record p { blocked = none }) st.contributors;
          }))
