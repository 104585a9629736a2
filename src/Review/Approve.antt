-- ===== src/Review/Approve.antt =====
-- Approval and rejection: handleApprove and handleReject of worker/src/routes/review.ts.
use omarchy_cli.Base.{
  Bool, List, Option, Text, [], codes, decimal, exists, false, first, none, not, shown, shown_after,
  slice_front, some, suc, true, update, ℕ, ◌&&◌, ◌++◌, ◌==◌, ◌∷◌,
}
use omarchy_cli.Factory.Rows.{
  Approval, Contributor, Decision, Kind, Level, Stage, Status, Store, Task, Value,
}
use omarchy_cli.Factory.Reply.{Reply, answer, or_refuse, require, ◌>>=◌, ◌>>◌}
use omarchy_cli.Review.Decide.{
  cancel_pending_audit, decision_event, is_maintainer, owner_of, staged_packages, text_value,
  version_and_arch,
}
use omarchy_cli.Factory.Enqueue.{blank_task, insert_task, is_empty}
use omarchy_cli.Factory.Journal.{arch_name, arch_text, set_stage}
use omarchy_cli.Factory.Tests.{has_id, holds_name, is_project, is_staged}

-- The row of the publish job of an approved build.
unfoldable pub publish_task : Contributor → Task → List Text → ℕ → ℕ → Task
unfolding blank_task text_value
publish_task c t files now id =
    let row = blank_task id t.name t.arch (codes "-") (codes "approved by " ++ codes c.login) now in
    record row {
      version = t.version;
      priority = 20;
      kind = Kind.publish;
      params = some (
          ("task", Value.num t.id)
          ∷ ("name", Value.str t.name)
          ∷ ("arch", Value.str (arch_name t.arch))
          ∷ ("version", text_value t.version)
          ∷ ("files", Value.texts files)
          ∷ ("by", Value.str c.login)
          ∷ []);
    }

-- INSERT INTO approvals
unfoldable pub decide : Decision → Contributor → Task → Option Text → Option ℕ → Store → Store
decide decision c t note rebuild st = record st {
  approvals =
      (record {
        id = st.next_approval;
        task_id = t.id;
        name = t.name;
        arch = t.arch;
        version = t.version;
        decision = decision;
        by = c.login;
        note = note;
        rebuild_task = rebuild;
      })
      ∷ st.approvals;
  next_approval = suc st.next_approval;
}

abbrev pub is_approved : Decision → Bool
is_approved Decision.approved = true
is_approved Decision.rejected = false

-- SELECT id FROM approvals WHERE task_id = ? AND decision = 'approved'
abbrev pub approves : ℕ → Approval → Bool
approves id a = a.task_id == id && is_approved a.decision

unfoldable pub approve_store : Contributor → Task → List Text → Option Text → ℕ → Store → Store
unfolding publish_task insert_task decide set_stage cancel_pending_audit decision_event
    version_and_arch
approve_store c t files note now st =
    let job = st.next_task in
    let decided =
      decide Decision.approved c t note (some t.id) (insert_task (publish_task c t files now) st) in
    record decided {
      registrations =
          set_stage t.name Stage.approved
            (shown t.version
              ++ codes " for "
              ++ arch_text t.arch
              ++ codes " approved by "
              ++ codes c.login
              ++ codes "; publishing the project's build (job "
              ++ decimal job
              ++ codes ")")
            now decided.registrations;
      tasks = cancel_pending_audit t.id decided.tasks;
      events =
          decision_event "approve" (some "edge") Level.ok (
            version_and_arch t
            ++ codes " approved by "
            ++ codes c.login
            ++ shown_after (codes " — ")
                (elim note [ none ↦ none | some n ↦ some (slice_front 120 n) ])
            ++ codes "; the project's build "
            ++ decimal t.id
            ++ codes " goes into edge (job "
            ++ decimal job
            ++ codes ")")
          ∷ decided.events;
    }

-- `handleApprove`: the id of the publish job.
unfoldable pub handle_approve : Contributor → ℕ → Option Text → ℕ → Store → Reply (ℕ × Store)
unfolding is_maintainer owner_of approve_store staged_packages
handle_approve c id note now st = do
  t ← or_refuse (first (has_id id) st.tasks) 404
  require (is_staged t.status) 409
  require (is_project t.trust) 409
  require (is_maintainer c) 403
  require (not (holds_name (owner_of t.name t.owner st.registrations) c.login)) 403
  require (not (exists (approves id) st.approvals)) 409
  let files = staged_packages id st.staging_objects
  require (not (is_empty files)) 409
  answer (st.next_task, approve_store c t files note now st)

-- UPDATE build_tasks SET status = 'cancelled', error = ?
unfoldable pub rejected_task : Contributor → Text → Task → Task
rejected_task c note t = record t {
  status = Status.cancelled;
  error = some (codes "rejected by " ++ codes c.login ++ codes ": " ++ slice_front 500 note);
}

unfoldable pub reject_store : Contributor → Task → Text → ℕ → Store → Store
unfolding decide rejected_task set_stage cancel_pending_audit decision_event version_and_arch
reject_store c t note now st =
    let decided = decide Decision.rejected c t (some note) none st in
    record decided {
      tasks = cancel_pending_audit t.id (update (has_id t.id) (rejected_task c note) decided.tasks);
      registrations =
          set_stage t.name Stage.registered
            (codes "rejected by " ++ codes c.login ++ codes ": " ++ slice_front 200 note) now
            decided.registrations;
      events =
          decision_event "approve" none Level.warn (
            version_and_arch t
            ++ codes " rejected by "
            ++ codes c.login
            ++ codes ": "
            ++ slice_front 140 note)
          ∷ decided.events;
    }

-- A note that says why.
unfoldable pub reason_given : Option Text → Option Text
reason_given none = none
reason_given (some []) = none
reason_given (some (c ∷ s)) = some (c ∷ s)

-- `handleReject`
unfoldable pub handle_reject : Contributor → ℕ → Option Text → ℕ → Store → Reply (ℕ × Store)
unfolding is_maintainer reject_store reason_given
handle_reject c id note now st = do
  why ← or_refuse (reason_given note) 400
  t ← or_refuse (first (has_id id) st.tasks) 404
  require (is_staged t.status) 409
  require (is_maintainer c) 403
  answer (id, reject_store c t why now st)
