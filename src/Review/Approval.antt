-- ===== src/Review/Approval.antt =====
-- Who may approve, what, and how often: handleApprove of worker/src/routes/review.ts.
use omarchy_cli.Base.{
  Option, Option-cases, Text, [], arith, exists, false, first, inl, inr, or_else, some, true, ℕ,
  ◌≡◌, List, refl, update, first-test, subst, ◌==◌,
}
use omarchy_cli.Factory.Enqueue.{is_empty, blank_task, insert_task}
use omarchy_cli.Factory.Reply.{answer}
use omarchy_cli.Factory.Rows.{Contributor, Kind, Status, Store, Task, Value, param}
use omarchy_cli.Factory.Tests.{has_id, holds_name, is_project, is_staged}
use omarchy_cli.Review.Approve.{approves, handle_approve, approve_store, decide, publish_task}
use omarchy_cli.Review.Decide.{is_maintainer, owner_of, staged_packages, cancel_pending_audit}

-- A project's staged build with a package, of a maintainer who did not bring it, not approved yet.
pub record Approvable (c : Contributor) (id : ℕ) (st : Store) : Type 0 where
  pub task : Task
  pub found : first (has_id id) st.tasks ≡ some task
  pub staged : is_staged task.status ≡ true
  pub project : is_project task.trust ≡ true
  pub maintainer : is_maintainer c ≡ true
  pub not_owner : holds_name (owner_of task.name task.owner st.registrations) c.login ≡ false
  pub undecided : exists (approves id) st.approvals ≡ false
  pub package_staged : is_empty (staged_packages id st.staging_objects) ≡ false

-- The publish job that an approval queues, as it stands in the queue.
pub record Published (c : Contributor) (id job : ℕ) (st : Store) : Type 0 where
  pub row : Task
  pub found : first (has_id job) st.tasks ≡ some row
  pub kind : row.kind ≡ Kind.publish
  pub names : param "task" (or_else row.params []) ≡ some (Value.num id)
  pub by : param "by" (or_else row.params []) ≡ some (Value.str c.login)
  pub queued : row.status ≡ Status.queued

handle_approve-Approvable :
    (c : Contributor) (id : ℕ) (why : Option Text) (now job : ℕ) (st st' : Store)
    → handle_approve c id why now st ≡ answer (job, st')
    → Approvable c id st
unfolding handle_approve
handle_approve-Approvable c id why now job st st' e =
    elim (Option-cases (first (has_id id) st.tasks)) [
      | inl f ↦ ground arith
      | inr (t, f) ↦ record {
        task = t;
        found = f;
        staged = ground arith;
        project = ground arith;
        maintainer = ground arith;
        not_owner = ground arith;
        undecided = ground arith;
        package_staged = ground arith;
      }
    ]

approve_store-Published :
    (c : Contributor) (t : Task) (files : List Text) (why : Option Text) (now : ℕ) (st : Store)
    → Published c t.id st.next_task (approve_store c t files why now st)
unfolding approve_store decide insert_task publish_task blank_task cancel_pending_audit param first
    update
approve_store-Published c t files why now st = record {
  row = publish_task c t files now st.next_task;
  found = ground arith;
  kind = refl;
  names = ground arith;
  by = ground arith;
  queued = refl;
}

-- What an answered approval tells: the build is a staged one of the project with a package in
-- staging and no approval before, who approves is a maintainer and not the package's owner, and
-- the queue holds a publish job in their name for this build, under the id that is answered.
pub handle_approve-Approved :
    (c : Contributor) (id : ℕ) (why : Option Text) (now job : ℕ) (st st' : Store)
    → handle_approve c id why now st ≡ answer (job, st')
    → Approvable c id st × Published c id job st'
unfolding handle_approve
handle_approve-Approved c id why now job st st' e =
    let a = handle_approve-Approvable c id why now job st st' e in
    let files = staged_packages id st.staging_objects in
    let tested : (a.task.id == id) ≡ true = first-test (has_id id) st.tasks a.task a.found in
    let here : a.task.id ≡ id = ground arith in
    let made : (st.next_task, approve_store c a.task files why now st) ≡ (job, st') =
      (let f = a.found in
        let s = a.staged in
        let p = a.project in
        let m = a.maintainer in
        let o = a.not_owner in let u = a.undecided in let g = a.package_staged in ground arith) in
    (
      a,
      subst (λ (j, s). Published c id j s) made
          (subst (λ n. Published c n st.next_task (approve_store c a.task files why now st)) here
            (approve_store-Published c a.task files why now st)),
    )
