-- ===== src/Review/Rejection.antt =====
-- What a rejection asks for and what it leaves: handleReject of worker/src/routes/review.ts.
use omarchy_cli.Base.{
  All, Bool, Bool-cases, List, Option, Option-cases, Text, [], arith, first, inl, inr, map, refl,
  some, true, update, ℕ, ◌∷◌, ◌≡◌, codes, first-test, subst, sym, ◌==◌, ◌∙◌, false, none, ◌≢◌,
}
use omarchy_cli.Factory.Complete.Build.{audits, superseded}
use omarchy_cli.Factory.Reply.{answer}
use omarchy_cli.Factory.Rows.{Approval, Contributor, Decision, Status, Store, Task}
use omarchy_cli.Factory.Tests.{has_id, is_staged}
use omarchy_cli.Review.Approve.{handle_reject, reason_given, decide, reject_store, rejected_task}
use omarchy_cli.Review.Decide.{cancel_pending_audit, is_maintainer}
use omarchy_cli.Review.Rebuild.{WaitingAudit, first-update_same}
use omarchy_cli.Factory.Rules.Failure.{first-update_id}
use omarchy_cli.Factory.Enqueue.{is_empty}

-- A staged build under the id, a maintainer who decides, and a reason that is not empty.
pub record Rejectable (c : Contributor) (id : ℕ) (why : Option Text) (st : Store) : Type 0 where
  pub task : Task
  pub found : first (has_id id) st.tasks ≡ some task
  pub staged : is_staged task.status ≡ true
  pub maintainer : is_maintainer c ≡ true
  pub reason : (note : Text) × (why ≡ some note) × (is_empty note ≡ false)

-- The build is cancelled under its id, no audit of it waits, the decision stands in front of the
-- earlier ones, and no task was added.
pub record Rejected (c : Contributor) (id : ℕ) (st st' : Store) : Type 0 where
  pub row : Task
  pub found : first (has_id id) st'.tasks ≡ some row
  pub cancelled : row.status ≡ Status.cancelled
  pub no_audit : All (λ u. ¬ WaitingAudit id u) st'.tasks
  pub decision : Approval
  pub written : st'.approvals ≡ decision ∷ st.approvals
  pub names : decision.task_id ≡ id
  pub refuses : decision.decision ≡ Decision.rejected
  pub by : decision.by ≡ c.login
  pub no_task : map (λ (u : Task). u.id) st'.tasks ≡ map (λ (u : Task). u.id) st.tasks

reason_given-nonempty :
    (why : Option Text)
    → reason_given why ≢ none
    → (note : Text) × (why ≡ some note) × (is_empty note ≡ false)
unfolding reason_given
reason_given-nonempty none h = absurd (h refl)
reason_given-nonempty (some []) h = absurd (h refl)
reason_given-nonempty (some (c ∷ s)) h = (c ∷ s, refl, refl)

handle_reject-Rejectable :
    (c : Contributor) (id n : ℕ) (why : Option Text) (now : ℕ) (st st' : Store)
    → handle_reject c id why now st ≡ answer (n, st')
    → Rejectable c id why st
unfolding handle_reject reason_given
handle_reject-Rejectable c id n why now st st' e =
    elim (Option-cases (first (has_id id) st.tasks)) [
      | inl f ↦ ground arith
      | inr (t, f) ↦ record {
        task = t;
        found = f;
        staged = ground arith;
        maintainer = ground arith;
        reason = reason_given-nonempty why (ground arith);
      }
    ]

ids-update :
    (test : Task → Bool) (change : Task → Task) (ts : List Task)
    → ((u : Task) → (change u).id ≡ u.id)
    → map (λ (u : Task). u.id) (update test change ts) ≡ map (λ (u : Task). u.id) ts
unfolding update
ids-update test change [] same = refl
ids-update test change (t ∷ ts) same =
    let rest = ids-update test change ts same in
    let kept = same t in
    elim (Bool-cases (test t)) [ inl h ↦ rw h (rw (kept, rest) refl) | inr h ↦ rw h (rw rest refl) ]

-- Cancelling the audits of a task leaves none that waits.
cancel_pending_audit-none :
    (id : ℕ) (ts : List Task) → All (λ u. ¬ WaitingAudit id u) (cancel_pending_audit id ts)
unfolding cancel_pending_audit update superseded
cancel_pending_audit-none id [] = tt
cancel_pending_audit-none id (t ∷ ts) =
    let rest = cancel_pending_audit-none id ts in
    elim (Bool-cases (audits id t)) [
      | inl h ↦ rw h ((λ w. ground arith), rest)
      | inr h ↦ rw h ((λ w. ground arith), rest)
    ]

reject_store-Rejected :
    (c : Contributor) (t : Task) (note : Text) (now : ℕ) (st : Store)
    → first (has_id t.id) st.tasks ≡ some t
    → Rejected c t.id st (reject_store c t note now st)
unfolding reject_store decide rejected_task cancel_pending_audit superseded
reject_store-Rejected c t note now st e =
    let change = rejected_task c note in
    let gone = update (has_id t.id) change st.tasks in
    let note_of = superseded (codes "the build was decided before the audit ran") in
    let hit = first-update_id change t.id st.tasks t (λ u. refl) e in
    record {
      row = change t;
      found =
          first-update_same t.id (audits t.id) note_of gone (change t) (λ u. refl) (ground arith)
            hit;
      cancelled = refl;
      no_audit = cancel_pending_audit-none t.id gone;
      decision = _;
      written = refl;
      names = refl;
      refuses = refl;
      by = refl;
      no_task =
          ids-update (audits t.id) note_of gone (λ u. refl)
          ∙ ids-update (has_id t.id) change st.tasks (λ u. refl);
    }

-- What an answered rejection tells: the build was staged, a maintainer rejected it and said why. It
-- is cancelled under its id, none of its audits waits any more, the rejection is on the record in
-- front of the earlier decisions, under the maintainer's login, and the tasks are the same by their
-- ids, so that no job was queued and none was dropped.
pub handle_reject-Rejected :
    (c : Contributor) (id n : ℕ) (why : Option Text) (now : ℕ) (st st' : Store)
    → handle_reject c id why now st ≡ answer (n, st')
    → Rejectable c id why st × Rejected c id st st'
unfolding handle_reject reason_given
handle_reject-Rejected c id n why now st st' e =
    let a = handle_reject-Rejectable c id n why now st st' e in
    elim (Option-cases (reason_given why)) [
      | inl none_given ↦ absurd (ground arith)
      | inr (note, given) ↦
          let tested : (a.task.id == id) ≡ true = first-test (has_id id) st.tasks a.task a.found in
          let here : a.task.id ≡ id = ground arith in
          let row : first (has_id a.task.id) st.tasks ≡ some a.task =
            subst (λ k. first (has_id k) st.tasks ≡ some a.task) (sym here) a.found in
          let made : reject_store c a.task note now st ≡ st' =
            (let f = a.found in let s = a.staged in let m = a.maintainer in ground arith) in
          (
            a,
            subst (Rejected c id st) made (
                subst (λ k. Rejected c k st (reject_store c a.task note now st)) here
                  (reject_store-Rejected c a.task note now st row)),
          )
    ]
