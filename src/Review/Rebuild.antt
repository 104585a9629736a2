-- ===== src/Review/Rebuild.antt =====
-- What a request of the project's build and a rejection leave: handleProjectBuild and handleReject
-- of worker/src/routes/review.ts.
use omarchy_cli.Base.{
  Bool, Bool-cases, List, Option, Option-cases, String, Text, [], arith, exists, false, first,
  first-test, inl, inr, refl, some, subst, true, update, ℕ, ◌==◌, ◌∷◌, ◌≡◌, ap, sym, ◌≢◌, codes,
  or_else,
}
use omarchy_cli.Factory.Enqueue.{blank_task, insert_task}
use omarchy_cli.Factory.Journal.{is_named}
use omarchy_cli.Factory.Reply.{Reply-cases, answer, refuse, after}
use omarchy_cli.Factory.Rows.{Contributor, Registration, Store, Task, param, Kind, Value}
use omarchy_cli.Factory.Tests.{has_id, holds_name, is_project, is_staged, is_queued, kind_eq}
use omarchy_cli.Review.Decide.{
  build_store, handle_project_build, in_flight, is_maintainer, owner_of, review_params, review_task,
  cancel_pending_audit,
}
use omarchy_cli.Factory.Complete.Build.{superseded, audits}
use omarchy_cli.Review.Approve.{decide, handle_reject, reject_store, rejected_task, reason_given}
use omarchy_cli.Factory.Chains.{or_refuse-after, or_refuse-found, require-after}

-- The project's build of contributor `c`'s choice, as it stands in the queue.
pub record Rebuilding (c : Contributor) (id job : ℕ) (st st' : Store) : Type 0 where
  pub source : Task
  pub found : first (has_id id) st.tasks ≡ some source
  pub community : is_project source.trust ≡ false
  pub staged : is_staged source.status ≡ true
  pub maintainer : is_maintainer c ≡ true
  pub not_owner : holds_name (owner_of source.name source.owner st.registrations) c.login ≡ false
  pub idle : exists (in_flight id) st.tasks ≡ false
  pub row : Task
  pub queue : st'.tasks ≡ row ∷ st.tasks
  pub job_id : row.id ≡ job
  pub flies : in_flight id row ≡ true
  pub dry : row.publish ≡ false

build_store-flies :
    (c : Contributor) (t : Task) (owner : Option String) (why : Option Text)
    (p : Option Registration) (now job : ℕ)
    → in_flight t.id (review_task c t owner why p now job) ≡ true
unfolding review_task blank_task review_params param
build_store-flies c t owner why p now job = ground arith

-- What an answered request for the project's build tells: the task is a contributor's staged build
-- of a package that the maintainer who asks did not bring, and the queue gets one task more, the
-- project's build of it, in flight under the id that is answered and not to be published by itself.
pub handle_project_build-Rebuilding :
    (c : Contributor) (id : ℕ) (why : Option Text) (now job : ℕ) (st st' : Store)
    → handle_project_build c id why now st ≡ answer (job, st')
    → Rebuilding c id job st st'
unfolding handle_project_build build_store insert_task review_task blank_task
handle_project_build-Rebuilding c id why now job st st' e =
    elim (Option-cases (first (has_id id) st.tasks)) [
      | inl f ↦ ground arith
      | inr (t, f) ↦
          let owner = owner_of t.name t.owner st.registrations in
          let regs = first (is_named t.name) st.registrations in
          let row = review_task c t owner why regs now st.next_task in
          let tested : (t.id == id) ≡ true = first-test (has_id id) st.tasks t f in
          let here : t.id ≡ id = ground arith in
          record {
            source = t;
            found = f;
            community = ground arith;
            staged = ground arith;
            maintainer = ground arith;
            not_owner = ground arith;
            idle = ground arith;
            row = row;
            queue = ground arith;
            job_id = ground arith;
            flies =
                subst (λ n. in_flight n row ≡ true) here
                  (build_store-flies c t owner why regs now st.next_task);
            dry = refl;
          }
    ]

-- Right behind an answered request for the project's build of a contributor's one, another request
-- for it is refused, whoever asks and at any time.
pub handle_project_build-once :
    (c d : Contributor) (id : ℕ) (why because : Option Text) (now later job : ℕ) (st st' : Store)
    → handle_project_build c id why now st ≡ answer (job, st')
    → (n : ℕ) × (handle_project_build d id because later st' ≡ refuse n)
unfolding exists
handle_project_build-once c d id why because now later job st st' e =
    let r = handle_project_build-Rebuilding c id why now job st st' e in
    elim (Reply-cases (handle_project_build d id because later st')) [
      | inr refused ↦ refused
      | inl (made, f) ↦
          let queue = r.queue in
          let flies = r.flies in
          let known : exists (in_flight id) st'.tasks ≡ true = rw (queue, flies) refl in
          let idle =
            (handle_project_build-Rebuilding d id because later made.0 st' made.1 f).idle in
          ground arith
    ]

-- Rows that are not changed are found as they were.
pub first-update_same :
    (job : ℕ) (test : Task → Bool) (change : Task → Task) (ts : List Task) (row : Task)
    → ((t : Task) → (change t).id ≡ t.id)
    → test row ≡ false
    → first (has_id job) ts ≡ some row
    → first (has_id job) (update test change ts) ≡ some row
unfolding first update
first-update_same job test change [] row same skip e = ground arith
first-update_same job test change (t ∷ ts) row same skip e =
    let rest = first-update_same job test change ts row same skip in
    let kept = same t in
    elim (Bool-cases (has_id job t)) [
      | inl h ↦
          let it : t ≡ row = ground arith in
          let unchanged : test t ≡ false = subst (λ x. test x ≡ false) (sym it) skip in
          rw unchanged (rw h (ap (λ x. some x) it))
      | inr h ↦ elim (Bool-cases (test t)) [
        | inl x ↦ rw x (rw (kept, h) (rest (ground arith)))
        | inr x ↦ rw x (rw h (rest (ground arith)))
      ]
    ]

-- An audit of this task that no worker has taken yet.
abbrev pub WaitingAudit : ℕ → Task → Type 0
WaitingAudit id u =
    (kind_eq u.kind Kind.audit ≡ true)
    × (is_queued u.status ≡ true)
    × (param "task" (or_else u.params []) ≡ some (Value.num id))

audits-WaitingAudit : (id : ℕ) (u : Task) → audits id u ≡ true → WaitingAudit id u
audits-WaitingAudit id u h = ground arith

audits-none : (id : ℕ) (u : Task) → ¬ WaitingAudit id u → audits id u ≡ false
audits-none id u k = elim (Bool-cases (audits id u)) [
  | inl e ↦ absurd (k (audits-WaitingAudit id u e))
  | inr e ↦ e
]

-- A rejection, answered or refused, leaves every task but the rejected one and the queued audits of
-- it as it was: under its id the task is found as before. The publish job of an approval of the same
-- build is one of them and stays in the queue; so are a running audit and the audits of other builds.
pub handle_reject-others :
    (c : Contributor) (id job : ℕ) (why : Option Text) (now : ℕ) (row : Task) (st : Store)
    → ¬ WaitingAudit id row
    → row.id ≢ id
    → first (has_id job) st.tasks ≡ some row
    → first (has_id job) (after st (handle_reject c id why now st)).tasks ≡ some row
unfolding handle_reject reject_store rejected_task decide cancel_pending_audit superseded
handle_reject-others c id job why now row st k other e =
    let P : Store → Type 0 = λ s. first (has_id job) s.tasks ≡ some row in
    or_refuse-after P st (reason_given why) 400 _ e (λ note.
      or_refuse-found P st (first (has_id id) st.tasks) 404 _ e (λ t found.
        require-after P st (is_staged t.status) 409 _ e (
          require-after P st (is_maintainer c) 403 _ e (
            let tested : (t.id == id) ≡ true = first-test (has_id id) st.tasks t found in
            let here : t.id ≡ id = ground arith in
            let away : has_id t.id row ≡ false = ground arith in
            let not_its : audits t.id row ≡ false =
              subst (λ n. audits n row ≡ false) (sym here) (audits-none id row k) in
            let change = rejected_task c note in
            let gone = superseded (codes "the build was decided before the audit ran") in
            first-update_same job (audits t.id) gone (update (has_id t.id) change st.tasks) row
              (λ u. refl) not_its
              (first-update_same job (has_id t.id) change st.tasks row (λ u. refl) away e)))))
