-- ===== src/World/Vouched.antt =====
-- Every publish job names a build that a maintainer approved (worker/src/routes/review.ts): the
-- invariant, what keeps it, and the approval that makes such a job.
use omarchy_cli.Base.{
  All, List, Option, [], exists, false, or_else, some, true, ℕ, ◌∷◌, ◌≡◌, Text, arith, codes, refl,
  suc, first, not,
}
use omarchy_cli.Factory.Queue.Operations.{QueueOk}
use omarchy_cli.Factory.Rows.{
  Approval, Kind, Params, Store, Task, Value, param, Contributor, Decision,
}
use omarchy_cli.Factory.Tests.{kind_eq, has_id, holds_name, is_project, is_staged}
use omarchy_cli.Review.Approve.{approves, approve_store, decide, publish_task, handle_approve}
use omarchy_cli.World.Evolves.{KeepsApprovals, Steady}
use omarchy_cli.World.Sound.{SoundStep, SoundStep-QueueOk, superseded-Sound}
use omarchy_cli.Factory.Complete.Build.{audits}
use omarchy_cli.Factory.Enqueue.{blank_task, insert_task, is_empty}
use omarchy_cli.Review.Decide.{cancel_pending_audit, is_maintainer, owner_of, staged_packages}
use omarchy_cli.World.Reviews.{more-KeepsApprovals}
use omarchy_cli.Factory.Reply.{after}
use omarchy_cli.Factory.Chains.{or_refuse-after, require-after}
use omarchy_cli.Factory.Queue.Keys.{Below}
use omarchy_cli.Factory.Queue.Rows.{RowFits}

-- A publish job's parameters name a task with an approval.
abbrev pub Vouch : Kind → Option Params → List Approval → Type 0
Vouch Kind.publish ps xs =
    (id : ℕ) × (param "task" (or_else ps []) ≡ some (Value.num id))
    × (exists (approves id) xs ≡ true)
Vouch _ ps xs = Unit

abbrev pub Vouched : List Approval → Task → Type 0
Vouched xs t = Vouch t.kind t.params xs

Vouch-plain :
    (k : Kind) (ps : Option Params) (xs : List Approval)
    → kind_eq k Kind.publish ≡ false
    → Vouch k ps xs
Vouch-plain k ps xs e = ground arith

Vouched-Steady : (xs : List Approval) → Steady (Vouched xs)
Vouched-Steady xs = record {
  keep = λ t u k p v. rw (k, p) v;
  fresh = λ t e. Vouch-plain t.kind t.params xs e;
}

Vouch-KeepsApprovals :
    (k : Kind) (ps : Option Params) (xs ys : List Approval)
    → KeepsApprovals xs ys
    → Vouch k ps xs
    → Vouch k ps ys
Vouch-KeepsApprovals Kind.publish ps xs ys keeps (id, p, a) = (id, p, keeps id a)
Vouch-KeepsApprovals _ ps xs ys keeps v = tt

All-Vouched :
    (xs ys : List Approval) (ts : List Task)
    → KeepsApprovals xs ys
    → All (Vouched xs) ts
    → All (Vouched ys) ts
All-Vouched xs ys [] keeps v = tt
All-Vouched xs ys (t ∷ ts) keeps (v, vs) =
    (Vouch-KeepsApprovals t.kind t.params xs ys keeps v, All-Vouched xs ys ts keeps vs)

-- The queue's order and the publish jobs' approvals.
pub record Trusted (st : Store) : Type 0 where
  pub queue : QueueOk st
  pub vouched : All (Vouched st.approvals) st.tasks

pub SoundStep-Trusted : (st st' : Store) → SoundStep st st' → Trusted st → Trusted st'
SoundStep-Trusted st st' s h = record {
  queue = SoundStep-QueueOk st st' s h.queue;
  vouched =
      All-Vouched st.approvals st'.approvals st'.tasks s.1.1
        (s.1.0 (Vouched st.approvals) (Vouched-Steady st.approvals) h.vouched);
}

decide-approves :
    (c : Contributor) (t : Task) (note : Option Text) (st : Store)
    → exists (approves t.id) (decide Decision.approved c t note (some t.id) st).approvals ≡ true
unfolding decide exists
decide-approves c t why st = ground arith

approve_store-Trusted :
    (c : Contributor) (t : Task) (files : List Text) (note : Option Text) (now : ℕ) (st : Store)
    → Trusted st
    → Trusted (approve_store c t files note now st)
unfolding approve_store decide insert_task publish_task blank_task cancel_pending_audit param
approve_store-Trusted c t files note now st h =
    let xs = st.approvals in
    let row = publish_task c t files now st.next_task in
    let made = decide Decision.approved c t note (some t.id) st in
    let ys = made.approvals in
    let why = codes "the build was decided before the audit ran" in
    let swept = superseded-Sound (audits t.id) why (row ∷ st.tasks) (suc st.next_task) ys in
    let named : Vouched ys row = (t.id, refl, decide-approves c t note st) in
    let old = All-Vouched xs ys st.tasks (more-KeepsApprovals _ xs) h.vouched in
    let below : Below (suc st.next_task) (row ∷ st.tasks) = (omega arith, h.queue.keys) in
    let fits : RowFits row = (refl, refl, omega arith) in
    let (keys, rows) = swept.0 below (fits, h.queue.rows) in
    record {
      queue = record { keys = keys; rows = rows };
      vouched = swept.1.0 (Vouched ys) (Vouched-Steady ys) (named, old);
    }

pub handle_approve-Trusted :
    (c : Contributor) (id : ℕ) (note : Option Text) (now : ℕ) (st : Store)
    → Trusted st
    → Trusted (after st (handle_approve c id note now st))
unfolding handle_approve
handle_approve-Trusted c id note now st h =
    or_refuse-after Trusted st (first (has_id id) st.tasks) 404 _ h (λ t.
      require-after Trusted st (is_staged t.status) 409 _ h (
        require-after Trusted st (is_project t.trust) 409 _ h (
          require-after Trusted st (is_maintainer c) 403 _ h (
            require-after Trusted st
              (not (holds_name (owner_of t.name t.owner st.registrations) c.login)) 403 _ h
              (require-after Trusted st (not (exists (approves id) st.approvals)) 409 _ h (
                require-after Trusted st (not (is_empty (staged_packages id st.staging_objects)))
                  409 _ h
                  (approve_store-Trusted c t (staged_packages id st.staging_objects) note now st
                    h)))))))

pub handle_approve-KeepsApprovals :
    (c : Contributor) (id : ℕ) (why : Option Text) (now : ℕ) (st : Store)
    → KeepsApprovals st.approvals (after st (handle_approve c id why now st)).approvals
unfolding handle_approve approve_store decide
handle_approve-KeepsApprovals c id why now st =
    let P : Store → Type 0 = λ s. KeepsApprovals st.approvals s.approvals in
    let same : P st = λ i h. h in
    or_refuse-after P st (first (has_id id) st.tasks) 404 _ same (λ t.
      require-after P st (is_staged t.status) 409 _ same (
        require-after P st (is_project t.trust) 409 _ same (
          require-after P st (is_maintainer c) 403 _ same (
            require-after P st (not (holds_name (owner_of t.name t.owner st.registrations) c.login))
              403 _ same
              (require-after P st (not (exists (approves id) st.approvals)) 409 _ same (
                require-after P st (not (is_empty (staged_packages id st.staging_objects))) 409 _
                  same (more-KeepsApprovals _ st.approvals)))))))
