-- ===== src/Factory/Queue/Completion.antt =====
-- Completing a task keeps the queue's invariant, whichever of its three ways it takes.
use omarchy_cli.Base.{
  Bool-cases, List, Option, Option-cases, String, Text, [], arith, codes, inl, inr, none, refl,
  select, some, update, ℕ, ◌&&◌, ◌∷◌, ◌≡◌,
}
use omarchy_cli.Factory.Rows.{Kind, Store, Task, Vet}
use omarchy_cli.Factory.Claim.{Actor}
use omarchy_cli.Factory.Complete.{
  complete_build, complete_built, complete_staged, done_reply, handle_complete, result_object,
  vet_of,
}
use omarchy_cli.Factory.Complete.Build.{
  audit_task, audits, build_done, done_store, older_staged, publish_store, stage_store, stage_task,
  supersede, supersede_one, superseded, superseded_note,
}
use omarchy_cli.Factory.Complete.Job.{
  Attest, CompleteBody, attested_store, audited_store, complete_job, finish_audit, finish_kind,
  finish_publish, job_done, one_done, published_build, sha_of, take_category, task_param,
}
use omarchy_cli.Factory.Enqueue.{blank_task}
use omarchy_cli.Factory.Lease.{owned, staging_prefix, worker_name}
use omarchy_cli.Factory.Queue.Operations.{QueueOk, insert_task-QueueOk, same_tasks, update-QueueOk}
use omarchy_cli.Factory.Queue.Rows.{
  RowFits, build_done-RowFits, job_done-RowFits, published_build-RowFits, stage_task-RowFits,
  superseded-RowFits,
}
use omarchy_cli.Factory.Reply.{Reply-cases, after}
use omarchy_cli.Factory.Tests.{has_id, is_staged, kind_eq}

pub attested_store-tasks :
    (attest : Attest) (t : Task) (sha : Option String) (st : Store)
    → ((attested_store attest t sha st).1.tasks ≡ st.tasks)
      × ((attested_store attest t sha st).1.next_task ≡ st.next_task)
unfolding attested_store
attested_store-tasks attest t none st = (refl, refl)
attested_store-tasks attest t (some sha) st = ground arith

attested_store-QueueOk :
    (attest : Attest) (t : Task) (sha : Option String) (st : Store)
    → QueueOk st
    → QueueOk (attested_store attest t sha st).1
attested_store-QueueOk attest t sha st q =
    let (same, next) = attested_store-tasks attest t sha st in
    same_tasks st (attested_store attest t sha st).1 same next q

published_build-id : (sha : Option String) (t : Task) → (published_build sha t).id ≡ t.id
unfolding published_build
published_build-id sha t = refl

finish_publish-QueueOk :
    (attest : Attest) (t : Task) (b : CompleteBody) (now : ℕ) (built : Option ℕ) (st : Store)
    → QueueOk st
    → QueueOk (finish_publish attest t b now built st)
unfolding finish_publish
finish_publish-QueueOk attest t b now none st q = q
finish_publish-QueueOk attest t b now (some built) st q =
    let next =
      update-QueueOk (λ u. has_id built u && is_staged u.status) (published_build (sha_of b.result))
        st (published_build-id (sha_of b.result))
        (λ u h f. published_build-RowFits (sha_of b.result) u (ground arith) f) q in
    attested_store-QueueOk attest t (sha_of b.result) _
      (record { keys = next.keys; rows = next.rows })

pub finish_audit-tasks :
    (b : CompleteBody) (id : Option ℕ) (st : Store)
    → ((finish_audit b id st).tasks ≡ st.tasks) × ((finish_audit b id st).next_task ≡ st.next_task)
unfolding finish_audit audited_store take_category
finish_audit-tasks b none st = (refl, refl)
finish_audit-tasks b (some id) st = ground arith

finish_kind-QueueOk :
    (attest : Attest) (t : Task) (b : CompleteBody) (now : ℕ) (st : Store)
    → QueueOk st
    → QueueOk (finish_kind attest t b now st)
unfolding finish_kind
finish_kind-QueueOk attest t b now st q = elim (Bool-cases (kind_eq t.kind Kind.publish)) [
  | inl e ↦ rw e (finish_publish-QueueOk attest t b now (task_param t.params) st q)
  | inr e ↦ rw e (elim (Bool-cases (kind_eq t.kind Kind.audit)) [
    | inl a ↦
        let (same, next) = finish_audit-tasks b (task_param t.params) st in
        rw a (same_tasks st (finish_audit b (task_param t.params) st) same next q)
    | inr a ↦ rw a q
  ])
]

job_done-id : (b : CompleteBody) (now : ℕ) (t : Task) → (job_done b now t).id ≡ t.id
unfolding job_done
job_done-id b now t = refl

pub complete_job-QueueOk :
    (attest : Attest) (t : Task) (b : CompleteBody) (who : String) (now : ℕ) (st : Store)
    → QueueOk st
    → QueueOk (complete_job attest t b who now st)
unfolding complete_job
complete_job-QueueOk attest t b who now st q =
    let ended =
      update-QueueOk (has_id t.id) (job_done b now) st (job_done-id b now)
        (λ u h f. job_done-RowFits b now u f) q in
    let next =
      finish_kind-QueueOk attest t b now
        (record st {
          tasks = update (has_id t.id) (job_done b now) st.tasks;
          workers = one_done who now st.workers;
        })
        (record { keys = ended.keys; rows = ended.rows }) in
    record { keys = next.keys; rows = next.rows }

superseded-id : (note : Text) (t : Task) → (superseded note t).id ≡ t.id
unfolding superseded
superseded-id note t = refl

supersede-QueueOk :
    (t : Task) (note : Text) (olds : List Task) (st : Store)
    → QueueOk st
    → QueueOk (record st { tasks = supersede t note olds st.tasks })
unfolding supersede supersede_one
supersede-QueueOk t note [] st q = q
supersede-QueueOk t note (o ∷ olds) st q =
    let built =
      update-QueueOk (has_id o.id) (superseded note) st (superseded-id note)
        (λ u h f. superseded-RowFits note u f) q in
    let gone : Text = codes "the build it audited was superseded" in
    let audited =
      update-QueueOk (audits o.id) (superseded gone)
        (record st { tasks = update (has_id o.id) (superseded note) st.tasks }) (superseded-id gone)
        (λ u h f. superseded-RowFits gone u f) built in
    supersede-QueueOk t note olds
      (record st {
        tasks =
            update (audits o.id) (superseded gone)
              (update (has_id o.id) (superseded note) st.tasks);
      })
      audited

stage_task-id :
    (b : CompleteBody) (p : Text) (vet : Option Vet) (now : ℕ) (t : Task)
    → (stage_task b p vet now t).id ≡ t.id
unfolding stage_task
stage_task-id b p vet now t = refl

audit_task-id : (t : Task) (b : CompleteBody) (now id : ℕ) → (audit_task t b now id).id ≡ id
unfolding audit_task blank_task
audit_task-id t b now id = refl

audit_task-RowFits : (t : Task) (b : CompleteBody) (now id : ℕ) → RowFits (audit_task t b now id)
unfolding audit_task blank_task
audit_task-RowFits t b now id = (refl, refl, omega arith)

pub stage_store-QueueOk :
    (t : Task) (b : CompleteBody) (vet : Option Vet) (who : String) (now : ℕ) (st : Store)
    → QueueOk st
    → QueueOk (stage_store t b vet who now st)
unfolding stage_store
stage_store-QueueOk t b vet who now st q =
    let change = stage_task b (staging_prefix t) vet now in
    let staged =
      update-QueueOk (has_id t.id) change st (stage_task-id b (staging_prefix t) vet now)
        (λ u h f. stage_task-RowFits b (staging_prefix t) vet now u f) q in
    let rows : List Task = update (has_id t.id) change st.tasks in
    let next =
      supersede-QueueOk t (superseded_note t b) (select (older_staged t) rows)
        (record st { tasks = rows }) staged in
    insert_task-QueueOk (audit_task t b now) _ (audit_task-id t b now) (audit_task-RowFits t b now)
      (record { keys = next.keys; rows = next.rows })

build_done-id :
    (b : CompleteBody) (sha : String) (now : ℕ) (t : Task) → (build_done b sha now t).id ≡ t.id
unfolding build_done
build_done-id b sha now t = refl

pub done_store-QueueOk :
    (attest : Attest) (t : Task) (b : CompleteBody) (sha who : String) (now : ℕ) (st : Store)
    → QueueOk st
    → QueueOk (done_store attest t b sha who now st).1
unfolding done_store publish_store
done_store-QueueOk attest t b sha who now st q =
    let ended =
      update-QueueOk (has_id t.id) (build_done b sha now) st (build_done-id b sha now)
        (λ u h f. build_done-RowFits b sha now u f) q in
    elim (Bool-cases t.publish) [
      | inl e ↦
          rw (e, done_store)
            (attested_store-QueueOk attest t (some sha) _
              (record { keys = ended.keys; rows = ended.rows }))
      | inr e ↦ rw (e, done_store) (record { keys = ended.keys; rows = ended.rows })
    ]

complete_staged-QueueOk :
    (read_vet : Text → Option Vet) (t : Task) (b : CompleteBody) (who : String) (now : ℕ)
    (st : Store)
    → QueueOk st
    → QueueOk (after st (complete_staged read_vet t b who now st))
unfolding complete_staged
complete_staged-QueueOk read_vet t b who now st q =
    ground
      (arith, stage_store-QueueOk t b (vet_of read_vet (staging_prefix t) st.staging) who now st q)

complete_built-QueueOk :
    (attest : Attest) (t : Task) (b : CompleteBody) (who : String) (now : ℕ) (st : Store)
    → QueueOk st
    → QueueOk (after st (complete_built attest t b who now st))
unfolding complete_built done_reply
complete_built-QueueOk attest t b who now st q = elim (Option-cases (result_object t b st)) [
  | inl e ↦ rw (e, complete_built) q
  | inr (sha, e) ↦ rw (e, complete_built) (done_store-QueueOk attest t b sha who now st q)
]

complete_build-QueueOk :
    (read_vet : Text → Option Vet) (attest : Attest) (t : Task) (b : CompleteBody) (who : String)
    (now : ℕ) (st : Store)
    → QueueOk st
    → QueueOk (after st (complete_build read_vet attest t b who now st))
unfolding complete_build
complete_build-QueueOk read_vet attest t b who now st q = ground (
  arith,
  complete_staged-QueueOk read_vet t b who now st q,
  complete_built-QueueOk attest t b who now st q,
)

pub handle_complete-QueueOk :
    (read_vet : Text → Option Vet) (attest : Attest) (id : ℕ) (actor : Actor) (b : CompleteBody)
    (now : ℕ) (st : Store)
    → QueueOk st
    → QueueOk (after st (handle_complete read_vet attest id actor b now st))
unfolding handle_complete
handle_complete-QueueOk read_vet attest id actor b now st q =
    elim (Reply-cases (owned id actor st)) [
      | inr (n, e) ↦ rw (e, handle_complete) q
      | inl (t, e) ↦
          rw (e, handle_complete)
            (ground (
              arith,
              complete_build-QueueOk read_vet attest t b (worker_name actor) now st q,
              complete_job-QueueOk attest t b (worker_name actor) now st q,
            ))
    ]
