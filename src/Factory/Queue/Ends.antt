-- ===== src/Factory/Queue/Ends.antt =====
-- A task that was completed or failed is under nobody's lease (worker/src/routes/factory.ts).
use omarchy_cli.Base.{
  All, Bool, Bool-cases, List, Option, String, Text, [], arith, codes, false, first, inl, inr, none,
  refl, some, subst, sym, update, update-All, ℕ, ◌&&◌, ◌∷◌, ◌≡◌, Option-cases, select,
}
use omarchy_cli.Factory.Rows.{Kind, Store, Task, Vet}
use omarchy_cli.Factory.Claim.{Actor}
use omarchy_cli.Factory.Complete.Build.{
  audit_task, audits, build_done, done_store, publish_store, stage_store, stage_task, supersede,
  supersede_one, superseded, superseded_note, older_staged,
}
use omarchy_cli.Factory.Complete.Job.{
  Attest, CompleteBody, complete_job, finish_kind, finish_publish, job_done, published_build,
  sha_of, task_param,
}
use omarchy_cli.Factory.Enqueue.{blank_task, insert_task}
use omarchy_cli.Factory.Lease.{owned, staging_prefix, worker_name}
use omarchy_cli.Factory.Queue.Completion.{attested_store-tasks, finish_audit-tasks}
use omarchy_cli.Factory.Queue.Leases.{owned-holder, has_id-eq}
use omarchy_cli.Factory.Reply.{Reply, Reply-cases, answer, refuse}
use omarchy_cli.Factory.Tests.{has_id, is_leased, is_staged, kind_eq}
use omarchy_cli.Factory.Complete.{
  Completed, complete_build, complete_built, complete_staged, done_reply, handle_complete,
  result_object, vet_of,
}

-- No row with this id is leased.
abbrev pub Free : ℕ → Task → Type 0
Free id t = t.id ≡ id → is_leased t.status ≡ false

pub update-Free :
    (id : ℕ) (change : Task → Task) (ts : List Task)
    → ((t : Task) → is_leased (change t).status ≡ false)
    → All (Free id) (update (has_id id) change ts)
unfolding update
update-Free id change [] off = tt
update-Free id change (t ∷ ts) off = elim (Bool-cases (has_id id t)) [
  | inl e ↦ rw e ((λ k. off t), update-Free id change ts off)
  | inr e ↦ rw e ((λ k. absurd (ground arith)), update-Free id change ts off)
]

Free-first :
    (id : ℕ) (ts : List Task) (t : Task)
    → All (Free id) ts
    → first (has_id id) ts ≡ some t
    → is_leased t.status ≡ false
unfolding first
Free-first id [] t a e = cc
Free-first id (u ∷ us) t a e = elim (Bool-cases (has_id id u)) [
  | inl h ↦
      let same : u ≡ t = ground arith in
      subst (λ (x : Task). is_leased x.status ≡ false) same (a.0 (ground arith))
  | inr h ↦ Free-first id us t a.1 (ground arith)
]

-- Nobody can act on such a task.
abbrev pub Refused : Reply Task → Type 0
Refused (answer t) = ⊥
Refused (refuse n) = Unit {0}

owned-Refused :
    (id : ℕ) (actor : Actor) (st : Store) → All (Free id) st.tasks → Refused (owned id actor st)
owned-Refused id actor st a = elim (Reply-cases (owned id actor st)) [
  | inr (n, e) ↦ rw e tt
  | inl (t, e) ↦
      let (row, leased, held) = owned-holder id actor st t e in
      let free = Free-first id st.tasks t a row in absurd (cc)
]

-- A change that does not lease keeps it so.
change-Free :
    (id : ℕ) (test : Task → Bool) (change : Task → Task) (ts : List Task)
    → ((t : Task) → is_leased (change t).status ≡ false)
    → All (Free id) ts
    → All (Free id) (update test change ts)
change-Free id test change ts off = update-All (Free id) test change ts (λ t e f k. off t)

job_done-off : (b : CompleteBody) (now : ℕ) (t : Task) → is_leased (job_done b now t).status ≡ false
unfolding job_done
job_done-off b now t = refl

stage_task-off :
    (b : CompleteBody) (p : Text) (vet : Option Vet) (now : ℕ) (t : Task)
    → is_leased (stage_task b p vet now t).status ≡ false
unfolding stage_task
stage_task-off b p vet now t = refl

build_done-off :
    (b : CompleteBody) (sha : String) (now : ℕ) (t : Task)
    → is_leased (build_done b sha now t).status ≡ false
unfolding build_done
build_done-off b sha now t = refl

superseded-off : (note : Text) (t : Task) → is_leased (superseded note t).status ≡ false
unfolding superseded
superseded-off note t = refl

published_build-off :
    (sha : Option String) (t : Task) → is_leased (published_build sha t).status ≡ false
unfolding published_build
published_build-off sha t = refl

finish_kind-Free :
    (attest : Attest) (t : Task) (b : CompleteBody) (now id : ℕ) (st : Store)
    → All (Free id) st.tasks
    → All (Free id) (finish_kind attest t b now st).tasks
unfolding finish_kind
finish_kind-Free attest t b now id st a = elim (Bool-cases (kind_eq t.kind Kind.publish)) [
  | inl e ↦ rw e (publish_part (task_param t.params))
  | inr e ↦ rw e (elim (Bool-cases (kind_eq t.kind Kind.audit)) [
    | inl k ↦ rw k (subst (All (Free id)) (sym (finish_audit-tasks b (task_param t.params) st).0) a)
    | inr k ↦ rw k a
  ])
]
  where
    publish_part : (built : Option ℕ) → All (Free id) (finish_publish attest t b now built st).tasks
    publish_part none = unfold finish_publish in a
    publish_part (some built) =
        unfold finish_publish in
        subst (All (Free id)) (sym (attested_store-tasks attest t (sha_of b.result) _).0) (
          change-Free id (λ u. has_id built u && is_staged u.status)
            (published_build (sha_of b.result)) st.tasks (published_build-off (sha_of b.result)) a)

complete_job-Free :
    (attest : Attest) (t : Task) (b : CompleteBody) (who : String) (now : ℕ) (st : Store)
    → All (Free t.id) (complete_job attest t b who now st).tasks
unfolding complete_job
complete_job-Free attest t b who now st =
    finish_kind-Free attest t b now t.id _
      (update-Free t.id (job_done b now) st.tasks (job_done-off b now))

supersede-Free :
    (id : ℕ) (t : Task) (note : Text) (olds ts : List Task)
    → All (Free id) ts
    → All (Free id) (supersede t note olds ts)
unfolding supersede supersede_one
supersede-Free id t note [] ts a = a
supersede-Free id t note (o ∷ olds) ts a =
    let gone : Text = codes "the build it audited was superseded" in
    supersede-Free id t note olds _ (
      change-Free id (audits o.id) (superseded gone) _ (superseded-off gone)
        (change-Free id (has_id o.id) (superseded note) ts (superseded-off note) a))

audit_task-off :
    (t : Task) (b : CompleteBody) (now id : ℕ) → is_leased (audit_task t b now id).status ≡ false
unfolding audit_task blank_task
audit_task-off t b now id = refl

stage_store-Free :
    (t : Task) (b : CompleteBody) (vet : Option Vet) (who : String) (now : ℕ) (st : Store)
    → All (Free t.id) (stage_store t b vet who now st).tasks
unfolding stage_store insert_task
stage_store-Free t b vet who now st = (
  (λ k. audit_task-off t b now st.next_task),
  supersede-Free t.id t (superseded_note t b) (select (older_staged t) rows) rows (
      update-Free t.id (stage_task b (staging_prefix t) vet now) st.tasks
        (stage_task-off b (staging_prefix t) vet now)),
)
  where
    rows : List Task
    rows = update (has_id t.id) (stage_task b (staging_prefix t) vet now) st.tasks

done_store-Free :
    (attest : Attest) (t : Task) (b : CompleteBody) (sha who : String) (now : ℕ) (st : Store)
    → All (Free t.id) (done_store attest t b sha who now st).1.tasks
unfolding done_store publish_store
done_store-Free attest t b sha who now st =
    let off = update-Free t.id (build_done b sha now) st.tasks (build_done-off b sha now) in
    elim (Bool-cases t.publish) [
      | inl e ↦
          rw (e, done_store)
            (subst (All (Free t.id)) (sym (attested_store-tasks attest t (some sha) _).0) off)
      | inr e ↦ rw (e, done_store) off
    ]

abbrev FreeAfter {ℓ} : {A : Type ℓ} → ℕ → Reply (A × Store) → Type 0
FreeAfter id (answer (a, st)) = All (Free id) st.tasks
FreeAfter id (refuse n) = Unit {0}

complete_staged-Free :
    (read_vet : Text → Option Vet) (t : Task) (b : CompleteBody) (who : String) (now : ℕ)
    (st : Store)
    → FreeAfter t.id (complete_staged read_vet t b who now st)
unfolding complete_staged
complete_staged-Free read_vet t b who now st =
    let off = stage_store-Free t b (vet_of read_vet (staging_prefix t) st.staging) who now st in
    ground (arith, off)

complete_built-Free :
    (attest : Attest) (t : Task) (b : CompleteBody) (who : String) (now : ℕ) (st : Store)
    → FreeAfter t.id (complete_built attest t b who now st)
unfolding complete_built done_reply
complete_built-Free attest t b who now st = elim (Option-cases (result_object t b st)) [
  | inl e ↦ rw (e, complete_built) tt
  | inr (sha, e) ↦ rw (e, complete_built) (done_store-Free attest t b sha who now st)
]

complete_build-Free :
    (read_vet : Text → Option Vet) (attest : Attest) (t : Task) (b : CompleteBody) (who : String)
    (now : ℕ) (st : Store)
    → FreeAfter t.id (complete_build read_vet attest t b who now st)
unfolding complete_build
complete_build-Free read_vet attest t b who now st =
    ground (
      arith,
      complete_staged-Free read_vet t b who now st,
      complete_built-Free attest t b who now st,
    )

handle_complete-Free :
    (read_vet : Text → Option Vet) (attest : Attest) (id : ℕ) (actor : Actor) (b : CompleteBody)
    (now : ℕ) (st : Store)
    → FreeAfter id (handle_complete read_vet attest id actor b now st)
unfolding handle_complete
handle_complete-Free read_vet attest id actor b now st = elim (Reply-cases (owned id actor st)) [
  | inr (n, e) ↦ rw (e, handle_complete) tt
  | inl (t, e) ↦
      let (row, leased, held) = owned-holder id actor st t e in
      subst (λ k. FreeAfter k (handle_complete read_vet attest id actor b now st))
        (has_id-eq id st.tasks t row)
        (rw (e, handle_complete)
          (ground (
            arith,
            complete_build-Free read_vet attest t b (worker_name actor) now st,
            complete_job-Free attest t b (worker_name actor) now st,
          )))
]

-- A task is completed once: after a completion that is answered, whatever the task was, a
-- heartbeat, a failure or another completion of it is refused, to every worker and every job.
pub handle_complete-Refused :
    (read_vet : Text → Option Vet) (attest : Attest) (id : ℕ) (actor other : Actor)
    (b : CompleteBody) (now : ℕ) (st st' : Store) (c : Completed)
    → handle_complete read_vet attest id actor b now st ≡ answer (c, st')
    → Refused (owned id other st')
handle_complete-Refused read_vet attest id actor other b now st st' c h =
    owned-Refused id other st'
      (subst (FreeAfter id) h (handle_complete-Free read_vet attest id actor b now st))
