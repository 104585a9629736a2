-- ===== src/World/Completions.antt =====
-- A claim and a completion evolve the queue (worker/src/routes/factory.ts).
use omarchy_cli.Base.{
  Bool, Bool-cases, Option, Option-cases, String, [], inl, inr, none, or_else, refl, some, update,
  ℕ, ◌&&◌, List, Text, arith, codes, select, ◌==◌, ◌∷◌, ◌≡◌, false, if◌then◌else◌, subst, sym, true,
}
use omarchy_cli.Factory.Reply.{after, Reply-cases}
use omarchy_cli.Factory.Claim.{Actor, ClaimBody, claim_touch, claim_worker, claimant, handle_claim}
use omarchy_cli.Factory.Complete.Job.{
  Attest, CompleteBody, attested_store, audited_store, finish_audit, finish_publish, publish_detail,
  published_build, sha_of, take_category, complete_job, finish_kind, job_done, one_done, task_param,
  Attestation, sealed_store,
}
use omarchy_cli.Factory.Enqueue.{repo_arch, blank_task, insert_task}
use omarchy_cli.Factory.Journal.{set_stage, factory_event}
use omarchy_cli.Factory.Queue.Completion.{finish_audit-tasks}
use omarchy_cli.Factory.Rows.{Stage, Store, Task, Approval, Kind, Level, Vet}
use omarchy_cli.Factory.Tests.{arch_eq, has_id, is_staged, kind_eq}
use omarchy_cli.Factory.Workers.{agent_report}
use omarchy_cli.World.Evolves.{
  Evolves, Evolves-trans, Moves-refl, update-Moves, KeepsApprovals, Moves, insert-Moves,
  same-Evolves, update-KeepsApprovals,
}
use omarchy_cli.World.Handlers.{claim_store-Evolves}
use omarchy_cli.Factory.Complete.Build.{
  answer_approval, audit_task, audits, build_done, done_store, done_summary, latest_unanswered,
  older_staged, publish_store, stage_store, stage_task, supersede, supersede_one, superseded,
  superseded_note, goes_to_staging,
}
use omarchy_cli.Factory.Lease.{staging_prefix, owned, worker_name}
use omarchy_cli.Factory.Complete.{
  complete_build, complete_built, complete_staged, done_reply, handle_complete, nonempty,
  result_object, vet_of,
}

pub handle_claim-Evolves :
    (actor : Actor) (b : ClaimBody) (now : ℕ) (st : Store)
    → Evolves st (after st (handle_claim actor b now st))
unfolding handle_claim claim_worker
handle_claim-Evolves (Actor.job j) b now st = elim (Option-cases (repo_arch (or_else b.arch ""))) [
  | inl e ↦ rw (e, handle_claim) (Moves-refl st.tasks st.approvals)
  | inr (a, e) ↦ rw (e, handle_claim) (Moves-refl st.tasks st.approvals)
]
handle_claim-Evolves (Actor.worker w) b now st =
    let probe = agent_report b.agent_status b.agent_error b.agent_checked_at in
    let c = claimant w b probe now st in
    elim (Option-cases (repo_arch (or_else b.arch ""))) [
      | inl e ↦ rw (e, handle_claim) (Moves-refl st.tasks st.approvals)
      | inr (a, e) ↦ elim (Bool-cases (arch_eq w.arch a)) [
        | inr f ↦ rw (e, f, handle_claim) (Moves-refl st.tasks st.approvals)
        | inl f ↦ rw (e, f, handle_claim) (claim_store-Evolves c (claim_touch c b probe) st)
      ]
    ]

sealed_store-Evolves :
    (t : Task) (st : Store) (a : Attestation) → Evolves st (sealed_store t st a).1
unfolding sealed_store
sealed_store-Evolves t st (Attestation.written wrote pool) = Moves-refl st.tasks st.approvals
sealed_store-Evolves t st (Attestation.thrown why) = Moves-refl st.tasks st.approvals

attested_store-Evolves :
    (attest : Attest) (t : Task) (sha : Option String) (st : Store)
    → Evolves st (attested_store attest t sha st).1
unfolding attested_store
attested_store-Evolves attest t none st = Moves-refl st.tasks st.approvals
attested_store-Evolves attest t (some sha) st = sealed_store-Evolves t st (attest sha st.pool)

finish_publish-Evolves :
    (attest : Attest) (t : Task) (b : CompleteBody) (now : ℕ) (built : Option ℕ) (st : Store)
    → Evolves st (finish_publish attest t b now built st)
unfolding finish_publish published_build
finish_publish-Evolves attest t b now none st = Moves-refl st.tasks st.approvals
finish_publish-Evolves attest t b now (some built) st =
    let test : Task → Bool = λ u. has_id built u && is_staged u.status in
    let moved =
      update-Moves test (published_build (sha_of b.result)) st.tasks st.approvals
        (λ u. (refl, refl)) in
    let next : Store = record st {
      registrations =
          set_stage t.name Stage.published (publish_detail b (or_else t.params []) built) now
            st.registrations;
      tasks = update test (published_build (sha_of b.result)) st.tasks;
    } in
    Evolves-trans st next (attested_store attest t (sha_of b.result) next).1 moved
      (attested_store-Evolves attest t (sha_of b.result) next)

finish_audit-approvals :
    (b : CompleteBody) (id : Option ℕ) (st : Store)
    → (finish_audit b id st).approvals ≡ st.approvals
unfolding finish_audit audited_store take_category
finish_audit-approvals b none st = refl
finish_audit-approvals b (some id) st = ground arith

finish_audit-Evolves :
    (b : CompleteBody) (id : Option ℕ) (st : Store) → Evolves st (finish_audit b id st)
finish_audit-Evolves b id st =
    same-Evolves st (finish_audit b id st) (finish_audit-tasks b id st).0
      (finish_audit-approvals b id st)

finish_kind-Evolves :
    (attest : Attest) (t : Task) (b : CompleteBody) (now : ℕ) (st : Store)
    → Evolves st (finish_kind attest t b now st)
unfolding finish_kind
finish_kind-Evolves attest t b now st = elim (Bool-cases (kind_eq t.kind Kind.publish)) [
  | inl e ↦ rw e (finish_publish-Evolves attest t b now (task_param t.params) st)
  | inr e ↦ rw e (elim (Bool-cases (kind_eq t.kind Kind.audit)) [
    | inl a ↦ rw a (finish_audit-Evolves b (task_param t.params) st)
    | inr a ↦ rw a (Moves-refl st.tasks st.approvals)
  ])
]

complete_job-Evolves :
    (attest : Attest) (t : Task) (b : CompleteBody) (who : String) (now : ℕ) (st : Store)
    → Evolves st (complete_job attest t b who now st)
unfolding complete_job job_done
complete_job-Evolves attest t b who now st =
    let ended : Store = record st {
      tasks = update (has_id t.id) (job_done b now) st.tasks;
      workers = one_done who now st.workers;
    } in
    Evolves-trans st ended (finish_kind attest t b now ended)
      (update-Moves (has_id t.id) (job_done b now) st.tasks st.approvals (λ u. (refl, refl)))
      (finish_kind-Evolves attest t b now ended)

supersede-Moves :
    (t : Task) (note : Text) (olds ts : List Task) (xs : List Approval)
    → Moves ts xs (supersede t note olds ts) xs
unfolding supersede supersede_one superseded
supersede-Moves t note [] ts xs = Moves-refl ts xs
supersede-Moves t note (o ∷ olds) ts xs =
    let gone : Text = codes "the build it audited was superseded" in
    let once : List Task = update (has_id o.id) (superseded note) ts in
    let twice : List Task = update (audits o.id) (superseded gone) once in
    let a = update-Moves (has_id o.id) (superseded note) ts xs (λ u. (refl, refl)) in
    let b = update-Moves (audits o.id) (superseded gone) once xs (λ u. (refl, refl)) in
    let c = supersede-Moves t note olds twice xs in
    (λ P s h. c.0 P s (b.0 P s (a.0 P s h)), λ id h. h)

stage_store-Evolves :
    (t : Task) (b : CompleteBody) (vet : Option Vet) (who : String) (now : ℕ) (st : Store)
    → Evolves st (stage_store t b vet who now st)
unfolding stage_store insert_task stage_task audit_task blank_task
stage_store-Evolves t b vet who now st =
    let change = stage_task b (staging_prefix t) vet now in
    let staged : List Task = update (has_id t.id) change st.tasks in
    let xs = st.approvals in
    let a = update-Moves (has_id t.id) change st.tasks xs (λ u. (refl, refl)) in
    let c = supersede-Moves t (superseded_note t b) (select (older_staged t) staged) staged xs in
    let rest = supersede t (superseded_note t b) (select (older_staged t) staged) staged in
    let d = insert-Moves (audit_task t b now st.next_task) rest xs refl in
    (λ P s h. d.0 P s (c.0 P s (a.0 P s h)), λ id h. h)

publish_store-KeepsApprovals :
    (t : Task) (b : CompleteBody) (now : ℕ) (st : Store)
    → KeepsApprovals st.approvals (publish_store t b now st).approvals
unfolding publish_store answer_approval
publish_store-KeepsApprovals t b now st = elim (Option-cases (latest_unanswered t st.approvals)) [
  | inl e ↦ rw (e, answer_approval) (λ id h. h)
  | inr (a, e) ↦
      rw (e, answer_approval)
        (update-KeepsApprovals (λ c. c.id == a.id) (λ c. record c { rebuild_task = some t.id })
          st.approvals (λ c. (refl, refl)))
]

if_published-Evolves :
    (p : Bool) (t : Task) (b : CompleteBody) (now : ℕ) (st : Store)
    → Evolves st (if p then publish_store t b now st else st)
if_published-Evolves true t b now st =
    (λ P s h. unfold publish_store in h, publish_store-KeepsApprovals t b now st)
if_published-Evolves false t b now st = Moves-refl st.tasks st.approvals

if_attested-Evolves :
    (p : Bool) (attest : Attest) (t : Task) (sha : String) (st : Store)
    → Evolves st (if p then attested_store attest t (some sha) st else (false, st)).1
if_attested-Evolves true attest t sha st = attested_store-Evolves attest t (some sha) st
if_attested-Evolves false attest t sha st = Moves-refl st.tasks st.approvals

done_store-Evolves :
    (attest : Attest) (t : Task) (b : CompleteBody) (sha who : String) (now : ℕ) (st : Store)
    → Evolves st (done_store attest t b sha who now st).1
unfolding done_store build_done
done_store-Evolves attest t b sha who now st =
    let ended : Store = record st {
      tasks = update (has_id t.id) (build_done b sha now) st.tasks;
      workers = one_done who now st.workers;
    } in
    let kept : Store = if t.publish then publish_store t b now ended else ended in
    let told : Store = record kept {
      events = factory_event "build" Level.ok (done_summary t b who) ∷ kept.events;
    } in
    let a =
      update-Moves (has_id t.id) (build_done b sha now) st.tasks st.approvals (λ u. (refl, refl)) in
    let c = if_published-Evolves t.publish t b now ended in
    let d = if_attested-Evolves t.publish attest t sha told in
    (λ P s h. d.0 P s (c.0 P s (a.0 P s h)), λ id h. d.1 id (c.1 id h))

complete_staged-Evolves :
    (read_vet : Text → Option Vet) (t : Task) (b : CompleteBody) (who : String) (now : ℕ)
    (st : Store)
    → Evolves st (after st (complete_staged read_vet t b who now st))
unfolding complete_staged
complete_staged-Evolves read_vet t b who now st =
    elim (Reply-cases (complete_staged read_vet t b who now st)) [
      | inr (n, e) ↦ rw (e, complete_staged) (Moves-refl st.tasks st.approvals)
      | inl ((r, s), e) ↦
          let vet = vet_of read_vet (staging_prefix t) st.staging in
          let same : s ≡ stage_store t b vet who now st = ground arith in
          rw (e, complete_staged)
            (subst (λ x. Evolves st x) (sym same) (stage_store-Evolves t b vet who now st))
    ]

complete_built-Evolves :
    (attest : Attest) (t : Task) (b : CompleteBody) (who : String) (now : ℕ) (st : Store)
    → Evolves st (after st (complete_built attest t b who now st))
unfolding complete_built done_reply
complete_built-Evolves attest t b who now st = elim (Option-cases (result_object t b st)) [
  | inl e ↦ rw (e, complete_built) (Moves-refl st.tasks st.approvals)
  | inr (sha, e) ↦ rw (e, complete_built) (done_store-Evolves attest t b sha who now st)
]

complete_build-Evolves :
    (read_vet : Text → Option Vet) (attest : Attest) (t : Task) (b : CompleteBody) (who : String)
    (now : ℕ) (st : Store)
    → Evolves st (after st (complete_build read_vet attest t b who now st))
unfolding complete_build
complete_build-Evolves read_vet attest t b who now st =
    elim (Bool-cases (nonempty b.sha256 && nonempty b.filename)) [
      | inr e ↦ rw (e, complete_build) (Moves-refl st.tasks st.approvals)
      | inl e ↦ elim (Bool-cases (goes_to_staging t)) [
        | inl f ↦ rw (e, f, complete_build) (complete_staged-Evolves read_vet t b who now st)
        | inr f ↦ rw (e, f, complete_build) (complete_built-Evolves attest t b who now st)
      ]
    ]

pub handle_complete-Evolves :
    (read_vet : Text → Option Vet) (attest : Attest) (id : ℕ) (actor : Actor) (b : CompleteBody)
    (now : ℕ) (st : Store)
    → Evolves st (after st (handle_complete read_vet attest id actor b now st))
unfolding handle_complete
handle_complete-Evolves read_vet attest id actor b now st = elim (Reply-cases (owned id actor st)) [
  | inr (n, e) ↦ rw (e, handle_complete) (Moves-refl st.tasks st.approvals)
  | inl (t, e) ↦ elim (Bool-cases (kind_eq t.kind Kind.build)) [
    | inl k ↦
        rw (e, k, handle_complete)
          (complete_build-Evolves read_vet attest t b (worker_name actor) now st)
    | inr k ↦
        rw (e, k, handle_complete) (complete_job-Evolves attest t b (worker_name actor) now st)
  ]
]
