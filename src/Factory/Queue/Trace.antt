-- ===== src/Factory/Queue/Trace.antt =====
-- Any history of requests: the handlers of worker/src/routes/factory.ts as one step over the
-- store, with the scheduler's requeue among the requests.
use omarchy_cli.Base.{List, Option, String, Text, [], arith, not, or_else, ℕ, ◌∷◌}
use omarchy_cli.Factory.Rows.{Level, Provided, Store, Vet}
use omarchy_cli.Factory.Claim.{
  Actor, ClaimBody, claim_store, claim_touch, claim_worker, claimant, handle_claim,
}
use omarchy_cli.Factory.Complete.{handle_complete}
use omarchy_cli.Factory.Complete.Job.{Attest, CompleteBody}
use omarchy_cli.Factory.Enqueue.{
  EnqueueBody, Order, enqueue, enqueue_summary, handle_cancel, handle_enqueue, is_dry, parse_arches,
  split_by_upstream,
}
use omarchy_cli.Factory.Journal.{factory_event}
use omarchy_cli.Factory.Lease.{FailBody, handle_fail, handle_heartbeat, requeue_expired}
use omarchy_cli.Factory.Queue.Completion.{handle_complete-QueueOk}
use omarchy_cli.Factory.Queue.Leases.{
  after_cancel, handle_cancel-QueueOk, handle_fail-QueueOk, handle_heartbeat-QueueOk,
  requeue_expired-QueueOk,
}
use omarchy_cli.Factory.Queue.Operations.{QueueOk, claim_next-QueueOk, enqueue-QueueOk}
use omarchy_cli.Factory.Reply.{after}
use omarchy_cli.Factory.Workers.{agent_report}

-- A request, without its time.
pub data Request : Type 0 where
  enqueues : EnqueueBody → Request
  cancels : ℕ → Request
  claims : Actor → ClaimBody → Request
  beats : ℕ → Actor → Request
  fails : ℕ → Actor → FailBody → Request
  completes : ℕ → Actor → CompleteBody → Request
  requeues : Request

handle_enqueue-QueueOk :
    (provided : String → List Provided) (b : EnqueueBody) (now : ℕ) (st : Store)
    → QueueOk st
    → QueueOk (after st (handle_enqueue provided b now st))
unfolding handle_enqueue
handle_enqueue-QueueOk provided b now st q =
    let split =
      split_by_upstream (provided (or_else b.name "")) (parse_arches b.arches) b.override in
    let order : Order = record {
      name = or_else b.name "";
      pkgbuild_ref = or_else b.pkgbuild_ref [];
      reason = or_else b.reason [];
      version = b.version;
      priority = b.priority;
      publish = not (is_dry b.publish);
    } in
    let next = enqueue-QueueOk order split.build now st q in
    let kept : QueueOk (record (enqueue order split.build now st).1 {
      events =
          factory_event "enqueue" Level.ok
            (enqueue_summary order split (enqueue order split.build now st).0)
          ∷ (enqueue order split.build now st).1.events;
    }) =
      record { keys = next.keys; rows = next.rows } in
    ground (arith, kept)

handle_claim-QueueOk :
    (actor : Actor) (b : ClaimBody) (now : ℕ) (st : Store)
    → QueueOk st
    → QueueOk (after st (handle_claim actor b now st))
unfolding handle_claim claim_worker claim_store
handle_claim-QueueOk (Actor.job j) b now st q = ground arith
handle_claim-QueueOk (Actor.worker w) b now st q =
    let probe = agent_report b.agent_status b.agent_error b.agent_checked_at in
    let c = claimant w b probe now st in
    let next = claim_next-QueueOk c st q in
    let kept : QueueOk (claim_store c (claim_touch c b probe) st).1 = record {
      keys = next.keys;
      rows = next.rows;
    } in
    ground (arith, kept)

module _ (read_vet : Text → Option Vet) (attest : Attest) (provided : String → List Provided) where
  unfoldable pub step : ℕ × Request → Store → Store
  step (now, Request.enqueues b) st = after st (handle_enqueue provided b now st)
  step (now, Request.cancels id) st = after_cancel st (handle_cancel id now st)
  step (now, Request.claims actor b) st = after st (handle_claim actor b now st)
  step (now, Request.beats id actor) st = after st (handle_heartbeat id actor now st)
  step (now, Request.fails id actor b) st = after st (handle_fail id actor b now st)
  step (now, Request.completes id actor b) st =
      after st (handle_complete read_vet attest id actor b now st)
  step (now, Request.requeues) st = (requeue_expired now st).1

  unfoldable pub run : List (ℕ × Request) → Store → Store
  run [] st = st
  run (r ∷ rs) st = run rs (step r st)

  pub step-QueueOk : (r : ℕ × Request) (st : Store) → QueueOk st → QueueOk (step r st)
  unfolding step
  step-QueueOk (now, Request.enqueues b) st q = handle_enqueue-QueueOk provided b now st q
  step-QueueOk (now, Request.cancels id) st q = handle_cancel-QueueOk id now st q
  step-QueueOk (now, Request.claims actor b) st q = handle_claim-QueueOk actor b now st q
  step-QueueOk (now, Request.beats id actor) st q = handle_heartbeat-QueueOk id actor now st q
  step-QueueOk (now, Request.fails id actor b) st q = handle_fail-QueueOk id actor b now st q
  step-QueueOk (now, Request.completes id actor b) st q =
      handle_complete-QueueOk read_vet attest id actor b now st q
  step-QueueOk (now, Request.requeues) st q = requeue_expired-QueueOk now st q

  -- After any history of requests — enqueues, cancels, claims, heartbeats, failures, completions
  -- and requeues, granted or refused — a queue that was in order is in order: every task's id was
  -- given once and is below the next one, a queued task has no holder and an attempt left, a
  -- leased one has a holder, an end of its lease, and at most its number of attempts.
  pub run-QueueOk : (rs : List (ℕ × Request)) (st : Store) → QueueOk st → QueueOk (run rs st)
  unfolding run
  run-QueueOk [] st q = q
  run-QueueOk (r ∷ rs) st q = run-QueueOk rs (step r st) (step-QueueOk r st q)
