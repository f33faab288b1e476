-- ===== src/Queue/Claim.antt =====
-- claim_run: after the two clean-up loops a worker leases the oldest run that it may.
use proofgraph.Base.{
  ℕ, ◌+◌, String, Bool, false, ◌&&◌, ◌||◌, Option, none, some, Result, ok, err, Tx, ◌>>◌, pure,
  modify, ltb, if◌then◌else◌,
}
use proofgraph.Json.{Json, Fields}
use proofgraph.Tables.{RunStatus, EventType, GenerationRun, Store, same_status}
use proofgraph.Events.{append_event_locked}
use proofgraph.Queue.{
  Moment, RunLease, expired, first_unlocked, store_run, terminalize_exhausted_runs, with_lease,
  lease_of,
}
use proofgraph.Queue.Recovery.{finalize_expired_patch_ready_runs}

unfoldable pub is_claimable : ℕ → GenerationRun → Bool
unfolding same_status expired
is_claimable now run =
    ltb run.attempt run.max_attempts
    && (same_status run.status RunStatus.queued
        || (same_status run.status RunStatus.running && expired run now))

unfoldable pub claimed : String → Moment → GenerationRun → GenerationRun
unfolding with_lease
claimed worker_id m run = record (with_lease worker_id m.fresh m.now run) {
  status = RunStatus.running;
  attempt = run.attempt + 1;
  started_at = elim run.started_at [ none ↦ some m.now | some t ↦ some t ];
}

-- resume = run.status == RUNNING or run.attempt > 0, before the claim.
unfoldable pub resumes : GenerationRun → Bool
unfolding same_status
resumes run = same_status run.status RunStatus.running || ltb 0 run.attempt

unfoldable pub claim_payload : String → GenerationRun → Fields
claim_payload worker_id run = Fields.field "attempt" (Json.num run.attempt) (
    Fields.field "lease_epoch" (Json.num run.lease_epoch)
      (Fields.field "worker_id" (Json.text worker_id) Fields.end))

-- The transaction of `claim_run`.
unfoldable pub claim_one : String → Moment → Tx Store (Option RunLease)
unfolding first_unlocked store_run
claim_one worker_id m s = elim (first_unlocked (is_claimable m.now) m s.runs) [
  | none ↦ ok (none, s)
  | some run ↦
      (do
        modify (store_run (claimed worker_id m run))
        append_event_locked (claimed worker_id m run)
            (if resumes run then EventType.run_resumed else EventType.run_started)
            (claim_payload worker_id (claimed worker_id m run)) false
        pure (some (lease_of worker_id m.fresh (claimed worker_id m run))))
        s
]

-- The moments of one call of `claim_run`.
pub record ClaimMoments : Type 0 where
  pub recovery : ℕ → Moment
  pub completion : ℕ → ℕ
  pub exhaustion : ℕ → Moment
  pub claim : Moment

unfoldable pub then_claim :
    String → Moment → Option (Result ℕ × Store) → Option (Result (Option RunLease) × Store)
unfolding claim_one
then_claim worker_id m none = none
then_claim worker_id m (some (err e, s)) = some (err e, s)
then_claim worker_id m (some (ok _, s)) = elim (claim_one worker_id m s) [
  | err e ↦ some (err e, s)
  | ok (lease, t) ↦ some (ok lease, t)
]

-- claim_run: the two clean-up loops, then the claim.
unfoldable pub claim_run :
    ℕ → String → ClaimMoments → Store → Option (Result (Option RunLease) × Store)
unfolding finalize_expired_patch_ready_runs terminalize_exhausted_runs then_claim
claim_run fuel worker_id m s =
    elim (finalize_expired_patch_ready_runs fuel m.recovery m.completion 0 s) [
      | none ↦ none
      | some (err e, t) ↦ some (err e, t)
      | some (ok _, t) ↦
          then_claim worker_id m.claim (terminalize_exhausted_runs fuel m.exhaustion t)
    ]
