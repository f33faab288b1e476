-- ===== src/Lifecycle/Updates.antt =====
-- Each way in which the queue, the services and the executor write a run is a step of it.
use proofgraph.Base.{
  ℕ, String, ◌≡◌, refl, Bool, true, false, Option, none, some, List, [], ◌∷◌, arith, any,
}
use proofgraph.Tables.{RunStatus, GenerationRun, same_status, PatchRow}
use proofgraph.Services.{
  is_some, cancelled_before_claim, request_cancellation, requeued, refuses_retry,
}
use proofgraph.Queue.{Moment, RunLease, holds, is_exhausted, poisoned, with_lease, renewed}
use proofgraph.Queue.Recovery.{is_recoverable, completed}
use proofgraph.Queue.Claim.{is_claimable, claimed}
use proofgraph.Queue.Steps.{RunStep, RunStep-refl, ending-RunStep, holding-RunStep}
use proofgraph.Execution.Rows.{RunError}
use proofgraph.Execution.Stages.{at_stage}
use proofgraph.Execution.Endings.{cancelled, failed, patch_ready}

pub poisoned-RunStep :
    (now : ℕ) (run : GenerationRun) → is_exhausted now run ≡ true → RunStep run (poisoned now run)
unfolding is_exhausted poisoned is_some
poisoned-RunStep now run h =
    ending-RunStep run _ refl refl refl refl refl (λ c. ground arith)
      (record { worker = refl; token = refl; heartbeat = refl; expiry = refl })

pub recovered-RunStep :
    (worker : String) (token now : ℕ) (patches : List PatchRow) (run : GenerationRun)
    → is_recoverable patches now run ≡ true
    → RunStep run (with_lease worker token now run)
unfolding is_recoverable with_lease is_some
recovered-RunStep worker token now patches run h = record {
  same_id = refl;
  same_request = refl;
  epoch = omega arith;
  attempts = omega arith;
  budget = λ b. b;
  fenced = λ e. absurd (omega arith);
  closed = λ c. refl;
  lease = λ l. ground arith;
}

pub claimed-RunStep :
    (worker : String) (m : Moment) (run : GenerationRun)
    → is_claimable m.now run ≡ true
    → RunStep run (claimed worker m run)
unfolding is_claimable claimed is_some
claimed-RunStep worker m run h = record {
  same_id = refl;
  same_request = refl;
  epoch = omega arith;
  attempts = omega arith;
  budget = λ b. ground arith;
  fenced = λ e. absurd (omega arith);
  closed = λ c. ground arith;
  lease = λ l. record { worker = refl; token = refl; heartbeat = refl; expiry = refl };
}

-- A run in a leased status that gives its lease back: completed, failed or cancelled.
pub completed-RunStep :
    (now : ℕ) (run : GenerationRun)
    → run.status ≡ RunStatus.patch_ready
    → RunStep run (completed now run)
unfolding completed is_some
completed-RunStep now run h =
    ending-RunStep run _ refl refl refl refl refl (λ c. ground arith)
      (record { worker = refl; token = refl; heartbeat = refl; expiry = refl })

pub cancelled-RunStep :
    (now : ℕ) (run : GenerationRun)
    → run.status ≡ RunStatus.running
    → RunStep run (cancelled now run)
unfolding cancelled is_some
cancelled-RunStep now run h =
    ending-RunStep run _ refl refl refl refl refl (λ c. ground arith)
      (record { worker = refl; token = refl; heartbeat = refl; expiry = refl })

pub failed-RunStep :
    (error : RunError) (now : ℕ) (run : GenerationRun)
    → run.status ≡ RunStatus.running
    → RunStep run (failed error now run)
unfolding failed is_some
failed-RunStep error now run h =
    ending-RunStep run _ refl refl refl refl refl (λ c. ground arith)
      (record { worker = refl; token = refl; heartbeat = refl; expiry = refl })

-- A run that keeps its lease.
pub renewed-RunStep :
    (now : ℕ) (run : GenerationRun) → run.status ≡ RunStatus.running → RunStep run (renewed now run)
unfolding renewed is_some
renewed-RunStep now run h =
    holding-RunStep run _ refl refl refl refl refl refl (λ c. refl) (λ l. ground arith)

pub patch_ready-RunStep :
    (run : GenerationRun) → run.status ≡ RunStatus.running → RunStep run (patch_ready run)
unfolding patch_ready
patch_ready-RunStep run h =
    holding-RunStep run _ refl refl refl refl refl refl (λ c. ground arith) (λ l. ground arith)

pub at_stage-RunStep : (name : String) (run : GenerationRun) → RunStep run (at_stage name run)
unfolding at_stage
at_stage-RunStep name run =
    holding-RunStep run _ refl refl refl refl refl refl (λ c. refl)
      (λ l. record {
        worker = l.worker;
        token = l.token;
        heartbeat = l.heartbeat;
        expiry = l.expiry;
      })

pub cancelled_before_claim-RunStep :
    (now : ℕ) (run : GenerationRun)
    → run.status ≡ RunStatus.queued
    → RunStep run (cancelled_before_claim now run)
unfolding cancelled_before_claim
cancelled_before_claim-RunStep now run h =
    holding-RunStep run _ refl refl refl refl refl refl (λ c. ground arith) (λ l. ground arith)

request_cancellation_fields :
    (now : ℕ) (run : GenerationRun) (o : Option ℕ)
    → RunStep run (elim o [ none ↦ record run { cancel_requested_at = some now } | some _ ↦ run ])
request_cancellation_fields now run none =
    holding-RunStep run _ refl refl refl refl refl refl (λ c. refl)
      (λ l. record {
        worker = l.worker;
        token = l.token;
        heartbeat = l.heartbeat;
        expiry = l.expiry;
      })
request_cancellation_fields now run (some t) = RunStep-refl run

pub request_cancellation-RunStep :
    (now : ℕ) (run : GenerationRun) → RunStep run (request_cancellation now run)
unfolding request_cancellation
request_cancellation-RunStep now run = request_cancellation_fields now run run.cancel_requested_at

pub requeued-RunStep :
    (run : GenerationRun) → refuses_retry run ≡ false → RunStep run (requeued run)
unfolding requeued refuses_retry
requeued-RunStep run h =
    holding-RunStep run _ refl refl refl refl refl refl (λ c. ground arith) (λ l. ground arith)

-- A fenced lock in one status finds the run in it.
pub holds-running :
    (lease : RunLease) (live : Bool) (now : ℕ) (run : GenerationRun)
    → holds lease (RunStatus.running ∷ []) live now run ≡ true
    → run.status ≡ RunStatus.running
unfolding holds same_status any
holds-running lease live now run h = ground arith

pub holds-patch_ready :
    (lease : RunLease) (live : Bool) (now : ℕ) (run : GenerationRun)
    → holds lease (RunStatus.patch_ready ∷ []) live now run ≡ true
    → run.status ≡ RunStatus.patch_ready
unfolding holds same_status any
holds-patch_ready lease live now run h = ground arith
