-- ===== src/Lifecycle/ExecutionSound.antt =====
-- The transactions of execution.py are sound, if no progress event ends a run.
use proofgraph.Base.{
  ℕ, String, ◌≡◌, refl, Bool, true, false, Option, none, some, [], ◌∷◌, Tx, ◌>>=◌, arith,
  Option-cases, inl, inr,
}
use proofgraph.Json.{Fields}
use proofgraph.Tables.{
  RunStatus, EventType, ProgressEvent, GenerationRun, GenerationStage, GenerationEvent, PatchRow,
  Store,
}
use proofgraph.Events.{append_event_locked, is_terminal}
use proofgraph.Queue.{RunLease, store_run}
use proofgraph.Queue.Recovery.{completed}
use proofgraph.Queue.Rows.{UniqueIds, In}
use proofgraph.Queue.Steps.{RunStep, Steps-refl}
use proofgraph.Execution.Rows.{RunError, store_stage, fail_stage}
use proofgraph.Execution.Stages.{while_running, append_progress_event}
use proofgraph.Execution.Endings.{
  cancelled, finalize_cancelled_run, observed_cancellation, cancel_if_requested,
  cancelled_stage_error, failed, fail_locked, fail_run, complete_run,
}
use proofgraph.Lifecycle.Sound.{
  Sound, Sound-refl, SoundTx, SoundTx-trans, same_events, append-Sound, bind-Sound,
  write_append-Sound, locked-Sound,
}
use proofgraph.Lifecycle.Updates.{
  cancelled-RunStep, failed-RunStep, completed-RunStep, holds-running, holds-patch_ready,
}

-- The stage table is the only one that `fail_stage` writes.
abbrev pub StagesOnly : Store → Store → Type 0
StagesOnly s t = (t.runs ≡ s.runs) × (t.events ≡ s.events) × (t.cursors ≡ s.cursors)

fail_stage-StagesOnly :
    (stage_id : Option ℕ) (run_id : ℕ) (error : GenerationStage → Fields) (clock : ℕ) (s : Store)
    → StagesOnly s (fail_stage stage_id run_id error clock s)
unfolding fail_stage store_stage
fail_stage-StagesOnly none run_id error clock s = (refl, refl, refl)
fail_stage-StagesOnly (some stage_id) run_id error clock s = ground arith

-- A state that differs by its stages or patches only.
pub quiet-Sound : (s t : Store) → StagesOnly s t → Sound s t
quiet-Sound s t (r, e, c) = same_events s t (rw r (Steps-refl s.runs)) e c

module _ (s : Store) (unique : UniqueIds s.runs) where
  -- A run written and an event appended after the stage table changed.
  pub quiet_write_append-Sound :
      {B : Type 0} (t : Store) (run new : GenerationRun) (event_type : EventType) (payload : Fields)
      (once : Bool) (f : _ → Tx Store B)
      → StagesOnly s t
      → In run s.runs
      → RunStep run new
      → (is_terminal event_type ≡ true → once ≡ true)
      → ((e : Option GenerationEvent) (u : Store) → SoundTx u (f e u))
      → SoundTx s ((append_event_locked new event_type payload once >>= f) (store_run new t))
  quiet_write_append-Sound t run new event_type payload once f quiet there st checked rest =
      SoundTx-trans s t _ (quiet-Sound s t quiet) (
        write_append-Sound run new event_type payload once f t (rw quiet.0 unique)
          (rw quiet.0 there) st checked rest)

  pub finalize_cancelled_run-Sound :
      (run : GenerationRun) (reason : String) (stage_id : Option ℕ) (clock : ℕ)
      → In run s.runs
      → run.status ≡ RunStatus.running
      → SoundTx s (finalize_cancelled_run run reason stage_id clock s)
  unfolding finalize_cancelled_run is_terminal
  finalize_cancelled_run-Sound run reason stage_id clock there e =
      quiet_write_append-Sound _ run (cancelled clock run) EventType.run_cancelled _ true _
        (fail_stage-StagesOnly stage_id run.id cancelled_stage_error clock s) there
        (cancelled-RunStep clock run e) (λ _. refl) (λ _ u. Sound-refl u)

  observed_cancellation-Sound :
      (run : GenerationRun) (stage_id : Option ℕ) (clock : ℕ)
      → In run s.runs
      → run.status ≡ RunStatus.running
      → SoundTx s (observed_cancellation run stage_id clock s)
  unfolding observed_cancellation
  observed_cancellation-Sound run stage_id clock there e =
      elim (Option-cases run.cancel_requested_at) [
        | inl n ↦ rw (n, observed_cancellation) (Sound-refl s)
        | inr (t, n) ↦
            rw (n, observed_cancellation)
              (bind-Sound (finalize_cancelled_run run "worker_observed_cancellation" stage_id clock)
                _ s s (Sound-refl s) (finalize_cancelled_run-Sound run _ stage_id clock there e)
                (λ _ u _. Sound-refl u))
      ]

  pub cancel_if_requested-Sound :
      (lease : RunLease) (stage_id : Option ℕ) (now clock : ℕ)
      → SoundTx s (cancel_if_requested lease stage_id now clock s)
  unfolding cancel_if_requested
  cancel_if_requested-Sound lease stage_id now clock =
      locked-Sound lease while_running true now _ s λ run there held.
        observed_cancellation-Sound run stage_id clock there (holds-running lease true now run held)

  pub fail_locked-Sound :
      (lease : RunLease) (error : RunError) (stage_id : Option ℕ) (now clock : ℕ)
      → SoundTx s (fail_locked lease error stage_id now clock s)
  unfolding fail_locked is_terminal
  fail_locked-Sound lease error stage_id now clock =
      locked-Sound lease while_running true now _ s λ run there held.
        quiet_write_append-Sound _ run (failed error clock run) EventType.run_failed _ true _
          (fail_stage-StagesOnly stage_id run.id _ clock s) there
          (failed-RunStep error clock run (holds-running lease true now run held)) (λ _. refl)
          (λ _ u. Sound-refl u)

  pub fail_run-Sound :
      (lease : RunLease) (error : RunError) (stage_id : Option ℕ) (now clock : ℕ)
      → SoundTx s (fail_run lease error stage_id now clock s)
  unfolding fail_run
  fail_run-Sound lease error stage_id now clock =
      ground (arith, fail_locked-Sound lease error stage_id now clock, Sound-refl s)

  pub append_progress_event-Sound :
      (lease : RunLease) (p : ProgressEvent) (now : ℕ)
      → is_terminal p.event_type ≡ false
      → SoundTx s (append_progress_event lease p now s)
  unfolding append_progress_event
  append_progress_event-Sound lease p now open_ended =
      locked-Sound lease while_running true now _ s λ run there held.
        bind-Sound (append_event_locked run p.event_type p.payload false) _ s s (Sound-refl s)
          (append-Sound run p.event_type p.payload false s (λ t. cc)) (λ _ u _. Sound-refl u)

  pub complete_run-Sound :
      (lease : RunLease) (patch : PatchRow) (now clock : ℕ)
      → SoundTx s (complete_run lease patch now clock s)
  unfolding complete_run is_terminal
  complete_run-Sound lease patch now clock =
      locked-Sound lease (RunStatus.patch_ready ∷ []) true now _ s λ run there held.
        write_append-Sound run (completed clock run) EventType.run_completed _ true _ s unique there
          (completed-RunStep clock run (holds-patch_ready lease true now run held)) (λ _. refl)
          (λ _ u. Sound-refl u)
