-- ===== src/Lifecycle/StagesSound.antt =====
-- The transactions that begin and complete a stage and that hand over the patch are sound.
use proofgraph.Base.{
  ℕ, String, ◌≡◌, refl, true, false, Option, none, some, List, [], ◌∷◌, Result, ok, err, Tx,
  Commits, ◌>>=◌, >>=-Commits, lift, Option-cases, inl, inr, All,
}
use proofgraph.Json.{Json, Items, Fields}
use proofgraph.Tables.{
  RunStatus, EventType, ProgressEvent, StageResult, GenerationRun, GenerationStage, GenerationEvent,
  Store, patch_of_run,
}
use proofgraph.Events.{append_event_locked, is_terminal}
use proofgraph.Queue.{RunLease}
use proofgraph.Queue.Rows.{UniqueIds, In}
use proofgraph.Execution.Rows.{store_stage, first_stage, running_stage}
use proofgraph.Execution.Stages.{
  while_running, StageCheckpoint, open_stage, at_stage, start_stage, stored_result, begin_stage,
  append_progress, get_running_stage, complete_stage, same_input, finished_input,
}
use proofgraph.Execution.Endings.{
  finalize_cancelled_run, patch_ready, get_or_create_patch, hand_over_patch, cancelled_or_ready,
  persist_patch,
}
use proofgraph.Lifecycle.Sound.{
  Sound, Sound-refl, SoundTx, SoundTx-trans, append-Sound, bind-Sound, locked-Sound, reads-Sound,
}
use proofgraph.Lifecycle.Updates.{patch_ready-RunStep, at_stage-RunStep, holds-running}
use proofgraph.Retention.{validate_retained_payload}
use proofgraph.Execution.Rows.{dump_result}
use proofgraph.Execution.Endings.{patch_operations}
use proofgraph.Lifecycle.ExecutionSound.{
  StagesOnly, quiet-Sound, quiet_write_append-Sound, finalize_cancelled_run-Sound,
}

lift-Commits :
    {A : Type 0} (r : Result A) (s : Store) → Commits (λ _ t. (t ≡ s) × Unit {0}) (lift r s)
lift-Commits (ok a) s = (refl, tt)
lift-Commits (err e) s = tt

-- A part that does not touch runs, events or cursors, before a run is written and an event added.
quiet_then-Sound :
    {A B : Type 0} (m : Tx Store A) (f : A → Tx Store B) (s : Store)
    → Commits (λ _ t. StagesOnly s t) (m s)
    → ((a : A) (t : Store) → StagesOnly s t → SoundTx s (f a t))
    → SoundTx s ((m >>= f) s)
quiet_then-Sound m f s first rest =
    >>=-Commits m f (λ _ t. StagesOnly s t) (λ _ t. Sound s t) s first rest

open_stage-StagesOnly :
    (fresh : ℕ) (run : GenerationRun) (name input_hash : String) (clock : ℕ) (s : Store)
    → Commits (λ _ t. StagesOnly s t) (open_stage fresh run name input_hash clock s)
unfolding open_stage store_stage
open_stage-StagesOnly fresh run name input_hash clock s =
    elim (Option-cases (first_stage (same_input run.id name input_hash) s.stages)) [
      | inl e ↦ rw (e, open_stage) (refl, refl, refl)
      | inr (old, e) ↦ rw (e, open_stage) (refl, refl, refl)
    ]

get_or_create_patch-StagesOnly :
    (fresh : ℕ) (run : GenerationRun) (operations : Items) (output : Fields) (s : Store)
    → Commits (λ _ t. StagesOnly s t) (get_or_create_patch fresh run operations output s)
unfolding get_or_create_patch
get_or_create_patch-StagesOnly fresh run operations output s =
    elim (Option-cases (patch_of_run run.id s.patches)) [
      | inl e ↦ rw (e, get_or_create_patch) (refl, refl, refl)
      | inr (old, e) ↦ rw (e, get_or_create_patch) (refl, refl, refl)
    ]

get_running_stage-Commits :
    (stage_id : ℕ) (run : GenerationRun) (s : Store)
    → Commits (λ _ t. (t ≡ s) × Unit {0}) (get_running_stage stage_id run s)
unfolding get_running_stage
get_running_stage-Commits stage_id run s =
    elim (Option-cases (first_stage (running_stage stage_id run.id) s.stages)) [
      | inl e ↦ rw (e, get_running_stage) tt
      | inr (stage, e) ↦ rw (e, get_running_stage) (refl, tt)
    ]

-- No progress event of a stage ends its run.
abbrev pub OpenEnded : List ProgressEvent → Type 0
OpenEnded = All (λ p. is_terminal p.event_type ≡ false)

append_progress-Sound :
    (run : GenerationRun) (events : List ProgressEvent) (s : Store)
    → OpenEnded events
    → SoundTx s (append_progress run events s)
unfolding append_progress
append_progress-Sound run [] s h = Sound-refl s
append_progress-Sound run (p ∷ rest) s h =
    go (append_event_locked run p.event_type p.payload false s)
      (append-Sound run p.event_type p.payload false s (λ t. cc (h.0)))
      (λ t. append_progress-Sound run rest t h.1)
  where
    go :
        (r : Result (Option GenerationEvent × Store))
        → SoundTx s r
        → ((t : Store) → SoundTx t (append_progress run rest t))
        → SoundTx s (elim r [ err e ↦ err e | ok (_, t) ↦ append_progress run rest t ])
    go (ok (e, t)) st more = SoundTx-trans s t _ st (more t)
    go (err e) st more = tt

module _ (s : Store) (unique : UniqueIds s.runs) where
  start_stage-Sound :
      (fresh : ℕ) (run : GenerationRun) (name input_hash : String) (clock : ℕ)
      → In run s.runs
      → SoundTx s (start_stage fresh run name input_hash clock s)
  unfolding start_stage is_terminal
  start_stage-Sound fresh run name input_hash clock there =
      quiet_then-Sound (open_stage fresh run name input_hash clock) _ s
        (open_stage-StagesOnly fresh run name input_hash clock s)
        λ stage t quiet.
          quiet_write_append-Sound s unique t run (at_stage name run) EventType.stage_started _
            false _ quiet there (at_stage-RunStep name run) (λ e. e) (λ _ u. Sound-refl u)

  stored_result-Sound :
      (validate_json : Json → Option StageResult) (stage : GenerationStage)
      → SoundTx s (stored_result validate_json stage s)
  unfolding stored_result
  stored_result-Sound validate_json stage = elim (Option-cases stage.output) [
    | inl e ↦ rw (stored_result, e) tt
    | inr (output, e) ↦ elim (Option-cases (validate_json output)) [
      | inl f ↦ rw (stored_result, e, f) tt
      | inr (result, f) ↦ rw (stored_result, e, f) (Sound-refl s)
    ]
  ]

  begin_or_reuse-Sound :
      (validate_json : Json → Option StageResult) (o : Option GenerationStage) (fresh : ℕ)
      (run : GenerationRun) (name input_hash : String) (clock : ℕ)
      → In run s.runs
      → SoundTx s (
          (let next : Tx Store StageCheckpoint = elim o [
            | some stage ↦ stored_result validate_json stage
            | none ↦ start_stage fresh run name input_hash clock
          ] in
              next)
            s)
  begin_or_reuse-Sound validate_json none fresh run name input_hash clock there =
      start_stage-Sound fresh run name input_hash clock there
  begin_or_reuse-Sound validate_json (some stage) fresh run name input_hash clock there =
      stored_result-Sound validate_json stage

  pub begin_stage-Sound :
      (validate_json : Json → Option StageResult) (lease : RunLease) (name input_hash : String)
      (fresh now clock : ℕ)
      → SoundTx s (begin_stage validate_json lease name input_hash fresh now clock s)
  unfolding begin_stage
  begin_stage-Sound validate_json lease name input_hash fresh now clock =
      locked-Sound lease while_running true now _ s λ run there held.
        begin_or_reuse-Sound validate_json
          (first_stage (finished_input run.id name input_hash) s.stages) fresh run name input_hash
          clock there

  pub complete_stage-Sound :
      (lease : RunLease) (stage_id : ℕ) (result : StageResult) (now clock : ℕ)
      → OpenEnded result.progress_events
      → SoundTx s (complete_stage lease stage_id result now clock s)
  unfolding complete_stage store_stage is_terminal
  complete_stage-Sound lease stage_id result now clock open_ended =
      reads-Sound (λ _. Unit {0}) (lift (validate_retained_payload (dump_result result) false)) _ s
        (lift-Commits _ s)
        λ _ _. locked-Sound lease while_running true now _ s λ run there held.
          reads-Sound (λ _. Unit {0}) (get_running_stage stage_id run) _ s
            (get_running_stage-Commits stage_id run s)
            λ stage _.
              bind-Sound (append_progress run result.progress_events) _ s _
                (quiet-Sound s _ (refl, refl, refl))
                (append_progress-Sound run result.progress_events _ open_ended)
                (λ _ u _.
                  bind-Sound (append_event_locked run EventType.stage_progress _ false) _ u u
                    (Sound-refl u) (append-Sound run EventType.stage_progress _ false u (λ e. e))
                    (λ _ v _. Sound-refl v))

  hand_over_patch-Sound :
      (fresh : ℕ) (run : GenerationRun) (operations : Items) (output : Fields)
      → In run s.runs
      → run.status ≡ RunStatus.running
      → SoundTx s (hand_over_patch fresh run operations output s)
  unfolding hand_over_patch is_terminal
  hand_over_patch-Sound fresh run operations output there e =
      quiet_then-Sound (get_or_create_patch fresh run operations output) _ s
        (get_or_create_patch-StagesOnly fresh run operations output s)
        λ patch t quiet.
          quiet_write_append-Sound s unique t run (patch_ready run) EventType.patch_ready _ false _
            quiet there (patch_ready-RunStep run e) (λ h. h) (λ _ u. Sound-refl u)

  cancelled_or_ready-Sound :
      (fresh : ℕ) (run : GenerationRun) (operations : Items) (output : Fields) (clock : ℕ)
      → In run s.runs
      → run.status ≡ RunStatus.running
      → SoundTx s (cancelled_or_ready fresh run operations output clock s)
  unfolding cancelled_or_ready
  cancelled_or_ready-Sound fresh run operations output clock there e =
      elim (Option-cases run.cancel_requested_at) [
        | inl n ↦
            rw (n, cancelled_or_ready) (hand_over_patch-Sound fresh run operations output there e)
        | inr (t, n) ↦
            rw (n, cancelled_or_ready)
              (bind-Sound (finalize_cancelled_run run "cancelled_before_finalization" none clock) _
                s s (Sound-refl s) (finalize_cancelled_run-Sound s unique run _ none clock there e)
                (λ _ u _. Sound-refl u))
      ]

  pub persist_patch-Sound :
      (lease : RunLease) (output : Fields) (fresh now clock : ℕ)
      → SoundTx s (persist_patch lease output fresh now clock s)
  unfolding persist_patch
  persist_patch-Sound lease output fresh now clock =
      reads-Sound (λ _. Unit {0}) (lift (patch_operations output)) _ s (lift-Commits _ s)
        λ operations _.
          reads-Sound (λ _. Unit {0}) (lift (validate_retained_payload (Json.arr operations) false))
            _ s (lift-Commits _ s)
            λ _ _. locked-Sound lease while_running true now _ s λ run there held.
              cancelled_or_ready-Sound fresh run operations output clock there
                (holds-running lease true now run held)
