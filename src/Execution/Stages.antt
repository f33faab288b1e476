-- ===== src/Execution/Stages.antt =====
-- _begin_stage, _complete_stage and _append_progress_event.
use proofgraph.Base.{
  ℕ, ◌+◌, String, Bool, true, false, ◌&&◌, Option, none, some, List, [], ◌∷◌, ok, err, Error, Tx,
  ◌>>=◌, ◌>>◌, pure, modify, gets, lift, ◌==◌, str_eq,
}
use proofgraph.Json.{Json, Fields}
use proofgraph.Retention.{validate_retained_payload}
use proofgraph.Tables.{
  RunStatus, StageStatus, EventType, ProgressEvent, StageResult, GenerationRun, GenerationStage,
  Store,
}
use proofgraph.Events.{append_event_locked}
use proofgraph.Queue.{RunLease, lock_fenced_run, store_run}
use proofgraph.Execution.Rows.{
  dump_result, store_stage, stage_completed, first_stage, running_stage,
}

abbrev pub while_running : List RunStatus
while_running = RunStatus.running ∷ []

-- StageCheckpoint
pub record StageCheckpoint : Type 0 where
  pub stage : GenerationStage
  pub reused : Bool
  pub result : Option StageResult

unfoldable pub same_input : ℕ → String → String → GenerationStage → Bool
same_input run_id name input_hash stage =
    stage.run_id == run_id && str_eq stage.name name && str_eq stage.input_hash input_hash

unfoldable pub new_stage : ℕ → ℕ → String → String → ℕ → GenerationStage
new_stage id run_id name input_hash clock = record {
  id = id;
  run_id = run_id;
  name = name;
  input_hash = input_hash;
  status = StageStatus.running;
  attempt = 1;
  openai_response_id = none;
  output = none;
  error = none;
  started_at = some clock;
  completed_at = none;
}

unfoldable pub restarted : ℕ → GenerationStage → GenerationStage
restarted clock stage = record stage {
  status = StageStatus.running;
  attempt = stage.attempt + 1;
  error = none;
  output = none;
  openai_response_id = none;
  started_at = some clock;
  completed_at = none;
}

unfoldable pub stage_started_payload : GenerationStage → Fields
stage_started_payload stage = Fields.field "stage" (Json.text stage.name) (
    Fields.field "stage_attempt" (Json.num stage.attempt)
      (Fields.field "input_hash" (Json.text stage.input_hash) Fields.end))

-- The stage row of a fresh start or of a new attempt, written.
unfoldable pub open_stage : ℕ → GenerationRun → String → String → ℕ → Tx Store GenerationStage
unfolding first_stage same_input new_stage restarted store_stage
open_stage fresh run name input_hash clock s =
    elim (first_stage (same_input run.id name input_hash) s.stages) [
      | none ↦
          let stage = new_stage fresh run.id name input_hash clock in
          ok (stage, record s { stages = stage ∷ s.stages })
      | some old ↦ let stage = restarted clock old in ok (stage, store_stage stage s)
    ]

unfoldable pub at_stage : String → GenerationRun → GenerationRun
at_stage name run = record run { current_stage = some name }

unfoldable pub start_stage : ℕ → GenerationRun → String → String → ℕ → Tx Store StageCheckpoint
unfolding open_stage store_run
start_stage fresh run name input_hash clock = do
  stage ← open_stage fresh run name input_hash clock
  modify (store_run (at_stage name run))
  append_event_locked (at_stage name run) EventType.stage_started (stage_started_payload stage)
      false
  pure (record { stage = stage; reused = false; result = none })

-- filter(run=run, name=..., input_hash=..., status=COMPLETED)
unfoldable pub finished_input : ℕ → String → String → GenerationStage → Bool
unfolding same_input stage_completed
finished_input run_id name input_hash stage =
    same_input run_id name input_hash stage && stage_completed stage.status

-- The result of a finished stage, read by `StageResultEnvelope.model_validate_json`; an output
-- that it refuses, or null, is a ValidationError.
unfoldable pub stored_result :
    (Json → Option StageResult) → GenerationStage → Tx Store StageCheckpoint
stored_result validate_json stage s = elim stage.output [
  | none ↦ err (Error.other_exception "ValidationError")
  | some output ↦ elim (validate_json output) [
    | none ↦ err (Error.other_exception "ValidationError")
    | some result ↦ ok (record { stage = stage; reused = true; result = some result }, s)
  ]
]

-- _begin_stage: a finished stage with this input is reused.
unfoldable pub begin_stage :
    (Json → Option StageResult) → RunLease → String → String → ℕ → ℕ → ℕ → Tx Store StageCheckpoint
unfolding lock_fenced_run finished_input start_stage stored_result
begin_stage validate_json lease name input_hash fresh now clock = do
  run ← lock_fenced_run lease while_running true now
  finished ← gets (λ s. first_stage (finished_input run.id name input_hash) s.stages)
  elim finished [
    | some stage ↦ stored_result validate_json stage
    | none ↦ start_stage fresh run name input_hash clock
  ]

unfoldable pub finished_stage : StageResult → ℕ → GenerationStage → GenerationStage
finished_stage result clock stage = record stage {
  status = StageStatus.completed;
  output = some (dump_result result);
  openai_response_id = result.model_response_id;
  error = none;
  completed_at = some clock;
}

unfoldable pub append_progress : GenerationRun → List ProgressEvent → Tx Store (Unit {0})
append_progress run [] s = ok (tt, s)
append_progress run (p ∷ rest) s = elim (append_event_locked run p.event_type p.payload false s) [
  | err e ↦ err e
  | ok (_, t) ↦ append_progress run rest t
]

unfoldable pub stage_completed_payload : String → Fields
stage_completed_payload name =
    Fields.field "stage" (Json.text name) (Fields.field "state" (Json.text "completed") Fields.end)

-- GenerationStage.objects.get(pk=stage_id, run=run, status=RUNNING)
unfoldable pub get_running_stage : ℕ → GenerationRun → Tx Store GenerationStage
unfolding first_stage running_stage
get_running_stage stage_id run s = elim (first_stage (running_stage stage_id run.id) s.stages) [
  | none ↦ err Error.does_not_exist
  | some stage ↦ ok (stage, s)
]

-- _complete_stage: the output is checked before the transaction.
unfoldable pub complete_stage : RunLease → ℕ → StageResult → ℕ → ℕ → Tx Store (Unit {0})
unfolding lock_fenced_run get_running_stage append_progress store_stage
complete_stage lease stage_id result now clock = do
  lift (validate_retained_payload (dump_result result) false)
  run ← lock_fenced_run lease while_running true now
  stage ← get_running_stage stage_id run
  modify (store_stage (finished_stage result clock stage))
  append_progress run result.progress_events
  append_event_locked run EventType.stage_progress (stage_completed_payload result.stage_name) false
  pure tt

-- _append_progress_event
unfoldable pub append_progress_event : RunLease → ProgressEvent → ℕ → Tx Store (Unit {0})
unfolding lock_fenced_run
append_progress_event lease p now = do
  run ← lock_fenced_run lease while_running true now
  append_event_locked run p.event_type p.payload false
  pure tt
