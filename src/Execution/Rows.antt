-- ===== src/Execution/Rows.antt =====
-- The stage table, and the JSON of errors and stage results (`model_dump(mode="json")`).
use proofgraph.Base.{
  ℕ, String, Bool, true, false, ◌&&◌, Option, none, some, List, [], ◌∷◌, ◌==◌, if◌then◌else◌,
}
use proofgraph.Json.{Json, Items, Fields}
use proofgraph.Tables.{StageStatus, event_name, ProgressEvent, StageResult, GenerationStage, Store}

-- schemas.py: RunErrorEnvelope
pub record RunError : Type 0 where
  pub code : String
  pub message : String
  pub retryable : Bool
  pub stage : Option String
  pub details : Fields

unfoldable pub optional_text : Option String → Json
optional_text none = Json.null
optional_text (some s) = Json.text s

-- error.model_dump(mode="json")
unfoldable pub dump_error : RunError → Fields
dump_error e = Fields.field "code" (Json.text e.code) (
    Fields.field "message" (Json.text e.message) (
      Fields.field "retryable" (Json.bool e.retryable) (
        Fields.field "stage" (optional_text e.stage)
          (Fields.field "details" (Json.obj e.details) Fields.end))))

unfoldable pub dump_progress : List ProgressEvent → Items
dump_progress [] = Items.nil
dump_progress (p ∷ rest) =
    Items.cons
      (Json.obj (
        Fields.field "event_type" (Json.text (event_name p.event_type))
          (Fields.field "payload" (Json.obj p.payload) Fields.end)))
      (dump_progress rest)

-- result.model_dump(mode="json")
unfoldable pub dump_result : StageResult → Json
unfolding dump_progress optional_text
dump_result r = Json.obj (
    Fields.field "schema_version" (Json.num 1) (
      Fields.field "stage_name" (Json.text r.stage_name) (
        Fields.field "output" (Json.obj r.output) (
          Fields.field "provider_identity" (Json.text r.provider_identity) (
            Fields.field "model_response_id" (optional_text r.model_response_id) (
              Fields.field "token_usage"
                (elim r.token_usage [ none ↦ Json.null | some usage ↦ Json.obj usage ])
                (Fields.field "progress_events" (Json.arr (dump_progress r.progress_events))
                  Fields.end)))))))

unfoldable pub save_stage : GenerationStage → List GenerationStage → List GenerationStage
save_stage stage [] = []
save_stage stage (row ∷ stages) =
    (if row.id == stage.id then stage else row) ∷ save_stage stage stages

unfoldable pub store_stage : GenerationStage → Store → Store
store_stage stage s = record s { stages = save_stage stage s.stages }

unfoldable pub stage_running : StageStatus → Bool
stage_running StageStatus.running = true
stage_running _ = false

unfoldable pub stage_completed : StageStatus → Bool
stage_completed StageStatus.completed = true
stage_completed _ = false

unfoldable pub first_stage :
    (GenerationStage → Bool) → List GenerationStage → Option GenerationStage
first_stage test [] = none
first_stage test (stage ∷ stages) = if test stage then some stage else first_stage test stages

-- filter(pk=stage_id, run=run, status=RUNNING)
unfoldable pub running_stage : ℕ → ℕ → GenerationStage → Bool
running_stage stage_id run_id stage =
    stage.id == stage_id && stage.run_id == run_id && stage_running stage.status

unfoldable pub fail_stage : Option ℕ → ℕ → (GenerationStage → Fields) → ℕ → Store → Store
unfolding first_stage running_stage store_stage
fail_stage none run_id error clock s = s
fail_stage (some stage_id) run_id error clock s =
    elim (first_stage (running_stage stage_id run_id) s.stages) [
      | none ↦ s
      | some stage ↦
          store_stage
            (record stage {
              status = StageStatus.failed;
              error = some (error stage);
              completed_at = some clock;
            })
            s
    ]
