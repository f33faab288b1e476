-- ===== src/Tables.antt =====
-- proofgraph/generation/models.py: the rows of the generation tables and of the canvases' event
-- cursors. A UUID is its number, a timestamp counts microseconds, and a table is a list of rows.
use proofgraph.Base.{ℕ, String, Bool, Option, none, some, List, [], ◌∷◌, ◌==◌, if◌then◌else◌}
use proofgraph.Json.{Json, Fields}

pub data RunOperation : Type 0 where
  generate_strategies research_evidence synthesize_opportunities regenerate_stale : RunOperation

pub data RunStatus : Type 0 where
  queued running patch_ready completed failed cancelled : RunStatus

pub data StageStatus : Type 0 where
  running completed failed : StageStatus

pub data EventType : Type 0 where
  run_started run_resumed run_retry_requested stage_started stage_progress : EventType
  research_query_created research_source_found evidence_extracted : EventType
  candidate_generated candidate_critiqued patch_ready : EventType
  run_completed run_failed run_cancelled : EventType

-- The stored text of an event type.
unfoldable pub event_name : EventType → String
event_name EventType.run_started = "run.started"
event_name EventType.run_resumed = "run.resumed"
event_name EventType.run_retry_requested = "run.retry_requested"
event_name EventType.stage_started = "stage.started"
event_name EventType.stage_progress = "stage.progress"
event_name EventType.research_query_created = "research.query_created"
event_name EventType.research_source_found = "research.source_found"
event_name EventType.evidence_extracted = "evidence.extracted"
event_name EventType.candidate_generated = "candidate.generated"
event_name EventType.candidate_critiqued = "candidate.critiqued"
event_name EventType.patch_ready = "patch.ready"
event_name EventType.run_completed = "run.completed"
event_name EventType.run_failed = "run.failed"
event_name EventType.run_cancelled = "run.cancelled"

-- schemas.py: RunExecutionConfiguration
pub record ExecutionConfiguration : Type 0 where
  pub profile_id : String
  pub provider_identity : String
  pub pipeline_version : String
  pub prompt_version : String
  pub strategy_version : String
  pub fixture_bundle_id : Option String
  pub fixture_version : Option String

-- What a run was created with; no later operation writes it.
pub record RunRequest : Type 0 where
  pub canvas_id : ℕ
  pub demo_session_id : Option ℕ
  pub operation : RunOperation
  pub idempotency_key : String
  pub request_fingerprint : String
  pub base_canvas_revision : ℕ
  pub context_snapshot : Json
  pub context_manifest : Json
  pub context_hash : String
  pub events_after_sequence : ℕ
  pub selected_node_ids : List String
  pub expected_node_versions : List (String × ℕ)
  pub execution_configuration : ExecutionConfiguration
  pub max_attempts : ℕ
  pub created_at : ℕ

pub record GenerationRun : Type 0 where
  pub id : ℕ
  pub request : RunRequest
  pub open request use *
  pub status : RunStatus
  pub current_stage : Option String
  pub worker_id : Option String
  pub lease_token : Option ℕ
  pub lease_epoch : ℕ
  pub attempt : ℕ
  pub heartbeat_at : Option ℕ
  pub lease_expires_at : Option ℕ
  pub cancel_requested_at : Option ℕ
  pub error : Option Fields
  pub started_at : Option ℕ
  pub completed_at : Option ℕ

-- schemas.py: ProgressEventEnvelope, with one of the event types that the table admits.
pub record ProgressEvent : Type 0 where
  pub event_type : EventType
  pub payload : Fields

-- schemas.py: StageResultEnvelope
pub record StageResult : Type 0 where
  pub stage_name : String
  pub output : Fields
  pub provider_identity : String
  pub model_response_id : Option String
  pub token_usage : Option Fields
  pub progress_events : List ProgressEvent

pub record GenerationStage : Type 0 where
  pub id : ℕ
  pub run_id : ℕ
  pub name : String
  pub input_hash : String
  pub status : StageStatus
  pub attempt : ℕ
  pub openai_response_id : Option String
  pub output : Option Json
  pub error : Option Fields
  pub started_at : Option ℕ
  pub completed_at : Option ℕ

pub record GenerationEvent : Type 0 where
  pub canvas_id : ℕ
  pub run_id : ℕ
  pub canvas_sequence : ℕ
  pub run_sequence : ℕ
  pub event_type : EventType
  pub payload : Fields

-- Of a graph patch the queue and the executor read the run and the identity; `operations` are its
-- candidates, still in JSON.
pub record PatchRow : Type 0 where
  pub id : ℕ
  pub run_id : ℕ
  pub canvas_id : ℕ
  pub base_canvas_revision : ℕ
  pub operations : Json
  pub regeneration_target_ids : Json
  pub permitted_stale_resolution_ids : Json

-- The tables, with the newest event first.
pub record Store : Type 0 where
  pub runs : List GenerationRun
  pub stages : List GenerationStage
  pub events : List GenerationEvent
  pub cursors : List (ℕ × ℕ)
  pub patches : List PatchRow

status_number : RunStatus → ℕ
status_number RunStatus.queued = 0
status_number RunStatus.running = 1
status_number RunStatus.patch_ready = 2
status_number RunStatus.completed = 3
status_number RunStatus.failed = 4
status_number RunStatus.cancelled = 5

unfoldable pub same_status : RunStatus → RunStatus → Bool
unfolding status_number
same_status a b = status_number a == status_number b

-- GenerationRun.objects.filter(pk=run_id).first()
unfoldable pub find_run : ℕ → List GenerationRun → Option GenerationRun
find_run run_id [] = none
find_run run_id (run ∷ runs) = if run.id == run_id then some run else find_run run_id runs

-- run.save(): the row with this primary key.
unfoldable pub save_run : GenerationRun → List GenerationRun → List GenerationRun
save_run run [] = []
save_run run (row ∷ runs) = (if row.id == run.id then run else row) ∷ save_run run runs

-- CanvasEventCursor.objects.get(canvas_id=...)
unfoldable pub find_cursor : ℕ → List (ℕ × ℕ) → Option ℕ
find_cursor canvas_id [] = none
find_cursor canvas_id ((canvas, last) ∷ cursors) =
    if canvas == canvas_id then some last else find_cursor canvas_id cursors

unfoldable pub save_cursor : ℕ → ℕ → List (ℕ × ℕ) → List (ℕ × ℕ)
save_cursor canvas_id last [] = []
save_cursor canvas_id last ((canvas, old) ∷ cursors) =
    (if canvas == canvas_id then (canvas, last) else (canvas, old))
    ∷ save_cursor canvas_id last cursors

-- run.patch
unfoldable pub patch_of_run : ℕ → List PatchRow → Option PatchRow
patch_of_run run_id [] = none
patch_of_run run_id (patch ∷ patches) =
    if patch.run_id == run_id then some patch else patch_of_run run_id patches
