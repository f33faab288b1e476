-- ===== src/Services.antt =====
-- proofgraph/generation/services.py: cancelling, retrying and reading a run. The payload of a
-- response is a record with timestamps as numbers; the details of an error are not modelled.
pub mod Selection
pub mod Fingerprint
pub mod Creation
pub mod Creating
pub mod Keeping
pub mod Repeating
pub mod Fitting
pub mod Suitable
use proofgraph.Base.{
  ℕ, ◌+◌, String, Bool, true, false, not, ◌||◌, Option, none, some, ok, err, Error, Tx, ◌>>=◌, ◌>>◌,
  raise, modify, leb, if◌then◌else◌,
}
use proofgraph.Json.{Json, Fields, get}
use proofgraph.Tables.{
  RunOperation, RunStatus, EventType, GenerationRun, PatchRow, Store, same_status, find_run,
  patch_of_run,
}
use proofgraph.Events.{append_event_locked}
use proofgraph.Queue.{store_run}

pub data CancellationState : Type 0 where
  not_requested requested cancelled : CancellationState

pub record RunPayload : Type 0 where
  pub run_id : ℕ
  pub canvas_id : ℕ
  pub operation : RunOperation
  pub status : RunStatus
  pub current_stage : Option String
  pub attempt : ℕ
  pub max_attempts : ℕ
  pub cancellation_state : CancellationState
  pub error : Option Fields
  pub created_at : ℕ
  pub started_at : Option ℕ
  pub completed_at : Option ℕ
  pub ready_patch_id : Option ℕ

unfoldable pub is_some {ℓ} : {A : Type ℓ} → Option A → Bool
is_some none = false
is_some (some a) = true

unfoldable pub cancellation_state_of : GenerationRun → CancellationState
unfolding same_status is_some
cancellation_state_of run =
    if same_status run.status RunStatus.cancelled
    then CancellationState.cancelled
    else if is_some run.cancel_requested_at
    then CancellationState.requested
    else CancellationState.not_requested

unfoldable pub patch_number : Option PatchRow → Option ℕ
patch_number none = none
patch_number (some patch) = some patch.id

unfoldable pub serialize_generation_run : GenerationRun → Store → RunPayload
unfolding cancellation_state_of patch_number
serialize_generation_run run s = record {
  run_id = run.id;
  canvas_id = run.canvas_id;
  operation = run.operation;
  status = run.status;
  current_stage = run.current_stage;
  attempt = run.attempt;
  max_attempts = run.max_attempts;
  cancellation_state = cancellation_state_of run;
  error = run.error;
  created_at = run.created_at;
  started_at = run.started_at;
  completed_at = run.completed_at;
  ready_patch_id = patch_number (patch_of_run run.id s.patches);
}

-- ServiceResult: the payload and the HTTP status.
unfoldable pub service_result : GenerationRun → ℕ → Tx Store (RunPayload × ℕ)
service_result run status s = ok ((serialize_generation_run run s, status), s)

unfoldable pub get_generation_run : ℕ → Tx Store GenerationRun
get_generation_run run_id s = elim (find_run run_id s.runs) [
  | none ↦ err (Error.api 404 "generation_run_not_found")
  | some run ↦ ok (run, s)
]

unfoldable pub cancelled_before_claim : ℕ → GenerationRun → GenerationRun
cancelled_before_claim now run = record run {
  status = RunStatus.cancelled;
  cancel_requested_at = some now;
  completed_at = some now;
}

unfoldable pub cancel_payload : String → ℕ → Fields
cancel_payload reason attempt =
    Fields.field "reason" (Json.text reason) (Fields.field "attempt" (Json.num attempt) Fields.end)

-- The request is recorded once; a second one changes nothing.
unfoldable pub request_cancellation : ℕ → GenerationRun → GenerationRun
request_cancellation now run = elim run.cancel_requested_at [
  | none ↦ record run { cancel_requested_at = some now }
  | some _ ↦ run
]

unfoldable pub cancel_locked : ℕ → GenerationRun → RunStatus → Tx Store (RunPayload × ℕ)
cancel_locked now run RunStatus.cancelled = service_result run 200
cancel_locked now run RunStatus.queued = do
  modify (store_run (cancelled_before_claim now run))
  append_event_locked (cancelled_before_claim now run) EventType.run_cancelled
      (cancel_payload "cancelled_before_claim" run.attempt) true
  service_result (cancelled_before_claim now run) 200
cancel_locked now run RunStatus.running = do
  modify (store_run (request_cancellation now run))
  service_result (request_cancellation now run) 202
cancel_locked now run _ = raise (Error.api 409 "run_not_cancellable")

unfoldable pub cancel_generation_run : ℕ → ℕ → Tx Store (RunPayload × ℕ)
unfolding get_generation_run cancel_locked
cancel_generation_run run_id now = do
  run ← get_generation_run run_id
  cancel_locked now run run.status

-- error.get("retryable") is True
unfoldable pub is_retryable : Option Fields → Bool
unfolding get
is_retryable none = false
is_retryable (some error) = elim (get "retryable" error) [ some (Json.bool b) ↦ b | _ ↦ false ]

unfoldable pub refuses_retry : GenerationRun → Bool
unfolding same_status is_retryable is_some
refuses_retry run =
    not (same_status run.status RunStatus.failed)
    || not (is_retryable run.error)
    || is_some run.worker_id
    || is_some run.lease_token
    || is_some run.lease_expires_at
    || leb run.max_attempts run.attempt

unfoldable pub requeued : GenerationRun → GenerationRun
requeued run = record run {
  status = RunStatus.queued;
  current_stage = none;
  cancel_requested_at = none;
  error = none;
  completed_at = none;
}

unfoldable pub retry_payload : ℕ → Fields
retry_payload next_attempt = Fields.field "next_attempt" (Json.num next_attempt) Fields.end

unfoldable pub requeue : GenerationRun → Tx Store (RunPayload × ℕ)
requeue run = do
  modify (store_run (requeued run))
  append_event_locked (requeued run) EventType.run_retry_requested (retry_payload (run.attempt + 1))
      false
  service_result (requeued run) 202

unfoldable pub retry_generation_run : ℕ → Tx Store (RunPayload × ℕ)
unfolding get_generation_run refuses_retry requeue
retry_generation_run run_id = do
  run ← get_generation_run run_id
  if refuses_retry run then raise (Error.api 409 "run_not_retryable") else requeue run
