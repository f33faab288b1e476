-- ===== src/Execution/Endings.antt =====
-- _finalize_cancelled_run, _cancel_if_requested, _fail_run and _persist_patch_then_complete.
use proofgraph.Base.{
  ℕ, ◌+◌, String, Bool, true, false, ◌&&◌, Option, none, some, [], ◌∷◌, Result, ok, err, Error, Tx,
  ◌>>=◌, ◌>>◌, pure, modify, lift, leb, if◌then◌else◌,
}
use proofgraph.Json.{Json, Items, Fields, get, put}
use proofgraph.Retention.{validate_retained_payload}
use proofgraph.Tables.{
  RunStatus, EventType, GenerationRun, GenerationStage, PatchRow, Store, patch_of_run,
}
use proofgraph.Events.{append_event_locked}
use proofgraph.Services.{cancel_payload}
use proofgraph.Queue.{RunLease, lock_fenced_run, store_run, without_lease, uuid_text}
use proofgraph.Queue.Recovery.{completed}
use proofgraph.Execution.Rows.{RunError, dump_error, fail_stage}
use proofgraph.Execution.Stages.{while_running}

unfoldable pub cancelled_stage_error : GenerationStage → Fields
cancelled_stage_error stage = Fields.field "code" (Json.text "run_cancelled") (
    Fields.field "message" (Json.text "The run was cancelled while this stage was active.") (
      Fields.field "retryable" (Json.bool false) (
        Fields.field "stage" (Json.text stage.name)
          (Fields.field "details" (Json.obj Fields.end) Fields.end))))

unfoldable pub cancelled : ℕ → GenerationRun → GenerationRun
unfolding without_lease
cancelled clock run = record (without_lease run) {
  status = RunStatus.cancelled;
  completed_at = some clock;
}

-- _finalize_cancelled_run
unfoldable pub finalize_cancelled_run : GenerationRun → String → Option ℕ → ℕ → Tx Store (Unit {0})
unfolding fail_stage store_run
finalize_cancelled_run run reason stage_id clock = do
  modify (fail_stage stage_id run.id cancelled_stage_error clock)
  modify (store_run (cancelled clock run))
  append_event_locked (cancelled clock run) EventType.run_cancelled
      (cancel_payload reason run.attempt) true
  pure tt

unfoldable pub observed_cancellation : GenerationRun → Option ℕ → ℕ → Tx Store Bool
unfolding finalize_cancelled_run
observed_cancellation run stage_id clock = elim run.cancel_requested_at [
  | none ↦ pure false
  | some _ ↦ (do
    finalize_cancelled_run run "worker_observed_cancellation" stage_id clock
    pure true)
]

-- _cancel_if_requested
unfoldable pub cancel_if_requested : RunLease → Option ℕ → ℕ → ℕ → Tx Store Bool
unfolding lock_fenced_run observed_cancellation
cancel_if_requested lease stage_id now clock = do
  run ← lock_fenced_run lease while_running true now
  observed_cancellation run stage_id clock

-- What is kept of an error: on the last attempt a retryable error becomes final.
unfoldable pub persisted_error : GenerationRun → RunError → RunError
persisted_error run error =
    if error.retryable && leb run.max_attempts run.attempt
    then record {
      code = "attempts_exhausted";
      message = "The run exhausted its maximum worker attempts.";
      retryable = false;
      stage = error.stage;
      details = Fields.field "last_error" (Json.obj (dump_error error)) Fields.end;
    }
    else error

unfoldable pub failed : RunError → ℕ → GenerationRun → GenerationRun
unfolding without_lease
failed error clock run = record (without_lease run) {
  status = RunStatus.failed;
  error = some (dump_error (persisted_error run error));
  completed_at = some clock;
}

-- The transaction of `_fail_run`.
unfoldable pub fail_locked : RunLease → RunError → Option ℕ → ℕ → ℕ → Tx Store (Unit {0})
unfolding lock_fenced_run fail_stage store_run
fail_locked lease error stage_id now clock = do
  run ← lock_fenced_run lease while_running true now
  modify (fail_stage stage_id run.id (λ _. dump_error error) clock)
  modify (store_run (failed error clock run))
  append_event_locked (failed error clock run) EventType.run_failed
      (put "attempt" (Json.num run.attempt) (dump_error (persisted_error run error))) true
  pure tt

-- _fail_run: a lost lease is no error here.
unfoldable pub fail_run : RunLease → RunError → Option ℕ → ℕ → ℕ → Tx Store (Unit {0})
unfolding fail_locked
fail_run lease error stage_id now clock s = elim (fail_locked lease error stage_id now clock s) [
  | err Error.lease_lost ↦ ok (tt, s)
  | err e ↦ err e
  | ok (_, t) ↦ ok (tt, t)
]

-- Patch construction must return a list of objects.
unfoldable pub all_objects : Items → Bool
all_objects Items.nil = true
all_objects (Items.cons (Json.obj _) rest) = all_objects rest
all_objects (Items.cons _ rest) = false

unfoldable pub patch_operations : Fields → Result Items
unfolding get all_objects
patch_operations patch_output = elim (get "operations" patch_output) [
  | some (Json.arr operations) ↦
      if all_objects operations
      then ok operations
      else err (Error.stage_execution "invalid_patch_output" false)
  | _ ↦ err (Error.stage_execution "invalid_patch_output" false)
]

-- patch_output.get(name, [])
unfoldable pub id_list : String → Fields → Json
unfolding get
id_list name patch_output = elim (get name patch_output) [
  | some ids ↦ ids
  | none ↦ Json.arr Items.nil
]

unfoldable pub count_items : Items → ℕ
count_items Items.nil = 0
count_items (Items.cons _ rest) = count_items rest + 1

-- GraphPatch.objects.get_or_create(run=run, ...)
unfoldable pub get_or_create_patch : ℕ → GenerationRun → Items → Fields → Tx Store PatchRow
unfolding id_list
get_or_create_patch fresh run operations patch_output s = elim (patch_of_run run.id s.patches) [
  | some patch ↦ ok (patch, s)
  | none ↦
      let patch : PatchRow = record {
        id = fresh;
        run_id = run.id;
        canvas_id = run.canvas_id;
        base_canvas_revision = run.base_canvas_revision;
        operations = Json.arr operations;
        regeneration_target_ids = id_list "regeneration_target_ids" patch_output;
        permitted_stale_resolution_ids = id_list "permitted_stale_resolution_ids" patch_output;
      } in
      ok (patch, record s { patches = patch ∷ s.patches })
]

unfoldable pub patch_ready : GenerationRun → GenerationRun
patch_ready run = record run { status = RunStatus.patch_ready }

unfoldable pub patch_ready_payload : PatchRow → ℕ → Fields
patch_ready_payload patch count =
    Fields.field "patch_id" (Json.text (uuid_text patch.id))
      (Fields.field "operation_count" (Json.num count) Fields.end)

unfoldable pub hand_over_patch : ℕ → GenerationRun → Items → Fields → Tx Store (Option PatchRow)
unfolding get_or_create_patch store_run
hand_over_patch fresh run operations patch_output = do
  patch ← get_or_create_patch fresh run operations patch_output
  modify (store_run (patch_ready run))
  append_event_locked (patch_ready run) EventType.patch_ready
      (patch_ready_payload patch (count_items operations)) false
  pure (some patch)

unfoldable pub cancelled_or_ready :
    ℕ → GenerationRun → Items → Fields → ℕ → Tx Store (Option PatchRow)
unfolding finalize_cancelled_run hand_over_patch
cancelled_or_ready fresh run operations patch_output clock = elim run.cancel_requested_at [
  | none ↦ hand_over_patch fresh run operations patch_output
  | some _ ↦ (do finalize_cancelled_run run "cancelled_before_finalization" none clock; pure none)
]

-- The first transaction of `_persist_patch_then_complete`, after the checks on the output; `none`
-- if the run was cancelled.
unfoldable pub persist_patch : RunLease → Fields → ℕ → ℕ → ℕ → Tx Store (Option PatchRow)
unfolding patch_operations lock_fenced_run cancelled_or_ready
persist_patch lease patch_output fresh now clock = do
  operations ← lift (patch_operations patch_output)
  lift (validate_retained_payload (Json.arr operations) false)
  run ← lock_fenced_run lease while_running true now
  cancelled_or_ready fresh run operations patch_output clock

unfoldable pub completed_payload : PatchRow → ℕ → Fields
completed_payload patch attempt =
    Fields.field "patch_id" (Json.text (uuid_text patch.id))
      (Fields.field "attempt" (Json.num attempt) Fields.end)

-- The second transaction.
unfoldable pub complete_run : RunLease → PatchRow → ℕ → ℕ → Tx Store (Unit {0})
unfolding lock_fenced_run store_run
complete_run lease patch now clock = do
  run ← lock_fenced_run lease (RunStatus.patch_ready ∷ []) true now
  modify (store_run (completed clock run))
  append_event_locked (completed clock run) EventType.run_completed
      (completed_payload patch run.attempt) true
  pure tt

-- _persist_patch_then_complete: false if the run was cancelled. The state comes beside the result,
-- since an error of the second transaction leaves what the first committed.
unfoldable pub persist_patch_then_complete :
    RunLease → Fields → ℕ → ℕ → ℕ → ℕ → ℕ → Store → Result Bool × Store
unfolding persist_patch complete_run
persist_patch_then_complete lease patch_output fresh now clock later later_clock s =
    elim (persist_patch lease patch_output fresh now clock s) [
      | err e ↦ (err e, s)
      | ok (none, t) ↦ (ok false, t)
      | ok (some patch, t) ↦ elim (complete_run lease patch later later_clock t) [
        | err e ↦ (err e, t)
        | ok (_, u) ↦ (ok true, u)
      ]
    ]
