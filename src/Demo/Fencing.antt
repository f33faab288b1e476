-- ===== src/Demo/Fencing.antt =====
-- proofgraph/demo/cleanup.py and services.py: what becomes of the runs of a demo session that is
-- reset or has expired, run by run. The canvas that is deleted afterwards, with its rows, is left
-- out.
use proofgraph.Base.{
  ℕ, ◌+◌, String, Bool, true, false, ◌&&◌, none, some, List, [], ◌∷◌, ◌==◌, leb, if◌then◌else◌, ok,
  Tx, ◌>>◌, pure, modify,
}
use proofgraph.Tables.{RunStatus, EventType, GenerationRun, Store, find_run, same_status}
use proofgraph.Events.{append_event_locked}
use proofgraph.Queue.{is_number, status_in, without_lease, store_run}
use proofgraph.Services.{cancel_payload, request_cancellation}

-- status__in=[QUEUED, RUNNING, PATCH_READY]
abbrev pub active_statuses : List RunStatus
active_statuses = RunStatus.queued ∷ RunStatus.running ∷ RunStatus.patch_ready ∷ []

unfoldable pub is_active : ℕ → GenerationRun → Bool
unfolding status_in is_number
is_active session run =
    is_number run.demo_session_id session && status_in active_statuses run.status

unfoldable pub fenced : Bool → ℕ → GenerationRun → GenerationRun
unfolding without_lease
fenced cancelled now run = record (without_lease run) {
  status = if cancelled then RunStatus.cancelled else RunStatus.completed;
  cancel_requested_at = if cancelled then some now else run.cancel_requested_at;
  completed_at = some now;
  lease_epoch = run.lease_epoch + 1;
}

-- fence_and_terminalize_run
unfoldable pub fence_and_terminalize_run : GenerationRun → ℕ → Bool → String → Tx Store (Unit {0})
unfolding fenced store_run
fence_and_terminalize_run run now cancelled reason = do
  modify (store_run (fenced cancelled now run))
  append_event_locked (fenced cancelled now run)
      (if cancelled then EventType.run_cancelled else EventType.run_completed)
      (cancel_payload reason run.attempt) true
  pure tt

-- reset_demo_session, for one run of the session on its canvas.
unfoldable pub reset_run : ℕ → ℕ → ℕ → ℕ → Tx Store (Unit {0})
unfolding find_run is_active fence_and_terminalize_run
reset_run session canvas run_id now s = elim (find_run run_id s.runs) [
  | none ↦ ok (tt, s)
  | some run ↦
      if is_active session run && run.canvas_id == canvas
      then fence_and_terminalize_run run now true "demo_reset" s
      else ok (tt, s)
]

-- lease_expires_at is None or lease_expires_at <= now
unfoldable pub lease_over : ℕ → GenerationRun → Bool
lease_over now run = elim run.lease_expires_at [ none ↦ true | some t ↦ leb t now ]

-- One round of the loop of _cleanup_locked_session; true if the run has a live owner, who is asked
-- to stop, once.
unfoldable pub clean_active : ℕ → GenerationRun → Tx Store Bool
unfolding same_status lease_over fence_and_terminalize_run store_run
clean_active now run =
    if same_status run.status RunStatus.queued
    then (fence_and_terminalize_run run now true "demo_session_expired" >> pure false)
    else if same_status run.status RunStatus.patch_ready && lease_over now run
    then (fence_and_terminalize_run run now false "demo_session_expired" >> pure false)
    else if same_status run.status RunStatus.running && lease_over now run
    then (fence_and_terminalize_run run now true "demo_session_expired" >> pure false)
    else (modify (store_run (request_cancellation now run)) >> pure true)

-- _cleanup_locked_session, for one run of the session.
unfoldable pub clean_run : ℕ → ℕ → ℕ → Tx Store Bool
unfolding find_run is_active clean_active
clean_run session run_id now s = elim (find_run run_id s.runs) [
  | none ↦ ok (false, s)
  | some run ↦ if is_active session run then clean_active now run s else ok (false, s)
]
