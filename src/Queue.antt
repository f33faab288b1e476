-- ===== src/Queue.antt =====
-- proofgraph/generation/queue.py: the run queue, with leases that fence a worker off once another
-- has taken its run over. One time, an argument, stands for `Now()` in every statement of a
-- transaction; `locked` tells the rows that other transactions hold, which `skip_locked` passes
-- over.
mod Uuid
pub mod Recovery
pub mod Claim
pub mod Rows
pub mod Order
pub mod Steps
pub use Uuid.{uuid_text}
use Prim.Native.String.{◌++◌ as join}
use proofgraph.Base.{
  ℕ, zero, suc, ◌+◌, ◌*◌, String, Bool, true, false, not, ◌&&◌, ◌||◌, Option, none, some, List, [],
  ◌∷◌, Result, ok, err, Error, Tx, ◌>>=◌, ◌>>◌, pure, raise, gets, modify, committed, ltb, leb,
  ◌==◌, if◌then◌else◌, any, keep, str_eq,
}
use proofgraph.Json.{Json, Fields, put}
use proofgraph.Tables.{
  RunStatus, EventType, GenerationRun, PatchRow, Store, same_status, find_run, save_run,
  patch_of_run,
}
use proofgraph.Events.{append_event_locked}

-- settings.GENERATION_LEASE_SECONDS, in microseconds.
abbrev pub lease_duration : ℕ
lease_duration = 60 * 1_000_000

-- What a transaction finds outside its tables: the time, the rows locked elsewhere, and the
-- identifier that `uuid.uuid4()` returns.
pub record Moment : Type 0 where
  pub now : ℕ
  pub locked : ℕ → Bool
  pub fresh : ℕ

pub record RunLease : Type 0 where
  pub run_id : ℕ
  pub worker_id : String
  pub lease_token : ℕ
  pub lease_epoch : ℕ
  pub canvas_id : ℕ

-- A nullable timestamp compared with `<` in SQL: null is no match.
unfoldable pub expired : GenerationRun → ℕ → Bool
expired run now = elim run.lease_expires_at [ none ↦ false | some t ↦ ltb t now ]

unfoldable pub live : GenerationRun → ℕ → Bool
live run now = elim run.lease_expires_at [ none ↦ false | some t ↦ ltb now t ]

unfoldable pub is_number : Option ℕ → ℕ → Bool
is_number none n = false
is_number (some m) n = m == n

unfoldable pub is_name : Option String → String → Bool
is_name none name = false
is_name (some other) name = str_eq other name

unfoldable pub status_in : List RunStatus → RunStatus → Bool
unfolding any
status_in statuses status = any (same_status status) statuses

-- ORDER BY created_at, id
unfoldable pub before : GenerationRun → GenerationRun → Bool
before r q = ltb r.created_at q.created_at || (r.created_at == q.created_at && leb r.id q.id)

unfoldable pub earlier : GenerationRun → Option GenerationRun → GenerationRun
earlier run none = run
earlier run (some other) = if before run other then run else other

unfoldable pub earliest : List GenerationRun → Option GenerationRun
unfolding earlier before
earliest [] = none
earliest (run ∷ runs) = some (earlier run (earliest runs))

-- select_for_update(skip_locked=True).filter(test).order_by("created_at", "id").first()
unfoldable pub first_unlocked :
    (GenerationRun → Bool) → Moment → List GenerationRun → Option GenerationRun
unfolding keep earliest
first_unlocked test m runs = earliest (keep (λ run. test run && not (m.locked run.id)) runs)

-- The run with its lease fields set to null.
unfoldable pub without_lease : GenerationRun → GenerationRun
without_lease run = record run {
  worker_id = none;
  lease_token = none;
  heartbeat_at = none;
  lease_expires_at = none;
}

unfoldable pub store_run : GenerationRun → Store → Store
store_run run s = record s { runs = save_run run s.runs }

-- _poison_error
unfoldable pub poison_error : Fields
poison_error = Fields.field "code" (Json.text "attempts_exhausted") (
    Fields.field "message" (Json.text "The run exhausted its maximum worker attempts.") (
      Fields.field "retryable" (Json.bool false)
        (Fields.field "stage" Json.null (Fields.field "details" (Json.obj Fields.end) Fields.end))))

unfoldable pub is_exhausted : ℕ → GenerationRun → Bool
unfolding same_status expired status_in
is_exhausted now run =
    leb run.max_attempts run.attempt
    && (same_status run.status RunStatus.queued
        || (status_in (RunStatus.running ∷ RunStatus.patch_ready ∷ []) run.status
            && expired run now))

unfoldable pub poisoned : ℕ → GenerationRun → GenerationRun
unfolding without_lease poison_error
poisoned now run = record (without_lease run) {
  status = RunStatus.failed;
  error = some poison_error;
  completed_at = some now;
}

-- One round of `terminalize_exhausted_runs`: false if no run is left.
unfoldable pub terminalize_one : Moment → Tx Store Bool
unfolding first_unlocked store_run
terminalize_one m s = elim (first_unlocked (is_exhausted m.now) m s.runs) [
  | none ↦ ok (false, s)
  | some run ↦
      (do
        modify (store_run (poisoned m.now run))
        append_event_locked (poisoned m.now run) EventType.run_failed
            (put "attempt" (Json.num run.attempt) poison_error) true
        pure true)
        s
]

-- Transactions one after the other: an exception ends the loop, and what was committed stays.
-- `rounds` counts the transactions, `fuel` bounds them; `none` means that the fuel ran out.
unfoldable pub drain : ℕ → (ℕ → Tx Store Bool) → ℕ → Store → Option (Result ℕ × Store)
drain zero round rounds s = none
drain (suc fuel) round rounds s = elim (round rounds s) [
  | err e ↦ some (err e, s)
  | ok (false, t) ↦ some (ok rounds, t)
  | ok (true, t) ↦ drain fuel round (suc rounds) t
]

-- terminalize_exhausted_runs
unfoldable pub terminalize_exhausted_runs : ℕ → (ℕ → Moment) → Store → Option (Result ℕ × Store)
unfolding drain terminalize_one
terminalize_exhausted_runs fuel moments = drain fuel (λ n. terminalize_one (moments n)) 0

-- lock_fenced_run: the run, if the lease is still its lease.
unfoldable pub holds : RunLease → List RunStatus → Bool → ℕ → GenerationRun → Bool
unfolding status_in is_name is_number live
holds lease statuses require_live_lease now run =
    status_in statuses run.status
    && is_name run.worker_id lease.worker_id
    && is_number run.lease_token lease.lease_token
    && run.lease_epoch == lease.lease_epoch
    && (not require_live_lease || live run now)

unfoldable pub lock_fenced_run : RunLease → List RunStatus → Bool → ℕ → Tx Store GenerationRun
unfolding holds
lock_fenced_run lease statuses require_live_lease now s = elim (find_run lease.run_id s.runs) [
  | none ↦ err Error.lease_lost
  | some run ↦
      if holds lease statuses require_live_lease now run then ok (run, s) else err Error.lease_lost
]

-- A lease granted now: to the recovery of a finished run, or to a claiming worker.
unfoldable pub with_lease : String → ℕ → ℕ → GenerationRun → GenerationRun
with_lease worker_id token now run = record run {
  worker_id = some worker_id;
  lease_token = some token;
  lease_epoch = run.lease_epoch + 1;
  heartbeat_at = some now;
  lease_expires_at = some (now + lease_duration);
}

unfoldable pub lease_of : String → ℕ → GenerationRun → RunLease
lease_of worker_id token run = record {
  run_id = run.id;
  worker_id = worker_id;
  lease_token = token;
  lease_epoch = run.lease_epoch;
  canvas_id = run.canvas_id;
}

-- renew_lease
unfoldable pub renewed : ℕ → GenerationRun → GenerationRun
renewed now run = record run {
  heartbeat_at = some now;
  lease_expires_at = some (now + lease_duration);
}

unfoldable pub renew_lease : RunLease → ℕ → Tx Store Bool
unfolding holds store_run
renew_lease lease now s = elim (find_run lease.run_id s.runs) [
  | none ↦ ok (false, s)
  | some run ↦
      if holds lease (RunStatus.running ∷ []) true now run
      then ok (true, store_run (renewed now run) s)
      else ok (false, s)
]
