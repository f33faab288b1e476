-- ===== src/Events.antt =====
-- proofgraph/generation/events.py: events are appended under the lock on their run, and numbered
-- once for their canvas and once for their run.
pub mod Sequences
pub mod Endings
use Prim.Native.Nat.{max}
use proofgraph.Base.{
  ℕ, zero, ◌+◌, Bool, true, false, ◌&&◌, Option, none, some, List, [], ◌∷◌, ok, err, Error, Tx,
  ◌>>=◌, ◌>>◌, lift, pure, gets, ◌==◌, if◌then◌else◌, any,
}
use proofgraph.Json.{Json, Fields, get}
use proofgraph.Retention.{validate_progress_payload}
use proofgraph.Tables.{
  EventType, GenerationRun, GenerationEvent, Store, event_name, find_cursor, save_cursor,
}

-- event_type in TERMINAL_EVENT_TYPES
unfoldable pub is_terminal : EventType → Bool
is_terminal EventType.run_completed = true
is_terminal EventType.run_failed = true
is_terminal EventType.run_cancelled = true
is_terminal _ = false

-- The number under the key "attempt", which `payload__attempt` compares.
unfoldable pub payload_attempt : Fields → Option ℕ
unfolding get
payload_attempt payload = elim (get "attempt" payload) [ some (Json.num n) ↦ some n | _ ↦ none ]

-- A terminal event of the run whose payload has the attempt.
unfoldable pub ends_attempt : ℕ → ℕ → GenerationEvent → Bool
unfolding payload_attempt is_terminal
ends_attempt run_id attempt event =
    event.run_id == run_id
    && is_terminal event.event_type
    && elim (payload_attempt event.payload) [ some n ↦ n == attempt | none ↦ false ]

-- payload.get("attempt", run.attempt)
unfoldable pub attempt_of : GenerationRun → Fields → ℕ
unfolding payload_attempt
attempt_of run payload = elim (payload_attempt payload) [ some n ↦ n | none ↦ run.attempt ]

-- Max("run_sequence") over the run's events, or 0.
unfoldable pub max_run_sequence : ℕ → List GenerationEvent → ℕ
max_run_sequence run_id [] = 0
max_run_sequence run_id (event ∷ events) =
    let rest = max_run_sequence run_id events in
    if event.run_id == run_id then max event.run_sequence rest else rest

-- The part of `append_event_locked` that writes: the cursor of the canvas and the event.
unfoldable pub create_event : GenerationRun → EventType → Fields → Tx Store (Option GenerationEvent)
create_event run event_type payload s = elim (find_cursor run.canvas_id s.cursors) [
  | none ↦ err Error.does_not_exist
  | some last ↦
      let event : GenerationEvent = record {
        canvas_id = run.canvas_id;
        run_id = run.id;
        canvas_sequence = last + 1;
        run_sequence = max_run_sequence run.id s.events + 1;
        event_type = event_type;
        payload = payload;
      } in
      ok (
        some event,
        record s {
          cursors = save_cursor run.canvas_id (last + 1) s.cursors;
          events = event ∷ s.events;
        },
      )
]

-- Any event of the run already ended this attempt.
unfoldable pub already_ended : GenerationRun → Fields → Store → Bool
unfolding any ends_attempt attempt_of
already_ended run payload s = any (ends_attempt run.id (attempt_of run payload)) s.events

unfoldable pub append_event_locked :
    GenerationRun → EventType → Fields → Bool → Tx Store (Option GenerationEvent)
unfolding already_ended
append_event_locked run event_type payload terminal_once = do
  lift (validate_progress_payload (event_name event_type) payload)
  ended ← gets (already_ended run payload)
  if terminal_once && ended then pure none else create_event run event_type payload
