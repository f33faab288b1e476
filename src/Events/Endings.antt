-- ===== src/Events/Endings.antt =====
-- At most one event ends an attempt of a run.
use proofgraph.Base.{
  ℕ, ◌≡◌, inl, inr, Bool, true, false, some, List, [], ◌∷◌, arith, Commits, any, Option-cases,
  Bool-cases,
}
use proofgraph.Json.{Fields}
use proofgraph.Tables.{EventType, GenerationRun, GenerationEvent, Store, find_cursor}
use proofgraph.Events.{
  is_terminal, payload_attempt, ends_attempt, attempt_of, already_ended, create_event,
  append_event_locked,
}

-- No older event of the run ended the attempt that a terminal event ends.
abbrev pub EndsOnce : List GenerationEvent → Type 0
EndsOnce [] = Unit
EndsOnce (e ∷ events) =
    ((attempt : ℕ)
      → is_terminal e.event_type ≡ true
      → payload_attempt e.payload ≡ some attempt
      → any (ends_attempt e.run_id attempt) events ≡ false)
    × EndsOnce events

create_event-EndsOnce :
    (run : GenerationRun) (event_type : EventType) (payload : Fields) (s : Store)
    → (is_terminal event_type ≡ true → already_ended run payload s ≡ false)
    → EndsOnce s.events
    → Commits (λ e t. EndsOnce t.events) (create_event run event_type payload s)
unfolding create_event already_ended attempt_of
create_event-EndsOnce run event_type payload s fresh v =
    elim (Option-cases (find_cursor run.canvas_id s.cursors)) [
      | inl e ↦ rw (e, create_event) tt
      | inr (last, e) ↦ rw (e, create_event) ((λ attempt t p. rw (p, attempt_of) at (fresh t), v))
    ]

-- An event type that ends a run must be appended with the check for an earlier end.
pub append_event_locked-EndsOnce :
    (run : GenerationRun) (event_type : EventType) (payload : Fields) (once : Bool) (s : Store)
    → (is_terminal event_type ≡ true → once ≡ true)
    → EndsOnce s.events
    → Commits (λ e t. EndsOnce t.events) (append_event_locked run event_type payload once s)
unfolding append_event_locked
append_event_locked-EndsOnce run event_type payload once s checked v =
    elim (Bool-cases (already_ended run payload s)) [
      | inl seen ↦ ground (arith, create_event-EndsOnce run event_type payload s)
      | inr fresh ↦ ground (arith, create_event-EndsOnce run event_type payload s (λ _. fresh) v)
    ]
