-- ===== src/Events/Sequences.antt =====
-- The numbers of events: for each canvas and each run they count up from 1 without a gap.
use mathlib.Core.Option
use native.Mathlib.Numerals.{add-one}
use proofgraph.Base.{
  ℕ, zero, suc, ◌+◌, ◌≡◌, refl, Bool, some, List, [], ◌∷◌, arith, ◌==◌, if◌then◌else◌, Commits,
  Option-cases, inl, inr,
}
use proofgraph.Json.{Fields}
use proofgraph.Tables.{EventType, GenerationRun, GenerationEvent, Store, find_cursor, save_cursor}
use proofgraph.Events.{max_run_sequence, create_event, append_event_locked}

-- n, n - 1, ..., 1
abbrev pub countdown : ℕ → List ℕ
countdown zero = []
countdown (suc n) = suc n ∷ countdown n

-- The canvas numbers of a canvas's events, newest first.
abbrev pub canvas_sequences : ℕ → List GenerationEvent → List ℕ
canvas_sequences canvas [] = []
canvas_sequences canvas (e ∷ events) =
    if e.canvas_id == canvas
    then e.canvas_sequence ∷ canvas_sequences canvas events
    else canvas_sequences canvas events

-- The run numbers of a run's events, newest first.
abbrev pub run_sequences : ℕ → List GenerationEvent → List ℕ
run_sequences run [] = []
run_sequences run (e ∷ events) =
    if e.run_id == run then e.run_sequence ∷ run_sequences run events else run_sequences run events

pub record InSequence (s : Store) : Type 0 where
  pub canvases :
      (canvas last : ℕ)
      → find_cursor canvas s.cursors ≡ some last
      → canvas_sequences canvas s.events ≡ countdown last
  pub runs : (run : ℕ) → run_sequences run s.events ≡ countdown (max_run_sequence run s.events)

-- A write replaces the number of the canvas, if the canvas has a cursor.
pub find_cursor-save_cursor :
    (canvas other last : ℕ) (cursors : List (ℕ × ℕ))
    → find_cursor other (save_cursor canvas last cursors) ≡ (
        if canvas == other
        then Option.map (λ _. last) (find_cursor canvas cursors)
        else find_cursor other cursors)
unfolding find_cursor save_cursor
find_cursor-save_cursor canvas other last [] = ground arith
find_cursor-save_cursor canvas other last ((c, l) ∷ cursors) =
    ground (arith, find_cursor-save_cursor canvas other last cursors)

countdown_add_one : (n : ℕ) → countdown (n + 1) ≡ (n + 1) ∷ countdown n
countdown_add_one n = rw add-one refl

create_event-InSequence :
    (run : GenerationRun) (event_type : EventType) (payload : Fields) (s : Store)
    → InSequence s
    → Commits (λ e t. InSequence t) (create_event run event_type payload s)
unfolding create_event max_run_sequence
create_event-InSequence run event_type payload s v =
    elim (Option-cases (find_cursor run.canvas_id s.cursors)) [
      | inl e ↦ rw (e, create_event) tt
      | inr (last, e) ↦
          rw (e, create_event)
            (record {
              canvases = λ canvas l h. ground (
                arith,
                find_cursor-save_cursor run.canvas_id canvas (last + 1) s.cursors,
                v.canvases canvas l,
                v.canvases run.canvas_id last e,
                countdown_add_one last,
              );
              runs = λ r.
                  ground (arith, v.runs r, countdown_add_one (max_run_sequence run.id s.events));
            })
    ]

-- Appending an event keeps both numberings, on every branch.
pub append_event_locked-InSequence :
    (run : GenerationRun) (event_type : EventType) (payload : Fields) (once : Bool) (s : Store)
    → InSequence s
    → Commits (λ e t. InSequence t) (append_event_locked run event_type payload once s)
unfolding append_event_locked
append_event_locked-InSequence run event_type payload once s v =
    ground (arith, create_event-InSequence run event_type payload s v)
