-- ===== src/Examples/Stream.antt =====
-- The event stream at concrete inputs.
use proofgraph.Base.{ℕ, ◌≡◌, refl, List, [], ◌∷◌, arith}
use proofgraph.Json.{Fields}
use proofgraph.Tables.{EventType, GenerationEvent}
use proofgraph.Stream.{pending, canvas_event_stream}
use proofgraph.Stream.Sorting.{has_number, Above}
use proofgraph.Stream.Delivery.{repeat, canvas_event_stream_delivers, canvas_event_stream-Above}

abbrev progress : ℕ → ℕ → GenerationEvent
progress canvas n = record {
  canvas_id = canvas;
  run_id = 20;
  canvas_sequence = n;
  run_sequence = n;
  event_type = EventType.stage_progress;
  payload = Fields.end;
}

-- Two canvases, the newest event first.
abbrev log : List GenerationEvent
log = progress 7 3 ∷ progress 8 9 ∷ progress 7 2 ∷ progress 7 1 ∷ []

after_one : pending 7 1 log ≡ progress 7 2 ∷ progress 7 3 ∷ []
unfolding pending
after_one = refl

canvas_event_stream_delivers_example : canvas_event_stream 7 1 (repeat 1 log) ≡ pending 7 1 log
unfolding pending has_number
canvas_event_stream_delivers_example =
    canvas_event_stream_delivers 7 1 1 log
      ((λ e. refl), ((λ e. refl), ((λ e. refl), ((λ e. refl), tt)))) (omega arith)

-- The log grows between the polls.
canvas_event_stream-Above_example :
    Above 1 (canvas_event_stream 7 1 (log ∷ (progress 7 4 ∷ log) ∷ []))
unfolding has_number
canvas_event_stream-Above_example =
    canvas_event_stream-Above 7 1 (log ∷ (progress 7 4 ∷ log) ∷ []) (
      ((λ e. refl), ((λ e. refl), ((λ e. refl), ((λ e. refl), tt)))),
      (((λ e. refl), ((λ e. refl), ((λ e. refl), ((λ e. refl), ((λ e. refl), tt))))), tt),
    )
