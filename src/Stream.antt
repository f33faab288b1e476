-- ===== src/Stream.antt =====
-- proofgraph/generation/sse.py: the stream of a canvas's events to a subscriber, as the events that
-- it yields. Each poll reads the table as it is then; keep-alive bytes and waiting are left out.
pub mod Sorting
pub mod Delivery
use proofgraph.Base.{
  ℕ, zero, suc, Bool, ◌&&◌, List, [], ◌∷◌, ◌++◌, ◌==◌, leb, ltb, keep, if◌then◌else◌,
}
use proofgraph.Tables.{GenerationEvent}

abbrev pub take {ℓ} : {A : Type ℓ} → ℕ → List A → List A
take zero xs = []
take (suc n) [] = []
take (suc n) (x ∷ xs) = x ∷ take n xs

-- Into a list in the order of the numbers on the canvas.
unfoldable pub put_event : GenerationEvent → List GenerationEvent → List GenerationEvent
put_event e [] = e ∷ []
put_event e (f ∷ events) =
    let rest = put_event e events in
    if leb e.canvas_sequence f.canvas_sequence then e ∷ f ∷ events else f ∷ rest

unfoldable pub order_by_sequence : List GenerationEvent → List GenerationEvent
unfolding put_event
order_by_sequence [] = []
order_by_sequence (e ∷ events) = put_event e (order_by_sequence events)

-- filter(canvas_id=..., canvas_sequence__gt=after)
unfoldable pub is_after : ℕ → ℕ → GenerationEvent → Bool
is_after canvas after e = e.canvas_id == canvas && ltb after e.canvas_sequence

-- The events of a canvas after a number, in their order.
unfoldable pub pending : ℕ → ℕ → List GenerationEvent → List GenerationEvent
unfolding order_by_sequence keep is_after
pending canvas after events = order_by_sequence (keep (is_after canvas after) events)

abbrev pub batch_size : ℕ
batch_size = 100

-- _fetch_event_batch
unfoldable pub fetch_event_batch : ℕ → ℕ → List GenerationEvent → List GenerationEvent
unfolding pending
fetch_event_batch canvas after events = take batch_size (pending canvas after events)

-- The cursor after the events of a batch.
unfoldable pub cursor_after : ℕ → List GenerationEvent → ℕ
cursor_after cursor [] = cursor
cursor_after cursor (e ∷ events) = cursor_after e.canvas_sequence events

-- canvas_event_stream, over what the polls find.
unfoldable pub canvas_event_stream : ℕ → ℕ → List (List GenerationEvent) → List GenerationEvent
unfolding fetch_event_batch cursor_after
canvas_event_stream canvas cursor [] = []
canvas_event_stream canvas cursor (events ∷ polls) =
    fetch_event_batch canvas cursor events
    ++ canvas_event_stream canvas (cursor_after cursor (fetch_event_batch canvas cursor events))
        polls
