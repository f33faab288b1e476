-- ===== src/Stream/Delivery.antt =====
-- What a subscriber of the event stream gets.
use proofgraph.Base.{
  ℕ, zero, suc, ◌+◌, ◌*◌, ◌≤◌, ◌≡◌, ◌∙◌, refl, sym, ap, subst, List, [], ◌∷◌, ◌++◌, ltb, keep,
  length, arith, All,
}
use proofgraph.Tables.{GenerationEvent}
use proofgraph.Stream.{
  take, pending, batch_size, fetch_event_batch, cursor_after, canvas_event_stream,
}
use proofgraph.Stream.Sorting.{Numbered, Above, pending-Above, pending-keep}

drop : ℕ → List GenerationEvent → List GenerationEvent
drop zero events = events
drop (suc n) [] = []
drop (suc n) (e ∷ events) = drop n events

take-drop : (n : ℕ) (events : List GenerationEvent) → take n events ++ drop n events ≡ events
unfolding drop
take-drop zero events = refl
take-drop (suc n) [] = refl
take-drop (suc n) (e ∷ events) = ap (λ rest. e ∷ rest) (take-drop n events)

length-drop :
    (n m : ℕ) (events : List GenerationEvent) → length events ≤ n + m → length (drop n events) ≤ m
unfolding drop
length-drop zero m events h = omega (arith, h)
length-drop (suc n) m [] h = omega arith
length-drop (suc n) m (e ∷ events) h = length-drop n m events (omega (arith, h))

Above-later : (c d : ℕ) (events : List GenerationEvent) → d ≤ c → Above c events → Above d events
Above-later c d [] h k = tt
Above-later c d (e ∷ events) h k = (omega (arith, h, k.0), k.1)

-- Nothing of what is above a number is dropped by it.
keep-Above :
    (c : ℕ) (events : List GenerationEvent)
    → Above c events
    → keep (λ (f : GenerationEvent). ltb c f.canvas_sequence) events ≡ events
unfolding keep
keep-Above c [] h = refl
keep-Above c (e ∷ events) h = ground (
  arith,
  h.0,
  keep-Above c events (Above-later e.canvas_sequence c events (omega (arith, h.0)) h.1),
)

cursor_grows :
    (c n : ℕ) (events : List GenerationEvent) → Above c events → c ≤ cursor_after c (take n events)
unfolding cursor_after
cursor_grows c zero events h = omega arith
cursor_grows c (suc n) [] h = omega arith
cursor_grows c (suc n) (e ∷ events) h =
    omega (arith, h.0, cursor_grows e.canvas_sequence n events h.1)

-- What is above the cursor after the first ones are the others.
keep-drop :
    (c n : ℕ) (events : List GenerationEvent)
    → Above c events
    → keep (λ (f : GenerationEvent). ltb (cursor_after c (take n events)) f.canvas_sequence) events
      ≡ drop n events
unfolding keep cursor_after drop
keep-drop c zero events h = keep-Above c events h
keep-drop c (suc n) [] h = refl
keep-drop c (suc n) (e ∷ events) h =
    ground
      (arith, keep-drop e.canvas_sequence n events h.1, cursor_grows e.canvas_sequence n events h.1)

append-Above :
    (c n : ℕ) (events later : List GenerationEvent)
    → Above c events
    → Above (cursor_after c (take n events)) later
    → Above c (take n events ++ later)
unfolding cursor_after
append-Above c zero events later h k = k
append-Above c (suc n) [] later h k = k
append-Above c (suc n) (e ∷ events) later h k =
    (h.0, append-Above e.canvas_sequence n events later h.1 k)

nothing_left : (events : List GenerationEvent) → length events ≤ 0 → [] ≡ events
nothing_left [] h = refl
nothing_left (e ∷ events) h = let absurd : ⊥ = omega (arith, h) in elim absurd [ ]

-- n polls of one table.
unfoldable pub repeat : ℕ → List GenerationEvent → List (List GenerationEvent)
repeat zero events = []
repeat (suc n) events = events ∷ repeat n events

-- The events of a canvas have different numbers. If the table does not change, enough polls of it
-- deliver exactly the events of the canvas after the subscriber's cursor, each once and in the
-- order of their numbers; a poll is enough for a hundred of them.
pub canvas_event_stream_delivers :
    (canvas after n : ℕ) (events : List GenerationEvent)
    → Numbered canvas events
    → length (pending canvas after events) ≤ n * batch_size
    → canvas_event_stream canvas after (repeat n events) ≡ pending canvas after events
unfolding canvas_event_stream repeat fetch_event_batch
canvas_event_stream_delivers canvas after zero events h enough =
    nothing_left (pending canvas after events) (omega (arith, enough))
canvas_event_stream_delivers canvas after (suc n) events h enough =
    let waiting = pending canvas after events in
    let above = pending-Above canvas after events h in
    let cursor = cursor_after after (take batch_size waiting) in
    let rest : pending canvas cursor events ≡ drop batch_size waiting =
      pending-keep canvas after cursor events (cursor_grows after batch_size waiting above)
      ∙ keep-drop after batch_size waiting above in
    ap (λ later. take batch_size waiting ++ later)
      (canvas_event_stream_delivers canvas cursor n events h (
          subst (λ left. length left ≤ n * batch_size) (sym rest)
            (length-drop batch_size (n * batch_size) waiting (omega (arith, enough))))
        ∙ rest)
    ∙ take-drop batch_size waiting

-- In every table the events of the canvas have different numbers. Whatever the polls find, a
-- subscriber gets events with increasing numbers, all after its cursor, so that none comes twice.
pub canvas_event_stream-Above :
    (canvas after : ℕ) (polls : List (List GenerationEvent))
    → All (Numbered canvas) polls
    → Above after (canvas_event_stream canvas after polls)
unfolding canvas_event_stream fetch_event_batch
canvas_event_stream-Above canvas after [] h = tt
canvas_event_stream-Above canvas after (events ∷ polls) h =
    append-Above after batch_size (pending canvas after events) _
      (pending-Above canvas after events h.0)
      (canvas_event_stream-Above canvas
        (cursor_after after (take batch_size (pending canvas after events))) polls h.1)
