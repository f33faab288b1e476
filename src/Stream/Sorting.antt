-- ===== src/Stream/Sorting.antt =====
-- The pending events of a canvas are in strict order, and moving the cursor drops the first ones.
use proofgraph.Base.{
  ℕ, ◌≤◌, ◌<◌, ◌≡◌, ◌∙◌, refl, ap, Bool, true, false, ◌&&◌, ◌||◌, List, [], ◌∷◌, ◌==◌, leb, ltb,
  any, keep, if◌then◌else◌, arith, Bool-cases, inl, inr,
}
use proofgraph.Tables.{GenerationEvent}
use proofgraph.Stream.{put_event, order_by_sequence, is_after, pending}

-- No two events of a canvas have one number.
unfoldable pub has_number : ℕ → ℕ → List GenerationEvent → Bool
unfolding any
has_number canvas n events =
    any (λ (e : GenerationEvent). e.canvas_id == canvas && e.canvas_sequence == n) events

abbrev pub Numbered : ℕ → List GenerationEvent → Type 0
Numbered canvas [] = Unit
Numbered canvas (e ∷ events) =
    (e.canvas_id ≡ canvas → has_number canvas e.canvas_sequence events ≡ false)
    × Numbered canvas events

-- In strict order, from above a number.
abbrev pub Above : ℕ → List GenerationEvent → Type 0
Above c [] = Unit
Above c (e ∷ events) = (c < e.canvas_sequence) × Above e.canvas_sequence events

-- An event's number, wherever it stands.
unfoldable has_sequence : ℕ → List GenerationEvent → Bool
unfolding any
has_sequence n events = any (λ (e : GenerationEvent). e.canvas_sequence == n) events

has_sequence-put_event :
    (n : ℕ) (e : GenerationEvent) (events : List GenerationEvent)
    → has_sequence n (put_event e events) ≡ (e.canvas_sequence == n || has_sequence n events)
unfolding has_sequence any put_event
has_sequence-put_event n e [] = refl
has_sequence-put_event n e (f ∷ events) = ground (arith, has_sequence-put_event n e events)

has_sequence-order_by_sequence :
    (n : ℕ) (events : List GenerationEvent)
    → has_sequence n (order_by_sequence events) ≡ has_sequence n events
unfolding has_sequence any order_by_sequence
has_sequence-order_by_sequence n [] = refl
has_sequence-order_by_sequence n (e ∷ events) =
    has_sequence-put_event n e (order_by_sequence events)
    ∙ ap (λ b. e.canvas_sequence == n || b) (has_sequence-order_by_sequence n events)

put_event-Above :
    (c : ℕ) (e : GenerationEvent) (events : List GenerationEvent)
    → c < e.canvas_sequence
    → has_sequence e.canvas_sequence events ≡ false
    → Above c events
    → Above c (put_event e events)
unfolding put_event has_sequence any
put_event-Above c e [] l n h = (l, tt)
put_event-Above c e (f ∷ events) l n h =
    elim (Bool-cases (leb e.canvas_sequence f.canvas_sequence)) [
      | inl k ↦ rw k (l, (ground arith, h.1))
      | inr k ↦
          rw k (h.0, put_event-Above f.canvas_sequence e events (ground arith) (ground arith) h.1)
    ]

absent-keep :
    (canvas after n : ℕ) (events : List GenerationEvent)
    → has_number canvas n events ≡ false
    → has_sequence n (keep (is_after canvas after) events) ≡ false
unfolding has_number has_sequence any keep is_after
absent-keep canvas after n [] h = refl
absent-keep canvas after n (e ∷ events) h = ground (arith, absent-keep canvas after n events)

is_after_parts :
    (canvas after : ℕ) (e : GenerationEvent)
    → is_after canvas after e ≡ true
    → (e.canvas_id ≡ canvas) × (after < e.canvas_sequence)
unfolding is_after
is_after_parts canvas after e h = (ground arith, ground arith)

-- The pending events are in strict order.
pub pending-Above :
    (canvas after : ℕ) (events : List GenerationEvent)
    → Numbered canvas events
    → Above after (pending canvas after events)
unfolding pending keep order_by_sequence
pending-Above canvas after [] h = tt
pending-Above canvas after (e ∷ events) h = elim (Bool-cases (is_after canvas after e)) [
  | inl k ↦ rw k (
      put_event-Above after e (pending canvas after events) (is_after_parts canvas after e k).1
        (has_sequence-order_by_sequence e.canvas_sequence (keep (is_after canvas after) events)
          ∙ absent-keep canvas after e.canvas_sequence events
              (h.0 (is_after_parts canvas after e k).0))
        (pending-Above canvas after events h.1))
  | inr k ↦ rw k (pending-Above canvas after events h.1)
]

put_event-keep :
    (canvas c : ℕ) (e : GenerationEvent) (events : List GenerationEvent)
    → keep (λ (f : GenerationEvent). ltb c f.canvas_sequence) (put_event e events) ≡ (
        if ltb c e.canvas_sequence
        then put_event e (keep (λ (f : GenerationEvent). ltb c f.canvas_sequence) events)
        else keep (λ (f : GenerationEvent). ltb c f.canvas_sequence) events)
unfolding put_event keep
put_event-keep canvas c e [] = refl
put_event-keep canvas c e (f ∷ events) = ground (arith, put_event-keep canvas c e events)

-- A later cursor leaves the pending events after it.
pub pending-keep :
    (canvas after c : ℕ) (events : List GenerationEvent)
    → after ≤ c
    → pending canvas c events
      ≡ keep (λ (f : GenerationEvent). ltb c f.canvas_sequence) (pending canvas after events)
unfolding pending keep order_by_sequence is_after
pending-keep canvas after c [] h = refl
pending-keep canvas after c (e ∷ events) h = ground (
  arith,
  pending-keep canvas after c events h,
  put_event-keep canvas c e (pending canvas after events),
)
