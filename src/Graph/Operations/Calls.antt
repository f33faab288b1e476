-- ===== src/Graph/Operations/Calls.antt =====
-- Calls of apply_graph_operation one after the other, and what a call that commits writes.
use proofgraph.Base.{
  ℕ, ◌+◌, ◌≡◌, refl, String, true, Option, none, some, List, [], ◌∷◌, ◌==◌, str_eq, Result, ok,
  Option-cases, Bool-cases, inl, inr, committed, arith, if◌then◌else◌,
}
use proofgraph.Base.Checks.{Holds, >>=-Holds}
use proofgraph.Json.{Fields}
use proofgraph.Graph.Tables.{Canvas, GraphOperation}
use proofgraph.Graph.Operations.Rows.{Platform, Supply}
use proofgraph.Graph.Operations.Apply.{
  GraphTables, Request, canonical_request, find_canvas, save_canvas, find_operation, operation_row,
  perform_operation, replay, apply_request, apply_graph_operation,
}

pub record Call : Type 0 where
  pub supply : Supply
  pub canvas_id : ℕ
  pub payload : Fields
  pub actor_type : String
  pub actor_id : Option String

abbrev pub call : Platform → Call → GraphTables → Result (Fields × GraphTables)
call p c s = apply_graph_operation p c.supply c.canvas_id c.payload c.actor_type c.actor_id s

-- The tables after some calls; a call that raises leaves them as they are.
unfoldable pub serve : Platform → List Call → GraphTables → GraphTables
serve p [] s = s
serve p (c ∷ calls) s = serve p calls (committed s (call p c s))

-- What a call that performs its operation writes beside the graph.
abbrev pub Performed :
    Supply → Canvas → String → Option String → Request → GraphTables → Fields × GraphTables → Type 0
Performed supply canvas actor_type actor_id r s out =
    (out.1.operations ≡ operation_row supply canvas actor_type actor_id r out.0 ∷ s.operations)
    × (out.1.canvases ≡ save_canvas canvas.id (canvas.revision + 1) supply.now s.canvases)

pub perform_operation-Performed :
    (p : Platform) (supply : Supply) (canvas : Canvas) (actor_type : String)
    (actor_id : Option String) (r : Request) (s : GraphTables)
    → Holds
        (Performed supply canvas actor_type actor_id r s)
        (perform_operation p supply canvas actor_type actor_id r s)
unfolding perform_operation
perform_operation-Performed p supply canvas actor_type actor_id r s =
    >>=-Holds _ _ (Performed supply canvas actor_type actor_id r s) λ capture e.
      >>=-Holds _ _ (Performed supply canvas actor_type actor_id r s) λ answer h.
        >>=-Holds _ _ (Performed supply canvas actor_type actor_id r s)
          λ invalidated k. (refl, refl)

-- A property of what a call leaves, if it holds of a replay and of an operation performed.
pub call-Holds :
    (p : Platform) (c : Call) (s : GraphTables) (P : Fields × GraphTables → Type 0)
    → ((r : Request) (canvas : Canvas) (old : GraphOperation)
        → canonical_request p c.payload ≡ ok r
        → find_canvas c.canvas_id s.canvases ≡ some canvas
        → find_operation canvas.id c.actor_type r.operation_key s.operations ≡ some old
        → str_eq old.request_fingerprint r.fingerprint ≡ true
        → P (old.result_payload, s))
    → ((r : Request) (canvas : Canvas)
        → canonical_request p c.payload ≡ ok r
        → find_canvas c.canvas_id s.canvases ≡ some canvas
        → find_operation canvas.id c.actor_type r.operation_key s.operations ≡ none
        → Holds P (perform_operation p c.supply canvas c.actor_type c.actor_id r s))
    → Holds P (call p c s)
unfolding apply_graph_operation apply_request replay
call-Holds p c s P replayed performed = >>=-Holds (canonical_request p c.payload) _ P λ r e.
    elim (Option-cases (find_canvas c.canvas_id s.canvases)) [
      | inl h ↦ rw (apply_request, h) tt
      | inr (canvas, h) ↦
          elim (Option-cases (find_operation canvas.id c.actor_type r.operation_key s.operations)) [
            | inl k ↦ rw (apply_request, h, k) (performed r canvas e h k)
            | inr (old, k) ↦ elim (Bool-cases (str_eq old.request_fingerprint r.fingerprint)) [
              | inl l ↦ rw (apply_request, h, k, replay, l) (replayed r canvas old e h k l)
              | inr l ↦ rw (apply_request, h, k, replay, l) tt
            ]
          ]
    ]

-- The row that is found has the id.
pub find_canvas_id :
    (id : ℕ) (canvases : List Canvas) (canvas : Canvas)
    → find_canvas id canvases ≡ some canvas
    → canvas.id ≡ id
unfolding find_canvas
find_canvas_id id [] canvas h = ground arith
find_canvas_id id (c ∷ canvases) canvas h = ground (arith, find_canvas_id id canvases canvas)

-- The row of a canvas after a write.
abbrev pub saved : ℕ → ℕ → ℕ → Canvas → Canvas
saved other revision now c =
    if c.id == other then record c { revision = revision; updated_at = now } else c

pub find_canvas-save_canvas :
    (id other revision now : ℕ) (canvases : List Canvas) (canvas : Canvas)
    → find_canvas id canvases ≡ some canvas
    → find_canvas id (save_canvas other revision now canvases)
      ≡ some (saved other revision now canvas)
unfolding find_canvas save_canvas
find_canvas-save_canvas id other revision now [] canvas h = ground arith
find_canvas-save_canvas id other revision now (c ∷ canvases) canvas h =
    elim (Bool-cases (c.id == id)) [
      | inl e ↦ elim (Bool-cases (c.id == other)) [ inl k ↦ ground arith | inr k ↦ ground arith ]
      | inr e ↦ ground (arith, find_canvas-save_canvas id other revision now canvases canvas)
    ]
