-- ===== src/Graph/Operations/Revisions.antt =====
-- The revision of a canvas counts its operations.
use proofgraph.Base.{
  ℕ, zero, suc, ◌+◌, ◌≡◌, refl, subst, true, false, some, List, [], ◌∷◌, ◌==◌, map, Bool-cases, inl,
  inr, committed, arith, keep, All, ==_iff,
}
use native.Mathlib.Numerals.{unary_clauses}
use proofgraph.Base.Checks.{Holds, Holds-map, committed-Holds}
use proofgraph.Json.{Fields}
use proofgraph.Graph.Tables.{Canvas, GraphOperation}
use proofgraph.Graph.Operations.Rows.{Platform}
use proofgraph.Graph.Operations.Apply.{GraphTables, find_canvas, save_canvas, operation_row}
use proofgraph.Graph.Operations.Calls.{
  Call, call, serve, call-Holds, perform_operation-Performed, Performed,
}

-- n, n - 1, ..., 1
unfoldable pub countdown : ℕ → List ℕ
countdown zero = []
countdown (suc n) = suc n ∷ countdown n

countdown_next : (n : ℕ) → countdown (n + 1) ≡ (n + 1) ∷ countdown n
unfolding countdown
countdown_next n = simp unary_clauses refl

-- The revisions of the operations of a canvas, the newest first.
unfoldable pub revisions : ℕ → List GraphOperation → List ℕ
unfolding keep
revisions id operations =
    map (λ (o : GraphOperation). o.canvas_revision)
      (keep (λ (o : GraphOperation). o.canvas_id == id) operations)

-- On every canvas the operations have the revisions 1 to that of the canvas, one each, in the
-- order of their rows.
abbrev pub Numbered : GraphTables → Type 0
Numbered t = All (λ (c : Canvas). revisions c.id t.operations ≡ countdown c.revision) t.canvases

-- What holds of the canvases of a table holds of the one that is found.
All-find_canvas :
    (P : Canvas → Type 0) (id : ℕ) (canvases : List Canvas) (canvas : Canvas)
    → All P canvases
    → find_canvas id canvases ≡ some canvas
    → P canvas
unfolding find_canvas
All-find_canvas P id [] canvas h e = ground arith
All-find_canvas P id (c ∷ canvases) canvas h e = elim (Bool-cases (c.id == id)) [
  | inl k ↦ let same : c ≡ canvas = ground arith in subst P same h.0
  | inr k ↦ All-find_canvas P id canvases canvas h.1 (ground arith)
]

revisions_own :
    (id : ℕ) (o : GraphOperation) (operations : List GraphOperation)
    → (o.canvas_id == id) ≡ true
    → revisions id (o ∷ operations) ≡ o.canvas_revision ∷ revisions id operations
unfolding revisions keep
revisions_own id o operations e = rw e refl

revisions_other :
    (id : ℕ) (o : GraphOperation) (operations : List GraphOperation)
    → (o.canvas_id == id) ≡ false
    → revisions id (o ∷ operations) ≡ revisions id operations
unfolding revisions keep
revisions_other id o operations e = rw e refl

save_canvas-Numbered :
    (o : GraphOperation) (now : ℕ) (operations : List GraphOperation) (canvas : Canvas)
    → o.canvas_id ≡ canvas.id
    → o.canvas_revision ≡ canvas.revision + 1
    → revisions canvas.id operations ≡ countdown canvas.revision
    → (canvases : List Canvas)
    → All (λ (c : Canvas). revisions c.id operations ≡ countdown c.revision) canvases
    → All
        (λ (c : Canvas). revisions c.id (o ∷ operations) ≡ countdown c.revision)
        (save_canvas canvas.id (canvas.revision + 1) now canvases)
unfolding save_canvas
save_canvas-Numbered o now operations canvas same next before [] h = tt
save_canvas-Numbered o now operations canvas same next before (c ∷ canvases) h = (
  elim (Bool-cases (c.id == canvas.id)) [
    | inl e ↦
        let here = (==_iff c.id canvas.id).0 e in
        rw
          (
            e,
            revisions_own c.id o operations (ground arith),
            next,
            here,
            before,
            countdown_next canvas.revision,
          )
          refl
    | inr e ↦ rw (e, revisions_other c.id o operations (ground arith)) h.0
  ],
  save_canvas-Numbered o now operations canvas same next before canvases h.1,
)

call-Numbered :
    (p : Platform) (c : Call) (s : GraphTables)
    → Numbered s
    → Holds (λ (out : Fields × GraphTables). Numbered out.1) (call p c s)
unfolding operation_row
call-Numbered p c s h =
    call-Holds p c s _ (λ r d old e1 e2 e3 e4. h)
      λ r d e1 e2 e3.
        Holds-map (Performed c.supply d c.actor_type c.actor_id r s)
          (λ (out : Fields × GraphTables). Numbered out.1) _
          (λ out k (operations, canvases).
            rw (operations, canvases)
              (save_canvas-Numbered _ c.supply.now s.operations d refl refl
                (All-find_canvas
                  (λ (c : Canvas). revisions c.id s.operations ≡ countdown c.revision) c.canvas_id
                  s.canvases d h e2)
                s.canvases h))
          (perform_operation-Performed p c.supply d c.actor_type c.actor_id r s)

-- If on every canvas the operations have the revisions 1 to the canvas's, one each and in order,
-- then this still holds after any sequence of calls, successful or not.
pub serve-Numbered :
    (p : Platform) (calls : List Call) (s : GraphTables) → Numbered s → Numbered (serve p calls s)
unfolding serve
serve-Numbered p [] s h = h
serve-Numbered p (c ∷ calls) s h =
    serve-Numbered p calls (committed s (call p c s))
      (committed-Holds Numbered s (call p c s) h (call-Numbered p c s h))
