-- ===== src/Examples/Patch.antt =====
-- Applying a patch at concrete inputs.
use proofgraph.Base.{ℕ, ◌≡◌, ◌↔◌, refl, none, some, List, [], ◌∷◌, arith, Result, ok, err, Error}
use proofgraph.Json.{Fields}
use proofgraph.Graph.Ids.{member}
use proofgraph.Patch.Selection.{Operation, selected_ids, selection, ids}
use proofgraph.Patch.Selection.Order.{Within, Closed}
use proofgraph.Patch.Selection.Outcome.{selection_total, Arranged, selection-InOrder}
use proofgraph.Patch.Selection.Acyclic.{selection_succeeds}

abbrev operation : ℕ → List ℕ → Operation
operation id depends_on = record { operation_id = id; depends_on = depends_on; body = Fields.end }

-- 3 needs 1 and 2, and 2 needs 1.
abbrev steps : List Operation
steps = operation 3 (1 ∷ 2 ∷ []) ∷ operation 2 (1 ∷ []) ∷ operation 1 [] ∷ []

abbrev steps_ordered : List Operation
steps_ordered = operation 1 [] ∷ operation 2 (1 ∷ []) ∷ operation 3 (1 ∷ 2 ∷ []) ∷ []

steps_selected : selection steps none ≡ some (ok (3 ∷ 2 ∷ 1 ∷ [], steps_ordered))
unfolding selection
steps_selected = refl

steps_incomplete :
    selection steps (some (3 ∷ 1 ∷ [])) ≡ some (err (Error.api 409 "patch_dependency_incomplete"))
unfolding selection
steps_incomplete = refl

steps_unknown :
    selection steps (some (9 ∷ [])) ≡ some (err (Error.api 422 "unknown_patch_operation"))
unfolding selection
steps_unknown = refl

selection-InOrder_example :
    (3 ∷ 2 ∷ 1 ∷ [] ≡ selected_ids steps none) × Arranged steps (3 ∷ 2 ∷ 1 ∷ []) steps_ordered
unfolding member
selection-InOrder_example =
    selection-InOrder steps none (3 ∷ 2 ∷ 1 ∷ []) steps_ordered (refl, (refl, (refl, tt)))
      steps_selected

selection_succeeds_example :
    ((ordered : List Operation) × (selection steps none
        ≡ some (ok (selected_ids steps none, ordered))))
    ↔ (Within (selected_ids steps none) (ids steps) × Closed (selected_ids steps none) steps)
unfolding member
selection_succeeds_example =
    selection_succeeds (λ n. n) steps none (refl, (refl, (refl, tt)))
      ((omega arith, (omega arith, tt)), ((omega arith, tt), (tt, tt)))

selection_total_example :
    (r : Result (List ℕ × List Operation)) × (selection steps (some (3 ∷ [])) ≡ some r)
selection_total_example = selection_total steps (some (3 ∷ []))
