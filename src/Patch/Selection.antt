-- ===== src/Patch/Selection.antt =====
-- proofgraph/generation/patch_application.py, _selection. An operation id is the number of its
-- text; of an operation the selection reads its id and its dependencies.
pub mod Rounds
pub mod Order
pub mod Loop
pub mod Checks
pub mod Outcome
pub mod Acyclic
use proofgraph.Base.{
  ℕ, zero, suc, Bool, true, false, not, ◌&&◌, Option, none, some, List, [], ◌∷◌, ◌++◌, map, ◌==◌,
  length, any, keep, if◌then◌else◌, Error, Result, ok, err,
}
use proofgraph.Json.{Fields}
use proofgraph.Graph.Ids.{member, difference}

pub record Operation : Type 0 where
  pub operation_id : ℕ
  pub depends_on : List ℕ
  pub body : Fields

abbrev pub ids : List Operation → List ℕ
ids operations = map (λ (o : Operation). o.operation_id) operations

-- operation_by_id: of operations with one id the last one.
unfoldable pub find_operation : ℕ → List Operation → Option Operation
find_operation id [] = none
find_operation id (o ∷ operations) = elim (find_operation id operations) [
  | some found ↦ some found
  | none ↦ if o.operation_id == id then some o else none
]

-- The ids of the request, or all of them.
unfoldable pub selected_ids : List Operation → Option (List ℕ) → List ℕ
selected_ids operations none = ids operations
selected_ids operations (some requested) = requested

abbrev pub is_empty : {A : Type 0} → List A → Bool
is_empty [] = true
is_empty (x ∷ xs) = false

-- set(operation_by_id[operation_id]["depends_on"]) - selected_ids, as a test.
unfoldable pub lacks_dependency : List Operation → List ℕ → ℕ → Bool
unfolding find_operation any member
lacks_dependency operations selected id = elim (find_operation id operations) [
  | none ↦ false
  | some o ↦ any (λ d. not (member d selected)) o.depends_on
]

-- In `remaining`, with no dependency in it.
unfoldable pub is_ready : List ℕ → Operation → Bool
unfolding any member
is_ready remaining o =
    member o.operation_id remaining && not (any (λ d. member d remaining) o.depends_on)

unfoldable pub ready : List ℕ → List Operation → List Operation
unfolding is_ready keep
ready remaining operations = keep (is_ready remaining) operations

-- while remaining: the loop on fuel; `none` means that the fuel ran out.
unfoldable pub order_operations :
    ℕ → List Operation → List ℕ → List Operation → Option (Result (List Operation))
unfolding ready difference
order_operations fuel operations [] ordered = some (ok ordered)
order_operations zero operations (id ∷ remaining) ordered = none
order_operations (suc fuel) operations (id ∷ remaining) ordered =
    let batch = ready (id ∷ remaining) operations in
    let rest =
      order_operations fuel operations (difference (id ∷ remaining) (ids batch))
        (ordered ++ batch) in
    if is_empty batch then some (err (Error.api 500 "invalid_patch_contract")) else rest

unfoldable pub with_selected :
    List ℕ → Option (Result (List Operation)) → Option (Result (List ℕ × List Operation))
with_selected selected none = none
with_selected selected (some (err e)) = some (err e)
with_selected selected (some (ok ordered)) = some (ok (selected, ordered))

-- _selection, with a round of fuel for each selected id.
unfoldable pub selection :
    List Operation → Option (List ℕ) → Option (Result (List ℕ × List Operation))
unfolding selected_ids lacks_dependency order_operations with_selected
selection operations requested =
    let selected = selected_ids operations requested in
    if not (is_empty (difference selected (ids operations)))
    then some (err (Error.api 422 "unknown_patch_operation"))
    else (if any (lacks_dependency operations selected) selected
        then some (err (Error.api 409 "patch_dependency_incomplete"))
        else with_selected selected (order_operations (length selected) operations selected []))
