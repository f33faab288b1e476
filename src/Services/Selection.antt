-- ===== src/Services/Selection.antt =====
-- proofgraph/generation/context.py: which nodes a run may be asked to work on; and
-- proofgraph/generation/schemas.py: the request. `review_status` is written by the server only,
-- as a text; anything else counts as another status.
use proofgraph.Base.{
  ℕ, ◌+◌, String, Bool, true, false, not, ◌&&◌, ◌||◌, Option, none, some, List, [], ◌∷◌, ◌==◌,
  str_eq, length, any, keep, if◌then◌else◌, Error, Result, ok, err,
}
use proofgraph.Base.Checks.{◌>>=◌, ◌>>◌, refuse}
use proofgraph.Json.{Json, Items, Fields, get, codes}
use proofgraph.Tables.{RunOperation}
use proofgraph.Graph.Tables.{NodeKind, Node}
use proofgraph.Graph.Queries.{is_claim}
use proofgraph.Graph.Operations.Rows.{is_constraint}
use proofgraph.Graph.Operations.Support.{has_review_status}

pub record GenerationRunRequest : Type 0 where
  pub operation : RunOperation
  pub selected_node_ids : List ℕ
  pub expected_node_versions : List (ℕ × ℕ)
  pub instruction : Option String
  pub execution_profile_id : String
  pub idempotency_key : String
  pub regeneration_scope : Option String

-- The digits of a number that is no natural, up to its exponent, are all 0.
unfoldable pub is_zero : List ℕ → Bool
is_zero [] = true
is_zero (c ∷ digits) =
    let rest = is_zero digits in
    if c == 101 || c == 69 then true else ((c == 45 || c == 46 || c == 48) && rest)

-- The truth of a value.
unfoldable pub is_true : Option Json → Bool
unfolding is_zero
is_true none = false
is_true (some Json.null) = false
is_true (some (Json.bool b)) = b
is_true (some (Json.num n)) = not (n == 0)
is_true (some (Json.decimal s)) = not (is_zero (codes s))
is_true (some (Json.text s)) = not (str_eq s "")
is_true (some (Json.arr Items.nil)) = false
is_true (some (Json.arr _)) = true
is_true (some (Json.obj Fields.end)) = false
is_true (some (Json.obj _)) = true

abbrev pub generated_keys : List String
generated_keys = "generated" ∷ "generated_by_run_id" ∷ "generation_run_id" ∷ "source_patch_id" ∷ []

-- any(metadata.get(key) for key in ...)
unfoldable pub is_generated : Fields → Bool
unfolding any is_true get
is_generated metadata = any (λ key. is_true (get key metadata)) generated_keys

-- metadata.get("provisional") is True
unfoldable pub is_provisional_node : Fields → Bool
unfolding get
is_provisional_node metadata = elim (get "provisional" metadata) [
  | some (Json.bool b) ↦ b
  | _ ↦ false
]

-- _is_applied
unfoldable pub is_applied : Node → Bool
unfolding is_provisional_node has_review_status is_generated
is_applied n =
    not (
      is_provisional_node n.metadata
      || has_review_status "provisional" n.metadata
      || has_review_status "rejected" n.metadata)
    && (not (is_generated n.metadata) || has_review_status "accepted" n.metadata)

-- _is_manually_authored
unfoldable pub is_manually_authored : Node → Bool
unfolding is_generated
is_manually_authored n = not (is_generated n.metadata)

-- GENERATED_KINDS
unfoldable pub is_generated_kind : NodeKind → Bool
is_generated_kind NodeKind.strategy = true
is_generated_kind NodeKind.claim = true
is_generated_kind NodeKind.opportunity = true
is_generated_kind NodeKind.assumption = true
is_generated_kind NodeKind.risk = true
is_generated_kind NodeKind.validation_experiment = true
is_generated_kind _ = false

unfoldable pub is_goal : NodeKind → Bool
is_goal NodeKind.goal = true
is_goal _ = false

unfoldable pub is_strategy : NodeKind → Bool
is_strategy NodeKind.strategy = true
is_strategy _ = false

unfoldable pub of_kind : (NodeKind → Bool) → List Node → ℕ
unfolding keep
of_kind test nodes = length (keep (λ (n : Node). test n.kind) nodes)

-- One node of a kind, at least one of another, and no other.
unfoldable pub one_with_some : (NodeKind → Bool) → (NodeKind → Bool) → List Node → Bool
unfolding of_kind
one_with_some first second nodes =
    of_kind first nodes == 1
    && not (of_kind second nodes == 0)
    && of_kind first nodes + of_kind second nodes == length nodes

unfoldable pub is_fresh : Node → Bool
unfolding is_applied
is_fresh n = not n.stale && is_applied n

unfoldable pub is_only : (Node → Bool) → List Node → Bool
is_only test (n ∷ []) = test n
is_only test _ = false

unfoldable pub is_regenerable : Node → Bool
unfolding is_generated_kind is_applied is_manually_authored
is_regenerable n =
    is_generated_kind n.kind && n.stale && is_applied n && not (is_manually_authored n)

-- The rules of the four operations.
unfoldable pub suits : RunOperation → List Node → Bool
unfolding one_with_some is_goal is_constraint any is_fresh is_manually_authored is_only is_strategy
    is_claim is_regenerable
suits RunOperation.generate_strategies nodes =
    one_with_some is_goal is_constraint nodes
    && not (any (λ n. not (is_fresh n && is_manually_authored n)) nodes)
suits RunOperation.research_evidence nodes =
    is_only (λ (n : Node). is_strategy n.kind && is_fresh n) nodes
suits RunOperation.synthesize_opportunities nodes =
    one_with_some is_strategy is_claim nodes && not (any (λ n. not (is_fresh n)) nodes)
suits RunOperation.regenerate_stale nodes = is_only is_regenerable nodes

unfoldable pub expected_version : ℕ → List (ℕ × ℕ) → Option ℕ
expected_version id [] = none
expected_version id ((key, version) ∷ versions) =
    if key == id then some version else expected_version id versions

-- Whether a version changed; a node without an expected version is a KeyError.
unfoldable pub mismatches : List (ℕ × ℕ) → List Node → Result Bool
unfolding expected_version
mismatches versions [] = ok false
mismatches versions (n ∷ nodes) =
    let rest = mismatches versions nodes in
    elim (expected_version n.id versions) [
      | none ↦ err (Error.other_exception "KeyError")
      | some version ↦ rest >>= λ later. ok (not (version == n.version) || later)
    ]

-- validate_explicit_selection
unfoldable pub validate_explicit_selection : GenerationRunRequest → List Node → Result (Unit {0})
unfolding mismatches suits
validate_explicit_selection r nodes = do
  refuse (not (length nodes == length r.selected_node_ids)) 422 "invalid_generation_selection"
  changed ← mismatches r.expected_node_versions nodes
  refuse changed 422 "invalid_generation_selection"
  refuse (not (suits r.operation nodes)) 422 "invalid_generation_selection"
