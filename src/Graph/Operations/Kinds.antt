-- ===== src/Graph/Operations/Kinds.antt =====
-- proofgraph/graph/models.py: the names of the kinds of nodes and edges, and reading them.
use proofgraph.Base.{
  String, Option, none, some, List, [], ◌∷◌, str_eq, if◌then◌else◌, Error, Result, ok, err,
}
use proofgraph.Json.{Json}
use proofgraph.Graph.Tables.{NodeKind, EdgeKind}

unfoldable pub node_kind_name : NodeKind → String
node_kind_name NodeKind.goal = "goal"
node_kind_name NodeKind.constraint = "constraint"
node_kind_name NodeKind.strategy = "strategy"
node_kind_name NodeKind.source = "source"
node_kind_name NodeKind.claim = "claim"
node_kind_name NodeKind.opportunity = "opportunity"
node_kind_name NodeKind.assumption = "assumption"
node_kind_name NodeKind.risk = "risk"
node_kind_name NodeKind.validation_experiment = "validation_experiment"
node_kind_name NodeKind.generation_placeholder = "generation_placeholder"

unfoldable pub edge_kind_name : EdgeKind → String
edge_kind_name EdgeKind.supports = "supports"
edge_kind_name EdgeKind.contradicts = "contradicts"
edge_kind_name EdgeKind.derived_from = "derived_from"
edge_kind_name EdgeKind.constrained_by = "constrained_by"
edge_kind_name EdgeKind.evolves_into = "evolves_into"
edge_kind_name EdgeKind.requires_validation = "requires_validation"
edge_kind_name EdgeKind.extracted_from = "extracted_from"

-- The kind of a name, in the order of the taxonomy.
unfoldable pub named {ℓ} : {A : Type ℓ} → (A → String) → String → List A → Option A
named name s [] = none
named name s (kind ∷ kinds) = if str_eq s (name kind) then some kind else named name s kinds

abbrev pub node_kinds : List NodeKind
node_kinds =
    NodeKind.goal ∷ NodeKind.constraint ∷ NodeKind.strategy ∷ NodeKind.source ∷ NodeKind.claim
    ∷ NodeKind.opportunity ∷ NodeKind.assumption ∷ NodeKind.risk ∷ NodeKind.validation_experiment
    ∷ NodeKind.generation_placeholder ∷ []

abbrev pub edge_kinds : List EdgeKind
edge_kinds =
    EdgeKind.supports ∷ EdgeKind.contradicts ∷ EdgeKind.derived_from ∷ EdgeKind.constrained_by
    ∷ EdgeKind.evolves_into ∷ EdgeKind.requires_validation ∷ EdgeKind.extracted_from ∷ []

-- _validate_node_kind
unfoldable pub validate_node_kind : Json → Result NodeKind
unfolding named node_kind_name
validate_node_kind (Json.text s) = elim (named node_kind_name s node_kinds) [
  | none ↦ err (Error.api 422 "invalid_node_kind")
  | some kind ↦ ok kind
]
validate_node_kind _ = err (Error.api 422 "invalid_node_kind")

-- _validate_edge_kind
unfoldable pub validate_edge_kind : Json → Result EdgeKind
unfolding named edge_kind_name
validate_edge_kind (Json.text s) = elim (named edge_kind_name s edge_kinds) [
  | none ↦ err (Error.api 422 "invalid_edge_kind")
  | some kind ↦ ok kind
]
validate_edge_kind _ = err (Error.api 422 "invalid_edge_kind")
