-- ===== src/Graph/Operations/Edges.antt =====
-- proofgraph/graph/operations.py: the handlers on edges.
use proofgraph.Base.{ℕ, ◌+◌, String, not, none, some, [], ◌∷◌, ◌==◌, keep, Result, ok}
use proofgraph.Base.Checks.{◌>>=◌, ◌>>◌, refuse}
use proofgraph.Json.{Json, Fields, get}
use proofgraph.Graph.Tables.{EdgeKind, Edge}
use proofgraph.Graph.Queries.{GraphStore}
use proofgraph.Graph.Operations.Payload.{
  validate_keys, item, item_or_empty, positive_version, validate_json_object,
}
use proofgraph.Graph.Operations.Kinds.{validate_edge_kind}
use proofgraph.Graph.Operations.Metadata.{server_owned_edge_fields}
use proofgraph.Graph.Operations.Serialization.{id_json, serialize_edge}
use proofgraph.Graph.Operations.Changes.{Handled, is_end}
use proofgraph.Graph.Operations.Rows.{
  Platform, Supply, locked_edge, check_version, lock_endpoints, update_edge, create_edge,
}

-- {"edge": serialize_edge(edge)}
unfoldable pub edge_answer : Platform → Edge → Fields
unfolding serialize_edge
edge_answer p e = Fields.field "edge" (Json.obj (serialize_edge p.iso e)) Fields.end

unfoldable pub new_edge : Supply → ℕ → ℕ → ℕ → EdgeKind → Fields → Edge
new_edge supply canvas source target kind metadata = record {
  id = supply.fresh_id;
  canvas_id = canvas;
  source_id = source;
  target_id = target;
  kind = kind;
  metadata = metadata;
  version = 1;
  created_at = supply.now;
  updated_at = supply.now;
}

-- _add_edge
unfoldable pub add_edge : Platform → Supply → ℕ → GraphStore → Fields → Handled
unfolding validate_keys item validate_json_object lock_endpoints item_or_empty validate_edge_kind
    new_edge create_edge edge_answer
add_edge p supply canvas g payload = do
  validate_keys ("op" ∷ "operation_key" ∷ "edge" ∷ []) ("op" ∷ "operation_key" ∷ "edge" ∷ []) []
      payload
  value ← item "edge" payload
  edge_data ← validate_json_object value
  validate_keys ("source_node_id" ∷ "target_node_id" ∷ "kind" ∷ "metadata" ∷ [])
      ("source_node_id" ∷ "target_node_id" ∷ "kind" ∷ []) server_owned_edge_fields edge_data
  source_value ← item "source_node_id" edge_data
  target_value ← item "target_node_id" edge_data
  ends ← lock_endpoints p canvas g source_value target_value
  metadata ← validate_json_object (item_or_empty "metadata" edge_data)
  kind_value ← item "kind" edge_data
  kind ← validate_edge_kind kind_value
  after ← create_edge (new_edge supply canvas ends.0 ends.1 kind metadata) g
  ok (edge_answer p (new_edge supply canvas ends.0 ends.1 kind metadata), after)

-- The edge that a request names, in the version that it expects.
unfoldable pub expected_edge : Platform → ℕ → GraphStore → Fields → Result Edge
unfolding item locked_edge positive_version check_version
expected_edge p canvas g payload = do
  id_value ← item "edge_id" payload
  e ← locked_edge p canvas g id_value
  version ← item "expected_version" payload
  expected ← positive_version version
  check_version e.version expected
  ok e

-- changes.get(key, str(id))
unfoldable pub end_value : String → ℕ → Fields → Json
unfolding get
end_value key id changes = elim (get key changes) [ none ↦ id_json id | some value ↦ value ]

unfoldable pub kind_after : Edge → Fields → Result EdgeKind
unfolding get validate_edge_kind
kind_after e changes = elim (get "kind" changes) [
  | none ↦ ok e.kind
  | some value ↦ validate_edge_kind value
]

unfoldable pub metadata_after : Edge → Fields → Result Fields
unfolding get validate_json_object
metadata_after e changes = elim (get "metadata" changes) [
  | none ↦ ok e.metadata
  | some value ↦ validate_json_object value
]

unfoldable pub rewired : ℕ → ℕ → ℕ → ℕ → EdgeKind → Fields → Edge → Edge
rewired version now source target kind metadata e = record e {
  source_id = source;
  target_id = target;
  kind = kind;
  metadata = metadata;
  version = version + 1;
  updated_at = now;
}

-- _update_edge
unfoldable pub update_edge_row : Platform → Supply → ℕ → GraphStore → Fields → Handled
unfolding validate_keys item expected_edge validate_json_object is_end end_value lock_endpoints
    kind_after metadata_after rewired update_edge edge_answer
update_edge_row p supply canvas g payload = do
  validate_keys ("op" ∷ "operation_key" ∷ "edge_id" ∷ "expected_version" ∷ "changes" ∷ [])
      ("op" ∷ "operation_key" ∷ "edge_id" ∷ "expected_version" ∷ "changes" ∷ []) [] payload
  e ← expected_edge p canvas g payload
  value ← item "changes" payload
  changes ← validate_json_object value
  validate_keys ("source_node_id" ∷ "target_node_id" ∷ "kind" ∷ "metadata" ∷ []) []
      server_owned_edge_fields changes
  refuse (is_end changes) 422 "empty_update"
  ends ←
      lock_endpoints p canvas g (end_value "source_node_id" e.source_id changes)
        (end_value "target_node_id" e.target_id changes)
  kind ← kind_after e changes
  metadata ← metadata_after e changes
  ok (
    edge_answer p (rewired e.version supply.now ends.0 ends.1 kind metadata e),
    record g {
      edges = update_edge e.id (rewired e.version supply.now ends.0 ends.1 kind metadata) g.edges;
    },
  )

-- _delete_edge
unfoldable pub delete_edge : Platform → Supply → ℕ → GraphStore → Fields → Handled
unfolding validate_keys expected_edge keep
delete_edge p supply canvas g payload = do
  validate_keys ("op" ∷ "operation_key" ∷ "edge_id" ∷ "expected_version" ∷ [])
      ("op" ∷ "operation_key" ∷ "edge_id" ∷ "expected_version" ∷ []) [] payload
  e ← expected_edge p canvas g payload
  ok (
    Fields.field "deleted_edge_id" (id_json e.id) Fields.end,
    record g { edges = keep (λ (f : Edge). not (f.id == e.id)) g.edges },
  )
