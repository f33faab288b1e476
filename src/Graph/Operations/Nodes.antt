-- ===== src/Graph/Operations/Nodes.antt =====
-- proofgraph/graph/operations.py: adding, moving and deleting a node.
use proofgraph.Base.{
  ℕ, ◌+◌, String, Bool, false, ◌&&◌, ◌||◌, Option, none, some, List, [], ◌∷◌, ◌==◌, str_eq, any,
  if◌then◌else◌, Result, ok,
}
use proofgraph.Base.Checks.{◌>>=◌, ◌>>◌, refuse}
use proofgraph.Json.{Json, Fields, get}
use proofgraph.Graph.Tables.{NodeKind, Node, Edge}
use proofgraph.Graph.Queries.{GraphStore}
use proofgraph.Graph.Operations.Payload.{
  validate_keys, item, item_or_empty, positive_version, validate_title, validate_body,
  validate_json_object, validate_position,
}
use proofgraph.Graph.Operations.Kinds.{validate_node_kind}
use proofgraph.Graph.Operations.Metadata.{server_owned_node_fields, validate_metadata}
use proofgraph.Graph.Operations.Serialization.{id_json}
use proofgraph.Graph.Operations.Changes.{Handled, node_answer, expected_node}
use proofgraph.Graph.Operations.Rows.{
  Platform, Supply, locked_node, check_version, constraint_root, update_node, create_node,
  delete_node_row,
}

abbrev without : String → List String → List String
without s [] = []
without s (x ∷ xs) = if str_eq s x then without s xs else x ∷ without s xs

-- _validate_position(node_data["position"]) if "position" in node_data else {}
unfoldable pub position_of : Fields → Result Fields
unfolding get validate_position
position_of node_data = elim (get "position" node_data) [
  | none ↦ ok Fields.end
  | some value ↦ validate_position value
]

-- node_data.get("body")
unfoldable pub body_of : Fields → Json
unfolding get
body_of fields = elim (get "body" fields) [ none ↦ Json.null | some value ↦ value ]

unfoldable pub new_node :
    Supply → ℕ → NodeKind → String → Option String → Fields → Option ℕ → Fields → Node
new_node supply canvas kind title body metadata root position = record {
  id = supply.fresh_id;
  canvas_id = canvas;
  kind = kind;
  title = title;
  body = body;
  metadata = metadata;
  branch_root_id = root;
  position = position;
  stale = false;
  stale_since_revision = none;
  version = 1;
  position_version = 1;
  context_token_count = none;
  context_representation_version = 1;
  context_content_hash = none;
  created_at = supply.now;
  semantic_updated_at = supply.now;
  position_updated_at = supply.now;
  updated_at = supply.now;
}

-- _add_node
unfoldable pub add_node : Platform → Supply → ℕ → GraphStore → Fields → Handled
unfolding validate_keys item validate_json_object validate_node_kind validate_metadata item_or_empty
    constraint_root position_of validate_title validate_body body_of new_node create_node
    node_answer get
add_node p supply canvas g payload = do
  validate_keys ("op" ∷ "operation_key" ∷ "node" ∷ []) ("op" ∷ "operation_key" ∷ "node" ∷ []) []
      payload
  value ← item "node" payload
  node_data ← validate_json_object value
  validate_keys ("kind" ∷ "title" ∷ "body" ∷ "metadata" ∷ "branch_root_node_id" ∷ "position" ∷ [])
      ("kind" ∷ "title" ∷ []) (without "kind" server_owned_node_fields) node_data
  kind_value ← item "kind" node_data
  kind ← validate_node_kind kind_value
  metadata ← validate_metadata kind (item_or_empty "metadata" node_data)
  root ← constraint_root p canvas g kind metadata (get "branch_root_node_id" node_data)
  position ← position_of node_data
  title_value ← item "title" node_data
  title ← validate_title kind title_value
  body ← validate_body kind (body_of node_data)
  after ← create_node (new_node supply canvas kind title body metadata root position) g
  ok (node_answer p (new_node supply canvas kind title body metadata root position), after)

unfoldable pub moved : ℕ → ℕ → Fields → Node → Node
moved position_version now position n = record n {
  position = position;
  position_version = position_version + 1;
  position_updated_at = now;
  updated_at = now;
}

-- _move_node
unfoldable pub move_node : Platform → Supply → ℕ → GraphStore → Fields → Handled
unfolding validate_keys item locked_node positive_version check_version validate_position moved
    update_node node_answer
move_node p supply canvas g payload = do
  validate_keys ("op" ∷ "operation_key" ∷ "node_id" ∷ "expected_position_version" ∷ "position" ∷ [])
      ("op" ∷ "operation_key" ∷ "node_id" ∷ "expected_position_version" ∷ "position" ∷ []) []
      payload
  id_value ← item "node_id" payload
  n ← locked_node p canvas g id_value
  version ← item "expected_position_version" payload
  expected ← positive_version version
  check_version n.position_version expected
  position_value ← item "position" payload
  position ← validate_position position_value
  ok (
    node_answer p (moved n.position_version supply.now position n),
    record g { nodes = update_node n.id (moved n.position_version supply.now position) g.nodes },
  )

-- The test of an edge that starts or ends at a node, and of a constraint that is anchored there.
unfoldable pub is_incident : ℕ → ℕ → Edge → Bool
is_incident canvas id e = e.canvas_id == canvas && (e.source_id == id || e.target_id == id)

unfoldable pub is_anchored_at : ℕ → ℕ → Node → Bool
is_anchored_at canvas id n =
    n.canvas_id == canvas && (elim n.branch_root_id [ none ↦ false | some root ↦ root == id ])

-- _delete_node
unfoldable pub delete_node : Platform → Supply → ℕ → GraphStore → Fields → Handled
unfolding validate_keys expected_node any is_incident is_anchored_at delete_node_row
delete_node p supply canvas g payload = do
  validate_keys ("op" ∷ "operation_key" ∷ "node_id" ∷ "expected_version" ∷ [])
      ("op" ∷ "operation_key" ∷ "node_id" ∷ "expected_version" ∷ []) [] payload
  n ← expected_node p canvas g payload
  refuse (any (is_incident canvas n.id) g.edges || any (is_anchored_at canvas n.id) g.nodes) 409
      "node_has_dependencies"
  ok (Fields.field "deleted_node_id" (id_json n.id) Fields.end, delete_node_row n.id g)
