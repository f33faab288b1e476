-- ===== src/Graph/Operations/Rows.antt =====
-- proofgraph/graph/operations.py: the rows that a request names, and the writes on the tables.
use proofgraph.Base.{
  ℕ, String, Bool, true, false, not, ◌&&◌, Option, none, some, List, [], ◌∷◌, ◌==◌, str_eq, any,
  keep, if◌then◌else◌, Error, Result, ok, err,
}
use proofgraph.Base.Checks.{◌>>=◌, ◌>>◌, refuse}
use proofgraph.Json.{Json, Fields, get}
use proofgraph.Graph.Tables.{NodeKind, Node, Edge, NodeStalenessCause}
use proofgraph.Graph.Queries.{GraphStore, find_node, find_edge}
use proofgraph.Graph.Operations.Payload.{parse_uuid}

-- What the code uses outside the repository: uuid.UUID on a text (none: ValueError), isoformat,
-- json.dumps with sorted keys (none: it raises), and the hexadecimal SHA-256 of a text.
pub record Platform : Type 0 where
  pub uuid_of : String → Option ℕ
  pub iso : ℕ → String
  pub dumps : Fields → Option String
  pub sha256 : String → String

-- What an operation finds outside its tables: the time, the id that `uuid.uuid4()` returns, and
-- the next id of a graph operation.
pub record Supply : Type 0 where
  pub now : ℕ
  pub fresh_id : ℕ
  pub operation_id : ℕ

-- _locked_node
unfoldable pub locked_node : Platform → ℕ → GraphStore → Json → Result Node
unfolding parse_uuid find_node
locked_node p canvas g value = do
  node_id ← parse_uuid p.uuid_of value
  elim (find_node canvas node_id g.nodes) [
    | none ↦ err (Error.api 404 "node_not_found")
    | some n ↦ ok n
  ]

-- _locked_edge
unfoldable pub locked_edge : Platform → ℕ → GraphStore → Json → Result Edge
unfolding parse_uuid find_edge
locked_edge p canvas g value = do
  edge_id ← parse_uuid p.uuid_of value
  elim (find_edge canvas edge_id g.edges) [
    | none ↦ err (Error.api 404 "edge_not_found")
    | some e ↦ ok e
  ]

-- _check_version, of a current version.
unfoldable pub check_version : ℕ → ℕ → Result (Unit {0})
check_version current expected = refuse (not (current == expected)) 409 "version_conflict"

-- Node.objects.filter(pk=id).first()
unfoldable pub node_by_pk : ℕ → List Node → Option Node
node_by_pk id [] = none
node_by_pk id (n ∷ nodes) = if n.id == id then some n else node_by_pk id nodes

-- The kinds that a branch of constraints may start from.
unfoldable pub is_root_kind : NodeKind → Bool
is_root_kind NodeKind.strategy = true
is_root_kind NodeKind.claim = true
is_root_kind NodeKind.opportunity = true
is_root_kind _ = false

-- _resolve_branch_root, with the id of the root.
unfoldable pub resolve_branch_root : Platform → ℕ → GraphStore → Json → Result ℕ
unfolding parse_uuid node_by_pk is_root_kind
resolve_branch_root p canvas g value = do
  root_id ← parse_uuid p.uuid_of value
  elim (node_by_pk root_id g.nodes) [
    | none ↦ err (Error.api 422 "invalid_branch_root")
    | some root ↦
        if root.canvas_id == canvas && is_root_kind root.kind
        then ok root.id
        else err (Error.api 422 "invalid_branch_root")
  ]

unfoldable pub is_constraint : NodeKind → Bool
is_constraint NodeKind.constraint = true
is_constraint _ = false

pub data Scope : Type 0 where
  global branch : Scope

-- `scope not in {"global", "branch"}`: a list or an object cannot be hashed.
unfoldable pub scope_of : Option Json → Result Scope
scope_of (some (Json.text s)) =
    if str_eq s "global"
    then ok Scope.global
    else (if str_eq s "branch"
        then ok Scope.branch
        else err (Error.api 422 "invalid_constraint_metadata"))
scope_of (some (Json.arr items)) = err (Error.other_exception "TypeError")
scope_of (some (Json.obj fields)) = err (Error.other_exception "TypeError")
scope_of _ = err (Error.api 422 "invalid_constraint_metadata")

unfoldable pub is_boolean : Option Json → Bool
is_boolean (some (Json.bool b)) = true
is_boolean _ = false

-- root_value is _MISSING or root_value is None
unfoldable pub has_no_root : Option Json → Bool
has_no_root none = true
has_no_root (some Json.null) = true
has_no_root (some _) = false

unfoldable pub is_missing : Option Json → Bool
is_missing none = true
is_missing (some _) = false

-- The root that a scope asks for.
unfoldable pub scoped_root : Platform → ℕ → GraphStore → Option Json → Scope → Result (Option ℕ)
unfolding has_no_root resolve_branch_root
scoped_root p canvas g root_value Scope.global = do
  refuse (not (has_no_root root_value)) 422 "invalid_branch_root"
  ok none
scoped_root p canvas g none Scope.branch = err (Error.api 422 "invalid_branch_root")
scoped_root p canvas g (some Json.null) Scope.branch = err (Error.api 422 "invalid_branch_root")
scoped_root p canvas g (some value) Scope.branch = do
  root_id ← resolve_branch_root p canvas g value
  ok (some root_id)

-- _constraint_root; `none` for the root value is _MISSING.
unfoldable pub constraint_root :
    Platform → ℕ → GraphStore → NodeKind → Fields → Option Json → Result (Option ℕ)
unfolding is_constraint is_missing scope_of is_boolean scoped_root get
constraint_root p canvas g kind metadata root_value =
    if is_constraint kind
    then (do
      scope ← scope_of (get "context_scope" metadata)
      refuse (not (is_boolean (get "pinned" metadata))) 422 "invalid_constraint_metadata"
      scoped_root p canvas g root_value scope)
    else (do refuse (not (is_missing root_value)) 422 "wrong_kind_field"; ok none)

-- A node of the canvas.
unfoldable pub has_node : ℕ → ℕ → List Node → Bool
unfolding any
has_node canvas id nodes = any (λ (n : Node). n.canvas_id == canvas && n.id == id) nodes

-- _lock_endpoints, with the ids of the endpoints.
unfoldable pub lock_endpoints : Platform → ℕ → GraphStore → Json → Json → Result (ℕ × ℕ)
unfolding parse_uuid has_node
lock_endpoints p canvas g source_value target_value = do
  source_id ← parse_uuid p.uuid_of source_value
  target_id ← parse_uuid p.uuid_of target_value
  refuse (not (has_node canvas source_id g.nodes && has_node canvas target_id g.nodes)) 422
      "invalid_edge_endpoint"
  ok (source_id, target_id)

-- node.save(update_fields=...): UPDATE ... WHERE id = pk, of the fields that `write` sets.
unfoldable pub update_node : ℕ → (Node → Node) → List Node → List Node
update_node id write [] = []
update_node id write (n ∷ nodes) = (if n.id == id then write n else n) ∷ update_node id write nodes

unfoldable pub update_edge : ℕ → (Edge → Edge) → List Edge → List Edge
update_edge id write [] = []
update_edge id write (e ∷ edges) = (if e.id == id then write e else e) ∷ update_edge id write edges

-- Node.objects.create: a primary key that is in use is an IntegrityError.
unfoldable pub create_node : Node → GraphStore → Result GraphStore
unfolding any
create_node n g =
    if any (λ (m : Node). m.id == n.id) g.nodes
    then err (Error.other_exception "IntegrityError")
    else ok (record g { nodes = n ∷ g.nodes })

unfoldable pub create_edge : Edge → GraphStore → Result GraphStore
unfolding any
create_edge e g =
    if any (λ (f : Edge). f.id == e.id) g.edges
    then err (Error.other_exception "IntegrityError")
    else ok (record g { edges = e ∷ g.edges })

-- node.delete(), with the causes of the node (ON DELETE CASCADE of fk_stale_node_canvas).
unfoldable pub delete_node_row : ℕ → GraphStore → GraphStore
unfolding keep
delete_node_row id g = record g {
  nodes = keep (λ (n : Node). not (n.id == id)) g.nodes;
  causes = keep (λ (c : NodeStalenessCause). not (c.node_id == id)) g.causes;
}
