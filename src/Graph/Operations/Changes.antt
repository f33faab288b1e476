-- ===== src/Graph/Operations/Changes.antt =====
-- proofgraph/graph/operations.py: UPDATE_NODE and PATCH_NODE_METADATA. A handler reads the request
-- and the tables of a canvas; it raises, or gives its answer and the new tables.
use proofgraph.Base.{
  ℕ, ◌+◌, String, Bool, true, false, Option, none, some, [], ◌∷◌, str_eq, if◌then◌else◌, Result, ok,
}
use proofgraph.Base.Checks.{◌>>=◌, ◌>>◌, refuse}
use proofgraph.Json.{Json, Fields, get, put}
use proofgraph.Graph.Tables.{Node}
use proofgraph.Graph.Queries.{GraphStore}
use proofgraph.Graph.Operations.Payload.{
  validate_keys, item, item_or_empty, positive_version, validate_title, validate_body,
  validate_json_object,
}
use proofgraph.Graph.Operations.Metadata.{server_owned_node_fields, validate_metadata}
use proofgraph.Graph.Operations.Serialization.{fields_of, id_json, serialize_node}
use proofgraph.Graph.Operations.Rows.{
  Platform, Supply, locked_node, check_version, is_constraint, constraint_root, update_node,
}

-- The body of a handler's answer, and the tables after it.
abbrev pub Handled : Type 0
Handled = Result (Fields × GraphStore)

-- {"node": serialize_node(node)}
unfoldable pub node_answer : Platform → Node → Fields
unfolding serialize_node
node_answer p n = Fields.field "node" (Json.obj (serialize_node p.iso n)) Fields.end

-- {**d, **e}
unfoldable pub merge : Fields → Fields → Fields
unfolding put
merge fields Fields.end = fields
merge fields (Fields.field key child rest) = merge (put key child fields) rest

-- The changes of a request: `changes`, or those of PATCH_NODE_METADATA.
unfoldable pub changes_of : Bool → Fields → Result Fields
unfolding item validate_json_object get
changes_of true payload = do
  metadata ← item "metadata" payload
  elim (get "branch_root_node_id" payload) [
    | none ↦ ok (Fields.field "metadata" metadata Fields.end)
    | some root ↦ ok (fields_of (("metadata", metadata) ∷ ("branch_root_node_id", root) ∷ []))
  ]
changes_of false payload = do changes ← item "changes" payload; validate_json_object changes

unfoldable pub is_end : Fields → Bool
is_end Fields.end = true
is_end _ = false

-- set(changes) == {"metadata"} and not _validate_json_object(changes["metadata"])
unfoldable pub only_empty_metadata : Fields → Result Bool
unfolding is_end validate_json_object
only_empty_metadata (Fields.field key child Fields.end) =
    if str_eq key "metadata"
    then (do metadata ← validate_json_object child; ok (is_end metadata))
    else ok false
only_empty_metadata _ = ok false

-- The value of the root: the request's, or for a constraint one that follows from the row.
unfoldable pub root_value_of : Node → Fields → Fields → Option Json
unfolding get is_constraint
root_value_of n final_metadata changes = elim (get "branch_root_node_id" changes) [
  | some value ↦ some value
  | none ↦
      if is_constraint n.kind
      then elim (get "context_scope" final_metadata) [
        | some (Json.text s) ↦
            if str_eq s "global"
            then some Json.null
            else elim n.branch_root_id [ none ↦ none | some root ↦ some (id_json root) ]
        | _ ↦ elim n.branch_root_id [ none ↦ none | some root ↦ some (id_json root) ]
      ]
      else none
]

-- The new title and body; the row's own where the request has none.
unfoldable pub title_after : Node → Fields → Result String
unfolding get validate_title
title_after n changes = elim (get "title" changes) [
  | none ↦ ok n.title
  | some value ↦ validate_title n.kind value
]

unfoldable pub body_after : Node → Fields → Result (Option String)
unfolding get validate_body
body_after n changes = elim (get "body" changes) [
  | none ↦ ok n.body
  | some value ↦ validate_body n.kind value
]

-- The fields that a semantic update writes; the version is that of the row read before, and one.
unfoldable pub revised : ℕ → ℕ → String → Option String → Fields → Option ℕ → Node → Node
revised version now title body metadata root n = record n {
  title = title;
  body = body;
  metadata = metadata;
  branch_root_id = root;
  version = version + 1;
  context_token_count = none;
  context_content_hash = none;
  semantic_updated_at = now;
  updated_at = now;
}

unfoldable pub semantic_keys : Bool → Fields → Result (Unit {0})
unfolding validate_keys
semantic_keys true payload =
    validate_keys
      ("op" ∷ "operation_key" ∷ "node_id" ∷ "expected_version" ∷ "metadata" ∷ "branch_root_node_id"
        ∷ [])
      ("op" ∷ "operation_key" ∷ "node_id" ∷ "expected_version" ∷ "metadata" ∷ []) [] payload
semantic_keys false payload =
    validate_keys ("op" ∷ "operation_key" ∷ "node_id" ∷ "expected_version" ∷ "changes" ∷ [])
      ("op" ∷ "operation_key" ∷ "node_id" ∷ "expected_version" ∷ "changes" ∷ []) [] payload

-- The node that a request names, in the version that it expects.
unfoldable pub expected_node : Platform → ℕ → GraphStore → Fields → Result Node
unfolding item locked_node positive_version check_version
expected_node p canvas g payload = do
  id_value ← item "node_id" payload
  n ← locked_node p canvas g id_value
  version ← item "expected_version" payload
  expected ← positive_version version
  check_version n.version expected
  ok n

-- _semantic_node_changes: UPDATE_NODE, and with `metadata_only` PATCH_NODE_METADATA.
unfoldable pub semantic_node_changes : Bool → Platform → Supply → ℕ → GraphStore → Fields → Handled
unfolding semantic_keys expected_node changes_of validate_keys is_end only_empty_metadata
    item_or_empty validate_metadata merge constraint_root root_value_of title_after body_after
    revised update_node node_answer
semantic_node_changes metadata_only p supply canvas g payload = do
  semantic_keys metadata_only payload
  n ← expected_node p canvas g payload
  changes ← changes_of metadata_only payload
  validate_keys ("title" ∷ "body" ∷ "metadata" ∷ "branch_root_node_id" ∷ []) []
      server_owned_node_fields changes
  refuse (is_end changes) 422 "empty_update"
  nothing ← only_empty_metadata changes
  refuse nothing 422 "empty_update"
  patch ← validate_metadata n.kind (item_or_empty "metadata" changes)
  root ←
      constraint_root p canvas g n.kind (merge n.metadata patch)
        (root_value_of n (merge n.metadata patch) changes)
  title ← title_after n changes
  body ← body_after n changes
  ok (
    node_answer p (revised n.version supply.now title body (merge n.metadata patch) root n),
    record g {
      nodes =
          update_node n.id (revised n.version supply.now title body (merge n.metadata patch) root)
            g.nodes;
    },
  )
