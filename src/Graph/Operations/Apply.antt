-- ===== src/Graph/Operations/Apply.antt =====
-- proofgraph/graph/operations.py, apply_graph_operation: one operation, applied once under its key.
use proofgraph.Base.{
  ℕ, ◌+◌, String, true, false, ◌&&◌, Option, none, some, List, [], ◌∷◌, ◌==◌, str_eq, if◌then◌else◌,
  Error, Result, ok, err, Tx,
}
use proofgraph.Base.Checks.{◌>>=◌}
use proofgraph.Json.{Json, Fields, get, put}
use proofgraph.Queue.{uuid_text}
use proofgraph.Graph.Tables.{Canvas, Node, GraphOperation}
use proofgraph.Graph.Queries.{GraphStore}
use proofgraph.Graph.Staleness.{
  InvalidationCapture, capture_direct_invalidation, resolve_direct_invalidation,
}
use proofgraph.Graph.Staleness.Marking.{eligible_nodes}
use proofgraph.Graph.Operations.Payload.{is_empty_text, parse_uuid}
use proofgraph.Graph.Operations.Changes.{Handled, semantic_node_changes}
use proofgraph.Graph.Operations.Rows.{Platform, Supply}
use proofgraph.Graph.Operations.Nodes.{add_node, move_node, delete_node}
use proofgraph.Graph.Operations.Edges.{add_edge, update_edge_row, delete_edge}
use proofgraph.Graph.Operations.Assumptions.{replace_assumption}
use proofgraph.Graph.Operations.Review.{reject_evidence}
use proofgraph.Graph.Operations.Settling.{stamp_review, result_of, mark_stale}

pub record GraphTables : Type 0 where
  pub canvases : List Canvas
  pub operations : List GraphOperation
  pub graph : GraphStore

pub record Request : Type 0 where
  pub canonical : Fields
  pub op : String
  pub operation_key : String
  pub fingerprint : String

-- payload.get(key), None where it is missing.
unfoldable pub value_of : String → Fields → Json
unfolding get
value_of key fields = elim (get key fields) [ none ↦ Json.null | some value ↦ value ]

unfoldable pub operation_name : Json → Result String
unfolding is_empty_text
operation_name (Json.text s) =
    if is_empty_text s then err (Error.api 422 "invalid_operation") else ok s
operation_name _ = err (Error.api 422 "invalid_operation")

unfoldable pub encoded : Platform → Fields → Result String
encoded p fields = elim (p.dumps fields) [
  | none ↦ err (Error.api 422 "invalid_json_value")
  | some text ↦ ok text
]

-- _canonical_request
unfoldable pub canonical_request : Platform → Fields → Result Request
unfolding value_of operation_name parse_uuid put encoded
canonical_request p payload = do
  op ← operation_name (value_of "op" payload)
  key ← parse_uuid p.uuid_of (value_of "operation_key" payload)
  text ← encoded p (put "operation_key" (Json.text (uuid_text key)) payload)
  ok (record {
    canonical = put "operation_key" (Json.text (uuid_text key)) payload;
    op = op;
    operation_key = uuid_text key;
    fingerprint = p.sha256 text;
  })

unfoldable pub find_canvas : ℕ → List Canvas → Option Canvas
find_canvas id [] = none
find_canvas id (c ∷ canvases) = if c.id == id then some c else find_canvas id canvases

-- canvas.save(update_fields=["revision", "updated_at"])
unfoldable pub save_canvas : ℕ → ℕ → ℕ → List Canvas → List Canvas
save_canvas id revision now [] = []
save_canvas id revision now (c ∷ canvases) =
    (if c.id == id then record c { revision = revision; updated_at = now } else c)
    ∷ save_canvas id revision now canvases

-- The operation of an actor on a canvas under a key.
unfoldable pub find_operation : ℕ → String → String → List GraphOperation → Option GraphOperation
find_operation canvas actor key [] = none
find_operation canvas actor key (o ∷ operations) =
    if o.canvas_id == canvas && str_eq o.actor_type actor && str_eq o.operation_key key
    then some o
    else find_operation canvas actor key operations

-- OPERATION_HANDLERS.get(op), applied.
unfoldable pub handle : String → Platform → Supply → ℕ → GraphStore → Fields → Handled
unfolding add_node semantic_node_changes delete_node add_edge update_edge_row delete_edge move_node
    replace_assumption reject_evidence
handle op p supply canvas g payload =
    if str_eq op "ADD_NODE"
    then add_node p supply canvas g payload
    else (if str_eq op "UPDATE_NODE"
        then semantic_node_changes false p supply canvas g payload
        else (if str_eq op "DELETE_NODE"
            then delete_node p supply canvas g payload
            else (if str_eq op "ADD_EDGE"
                then add_edge p supply canvas g payload
                else (if str_eq op "UPDATE_EDGE"
                    then update_edge_row p supply canvas g payload
                    else (if str_eq op "DELETE_EDGE"
                        then delete_edge p supply canvas g payload
                        else (if str_eq op "PATCH_NODE_METADATA"
                            then semantic_node_changes true p supply canvas g payload
                            else (if str_eq op "MOVE_NODE"
                                then move_node p supply canvas g payload
                                else (if str_eq op "REPLACE_ASSUMPTION"
                                    then replace_assumption p supply canvas g payload
                                    else (if str_eq op "REJECT_EVIDENCE"
                                        then reject_evidence p supply canvas g payload
                                        else err (Error.api 422 "unsupported_operation"))))))))))

-- A search of the graph, which does not run out of fuel.
unfoldable pub searched : {A : Type 0} → Option A → Result A
searched none = err (Error.other_exception "RecursionError")
searched (some a) = ok a

unfoldable pub operation_row :
    Supply → Canvas → String → Option String → Request → Fields → GraphOperation
operation_row supply canvas actor_type actor_id r result = record {
  id = supply.operation_id;
  canvas_id = canvas.id;
  actor_type = actor_type;
  actor_id = actor_id;
  operation_key = r.operation_key;
  request_fingerprint = r.fingerprint;
  operation_type = r.op;
  payload = r.canonical;
  result_payload = result;
  canvas_revision = canvas.revision + 1;
  created_at = supply.now;
}

-- What the graph becomes after the handler: the stamp of a review, then the stale marks.
unfoldable pub settled :
    Platform
    → Supply
    → Canvas
    → Request
    → Option InvalidationCapture
    → List Node
    → Fields
    → GraphStore
    → GraphStore
unfolding stamp_review mark_stale
settled p supply canvas r capture eligible result g =
    mark_stale supply canvas.id (canvas.revision + 1) capture eligible (
      if str_eq r.op "REJECT_EVIDENCE"
      then stamp_review p canvas.id supply.operation_id supply.now result g
      else g)

-- An operation under a new key.
unfoldable pub perform_operation :
    Platform → Supply → Canvas → String → Option String → Request → Tx GraphTables Fields
unfolding capture_direct_invalidation searched handle resolve_direct_invalidation eligible_nodes
    result_of operation_row settled save_canvas
perform_operation p supply canvas actor_type actor_id r s = do
  capture ← searched (capture_direct_invalidation p.uuid_of canvas.id s.graph r.canonical)
  answer ← handle r.op p supply canvas.id s.graph r.canonical
  invalidated ←
      searched (resolve_direct_invalidation p.uuid_of canvas.id answer.1 r.canonical capture)
  let eligible = eligible_nodes canvas.id invalidated answer.1.nodes
  let result = result_of (canvas.revision + 1) answer.0 eligible
  ok (
    result,
    record {
      canvases = save_canvas canvas.id (canvas.revision + 1) supply.now s.canvases;
      operations = operation_row supply canvas actor_type actor_id r result ∷ s.operations;
      graph = settled p supply canvas r capture eligible answer.0 answer.1;
    },
  )

-- A key that was used: the stored result, if the content is the same.
unfoldable pub replay : Request → GraphOperation → Tx GraphTables Fields
replay r old s =
    if str_eq old.request_fingerprint r.fingerprint
    then ok (old.result_payload, s)
    else err (Error.api 409 "operation_key_conflict")

unfoldable pub apply_request :
    Platform → Supply → ℕ → String → Option String → Request → Tx GraphTables Fields
unfolding find_canvas find_operation replay perform_operation
apply_request p supply canvas_id actor_type actor_id r s = elim (find_canvas canvas_id s.canvases) [
  | none ↦ err (Error.api 404 "canvas_not_found")
  | some canvas ↦ elim (find_operation canvas.id actor_type r.operation_key s.operations) [
    | some old ↦ replay r old s
    | none ↦ perform_operation p supply canvas actor_type actor_id r s
  ]
]

-- apply_graph_operation
unfoldable pub apply_graph_operation :
    Platform → Supply → ℕ → Fields → String → Option String → Tx GraphTables Fields
unfolding canonical_request apply_request
apply_graph_operation p supply canvas_id payload actor_type actor_id s = do
  r ← canonical_request p payload
  apply_request p supply canvas_id actor_type actor_id r s
