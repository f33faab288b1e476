-- ===== src/Graph/Operations/Settling.antt =====
-- proofgraph/graph/operations.py, apply_graph_operation: the stamp of a review, the stored result and
-- the stale marks.
use proofgraph.Base.{
  ℕ, String, ◌&&◌, Option, none, some, List, [], ◌∷◌, ◌++◌, ◌||◌, ◌==◌, if◌then◌else◌,
}
use proofgraph.Json.{Json, Items, Fields, get, put}
use proofgraph.Graph.Ids.{member}
use proofgraph.Graph.Tables.{Node}
use proofgraph.Graph.Queries.{GraphStore}
use proofgraph.Graph.Staleness.{InvalidationCapture}
use proofgraph.Graph.Staleness.Marking.{node_ids, is_selected, newly_stale_nodes, apply_staleness}
use proofgraph.Graph.Operations.Serialization.{fields_of, id_items}
use proofgraph.Graph.Operations.Changes.{merge}
use proofgraph.Graph.Operations.Rows.{Platform, Supply}

-- The ids in a result under a key: one text, or a list of texts.
unfoldable pub ids_in : Platform → Items → List ℕ
ids_in p Items.nil = []
ids_in p (Items.cons (Json.text s) rest) =
    let later = ids_in p rest in elim (p.uuid_of s) [ none ↦ later | some id ↦ id ∷ later ]
ids_in p (Items.cons _ rest) = ids_in p rest

unfoldable pub ids_at : Platform → String → Fields → List ℕ
unfolding get ids_in
ids_at p key result = elim (get key result) [
  | some (Json.text s) ↦ ids_in p (Items.cons (Json.text s) Items.nil)
  | some (Json.arr items) ↦ ids_in p items
  | _ ↦ []
]

-- The stamp of a review on a node.
unfoldable pub stamped : ℕ → ℕ → List ℕ → Node → Node
unfolding put member
stamped operation now rejected n = record n {
  metadata =
      put
        (if member n.id rejected
          then "rejected_by_operation_id"
          else "support_reviewed_by_operation_id")
        (Json.num operation) (put "reviewed_by_operation_id" (Json.num operation) n.metadata);
  updated_at = now;
}

unfoldable pub stamp_nodes : ℕ → ℕ → ℕ → List ℕ → List ℕ → List Node → List Node
unfolding is_selected member stamped
stamp_nodes canvas operation now rejected retained [] = []
stamp_nodes canvas operation now rejected retained (n ∷ nodes) =
    (if n.canvas_id == canvas && (member n.id rejected || member n.id retained)
      then stamped operation now rejected n
      else n)
    ∷ stamp_nodes canvas operation now rejected retained nodes

-- _stamp_evidence_review_operation
unfoldable pub stamp_review : Platform → ℕ → ℕ → ℕ → Fields → GraphStore → GraphStore
unfolding ids_at stamp_nodes
stamp_review p canvas operation now result g = record g {
  nodes =
      stamp_nodes canvas operation now
        (ids_at p "rejected_evidence_id" result ++ ids_at p "rejected_claim_ids" result)
        (ids_at p "retained_claim_ids" result) g.nodes;
}

-- The result that is stored with the operation and returned.
unfoldable pub result_of : ℕ → Fields → List Node → Fields
unfolding merge newly_stale_nodes
result_of revision result eligible =
    merge (Fields.field "canvas_revision" (Json.num revision) (result)) (
      fields_of (
        ("stale_node_ids", Json.arr (id_items (node_ids eligible)))
        ∷ ("newly_stale_node_ids", Json.arr (id_items (node_ids (newly_stale_nodes eligible))))
        ∷ []))

-- apply_staleness, if something was captured and something is to be marked.
unfoldable pub mark_stale :
    Supply → ℕ → ℕ → Option InvalidationCapture → List Node → GraphStore → GraphStore
unfolding apply_staleness
mark_stale supply canvas revision none eligible g = g
mark_stale supply canvas revision (some capture) [] g = g
mark_stale supply canvas revision (some capture) (n ∷ eligible) g =
    (apply_staleness canvas (node_ids (n ∷ eligible)) supply.operation_id capture.origin_entity_type
      capture.origin_entity_id revision supply.now g).1
