-- ===== src/Graph/Operations/Effects/Handling.antt =====
-- OPERATION_HANDLERS: whatever the operation, the tables see one of a few changes.
use proofgraph.Base.{ℕ, String, true, false, str_eq, Bool-cases, inl, inr}
use proofgraph.Base.Checks.{Holds}
use proofgraph.Json.{Fields}
use proofgraph.Graph.Queries.{GraphStore}
use proofgraph.Graph.Staleness.Marking.Members.{UniqueNodes}
use proofgraph.Graph.Operations.Rows.{Platform, Supply}
use proofgraph.Graph.Operations.Apply.{handle}
use proofgraph.Graph.Operations.Effects.{Change, UniqueEdges}
use proofgraph.Graph.Operations.Effects.Handlers.{
  add_node-Changed, semantic_node_changes-Changed, move_node-Changed, delete_node-Changed,
  add_edge-Changed, update_edge-Changed, delete_edge-Changed, replace_assumption-Changed,
  reject_evidence-Changed,
}

-- Node ids and edge ids are unique. Whatever the request, the handler of an operation on a canvas
-- either raises or makes one of the changes of `Change`: it adds a node under its fresh id, if
-- that is new, with no stale mark, a sound root and brief texts, rewrites rows of the canvas and of
-- no other without touching their identity, lowering a version or making the texts of a source
-- long, deletes a node that no edge and no branch uses, adds an edge under the fresh id between
-- nodes of the canvas, rewires edges of the canvas between its nodes, or deletes an edge of the
-- canvas.
pub handle-Changed :
    (op : String) (p : Platform) (supply : Supply) (canvas : ℕ) (g : GraphStore) (payload : Fields)
    → UniqueNodes g.nodes
    → UniqueEdges g.edges
    → Holds
        (λ (out : Fields × GraphStore). Change canvas supply.fresh_id g out.1)
        (handle op p supply canvas g payload)
unfolding handle
handle-Changed op p supply canvas g payload u v = elim (Bool-cases (str_eq op "ADD_NODE")) [
  | inl e ↦ rw e (add_node-Changed p supply canvas g payload)
  | inr e ↦ rw e (elim (Bool-cases (str_eq op "UPDATE_NODE")) [
    | inl e ↦ rw e (semantic_node_changes-Changed p supply canvas g payload false u)
    | inr e ↦ rw e (elim (Bool-cases (str_eq op "DELETE_NODE")) [
      | inl e ↦ rw e (delete_node-Changed p supply canvas g payload)
      | inr e ↦ rw e (elim (Bool-cases (str_eq op "ADD_EDGE")) [
        | inl e ↦ rw e (add_edge-Changed p supply canvas g payload)
        | inr e ↦ rw e (elim (Bool-cases (str_eq op "UPDATE_EDGE")) [
          | inl e ↦ rw e (update_edge-Changed p supply canvas g payload v)
          | inr e ↦ rw e (elim (Bool-cases (str_eq op "DELETE_EDGE")) [
            | inl e ↦ rw e (delete_edge-Changed p supply canvas g payload)
            | inr e ↦ rw e (elim (Bool-cases (str_eq op "PATCH_NODE_METADATA")) [
              | inl e ↦ rw e (semantic_node_changes-Changed p supply canvas g payload true u)
              | inr e ↦ rw e (elim (Bool-cases (str_eq op "MOVE_NODE")) [
                | inl e ↦ rw e (move_node-Changed p supply canvas g payload u)
                | inr e ↦ rw e (elim (Bool-cases (str_eq op "REPLACE_ASSUMPTION")) [
                  | inl e ↦ rw e (replace_assumption-Changed p supply canvas g payload u)
                  | inr e ↦ rw e (elim (Bool-cases (str_eq op "REJECT_EVIDENCE")) [
                    | inl e ↦ rw e (reject_evidence-Changed p supply canvas g payload u)
                    | inr e ↦ rw e (tt)
                  ])
                ])
              ])
            ])
          ])
        ])
      ])
    ])
  ])
]
