-- ===== src/Graph/Operations/Review.antt =====
-- proofgraph/graph/operations.py: rejecting evidence.
use proofgraph.Base.{ℕ, String, not, ◌||◌, List, [], ◌∷◌, keep, ok}
use proofgraph.Base.Checks.{◌>>=◌, ◌>>◌, refuse}
use proofgraph.Json.{Json, Fields}
use proofgraph.Graph.Tables.{NodeKind, Node}
use proofgraph.Graph.Queries.{GraphStore, is_claim, is_source}
use proofgraph.Graph.Staleness.Marking.{node_ids}
use proofgraph.Graph.Operations.Payload.{validate_keys, item, positive_version}
use proofgraph.Graph.Operations.Serialization.{fields_of, id_json, id_items}
use proofgraph.Graph.Operations.Support.{
  has_review_status, impacted_claims, review_claims, reviewed, rejected_metadata, loses_support,
}
use proofgraph.Graph.Operations.Changes.{Handled}
use proofgraph.Graph.Operations.Rows.{Platform, Supply, locked_node, check_version, update_node}

unfoldable pub evidence_kind_name : NodeKind → String
evidence_kind_name NodeKind.source = "source"
evidence_kind_name _ = "claim"

unfoldable pub rejection_answer : ℕ → GraphStore → Node → List Node → Fields
unfolding id_items loses_support keep evidence_kind_name
rejection_answer canvas g evidence claims = fields_of (
    ("rejected_evidence_id", id_json evidence.id)
    ∷ ("rejected_evidence_kind", Json.text (evidence_kind_name evidence.kind))
    ∷ ("impacted_claim_ids", Json.arr (id_items (node_ids claims)))
    ∷ (
      "rejected_claim_ids",
      Json.arr (id_items (node_ids (keep (loses_support canvas g evidence.id) claims))),
    )
    ∷ (
      "retained_claim_ids",
      Json.arr (
          id_items
            (node_ids (keep (λ (c : Node). not (loses_support canvas g evidence.id c)) claims))),
    )
    ∷ [])

-- _reject_evidence
unfoldable pub reject_evidence : Platform → Supply → ℕ → GraphStore → Fields → Handled
unfolding validate_keys item locked_node is_source is_claim has_review_status positive_version
    check_version impacted_claims review_claims update_node reviewed rejected_metadata
    rejection_answer
reject_evidence p supply canvas g payload = do
  validate_keys ("op" ∷ "operation_key" ∷ "node_id" ∷ "expected_version" ∷ [])
      ("op" ∷ "operation_key" ∷ "node_id" ∷ "expected_version" ∷ []) [] payload
  id_value ← item "node_id" payload
  n ← locked_node p canvas g id_value
  refuse (not (is_source n.kind || is_claim n.kind)) 422 "invalid_evidence"
  refuse (has_review_status "provisional" n.metadata) 422 "invalid_evidence"
  refuse (has_review_status "rejected" n.metadata) 409 "evidence_already_rejected"
  version ← item "expected_version" payload
  expected ← positive_version version
  check_version n.version expected
  ok (
    rejection_answer canvas g n (impacted_claims canvas g n),
    record g {
      nodes =
          update_node n.id (reviewed n.version supply.now (rejected_metadata n.metadata))
            (review_claims canvas g n.id supply.now (impacted_claims canvas g n) g.nodes);
    },
  )
