-- ===== src/Graph/Operations/Assumptions.antt =====
-- proofgraph/graph/operations.py: replacing an assumption.
use proofgraph.Base.{
  ℕ, ◌+◌, String, Bool, true, false, not, Option, none, some, List, [], ◌∷◌, keep, Error, Result,
  ok, err,
}
use proofgraph.Base.Checks.{◌>>=◌, ◌>>◌, refuse}
use proofgraph.Json.{Json, Fields, get}
use proofgraph.Graph.Ids.{member}
use proofgraph.Graph.Tables.{NodeKind, Node}
use proofgraph.Graph.Queries.{GraphStore, is_opportunity, is_derived_from, sources_into}
use proofgraph.Graph.Staleness.Marking.{order_by_id}
use proofgraph.Graph.Operations.Payload.{
  validate_keys, item, positive_version, validate_title, validate_body, validate_json_object,
}
use proofgraph.Graph.Operations.Serialization.{
  fields_of, id_json, optional_json_text, serialize_node,
}
use proofgraph.Graph.Operations.Support.{has_review_status}
use proofgraph.Graph.Operations.Changes.{Handled}
use proofgraph.Graph.Operations.Rows.{Platform, Supply, locked_node, check_version, update_node}

unfoldable pub is_assumption : NodeKind → Bool
is_assumption NodeKind.assumption = true
is_assumption _ = false

-- The fields that a replacement writes.
unfoldable pub replaced : ℕ → ℕ → String → Option String → Node → Node
replaced version now title body n = record n {
  title = title;
  body = body;
  version = version + 1;
  context_token_count = none;
  context_content_hash = none;
  semantic_updated_at = now;
  updated_at = now;
}

-- The body of a replacement; its title, where it has none.
unfoldable pub replacement_body : NodeKind → String → Fields → Result (Option String)
unfolding get validate_body
replacement_body kind title replacement = elim (get "body" replacement) [
  | none ↦ ok (some title)
  | some value ↦ validate_body kind value
]

-- The opportunities that an assumption belongs to.
unfoldable pub owners_of : ℕ → GraphStore → ℕ → List Node
unfolding sources_into order_by_id keep member
owners_of canvas g assumption_id = order_by_id (
    keep
      (λ (n : Node).
        member n.id (sources_into is_derived_from is_opportunity canvas assumption_id g))
      g.nodes)

unfoldable pub only_owner : List Node → Result Node
only_owner (owner ∷ []) = ok owner
only_owner _ = err (Error.api 422 "invalid_assumption_lineage")

unfoldable pub replacement_answer : Platform → Node → Node → Node → Fields
unfolding serialize_node
replacement_answer p old new owner = fields_of (
    ("node", Json.obj (serialize_node p.iso new))
    ∷ (
      "previous_assumption",
      Json.obj (
          fields_of (
            ("title", Json.text old.title)
            ∷ ("body", optional_json_text old.body)
            ∷ ("version", Json.num old.version)
            ∷ ("opportunity_id", id_json owner.id)
            ∷ [])),
    )
    ∷ ("opportunity_id", id_json owner.id)
    ∷ [])

-- _replace_assumption
unfoldable pub replace_assumption : Platform → Supply → ℕ → GraphStore → Fields → Handled
unfolding validate_keys item locked_node is_assumption has_review_status positive_version
    check_version validate_json_object owners_of only_owner validate_title replacement_body replaced
    update_node replacement_answer
replace_assumption p supply canvas g payload = do
  validate_keys ("op" ∷ "operation_key" ∷ "node_id" ∷ "expected_version" ∷ "replacement" ∷ [])
      ("op" ∷ "operation_key" ∷ "node_id" ∷ "expected_version" ∷ "replacement" ∷ []) [] payload
  id_value ← item "node_id" payload
  n ← locked_node p canvas g id_value
  refuse (not (is_assumption n.kind)) 422 "invalid_assumption"
  refuse (not (has_review_status "accepted" n.metadata)) 422 "invalid_assumption"
  version ← item "expected_version" payload
  expected ← positive_version version
  check_version n.version expected
  value ← item "replacement" payload
  replacement ← validate_json_object value
  validate_keys ("title" ∷ "body" ∷ []) ("title" ∷ []) [] replacement
  owner ← only_owner (owners_of canvas g n.id)
  title_value ← item "title" replacement
  title ← validate_title n.kind title_value
  body ← replacement_body n.kind title replacement
  ok (
    replacement_answer p n (replaced n.version supply.now title body n) owner,
    record g { nodes = update_node n.id (replaced n.version supply.now title body) g.nodes },
  )
