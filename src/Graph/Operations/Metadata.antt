-- ===== src/Graph/Operations/Metadata.antt =====
-- proofgraph/graph/operations.py: the metadata that a request may write, for each kind of node.
use proofgraph.Base.{
  ℕ, String, Bool, true, false, not, ◌&&◌, ◌||◌, Option, none, some, List, [], ◌∷◌, ◌++◌, ◌+◌, ◌==◌,
  ltb, length, any, if◌then◌else◌, Error, Result, ok, err,
}
use proofgraph.Base.Checks.{◌>>=◌, ◌>>◌, refuse}
use proofgraph.Json.{Json, Items, Fields, get, codes}
use proofgraph.Graph.Tables.{NodeKind}
use proofgraph.Graph.Operations.Payload.{
  contains, any_key, validate_json_object, max_retained_source_chars, is_source_kind,
}

abbrev pub common_metadata_fields : List String
common_metadata_fields = "description" ∷ "notes" ∷ "summary" ∷ "tags" ∷ []

-- USER_METADATA_FIELDS
unfoldable pub user_metadata_fields : NodeKind → List String
user_metadata_fields NodeKind.goal =
    common_metadata_fields ++ "desired_outcome" ∷ "success_criteria" ∷ "target_user" ∷ []
user_metadata_fields NodeKind.constraint =
    common_metadata_fields ++ "category" ∷ "context_scope" ∷ "pinned" ∷ []
user_metadata_fields NodeKind.strategy =
    common_metadata_fields ++ "approach" ∷ "rationale" ∷ "target_segment" ∷ []
user_metadata_fields NodeKind.source = common_metadata_fields
user_metadata_fields NodeKind.claim =
    common_metadata_fields
    ++ "claim_type" ∷ "contradiction_target_key" ∷ "mechanism_tags" ∷ "topic_keys" ∷ []
user_metadata_fields NodeKind.opportunity =
    common_metadata_fields
    ++ "business_model" ∷ "builder_fit" ∷ "buyer" ∷ "current_spend_or_workaround" ∷ "defensibility"
      ∷ "distribution_channel" ∷ "distribution_rationale" ∷ "mechanism" ∷ "operational_burden"
      ∷ "problem" ∷ "technical_feasibility" ∷ []
user_metadata_fields NodeKind.assumption = common_metadata_fields ++ "category" ∷ "importance" ∷ []
user_metadata_fields NodeKind.risk =
    common_metadata_fields ++ "category" ∷ "impact" ∷ "likelihood" ∷ "mitigation" ∷ []
user_metadata_fields NodeKind.validation_experiment =
    common_metadata_fields
    ++ "success_criteria" ∷ "hypothesis" ∷ "method" ∷ "metric" ∷ "timebox" ∷ []
user_metadata_fields NodeKind.generation_placeholder = common_metadata_fields

abbrev pub server_owned_metadata_fields : List String
server_owned_metadata_fields =
    "accepted_by_operation_id" ∷ "canonical_url" ∷ "content_hash" ∷ "evidence"
    ∷ "eligible_independence_keys" ∷ "eligible_source_ids" ∷ "generated_by_run_id"
    ∷ "generation_run_id" ∷ "independence_key" ∷ "lineage" ∷ "model" ∷ "prompt_version"
    ∷ "provenance" ∷ "provenance_node_ids" ∷ "publisher" ∷ "regenerated_from_node_id"
    ∷ "regeneration_scope" ∷ "rejected_by_operation_id" ∷ "replacement_node_id" ∷ "retrieved_at"
    ∷ "review_status" ∷ "reviewed_by_operation_id" ∷ "source_id" ∷ "source_ids" ∷ "stale"
    ∷ "stale_since_revision" ∷ "staleness_causes" ∷ "status" ∷ "support_status"
    ∷ "support_reviewed_by_operation_id" ∷ "supported" ∷ "speculative" ∷ "url" ∷ []

abbrev pub server_owned_metadata_prefixes : List String
server_owned_metadata_prefixes =
    "generated_" ∷ "generation_" ∷ "lineage_" ∷ "provenance_" ∷ "regeneration_" ∷ "source_"
    ∷ "stale_" ∷ "support_" ∷ []

abbrev pub server_owned_node_fields : List String
server_owned_node_fields =
    "stale" ∷ "stale_since_revision" ∷ "canvas_id" ∷ "context_content_hash"
    ∷ "context_representation_version" ∷ "context_token_count" ∷ "created_at" ∷ "id" ∷ "kind"
    ∷ "position_updated_at" ∷ "position_version" ∷ "semantic_updated_at" ∷ "updated_at" ∷ "version"
    ∷ []

abbrev pub server_owned_edge_fields : List String
server_owned_edge_fields = "canvas_id" ∷ "created_at" ∷ "id" ∷ "updated_at" ∷ "version" ∷ []

-- s.startswith(prefix), on the code points.
unfoldable pub starts_with : List ℕ → List ℕ → Bool
starts_with s [] = true
starts_with [] (p ∷ prefix) = false
starts_with (c ∷ s) (p ∷ prefix) = c == p && starts_with s prefix

-- _is_server_owned_metadata
unfoldable pub is_server_owned_metadata : String → Bool
unfolding contains any starts_with
is_server_owned_metadata field =
    contains field server_owned_metadata_fields
    || any (λ (prefix : String). starts_with (codes field) (codes prefix))
        server_owned_metadata_prefixes

-- The check of one text field of a source.
unfoldable pub check_source_text : String → Fields → Result (Unit {0})
unfolding get
check_source_text field metadata = elim (get field metadata) [
  | some (Json.text s) ↦
      refuse (ltb max_retained_source_chars (length (codes s))) 422 "retention_policy_violation"
  | none ↦ ok tt
  | some Json.null ↦ ok tt
  | _ ↦ err (Error.api 422 "retention_policy_violation")
]

-- The characters of the tags; none if one is no text.
unfoldable pub tags_length : Items → Option ℕ
tags_length Items.nil = some 0
tags_length (Items.cons (Json.text s) rest) = elim (tags_length rest) [
  | none ↦ none
  | some n ↦ some (length (codes s) + n)
]
tags_length (Items.cons _ rest) = none

unfoldable pub check_source_tags : Fields → Result (Unit {0})
unfolding get tags_length
check_source_tags metadata = elim (get "tags" metadata) [
  | none ↦ ok tt
  | some Json.null ↦ ok tt
  | some (Json.arr tags) ↦ elim (tags_length tags) [
    | none ↦ err (Error.api 422 "retention_policy_violation")
    | some n ↦ refuse (ltb max_retained_source_chars n) 422 "retention_policy_violation"
  ]
  | _ ↦ err (Error.api 422 "retention_policy_violation")
]

unfoldable pub check_source_metadata : NodeKind → Fields → Result (Unit {0})
unfolding is_source_kind check_source_text check_source_tags
check_source_metadata kind metadata =
    if is_source_kind kind
    then check_source_text "description" metadata
      >> check_source_text "notes" metadata
      >> check_source_text "summary" metadata
      >> check_source_tags metadata
    else ok tt

-- _validate_metadata
unfoldable pub validate_metadata : NodeKind → Json → Result Fields
unfolding validate_json_object any_key is_server_owned_metadata contains user_metadata_fields
    check_source_metadata
validate_metadata kind metadata = do
  fields ← validate_json_object metadata
  refuse (any_key is_server_owned_metadata fields) 403 "server_owned_field"
  refuse (any_key (λ field. not (contains field (user_metadata_fields kind))) fields) 422
      "wrong_kind_field"
  check_source_metadata kind fields
  ok fields
