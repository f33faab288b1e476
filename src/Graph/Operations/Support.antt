-- ===== src/Graph/Operations/Support.antt =====
-- proofgraph/graph/operations.py: the support of claims by sources, as rejecting evidence finds it.
use proofgraph.Base.{
  ℕ, ◌+◌, String, Bool, true, false, not, ◌&&◌, ◌||◌, none, some, List, [], ◌∷◌, map, ◌==◌, ltb,
  str_eq, length, keep, if◌then◌else◌,
}
use proofgraph.Json.{Json, Items, Fields, get, put, codes}
use proofgraph.Graph.Ids.{sorted}
use proofgraph.Graph.Tables.{Node, Edge}
use proofgraph.Graph.Queries.{
  GraphStore, is_claim, is_source, is_extracted_from, node_kind_is, sources_into,
}
use proofgraph.Graph.Staleness.Marking.{is_rejected, order_by_id, is_selected, node_ids}
use proofgraph.Graph.Operations.Payload.{is_empty_text}
use proofgraph.Graph.Operations.Serialization.{id_items}
use proofgraph.Graph.Operations.Rows.{update_node}

-- metadata.get("review_status") == status
unfoldable pub has_review_status : String → Fields → Bool
unfolding get
has_review_status status metadata = elim (get "review_status" metadata) [
  | some (Json.text s) ↦ str_eq s status
  | _ ↦ false
]

-- The nodes of some ids on a canvas that are not rejected, in the order of their ids.
unfoldable pub reviewable : ℕ → List ℕ → List Node → List Node
unfolding order_by_id keep is_selected is_rejected
reviewable canvas ids nodes =
    order_by_id
      (keep (λ (n : Node). is_selected canvas ids n && not (is_rejected n.metadata)) nodes)

-- The claims that a rejected source carries.
unfoldable pub impacted_claims : ℕ → GraphStore → Node → List Node
unfolding reviewable sources_into is_source
impacted_claims canvas g evidence =
    if is_source evidence.kind
    then reviewable canvas (sources_into is_extracted_from is_claim canvas evidence.id g) g.nodes
    else []

-- The sources that a claim is extracted from, other than the rejected one.
unfoldable pub other_sources : ℕ → GraphStore → ℕ → ℕ → List ℕ
unfolding keep node_kind_is sorted
other_sources canvas g evidence_id claim_id = sorted (
    map (λ (e : Edge). e.target_id)
      (keep
        (λ (e : Edge).
          e.canvas_id == canvas
          && is_extracted_from e.kind
          && e.source_id == claim_id
          && node_kind_is is_source g.nodes e.target_id
          && not (e.target_id == evidence_id))
        g.edges))

unfoldable pub eligible_sources : ℕ → GraphStore → ℕ → ℕ → List Node
unfolding order_by_id keep is_selected other_sources has_review_status
eligible_sources canvas g evidence_id claim_id = order_by_id (
    keep
      (λ (n : Node).
        is_selected canvas (other_sources canvas g evidence_id claim_id) n
        && not
            (has_review_status "provisional" n.metadata || has_review_status "rejected" n.metadata))
      g.nodes)

-- The order of texts by code points.
unfoldable pub text_before : List ℕ → List ℕ → Bool
text_before [] [] = false
text_before [] (d ∷ t) = true
text_before (c ∷ s) [] = false
text_before (c ∷ s) (d ∷ t) = ltb c d || (c == d && text_before s t)

unfoldable pub insert_text : String → List String → List String
unfolding text_before
insert_text s [] = s ∷ []
insert_text s (t ∷ texts) =
    let rest = insert_text s texts in
    if str_eq s t
    then t ∷ texts
    else (if text_before (codes s) (codes t) then s ∷ t ∷ texts else t ∷ rest)

-- sorted({...}) of the independence keys that are non-empty texts.
unfoldable pub independence_keys : List Node → List String
unfolding get insert_text is_empty_text
independence_keys [] = []
independence_keys (n ∷ nodes) =
    let rest = independence_keys nodes in
    elim (get "independence_key" n.metadata) [
      | some (Json.text s) ↦ if is_empty_text s then rest else insert_text s rest
      | _ ↦ rest
    ]

unfoldable pub text_items : List String → Items
text_items [] = Items.nil
text_items (s ∷ texts) = Items.cons (Json.text s) (text_items texts)

-- The metadata of a claim with the sources that are left to it.
unfoldable pub supported_by : List Node → Fields → Fields
unfolding put id_items text_items independence_keys
supported_by sources metadata =
    put "independent_support_count" (Json.num (length (independence_keys sources))) (
      put "eligible_independence_keys" (Json.arr (text_items (independence_keys sources)))
        (put "eligible_source_ids" (Json.arr (id_items (node_ids sources))) metadata))

unfoldable pub has_none : List Node → Bool
has_none [] = true
has_none (n ∷ nodes) = false

unfoldable pub rejected_metadata : Fields → Fields
unfolding put
rejected_metadata metadata = put "review_status" (Json.text "rejected") metadata

-- The fields that the review of a node writes.
unfoldable pub reviewed : ℕ → ℕ → Fields → Node → Node
reviewed version now metadata n = record n {
  metadata = metadata;
  version = version + 1;
  context_token_count = none;
  context_content_hash = none;
  semantic_updated_at = now;
  updated_at = now;
}

unfoldable pub claim_metadata : List Node → Fields → Fields
unfolding has_none rejected_metadata supported_by
claim_metadata sources metadata =
    if has_none sources
    then rejected_metadata (supported_by sources metadata)
    else supported_by sources metadata

-- bulk_update of the impacted claims, each from the row that was read.
unfoldable pub review_claims : ℕ → GraphStore → ℕ → ℕ → List Node → List Node → List Node
unfolding update_node reviewed claim_metadata eligible_sources
review_claims canvas g evidence_id now [] nodes = nodes
review_claims canvas g evidence_id now (c ∷ claims) nodes =
    review_claims canvas g evidence_id now claims (
      update_node c.id
        (reviewed c.version now
          (claim_metadata (eligible_sources canvas g evidence_id c.id) c.metadata))
        nodes)

unfoldable pub loses_support : ℕ → GraphStore → ℕ → Node → Bool
unfolding has_none eligible_sources
loses_support canvas g evidence_id claim = has_none (eligible_sources canvas g evidence_id claim.id)
