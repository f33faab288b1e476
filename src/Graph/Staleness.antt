-- ===== src/Graph/Staleness.antt =====
-- proofgraph/graph/staleness.py: what an operation on the canvas invalidates, and marking it.
-- `uuid_of` is the reading of a text by uuid.UUID, none where it raises ValueError. A search that
-- ran out of its fuel would be `none` outside; inside, `none` is Python's None.
pub mod Resolving
pub mod Marking
use proofgraph.Base.{
  ℕ, ◌+◌, String, Bool, true, false, not, ◌&&◌, ◌||◌, Option, none, some, List, [], ◌∷◌, ◌++◌, map,
  ◌==◌, str_eq, leb, any, keep, if◌then◌else◌,
}
use proofgraph.Json.{Json, Fields, get}
use proofgraph.Graph.Ids.{member, sorted}
use proofgraph.Graph.Tables.{NodeKind, EdgeKind, Node, Edge, OriginType, NodeStalenessCause}
use proofgraph.Graph.Queries.{
  GraphStore, find_edge, find_node, descendant_of, is_claim, is_source, is_opportunity,
  is_derived_from, is_extracted_from, sources_into,
}
use proofgraph.Graph.Traversal.{dependency_pair, reachable_dependents}

pub record InvalidationCapture : Type 0 where
  pub origin_entity_type : OriginType
  pub origin_entity_id : ℕ
  pub traversal_roots : List ℕ
  pub include_roots : Bool
  pub excluded_node_ids : List ℕ
  pub precomputed_node_ids : List ℕ

-- _parsed_uuid(payload.get(key))
unfoldable pub parsed_uuid : (String → Option ℕ) → String → Fields → Option ℕ
unfolding get
parsed_uuid uuid_of key payload = elim (get key payload) [
  | some (Json.text s) ↦ uuid_of s
  | _ ↦ none
]

-- payload.get("op"), where it is a text.
unfoldable pub operation_of : Fields → Option String
unfolding get
operation_of payload = elim (get "op" payload) [ some (Json.text s) ↦ some s | _ ↦ none ]

-- UPDATE_NODE and PATCH_NODE_METADATA
unfoldable pub capture_update : ℕ → InvalidationCapture
capture_update node_id = record {
  origin_entity_type = OriginType.node;
  origin_entity_id = node_id;
  traversal_roots = node_id ∷ [];
  include_roots = false;
  excluded_node_ids = node_id ∷ [];
  precomputed_node_ids = [];
}

-- DELETE_NODE
unfoldable pub deletion_capture : ℕ → List ℕ → InvalidationCapture
deletion_capture node_id affected = record {
  origin_entity_type = OriginType.node;
  origin_entity_id = node_id;
  traversal_roots = [];
  include_roots = false;
  excluded_node_ids = [];
  precomputed_node_ids = affected;
}

unfoldable pub capture_deletion : ℕ → GraphStore → ℕ → Option (Option InvalidationCapture)
unfolding reachable_dependents deletion_capture
capture_deletion canvas g node_id =
    elim (reachable_dependents canvas g.edges (node_id ∷ []) false (node_id ∷ [])) [
      | none ↦ none
      | some affected ↦ some (some (deletion_capture node_id affected))
    ]

-- UPDATE_EDGE and DELETE_EDGE
unfoldable pub edge_capture : Edge → InvalidationCapture
unfolding descendant_of
edge_capture e = record {
  origin_entity_type = OriginType.edge;
  origin_entity_id = e.id;
  traversal_roots = descendant_of e ∷ [];
  include_roots = true;
  excluded_node_ids = [];
  precomputed_node_ids = [];
}

unfoldable pub capture_edge : Option Edge → Option InvalidationCapture
unfolding edge_capture
capture_edge none = none
capture_edge (some e) = some (edge_capture e)

-- REPLACE_ASSUMPTION
unfoldable pub capture_assumption : ℕ → GraphStore → ℕ → InvalidationCapture
unfolding sources_into
capture_assumption canvas g assumption_id = record {
  origin_entity_type = OriginType.node;
  origin_entity_id = assumption_id;
  traversal_roots = sources_into is_derived_from is_opportunity canvas assumption_id g;
  include_roots = true;
  excluded_node_ids = assumption_id ∷ [];
  precomputed_node_ids = [];
}

-- REJECT_EVIDENCE: a source with the claims extracted from it, or a claim.
unfoldable pub evidence_roots : ℕ → GraphStore → Node → List ℕ
unfolding sources_into is_source
evidence_roots canvas g evidence =
    if is_source evidence.kind
    then evidence.id ∷ sources_into is_extracted_from is_claim canvas evidence.id g
    else evidence.id ∷ []

unfoldable pub capture_evidence : ℕ → GraphStore → Option Node → Option InvalidationCapture
unfolding evidence_roots is_source is_claim
capture_evidence canvas g none = none
capture_evidence canvas g (some evidence) =
    if is_source evidence.kind || is_claim evidence.kind
    then some record {
      origin_entity_type = OriginType.node;
      origin_entity_id = evidence.id;
      traversal_roots = evidence_roots canvas g evidence;
      include_roots = false;
      excluded_node_ids = evidence_roots canvas g evidence;
      precomputed_node_ids = [];
    }
    else none

unfoldable pub with_id :
    Option ℕ → (ℕ → Option (Option InvalidationCapture)) → Option (Option InvalidationCapture)
with_id none capture = some none
with_id (some id) capture = capture id

unfoldable pub capture_operation :
    ℕ → GraphStore → String → Option ℕ → Option ℕ → Option (Option InvalidationCapture)
unfolding with_id capture_update capture_deletion capture_edge capture_assumption capture_evidence
    find_edge find_node
capture_operation canvas g op node_id edge_id =
    if str_eq op "UPDATE_NODE" || str_eq op "PATCH_NODE_METADATA"
    then with_id node_id (λ id. some (some (capture_update id)))
    else (if str_eq op "DELETE_NODE"
        then with_id node_id (capture_deletion canvas g)
        else (if str_eq op "UPDATE_EDGE" || str_eq op "DELETE_EDGE"
            then with_id edge_id (λ id. some (capture_edge (find_edge canvas id g.edges)))
            else (if str_eq op "REPLACE_ASSUMPTION"
                then with_id node_id (λ id. some (some (capture_assumption canvas g id)))
                else (if str_eq op "REJECT_EVIDENCE"
                    then with_id node_id
                        (λ id. some (capture_evidence canvas g (find_node canvas id g.nodes)))
                    else some none))))

unfoldable pub capture_direct_invalidation :
    (String → Option ℕ) → ℕ → GraphStore → Fields → Option (Option InvalidationCapture)
unfolding operation_of capture_operation parsed_uuid
capture_direct_invalidation uuid_of canvas g payload = elim (operation_of payload) [
  | none ↦ some none
  | some op ↦
      capture_operation canvas g op (parsed_uuid uuid_of "node_id" payload)
        (parsed_uuid uuid_of "edge_id" payload)
]

-- The root that an updated edge adds: its dependent end as it is now.
unfoldable pub updated_roots : (String → Option ℕ) → ℕ → GraphStore → Fields → List ℕ
unfolding operation_of parsed_uuid find_edge descendant_of
updated_roots uuid_of canvas g payload = elim (operation_of payload) [
  | none ↦ []
  | some op ↦
      if str_eq op "UPDATE_EDGE"
      then elim (parsed_uuid uuid_of "edge_id" payload) [
        | none ↦ []
        | some id ↦ elim (find_edge canvas id g.edges) [ none ↦ [] | some e ↦ descendant_of e ∷ [] ]
      ]
      else []
]

unfoldable pub resolve_direct_invalidation :
    (String → Option ℕ) → ℕ → GraphStore → Fields → Option InvalidationCapture → Option (List ℕ)
unfolding updated_roots reachable_dependents
resolve_direct_invalidation uuid_of canvas g payload none = some []
resolve_direct_invalidation uuid_of canvas g payload (some c) = elim c.precomputed_node_ids [
  | n ∷ rest ↦ some (n ∷ rest)
  | [] ↦
      reachable_dependents canvas g.edges
        (updated_roots uuid_of canvas g payload ++ c.traversal_roots) c.include_roots
        c.excluded_node_ids
]
