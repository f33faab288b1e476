-- ===== src/Examples/Graph.antt =====
-- The graph at concrete inputs.
use proofgraph.Base.{
  ℕ, String, ◌≡◌, refl, ◌↔◌, Bool, true, false, Option, none, some, List, [], ◌∷◌, if◌then◌else◌,
  str_eq,
}
use proofgraph.Json.{Json, Fields}
use proofgraph.Graph.Ids.{member, Increasing}
use proofgraph.Graph.Tables.{NodeKind, EdgeKind, Node, Edge, OriginType}
use proofgraph.Graph.Traversal.{reachable_dependents, dependencies}
use proofgraph.Graph.Traversal.Reach.{Dependent, reachable_dependents_exact}
use proofgraph.Graph.Queries.{GraphStore, find_edge, descendant_of}
use proofgraph.Graph.Staleness.{
  InvalidationCapture, parsed_uuid, operation_of, capture_direct_invalidation,
  resolve_direct_invalidation,
}
use proofgraph.Graph.Staleness.Resolving.{edge_update_resolved}
use proofgraph.Graph.Staleness.Marking.{cause_of, apply_staleness}
use proofgraph.Graph.Staleness.Marking.Consistency.{
  has_cause, Consistent, apply_staleness-Consistent,
}
use proofgraph.Graph.Staleness.Marking.Reports.{Reported, apply_staleness-Reported}

abbrev edge : ℕ → ℕ → EdgeKind → Edge
edge source target kind = record {
  id = 50;
  canvas_id = 7;
  source_id = source;
  target_id = target;
  kind = kind;
  metadata = Fields.end;
  version = 1;
  created_at = 0;
  updated_at = 0;
}

-- 1 → 2 → 3 → 1, and claim 4 extracted from source 3.
abbrev ring : List Edge
ring =
    edge 1 2 EdgeKind.supports
    ∷ edge 2 3 EdgeKind.derived_from
    ∷ edge 3 1 EdgeKind.evolves_into
    ∷ edge 4 3 EdgeKind.extracted_from
    ∷ []

ring_dependents : reachable_dependents 7 ring (1 ∷ []) false [] ≡ some (2 ∷ 3 ∷ 4 ∷ [])
unfolding reachable_dependents
ring_dependents = refl

reachable_dependents_exact_example :
    (found : List ℕ) × (reachable_dependents 7 ring (1 ∷ []) false (3 ∷ []) ≡ some found)
    × Increasing found
    × ((n : ℕ)
        → (member n found ≡ true) ↔ Dependent (dependencies 7 ring) (1 ∷ []) false (3 ∷ []) n)
reachable_dependents_exact_example = reachable_dependents_exact 7 ring (1 ∷ []) false (3 ∷ [])

abbrev row : ℕ → Bool → Node
row id stale = record {
  id = id;
  canvas_id = 7;
  kind = NodeKind.claim;
  title = "a claim";
  body = none;
  metadata = Fields.end;
  branch_root_id = none;
  position = Fields.end;
  stale = stale;
  stale_since_revision = none;
  version = 1;
  position_version = 1;
  context_token_count = none;
  context_representation_version = 1;
  context_content_hash = none;
  created_at = 0;
  semantic_updated_at = 0;
  position_updated_at = 0;
  updated_at = 0;
}

-- The ring, with its nodes; node 4 is stale for an earlier operation.
abbrev canvas : GraphStore
canvas = record {
  nodes = row 1 false ∷ row 2 false ∷ row 4 true ∷ [];
  edges = ring;
  causes = cause_of 7 30 OriginType.node 3 5 (row 4 true) ∷ [];
}

abbrev uuid_of : String → Option ℕ
uuid_of s = if str_eq s "two" then some 2 else some 50

abbrev update : Fields
update =
    Fields.field "op" (Json.text "UPDATE_EDGE")
      (Fields.field "edge_id" (Json.text "edge") Fields.end)

edge_update_resolved_example :
    (capture : Option InvalidationCapture) × (capture_direct_invalidation uuid_of 7 canvas update
      ≡ some capture)
    × (found : List ℕ) × (resolve_direct_invalidation uuid_of 7
          (record canvas { edges = edge 1 4 EdgeKind.supports ∷ [] })
          update
          capture
        ≡ some found)
    × Increasing found
    × ((n : ℕ)
        → (member n found ≡ true)
          ↔ Dependent (dependencies 7 (edge 1 4 EdgeKind.supports ∷ [])) (4 ∷ 2 ∷ []) true [] n)
unfolding operation_of parsed_uuid find_edge descendant_of
edge_update_resolved_example =
    edge_update_resolved uuid_of 7 update canvas
      (record canvas { edges = edge 1 4 EdgeKind.supports ∷ [] }) 50 (edge 1 2 EdgeKind.supports)
      (edge 1 4 EdgeKind.supports) refl refl refl refl

apply_staleness-Consistent_example :
    Consistent (apply_staleness 7 (2 ∷ 4 ∷ []) 31 OriginType.node 1 9 6 canvas).1
unfolding has_cause member cause_of
apply_staleness-Consistent_example =
    apply_staleness-Consistent 7 (2 ∷ 4 ∷ []) 31 OriginType.node 1 9 6 canvas
      (refl, (refl, (refl, tt))) (refl, (refl, (refl, tt)))

apply_staleness-Reported_example :
    Reported 7
      (2 ∷ 4 ∷ [])
      9
      6
      canvas.nodes
      (apply_staleness 7 (2 ∷ 4 ∷ []) 31 OriginType.node 1 9 6 canvas).1.nodes
      (apply_staleness 7 (2 ∷ 4 ∷ []) 31 OriginType.node 1 9 6 canvas).0
unfolding member
apply_staleness-Reported_example =
    apply_staleness-Reported 7 (2 ∷ 4 ∷ []) 31 OriginType.node 1 9 6 canvas
      (refl, (refl, (refl, tt)))
