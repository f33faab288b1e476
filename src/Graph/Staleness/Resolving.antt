-- ===== src/Graph/Staleness/Resolving.antt =====
-- What a captured invalidation resolves to once the operation is done.
use proofgraph.Base.{ℕ, String, ◌≡◌, refl, ◌↔◌, true, Option, some, List, [], ◌∷◌}
use proofgraph.Json.{Fields}
use proofgraph.Graph.Ids.{member, Increasing}
use proofgraph.Graph.Tables.{Edge}
use proofgraph.Graph.Traversal.{dependencies}
use proofgraph.Graph.Traversal.Reach.{Dependent, reachable_dependents_exact}
use proofgraph.Graph.Queries.{GraphStore, find_edge, descendant_of}
use proofgraph.Graph.Staleness.{
  InvalidationCapture, parsed_uuid, operation_of, edge_capture, capture_edge, capture_operation,
  capture_direct_invalidation, updated_roots, resolve_direct_invalidation,
}

module _ (uuid_of : String → Option ℕ) (canvas : ℕ) (payload : Fields)
    (before after : GraphStore) where
  -- Updating an edge, by an operation that names it, of an edge that is there before and after: what is invalid afterwards are the nodes that
  -- depended on it before, those that depend on it now, and all that is reached from these along
  -- the dependencies as they are now.
  pub edge_update_resolved :
      (edge_id : ℕ) (old new : Edge)
      → operation_of payload ≡ some "UPDATE_EDGE"
      → parsed_uuid uuid_of "edge_id" payload ≡ some edge_id
      → find_edge canvas edge_id before.edges ≡ some old
      → find_edge canvas edge_id after.edges ≡ some new
      → (capture : Option InvalidationCapture) × (capture_direct_invalidation uuid_of canvas before
            payload
          ≡ some capture)
        × (found : List ℕ) × (resolve_direct_invalidation uuid_of canvas after payload capture
            ≡ some found)
        × Increasing found
        × ((n : ℕ)
            → (member n found ≡ true)
              ↔ Dependent
                  (dependencies canvas after.edges)
                  (descendant_of new ∷ descendant_of old ∷ [])
                  true
                  []
                  n)
  unfolding capture_direct_invalidation capture_operation capture_edge resolve_direct_invalidation
      updated_roots
  edge_update_resolved edge_id old new op named was now =
      let (found, run, increasing, exact) =
        reachable_dependents_exact canvas after.edges (descendant_of new ∷ descendant_of old ∷ [])
          true [] in
      (
        some (edge_capture old),
        rw (op, capture_direct_invalidation, named, was) refl,
        found,
        rw (op, updated_roots, named, now) run,
        increasing,
        exact,
      )
