-- ===== src/Graph/Operations/Effects/Handlers.antt =====
-- What each handler does to the graph.
use proofgraph.Base.{
  not, ℕ, ◌≡◌, refl, sym, subst, Bool, true, false, some, ◌∷◌, ◌==◌, any, Bool-cases, inl, inr,
  ||_false,
}
use proofgraph.Base.Checks.{Holds, >>=-Holds, Holds-ok}
use proofgraph.Json.{Fields, get}
use proofgraph.Graph.Tables.{Node, Edge}
use proofgraph.Graph.Queries.{GraphStore, find_node}
use proofgraph.Graph.Staleness.Marking.Members.{UniqueNodes}
use proofgraph.Graph.Operations.Rows.{
  Platform, Supply, create_node, create_edge, update_node, is_constraint, has_node,
}
use proofgraph.Graph.Operations.Changes.{semantic_node_changes, merge, root_value_of}
use proofgraph.Graph.Operations.Nodes.{
  new_node, add_node, move_node, delete_node, is_incident, is_anchored_at,
}
use proofgraph.Graph.Operations.Edges.{new_edge, add_edge, update_edge_row, delete_edge}
use proofgraph.Graph.Operations.Assumptions.{replace_assumption}
use proofgraph.Graph.Operations.Support.{rejected_metadata}
use proofgraph.Graph.Operations.Review.{reject_evidence}
use proofgraph.Graph.Operations.Effects.{
  Change, has_root, node_added, nodes_rewritten, node_deleted, edge_added, edges_rewired,
  edge_deleted, UniqueEdges, has_node_id, has_edge_id, Rewritten, Rewired,
}
use proofgraph.Graph.Operations.Effects.Finding.{
  locked_node-Found, expected_node-Expected, expected_edge-Found, Expected, find_node-found,
  find_edge-found,
}
use proofgraph.Graph.Operations.Nodes.{body_of}
use proofgraph.Graph.Operations.Assumptions.{is_assumption}
use proofgraph.Graph.Operations.Effects.Texts.{
  Fits, FitsBody, validate_title-Fits, validate_body-Fits, title_after-Fits, body_after-Fits,
  assumption_other,
}
use proofgraph.Graph.Operations.Effects.Roots.{
  RootOf, constraint_root-RootOf, lock_endpoints-has_node, refuse-passed,
}
use proofgraph.Graph.Operations.Effects.Claims.{review_claims-Rewritten}
use proofgraph.Graph.Operations.Effects.Writes.{
  Pointwise-refl, Rewritten-refl, Rewired-refl, write_found, write_found_edge, revised-Rewritten,
  moved-Rewritten, replaced-Rewritten, reviewed-Rewritten, rewired-Rewired,
}

-- The tables of an answer are a change of those before.
abbrev pub Changed : ℕ → ℕ → GraphStore → Fields × GraphStore → Type 0
Changed canvas fresh g out = Change canvas fresh g out.1

abbrev Created : Node → GraphStore → GraphStore → Type 0
Created n g after = (has_node_id n.id g.nodes ≡ false) × (after ≡ record g { nodes = n ∷ g.nodes })

abbrev CreatedEdge : Edge → GraphStore → GraphStore → Type 0
CreatedEdge e g after =
    (has_edge_id e.id g.edges ≡ false) × (after ≡ record g { edges = e ∷ g.edges })

-- A row whose id is new.
create_node-new : (n : Node) (g : GraphStore) → Holds (Created n g) (create_node n g)
unfolding create_node has_node_id
create_node-new n g = elim (Bool-cases (any (λ (m : Node). m.id == n.id) g.nodes)) [
  | inl e ↦ rw e tt
  | inr e ↦ rw e (e, refl)
]

create_edge-new : (e : Edge) (g : GraphStore) → Holds (CreatedEdge e g) (create_edge e g)
unfolding create_edge has_edge_id
create_edge-new e g = elim (Bool-cases (any (λ (f : Edge). f.id == e.id) g.edges)) [
  | inl k ↦ rw k tt
  | inr k ↦ rw k (k, refl)
]

-- One row of the table written.
write_one :
    (canvas fresh : ℕ) (g : GraphStore) (n : Node) (write : Node → Node)
    → UniqueNodes g.nodes
    → find_node canvas n.id g.nodes ≡ some n
    → ((y : Node) → Rewritten canvas g.nodes n y → Rewritten canvas g.nodes n (write y))
    → Change canvas fresh g (record g { nodes = update_node n.id write g.nodes })
write_one canvas fresh g n write u found step = nodes_rewritten _ (
    write_found canvas g.nodes g.nodes n write u found step
      (Pointwise-refl (Rewritten canvas g.nodes) (Rewritten-refl canvas g.nodes) g.nodes))

module _ (p : Platform) (supply : Supply) (canvas : ℕ) (g : GraphStore) (payload : Fields) where
  pub add_node-Changed :
      Holds (Changed canvas supply.fresh_id g) (add_node p supply canvas g payload)
  unfolding add_node new_node
  add_node-Changed = >>=-Holds _ _ _ λ a e. >>=-Holds _ _ _ λ b e. >>=-Holds _ _ _ λ node_data e.
      >>=-Holds _ _ _ λ c e. >>=-Holds _ _ _ λ d e. >>=-Holds _ _ _ λ kind e.
        >>=-Holds _ _ _ λ metadata e. >>=-Holds _ _ _ λ root rooted. >>=-Holds _ _ _ λ position e.
          >>=-Holds _ _ _ λ title_value e. >>=-Holds _ _ _ λ title titled.
            >>=-Holds _ _ _ λ body worded. >>=-Holds _ _ _ λ after created.
              let n = new_node supply canvas kind title body metadata root position in
              let (fresh, same) = Holds-ok (Created n g) _ after (create_node-new n g) created in
              subst (Change canvas supply.fresh_id g) (sym same) (
                node_added n refl fresh refl refl
                  (Holds-ok (RootOf canvas g.nodes kind) _ root
                    (constraint_root-RootOf p canvas g kind metadata
                      (get "branch_root_node_id" node_data))
                    rooted)
                  (λ source. (
                    Holds-ok (Fits kind) _ title (validate_title-Fits kind title_value) titled
                        source,
                    λ s k.
                        Holds-ok (FitsBody kind) _ body
                          (validate_body-Fits kind (body_of node_data)) worded s k source,
                  )))

  pub semantic_node_changes-Changed :
      (metadata_only : Bool)
      → UniqueNodes g.nodes
      → Holds
          (Changed canvas supply.fresh_id g)
          (semantic_node_changes metadata_only p supply canvas g payload)
  unfolding semantic_node_changes
  semantic_node_changes-Changed metadata_only u = >>=-Holds _ _ _ λ a e.
      >>=-Holds _ _ _ λ n expected. >>=-Holds _ _ _ λ changes e. >>=-Holds _ _ _ λ b e.
        >>=-Holds _ _ _ λ c e. >>=-Holds _ _ _ λ d e. >>=-Holds _ _ _ λ f e.
          >>=-Holds _ _ _ λ patch e. >>=-Holds _ _ _ λ root rooted. >>=-Holds _ _ _ λ title titled.
            >>=-Holds _ _ _ λ body worded.
              let (found, version) =
                Holds-ok (Expected canvas g payload) _ n (expected_node-Expected p canvas g payload)
                  expected in
              write_one canvas supply.fresh_id g n _ u found (
                revised-Rewritten canvas g.nodes n found supply.now title body
                  (merge n.metadata patch) root
                  (λ r k.
                    subst (λ id. (is_constraint n.kind ≡ true) × (has_root id r g.nodes ≡ true))
                      (sym (find_node-found canvas n.id g.nodes n found).1)
                      (Holds-ok (RootOf canvas g.nodes n.kind) _ root
                        (constraint_root-RootOf p canvas g n.kind (merge n.metadata patch)
                          (root_value_of n (merge n.metadata patch) changes))
                        rooted r k))
                  (λ brief source. (
                    Holds-ok (Fits n.kind) _ title (title_after-Fits n changes brief) titled source,
                    λ s k.
                        Holds-ok (FitsBody n.kind) _ body (body_after-Fits n changes brief) worded s
                          k source,
                  )))

  pub move_node-Changed :
      UniqueNodes g.nodes
      → Holds (Changed canvas supply.fresh_id g) (move_node p supply canvas g payload)
  unfolding move_node
  move_node-Changed u = >>=-Holds _ _ _ λ a e. >>=-Holds _ _ _ λ id_value e.
      >>=-Holds _ _ _ λ n locked. >>=-Holds _ _ _ λ b e. >>=-Holds _ _ _ λ c e.
        >>=-Holds _ _ _ λ d e. >>=-Holds _ _ _ λ f e. >>=-Holds _ _ _ λ position e.
          let found = Holds-ok _ _ _ (locked_node-Found p canvas g id_value) locked in
          write_one canvas supply.fresh_id g n _ u found
            (moved-Rewritten canvas g.nodes n found supply.now position)

  pub delete_node-Changed :
      Holds (Changed canvas supply.fresh_id g) (delete_node p supply canvas g payload)
  unfolding delete_node
  delete_node-Changed = >>=-Holds _ _ _ λ a e. >>=-Holds _ _ _ λ n expected.
      >>=-Holds _ _ _ λ t passed.
        let (found, version) =
          Holds-ok (Expected canvas g payload) _ n (expected_node-Expected p canvas g payload)
            expected in
        let (edges, nodes) =
          ||_false (any (is_incident canvas n.id) g.edges)
            (any (is_anchored_at canvas n.id) g.nodes)
            (Holds-ok _ _ t (refuse-passed _ 409 "node_has_dependencies") passed) in
        node_deleted n found edges nodes

  pub add_edge-Changed :
      Holds (Changed canvas supply.fresh_id g) (add_edge p supply canvas g payload)
  unfolding add_edge new_edge
  add_edge-Changed = >>=-Holds _ _ _ λ a e. >>=-Holds _ _ _ λ b e. >>=-Holds _ _ _ λ edge_data e.
      >>=-Holds _ _ _ λ c e. >>=-Holds _ _ _ λ source e. >>=-Holds _ _ _ λ target e.
        >>=-Holds _ _ _ λ ends locked. >>=-Holds _ _ _ λ metadata e. >>=-Holds _ _ _ λ d e.
          >>=-Holds _ _ _ λ kind e. >>=-Holds _ _ _ λ after created.
            let e = new_edge supply canvas ends.0 ends.1 kind metadata in
            let (fresh, same) = Holds-ok (CreatedEdge e g) _ after (create_edge-new e g) created in
            subst (Change canvas supply.fresh_id g) (sym same) (
              edge_added e refl fresh refl
                (Holds-ok _ _ ends (lock_endpoints-has_node p canvas g source target) locked))

  pub update_edge-Changed :
      UniqueEdges g.edges
      → Holds (Changed canvas supply.fresh_id g) (update_edge_row p supply canvas g payload)
  unfolding update_edge_row
  update_edge-Changed u = >>=-Holds _ _ _ λ a k. >>=-Holds _ _ _ λ e expected.
      >>=-Holds _ _ _ λ b k. >>=-Holds _ _ _ λ changes k. >>=-Holds _ _ _ λ c k.
        >>=-Holds _ _ _ λ d k. >>=-Holds _ _ _ λ ends locked. >>=-Holds _ _ _ λ kind k.
          >>=-Holds _ _ _ λ metadata k.
            let found = Holds-ok _ _ e (expected_edge-Found p canvas g payload) expected in
            edges_rewired _ (
              write_found_edge canvas g.nodes g.edges g.edges e _ u found
                (rewired-Rewired canvas g.nodes g.edges e supply.now ends.0 ends.1 kind metadata
                  found
                  (subst
                    (λ id.
                      (has_node id ends.0 g.nodes ≡ true) × (has_node id ends.1 g.nodes ≡ true))
                    (sym (find_edge-found canvas e.id g.edges e found).1)
                    (Holds-ok _ _ ends (lock_endpoints-has_node p canvas g _ _) locked)))
                (Pointwise-refl (Rewired canvas g.nodes) (Rewired-refl canvas g.nodes) g.edges))

  pub delete_edge-Changed :
      Holds (Changed canvas supply.fresh_id g) (delete_edge p supply canvas g payload)
  unfolding delete_edge
  delete_edge-Changed = >>=-Holds _ _ _ λ a k. >>=-Holds _ _ _ λ e expected.
      edge_deleted e (Holds-ok _ _ e (expected_edge-Found p canvas g payload) expected)

  pub replace_assumption-Changed :
      UniqueNodes g.nodes
      → Holds (Changed canvas supply.fresh_id g) (replace_assumption p supply canvas g payload)
  unfolding replace_assumption
  replace_assumption-Changed u = >>=-Holds _ _ _ λ a e. >>=-Holds _ _ _ λ id_value e.
      >>=-Holds _ _ _ λ n locked. >>=-Holds _ _ _ λ b assumed. >>=-Holds _ _ _ λ c e.
        >>=-Holds _ _ _ λ d e. >>=-Holds _ _ _ λ f e. >>=-Holds _ _ _ λ h e. >>=-Holds _ _ _ λ i e.
          >>=-Holds _ _ _ λ j e. >>=-Holds _ _ _ λ k e. >>=-Holds _ _ _ λ owner e.
            >>=-Holds _ _ _ λ l e. >>=-Holds _ _ _ λ title e. >>=-Holds _ _ _ λ body e.
              let found = Holds-ok _ _ _ (locked_node-Found p canvas g id_value) locked in
              write_one canvas supply.fresh_id g n _ u found (
                replaced-Rewritten canvas g.nodes n found supply.now title body (
                  assumption_other n.kind (
                    Holds-ok (λ t. not (is_assumption n.kind) ≡ false) _ b
                      (refuse-passed (not (is_assumption n.kind)) 422 "invalid_assumption")
                      assumed)))

  pub reject_evidence-Changed :
      UniqueNodes g.nodes
      → Holds (Changed canvas supply.fresh_id g) (reject_evidence p supply canvas g payload)
  unfolding reject_evidence
  reject_evidence-Changed u = >>=-Holds _ _ _ λ a e. >>=-Holds _ _ _ λ id_value e.
      >>=-Holds _ _ _ λ n locked. >>=-Holds _ _ _ λ b e. >>=-Holds _ _ _ λ c e.
        >>=-Holds _ _ _ λ d e. >>=-Holds _ _ _ λ f e. >>=-Holds _ _ _ λ h e. >>=-Holds _ _ _ λ i e.
          let found = Holds-ok _ _ _ (locked_node-Found p canvas g id_value) locked in
          nodes_rewritten _ (
            write_found canvas g.nodes _ n _ u found
              (reviewed-Rewritten canvas g.nodes n found supply.now (rejected_metadata n.metadata))
              (review_claims-Rewritten canvas g n supply.now g.nodes u (
                Pointwise-refl (Rewritten canvas g.nodes) (Rewritten-refl canvas g.nodes) g.nodes)))
