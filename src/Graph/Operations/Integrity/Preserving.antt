-- ===== src/Graph/Operations/Integrity/Preserving.antt =====
-- Every change of the graph keeps its constraints.
use proofgraph.Base.{
  ℕ, ◌≡◌, ◌∙◌, refl, sym, subst, true, false, not, List, [], ◌∷◌, ◌==◌, any, keep, All, All-map,
  All-keep, arith, inl, inr,
}
use proofgraph.Graph.Ids.{member}
use proofgraph.Graph.Tables.{Node, Edge, NodeStalenessCause}
use proofgraph.Graph.Queries.{GraphStore}
use proofgraph.Graph.Staleness.Marking.{node_ids}
use proofgraph.Graph.Staleness.Marking.Consistency.{has_cause}
use proofgraph.Graph.Operations.Rows.{has_node}
use proofgraph.Graph.Operations.Effects.{
  Pointwise, Change, node_added, nodes_rewritten, node_deleted, edge_added, edges_rewired,
  edge_deleted, Rewritten, Rewired, has_root, has_node_id, has_edge_id, Anchored, Brief, Connected,
  UniqueEdges,
}
use proofgraph.Graph.Operations.Integrity.{Sound}
use proofgraph.Graph.Operations.Integrity.Rows.{
  SameRow, Pointwise-map, All-Pointwise, has_node-Pointwise, has_root-Pointwise,
  UniqueNodes-Pointwise, UniqueEdges-Pointwise, Anchored-more, Connected-more, no_cause,
}
use proofgraph.Graph.Operations.Integrity.Deleting.{UniqueEdges-keep, delete_node_row-Sound}

-- A table of rows with the same identities, and the causes that go with its stale marks.
pub rows-Sound :
    (g : GraphStore) (after : List Node) (causes : List NodeStalenessCause)
    → Sound g
    → Pointwise (SameRow g.nodes) g.nodes after
    → All (λ (c : NodeStalenessCause). has_node c.canvas_id c.node_id g.nodes ≡ true) causes
    → All (λ (n : Node). n.stale ≡ has_cause n.id causes) after
    → All Brief after
    → Sound (record g { nodes = after; causes = causes })
rows-Sound g after causes s same owned consistent brief =
    let nodes = has_node-Pointwise g.nodes g.nodes after same in
    let roots = has_root-Pointwise g.nodes g.nodes after same in
    record {
      unique_nodes = UniqueNodes-Pointwise g.nodes g.nodes after same s.unique_nodes;
      unique_edges = s.unique_edges;
      connected =
          All-map (Connected g.nodes) (Connected after) g.edges
            (λ (e : Edge) h. Connected-more g.nodes after e (λ c i h. nodes c i ∙ h) h) s.connected;
      anchored =
          All-Pointwise (SameRow g.nodes) (Anchored g.nodes) (Anchored after) g.nodes after
            (λ (n m : Node) (id, canvas, kind, root) a. elim root [
              | inl e ↦ Anchored-more g.nodes after n m (λ c i h. roots c i ∙ h) canvas kind e a
              | inr b ↦ Anchored-more g.nodes after m m (λ c i h. roots c i ∙ h) refl refl refl b
            ])
            same s.anchored;
      owned =
          All-map (λ (c : NodeStalenessCause). has_node c.canvas_id c.node_id g.nodes ≡ true)
            (λ (c : NodeStalenessCause). has_node c.canvas_id c.node_id after ≡ true) causes
            (λ (c : NodeStalenessCause) h. nodes c.canvas_id c.node_id ∙ h) owned;
      consistent = consistent;
      brief = brief;
    }

writes-Sound :
    (canvas : ℕ) (g : GraphStore) (after : List Node)
    → Sound g
    → Pointwise (Rewritten canvas g.nodes) g.nodes after
    → Sound (record g { nodes = after })
writes-Sound canvas g after s h =
    rows-Sound g after g.causes s
      (Pointwise-map (Rewritten canvas g.nodes) (SameRow g.nodes) g.nodes after
        (λ x y (id, c, kind, stale, older, rooted, local, brief). (id, c, kind, rooted)) h)
      s.owned
      (All-Pointwise (Rewritten canvas g.nodes) (λ (n : Node). n.stale ≡ has_cause n.id g.causes)
        (λ (n : Node). n.stale ≡ has_cause n.id g.causes) g.nodes after
        (λ (x y : Node) (id, c, kind, stale, older, rooted, local, brief) k. rw (stale, id) k) h
        s.consistent)
      (All-Pointwise (Rewritten canvas g.nodes) Brief Brief g.nodes after
        (λ (x y : Node) (id, c, kind, stale, older, rooted, local, brief) k. brief k) h s.brief)

absent_member :
    (id : ℕ) (nodes : List Node) → has_node_id id nodes ≡ false → member id (node_ids nodes) ≡ false
unfolding has_node_id any member
absent_member id [] h = refl
absent_member id (n ∷ nodes) h = ground (arith, absent_member id nodes)

added-Sound :
    (g : GraphStore) (n : Node)
    → Sound g
    → has_node_id n.id g.nodes ≡ false
    → n.stale ≡ false
    → Anchored g.nodes n
    → Brief n
    → Sound (record g { nodes = n ∷ g.nodes })
unfolding has_node has_root any
added-Sound g n s fresh clean a b =
    let more : (c i : ℕ) → has_node c i g.nodes ≡ true → has_node c i (n ∷ g.nodes) ≡ true =
      λ c i h. ground (arith, h) in
    let roots : (c i : ℕ) → has_root c i g.nodes ≡ true → has_root c i (n ∷ g.nodes) ≡ true =
      λ c i h. ground (arith, h) in
    record {
      unique_nodes = (absent_member n.id g.nodes fresh, s.unique_nodes);
      unique_edges = s.unique_edges;
      connected =
          All-map (Connected g.nodes) (Connected (n ∷ g.nodes)) g.edges
            (λ e h. Connected-more g.nodes (n ∷ g.nodes) e more h) s.connected;
      anchored = (
        Anchored-more g.nodes (n ∷ g.nodes) n n roots refl refl refl a,
        All-map (Anchored g.nodes) (Anchored (n ∷ g.nodes)) g.nodes
            (λ m h. Anchored-more g.nodes (n ∷ g.nodes) m m roots refl refl refl h) s.anchored,
      );
      owned =
          All-map (λ (c : NodeStalenessCause). has_node c.canvas_id c.node_id g.nodes ≡ true)
            (λ (c : NodeStalenessCause). has_node c.canvas_id c.node_id (n ∷ g.nodes) ≡ true)
            g.causes (λ (c : NodeStalenessCause) h. more c.canvas_id c.node_id h) s.owned;
      consistent = (clean ∙ sym (no_cause n.id g.nodes g.causes fresh s.owned), s.consistent);
      brief = (b, s.brief);
    }

edges-Sound :
    (g : GraphStore) (after : List Edge)
    → Sound g
    → UniqueEdges after
    → All (Connected g.nodes) after
    → Sound (record g { edges = after })
edges-Sound g after s unique ends = record {
  unique_nodes = s.unique_nodes;
  unique_edges = unique;
  connected = ends;
  anchored = s.anchored;
  owned = s.owned;
  consistent = s.consistent;
  brief = s.brief;
}

-- A change keeps the constraints of the tables.
pub Change-Sound :
    (canvas fresh : ℕ) (g h : GraphStore) → Change canvas fresh g h → Sound g → Sound h
unfolding has_edge_id
Change-Sound canvas fresh g h (node_added n own unused here clean a b) s =
    added-Sound g n s unused clean a b
Change-Sound canvas fresh g h (nodes_rewritten after rows) s = writes-Sound canvas g after s rows
Change-Sound canvas fresh g h (node_deleted n found edges nodes) s =
    delete_node_row-Sound canvas n g s found edges nodes
Change-Sound canvas fresh g h (edge_added e own unused here ends) s =
    edges-Sound g (e ∷ g.edges) s (unused, s.unique_edges) (ends, s.connected)
Change-Sound canvas fresh g h (edges_rewired after rows) s =
    edges-Sound g after s (UniqueEdges-Pointwise canvas g.nodes g.edges after rows s.unique_edges) (
      All-Pointwise (Rewired canvas g.nodes) (Connected g.nodes) (Connected g.nodes) g.edges after
        (λ (e f : Edge) (id, c, older, ends) k. elim ends [
          | inl same ↦ subst (Connected g.nodes) (sym same) k
          | inr r ↦ r.1
        ])
        rows s.connected)
Change-Sound canvas fresh g h (edge_deleted e found) s =
    let others = λ (f : Edge). not (f.id == e.id) in
    edges-Sound g (keep others g.edges) s (UniqueEdges-keep others g.edges s.unique_edges)
      (All-keep (Connected g.nodes) (Connected g.nodes) others g.edges (λ f t k. k) s.connected)
