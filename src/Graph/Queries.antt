-- ===== src/Graph/Queries.antt =====
-- proofgraph/graph/staleness.py: the tables of a canvas and the queries on them.
use proofgraph.Base.{
  ℕ, Bool, true, false, ◌&&◌, Option, none, some, List, [], ◌∷◌, map, ◌==◌, any, keep,
  if◌then◌else◌,
}
use proofgraph.Graph.Ids.{sorted}
use proofgraph.Graph.Tables.{NodeKind, EdgeKind, Node, Edge, NodeStalenessCause}
use proofgraph.Graph.Traversal.{dependency_pair}

pub record GraphStore : Type 0 where
  pub nodes : List Node
  pub edges : List Edge
  pub causes : List NodeStalenessCause

unfoldable pub find_edge : ℕ → ℕ → List Edge → Option Edge
find_edge canvas id [] = none
find_edge canvas id (e ∷ edges) =
    let rest = find_edge canvas id edges in
    if e.canvas_id == canvas && e.id == id then some e else rest

unfoldable pub find_node : ℕ → ℕ → List Node → Option Node
find_node canvas id [] = none
find_node canvas id (n ∷ nodes) =
    let rest = find_node canvas id nodes in
    if n.canvas_id == canvas && n.id == id then some n else rest

-- The dependent end of an edge.
unfoldable pub descendant_of : Edge → ℕ
unfolding dependency_pair
descendant_of e = (dependency_pair e.source_id e.target_id e.kind).1

unfoldable pub is_opportunity : NodeKind → Bool
is_opportunity NodeKind.opportunity = true
is_opportunity _ = false

unfoldable pub is_claim : NodeKind → Bool
is_claim NodeKind.claim = true
is_claim _ = false

unfoldable pub is_source : NodeKind → Bool
is_source NodeKind.source = true
is_source _ = false

unfoldable pub is_derived_from : EdgeKind → Bool
is_derived_from EdgeKind.derived_from = true
is_derived_from _ = false

unfoldable pub is_extracted_from : EdgeKind → Bool
is_extracted_from EdgeKind.extracted_from = true
is_extracted_from _ = false

-- source__kind=...: the kind of the row that the foreign key names.
unfoldable pub node_kind_is : (NodeKind → Bool) → List Node → ℕ → Bool
node_kind_is test nodes id = any (λ (n : Node). n.id == id && test n.kind) nodes

-- The sources of the edges into a node, of one kind of edge and of nodes. `order_by("source_id")`
-- is the order of the numbers; of equal sources only one is kept, which no set of roots tells.
unfoldable pub sources_into : (EdgeKind → Bool) → (NodeKind → Bool) → ℕ → ℕ → GraphStore → List ℕ
unfolding node_kind_is sorted keep
sources_into edge_test node_test canvas target g = sorted (
    map (λ (e : Edge). e.source_id)
      (keep
        (λ (e : Edge).
          e.canvas_id == canvas
          && e.target_id == target
          && edge_test e.kind
          && node_kind_is node_test g.nodes e.source_id)
        g.edges))
