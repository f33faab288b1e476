-- ===== src/Graph/Operations/Integrity.antt =====
-- The constraints of the graph tables (proofgraph/graph/models.py and the keys of its migration),
-- kept by proofgraph/graph/operations.py.
pub mod Rows
pub mod Deleting
pub mod Preserving
pub mod Serving
use proofgraph.Base.{◌≡◌, true, All}
use proofgraph.Graph.Tables.{NodeStalenessCause}
use proofgraph.Graph.Queries.{GraphStore}
use proofgraph.Graph.Staleness.Marking.Members.{UniqueNodes}
use proofgraph.Graph.Staleness.Marking.Consistency.{Consistent}
use proofgraph.Graph.Operations.Rows.{has_node}
use proofgraph.Graph.Operations.Effects.{Connected, Anchored, Brief, UniqueEdges}

-- Ids are unique, edges connect nodes of their canvas, only constraints have a branch root and it
-- is a strategy, claim or opportunity of their canvas, causes belong to nodes of their canvas, a
-- node is stale exactly while it has a cause that is not cleared, and the title and the body of a
-- source are at most 500 characters long.
pub record Sound (g : GraphStore) : Type 0 where
  pub unique_nodes : UniqueNodes g.nodes
  pub unique_edges : UniqueEdges g.edges
  pub connected : All (Connected g.nodes) g.edges
  pub anchored : All (Anchored g.nodes) g.nodes
  pub owned :
      All (λ (c : NodeStalenessCause). has_node c.canvas_id c.node_id g.nodes ≡ true) g.causes
  pub consistent : Consistent g
  pub brief : All Brief g.nodes
