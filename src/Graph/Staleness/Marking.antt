-- ===== src/Graph/Staleness/Marking.antt =====
-- proofgraph/graph/staleness.py, apply_staleness: marking nodes as stale, with the causes.
pub mod Members
pub mod Consistency
pub mod Reports
use proofgraph.Base.{
  ℕ, ◌+◌, String, Bool, true, false, not, ◌&&◌, Option, none, some, List, [], ◌∷◌, ◌++◌, map, ◌==◌,
  str_eq, leb, keep, if◌then◌else◌,
}
use proofgraph.Json.{Json, Fields, get}
use proofgraph.Graph.Ids.{member}
use proofgraph.Graph.Tables.{NodeKind, Node, OriginType, NodeStalenessCause}
use proofgraph.Graph.Queries.{GraphStore}

pub record StalenessResult : Type 0 where
  pub stale_node_ids : List ℕ
  pub newly_stale_node_ids : List ℕ

abbrev pub node_ids : List Node → List ℕ
node_ids nodes = map (λ (n : Node). n.id) nodes

unfoldable pub is_placeholder : NodeKind → Bool
is_placeholder NodeKind.generation_placeholder = true
is_placeholder _ = false

-- node.metadata.get("review_status") == "rejected"
unfoldable pub is_rejected : Fields → Bool
unfolding get
is_rejected metadata = elim (get "review_status" metadata) [
  | some (Json.text s) ↦ str_eq s "rejected"
  | _ ↦ false
]

unfoldable pub is_eligible : Node → Bool
unfolding is_placeholder is_rejected
is_eligible n = not (is_placeholder n.kind) && not (is_rejected n.metadata)

-- order_by("id")
unfoldable pub put_in_order : Node → List Node → List Node
put_in_order n [] = n ∷ []
put_in_order n (m ∷ nodes) =
    let rest = put_in_order n nodes in if leb n.id m.id then n ∷ m ∷ nodes else m ∷ rest

unfoldable pub order_by_id : List Node → List Node
unfolding put_in_order
order_by_id [] = []
order_by_id (n ∷ nodes) = put_in_order n (order_by_id nodes)

unfoldable pub is_selected : ℕ → List ℕ → Node → Bool
unfolding member
is_selected canvas ids n = n.canvas_id == canvas && member n.id ids

unfoldable pub eligible_nodes : ℕ → List ℕ → List Node → List Node
unfolding keep is_selected is_eligible order_by_id
eligible_nodes canvas ids nodes =
    keep is_eligible (order_by_id (keep (is_selected canvas ids) nodes))

unfoldable pub newly_stale_nodes : List Node → List Node
unfolding keep
newly_stale_nodes eligible = keep (λ (n : Node). not n.stale) eligible

unfoldable pub cause_of : ℕ → ℕ → OriginType → ℕ → ℕ → Node → NodeStalenessCause
cause_of canvas operation origin_type origin_id now n = record {
  canvas_id = canvas;
  node_id = n.id;
  cause_graph_operation_id = operation;
  origin_entity_type = origin_type;
  origin_entity_id = origin_id;
  created_at = now;
  cleared_by_graph_operation_id = none;
  cleared_at = none;
}

unfoldable pub marked : ℕ → ℕ → Node → Node
marked revision now n = record n {
  stale = true;
  stale_since_revision = some revision;
  version = n.version + 1;
  context_token_count = none;
  context_content_hash = none;
  semantic_updated_at = now;
  updated_at = now;
}

-- bulk_update: the rows with the ids of the newly stale nodes.
unfoldable pub mark_nodes : ℕ → ℕ → List ℕ → List Node → List Node
unfolding marked member
mark_nodes revision now ids [] = []
mark_nodes revision now ids (n ∷ nodes) =
    (if member n.id ids then marked revision now n else n) ∷ mark_nodes revision now ids nodes

unfoldable pub apply_staleness :
    ℕ → List ℕ → ℕ → OriginType → ℕ → ℕ → ℕ → GraphStore → StalenessResult × GraphStore
unfolding eligible_nodes newly_stale_nodes cause_of mark_nodes
apply_staleness canvas ids operation origin_type origin_id revision now g =
    let eligible = eligible_nodes canvas ids g.nodes in
    let newly_stale = newly_stale_nodes eligible in
    (
      record { stale_node_ids = node_ids eligible; newly_stale_node_ids = node_ids newly_stale },
      record g {
        nodes = mark_nodes revision now (node_ids newly_stale) g.nodes;
        causes = map (cause_of canvas operation origin_type origin_id now) eligible ++ g.causes;
      },
    )
