-- ===== src/Graph/Operations/Effects.antt =====
-- What the handlers of proofgraph/graph/operations.py promise of the tables, whatever the request
-- holds: one of a few changes of the graph, on one canvas.
pub mod Finding
pub mod Writes
pub mod Roots
pub mod Claims
pub mod Texts
pub mod Handlers
pub mod Handling
use proofgraph.Base.{
  ℕ, ◌≤◌, ◌≡◌, ◌⊎◌, Bool, true, false, not, ◌&&◌, none, some, List, [], ◌∷◌, ◌==◌, any, keep,
  length, String,
}
use proofgraph.Json.{codes}
use proofgraph.Graph.Operations.Payload.{is_source_kind, max_retained_source_chars}
use proofgraph.Graph.Tables.{NodeKind, Node, Edge}
use proofgraph.Graph.Queries.{GraphStore, find_node, find_edge}
use proofgraph.Graph.Operations.Rows.{is_root_kind, is_constraint, has_node, delete_node_row}
use proofgraph.Graph.Operations.Nodes.{is_incident, is_anchored_at}

-- The rows of two tables one by one.
pub data Pointwise {A : Type 0} (R : A → A → Type 0) : List A → List A → Type 0 where
  none_left : Pointwise R [] []
  row : {x y : A} {xs ys : List A} → R x y → Pointwise R xs ys → Pointwise R (x ∷ xs) (y ∷ ys)

-- A node of the canvas that a branch may start from.
unfoldable pub has_root : ℕ → ℕ → List Node → Bool
unfolding any
has_root canvas id nodes =
    any (λ (n : Node). n.canvas_id == canvas && n.id == id && is_root_kind n.kind) nodes

-- The root of a branch: only a constraint has one, and it is a row of the same canvas.
abbrev pub Anchored : List Node → Node → Type 0
Anchored nodes n =
    (root : ℕ)
    → n.branch_root_id ≡ some root
    → (is_constraint n.kind ≡ true) × (has_root n.canvas_id root nodes ≡ true)

-- The title and the body of a source are at most 500 characters long.
abbrev pub Brief : Node → Type 0
Brief n =
    is_source_kind n.kind ≡ true
    → (length (codes n.title) ≤ max_retained_source_chars)
      × ((body : String) → n.body ≡ some body → length (codes body) ≤ max_retained_source_chars)

-- What a write keeps of a row: its identity, its kind, its stale mark, its version or a newer
-- one, and that a source is brief. A row of another canvas is not written.
abbrev pub Rewritten : ℕ → List Node → Node → Node → Type 0
Rewritten canvas nodes n m =
    (m.id ≡ n.id)
    × (m.canvas_id ≡ n.canvas_id)
    × (m.kind ≡ n.kind)
    × (m.stale ≡ n.stale)
    × (n.version ≤ m.version)
    × ((m.branch_root_id ≡ n.branch_root_id) ⊎ Anchored nodes m)
    × ((m ≡ n) ⊎ (n.canvas_id ≡ canvas))
    × (Brief n → Brief m)

-- The ends of an edge are nodes of its canvas.
abbrev pub Connected : List Node → Edge → Type 0
Connected nodes e =
    (has_node e.canvas_id e.source_id nodes ≡ true)
    × (has_node e.canvas_id e.target_id nodes ≡ true)

abbrev pub Rewired : ℕ → List Node → Edge → Edge → Type 0
Rewired canvas nodes e f =
    (f.id ≡ e.id)
    × (f.canvas_id ≡ e.canvas_id)
    × (e.version ≤ f.version)
    × ((f ≡ e) ⊎ ((e.canvas_id ≡ canvas) × Connected nodes f))

unfoldable pub has_edge_id : ℕ → List Edge → Bool
unfolding any
has_edge_id id edges = any (λ (e : Edge). e.id == id) edges

unfoldable pub has_node_id : ℕ → List Node → Bool
unfolding any
has_node_id id nodes = any (λ (n : Node). n.id == id) nodes

-- The changes of the graph by an operation on a canvas that draws one fresh id.
pub data Change (canvas fresh : ℕ) (g : GraphStore) : GraphStore → Type 0 where
  node_added :
      (n : Node)
      → n.id ≡ fresh
      → has_node_id n.id g.nodes ≡ false
      → n.canvas_id ≡ canvas
      → n.stale ≡ false
      → Anchored g.nodes n
      → Brief n
      → Change canvas fresh g (record g { nodes = n ∷ g.nodes })
  nodes_rewritten :
      (after : List Node)
      → Pointwise (Rewritten canvas g.nodes) g.nodes after
      → Change canvas fresh g (record g { nodes = after })
  node_deleted :
      (n : Node)
      → find_node canvas n.id g.nodes ≡ some n
      → any (is_incident canvas n.id) g.edges ≡ false
      → any (is_anchored_at canvas n.id) g.nodes ≡ false
      → Change canvas fresh g (delete_node_row n.id g)
  edge_added :
      (e : Edge)
      → e.id ≡ fresh
      → has_edge_id e.id g.edges ≡ false
      → e.canvas_id ≡ canvas
      → Connected g.nodes e
      → Change canvas fresh g (record g { edges = e ∷ g.edges })
  edges_rewired :
      (after : List Edge)
      → Pointwise (Rewired canvas g.nodes) g.edges after
      → Change canvas fresh g (record g { edges = after })
  edge_deleted :
      (e : Edge)
      → find_edge canvas e.id g.edges ≡ some e
      → Change canvas fresh g (record g { edges = keep (λ (f : Edge). not (f.id == e.id)) g.edges })

-- No two edges have one id.
abbrev pub UniqueEdges : List Edge → Type 0
UniqueEdges [] = Unit
UniqueEdges (e ∷ edges) = (has_edge_id e.id edges ≡ false) × UniqueEdges edges
