-- ===== src/Graph/Operations/Integrity/Deleting.antt =====
-- A node that is deleted leaves nothing that refers to it.
use proofgraph.Base.{
  ℕ, ◌≡◌, ◌∙◌, refl, sym, ap, subst, Bool, true, false, not, ◌&&◌, Option, none, some, List, [],
  ◌∷◌, ◌==◌, any, keep, All, All-map, All-keep, All-both, All-none, arith, Bool-cases, inl, inr,
  ==_iff, &&_true,
}
use proofgraph.Graph.Tables.{Node, Edge, NodeStalenessCause}
use proofgraph.Graph.Queries.{GraphStore, find_node}
use proofgraph.Graph.Staleness.Marking.Members.{UniqueNodes, member-keep_absent}
use proofgraph.Graph.Staleness.Marking.Consistency.{is_active, has_cause}
use proofgraph.Graph.Operations.Rows.{has_node, delete_node_row}
use proofgraph.Graph.Operations.Nodes.{is_incident, is_anchored_at}
use proofgraph.Graph.Operations.Effects.{
  has_root, has_edge_id, Anchored, Brief, Connected, UniqueEdges,
}
use proofgraph.Graph.Operations.Effects.Finding.{only_row, find_node-found}
use proofgraph.Graph.Operations.Integrity.{Sound}

-- The rows that are left.
abbrev pub left : ℕ → List Node → List Node
left id nodes = keep (λ (n : Node). not (n.id == id)) nodes

pub UniqueNodes-keep :
    (test : Node → Bool) (nodes : List Node) → UniqueNodes nodes → UniqueNodes (keep test nodes)
unfolding keep
UniqueNodes-keep test [] u = tt
UniqueNodes-keep test (n ∷ nodes) u = elim (Bool-cases (test n)) [
  | inl e ↦ rw e (member-keep_absent test n.id nodes u.0, UniqueNodes-keep test nodes u.1)
  | inr e ↦ rw e (UniqueNodes-keep test nodes u.1)
]

absent-keep :
    (test : Edge → Bool) (id : ℕ) (edges : List Edge)
    → has_edge_id id edges ≡ false
    → has_edge_id id (keep test edges) ≡ false
unfolding keep has_edge_id any
absent-keep test id [] h = refl
absent-keep test id (e ∷ edges) h = ground (arith, absent-keep test id edges)

pub UniqueEdges-keep :
    (test : Edge → Bool) (edges : List Edge) → UniqueEdges edges → UniqueEdges (keep test edges)
unfolding keep
UniqueEdges-keep test [] u = tt
UniqueEdges-keep test (e ∷ edges) u = elim (Bool-cases (test e)) [
  | inl k ↦ rw k (absent-keep test e.id edges u.0, UniqueEdges-keep test edges u.1)
  | inr k ↦ rw k (UniqueEdges-keep test edges u.1)
]

has_node-left :
    (canvas i id : ℕ) (nodes : List Node)
    → (i == id) ≡ false
    → has_node canvas i nodes ≡ true
    → has_node canvas i (left id nodes) ≡ true
unfolding has_node keep any
has_node-left canvas i id [] d h = h
has_node-left canvas i id (n ∷ nodes) d h = ground (arith, has_node-left canvas i id nodes)

has_root-left :
    (canvas i id : ℕ) (nodes : List Node)
    → (i == id) ≡ false
    → has_root canvas i nodes ≡ true
    → has_root canvas i (left id nodes) ≡ true
unfolding has_root keep any
has_root-left canvas i id [] d h = h
has_root-left canvas i id (n ∷ nodes) d h = ground (arith, has_root-left canvas i id nodes)

-- The only row with an id is on the canvas of every node with the id.
same_canvas :
    (c id : ℕ) (n : Node) (nodes : List Node)
    → All (λ (m : Node). m.id ≡ id → m ≡ n) nodes
    → has_node c id nodes ≡ true
    → c ≡ n.canvas_id
unfolding has_node any
same_canvas c id n [] only h = ground arith
same_canvas c id n (m ∷ nodes) only h = elim (Bool-cases (m.canvas_id == c && m.id == id)) [
  | inl e ↦
      let (here, k) = &&_true _ _ e in
      sym ((==_iff m.canvas_id c).0 here)
      ∙ ap (λ (z : Node). z.canvas_id) (only.0 ((==_iff m.id id).0 k))
  | inr e ↦ same_canvas c id n nodes only.1 (ground arith)
]

has_root-has_node :
    (c id : ℕ) (nodes : List Node) → has_root c id nodes ≡ true → has_node c id nodes ≡ true
unfolding has_root has_node any
has_root-has_node c id [] h = h
has_root-has_node c id (n ∷ nodes) h = ground (arith, has_root-has_node c id nodes)

has_cause-left :
    (i id : ℕ) (causes : List NodeStalenessCause)
    → (i == id) ≡ false
    → has_cause i (keep (λ (c : NodeStalenessCause). not (c.node_id == id)) causes)
      ≡ has_cause i causes
unfolding has_cause keep any is_active
has_cause-left i id [] d = refl
has_cause-left i id (c ∷ causes) d = ground (arith, has_cause-left i id causes d)

module _ (canvas : ℕ) (n : Node) (g : GraphStore) (s : Sound g)
    (found : find_node canvas n.id g.nodes ≡ some n) where
  here : (c : ℕ) → has_node c n.id g.nodes ≡ true → c ≡ canvas
  here c h =
      same_canvas c n.id n g.nodes (only_row canvas n.id g.nodes n s.unique_nodes found) h
      ∙ (find_node-found canvas n.id g.nodes n found).1

  -- A node that is not the deleted one on its canvas has another id.
  other_id :
      (c i : ℕ)
      → has_node c i g.nodes ≡ true
      → (c == canvas && i == n.id) ≡ false
      → (i == n.id) ≡ false
  other_id c i h apart = elim (Bool-cases (i == n.id)) [
    | inl e ↦
        let same = here c (subst (λ j. has_node c j g.nodes ≡ true) ((==_iff i n.id).0 e) h) in
        ground (arith, same, e)
    | inr e ↦ e
  ]

  left-Connected :
      (e : Edge)
      → Connected g.nodes e
      → is_incident canvas n.id e ≡ false
      → Connected (left n.id g.nodes) e
  unfolding is_incident
  left-Connected e (source, target) free = (
    has_node-left e.canvas_id e.source_id n.id g.nodes
        (other_id e.canvas_id e.source_id source (ground arith)) source,
    has_node-left e.canvas_id e.target_id n.id g.nodes
        (other_id e.canvas_id e.target_id target (ground arith)) target,
  )

  left-Anchored :
      (m : Node)
      → Anchored g.nodes m
      → is_anchored_at canvas n.id m ≡ false
      → Anchored (left n.id g.nodes) m
  unfolding is_anchored_at
  left-Anchored m a free root e =
      let (constraint, there) = a root e in
      let free' : (m.canvas_id == canvas && root == n.id) ≡ false =
        subst
          (λ (o : Option ℕ).
            (m.canvas_id == canvas && (elim o [ none ↦ false | some r ↦ r == n.id ])) ≡ false)
          e free in
      (
        constraint,
        has_root-left m.canvas_id root n.id g.nodes
            (other_id m.canvas_id root (has_root-has_node m.canvas_id root g.nodes there) free')
            there,
      )

  pub delete_node_row-Sound :
      any (is_incident canvas n.id) g.edges ≡ false
      → any (is_anchored_at canvas n.id) g.nodes ≡ false
      → Sound (delete_node_row n.id g)
  unfolding delete_node_row
  delete_node_row-Sound edges nodes = record {
    unique_nodes = UniqueNodes-keep (λ (m : Node). not (m.id == n.id)) g.nodes s.unique_nodes;
    unique_edges = s.unique_edges;
    connected =
        All-map (λ (e : Edge). Connected g.nodes e × (is_incident canvas n.id e ≡ false))
          (Connected (left n.id g.nodes)) g.edges (λ e (h, k). left-Connected e h k)
          (All-both (Connected g.nodes) (λ (e : Edge). is_incident canvas n.id e ≡ false) g.edges
            s.connected (All-none (is_incident canvas n.id) g.edges edges));
    anchored =
        All-keep (λ (m : Node). Anchored g.nodes m × (is_anchored_at canvas n.id m ≡ false))
          (Anchored (left n.id g.nodes)) (λ (m : Node). not (m.id == n.id)) g.nodes
          (λ m t (h, k). left-Anchored m h k)
          (All-both (Anchored g.nodes) (λ (m : Node). is_anchored_at canvas n.id m ≡ false) g.nodes
            s.anchored (All-none (is_anchored_at canvas n.id) g.nodes nodes));
    owned =
        All-keep (λ (c : NodeStalenessCause). has_node c.canvas_id c.node_id g.nodes ≡ true)
          (λ (c : NodeStalenessCause). has_node c.canvas_id c.node_id (left n.id g.nodes) ≡ true)
          (λ (c : NodeStalenessCause). not (c.node_id == n.id)) g.causes
          (λ (c : NodeStalenessCause) t h.
            has_node-left c.canvas_id c.node_id n.id g.nodes (ground (arith, t)) h)
          s.owned;
    consistent =
        All-keep (λ (m : Node). m.stale ≡ has_cause m.id g.causes)
          (λ (m : Node).
            m.stale
            ≡ has_cause m.id (keep (λ (c : NodeStalenessCause). not (c.node_id == n.id)) g.causes))
          (λ (m : Node). not (m.id == n.id)) g.nodes
          (λ (m : Node) t h. h ∙ sym (has_cause-left m.id n.id g.causes (ground (arith, t))))
          s.consistent;
    brief = All-keep Brief Brief (λ (m : Node). not (m.id == n.id)) g.nodes (λ m t h. h) s.brief;
  }
