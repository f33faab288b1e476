-- ===== src/Graph/Operations/Versions.antt =====
-- Optimistic locking: an expected version of a node is used up by the operation that revises it.
pub mod Revising
pub mod Locking
use proofgraph.Base.{
  ℕ, ◌+◌, ◌≤◌, ◌≡◌, ◌≢◌, ◌⊎◌, ◌∙◌, refl, sym, ap, subst, String, Bool, true, false, not, ◌&&◌, ◌||◌,
  Option, none, some, List, [], ◌∷◌, ◌==◌, str_eq, any, keep, All, All-map, arith, Bool-cases,
  Option-cases, inl, inr, if◌then◌else◌, ==_iff, ==_refl, &&_true, ||_false, ok, err, Result,
}
use proofgraph.Base.Checks.{◌>>=◌, ◌>>◌, Holds, >>=-Holds, Holds-map, Holds-ok, refuse}
use proofgraph.Json.{Json, Fields, get}
use proofgraph.Graph.Ids.{member}
use proofgraph.Graph.Tables.{Node, Edge}
use proofgraph.Graph.Queries.{GraphStore, find_node}
use proofgraph.Graph.Staleness.Marking.{mark_nodes, marked, apply_staleness}
use proofgraph.Graph.Operations.Payload.{item, parse_uuid}
use proofgraph.Graph.Operations.Rows.{Platform, Supply, update_node, delete_node_row}
use proofgraph.Graph.Operations.Effects.{
  Pointwise, none_left, row, Rewritten, Change, node_added, nodes_rewritten, node_deleted,
  edge_added, edges_rewired, edge_deleted,
}
use proofgraph.Graph.Tables.{Canvas}
use proofgraph.Graph.Staleness.{InvalidationCapture}
use proofgraph.Graph.Operations.Apply.{Request, settled}
use proofgraph.Graph.Operations.Settling.{mark_stale, stamp_review}
use proofgraph.Graph.Operations.Effects.Writes.{stamp_nodes-Pointwise}
use proofgraph.Graph.Operations.Integrity.Rows.{Pointwise-map}

-- The node is not there, or it has at least the version.
abbrev pub Passed : ℕ → ℕ → ℕ → List Node → Type 0
Passed canvas id version nodes =
    (n : Node) → find_node canvas id nodes ≡ some n → version ≤ n.version

-- Rows that keep their identity and do not lower a version.
abbrev pub Newer : Node → Node → Type 0
Newer n m = (m.id ≡ n.id) × (m.canvas_id ≡ n.canvas_id) × (n.version ≤ m.version)

pub Passed-Pointwise :
    (canvas id version : ℕ) (xs ys : List Node)
    → Pointwise Newer xs ys
    → Passed canvas id version xs
    → Passed canvas id version ys
unfolding find_node
Passed-Pointwise canvas id version [] [] none_left h n e = h n e
Passed-Pointwise canvas id version [] (y ∷ ys) absurd h n e = elim absurd [ ]
Passed-Pointwise canvas id version (x ∷ xs) [] absurd h n e = elim absurd [ ]
Passed-Pointwise canvas id version (x ∷ xs) (y ∷ ys) (row (same, c, older) rest) h n e =
    elim (Bool-cases (x.canvas_id == canvas && x.id == id)) [
      | inl k ↦
          let there : (y.canvas_id == canvas && y.id == id) ≡ true = rw (c, same) k in
          let found : y ≡ n = ground arith in
          let before = h x (rw k refl) in
          subst (λ (z : Node). version ≤ z.version) found (omega (arith, before, older))
      | inr k ↦
          let there : (y.canvas_id == canvas && y.id == id) ≡ false = rw (c, same) k in
          Passed-Pointwise canvas id version xs ys rest (λ m f. h m (rw k f)) n (ground arith)
    ]

-- Rows written with the version, wherever they have the id.
pub Passed-update_node :
    (canvas id version : ℕ) (write : Node → Node) (nodes : List Node)
    → ((m : Node) → ((write m).id ≡ m.id) × ((write m).version ≡ version))
    → Passed canvas id version (update_node id write nodes)
unfolding find_node update_node
Passed-update_node canvas id version write [] k n e = ground arith
Passed-update_node canvas id version write (m ∷ nodes) k n e = elim (Bool-cases (m.id == id)) [
  | inl f ↦ elim (Bool-cases ((write m).canvas_id == canvas && (write m).id == id)) [
    | inl l ↦
        let found : write m ≡ n = ground arith in
        subst (λ (z : Node). version ≤ z.version) found (omega (arith, (k m).1))
    | inr l ↦ Passed-update_node canvas id version write nodes k n (ground arith)
  ]
  | inr f ↦ Passed-update_node canvas id version write nodes k n (ground arith)
]

pub Passed-delete :
    (canvas id version : ℕ) (nodes : List Node)
    → Passed canvas id version (keep (λ (n : Node). not (n.id == id)) nodes)
unfolding find_node keep
Passed-delete canvas id version [] n e = ground arith
Passed-delete canvas id version (m ∷ nodes) n e = elim (Bool-cases (m.id == id)) [
  | inl f ↦ Passed-delete canvas id version nodes n (ground arith)
  | inr f ↦ Passed-delete canvas id version nodes n (ground arith)
]

find_node-keep :
    (canvas id deleted : ℕ) (nodes : List Node)
    → (id == deleted) ≡ false
    → find_node canvas id (keep (λ (n : Node). not (n.id == deleted)) nodes)
      ≡ find_node canvas id nodes
unfolding find_node keep
find_node-keep canvas id deleted [] d = refl
find_node-keep canvas id deleted (m ∷ nodes) d =
    ground (arith, find_node-keep canvas id deleted nodes d)

-- A version that is passed stays so under every change that does not add the node again.
pub Change-Passed :
    (canvas fresh on id version : ℕ) (g h : GraphStore)
    → Change canvas fresh g h
    → (fresh == id) ≡ false
    → Passed on id version g.nodes
    → Passed on id version h.nodes
unfolding find_node delete_node_row
Change-Passed canvas fresh on id version g h (node_added n own unused here clean a b) other passed =
    λ m e. passed m (ground (arith, own))
Change-Passed canvas fresh on id version g h (nodes_rewritten after rows) other passed =
    Passed-Pointwise on id version g.nodes after
      (Pointwise-map (Rewritten canvas g.nodes) Newer g.nodes after
        (λ x y (same, c, kind, stale, older, rooted, local, brief). (same, c, older)) rows)
      passed
Change-Passed canvas fresh on id version g h (node_deleted n found edges nodes) other passed =
    elim (Bool-cases (id == n.id)) [
      | inl e ↦
          subst (λ i. Passed on i version (keep (λ (m : Node). not (m.id == n.id)) g.nodes))
            (sym ((==_iff id n.id).0 e)) (Passed-delete on n.id version g.nodes)
      | inr e ↦ λ m f. passed m (sym (find_node-keep on id n.id g.nodes e) ∙ f)
    ]
Change-Passed canvas fresh on id version g h (edge_added e own unused here ends) other passed =
    passed
Change-Passed canvas fresh on id version g h (edges_rewired after rows) other passed = passed
Change-Passed canvas fresh on id version g h (edge_deleted e found) other passed = passed

mark_nodes-Newer :
    (revision now : ℕ) (newly : List ℕ) (xs : List Node)
    → Pointwise Newer xs (mark_nodes revision now newly xs)
unfolding mark_nodes marked
mark_nodes-Newer revision now newly [] = none_left
mark_nodes-Newer revision now newly (n ∷ xs) =
    row
      (elim (Bool-cases (member n.id newly)) [
        | inl e ↦ rw e (refl, refl, omega arith)
        | inr e ↦ rw e (refl, refl, omega arith)
      ])
      (mark_nodes-Newer revision now newly xs)

-- What follows the handler keeps it, too.
pub settled-Passed :
    (p : Platform) (supply : Supply) (canvas : Canvas) (r : Request)
    (capture : Option InvalidationCapture) (eligible : List Node) (result : Fields) (g : GraphStore)
    (on id version : ℕ)
    → Passed on id version g.nodes
    → Passed on id version (settled p supply canvas r capture eligible result g).nodes
unfolding settled stamp_review mark_stale apply_staleness
settled-Passed p supply canvas r capture eligible result g on id version h =
    mark_stale-Passed capture eligible
      (if str_eq r.op "REJECT_EVIDENCE"
        then stamp_review p canvas.id supply.operation_id supply.now result g
        else g)
      (elim (Bool-cases (str_eq r.op "REJECT_EVIDENCE")) [
        | inl e ↦ rw e (
            Passed-Pointwise on id version g.nodes _
              (Pointwise-map (Rewritten canvas.id g.nodes) Newer g.nodes _
                (λ x y (same, c, kind, stale, older, rooted, local, brief). (same, c, older))
                (stamp_nodes-Pointwise canvas.id supply.operation_id supply.now _ _ g.nodes
                  g.nodes))
              h)
        | inr e ↦ rw e h
      ])
  where
    mark_stale-Passed :
        (capture : Option InvalidationCapture) (eligible : List Node) (g : GraphStore)
        → Passed on id version g.nodes
        → Passed on id version
            (mark_stale supply canvas.id (canvas.revision + 1) capture eligible g).nodes
    mark_stale-Passed none eligible g h = h
    mark_stale-Passed (some c) [] g h = h
    mark_stale-Passed (some c) (n ∷ eligible) g h =
        Passed-Pointwise on id version g.nodes _
          (mark_nodes-Newer (canvas.revision + 1) supply.now _ g.nodes) h
