-- ===== src/Graph/Operations/Effects/Finding.antt =====
-- The rows that a request names.
use proofgraph.Base.{
  ℕ, ◌≡◌, ◌∙◌, refl, sym, ap, subst, true, false, ◌&&◌, some, List, [], ◌∷◌, ◌==◌, ltb, any, All,
  All-map, arith, Bool-cases, Option-cases, inl, inr, ==_iff, &&_true, ok,
}
use proofgraph.Base.Checks.{Holds, >>=-Holds, Holds-ok}
use proofgraph.Json.{Json, Fields}
use proofgraph.Graph.Ids.{member}
use proofgraph.Graph.Tables.{Node, Edge}
use proofgraph.Graph.Queries.{GraphStore, find_node, find_edge}
use proofgraph.Graph.Staleness.Marking.{node_ids}
use proofgraph.Graph.Staleness.Marking.Members.{UniqueNodes}
use proofgraph.Graph.Operations.Payload.{item, positive_version}
use proofgraph.Graph.Operations.Rows.{Platform, locked_node, locked_edge, check_version}
use proofgraph.Graph.Operations.Changes.{expected_node}
use proofgraph.Graph.Operations.Edges.{expected_edge}
use proofgraph.Graph.Operations.Effects.{UniqueEdges, has_edge_id}

pub find_node-found :
    (canvas id : ℕ) (nodes : List Node) (n : Node)
    → find_node canvas id nodes ≡ some n
    → (n.id ≡ id) × (n.canvas_id ≡ canvas)
unfolding find_node
find_node-found canvas id [] n h = ground arith
find_node-found canvas id (m ∷ nodes) n h = ground (arith, find_node-found canvas id nodes n)

pub find_edge-found :
    (canvas id : ℕ) (edges : List Edge) (e : Edge)
    → find_edge canvas id edges ≡ some e
    → (e.id ≡ id) × (e.canvas_id ≡ canvas)
unfolding find_edge
find_edge-found canvas id [] e h = ground arith
find_edge-found canvas id (f ∷ edges) e h = ground (arith, find_edge-found canvas id edges e)

-- A row with an id that is not used is none of the table's.
pub absent_id :
    (id : ℕ) (nodes : List Node)
    → member id (node_ids nodes) ≡ false
    → All (λ (m : Node). (m.id == id) ≡ false) nodes
unfolding member
absent_id id [] h = tt
absent_id id (m ∷ nodes) h = (ground arith, absent_id id nodes (ground arith))

found_id :
    (canvas id : ℕ) (nodes : List Node) (n : Node)
    → find_node canvas id nodes ≡ some n
    → member id (node_ids nodes) ≡ true
unfolding find_node member
found_id canvas id [] n h = ground arith
found_id canvas id (m ∷ nodes) n h = ground (arith, found_id canvas id nodes n)

-- With unique ids, the row that is found is the only one with its id.
pub only_row :
    (canvas id : ℕ) (nodes : List Node) (n : Node)
    → UniqueNodes nodes
    → find_node canvas id nodes ≡ some n
    → All (λ (m : Node). m.id ≡ id → m ≡ n) nodes
unfolding find_node
only_row canvas id [] n u h = tt
only_row canvas id (m ∷ nodes) n u h = elim (Bool-cases (m.canvas_id == canvas && m.id == id)) [
  | inl e ↦
      let same : m ≡ n = ground arith in
      let here = (==_iff m.id id).0 (&&_true _ _ e).1 in
      (
        (λ k. same),
        All-map (λ (l : Node). (l.id == id) ≡ false) (λ (l : Node). l.id ≡ id → l ≡ n) nodes
            (λ (l : Node) k e. ground (arith, e, k))
            (absent_id id nodes (subst (λ i. member i (node_ids nodes) ≡ false) here u.0)),
      )
  | inr e ↦
      let rest : find_node canvas id nodes ≡ some n = ground arith in
      let there = found_id canvas id nodes n rest in
      (
        (λ k. let absent = subst (λ i. member i (node_ids nodes) ≡ false) k u.0 in ground arith),
        only_row canvas id nodes n u.1 rest,
      )
]

absent_edge :
    (id : ℕ) (edges : List Edge)
    → has_edge_id id edges ≡ false
    → All (λ (f : Edge). (f.id == id) ≡ false) edges
unfolding has_edge_id any
absent_edge id [] h = tt
absent_edge id (f ∷ edges) h = (ground arith, absent_edge id edges (ground arith))

found_edge_id :
    (canvas id : ℕ) (edges : List Edge) (e : Edge)
    → find_edge canvas id edges ≡ some e
    → has_edge_id id edges ≡ true
unfolding find_edge has_edge_id any
found_edge_id canvas id [] e h = ground arith
found_edge_id canvas id (f ∷ edges) e h = ground (arith, found_edge_id canvas id edges e)

pub only_edge :
    (canvas id : ℕ) (edges : List Edge) (e : Edge)
    → UniqueEdges edges
    → find_edge canvas id edges ≡ some e
    → All (λ (f : Edge). f.id ≡ id → f ≡ e) edges
unfolding find_edge
only_edge canvas id [] e u h = tt
only_edge canvas id (f ∷ edges) e u h = elim (Bool-cases (f.canvas_id == canvas && f.id == id)) [
  | inl k ↦
      let same : f ≡ e = ground arith in
      let here = (==_iff f.id id).0 (&&_true _ _ k).1 in
      (
        (λ k. same),
        All-map (λ (l : Edge). (l.id == id) ≡ false) (λ (l : Edge). l.id ≡ id → l ≡ e) edges
            (λ (l : Edge) k e. ground (arith, e, k))
            (absent_edge id edges (subst (λ i. has_edge_id i edges ≡ false) here u.0)),
      )
  | inr k ↦
      let rest : find_edge canvas id edges ≡ some e = ground arith in
      let there = found_edge_id canvas id edges e rest in
      (
        (λ k. let absent = subst (λ i. has_edge_id i edges ≡ false) k u.0 in ground arith),
        only_edge canvas id edges e u.1 rest,
      )
]

-- The row that is locked is one of the canvas.
pub locked_node-Found :
    (p : Platform) (canvas : ℕ) (g : GraphStore) (value : Json)
    → Holds (λ (n : Node). find_node canvas n.id g.nodes ≡ some n) (locked_node p canvas g value)
unfolding locked_node
locked_node-Found p canvas g value = >>=-Holds _ _ _ λ id e.
    elim (Option-cases (find_node canvas id g.nodes)) [
      | inl h ↦ rw h tt
      | inr (n, h) ↦ rw h (
          subst (λ i. find_node canvas i g.nodes ≡ some n)
            (sym (find_node-found canvas id g.nodes n h).0) h)
    ]

pub locked_edge-Found :
    (p : Platform) (canvas : ℕ) (g : GraphStore) (value : Json)
    → Holds (λ (e : Edge). find_edge canvas e.id g.edges ≡ some e) (locked_edge p canvas g value)
unfolding locked_edge
locked_edge-Found p canvas g value = >>=-Holds _ _ _ λ id h.
    elim (Option-cases (find_edge canvas id g.edges)) [
      | inl k ↦ rw k tt
      | inr (e, k) ↦ rw k (
          subst (λ i. find_edge canvas i g.edges ≡ some e)
            (sym (find_edge-found canvas id g.edges e k).0) k)
    ]

-- The node that a request expects is found, in the version that the request expects.
abbrev pub Expected : ℕ → GraphStore → Fields → Node → Type 0
Expected canvas g payload n =
    (find_node canvas n.id g.nodes ≡ some n)
    × (item "expected_version" payload ≡ ok (Json.num n.version))

pub check_version-equal :
    (current expected : ℕ) → Holds (λ t. current ≡ expected) (check_version current expected)
unfolding check_version
check_version-equal current expected = elim (Bool-cases (current == expected)) [
  | inl e ↦ rw e ((==_iff current expected).0 e)
  | inr e ↦ rw e tt
]

pub positive_version-num : (value : Json) → Holds (λ n. value ≡ Json.num n) (positive_version value)
unfolding positive_version
positive_version-num (Json.num n) = elim (Bool-cases (ltb n 1)) [
  | inl e ↦ rw e tt
  | inr e ↦ rw e refl
]
positive_version-num Json.null = tt
positive_version-num (Json.bool b) = tt
positive_version-num (Json.text s) = tt
positive_version-num (Json.decimal s) = tt
positive_version-num (Json.arr items) = tt
positive_version-num (Json.obj fields) = tt

pub expected_node-Expected :
    (p : Platform) (canvas : ℕ) (g : GraphStore) (payload : Fields)
    → Holds (Expected canvas g payload) (expected_node p canvas g payload)
unfolding expected_node
expected_node-Expected p canvas g payload = >>=-Holds _ _ _ λ id_value e. >>=-Holds _ _ _ λ n h.
    >>=-Holds _ _ _ λ version k. >>=-Holds _ _ _ λ expected l. >>=-Holds _ _ _ λ t m. (
      Holds-ok _ _ _ (locked_node-Found p canvas g id_value) h,
      k
          ∙ ap ok (
              Holds-ok _ _ _ (positive_version-num version) l
              ∙ ap Json.num (
                  sym (
                    Holds-ok (λ t. n.version ≡ expected) _ t
                      (check_version-equal n.version expected) m))),
    )

pub expected_edge-Found :
    (p : Platform) (canvas : ℕ) (g : GraphStore) (payload : Fields)
    → Holds
        (λ (e : Edge). find_edge canvas e.id g.edges ≡ some e)
        (expected_edge p canvas g payload)
unfolding expected_edge
expected_edge-Found p canvas g payload = >>=-Holds _ _ _ λ id_value h. >>=-Holds _ _ _ λ e k.
    >>=-Holds _ _ _ λ version l.
      >>=-Holds _ _ _ λ expected m.
        >>=-Holds _ _ _ λ t i. Holds-ok _ _ _ (locked_edge-Found p canvas g id_value) k
