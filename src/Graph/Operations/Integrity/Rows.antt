-- ===== src/Graph/Operations/Integrity/Rows.antt =====
-- What a write on rows leaves of the queries on a table.
use proofgraph.Base.{
  ℕ, ◌≡◌, ◌⊎◌, ◌∙◌, refl, sym, subst, Bool, true, false, List, [], ◌∷◌, ◌==◌, any, All, arith,
  Bool-cases, inl, inr, ==_iff,
}
use proofgraph.Graph.Ids.{member}
use proofgraph.Graph.Tables.{Node, Edge, NodeStalenessCause}
use proofgraph.Graph.Staleness.Marking.{node_ids}
use proofgraph.Graph.Staleness.Marking.Members.{UniqueNodes}
use proofgraph.Graph.Staleness.Marking.Consistency.{is_active, has_cause}
use proofgraph.Graph.Operations.Rows.{has_node}
use proofgraph.Graph.Operations.Effects.{
  Pointwise, none_left, row, has_root, has_node_id, has_edge_id, Anchored, Connected, UniqueEdges,
  Rewired,
}

-- Rows with the same identity; a root that changes is sound.
abbrev pub SameRow : List Node → Node → Node → Type 0
SameRow nodes n m =
    (m.id ≡ n.id)
    × (m.canvas_id ≡ n.canvas_id)
    × (m.kind ≡ n.kind)
    × ((m.branch_root_id ≡ n.branch_root_id) ⊎ Anchored nodes m)

pub Pointwise-map :
    {A : Type 0} (R S : A → A → Type 0) (xs ys : List A)
    → ((x y : A) → R x y → S x y)
    → Pointwise R xs ys
    → Pointwise S xs ys
Pointwise-map R S [] [] f none_left = none_left
Pointwise-map R S [] (y ∷ ys) f absurd = elim absurd [ ]
Pointwise-map R S (x ∷ xs) [] f absurd = elim absurd [ ]
Pointwise-map R S (x ∷ xs) (y ∷ ys) f (row r rest) = row (f x y r) (Pointwise-map R S xs ys f rest)

-- What holds of the rows before holds of those after, if every write keeps it.
pub All-Pointwise :
    {A : Type 0} (R : A → A → Type 0) (P Q : A → Type 0) (xs ys : List A)
    → ((x y : A) → R x y → P x → Q y)
    → Pointwise R xs ys
    → All P xs
    → All Q ys
All-Pointwise R P Q [] [] f none_left h = tt
All-Pointwise R P Q [] (y ∷ ys) f absurd h = elim absurd [ ]
All-Pointwise R P Q (x ∷ xs) [] f absurd h = elim absurd [ ]
All-Pointwise R P Q (x ∷ xs) (y ∷ ys) f (row r rest) h =
    (f x y r h.0, All-Pointwise R P Q xs ys f rest h.1)

-- A test of the rows that every write keeps.
pub any-Pointwise :
    {A : Type 0} (R : A → A → Type 0) (test : A → Bool) (xs ys : List A)
    → ((x y : A) → R x y → test y ≡ test x)
    → Pointwise R xs ys
    → any test ys ≡ any test xs
unfolding any
any-Pointwise R test [] [] f none_left = refl
any-Pointwise R test [] (y ∷ ys) f absurd = elim absurd [ ]
any-Pointwise R test (x ∷ xs) [] f absurd = elim absurd [ ]
any-Pointwise R test (x ∷ xs) (y ∷ ys) f (row r rest) =
    rw (f x y r, any-Pointwise R test xs ys f rest) refl

module _ (nodes xs ys : List Node) (same : Pointwise (SameRow nodes) xs ys) where
  pub has_node-Pointwise : (canvas id : ℕ) → has_node canvas id ys ≡ has_node canvas id xs
  unfolding has_node
  has_node-Pointwise canvas id =
      any-Pointwise (SameRow nodes) _ xs ys (λ x y r. rw (r.0, r.1) refl) same

  pub has_root-Pointwise : (canvas id : ℕ) → has_root canvas id ys ≡ has_root canvas id xs
  unfolding has_root
  has_root-Pointwise canvas id =
      any-Pointwise (SameRow nodes) _ xs ys (λ x y r. rw (r.0, r.1, r.2) refl) same

pub member-Pointwise :
    (nodes xs ys : List Node) (id : ℕ)
    → Pointwise (SameRow nodes) xs ys
    → member id (node_ids ys) ≡ member id (node_ids xs)
unfolding member
member-Pointwise nodes [] [] id none_left = refl
member-Pointwise nodes [] (y ∷ ys) id absurd = elim absurd [ ]
member-Pointwise nodes (x ∷ xs) [] id absurd = elim absurd [ ]
member-Pointwise nodes (x ∷ xs) (y ∷ ys) id (row r rest) =
    rw (r.0, member-Pointwise nodes xs ys id rest) refl

pub UniqueNodes-Pointwise :
    (nodes xs ys : List Node) → Pointwise (SameRow nodes) xs ys → UniqueNodes xs → UniqueNodes ys
UniqueNodes-Pointwise nodes [] [] none_left u = tt
UniqueNodes-Pointwise nodes [] (y ∷ ys) absurd u = elim absurd [ ]
UniqueNodes-Pointwise nodes (x ∷ xs) [] absurd u = elim absurd [ ]
UniqueNodes-Pointwise nodes (x ∷ xs) (y ∷ ys) (row r rest) u = (
  rw (r.0, member-Pointwise nodes xs ys x.id rest) u.0,
  UniqueNodes-Pointwise nodes xs ys rest u.1,
)

pub UniqueEdges-Pointwise :
    (canvas : ℕ) (nodes : List Node) (xs ys : List Edge)
    → Pointwise (Rewired canvas nodes) xs ys
    → UniqueEdges xs
    → UniqueEdges ys
unfolding has_edge_id
UniqueEdges-Pointwise canvas nodes [] [] none_left u = tt
UniqueEdges-Pointwise canvas nodes [] (y ∷ ys) absurd u = elim absurd [ ]
UniqueEdges-Pointwise canvas nodes (x ∷ xs) [] absurd u = elim absurd [ ]
UniqueEdges-Pointwise canvas nodes (x ∷ xs) (y ∷ ys) (row r rest) u = (
  rw
      (
        r.0,
        any-Pointwise (Rewired canvas nodes) (λ (e : Edge). e.id == x.id) xs ys
            (λ x y s. rw s.0 refl) rest,
      )
      u.0,
  UniqueEdges-Pointwise canvas nodes xs ys rest u.1,
)

-- Roots are sound in a table that has the roots of another.
pub Anchored-more :
    (xs ys : List Node) (n m : Node)
    → ((canvas id : ℕ) → has_root canvas id xs ≡ true → has_root canvas id ys ≡ true)
    → m.canvas_id ≡ n.canvas_id
    → m.kind ≡ n.kind
    → m.branch_root_id ≡ n.branch_root_id
    → Anchored xs n
    → Anchored ys m
Anchored-more xs ys n m more c k b a root e =
    let (constraint, there) = a root (sym b ∙ e) in
    (rw k constraint, rw c (more n.canvas_id root there))

pub Connected-more :
    (xs ys : List Node) (e : Edge)
    → ((canvas id : ℕ) → has_node canvas id xs ≡ true → has_node canvas id ys ≡ true)
    → Connected xs e
    → Connected ys e
Connected-more xs ys e more (source, target) = (more _ _ source, more _ _ target)

-- A row of a canvas is a row.
pub has_node-has_node_id :
    (canvas id : ℕ) (nodes : List Node)
    → has_node canvas id nodes ≡ true
    → has_node_id id nodes ≡ true
unfolding has_node has_node_id any
has_node-has_node_id canvas id [] h = ground arith
has_node-has_node_id canvas id (n ∷ nodes) h = ground (arith, has_node-has_node_id canvas id nodes)

-- A cause of a node is one of a row.
pub no_cause :
    (id : ℕ) (nodes : List Node) (causes : List NodeStalenessCause)
    → has_node_id id nodes ≡ false
    → All (λ (c : NodeStalenessCause). has_node c.canvas_id c.node_id nodes ≡ true) causes
    → has_cause id causes ≡ false
unfolding has_cause any is_active
no_cause id nodes [] absent h = refl
no_cause id nodes (c ∷ causes) absent h = elim (Bool-cases (c.node_id == id)) [
  | inl e ↦
      let there =
        has_node-has_node_id c.canvas_id id nodes
          (subst (λ i. has_node c.canvas_id i nodes ≡ true) ((==_iff c.node_id id).0 e) h.0) in
      ground arith
  | inr e ↦ rw e (no_cause id nodes causes absent h.1)
]
