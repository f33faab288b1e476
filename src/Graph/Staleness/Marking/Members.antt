-- ===== src/Graph/Staleness/Marking/Members.antt =====
-- Which ids a selection of nodes has.
use proofgraph.Base.{
  ℕ, ◌≡◌, refl, Bool, false, ◌&&◌, ◌||◌, List, [], ◌∷◌, ◌==◌, ==_refl, arith, keep, All,
}
use proofgraph.Graph.Ids.{member}
use proofgraph.Graph.Tables.{Node}
use proofgraph.Graph.Staleness.Marking.{node_ids, put_in_order, order_by_id}

-- No two nodes have one id.
abbrev pub UniqueNodes : List Node → Type 0
UniqueNodes [] = Unit
UniqueNodes (n ∷ nodes) = (member n.id (node_ids nodes) ≡ false) × UniqueNodes nodes

member-put_in_order :
    (p : Node → Bool) (id : ℕ) (n : Node) (nodes : List Node)
    → member id (node_ids (keep p (put_in_order n nodes)))
      ≡ ((p n && id == n.id) || member id (node_ids (keep p nodes)))
unfolding member put_in_order keep
member-put_in_order p id n [] = ground arith
member-put_in_order p id n (m ∷ nodes) = ground (arith, member-put_in_order p id n nodes)

pub member-order_by_id :
    (p : Node → Bool) (id : ℕ) (nodes : List Node)
    → member id (node_ids (keep p (order_by_id nodes))) ≡ member id (node_ids (keep p nodes))
unfolding member order_by_id keep
member-order_by_id p id [] = refl
member-order_by_id p id (n ∷ nodes) =
    ground (arith, member-put_in_order p id n (order_by_id nodes), member-order_by_id p id nodes)

pub member-keep_absent :
    (p : Node → Bool) (id : ℕ) (nodes : List Node)
    → member id (node_ids nodes) ≡ false
    → member id (node_ids (keep p nodes)) ≡ false
unfolding member keep
member-keep_absent p id [] h = refl
member-keep_absent p id (n ∷ nodes) h = ground (arith, member-keep_absent p id nodes)

pub keep-keep :
    (p q : Node → Bool) (nodes : List Node) → keep p (keep q nodes) ≡ keep (λ n. q n && p n) nodes
unfolding keep
keep-keep p q [] = refl
keep-keep p q (n ∷ nodes) = ground (arith, keep-keep p q nodes)

-- With unique ids a node's id is among those of a selection exactly if the node is selected.
pub member-keep :
    (p : Node → Bool) (nodes : List Node)
    → UniqueNodes nodes
    → All (λ (n : Node). member n.id (node_ids (keep p nodes)) ≡ p n) nodes
unfolding member keep
member-keep p [] u = tt
member-keep p (n ∷ nodes) u = (
  ground (arith, member-keep_absent p n.id nodes u.0, ==_refl n.id),
  step nodes u.0 (member-keep p nodes u.1),
)
  where
    step :
        (rest : List Node)
        → member n.id (node_ids rest) ≡ false
        → All (λ (m : Node). member m.id (node_ids (keep p nodes)) ≡ p m) rest
        → All (λ (m : Node). member m.id (node_ids (keep p (n ∷ nodes))) ≡ p m) rest
    step [] absent h = tt
    step (m ∷ rest) absent h = (ground (arith, h.0), step rest (ground arith) h.1)
