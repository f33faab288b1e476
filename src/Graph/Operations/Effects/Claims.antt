-- ===== src/Graph/Operations/Effects/Claims.antt =====
-- The claims that rejecting a source reviews are rows of the canvas.
use proofgraph.Base.{
  ℕ, ◌≡◌, refl, false, some, List, [], ◌∷◌, ◌==◌, leb, All, All-keep, arith, Bool-cases, inl, inr,
  ==_iff, ==_refl, &&_true,
}
use proofgraph.Graph.Tables.{Node}
use proofgraph.Graph.Queries.{GraphStore, find_node, is_source}
use proofgraph.Graph.Staleness.Marking.{put_in_order, order_by_id, is_selected}
use proofgraph.Graph.Staleness.Marking.Members.{UniqueNodes}
use proofgraph.Graph.Operations.Support.{
  reviewable, impacted_claims, review_claims, eligible_sources, claim_metadata,
}
use proofgraph.Graph.Operations.Effects.{Pointwise, Rewritten}
use proofgraph.Graph.Operations.Effects.Finding.{absent_id}
use proofgraph.Graph.Operations.Effects.Writes.{write_found, reviewed-Rewritten}

-- A row of the canvas is the one that its id finds.
abbrev pub Own : ℕ → List Node → Node → Type 0
Own canvas nodes x = x.canvas_id ≡ canvas → find_node canvas x.id nodes ≡ some x

later-Own :
    (canvas : ℕ) (n : Node) (nodes xs : List Node)
    → All (λ (x : Node). (x.id == n.id) ≡ false) xs
    → All (Own canvas nodes) xs
    → All (Own canvas (n ∷ nodes)) xs
unfolding find_node
later-Own canvas n nodes [] a h = tt
later-Own canvas n nodes (x ∷ xs) a h =
    ((λ c. ground (arith, a.0, h.0 c)), later-Own canvas n nodes xs a.1 h.1)

pub rows-Own : (canvas : ℕ) (nodes : List Node) → UniqueNodes nodes → All (Own canvas nodes) nodes
unfolding find_node
rows-Own canvas [] u = tt
rows-Own canvas (n ∷ nodes) u = (
  (λ c. rw (c, ==_refl canvas, ==_refl n.id) refl),
  later-Own canvas n nodes nodes (absent_id n.id nodes u.0) (rows-Own canvas nodes u.1),
)

All-put_in_order :
    (P : Node → Type 0) (n : Node) (nodes : List Node)
    → P n
    → All P nodes
    → All P (put_in_order n nodes)
unfolding put_in_order
All-put_in_order P n [] h k = (h, tt)
All-put_in_order P n (m ∷ nodes) h k = elim (Bool-cases (leb n.id m.id)) [
  | inl e ↦ rw e (h, k)
  | inr e ↦ rw e (k.0, All-put_in_order P n nodes h k.1)
]

pub All-order_by_id :
    (P : Node → Type 0) (nodes : List Node) → All P nodes → All P (order_by_id nodes)
unfolding order_by_id
All-order_by_id P [] h = tt
All-order_by_id P (n ∷ nodes) h =
    All-put_in_order P n (order_by_id nodes) h.0 (All-order_by_id P nodes h.1)

abbrev pub Found : ℕ → List Node → Node → Type 0
Found canvas nodes x = find_node canvas x.id nodes ≡ some x

impacted_claims-Found :
    (canvas : ℕ) (g : GraphStore) (evidence : Node)
    → UniqueNodes g.nodes
    → All (Found canvas g.nodes) (impacted_claims canvas g evidence)
unfolding impacted_claims reviewable is_selected
impacted_claims-Found canvas g evidence u = elim (Bool-cases (is_source evidence.kind)) [
  | inl e ↦ rw e (
      All-order_by_id (Found canvas g.nodes) _ (
        All-keep (Own canvas g.nodes) (Found canvas g.nodes) _ g.nodes
          (λ (x : Node) k own.
            own ((==_iff x.canvas_id canvas).0 (&&_true _ _ (&&_true _ _ k).0).0))
          (rows-Own canvas g.nodes u)))
  | inr e ↦ rw e tt
]

review-Rewritten :
    (canvas : ℕ) (g : GraphStore) (evidence_id now : ℕ) (claims ys : List Node)
    → UniqueNodes g.nodes
    → All (Found canvas g.nodes) claims
    → Pointwise (Rewritten canvas g.nodes) g.nodes ys
    → Pointwise
        (Rewritten canvas g.nodes)
        g.nodes
        (review_claims canvas g evidence_id now claims ys)
unfolding review_claims
review-Rewritten canvas g evidence_id now [] ys u h k = k
review-Rewritten canvas g evidence_id now (c ∷ claims) ys u h k =
    review-Rewritten canvas g evidence_id now claims _ u h.1 (
      write_found canvas g.nodes ys c _ u h.0
        (reviewed-Rewritten canvas g.nodes c h.0 now
          (claim_metadata (eligible_sources canvas g evidence_id c.id) c.metadata))
        k)

-- The reviews of the claims that a source carries.
pub review_claims-Rewritten :
    (canvas : ℕ) (g : GraphStore) (evidence : Node) (now : ℕ) (ys : List Node)
    → UniqueNodes g.nodes
    → Pointwise (Rewritten canvas g.nodes) g.nodes ys
    → Pointwise
        (Rewritten canvas g.nodes)
        g.nodes
        (review_claims canvas g evidence.id now (impacted_claims canvas g evidence) ys)
review_claims-Rewritten canvas g evidence now ys u =
    review-Rewritten canvas g evidence.id now (impacted_claims canvas g evidence) ys u
      (impacted_claims-Found canvas g evidence u)
