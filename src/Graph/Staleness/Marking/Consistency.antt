-- ===== src/Graph/Staleness/Marking/Consistency.antt =====
-- A node is stale exactly while it has a cause that is not cleared.
use proofgraph.Base.{
  ℕ, ◌≡◌, ◌∙◌, refl, ap, Bool, true, false, not, ◌&&◌, ◌||◌, none, some, List, [], ◌∷◌, ◌++◌, map,
  ◌==◌, inl, inr, arith, keep, any, All, All-map, Bool-cases,
}
use proofgraph.Graph.Ids.{member}
use proofgraph.Graph.Tables.{Node, OriginType, NodeStalenessCause}
use proofgraph.Graph.Staleness.Marking.Members.{
  UniqueNodes, member-order_by_id, keep-keep, member-keep,
}
use proofgraph.Graph.Queries.{GraphStore}
use proofgraph.Graph.Staleness.Marking.{
  node_ids, is_eligible, order_by_id, is_selected, eligible_nodes, newly_stale_nodes, cause_of,
  marked, mark_nodes, apply_staleness,
}

unfoldable pub is_active : ℕ → NodeStalenessCause → Bool
is_active node_id c = c.node_id == node_id && (elim c.cleared_at [ none ↦ true | some t ↦ false ])

unfoldable pub has_cause : ℕ → List NodeStalenessCause → Bool
unfolding any is_active
has_cause node_id causes = any (is_active node_id) causes

-- Every node is stale exactly if it has a cause that is not cleared.
abbrev pub Consistent : GraphStore → Type 0
Consistent g = All (λ (n : Node). n.stale ≡ has_cause n.id g.causes) g.nodes

has_cause-append :
    (id : ℕ) (xs ys : List NodeStalenessCause)
    → has_cause id (xs ++ ys) ≡ (has_cause id xs || has_cause id ys)
unfolding has_cause any
has_cause-append id [] ys = refl
has_cause-append id (x ∷ xs) ys = ground (arith, has_cause-append id xs ys)

has_cause-cause_of :
    (canvas operation : ℕ) (origin_type : OriginType) (origin_id now id : ℕ) (nodes : List Node)
    → has_cause id (map (cause_of canvas operation origin_type origin_id now) nodes)
      ≡ member id (node_ids nodes)
unfolding has_cause any is_active cause_of member
has_cause-cause_of canvas operation origin_type origin_id now id [] = refl
has_cause-cause_of canvas operation origin_type origin_id now id (n ∷ nodes) =
    ground (arith, has_cause-cause_of canvas operation origin_type origin_id now id nodes)

-- The nodes that are marked: in the set, on the canvas and eligible.
abbrev pub affects : ℕ → List ℕ → Node → Bool
affects canvas ids n = is_selected canvas ids n && is_eligible n

member-eligible_nodes :
    (canvas : ℕ) (ids : List ℕ) (id : ℕ) (nodes : List Node)
    → member id (node_ids (eligible_nodes canvas ids nodes))
      ≡ member id (node_ids (keep (affects canvas ids) nodes))
unfolding eligible_nodes
member-eligible_nodes canvas ids id nodes =
    member-order_by_id is_eligible id (keep (is_selected canvas ids) nodes)
    ∙ ap (λ kept. member id (node_ids kept)) (keep-keep is_eligible (is_selected canvas ids) nodes)

member-newly_stale_nodes :
    (canvas : ℕ) (ids : List ℕ) (id : ℕ) (nodes : List Node)
    → member id (node_ids (newly_stale_nodes (eligible_nodes canvas ids nodes)))
      ≡ member id (
          node_ids
            (keep (λ (n : Node). is_selected canvas ids n && (is_eligible n && not n.stale)) nodes))
unfolding eligible_nodes newly_stale_nodes
member-newly_stale_nodes canvas ids id nodes =
    ap (λ kept. member id (node_ids kept))
      (keep-keep (λ (n : Node). not n.stale) is_eligible
        (order_by_id (keep (is_selected canvas ids) nodes)))
    ∙ member-order_by_id (λ (n : Node). is_eligible n && not n.stale) id
        (keep (is_selected canvas ids) nodes)
    ∙ ap (λ kept. member id (node_ids kept))
        (keep-keep (λ (n : Node). is_eligible n && not n.stale) (is_selected canvas ids) nodes)

mark_nodes-Consistent :
    (test : Node → Bool) (revision now : ℕ) (eligible newly : List ℕ)
    (old new : List NodeStalenessCause)
    → ((id : ℕ) → has_cause id new ≡ (member id eligible || has_cause id old))
    → (nodes : List Node) → All (λ (n : Node). member n.id eligible ≡ test n) nodes
    → All (λ (n : Node). member n.id newly ≡ (test n && not n.stale)) nodes
    → All (λ (n : Node). n.stale ≡ has_cause n.id old) nodes
    → All (λ (n : Node). n.stale ≡ has_cause n.id new) (mark_nodes revision now newly nodes)
unfolding mark_nodes marked
mark_nodes-Consistent test revision now eligible newly old new c [] a b s = tt
mark_nodes-Consistent test revision now eligible newly old new c (n ∷ nodes) a b s = (
  (elim (Bool-cases (member n.id newly)) [
    | inl e ↦ rw e (ground (arith, a.0, b.0, s.0, c n.id))
    | inr e ↦ rw e (ground (arith, a.0, b.0, s.0, c n.id))
  ]),
  mark_nodes-Consistent test revision now eligible newly old new c nodes a.1 b.1 s.1,
)

-- The ids of the eligible nodes, and of those that become stale.
pub stale_ids :
    (canvas : ℕ) (ids : List ℕ) (nodes : List Node)
    → UniqueNodes nodes
    → All
        (λ (n : Node).
          member n.id (node_ids (eligible_nodes canvas ids nodes)) ≡ affects canvas ids n)
        nodes
stale_ids canvas ids nodes u =
    All-map
      (λ (n : Node).
        member n.id (node_ids (keep (affects canvas ids) nodes)) ≡ affects canvas ids n)
      _ nodes (λ (n : Node) h. member-eligible_nodes canvas ids n.id nodes ∙ h)
      (member-keep (affects canvas ids) nodes u)

becomes_stale : ℕ → List ℕ → Node → Bool
becomes_stale canvas ids n = is_selected canvas ids n && (is_eligible n && not n.stale)

pub newly_ids :
    (canvas : ℕ) (ids : List ℕ) (nodes : List Node)
    → UniqueNodes nodes
    → All
        (λ (n : Node).
          member n.id (node_ids (newly_stale_nodes (eligible_nodes canvas ids nodes)))
          ≡ (affects canvas ids n && not n.stale))
        nodes
unfolding becomes_stale
newly_ids canvas ids nodes u =
    All-map
      (λ (n : Node).
        member n.id (node_ids (keep (becomes_stale canvas ids) nodes)) ≡ becomes_stale canvas ids n)
      _ nodes (λ (n : Node) h. ground (arith, member-newly_stale_nodes canvas ids n.id nodes, h))
      (member-keep (becomes_stale canvas ids) nodes u)

-- Node ids are unique. Applying staleness keeps the nodes consistent with the causes: if before
-- every node was stale exactly while it had a cause that is not cleared, it is so afterwards.
pub apply_staleness-Consistent :
    (canvas : ℕ) (ids : List ℕ) (operation : ℕ) (origin_type : OriginType)
    (origin_id revision now : ℕ) (g : GraphStore)
    → UniqueNodes g.nodes
    → Consistent g
    → Consistent (apply_staleness canvas ids operation origin_type origin_id revision now g).1
unfolding apply_staleness
apply_staleness-Consistent canvas ids operation origin_type origin_id revision now g u s =
    let eligible = eligible_nodes canvas ids g.nodes in
    let added = map (cause_of canvas operation origin_type origin_id now) eligible in
    mark_nodes-Consistent (affects canvas ids) revision now (node_ids eligible)
      (node_ids (newly_stale_nodes eligible)) g.causes (added ++ g.causes)
      (λ id. ground (
        arith,
        has_cause-append id added g.causes,
        has_cause-cause_of canvas operation origin_type origin_id now id eligible,
      ))
      g.nodes (stale_ids canvas ids g.nodes u) (newly_ids canvas ids g.nodes u) s
