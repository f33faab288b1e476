-- ===== src/Graph/Traversal/Rounds.antt =====
-- One round of the search: what the inner loop keeps, and how far it is from done.
use proofgraph.Base.{
  ℕ, ◌+◌, ◌≤◌, ◌≡◌, refl, inl, inr, Bool, true, false, not, ◌&&◌, ◌||◌, List, [], ◌∷◌, arith, ◌==◌,
  if◌then◌else◌, length, length-append, Bool-cases, subst,
}
use proofgraph.Graph.Ids.{member, member-insert, member-append}
use proofgraph.Graph.Traversal.{Traversal, descendants, visit_one, visit}

unfoldable pub depends : ℕ → ℕ → List (ℕ × ℕ) → Bool
depends a b [] = false
depends a b ((x, y) ∷ pairs) = (a == x && b == y) || depends a b pairs

pub member-descendants :
    (d c : ℕ) (pairs : List (ℕ × ℕ)) → member d (descendants c pairs) ≡ depends c d pairs
unfolding member descendants depends
member-descendants d c [] = refl
member-descendants d c ((x, y) ∷ pairs) =
    ground (arith, member-descendants d c pairs, member-insert d y (descendants c pairs))

-- Reached from a root along dependencies.
pub data Reachable (pairs : List (ℕ × ℕ)) (roots : List ℕ) : ℕ → Type 0 where
  root : {n : ℕ} → member n roots ≡ true → Reachable pairs roots n
  next : {a b : ℕ} → Reachable pairs roots a → depends a b pairs ≡ true → Reachable pairs roots b

-- What holds while the descendants `ds` of `current` are still to be visited.
pub record Searching (pairs : List (ℕ × ℕ)) (roots : List ℕ) (include_roots : Bool) (current : ℕ)
    (ds : List ℕ) (t : Traversal) : Type 0 where
  pub roots_visited : (n : ℕ) → member n roots ≡ true → member n t.visited ≡ true
  pub queue_visited : (n : ℕ) → member n t.queue ≡ true → member n t.visited ≡ true
  pub closed :
      (a b : ℕ)
      → depends a b pairs ≡ true
      → member a t.visited ≡ true
      → (member b t.visited || (member a t.queue || (a == current && member b ds))) ≡ true
  pub only : (n : ℕ) → member n t.visited ≡ true → Reachable pairs roots n
  pub recorded :
      (n : ℕ)
      → member n t.affected ≡ (member n t.visited && (include_roots || not (member n roots)))

module _ (pairs : List (ℕ × ℕ)) (roots : List ℕ) (include_roots : Bool) (current : ℕ) where
  visit_one-Searching :
      (d : ℕ) (ds : List ℕ) (t : Traversal)
      → Reachable pairs roots d
      → Searching pairs roots include_roots current (d ∷ ds) t
      → Searching pairs roots include_roots current ds (visit_one d t)
  unfolding visit_one member
  visit_one-Searching d ds t reached v = elim (Bool-cases (member d t.visited)) [
    | inl seen ↦ rw seen (record {
      roots_visited = v.roots_visited;
      queue_visited = v.queue_visited;
      closed = λ a b e h. ground (arith, v.closed a b e h);
      only = v.only;
      recorded = v.recorded;
    })
    | inr new ↦ rw new (record {
      roots_visited = λ n h. ground (arith, v.roots_visited n h);
      queue_visited = λ n h. ground (arith, v.queue_visited n, member-append n t.queue (d ∷ []));
      closed = λ a b e h. ground (arith, v.closed a b e, member-append a t.queue (d ∷ []));
      only = λ n h. reach_new n h;
      recorded = λ n. ground (arith, v.recorded n, v.roots_visited n);
    })
  ]
    where
      reach_new : (n : ℕ) → member n (d ∷ t.visited) ≡ true → Reachable pairs roots n
      reach_new n h = elim (Bool-cases (n == d)) [
        | inl e ↦ subst (Reachable pairs roots) (ground arith) reached
        | inr e ↦ v.only n (ground arith)
      ]

  pub visit-Searching :
      (ds : List ℕ) (t : Traversal)
      → ((d : ℕ) → member d ds ≡ true → Reachable pairs roots d)
      → Searching pairs roots include_roots current ds t
      → Searching pairs roots include_roots current [] (visit ds t)
  unfolding visit member
  visit-Searching [] t reached v = v
  visit-Searching (d ∷ ds) t reached v =
      visit-Searching ds (visit_one d t) (λ x h. reached x (ground arith))
        (visit_one-Searching d ds t (reached d (ground arith)) v)

-- How many dependencies lead to a node that is not visited.
unfoldable pub unseen : List ℕ → List (ℕ × ℕ) → ℕ
unseen visited [] = 0
unseen visited ((a, b) ∷ pairs) = (if member b visited then 0 else 1) + unseen visited pairs

pub unseen-le : (visited : List ℕ) (pairs : List (ℕ × ℕ)) → unseen visited pairs ≤ length pairs
unfolding unseen
unseen-le visited [] = omega arith
unseen-le visited ((a, b) ∷ pairs) = ground (arith, unseen-le visited pairs)

unseen-cons-le :
    (d : ℕ) (visited : List ℕ) (pairs : List (ℕ × ℕ))
    → unseen (d ∷ visited) pairs ≤ unseen visited pairs
unfolding unseen member
unseen-cons-le d visited [] = omega arith
unseen-cons-le d visited ((a, b) ∷ pairs) = ground (arith, unseen-cons-le d visited pairs)

unseen-cons :
    (c d : ℕ) (visited : List ℕ) (pairs : List (ℕ × ℕ))
    → depends c d pairs ≡ true
    → member d visited ≡ false
    → unseen (d ∷ visited) pairs + 1 ≤ unseen visited pairs
unfolding unseen member depends
unseen-cons c d visited [] e new = cc
unseen-cons c d visited ((a, b) ∷ pairs) e new =
    ground (arith, unseen-cons c d visited pairs, unseen-cons-le d visited pairs)

visit_one-work :
    (c d : ℕ) (pairs : List (ℕ × ℕ)) (t : Traversal)
    → depends c d pairs ≡ true
    → length (visit_one d t).queue + unseen (visit_one d t).visited pairs
      ≤ length t.queue + unseen t.visited pairs
unfolding visit_one
visit_one-work c d pairs t e =
    ground (arith, unseen-cons c d t.visited pairs e, length-append t.queue (d ∷ []))

-- The queue and the unseen dependencies together do not grow.
pub visit-work :
    (c : ℕ) (ds : List ℕ) (pairs : List (ℕ × ℕ)) (t : Traversal)
    → ((d : ℕ) → member d ds ≡ true → depends c d pairs ≡ true)
    → length (visit ds t).queue + unseen (visit ds t).visited pairs
      ≤ length t.queue + unseen t.visited pairs
unfolding visit member
visit-work c [] pairs t h = omega arith
visit-work c (d ∷ ds) pairs t h = omega (
  arith,
  visit_one-work c d pairs t (h d (ground arith)),
  visit-work c ds pairs (visit_one d t) (λ x e. h x (ground arith)),
)
