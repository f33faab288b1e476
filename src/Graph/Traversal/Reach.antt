-- ===== src/Graph/Traversal/Reach.antt =====
-- The search ends, and finds exactly the nodes that are reached from the roots.
use proofgraph.Base.{
  ℕ, zero, suc, ◌+◌, ◌≤◌, ◌≡◌, refl, ◌↔◌, Bool, true, false, not, ◌||◌, some, List, [], ◌∷◌, arith,
  length,
}
use proofgraph.Graph.Ids.{
  member, sorted, difference, member-sorted, member-difference, Increasing, sorted-Increasing,
}
use proofgraph.Graph.Tables.{Edge}
use proofgraph.Graph.Traversal.{
  Traversal, dependencies, descendants, round, traverse, start, reachable_dependents,
}
use proofgraph.Graph.Traversal.Rounds.{
  member-descendants, Reachable, Searching, visit-Searching, unseen, unseen-le, visit-work,
}

module _ (pairs : List (ℕ × ℕ)) (roots : List ℕ) (include_roots : Bool) where
  round-Searching :
      (previous current : ℕ) (rest : List ℕ) (t : Traversal)
      → t.queue ≡ current ∷ rest
      → Searching pairs roots include_roots previous [] t
      → Searching pairs roots include_roots current [] (round pairs current rest t)
  unfolding round member
  round-Searching previous current rest t q v =
      visit-Searching pairs roots include_roots current (descendants current pairs)
        (record t { queue = rest })
        (λ d h.
          Reachable.next (v.only current (v.queue_visited current (rw q (ground arith))))
            (ground (arith, member-descendants d current pairs)))
        (record {
          roots_visited = v.roots_visited;
          queue_visited = λ n h. v.queue_visited n (rw q (ground arith));
          closed = λ a b e h.
              ground (arith, rw q at (v.closed a b e h), member-descendants b current pairs);
          only = v.only;
          recorded = v.recorded;
        })

  round-work :
      (current : ℕ) (rest : List ℕ) (t : Traversal)
      → length (round pairs current rest t).queue
          + unseen (round pairs current rest t).visited pairs
        ≤ length rest + unseen t.visited pairs
  unfolding round
  round-work current rest t =
      visit-work current (descendants current pairs) pairs (record t { queue = rest })
        (λ d h. ground (arith, member-descendants d current pairs))

  -- With fuel for the queue and the unseen dependencies the loop ends, with an empty queue.
  pub traverse_total :
      (fuel previous : ℕ) (q : List ℕ) (t : Traversal)
      → t.queue ≡ q
      → length q + unseen t.visited pairs ≤ fuel
      → Searching pairs roots include_roots previous [] t
      → (last : ℕ) × (u : Traversal) × (traverse fuel pairs q t ≡ some u)
        × (u.queue ≡ [])
        × Searching pairs roots include_roots last [] u
  unfolding traverse
  traverse_total zero previous [] t q h v = (previous, t, refl, q, v)
  traverse_total (suc fuel) previous [] t q h v = (previous, t, refl, q, v)
  traverse_total zero previous (current ∷ rest) t q h v = absurd (omega arith)
  traverse_total (suc fuel) previous (current ∷ rest) t q h v =
      traverse_total fuel current (round pairs current rest t).queue (round pairs current rest t)
        refl (omega (arith, round-work current rest t))
        (round-Searching previous current rest t q v)

  start-Searching : Searching pairs roots include_roots 0 [] (start roots include_roots)
  unfolding start member
  start-Searching = record {
    roots_visited = λ n h. h;
    queue_visited = λ n h. ground (arith, member-sorted n roots);
    closed = λ a b e h. ground (arith, member-sorted a roots);
    only = λ n h. Reachable.root h;
    recorded = λ n. ground arith;
  }

  -- Once the queue is empty every reachable node is visited.
  complete :
      (last : ℕ) (u : Traversal)
      → u.queue ≡ []
      → Searching pairs roots include_roots last [] u
      → (n : ℕ) → Reachable pairs roots n
      → member n u.visited ≡ true
  unfolding member
  complete last u q v n (Reachable.root h) = v.roots_visited n h
  complete last u q v n (Reachable.next {a} r e) =
      let here = complete last u q v a r in ground (arith, rw q at (v.closed a n e here))

-- The specification: reached from a root, a root only if roots are wanted, and not excluded.
abbrev pub Dependent : List (ℕ × ℕ) → List ℕ → Bool → List ℕ → ℕ → Type 0
Dependent pairs roots include_roots excluded n =
    Reachable pairs roots n
    × ((include_roots || not (member n roots)) ≡ true)
    × (member n excluded ≡ false)

enough_fuel :
    (roots : List ℕ) (include_roots : Bool) (pairs : List (ℕ × ℕ))
    → length (sorted roots) + unseen (start roots include_roots).visited pairs
      ≤ length (sorted roots) + length pairs
unfolding start
enough_fuel roots include_roots pairs = omega (arith, unseen-le roots pairs)

-- The search ends within its fuel, and its result is the sorted list, without repetition, of
-- exactly the nodes that are reached from the roots along dependencies of the canvas, less the
-- excluded ones and, unless they are wanted, the roots.
pub reachable_dependents_exact :
    (canvas : ℕ) (edges : List Edge) (roots : List ℕ) (include_roots : Bool) (excluded : List ℕ)
    → (found : List ℕ) × (reachable_dependents canvas edges roots include_roots excluded
        ≡ some found)
      × Increasing found
      × ((n : ℕ)
          → (member n found ≡ true)
            ↔ Dependent (dependencies canvas edges) roots include_roots excluded n)
unfolding reachable_dependents start
reachable_dependents_exact canvas edges roots include_roots excluded =
    let pairs = dependencies canvas edges in
    let (last, u, run, done, v) =
      traverse_total pairs roots include_roots (length (sorted roots) + length pairs) 0
        (sorted roots) (start roots include_roots) refl (enough_fuel roots include_roots pairs)
        (start-Searching pairs roots include_roots) in
    (
      sorted (difference u.affected excluded),
      rw run refl,
      sorted-Increasing (difference u.affected excluded),
      λ n.
          let listed = member-sorted n (difference u.affected excluded) in
          let kept = member-difference n u.affected excluded in
          (
            (λ h. (
              v.only n (ground (arith, listed, kept, v.recorded n)),
              ground (arith, listed, kept, v.recorded n),
              ground (arith, listed, kept),
            )),
            (λ d. ground (
              arith,
              listed,
              kept,
              v.recorded n,
              complete pairs roots include_roots last u done v n d.0,
              d.1,
              d.2,
            )),
          ),
    )
