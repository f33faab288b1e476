-- ===== src/Graph/Traversal.antt =====
-- proofgraph/graph/staleness.py: which nodes depend on a set of roots, by breadth-first search.
pub mod Rounds
pub mod Reach
use proofgraph.Base.{
  ℕ, zero, suc, ◌+◌, Bool, true, false, Option, none, some, List, [], ◌∷◌, ◌++◌, ◌==◌, length,
  if◌then◌else◌, bind_result,
}
use proofgraph.Graph.Ids.{member, insert, sorted, difference}
use proofgraph.Graph.Tables.{EdgeKind, Edge}

-- dependency_pair: the ancestor and its descendant.
unfoldable pub dependency_pair : ℕ → ℕ → EdgeKind → ℕ × ℕ
dependency_pair source target EdgeKind.constrained_by = (target, source)
dependency_pair source target EdgeKind.extracted_from = (target, source)
dependency_pair source target _ = (source, target)

-- The dependencies along the edges of a canvas.
unfoldable pub dependencies : ℕ → List Edge → List (ℕ × ℕ)
unfolding dependency_pair
dependencies canvas [] = []
dependencies canvas (e ∷ edges) =
    if e.canvas_id == canvas
    then dependency_pair e.source_id e.target_id e.kind ∷ dependencies canvas edges
    else dependencies canvas edges

-- sorted(adjacency.get(current, ()), key=str)
unfoldable pub descendants : ℕ → List (ℕ × ℕ) → List ℕ
unfolding insert
descendants current [] = []
descendants current ((ancestor, descendant) ∷ pairs) =
    if ancestor == current
    then insert descendant (descendants current pairs)
    else descendants current pairs

pub record Traversal : Type 0 where
  pub queue : List ℕ
  pub visited : List ℕ
  pub affected : List ℕ

-- The body of the inner loop.
unfoldable pub visit_one : ℕ → Traversal → Traversal
unfolding member
visit_one descendant t = if member descendant t.visited then t else record {
  queue = t.queue ++ descendant ∷ [];
  visited = descendant ∷ t.visited;
  affected = descendant ∷ t.affected;
}

unfoldable pub visit : List ℕ → Traversal → Traversal
unfolding visit_one
visit [] t = t
visit (d ∷ ds) t = visit ds (visit_one d t)

-- One round of `while queue`: the head of the queue and its descendants.
unfoldable pub round : List (ℕ × ℕ) → ℕ → List ℕ → Traversal → Traversal
unfolding visit descendants
round pairs current rest t = visit (descendants current pairs) (record t { queue = rest })

-- The loop on fuel; `none` means that the fuel ran out.
unfoldable pub traverse : ℕ → List (ℕ × ℕ) → List ℕ → Traversal → Option Traversal
unfolding round
traverse fuel pairs [] t = some t
traverse zero pairs (current ∷ rest) t = none
traverse (suc fuel) pairs (current ∷ rest) t =
    let next = round pairs current rest t in traverse fuel pairs next.queue next

unfoldable pub start : List ℕ → Bool → Traversal
unfolding sorted
start roots include_roots = record {
  queue = sorted roots;
  visited = roots;
  affected = if include_roots then roots else [];
}

unfoldable pub finish : List ℕ → Option Traversal → Option (List ℕ)
unfolding sorted difference
finish excluded none = none
finish excluded (some t) = some (sorted (difference t.affected excluded))

-- reachable_dependents, with fuel for each root and each dependency.
unfoldable pub reachable_dependents : ℕ → List Edge → List ℕ → Bool → List ℕ → Option (List ℕ)
unfolding traverse start finish dependencies
reachable_dependents canvas edges roots include_roots excluded = finish excluded (
    traverse (length (sorted roots) + length (dependencies canvas edges))
      (dependencies canvas edges) (sorted roots) (start roots include_roots))
