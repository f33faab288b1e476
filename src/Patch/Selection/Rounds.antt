-- ===== src/Patch/Selection/Rounds.antt =====
-- One round of the loop of _selection: what is ready, and what it leaves.
use proofgraph.Base.{
  ℕ, ◌<◌, ◌≡◌, refl, Bool, true, false, ◌||◌, inl, inr, List, [], ◌∷◌, ◌++◌, arith, ◌==◌, length,
  keep, length-keep-le, Bool-cases,
}
use proofgraph.Graph.Ids.{member, difference}
use proofgraph.Patch.Selection.{Operation, ids, is_empty, is_ready, ready}

-- Operation ids are unique.
abbrev pub Unique : List Operation → Type 0
Unique [] = Unit
Unique (o ∷ operations) = (member o.operation_id (ids operations) ≡ false) × Unique operations

pub ids-ready :
    (remaining : List ℕ) (operations : List Operation) (n : ℕ)
    → member n (ids (ready remaining operations)) ≡ true
    → member n remaining ≡ true
unfolding ready is_ready member
ids-ready remaining [] n h = cc
ids-ready remaining (o ∷ operations) n h = ground (arith, ids-ready remaining operations n)

pub ids-append :
    (n : ℕ) (xs ys : List Operation)
    → member n (ids (xs ++ ys)) ≡ (member n (ids xs) || member n (ids ys))
unfolding member
ids-append n [] ys = refl
ids-append n (x ∷ xs) ys = ground (arith, ids-append n xs ys)

-- A filter that drops an element of the list makes it shorter.
keep-shorter :
    (p : ℕ → Bool) (n : ℕ) (xs : List ℕ)
    → member n xs ≡ true
    → p n ≡ false
    → length (keep p xs) < length xs
unfolding keep member
keep-shorter p n [] h e = cc
keep-shorter p n (x ∷ xs) h e = elim (Bool-cases (n == x)) [
  | inl same ↦ ground (arith, length-keep-le p xs)
  | inr other ↦ ground (arith, keep-shorter p n xs)
]

-- A round whose batch has an operation of `remaining` shortens what remains.
pub batch-shorter :
    (remaining : List ℕ) (batch : List Operation)
    → ((n : ℕ) → member n (ids batch) ≡ true → member n remaining ≡ true)
    → is_empty batch ≡ false
    → length (difference remaining (ids batch)) < length remaining
unfolding difference member
batch-shorter remaining [] within h = cc
batch-shorter remaining (o ∷ batch) within h =
    keep-shorter _ o.operation_id remaining (within o.operation_id (ground arith)) (ground arith)
