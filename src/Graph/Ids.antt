-- ===== src/Graph/Ids.antt =====
-- Sets of UUIDs as lists. `sorted(..., key=str)` is the order of the numbers, since the text of a
-- UUID has a fixed width.
use proofgraph.Base.{
  ℕ, ◌<◌, ◌≡◌, refl, Bool, false, not, ◌&&◌, ◌||◌, List, [], ◌∷◌, ◌++◌, arith, ltb, ◌==◌,
  if◌then◌else◌, keep,
}

unfoldable pub member : ℕ → List ℕ → Bool
member n [] = false
member n (x ∷ xs) = n == x || member n xs

-- Into a sorted list, unless it is there.
unfoldable pub insert : ℕ → List ℕ → List ℕ
insert n [] = n ∷ []
insert n (x ∷ xs) =
    let rest = insert n xs in if ltb n x then n ∷ x ∷ xs else (if n == x then x ∷ xs else x ∷ rest)

-- sorted(set(ids), key=str)
unfoldable pub sorted : List ℕ → List ℕ
unfolding insert
sorted [] = []
sorted (x ∷ xs) = insert x (sorted xs)

-- ids - excluded
unfoldable pub difference : List ℕ → List ℕ → List ℕ
unfolding keep member
difference ids excluded = keep (λ n. not (member n excluded)) ids

pub member-insert : (n x : ℕ) (xs : List ℕ) → member n (insert x xs) ≡ (n == x || member n xs)
unfolding member insert
member-insert n x [] = refl
member-insert n x (y ∷ ys) = ground (arith, member-insert n x ys)

pub member-sorted : (n : ℕ) (xs : List ℕ) → member n (sorted xs) ≡ member n xs
unfolding member sorted
member-sorted n [] = refl
member-sorted n (x ∷ xs) = ground (arith, member-insert n x (sorted xs), member-sorted n xs)

pub member-append : (n : ℕ) (xs ys : List ℕ) → member n (xs ++ ys) ≡ (member n xs || member n ys)
unfolding member
member-append n [] ys = refl
member-append n (x ∷ xs) ys = ground (arith, member-append n xs ys)

pub member-difference :
    (n : ℕ) (ids excluded : List ℕ)
    → member n (difference ids excluded) ≡ (member n ids && not (member n excluded))
unfolding difference
member-difference n [] excluded = refl
member-difference n (x ∷ xs) excluded = ground (arith, member-difference n xs excluded)

-- Strictly increasing.
abbrev pub Increasing : List ℕ → Type 0
Increasing [] = Unit
Increasing (x ∷ []) = Unit
Increasing (x ∷ y ∷ ys) = (x < y) × Increasing (y ∷ ys)

insert_below : (n x : ℕ) (xs : List ℕ) → x < n → Increasing (x ∷ xs) → Increasing (x ∷ insert n xs)
unfolding insert
insert_below n x [] h v = (h, tt)
insert_below n x (y ∷ ys) h v = ground (arith, insert_below n y ys)

insert-Increasing : (n : ℕ) (xs : List ℕ) → Increasing xs → Increasing (insert n xs)
unfolding insert
insert-Increasing n [] v = tt
insert-Increasing n (x ∷ xs) v = ground (arith, insert_below n x xs)

pub sorted-Increasing : (xs : List ℕ) → Increasing (sorted xs)
unfolding sorted
sorted-Increasing [] = tt
sorted-Increasing (x ∷ xs) = insert-Increasing x (sorted xs) (sorted-Increasing xs)
