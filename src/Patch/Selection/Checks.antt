-- ===== src/Patch/Selection/Checks.antt =====
-- The checks of _selection before its loop.
use proofgraph.Base.{
  ℕ, ◌≡◌, refl, subst, Bool, true, false, not, inl, inr, none, some, List, [], ◌∷◌, arith, ◌==◌,
  any, All, All-map, Bool-cases, Option-cases,
}
use proofgraph.Graph.Ids.{member, difference}
use proofgraph.Patch.Selection.{Operation, ids, is_empty, find_operation}
use proofgraph.Patch.Selection.Rounds.{Unique}
use proofgraph.Patch.Selection.Order.{Within}

-- The test `set(xs) - ys` is false when all are in.
pub any-Within : (xs ys : List ℕ) → any (λ d. not (member d ys)) xs ≡ false → Within xs ys
unfolding any
any-Within [] ys h = tt
any-Within (x ∷ xs) ys h = (ground arith, any-Within xs ys (ground arith))

pub Within-any : (xs ys : List ℕ) → Within xs ys → any (λ d. not (member d ys)) xs ≡ false
unfolding any
Within-any [] ys w = refl
Within-any (x ∷ xs) ys w = ground (arith, w.0, Within-any xs ys w.1)

pub difference-any :
    (xs ys : List ℕ) → is_empty (difference xs ys) ≡ not (any (λ d. not (member d ys)) xs)
unfolding difference any
difference-any [] ys = refl
difference-any (x ∷ xs) ys = ground (arith, difference-any xs ys)

pub any-member :
    (p : ℕ → Bool) (n : ℕ) (xs : List ℕ) → any p xs ≡ false → member n xs ≡ true → p n ≡ false
unfolding any member
any-member p n [] h m = cc
any-member p n (x ∷ xs) h m = elim (Bool-cases (n == x)) [
  | inl e ↦ ground arith
  | inr e ↦ any-member p n xs (ground arith) (ground arith)
]

pub all_false :
    (p : ℕ → Bool) (xs : List ℕ) → ((n : ℕ) → member n xs ≡ true → p n ≡ false) → any p xs ≡ false
unfolding any member
all_false p [] h = refl
all_false p (x ∷ xs) h = ground (arith, h x, all_false p xs (λ n m. h n (ground arith)))

pub find_operation_id :
    (n : ℕ) (operations : List Operation) (o : Operation)
    → find_operation n operations ≡ some o
    → o.operation_id ≡ n
unfolding find_operation
find_operation_id n [] o h = cc
find_operation_id n (p ∷ operations) o h = elim (Option-cases (find_operation n operations)) [
  | inr (q, e) ↦ find_operation_id n operations o (ground arith)
  | inl e ↦ ground arith
]

pub find_operation-All :
    (P : Operation → Type 0) (n : ℕ) (operations : List Operation) (o : Operation)
    → find_operation n operations ≡ some o
    → All P operations
    → P o
unfolding find_operation
find_operation-All P n [] o h a = cc
find_operation-All P n (p ∷ operations) o h a = elim (Option-cases (find_operation n operations)) [
  | inr (q, e) ↦ find_operation-All P n operations o (ground arith) a.1
  | inl e ↦ elim (Bool-cases (p.operation_id == n)) [
    | inl same ↦ subst P (ground arith) a.0
    | inr other ↦ absurd (ground arith)
  ]
]

find_operation-none :
    (n : ℕ) (operations : List Operation)
    → member n (ids operations) ≡ false
    → find_operation n operations ≡ none
unfolding find_operation member
find_operation-none n [] h = refl
find_operation-none n (o ∷ operations) h = ground (arith, find_operation-none n operations)

pub find_operation_known :
    (n : ℕ) (operations : List Operation)
    → member n (ids operations) ≡ true
    → (o : Operation) × (find_operation n operations ≡ some o)
unfolding find_operation member
find_operation_known n [] h = cc
find_operation_known n (o ∷ operations) h = elim (Option-cases (find_operation n operations)) [
  | inr (q, e) ↦ (q, rw e refl)
  | inl e ↦ elim (Bool-cases (member n (ids operations))) [
    | inl m ↦ let (q, f) = find_operation_known n operations m in absurd (cc)
    | inr m ↦ (o, ground arith)
  ]
]

-- With unique ids an operation is found under its id.
pub Unique-find_operation :
    (operations : List Operation)
    → Unique operations
    → All (λ (o : Operation). find_operation o.operation_id operations ≡ some o) operations
unfolding find_operation
Unique-find_operation [] u = tt
Unique-find_operation (o ∷ operations) u = (
  ground (arith, find_operation-none o.operation_id operations u.0),
  All-map _ _ operations (λ (p : Operation) h. rw h refl) (Unique-find_operation operations u.1),
)
