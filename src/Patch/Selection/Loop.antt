-- ===== src/Patch/Selection/Loop.antt =====
-- The loop of _selection: it ends within its fuel, and in order.
use proofgraph.Base.{
  ℕ, zero, suc, ◌≤◌, ◌≡◌, ◌∙◌, refl, ap, Bool, true, false, inl, inr, some, List, [], ◌∷◌, ◌++◌,
  arith, length, keep, All, All-map, All-append, Bool-cases, Error, Result, ok, err,
}
use proofgraph.Graph.Ids.{member, difference, member-difference}
use proofgraph.Patch.Selection.{Operation, ids, is_empty, is_ready, ready, order_operations}
use proofgraph.Patch.Selection.Rounds.{Unique, ids-ready, ids-append, batch-shorter}
use proofgraph.Patch.Selection.Order.{
  Closed, InOrder, InOrder-append, done_after, member-done_after, ready-InOrder,
}

pub order_total :
    (fuel : ℕ) (operations : List Operation) (remaining : List ℕ) (ordered : List Operation)
    → length remaining ≤ fuel
    → (r : Result (List Operation)) × (order_operations fuel operations remaining ordered ≡ some r)
unfolding order_operations
order_total fuel operations [] ordered h = (ok ordered, refl)
order_total zero operations (id ∷ remaining) ordered h = absurd (omega (arith, h))
order_total (suc fuel) operations (id ∷ remaining) ordered h =
    let batch = ready (id ∷ remaining) operations in
    elim (Bool-cases (is_empty batch)) [
      | inl e ↦ (err (Error.api 500 "invalid_patch_contract"), rw e refl)
      | inr e ↦
          let shorter =
            batch-shorter (id ∷ remaining) batch (ids-ready (id ∷ remaining) operations) e in
          let (r, run) =
            order_total fuel operations (difference (id ∷ remaining) (ids batch)) (ordered ++ batch)
              (omega (arith, h, shorter)) in
          (r, rw (e, run) refl)
    ]

All-keep :
    (P : Operation → Type 0) (p : Operation → Bool) (xs : List Operation)
    → All P xs
    → All P (keep p xs)
unfolding keep
All-keep P p [] h = tt
All-keep P p (x ∷ xs) h = elim (Bool-cases (p x)) [
  | inl e ↦ rw e (h.0, All-keep P p xs h.1)
  | inr e ↦ rw e (All-keep P p xs h.1)
]

-- What the loop adds to `ordered`.
abbrev pub Added :
    (P : Operation → Type 0) → List ℕ → List ℕ → List Operation → List Operation → Type 0
Added P remaining done ordered out =
    (tail : List Operation) × (out ≡ ordered ++ tail)
    × InOrder done tail
    × All P tail
    × ((n : ℕ) → member n (ids tail) ≡ member n remaining)

append_assoc : (xs ys zs : List Operation) → (xs ++ ys) ++ zs ≡ xs ++ (ys ++ zs)
append_assoc [] ys zs = refl
append_assoc (x ∷ xs) ys zs = ap (λ r. x ∷ r) (append_assoc xs ys zs)

append_nil : (xs : List Operation) → xs ++ [] ≡ xs
append_nil [] = refl
append_nil (x ∷ xs) = ap (λ r. x ∷ r) (append_nil xs)

-- After a round the rest is still fresh.
fresh_next :
    (remaining : List ℕ) (batch operations : List Operation) (done : List ℕ)
    → All
        (λ (p : Operation).
          member p.operation_id remaining ≡ true → member p.operation_id done ≡ false)
        operations
    → All
        (λ (p : Operation).
          member p.operation_id (difference remaining (ids batch)) ≡ true
          → member p.operation_id (done_after batch done) ≡ false)
        operations
fresh_next remaining batch operations done f =
    All-map _ _ operations
      (λ (p : Operation) now later. ground (
        arith,
        now,
        member-difference p.operation_id remaining (ids batch),
        member-done_after p.operation_id batch done,
      ))
      f

module _ (P : Operation → Type 0) (selected : List ℕ) (operations : List Operation)
    (u : Unique operations) (c : Closed selected operations) (k : All P operations) where
  pub order_operations-InOrder :
      (fuel : ℕ) (remaining done : List ℕ) (ordered out : List Operation)
      → ((n : ℕ) → member n remaining ≡ true → member n selected ≡ true)
      → ((n : ℕ) → member n selected ≡ true → member n remaining ≡ false → member n done ≡ true)
      → All
          (λ (p : Operation).
            member p.operation_id remaining ≡ true → member p.operation_id done ≡ false)
          operations
      → order_operations fuel operations remaining ordered ≡ some (ok out)
      → Added P remaining done ordered out
  unfolding order_operations member ready
  order_operations-InOrder fuel [] done ordered out w s f h =
      ([], cc (append_nil ordered), tt, tt, λ n. refl)
  order_operations-InOrder zero (id ∷ remaining) done ordered out w s f h = cc
  order_operations-InOrder (suc fuel) (id ∷ remaining) done ordered out w s f h =
      let batch = ready (id ∷ remaining) operations in
      let left = difference (id ∷ remaining) (ids batch) in
      elim (Bool-cases (is_empty batch)) [
        | inl e ↦ absurd (ground (arith, rw e at h))
        | inr e ↦
            let (tail, out_is, in_order, known, same) =
              order_operations-InOrder fuel left (done_after batch done) (ordered ++ batch) out
                (λ n a. w n (ground (arith, member-difference n (id ∷ remaining) (ids batch))))
                (λ n a b. ground (
                  arith,
                  s n a,
                  member-difference n (id ∷ remaining) (ids batch),
                  member-done_after n batch done,
                ))
                (fresh_next (id ∷ remaining) batch operations done f) (rw e at h) in
            (
              batch ++ tail,
              out_is ∙ append_assoc ordered batch tail,
              InOrder-append batch tail done
                  (ready-InOrder selected (id ∷ remaining) operations done u c w s f) in_order,
              All-append P batch tail (All-keep P (is_ready (id ∷ remaining)) operations k) known,
              λ n. ground (
                arith,
                ids-append n batch tail,
                same n,
                member-difference n (id ∷ remaining) (ids batch),
                ids-ready (id ∷ remaining) operations n,
              ),
            )
      ]
