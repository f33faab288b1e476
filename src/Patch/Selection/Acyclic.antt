-- ===== src/Patch/Selection/Acyclic.antt =====
-- _selection without cycles: the loop always finds an operation that is ready.
use proofgraph.Base.{
  ℕ, zero, suc, ◌≤◌, ◌<◌, ◌≡◌, refl, sym, subst, ◌↔◌, Bool, true, false, not, inl, inr, Option,
  some, List, [], ◌∷◌, ◌++◌, arith, length, any, All, Bool-cases, ok,
}
use proofgraph.Graph.Ids.{member, difference, member-difference}
use proofgraph.Patch.Selection.{
  Operation, ids, is_empty, selected_ids, lacks_dependency, is_ready, ready, order_operations,
  with_selected, selection,
}
use proofgraph.Patch.Selection.Rounds.{Unique, ids-ready, batch-shorter}
use proofgraph.Patch.Selection.Order.{Within, Closed}
use proofgraph.Patch.Selection.Checks.{
  any-Within, Within-any, difference-any, find_operation_id, find_operation-All,
  find_operation_known,
}
use proofgraph.Patch.Selection.Outcome.{lacks-Closed, Closed-lacks}

-- The dependencies have lower ranks, so that there is no cycle.
abbrev pub Ranked : (ℕ → ℕ) → List Operation → Type 0
Ranked rank operations =
    All (λ (o : Operation). All (λ d. rank d < rank o.operation_id) o.depends_on) operations

any_witness :
    (P : ℕ → Type 0) (p : ℕ → Bool) (xs : List ℕ)
    → any p xs ≡ true
    → All P xs
    → (x : ℕ) × (p x ≡ true) × P x
unfolding any
any_witness P p [] h a = cc
any_witness P p (x ∷ xs) h a = elim (Bool-cases (p x)) [
  | inl e ↦ (x, e, a.0)
  | inr e ↦ any_witness P p xs (ground arith) a.1
]

none_ready :
    (remaining : List ℕ) (operations : List Operation)
    → is_empty (ready remaining operations) ≡ true
    → All (λ (o : Operation). is_ready remaining o ≡ false) operations
unfolding ready
none_ready remaining [] h = tt
none_ready remaining (o ∷ operations) h = elim (Bool-cases (is_ready remaining o)) [
  | inl e ↦ absurd (ground (arith, rw e at h))
  | inr e ↦ (e, none_ready remaining operations (rw e at h))
]

-- Where nothing is ready nothing remains: it would depend on something of a lower rank.
stuck_none :
    (rank : ℕ → ℕ) (operations : List Operation) (remaining : List ℕ) (bound n : ℕ)
    → Ranked rank operations
    → ((m : ℕ) → member m remaining ≡ true → member m (ids operations) ≡ true)
    → All (λ (o : Operation). is_ready remaining o ≡ false) operations
    → rank n < bound
    → member n remaining ≡ false
unfolding is_ready
stuck_none rank operations remaining zero n r k e below = absurd (omega (arith, below))
stuck_none rank operations remaining (suc bound) n r k e below =
    elim (Bool-cases (member n remaining)) [
      | inr out ↦ out
      | inl here ↦
          let (o, found) = find_operation_known n operations (k n here) in
          let same = find_operation_id n operations o found in
          let blocked = find_operation-All _ n operations o found e in
          let (d, there, lower) =
            any_witness (λ d. rank d < rank o.operation_id) (λ d. member d remaining) o.depends_on
              (ground (arith, subst (λ i. member i remaining ≡ true) (sym same) here, blocked))
              (find_operation-All _ n operations o found r) in
          absurd (
            ground (
              arith,
              there,
              stuck_none rank operations remaining bound d r k e
                  (ground (arith, subst (λ i. rank d < rank i) same lower)),
            ))
    ]

order_succeeds :
    (rank : ℕ → ℕ) (operations : List Operation) (fuel : ℕ) (remaining : List ℕ)
    (ordered : List Operation)
    → Ranked rank operations
    → ((m : ℕ) → member m remaining ≡ true → member m (ids operations) ≡ true)
    → length remaining ≤ fuel
    → (out : List Operation) × (order_operations fuel operations remaining ordered ≡ some (ok out))
unfolding order_operations member
order_succeeds rank operations fuel [] ordered r k h = (ordered, refl)
order_succeeds rank operations zero (id ∷ remaining) ordered r k h = absurd (omega (arith, h))
order_succeeds rank operations (suc fuel) (id ∷ remaining) ordered r k h =
    let batch = ready (id ∷ remaining) operations in
    elim (Bool-cases (is_empty batch)) [
      | inl e ↦ absurd (
          ground (
            arith,
            stuck_none rank operations (id ∷ remaining) (suc (rank id)) id r k
                (none_ready (id ∷ remaining) operations e) (omega arith),
          ))
      | inr e ↦
          let shorter =
            batch-shorter (id ∷ remaining) batch (ids-ready (id ∷ remaining) operations) e in
          let (out, run) =
            order_succeeds rank operations fuel (difference (id ∷ remaining) (ids batch))
              (ordered ++ batch) r
              (λ m a. k m (ground (arith, member-difference m (id ∷ remaining) (ids batch))))
              (omega (arith, h, shorter)) in
          (out, rw (e, run) refl)
    ]

Within-member : (xs ys : List ℕ) (m : ℕ) → Within xs ys → member m xs ≡ true → member m ys ≡ true
unfolding member
Within-member [] ys m w h = cc
Within-member (x ∷ xs) ys m w h = ground (arith, w.0, Within-member xs ys m w.1)

-- Operation ids are unique, and no dependencies go in a circle: each dependency has a lower rank.
-- The selection succeeds exactly if all ids of the request are ids of the patch, and the
-- dependencies of each selected operation are selected.
pub selection_succeeds :
    (rank : ℕ → ℕ) (operations : List Operation) (requested : Option (List ℕ))
    → Unique operations
    → Ranked rank operations
    → ((ordered : List Operation) × (selection operations requested
          ≡ some (ok (selected_ids operations requested, ordered))))
      ↔ (Within (selected_ids operations requested) (ids operations)
          × Closed (selected_ids operations requested) operations)
unfolding selection with_selected
selection_succeeds rank operations requested u r =
    let wanted = selected_ids operations requested in
    (
      (λ (ordered, h). elim (Bool-cases (not (is_empty (difference wanted (ids operations))))) [
        | inl unknown ↦ absurd (ground (arith, rw unknown at h))
        | inr known ↦ elim (Bool-cases (any (lacks_dependency operations wanted) wanted)) [
          | inl lacks ↦ absurd (ground (arith, rw (known, lacks) at h))
          | inr full ↦ (
            any-Within wanted (ids operations)
                (ground (arith, known, difference-any wanted (ids operations))),
            lacks-Closed operations wanted u full,
          )
        ]
      ]),
      (λ (w, c).
          let (out, run) =
            order_succeeds rank operations (length wanted) wanted [] r
              (λ m. Within-member wanted (ids operations) m w) (omega arith) in
          (
            out,
            rw
                (
                  difference-any wanted (ids operations),
                  Within-any wanted (ids operations) w,
                  Closed-lacks operations wanted c,
                  run,
                )
                refl,
          )),
    )
