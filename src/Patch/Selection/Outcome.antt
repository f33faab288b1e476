-- ===== src/Patch/Selection/Outcome.antt =====
-- What _selection returns.
use proofgraph.Base.{
  ℕ, ◌≡◌, refl, sym, subst, true, false, not, inl, inr, Option, some, List, [], arith, length, any,
  All, All-map, Bool-cases, Option-cases, Error, Result, ok, err,
}
use proofgraph.Graph.Ids.{member, difference}
use proofgraph.Patch.Selection.{
  Operation, ids, is_empty, find_operation, selected_ids, lacks_dependency, order_operations,
  with_selected, selection,
}
use proofgraph.Patch.Selection.Rounds.{Unique}
use proofgraph.Patch.Selection.Order.{Closed, InOrder}
use proofgraph.Patch.Selection.Loop.{order_total, order_operations-InOrder}
use proofgraph.Patch.Selection.Checks.{
  any-Within, Within-any, any-member, all_false, find_operation_id, find_operation-All,
  Unique-find_operation,
}

-- The check for missing dependencies passes exactly on a closed selection.
pub lacks-Closed :
    (operations : List Operation) (selected : List ℕ)
    → Unique operations
    → any (lacks_dependency operations selected) selected ≡ false
    → Closed selected operations
unfolding lacks_dependency
lacks-Closed operations selected u h =
    All-map _ _ operations
      (λ (o : Operation) (found : find_operation o.operation_id operations ≡ some o) m.
        any-Within o.depends_on selected (
          rw (found, lacks_dependency) at
            (any-member (lacks_dependency operations selected) o.operation_id selected h m)))
      (Unique-find_operation operations u)

pub Closed-lacks :
    (operations : List Operation) (selected : List ℕ)
    → Closed selected operations
    → any (lacks_dependency operations selected) selected ≡ false
unfolding lacks_dependency
Closed-lacks operations selected c =
    all_false (lacks_dependency operations selected) selected (λ n m.
      elim (Option-cases (find_operation n operations)) [
        | inl e ↦ rw (e, lacks_dependency) refl
        | inr (o, e) ↦
            rw (e, lacks_dependency)
              (Within-any o.depends_on selected (
                find_operation-All _ n operations o e c (
                  subst (λ x. member x selected ≡ true) (sym (find_operation_id n operations o e))
                    m)))
      ])

-- The loop gives a result, since it has a round of fuel for each id.
pub selection_total :
    (operations : List Operation) (requested : Option (List ℕ))
    → (r : Result (List ℕ × List Operation)) × (selection operations requested ≡ some r)
unfolding selection with_selected
selection_total operations requested =
    let selected = selected_ids operations requested in
    let (r, run) = order_total (length selected) operations selected [] (omega arith) in
    elim (Bool-cases (not (is_empty (difference selected (ids operations))))) [
      | inl unknown ↦ (err (Error.api 422 "unknown_patch_operation"), rw unknown refl)
      | inr known ↦ elim (Bool-cases (any (lacks_dependency operations selected) selected)) [
        | inl lacks ↦ (err (Error.api 409 "patch_dependency_incomplete"), rw (known, lacks) refl)
        | inr full ↦
            elim r
                as (λ r.
                  order_operations (length selected) operations selected [] ≡ some r
                  → (q : Result (List ℕ × List Operation)) × (selection operations requested
                      ≡ some q)) [
                        | ok ordered ↦ λ run. (ok (selected, ordered), rw (known, full, run) refl)
                        | err e ↦ λ run. (err e, rw (known, full, run) refl)
                      ]
              run
      ]
    ]

-- The list has each selected operation of the patch once, after all its dependencies, and no other.
abbrev pub Arranged : List Operation → List ℕ → List Operation → Type 0
Arranged operations selected ordered =
    InOrder [] ordered
    × All (λ (o : Operation). find_operation o.operation_id operations ≡ some o) ordered
    × ((n : ℕ) → member n (ids ordered) ≡ member n selected)

order_operations-Arranged :
    (operations : List Operation) (selected : List ℕ) (out : List Operation)
    → Unique operations
    → Closed selected operations
    → order_operations (length selected) operations selected [] ≡ some (ok out)
    → Arranged operations selected out
unfolding member
order_operations-Arranged operations selected out u c run =
    let found = Unique-find_operation operations u in
    let (tail, out_is, in_order, known, same) =
      order_operations-InOrder
        (λ (o : Operation). find_operation o.operation_id operations ≡ some o) selected operations u
        c found (length selected) selected [] [] out (λ n a. a) (λ n a b. cc)
        (All-map _ _ operations (λ (p : Operation) k m. refl) found) run in
    subst (Arranged operations selected) (sym out_is) (in_order, known, same)

-- Operation ids are unique. When the selection succeeds, its ids are the requested ones, and its
-- list has each selected operation of the patch once, after all its dependencies, and no other.
pub selection-InOrder :
    (operations : List Operation) (requested : Option (List ℕ)) (selected : List ℕ)
    (ordered : List Operation)
    → Unique operations
    → selection operations requested ≡ some (ok (selected, ordered))
    → (selected ≡ selected_ids operations requested) × Arranged operations selected ordered
unfolding selection with_selected
selection-InOrder operations requested selected ordered u h =
    let wanted = selected_ids operations requested in
    elim (Bool-cases (not (is_empty (difference wanted (ids operations))))) [
      | inl unknown ↦ absurd (ground (arith, rw unknown at h))
      | inr known ↦ elim (Bool-cases (any (lacks_dependency operations wanted) wanted)) [
        | inl lacks ↦ absurd (ground (arith, rw (known, lacks) at h))
        | inr full ↦
            let (r, run) = order_total (length wanted) operations wanted [] (omega arith) in
            go r run (lacks-Closed operations wanted u full) (rw (known, full, run) at h)
      ]
    ]
  where
    go :
        (r : Result (List Operation))
        → order_operations
            (length (selected_ids operations requested))
            operations
            (selected_ids operations requested)
            []
          ≡ some r
        → Closed (selected_ids operations requested) operations
        → with_selected (selected_ids operations requested) (some r) ≡ some (ok (selected, ordered))
        → (selected ≡ selected_ids operations requested) × Arranged operations selected ordered
    go (err e) run c h = absurd (cc h)
    go (ok out) run c h =
        let same : (selected_ids operations requested ≡ selected) × (out ≡ ordered) =
          (cc h, cc h) in
        (
          sym same.0,
          subst (λ x. Arranged operations x ordered) same.0
              (subst (Arranged operations (selected_ids operations requested)) same.1 (
                order_operations-Arranged operations (selected_ids operations requested) out u c
                  run)),
        )
