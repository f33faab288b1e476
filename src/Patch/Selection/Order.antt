-- ===== src/Patch/Selection/Order.antt =====
-- The order of _selection: every dependency before what depends on it.
use proofgraph.Base.{
  ℕ, ◌≡◌, refl, true, false, ◌||◌, inl, inr, List, [], ◌∷◌, ◌++◌, arith, any, All, Bool-cases,
}
use proofgraph.Graph.Ids.{member}
use proofgraph.Patch.Selection.{Operation, ids, is_ready, ready}
use proofgraph.Patch.Selection.Rounds.{Unique}

-- All of `xs` are in `ys`.
abbrev pub Within : List ℕ → List ℕ → Type 0
Within xs ys = All (λ x. member x ys ≡ true) xs

-- From what is done on, each operation comes once and after its dependencies.
abbrev pub InOrder : List ℕ → List Operation → Type 0
InOrder done [] = Unit
InOrder done (o ∷ rest) =
    Within o.depends_on done
    × (member o.operation_id done ≡ false)
    × InOrder (o.operation_id ∷ done) rest

-- The selection has the dependencies of its operations.
abbrev pub Closed : List ℕ → List Operation → Type 0
Closed selected operations =
    All (λ (o : Operation). member o.operation_id selected ≡ true → Within o.depends_on selected)
      operations

-- What is done after some more operations.
abbrev pub done_after : List Operation → List ℕ → List ℕ
done_after [] done = done
done_after (o ∷ rest) done = done_after rest (o.operation_id ∷ done)

pub member-done_after :
    (n : ℕ) (batch : List Operation) (done : List ℕ)
    → member n (done_after batch done) ≡ (member n (ids batch) || member n done)
unfolding member
member-done_after n [] done = refl
member-done_after n (o ∷ batch) done =
    ground (arith, member-done_after n batch (o.operation_id ∷ done))

pub InOrder-append :
    (batch rest : List Operation) (done : List ℕ)
    → InOrder done batch
    → InOrder (done_after batch done) rest
    → InOrder done (batch ++ rest)
InOrder-append [] rest done b r = r
InOrder-append (o ∷ batch) rest done b r =
    (b.0, b.1, InOrder-append batch rest (o.operation_id ∷ done) b.2 r)

-- The dependencies of a ready operation are done, if what is selected and does not remain is.
settled :
    (selected remaining done deps : List ℕ)
    → ((n : ℕ) → member n selected ≡ true → member n remaining ≡ false → member n done ≡ true)
    → Within deps selected
    → any (λ d. member d remaining) deps ≡ false
    → Within deps done
unfolding any
settled selected remaining done [] s w h = tt
settled selected remaining done (d ∷ deps) s w h = elim (Bool-cases (member d remaining)) [
  | inl e ↦ ground (arith)
  | inr e ↦ (s d w.0 e, settled selected remaining done deps s w.1 (ground arith))
]

fresh_after :
    (o : Operation) (operations : List Operation) (remaining done : List ℕ)
    → member o.operation_id (ids operations) ≡ false
    → All
        (λ (p : Operation).
          member p.operation_id remaining ≡ true → member p.operation_id done ≡ false)
        operations
    → All
        (λ (p : Operation).
          member p.operation_id remaining ≡ true
          → member p.operation_id (o.operation_id ∷ done) ≡ false)
        operations
unfolding member
fresh_after o [] remaining done u f = tt
fresh_after o (p ∷ operations) remaining done u f =
    ((λ h. ground (arith, f.0 h)), fresh_after o operations remaining done (ground arith) f.1)

-- A batch is in order.
pub ready-InOrder :
    (selected remaining : List ℕ) (operations : List Operation) (done : List ℕ)
    → Unique operations
    → Closed selected operations
    → ((n : ℕ) → member n remaining ≡ true → member n selected ≡ true)
    → ((n : ℕ) → member n selected ≡ true → member n remaining ≡ false → member n done ≡ true)
    → All
        (λ (p : Operation).
          member p.operation_id remaining ≡ true → member p.operation_id done ≡ false)
        operations
    → InOrder done (ready remaining operations)
unfolding ready is_ready member
ready-InOrder selected remaining [] done u c w s f = tt
ready-InOrder selected remaining (o ∷ operations) done u c w s f =
    elim (Bool-cases (is_ready remaining o)) [
      | inr e ↦ rw e (ready-InOrder selected remaining operations done u.1 c.1 w s f.1)
      | inl e ↦
          let here : member o.operation_id remaining ≡ true = ground arith in
          rw e (
            settled selected remaining done o.depends_on s (c.0 (w o.operation_id here))
                (ground arith),
            f.0 here,
            ready-InOrder selected remaining operations (o.operation_id ∷ done) u.1 c.1 w
                (λ n a b. ground (arith, s n a b))
                (fresh_after o operations remaining done u.0 f.1),
          )
    ]
