-- ===== src/Queue/Order.antt =====
-- The order in which the queue takes runs: by creation, then by id.
use proofgraph.Base.{
  ◌≡◌, ◌≢◌, sym, subst, inl, inr, Bool, true, false, not, ◌&&◌, Option, none, some, List, [], ◌∷◌,
  arith, keep, Bool-cases, Option-cases,
}
use proofgraph.Tables.{GenerationRun}
use proofgraph.Queue.{Moment, before, earlier, earliest, first_unlocked}
use proofgraph.Queue.Rows.{In}

before_total : (r q : GenerationRun) → before r q ≡ false → before q r ≡ true
unfolding before
before_total r q h = ground arith

before_trans : (r q p : GenerationRun) → before r q ≡ true → before q p ≡ true → before r p ≡ true
unfolding before
before_trans r q p a b = ground arith

before_refl : (r : GenerationRun) → before r r ≡ true
unfolding before
before_refl r = ground arith

earlier_first : (r : GenerationRun) (o : Option GenerationRun) → before (earlier r o) r ≡ true
unfolding earlier
earlier_first r none = before_refl r
earlier_first r (some other) = elim (Bool-cases (before r other)) [
  | inl e ↦ rw e (before_refl r)
  | inr e ↦ rw e (before_total r other e)
]

earlier_rest : (r other : GenerationRun) → before (earlier r (some other)) other ≡ true
unfolding earlier
earlier_rest r other = elim (Bool-cases (before r other)) [
  | inl e ↦ rw e e
  | inr e ↦ rw e (before_refl other)
]

earliest_some :
    (rows : List GenerationRun) (row : GenerationRun) → In row rows → earliest rows ≢ none
unfolding earliest
earliest_some [] row i = elim i [ ]
earliest_some (r ∷ rows) row i = cc

pub earliest-before :
    (rows : List GenerationRun) (run row : GenerationRun)
    → earliest rows ≡ some run
    → In row rows
    → before run row ≡ true
unfolding earliest
earliest-before [] run row h i = elim i [ ]
earliest-before (r ∷ rows) run row h (inl p) =
    let first : earlier r (earliest rows) ≡ run = cc h in
    subst (λ x. before x row ≡ true) first
      (subst (λ x. before (earlier r (earliest rows)) x ≡ true) p (earlier_first r (earliest rows)))
earliest-before (r ∷ rows) run row h (inr q) = elim (Option-cases (earliest rows)) [
  | inl e ↦ absurd (earliest_some rows row q e)
  | inr (other, e) ↦
      let first : earlier r (some other) ≡ run = cc (h, e) in
      before_trans run other row (subst (λ x. before x other ≡ true) first (earlier_rest r other))
        (earliest-before rows other row e q)
]

In-kept :
    (test : GenerationRun → Bool) (row : GenerationRun) (rows : List GenerationRun)
    → In row rows
    → test row ≡ true
    → In row (keep test rows)
unfolding keep
In-kept test row [] i h = elim i [ ]
In-kept test row (r ∷ rows) (inl p) h = rw (subst (λ x. test x ≡ true) (sym p) h) (inl p)
In-kept test row (r ∷ rows) (inr q) h = elim (Bool-cases (test r)) [
  | inl e ↦ rw e (inr (In-kept test row rows q h))
  | inr e ↦ rw e (In-kept test row rows q h)
]

-- What the queue picks comes before every row that passes the test and is not locked.
pub first_unlocked-before :
    (test : GenerationRun → Bool) (m : Moment) (rows : List GenerationRun) (run row : GenerationRun)
    → first_unlocked test m rows ≡ some run
    → In row rows
    → test row ≡ true
    → m.locked row.id ≡ false
    → before run row ≡ true
unfolding first_unlocked
first_unlocked-before test m rows run row h i passes free =
    earliest-before _ run row h
      (In-kept (λ r. test r && not (m.locked r.id)) row rows i (ground (arith, passes, free)))
