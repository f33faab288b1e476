-- ===== src/Queue/Rows.antt =====
-- The table of runs under its primary key: what a query finds, and what a save changes.
use proofgraph.Base.{
  ℕ, ◌≡◌, ◌≢◌, refl, ap, ◌⊎◌, inl, inr, Bool, true, false, not, ◌&&◌, Option, none, some, List, [],
  ◌∷◌, arith, ◌==◌, if◌then◌else◌, keep, Bool-cases,
}
use proofgraph.Tables.{GenerationRun, find_run}
use proofgraph.Queue.{Moment, earlier, earliest, first_unlocked}

abbrev pub In : GenerationRun → List GenerationRun → Type 0
In run [] = ⊥
In run (row ∷ rows) = (row ≡ run) ⊎ In run rows

-- No two rows have one primary key.
abbrev pub UniqueIds : List GenerationRun → Type 0
UniqueIds [] = Unit
UniqueIds (row ∷ rows) = (find_run row.id rows ≡ none) × UniqueIds rows

In-keep :
    (test : GenerationRun → Bool) (run row : GenerationRun) (rows kept : List GenerationRun)
    (b : Bool)
    → test row ≡ b
    → (In run kept → In run rows × (test run ≡ true))
    → In run (if b then row ∷ kept else kept)
    → In run (row ∷ rows) × (test run ≡ true)
In-keep test run row rows kept true e ih (inl p) = (inl p, cc (ap test p))
In-keep test run row rows kept true e ih (inr q) = (inr (ih q).0, (ih q).1)
In-keep test run row rows kept false e ih q = (inr (ih q).0, (ih q).1)

pub keep-In :
    (test : GenerationRun → Bool) (run : GenerationRun) (rows : List GenerationRun)
    → In run (keep test rows)
    → In run rows × (test run ≡ true)
unfolding keep
keep-In test run [] h = elim h [ ]
keep-In test run (row ∷ rows) h =
    In-keep test run row rows (keep test rows) (test row) refl (keep-In test run rows) h

earlier_cases :
    (row : GenerationRun) (o : Option GenerationRun)
    → (earlier row o ≡ row) ⊎ (o ≡ some (earlier row o))
unfolding earlier
earlier_cases row none = inl refl
earlier_cases row (some other) = ground arith

pub earliest-In :
    (rows : List GenerationRun) (run : GenerationRun) → earliest rows ≡ some run → In run rows
unfolding earliest
earliest-In [] run h = cc
earliest-In (row ∷ rows) run h = elim (earlier_cases row (earliest rows)) [
  | inl first ↦ inl (cc)
  | inr later ↦ inr (earliest-In rows run (cc))
]

-- What the queue picks is a row, satisfies the test, and is not locked elsewhere.
pub first_unlocked-In :
    (test : GenerationRun → Bool) (m : Moment) (rows : List GenerationRun) (run : GenerationRun)
    → first_unlocked test m rows ≡ some run
    → In run rows × (test run ≡ true) × (m.locked run.id ≡ false)
unfolding first_unlocked
first_unlocked-In test m rows run h =
    let (there, passes) =
      keep-In (λ r. test r && not (m.locked r.id)) run rows (earliest-In _ run h) in
    (there, ground arith, ground arith)

find_run-id :
    (run_id : ℕ) (rows : List GenerationRun) (run : GenerationRun)
    → find_run run_id rows ≡ some run
    → run.id ≡ run_id
unfolding find_run
find_run-id run_id [] run h = cc
find_run-id run_id (row ∷ rows) run h = ground (arith, find_run-id run_id rows run)

In-find_run :
    (run : GenerationRun) (rows : List GenerationRun) → In run rows → find_run run.id rows ≢ none
unfolding find_run
In-find_run run [] h = elim h [ ]
In-find_run run (row ∷ rows) (inl p) = ground arith
In-find_run run (row ∷ rows) (inr q) = ground (arith, In-find_run run rows q)

-- Under the primary key a row is found by its identifier.
pub find_run-In' :
    (run : GenerationRun) (rows : List GenerationRun)
    → UniqueIds rows
    → In run rows
    → find_run run.id rows ≡ some run
unfolding find_run
find_run-In' run [] u h = elim h [ ]
find_run-In' run (row ∷ rows) u (inl p) = ground arith
find_run-In' run (row ∷ rows) u (inr q) =
    ground (arith, In-find_run run rows q, find_run-In' run rows u.1 q)

pub find_run-In :
    (run_id : ℕ) (run : GenerationRun) (rows : List GenerationRun)
    → find_run run_id rows ≡ some run
    → In run rows × (run.id ≡ run_id)
unfolding find_run
find_run-In run_id run [] h = cc
find_run-In run_id run (row ∷ rows) h = elim (Bool-cases (row.id == run_id)) [
  | inl e ↦ (inl (ground arith), ground arith)
  | inr e ↦ (let (there, same) = find_run-In run_id run rows (ground arith) in (inr there, same))
]
