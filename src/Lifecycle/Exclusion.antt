-- ===== src/Lifecycle/Exclusion.antt =====
-- A live lease and the claims of other workers.
use proofgraph.Base.{
  ℕ, ◌+◌, ◌≤◌, ◌<◌, String, ◌≡◌, ◌∙◌, refl, sym, true, false, Option, none, some, List, [], ◌∷◌, ok,
  arith, All, inl, inr, Bool-cases, ap, subst, Result-cases, Commits, eq_iff, any, ◌==◌, committed,
}
use proofgraph.Tables.{RunStatus, GenerationRun, Store, find_run, save_run, same_status}
use proofgraph.Queue.{
  Moment, RunLease, holds, lock_fenced_run, first_unlocked, lease_of, lease_duration, expired,
}
use proofgraph.Queue.Claim.{is_claimable, claim_one, claimed}
use proofgraph.Queue.Rows.{UniqueIds, first_unlocked-In, find_run-In'}
use proofgraph.Lifecycle.{Action, perform, history}
use proofgraph.Lifecycle.History.{perform-Sound, UniqueIds-Steps}
use proofgraph.Lifecycle.QueueSound.{claim_one-Sound}
use proofgraph.Lifecycle.Sound.{Sound, SoundTx}
use proofgraph.Lifecycle.Fencing.{Claimed, claim_one-Claimed, claim_granted, found_after_claim}

-- Claims of workers, each at its moment.
abbrev pub claims_of : List (String × Moment) → List Action
claims_of [] = []
claims_of ((worker, m) ∷ others) = Action.claims worker m ∷ claims_of others

holds-claimed :
    (worker : String) (m : Moment) (run : GenerationRun) (now : ℕ)
    → now < m.now + lease_duration
    → holds
        (lease_of worker m.fresh (claimed worker m run))
        (RunStatus.running ∷ [])
        true
        now
        (claimed worker m run)
      ≡ true
unfolding holds claimed lease_of same_status any
holds-claimed worker m run now early = ground (arith, eq_iff worker worker)

not_claimable :
    (worker : String) (m : Moment) (run : GenerationRun) (now : ℕ)
    → now ≤ m.now + lease_duration
    → is_claimable now (claimed worker m run) ≡ false
unfolding is_claimable claimed same_status expired
not_claimable worker m run now early = ground arith

find_run-save_run_other :
    (id : ℕ) (new : GenerationRun) (rows : List GenerationRun)
    → (new.id == id) ≡ false
    → find_run id (save_run new rows) ≡ find_run id rows
unfolding find_run save_run
find_run-save_run_other id new [] h = refl
find_run-save_run_other id new (row ∷ rows) h =
    ground (arith, find_run-save_run_other id new rows h)

passed_over :
    (worker : String) (m : Moment) (s : Store) (run : GenerationRun)
    → UniqueIds s.runs
    → find_run run.id s.runs ≡ some run
    → is_claimable m.now run ≡ false
    → (lease : Option RunLease) (t : Store) → Claimed worker m s lease t
    → find_run run.id t.runs ≡ some run
unfolding claimed
passed_over worker m s run u there live none t same =
    subst (λ (x : Store). find_run run.id x.runs ≡ some run) (sym same) there
passed_over worker m s run u there live (some lease) t (picked, first, which, rows) =
    let (inside, passes, free) = first_unlocked-In (is_claimable m.now) m s.runs picked first in
    rw rows (elim (Bool-cases (picked.id == run.id)) [
      | inl e ↦
          let ids : picked.id ≡ run.id = ground arith in
          let known = find_run-In' picked s.runs u inside in
          let one : some picked ≡ some run =
            sym known ∙ ap (λ (n : ℕ). find_run n s.runs) ids ∙ there in
          let picked_is : picked ≡ run = cc in
          let absurd : ⊥ =
            cc (sym passes ∙ ap (λ (r : GenerationRun). is_claimable m.now r) picked_is ∙ live) in
          elim absurd [ ]
      | inr e ↦ find_run-save_run_other run.id (claimed worker m picked) s.runs e ∙ there
    ])

-- A run that a claim must not take is left as it is.
claim_passes_over :
    (worker : String) (m : Moment) (s : Store) (run : GenerationRun)
    → UniqueIds s.runs
    → find_run run.id s.runs ≡ some run
    → is_claimable m.now run ≡ false
    → find_run run.id (committed s (claim_one worker m s)).runs ≡ some run
claim_passes_over worker m s run u there live = elim (Result-cases (claim_one worker m s)) [
  | inl ((lease, t), e) ↦ rw e (
      passed_over worker m s run u there live lease t
        (subst (Commits (Claimed worker m s)) e (claim_one-Claimed worker m s)))
  | inr (k, e) ↦ rw e there
]

lease_kept :
    (expiry : ℕ) (run : GenerationRun) (others : List (String × Moment)) (s : Store)
    → UniqueIds s.runs
    → find_run run.id s.runs ≡ some run
    → ((now : ℕ) → now ≤ expiry → is_claimable now run ≡ false)
    → All (λ (o : String × Moment). o.1.now ≤ expiry) others
    → find_run run.id (history (claims_of others) s).runs ≡ some run
unfolding history perform
lease_kept expiry run [] s u there live early = there
lease_kept expiry run ((worker, m) ∷ others) s u there live early =
    let first = perform-Sound s (Action.claims worker m) u tt in
    lease_kept expiry run others (perform (Action.claims worker m) s)
      (UniqueIds-Steps s.runs (perform (Action.claims worker m) s).runs first.steps u)
      (claim_passes_over worker m s run u there (live m.now early.0)) live early.1

-- Run ids are distinct. A claim that grants a lease has picked the first claimable run that no
-- other transaction locks. Whatever claims of workers follow, each at most the lease's duration
-- later, at any time before the lease has run out the fenced lock accepts the lease for a running
-- run, and finds the run as the claim left it: no other worker got it.
pub claim_grants_lease :
    (worker : String) (m : Moment) (s t : Store) (lease : RunLease)
    (others : List (String × Moment)) (now : ℕ)
    → UniqueIds s.runs
    → claim_one worker m s ≡ ok (some lease, t)
    → All (λ (o : String × Moment). o.1.now ≤ m.now + lease_duration) others
    → now < m.now + lease_duration
    → (run : GenerationRun) × (first_unlocked (is_claimable m.now) m s.runs ≡ some run)
      × (lock_fenced_run lease (RunStatus.running ∷ []) true now (history (claims_of others) t)
          ≡ ok (claimed worker m run, history (claims_of others) t))
unfolding lock_fenced_run lease_of claimed
claim_grants_lease worker m s t lease others now u claim before early =
    let (run, picked, which, rows) = claim_granted worker m s t lease claim in
    let st : Sound s t = subst (SoundTx s) claim (claim_one-Sound s u worker m) in
    let after = history (claims_of others) t in
    let there : find_run lease.run_id after.runs ≡ some (claimed worker m run) =
      ap (λ (l : RunLease). find_run l.run_id after.runs) which
      ∙ lease_kept (m.now + lease_duration) (claimed worker m run) others t
          (UniqueIds-Steps s.runs t.runs st.steps u)
          (found_after_claim worker m s t run u picked rows) (not_claimable worker m run) before in
    let held : holds lease (RunStatus.running ∷ []) true now (claimed worker m run) ≡ true =
      rw which (holds-claimed worker m run now early) in
    (run, picked, rw (there, lock_fenced_run, held) refl)
