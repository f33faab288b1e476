-- ===== src/Lifecycle/Fairness.antt =====
-- claim_run takes the runs in their order (proofgraph/generation/queue.py).
use proofgraph.Base.{String, ◌≡◌, ap, true, false, some, ok}
use proofgraph.Tables.{GenerationRun, Store}
use proofgraph.Queue.{Moment, RunLease, before, lease_of}
use proofgraph.Queue.Rows.{In, first_unlocked-In}
use proofgraph.Queue.Order.{first_unlocked-before}
use proofgraph.Queue.Claim.{is_claimable, claimed, claim_one}
use proofgraph.Lifecycle.Fencing.{claim_granted}

-- A claim that grants a lease takes a claimable row of the table that nobody had locked, and one
-- that comes, by creation time and then id, before every other such row.
pub claim_takes_oldest :
    (worker : String) (m : Moment) (s t : Store) (lease : RunLease) (row : GenerationRun)
    → claim_one worker m s ≡ ok (some lease, t)
    → In row s.runs
    → is_claimable m.now row ≡ true
    → m.locked row.id ≡ false
    → (run : GenerationRun) × In run s.runs
      × (is_claimable m.now run ≡ true)
      × (m.locked run.id ≡ false)
      × (lease.run_id ≡ run.id)
      × (before run row ≡ true)
unfolding lease_of claimed
claim_takes_oldest worker m s t lease row claim i passes free =
    let (run, picked, which, rows) = claim_granted worker m s t lease claim in
    let (there, test, unlocked) = first_unlocked-In _ m s.runs run picked in
    (
      run,
      there,
      test,
      unlocked,
      ap (λ (l : RunLease). l.run_id) which,
      first_unlocked-before _ m s.runs run row picked i passes free,
    )
