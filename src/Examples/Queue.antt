-- ===== src/Examples/Queue.antt =====
-- The order and the clean-up of the queue at concrete inputs.
use proofgraph.Base.{ℕ, ◌+◌, ◌≡◌, refl, inl, true, false, some, ◌∷◌, [], Result, arith}
use proofgraph.Tables.{GenerationRun, Store, same_status}
use proofgraph.Queue.{before, terminalize_exhausted_runs}
use proofgraph.Queue.Rows.{In}
use proofgraph.Queue.Claim.{is_claimable}
use proofgraph.Lifecycle.CleanUp.{unfailed, Cleaned, terminalize_exhausted_runs_total}
use proofgraph.Lifecycle.Fairness.{claim_takes_oldest}
use proofgraph.Examples.Samples.{running_run, table, moment, second_lease}
use proofgraph.Examples.Lifecycle.{after_claim, claim_by_b}

claim_takes_oldest_example :
    (run : GenerationRun) × In run (running_run ∷ [])
    × (is_claimable 60 run ≡ true)
    × ((moment 60 200).locked run.id ≡ false)
    × (second_lease.run_id ≡ run.id)
    × (before run running_run ≡ true)
unfolding is_claimable
claim_takes_oldest_example =
    claim_takes_oldest "b" (moment 60 200) (table running_run) after_claim second_lease running_run
      claim_by_b (inl refl) refl refl

terminalize_exhausted_runs_total_example :
    (outcome : Result ℕ) × (t : Store) × (terminalize_exhausted_runs 2
        (λ n. moment (60 + n) 0)
        (table running_run)
      ≡ some (outcome, t))
    × Cleaned (λ n. moment (60 + n) 0) outcome t
unfolding unfailed same_status
terminalize_exhausted_runs_total_example =
    terminalize_exhausted_runs_total 2 (λ n. moment (60 + n) 0) (table running_run) (omega arith)
