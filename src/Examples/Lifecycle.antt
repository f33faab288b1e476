-- ===== src/Examples/Lifecycle.antt =====
-- The queue and the life of runs at concrete inputs.
use proofgraph.Base.{
  String, ◌≡◌, refl, true, some, List, [], ◌∷◌, ok, err, Error, arith, All, committed,
}
use proofgraph.Retention.{validate_progress_payload, casefold, check_entry, is_source_node}
use proofgraph.Tables.{
  RunStatus, event_name, GenerationRun, Store, find_run, find_cursor, save_cursor, save_run,
}
use proofgraph.Events.{append_event_locked, create_event, max_run_sequence}
use proofgraph.Events.Sequences.{InSequence}
use proofgraph.Events.Endings.{EndsOnce}
use proofgraph.Queue.{Moment, first_unlocked, lock_fenced_run, lease_of}
use proofgraph.Queue.Claim.{claim_one, claimed, claim_payload, resumes, is_claimable}
use proofgraph.Queue.Rows.{UniqueIds}
use proofgraph.Queue.Steps.{RunStep, LeaseState}
use proofgraph.Services.{is_some}
use proofgraph.Lifecycle.{Action, history}
use proofgraph.Lifecycle.Fencing.{claim_fences_old_leases}
use proofgraph.Lifecycle.Exclusion.{claims_of, claim_grants_lease}
use proofgraph.Lifecycle.History.{
  find_run-history, history-LeaseState, history-InSequence, history-EndsOnce,
}
use proofgraph.Examples.Samples.{running_run, table, moment, first_lease, second_lease}

pub after_claim : Store
after_claim = committed (table running_run) (claim_one "b" (moment 60 200) (table running_run))

pub claim_by_b :
    claim_one "b" (moment 60 200) (table running_run) ≡ ok (some second_lease, after_claim)
unfolding after_claim claim_one claimed append_event_locked validate_progress_payload event_name
    find_cursor is_claimable claim_payload resumes create_event save_run save_cursor
    max_run_sequence check_entry casefold is_source_node lease_of
claim_by_b = refl

one_run : UniqueIds ((running_run) ∷ [])
unfolding find_run
one_run = (refl, tt)

-- What worker "a" still tries after "b" has claimed the run.
abbrev late_attempts : List Action
late_attempts = Action.renews first_lease 61 ∷ Action.cancels 1 62 ∷ Action.retries 1 ∷ []

claim_fences_old_leases_example :
    lock_fenced_run first_lease (RunStatus.running ∷ []) true 63 (history late_attempts after_claim)
    ≡ err Error.lease_lost
claim_fences_old_leases_example =
    claim_fences_old_leases "b" (moment 60 200) (table running_run) after_claim second_lease
      first_lease running_run late_attempts (RunStatus.running ∷ []) true 63 one_run
      (tt, (tt, (tt, tt))) claim_by_b refl (unfold find_run in refl) (omega arith)

-- Two others look for work meanwhile.
abbrev rivals : List (String × Moment)
rivals = ("c", moment 70 300) ∷ ("a", moment 80 301) ∷ []

claim_grants_lease_example :
    (run : GenerationRun) × (first_unlocked (is_claimable 60) (moment 60 200) (running_run ∷ [])
      ≡ some run)
    × (lock_fenced_run second_lease
          (RunStatus.running ∷ [])
          true
          90
          (history (claims_of rivals) after_claim)
        ≡ ok (claimed "b" (moment 60 200) run, history (claims_of rivals) after_claim))
claim_grants_lease_example =
    claim_grants_lease "b" (moment 60 200) (table running_run) after_claim second_lease rivals 90
      one_run claim_by_b (omega arith) (omega arith)

abbrev round_trip : List Action
round_trip =
    Action.claims "b" (moment 60 200) ∷ Action.renews second_lease 70 ∷ Action.cancels 1 80 ∷ []

find_run-history_example :
    (q : GenerationRun) × (find_run 1 (history round_trip (table running_run)).runs ≡ some q)
    × RunStep running_run q
find_run-history_example =
    find_run-history (table running_run) round_trip 1 running_run one_run (tt, (tt, (tt, tt)))
      (unfold find_run in refl)

running_run-LeaseState : All LeaseState (running_run ∷ [])
unfolding is_some
running_run-LeaseState =
    (record { worker = refl; token = refl; heartbeat = refl; expiry = refl }, tt)

history-LeaseState_example : All LeaseState (history round_trip (table running_run)).runs
history-LeaseState_example =
    history-LeaseState (table running_run) round_trip one_run (tt, (tt, (tt, tt)))
      running_run-LeaseState

table-InSequence : InSequence (table running_run)
unfolding find_cursor max_run_sequence
table-InSequence = record { canvases = λ canvas last h. ground arith; runs = λ run. refl }

history-InSequence_example : InSequence (history round_trip (table running_run))
history-InSequence_example =
    history-InSequence (table running_run) round_trip one_run (tt, (tt, (tt, tt))) table-InSequence

history-EndsOnce_example : EndsOnce (history round_trip (table running_run)).events
history-EndsOnce_example =
    history-EndsOnce (table running_run) round_trip one_run (tt, (tt, (tt, tt))) tt
