-- ===== src/Lifecycle/History.antt =====
-- What holds after any history of actions.
use proofgraph.Base.{
  ℕ, ◌≡◌, refl, none, some, List, [], ◌∷◌, Result, ok, err, committed, arith, All, ◌==◌, inl, inr,
  subst, Bool-cases,
}
use proofgraph.Tables.{GenerationRun, Store, find_run}
use proofgraph.Events.Sequences.{InSequence}
use proofgraph.Events.Endings.{EndsOnce}
use proofgraph.Queue.Rows.{UniqueIds}
use proofgraph.Queue.Steps.{RunStep, LeaseState, Steps}
use proofgraph.Lifecycle.{Action, perform, history, WellBehaved}
use proofgraph.Lifecycle.Sound.{Sound, Sound-refl, Sound-trans, SoundTx}
use proofgraph.Lifecycle.QueueSound.{
  claim_one-Sound, terminalize_one-Sound, reclaim_patch_ready-Sound, complete_recovered-Sound,
  renew_lease-Sound, cancel_generation_run-Sound, retry_generation_run-Sound,
}
use proofgraph.Lifecycle.ExecutionSound.{
  cancel_if_requested-Sound, fail_run-Sound, append_progress_event-Sound, complete_run-Sound,
}
use proofgraph.Lifecycle.DemoSound.{reset_run-Sound, clean_run-Sound}
use proofgraph.Lifecycle.StagesSound.{begin_stage-Sound, complete_stage-Sound, persist_patch-Sound}

committed-Sound :
    {A : Type 0} (s : Store) (r : Result (A × Store)) → SoundTx s r → Sound s (committed s r)
committed-Sound s (ok (a, t)) h = h
committed-Sound s (err e) h = Sound-refl s

pub perform-Sound :
    (s : Store) (a : Action) → UniqueIds s.runs → WellBehaved a → Sound s (perform a s)
unfolding perform
perform-Sound s (Action.claims worker m) u w = committed-Sound s _ (claim_one-Sound s u worker m)
perform-Sound s (Action.exhausts m) u w = committed-Sound s _ (terminalize_one-Sound s u m)
perform-Sound s (Action.reclaims m) u w = committed-Sound s _ (reclaim_patch_ready-Sound s u m)
perform-Sound s (Action.recovers lease now) u w =
    committed-Sound s _ (complete_recovered-Sound s u lease now)
perform-Sound s (Action.renews lease now) u w =
    committed-Sound s _ (renew_lease-Sound s u lease now)
perform-Sound s (Action.cancels run_id now) u w =
    committed-Sound s _ (cancel_generation_run-Sound s u run_id now)
perform-Sound s (Action.retries run_id) u w =
    committed-Sound s _ (retry_generation_run-Sound s u run_id)
perform-Sound s (Action.observes lease stage now clock) u w =
    committed-Sound s _ (cancel_if_requested-Sound s u lease stage now clock)
perform-Sound s (Action.begins validate_json lease name hash fresh now clock) u w =
    committed-Sound s _ (begin_stage-Sound s u validate_json lease name hash fresh now clock)
perform-Sound s (Action.finishes lease stage result now clock) u w =
    committed-Sound s _ (complete_stage-Sound s u lease stage result now clock w)
perform-Sound s (Action.reports lease p now) u w =
    committed-Sound s _ (append_progress_event-Sound s u lease p now w)
perform-Sound s (Action.fails lease error stage now clock) u w =
    committed-Sound s _ (fail_run-Sound s u lease error stage now clock)
perform-Sound s (Action.persists lease output fresh now clock) u w =
    committed-Sound s _ (persist_patch-Sound s u lease output fresh now clock)
perform-Sound s (Action.completes lease patch now clock) u w =
    committed-Sound s _ (complete_run-Sound s u lease patch now clock)
perform-Sound s (Action.resets session canvas run_id now) u w =
    committed-Sound s _ (reset_run-Sound s u now session canvas run_id)
perform-Sound s (Action.cleans session run_id now) u w =
    committed-Sound s _ (clean_run-Sound s u now session run_id)

find_run-none-Steps :
    (run_id : ℕ) (rows rows' : List GenerationRun)
    → Steps rows rows'
    → find_run run_id rows ≡ none
    → find_run run_id rows' ≡ none
unfolding find_run
find_run-none-Steps run_id [] [] st h = refl
find_run-none-Steps run_id [] (q ∷ rows') st h = elim st [ ]
find_run-none-Steps run_id (r ∷ rows) [] st h = refl
find_run-none-Steps run_id (r ∷ rows) (q ∷ rows') st h =
    ground (arith, st.0.same_id, find_run-none-Steps run_id rows rows' st.1)

pub UniqueIds-Steps :
    (rows rows' : List GenerationRun) → Steps rows rows' → UniqueIds rows → UniqueIds rows'
UniqueIds-Steps [] [] st u = tt
UniqueIds-Steps [] (q ∷ rows') st u = elim st [ ]
UniqueIds-Steps (r ∷ rows) [] st u = tt
UniqueIds-Steps (r ∷ rows) (q ∷ rows') st u = (
  rw st.0.same_id (find_run-none-Steps r.id rows rows' st.1 u.0),
  UniqueIds-Steps rows rows' st.1 u.1,
)

-- A history is sound.
pub history-Sound :
    (s : Store) (actions : List Action)
    → UniqueIds s.runs
    → All WellBehaved actions
    → Sound s (history actions s)
unfolding history
history-Sound s [] u w = Sound-refl s
history-Sound s (a ∷ rest) u w =
    let first = perform-Sound s a u w.0 in
    Sound-trans s (perform a s) (history rest (perform a s)) first (
      history-Sound (perform a s) rest (UniqueIds-Steps s.runs (perform a s).runs first.steps u)
        w.1)

-- What a row becomes after its table stepped.
pub find_run-Steps :
    (run_id : ℕ) (run : GenerationRun) (rows rows' : List GenerationRun)
    → Steps rows rows'
    → find_run run_id rows ≡ some run
    → (q : GenerationRun) × (find_run run_id rows' ≡ some q) × RunStep run q
unfolding find_run
find_run-Steps run_id run [] rows' st h = cc
find_run-Steps run_id run (r ∷ rows) [] st h = elim st [ ]
find_run-Steps run_id run (r ∷ rows) (q ∷ rows') st h = elim (Bool-cases (r.id == run_id)) [
  | inl e ↦ (q, ground (arith, st.0.same_id), subst (λ x. RunStep x q) (ground arith) st.0)
  | inr e ↦
      let (q', found, step) = find_run-Steps run_id run rows rows' st.1 (ground arith) in
      (q', ground (arith, st.0.same_id), step)
]

-- Run ids are distinct, and no progress event of a provider is of a terminal type. After any history every run is still there, and went from what it was by allowed steps: its
-- identity and request are the same, its lease epoch and its attempts did not fall, its attempts
-- stay within the limit, and a completed or cancelled run has the same status.
pub find_run-history :
    (s : Store) (actions : List Action) (run_id : ℕ) (run : GenerationRun)
    → UniqueIds s.runs
    → All WellBehaved actions
    → find_run run_id s.runs ≡ some run
    → (q : GenerationRun) × (find_run run_id (history actions s).runs ≡ some q) × RunStep run q
find_run-history s actions run_id run u w h =
    find_run-Steps run_id run s.runs (history actions s).runs (history-Sound s actions u w).steps h

All-LeaseState-Steps :
    (rows rows' : List GenerationRun)
    → Steps rows rows'
    → All LeaseState rows
    → All LeaseState rows'
All-LeaseState-Steps [] [] st l = tt
All-LeaseState-Steps [] (q ∷ rows') st l = elim st [ ]
All-LeaseState-Steps (r ∷ rows) [] st l = tt
All-LeaseState-Steps (r ∷ rows) (q ∷ rows') st l =
    (st.0.lease l.0, All-LeaseState-Steps rows rows' st.1 l.1)

-- Run ids are distinct, and no progress event of a provider is of a terminal type. After any history the lease fields of every run are set exactly in the leased statuses, as the
-- constraint ck_run_lease_state asks, if they were so before.
pub history-LeaseState :
    (s : Store) (actions : List Action)
    → UniqueIds s.runs
    → All WellBehaved actions
    → All LeaseState s.runs
    → All LeaseState (history actions s).runs
history-LeaseState s actions u w l =
    All-LeaseState-Steps s.runs (history actions s).runs (history-Sound s actions u w).steps l

-- Run ids are distinct, and no progress event of a provider is of a terminal type. After any history the events of each canvas and of each run are numbered from 1 without a gap,
-- and the cursor of a canvas is its last number, if they were so before.
pub history-InSequence :
    (s : Store) (actions : List Action)
    → UniqueIds s.runs
    → All WellBehaved actions
    → InSequence s
    → InSequence (history actions s)
history-InSequence s actions u w v = (history-Sound s actions u w).sequence v

-- Run ids are distinct. After any history no attempt of a run has two terminal events, if none had
-- before and no progress event of a provider is of a terminal type.
pub history-EndsOnce :
    (s : Store) (actions : List Action)
    → UniqueIds s.runs
    → All WellBehaved actions
    → EndsOnce s.events
    → EndsOnce (history actions s).events
history-EndsOnce s actions u w v = (history-Sound s actions u w).ended v
