-- ===== src/Lifecycle/DemoSound.antt =====
-- The transactions of a demo session on its runs are sound.
use proofgraph.Base.{
  ℕ, String, ◌≡◌, refl, Bool, true, false, ◌&&◌, ◌>>◌, ◌==◌, arith, any, Option-cases, Bool-cases,
  inl, inr, pure,
}
use proofgraph.Tables.{RunStatus, GenerationRun, Store, find_run, same_status}
use proofgraph.Queue.Rows.{UniqueIds, In, find_run-In}
use proofgraph.Queue.Steps.{RunStep}
use proofgraph.Queue.{status_in}
use proofgraph.Services.{is_some}
use proofgraph.Demo.Fencing.{
  active_statuses, is_active, fenced, fence_and_terminalize_run, reset_run, lease_over,
  clean_active, clean_run,
}
use proofgraph.Lifecycle.Sound.{
  Sound-refl, SoundTx, bind-Sound, store_run-Sound, write_append-Sound,
}
use proofgraph.Lifecycle.Updates.{request_cancellation-RunStep}

fenced-RunStep :
    (cancelled : Bool) (now : ℕ) (run : GenerationRun)
    → status_in active_statuses run.status ≡ true
    → RunStep run (fenced cancelled now run)
unfolding fenced is_some status_in same_status any
fenced-RunStep true now run h = record {
  same_id = refl;
  same_request = refl;
  epoch = omega arith;
  attempts = omega arith;
  budget = λ b. b;
  fenced = λ e. inl refl;
  closed = λ c. ground arith;
  lease = λ l. record { worker = refl; token = refl; heartbeat = refl; expiry = refl };
}
fenced-RunStep false now run h = record {
  same_id = refl;
  same_request = refl;
  epoch = omega arith;
  attempts = omega arith;
  budget = λ b. b;
  fenced = λ e. inl refl;
  closed = λ c. ground arith;
  lease = λ l. record { worker = refl; token = refl; heartbeat = refl; expiry = refl };
}

module _ (s : Store) (unique : UniqueIds s.runs) (now : ℕ) where
  fence_and_terminalize_run-Sound :
      (run : GenerationRun) (cancelled : Bool) (reason : String)
      → In run s.runs
      → status_in active_statuses run.status ≡ true
      → SoundTx s (fence_and_terminalize_run run now cancelled reason s)
  unfolding fence_and_terminalize_run
  fence_and_terminalize_run-Sound run cancelled reason there active =
      write_append-Sound run (fenced cancelled now run) _ _ true _ s unique there
        (fenced-RunStep cancelled now run active) (λ _. refl) (λ _ u. Sound-refl u)

  pub reset_run-Sound :
      (session canvas run_id : ℕ) → SoundTx s (reset_run session canvas run_id now s)
  unfolding is_active reset_run
  reset_run-Sound session canvas run_id = elim (Option-cases (find_run run_id s.runs)) [
    | inl e ↦ rw (reset_run, e) (Sound-refl s)
    | inr (run, e) ↦ elim (Bool-cases (is_active session run && run.canvas_id == canvas)) [
      | inl h ↦
          rw (reset_run, e, h)
            (fence_and_terminalize_run-Sound run true "demo_reset"
              (find_run-In run_id run s.runs e).0 (ground (arith, h)))
      | inr h ↦ rw (reset_run, e, h) (Sound-refl s)
    ]
  ]

  fence_then_pure-Sound :
      (run : GenerationRun) (cancelled : Bool)
      → In run s.runs
      → status_in active_statuses run.status ≡ true
      → SoundTx s
          ((fence_and_terminalize_run run now cancelled "demo_session_expired" >> pure false) s)
  fence_then_pure-Sound run cancelled there active =
      bind-Sound (fence_and_terminalize_run run now cancelled "demo_session_expired")
        (λ _. pure false) s s (Sound-refl s)
        (fence_and_terminalize_run-Sound run cancelled "demo_session_expired" there active)
        (λ _ u _. Sound-refl u)

  clean_active-Sound :
      (run : GenerationRun)
      → In run s.runs
      → status_in active_statuses run.status ≡ true
      → SoundTx s (clean_active now run s)
  unfolding clean_active
  clean_active-Sound run there active =
      elim (Bool-cases (same_status run.status RunStatus.queued)) [
        | inl q ↦ rw (clean_active, q) (fence_then_pure-Sound run true there active)
        | inr q ↦
            elim (Bool-cases (same_status run.status RunStatus.patch_ready && lease_over now run)) [
              | inl r ↦ rw (clean_active, q, r) (fence_then_pure-Sound run false there active)
              | inr r ↦
                  elim (Bool-cases
                    (same_status run.status RunStatus.running && lease_over now run)) [
                      | inl t ↦
                          rw (clean_active, q, r, t) (fence_then_pure-Sound run true there active)
                      | inr t ↦
                          rw (clean_active, q, r, t)
                            (store_run-Sound run _ s unique there
                              (request_cancellation-RunStep now run))
                    ]
            ]
      ]

  pub clean_run-Sound : (session run_id : ℕ) → SoundTx s (clean_run session run_id now s)
  unfolding is_active clean_run
  clean_run-Sound session run_id = elim (Option-cases (find_run run_id s.runs)) [
    | inl e ↦ rw (clean_run, e) (Sound-refl s)
    | inr (run, e) ↦ elim (Bool-cases (is_active session run)) [
      | inl h ↦
          rw (clean_run, e, h)
            (clean_active-Sound run (find_run-In run_id run s.runs e).0 (ground (arith, h)))
      | inr h ↦ rw (clean_run, e, h) (Sound-refl s)
    ]
  ]
