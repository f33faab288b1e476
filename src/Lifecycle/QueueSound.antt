-- ===== src/Lifecycle/QueueSound.antt =====
-- The transactions of queue.py and services.py are sound.
use proofgraph.Base.{
  ℕ, String, ◌≡◌, refl, Bool, true, false, [], ◌∷◌, Commits, raise, Error, if◌then◌else◌,
  Option-cases, Bool-cases, inl, inr,
}
use proofgraph.Tables.{RunStatus, EventType, GenerationRun, Store, find_run, patch_of_run}
use proofgraph.Events.{is_terminal}
use proofgraph.Queue.{
  Moment, RunLease, first_unlocked, is_exhausted, poisoned, terminalize_one, renewed, renew_lease,
  holds,
}
use proofgraph.Queue.Recovery.{
  is_recoverable, recovery_worker_id, reclaim_patch_ready, completed, patch_id_of,
  complete_recovered,
}
use proofgraph.Queue.Claim.{is_claimable, claimed, resumes, claim_one}
use proofgraph.Queue.Rows.{UniqueIds, In, first_unlocked-In, find_run-In}
use proofgraph.Services.{
  cancelled_before_claim, request_cancellation, cancel_locked, get_generation_run,
  cancel_generation_run, requeued, requeue, refuses_retry, retry_generation_run, service_result,
}
use proofgraph.Lifecycle.Sound.{
  Sound-refl, SoundTx, store_run-Sound, write_append-Sound, locked-Sound, reads-Sound,
}
use proofgraph.Lifecycle.Updates.{
  poisoned-RunStep, recovered-RunStep, claimed-RunStep, completed-RunStep, renewed-RunStep,
  cancelled_before_claim-RunStep, request_cancellation-RunStep, requeued-RunStep, holds-running,
  holds-patch_ready,
}

patch_id_of-Commits :
    (run : GenerationRun) (s : Store) → Commits (λ _ t. (t ≡ s) × Unit {0}) (patch_id_of run s)
unfolding patch_id_of
patch_id_of-Commits run s = elim (Option-cases (patch_of_run run.id s.patches)) [
  | inl e ↦ rw (e, patch_id_of) tt
  | inr (patch, e) ↦ rw (e, patch_id_of) (refl, tt)
]

get_generation_run-Commits :
    (run_id : ℕ) (s : Store)
    → Commits (λ run t. (t ≡ s) × In run s.runs) (get_generation_run run_id s)
unfolding get_generation_run
get_generation_run-Commits run_id s = elim (Option-cases (find_run run_id s.runs)) [
  | inl e ↦ rw (e, get_generation_run) tt
  | inr (run, e) ↦ rw (e, get_generation_run) (refl, (find_run-In run_id run s.runs e).0)
]

-- Neither event of a claim ends the run.
resume_or_start :
    (b : Bool)
    → is_terminal (if b then EventType.run_resumed else EventType.run_started) ≡ true
    → false ≡ true
unfolding is_terminal
resume_or_start true h = h
resume_or_start false h = h

module _ (s : Store) (unique : UniqueIds s.runs) where
  pub terminalize_one-Sound : (m : Moment) → SoundTx s (terminalize_one m s)
  unfolding terminalize_one
  terminalize_one-Sound m = elim (Option-cases (first_unlocked (is_exhausted m.now) m s.runs)) [
    | inl e ↦ rw (e, terminalize_one) (Sound-refl s)
    | inr (run, e) ↦
        let (there, test, _) = first_unlocked-In _ m s.runs run e in
        rw (e, terminalize_one)
          (write_append-Sound run (poisoned m.now run) EventType.run_failed _ true _ s unique there
            (poisoned-RunStep m.now run test) (λ _. refl) (λ _ u. Sound-refl u))
  ]

  pub reclaim_patch_ready-Sound : (m : Moment) → SoundTx s (reclaim_patch_ready m s)
  unfolding reclaim_patch_ready
  reclaim_patch_ready-Sound m =
      elim (Option-cases (first_unlocked (is_recoverable s.patches m.now) m s.runs)) [
        | inl e ↦ rw (e, reclaim_patch_ready) (Sound-refl s)
        | inr (run, e) ↦
            let (there, test, _) = first_unlocked-In _ m s.runs run e in
            rw (e, reclaim_patch_ready)
              (store_run-Sound run _ s unique there
                (recovered-RunStep (recovery_worker_id m.fresh) m.fresh m.now s.patches run test))
      ]

  pub complete_recovered-Sound :
      (lease : RunLease) (now : ℕ) → SoundTx s (complete_recovered lease now s)
  unfolding complete_recovered
  complete_recovered-Sound lease now =
      locked-Sound lease (RunStatus.patch_ready ∷ []) true now _ s λ run there held.
        reads-Sound (λ _. Unit {0}) (patch_id_of run) _ s (patch_id_of-Commits run s)
          λ _ _.
            write_append-Sound run (completed now run) EventType.run_completed _ true _ s unique
              there (completed-RunStep now run (holds-patch_ready lease true now run held))
              (λ _. refl) (λ _ u. Sound-refl u)

  pub claim_one-Sound : (worker_id : String) (m : Moment) → SoundTx s (claim_one worker_id m s)
  unfolding claim_one
  claim_one-Sound worker_id m = elim (Option-cases (first_unlocked (is_claimable m.now) m s.runs)) [
    | inl e ↦ rw (e, claim_one) (Sound-refl s)
    | inr (run, e) ↦
        let (there, test, _) = first_unlocked-In _ m s.runs run e in
        rw (e, claim_one)
          (write_append-Sound run (claimed worker_id m run) _ _ false _ s unique there
            (claimed-RunStep worker_id m run test) (resume_or_start (resumes run))
            (λ _ u. Sound-refl u))
  ]

  pub renew_lease-Sound : (lease : RunLease) (now : ℕ) → SoundTx s (renew_lease lease now s)
  unfolding renew_lease
  renew_lease-Sound lease now = elim (Option-cases (find_run lease.run_id s.runs)) [
    | inl e ↦ rw (e, renew_lease) (Sound-refl s)
    | inr (run, e) ↦ elim (Bool-cases (holds lease (RunStatus.running ∷ []) true now run)) [
      | inl held ↦
          rw (e, renew_lease, held)
            (store_run-Sound run (renewed now run) s unique (find_run-In _ run s.runs e).0
              (renewed-RunStep now run (holds-running lease true now run held)))
      | inr lost ↦ rw (e, renew_lease, lost) (Sound-refl s)
    ]
  ]

  cancel_locked-Sound :
      (now : ℕ) (run : GenerationRun) (status : RunStatus)
      → In run s.runs
      → run.status ≡ status
      → SoundTx s (cancel_locked now run status s)
  unfolding cancel_locked service_result
  cancel_locked-Sound now run RunStatus.queued there e =
      write_append-Sound run (cancelled_before_claim now run) EventType.run_cancelled _ true _ s
        unique there (cancelled_before_claim-RunStep now run e) (λ _. refl) (λ _ u. Sound-refl u)
  cancel_locked-Sound now run RunStatus.running there e =
      store_run-Sound run (request_cancellation now run) s unique there
        (request_cancellation-RunStep now run)
  cancel_locked-Sound now run RunStatus.cancelled there e = Sound-refl s
  cancel_locked-Sound now run _ there e = tt

  pub cancel_generation_run-Sound :
      (run_id now : ℕ) → SoundTx s (cancel_generation_run run_id now s)
  unfolding cancel_generation_run
  cancel_generation_run-Sound run_id now =
      reads-Sound (λ run. In run s.runs) (get_generation_run run_id) _ s
        (get_generation_run-Commits run_id s)
        (λ run there. cancel_locked-Sound now run run.status there refl)

  requeue-Sound :
      (run : GenerationRun) → In run s.runs → refuses_retry run ≡ false → SoundTx s (requeue run s)
  unfolding requeue service_result is_terminal
  requeue-Sound run there eligible =
      write_append-Sound run (requeued run) EventType.run_retry_requested _ false _ s unique there
        (requeued-RunStep run eligible) (λ t. t) (λ _ u. Sound-refl u)

  retry_or_refuse-Sound :
      (run : GenerationRun)
      → In run s.runs
      → SoundTx s
          ((if refuses_retry run then raise (Error.api 409 "run_not_retryable") else requeue run) s)
  retry_or_refuse-Sound run there = elim (Bool-cases (refuses_retry run)) [
    | inl refused ↦ rw refused tt
    | inr eligible ↦ rw eligible (requeue-Sound run there eligible)
  ]

  pub retry_generation_run-Sound : (run_id : ℕ) → SoundTx s (retry_generation_run run_id s)
  unfolding retry_generation_run
  retry_generation_run-Sound run_id =
      reads-Sound (λ run. In run s.runs) (get_generation_run run_id) _ s
        (get_generation_run-Commits run_id s) retry_or_refuse-Sound
