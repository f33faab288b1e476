-- ===== src/Lifecycle/Fencing.antt =====
-- A claim fences off every earlier lease of the run, for good.
use proofgraph.Base.{
  ℕ, ◌≤◌, ◌<◌, String, ◌≡◌, refl, Bool, false, Option, none, some, List, [], ◌∷◌, ok, err, Error,
  arith, All, if◌then◌else◌, inl, inr, Option-cases, ap, sym, ◌∙◌, subst, Commits, >>=-Commits,
}
use proofgraph.Tables.{RunStatus, EventType, GenerationRun, Store, find_run, save_run}
use proofgraph.Events.{append_event_locked}
use proofgraph.Queue.{Moment, RunLease, holds, lock_fenced_run, first_unlocked, store_run, lease_of}
use proofgraph.Queue.Claim.{is_claimable, claim_one, claimed, resumes, claim_payload}
use proofgraph.Queue.Rows.{UniqueIds, first_unlocked-In, find_run-In'}
use proofgraph.Lifecycle.{Action, history, WellBehaved}
use proofgraph.Lifecycle.History.{find_run-history, UniqueIds-Steps}
use proofgraph.Lifecycle.QueueSound.{claim_one-Sound}
use proofgraph.Lifecycle.Sound.{Sound, SoundTx, runs-append_event_locked}

holds-epoch :
    (lease : RunLease) (statuses : List RunStatus) (need_live : Bool) (now : ℕ)
    (run : GenerationRun)
    → lease.lease_epoch < run.lease_epoch
    → holds lease statuses need_live now run ≡ false
unfolding holds
holds-epoch lease statuses need_live now run h = ground arith

-- A lease with an epoch below that of its run is lost: after any history, at any time and for any
-- statuses, the fenced lock refuses it.
pub stale_lease_lost :
    (s : Store) (actions : List Action) (lease : RunLease) (run : GenerationRun)
    (statuses : List RunStatus) (need_live : Bool) (now : ℕ)
    → UniqueIds s.runs
    → All WellBehaved actions
    → find_run lease.run_id s.runs ≡ some run
    → lease.lease_epoch < run.lease_epoch
    → lock_fenced_run lease statuses need_live now (history actions s) ≡ err Error.lease_lost
unfolding lock_fenced_run
stale_lease_lost s actions lease run statuses need_live now u w found below =
    let (q, there, step) = find_run-history s actions lease.run_id run u w found in
    rw
      (
        there,
        lock_fenced_run,
        holds-epoch lease statuses need_live now q (omega (arith, step.epoch)),
      )
      refl

pub find_run-save_run :
    (new old : GenerationRun) (rows : List GenerationRun)
    → find_run new.id rows ≡ some old
    → find_run new.id (save_run new rows) ≡ some new
unfolding find_run save_run
find_run-save_run new old [] h = cc
find_run-save_run new old (row ∷ rows) h = ground (arith, find_run-save_run new old rows)

-- What a claim that commits has done: nothing, or it leased the run that it picked.
abbrev pub Claimed : String → Moment → Store → Option RunLease → Store → Type 0
Claimed worker m s none t = t ≡ s
Claimed worker m s (some lease) t =
    (run : GenerationRun) × (first_unlocked (is_claimable m.now) m s.runs ≡ some run)
    × (lease ≡ lease_of worker m.fresh (claimed worker m run))
    × (t.runs ≡ save_run (claimed worker m run) s.runs)

pub claim_one-Claimed :
    (worker : String) (m : Moment) (s : Store) → Commits (Claimed worker m s) (claim_one worker m s)
unfolding claim_one store_run
claim_one-Claimed worker m s = elim (Option-cases (first_unlocked (is_claimable m.now) m s.runs)) [
  | inl e ↦ rw (e, claim_one) refl
  | inr (run, e) ↦
      rw (e, claim_one)
        (>>=-Commits
          (append_event_locked (claimed worker m run)
            (if resumes run then EventType.run_resumed else EventType.run_started)
            (claim_payload worker (claimed worker m run)) false)
          _ (λ _ u. u.runs ≡ save_run (claimed worker m run) s.runs) _ _
          (runs-append_event_locked (claimed worker m run) _ _ false _)
          (λ _ u same. (run, e, refl, same)))
]

-- The run, the lease and the rows of a claim that granted a lease.
pub claim_granted :
    (worker : String) (m : Moment) (s t : Store) (lease : RunLease)
    → claim_one worker m s ≡ ok (some lease, t)
    → Claimed worker m s (some lease) t
claim_granted worker m s t lease h =
    subst (Commits (Claimed worker m s)) h (claim_one-Claimed worker m s)

-- After a claim the run's row is the one that the claim wrote.
pub found_after_claim :
    (worker : String) (m : Moment) (s t : Store) (run : GenerationRun)
    → UniqueIds s.runs
    → first_unlocked (is_claimable m.now) m s.runs ≡ some run
    → t.runs ≡ save_run (claimed worker m run) s.runs
    → find_run run.id t.runs ≡ some (claimed worker m run)
unfolding claimed
found_after_claim worker m s t run u picked rows = rw rows (
    find_run-save_run (claimed worker m run) run s.runs
      (find_run-In' run s.runs u (first_unlocked-In _ m s.runs run picked).0))

-- Run ids are distinct. A claim that grants a lease fences off every lease of the run that was
-- issued before, with an epoch up to the run's: after any history with no terminal progress event that
-- follows, the fenced lock refuses the old lease, whatever statuses and liveness it asks for.
pub claim_fences_old_leases :
    (worker : String) (m : Moment) (s t : Store) (new old : RunLease) (run : GenerationRun)
    (actions : List Action) (statuses : List RunStatus) (need_live : Bool) (now : ℕ)
    → UniqueIds s.runs
    → All WellBehaved actions
    → claim_one worker m s ≡ ok (some new, t)
    → old.run_id ≡ new.run_id
    → find_run old.run_id s.runs ≡ some run
    → old.lease_epoch ≤ run.lease_epoch
    → lock_fenced_run old statuses need_live now (history actions t) ≡ err Error.lease_lost
unfolding claimed lease_of
claim_fences_old_leases worker m s t new old run actions statuses need_live now u w claim same found
      issued =
    let (picked, first, which, rows) = claim_granted worker m s t new claim in
    let id : old.run_id ≡ picked.id = same ∙ ap (λ (l : RunLease). l.run_id) which in
    let known = find_run-In' picked s.runs u (first_unlocked-In _ m s.runs picked first).0 in
    let run_is : some run ≡ some picked =
      sym found ∙ ap (λ (n : ℕ). find_run n s.runs) id ∙ known in
    let st : Sound s t = subst (SoundTx s) claim (claim_one-Sound s u worker m) in
    stale_lease_lost t actions old (claimed worker m picked) statuses need_live now
      (UniqueIds-Steps s.runs t.runs st.steps u) w
      (ap (λ (n : ℕ). find_run n t.runs) id ∙ found_after_claim worker m s t picked u first rows)
      (ground (arith, run_is))
