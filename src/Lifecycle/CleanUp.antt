-- ===== src/Lifecycle/CleanUp.antt =====
-- The clean-up of exhausted runs (proofgraph/generation/queue.py, terminalize_exhausted_runs)
-- ends.
use proofgraph.Base.{
  ℕ, zero, suc, ◌≤◌, ◌<◌, ◌≡◌, refl, sym, subst, inl, inr, Bool, true, false, ◌||◌, none, some,
  List, [], ◌∷◌, arith, ◌==◌, if◌then◌else◌, Bool-cases, Option-cases, Result, ok, err, Commits,
  >>=-Commits,
}
use proofgraph.Json.{Json, put}
use proofgraph.Tables.{RunStatus, EventType, GenerationRun, Store, same_status, save_run}
use proofgraph.Events.{append_event_locked}
use proofgraph.Queue.{
  Moment, first_unlocked, store_run, poison_error, poisoned, is_exhausted, status_in,
  terminalize_one, drain, terminalize_exhausted_runs,
}
use proofgraph.Queue.Rows.{In, first_unlocked-In}
use proofgraph.Lifecycle.Sound.{runs-append_event_locked}

-- The number of runs that have not failed.
unfoldable pub unfailed : List GenerationRun → ℕ
unfolding same_status
unfailed [] = 0
unfailed (row ∷ rows) =
    if same_status row.status RunStatus.failed then unfailed rows else suc (unfailed rows)

save_run-unfailed_le :
    (new : GenerationRun) (rows : List GenerationRun)
    → same_status new.status RunStatus.failed ≡ true
    → unfailed (save_run new rows) ≤ unfailed rows
unfolding unfailed save_run
save_run-unfailed_le new [] f = omega arith
save_run-unfailed_le new (row ∷ rows) f = elim (Bool-cases (row.id == new.id)) [
  | inl e ↦ rw (e) (ground (arith, save_run-unfailed_le new rows f))
  | inr e ↦ rw (e) (ground (arith, save_run-unfailed_le new rows f))
]

save_run-unfailed :
    (new run : GenerationRun) (rows : List GenerationRun)
    → same_status new.status RunStatus.failed ≡ true
    → same_status run.status RunStatus.failed ≡ false
    → run.id ≡ new.id
    → In run rows
    → unfailed (save_run new rows) < unfailed rows
unfolding unfailed save_run
save_run-unfailed new run [] f u i h = elim h [ ]
save_run-unfailed new run (row ∷ rows) f u i (inl p) =
    let there : (row.id == new.id) ≡ true = ground (arith, i, p) in
    let open_row : same_status row.status RunStatus.failed ≡ false =
      subst (λ (r : GenerationRun). same_status r.status RunStatus.failed ≡ false) (sym p) u in
    rw (there) (ground (arith, save_run-unfailed_le new rows f, open_row))
save_run-unfailed new run (row ∷ rows) f u i (inr q) = elim (Bool-cases (row.id == new.id)) [
  | inl e ↦ rw (e) (ground (arith, save_run-unfailed new run rows f u i q))
  | inr e ↦ rw (e) (ground (arith, save_run-unfailed new run rows f u i q))
]

exhausted_unfailed :
    (now : ℕ) (run : GenerationRun)
    → is_exhausted now run ≡ true
    → same_status run.status RunStatus.failed ≡ false
unfolding is_exhausted status_in same_status
exhausted_unfailed now run h = go run.status (ground arith)
  where
    go :
        (status : RunStatus)
        → (same_status status RunStatus.queued
            || status_in (RunStatus.running ∷ RunStatus.patch_ready ∷ []) status)
          ≡ true
        → same_status status RunStatus.failed ≡ false
    go RunStatus.queued h = refl
    go RunStatus.running h = refl
    go RunStatus.patch_ready h = refl
    go RunStatus.completed h = refl
    go RunStatus.cancelled h = refl
    go RunStatus.failed h = cc

-- What a round leaves: fewer unfailed runs, or nothing more to do.
abbrev Round : Moment → Store → Bool → Store → Type 0
Round m s true t = unfailed t.runs < unfailed s.runs
Round m s false t = first_unlocked (is_exhausted m.now) m t.runs ≡ none

terminalize_one-Round : (m : Moment) (s : Store) → Commits (Round m s) (terminalize_one m s)
unfolding terminalize_one store_run poisoned same_status
terminalize_one-Round m s = elim (Option-cases (first_unlocked (is_exhausted m.now) m s.runs)) [
  | inl e ↦ rw (e, terminalize_one) e
  | inr (run, e) ↦
      let (there, test, _) = first_unlocked-In _ m s.runs run e in
      rw (e, terminalize_one)
        (>>=-Commits
          (append_event_locked (poisoned m.now run) EventType.run_failed
            (put "attempt" (Json.num run.attempt) poison_error) true)
          _ (λ _ t. t.runs ≡ save_run (poisoned m.now run) s.runs) _ _
          (runs-append_event_locked (poisoned m.now run) _ _ true _)
          (λ _ t same.
            subst (λ rows. unfailed rows < unfailed s.runs) (sym same)
              (save_run-unfailed (poisoned m.now run) run s.runs refl
                (exhausted_unfailed m.now run test) refl there)))
]

-- A clean-up that no error ends leaves no run to clean up, of those that its last transaction
-- found unlocked.
abbrev pub Cleaned : (ℕ → Moment) → Result ℕ → Store → Type 0
Cleaned moments (err e) t = Unit
Cleaned moments (ok n) t = first_unlocked (is_exhausted (moments n).now) (moments n) t.runs ≡ none

-- One round, if the rounds after it end.
drain_once :
    (moments : ℕ → Moment) (fuel rounds : ℕ) (s : Store) (r : Result (Bool × Store))
    → ((t : Store)
        → unfailed t.runs < unfailed s.runs
        → (outcome : Result ℕ) × (u : Store) × (drain fuel
              (λ n. terminalize_one (moments n))
              (suc rounds)
              t
            ≡ some (outcome, u))
          × Cleaned moments outcome u)
    → terminalize_one (moments rounds) s ≡ r
    → Commits (Round (moments rounds) s) r
    → (outcome : Result ℕ) × (t : Store) × (drain
          (suc fuel)
          (λ n. terminalize_one (moments n))
          rounds
          s
        ≡ some (outcome, t))
      × Cleaned moments outcome t
unfolding drain
drain_once moments fuel rounds s (err e) rest run c = (err e, s, rw (run, drain) refl, tt)
drain_once moments fuel rounds s (ok (false, t)) rest run c =
    (ok rounds, t, rw (run, drain) refl, c)
drain_once moments fuel rounds s (ok (true, t)) rest run c =
    let (outcome, u, ends, cleaned) = rest t c in (outcome, u, rw (run, drain) ends, cleaned)

drain_total :
    (moments : ℕ → Moment) (fuel rounds : ℕ) (s : Store)
    → unfailed s.runs < fuel
    → (outcome : Result ℕ) × (t : Store) × (drain fuel (λ n. terminalize_one (moments n)) rounds s
        ≡ some (outcome, t))
      × Cleaned moments outcome t
drain_total moments zero rounds s h = absurd (omega (arith, h))
drain_total moments (suc fuel) rounds s h =
    drain_once moments fuel rounds s (terminalize_one (moments rounds) s)
      (λ t fewer. drain_total moments fuel (suc rounds) t (omega (arith, h, fewer))) refl
      (terminalize_one-Round (moments rounds) s)

-- With more fuel than there are runs that have not failed, the clean-up of exhausted runs ends,
-- whatever the clocks and the locks of its transactions. If no error ends it, its last transaction
-- finds no exhausted run that is not locked.
pub terminalize_exhausted_runs_total :
    (fuel : ℕ) (moments : ℕ → Moment) (s : Store)
    → unfailed s.runs < fuel
    → (outcome : Result ℕ) × (t : Store) × (terminalize_exhausted_runs fuel moments s
        ≡ some (outcome, t))
      × Cleaned moments outcome t
unfolding terminalize_exhausted_runs
terminalize_exhausted_runs_total fuel moments s h = drain_total moments fuel 0 s h
