-- ===== src/Demo/Limits.antt =====
-- The limits of the quotas over sequences of requests.
use proofgraph.Base.{
  ℕ, suc, ◌+◌, ◌≤◌, ◌<◌, ◌≡◌, refl, sym, subst, true, false, List, [], ◌∷◌, ◌==◌, arith, leb, inl,
  inr, ◌⊎◌, ◌↔◌, if◌then◌else◌, Bool-cases, Result, ok, err,
}
use proofgraph.Tables.{GenerationRun}
use proofgraph.Demo.{
  DemoSession, quota_window, session_hybrid_run_limit, session_concurrent_run_limit,
  global_hybrid_run_limit, current_window, active_runs, hour_of, global_count, count_run, counted,
  within_quota, consume_hybrid_quota,
}

-- A request for a hybrid run: its time, and the session and the runs as it finds them.
pub record Request : Type 0 where
  pub now : ℕ
  pub runs : List GenerationRun
  pub session : DemoSession

-- The requests one after the other: how many are granted in an hour, and the counts of the hours.
pub serve : ℕ → List Request → List (ℕ × ℕ) → ℕ × List (ℕ × ℕ)
unfolding consume_hybrid_quota hour_of
serve hour [] windows = (0, windows)
serve hour (r ∷ requests) windows = elim (consume_hybrid_quota r.now r.runs r.session windows) [
  | err e ↦ serve hour requests windows
  | ok (session, after) ↦
      let (granted, last) = serve hour requests after in
      (if hour_of r.now == hour then suc granted else granted, last)
]

pub global_count-count_run :
    (start other : ℕ) (windows : List (ℕ × ℕ))
    → global_count other (count_run start windows)
      ≡ (if start == other then suc (global_count start windows) else global_count other windows)
unfolding global_count count_run
global_count-count_run start other [] = ground arith
global_count-count_run start other ((window, count) ∷ windows) =
    ground (arith, global_count-count_run start other windows)

-- What a granted request leaves in an hour, if the request falls into it and if not.
granted_inside :
    (now hour : ℕ) (runs : List GenerationRun) (session new : DemoSession)
    (windows after : List (ℕ × ℕ))
    → (hour_of now == hour) ≡ true
    → consume_hybrid_quota now runs session windows ≡ ok (new, after)
    → (global_count hour windows < global_hybrid_run_limit)
      × (global_count hour after ≡ suc (global_count hour windows))
unfolding consume_hybrid_quota within_quota counted
granted_inside now hour runs session new windows after same h =
    ground (arith, global_count-count_run hour hour windows)

granted_outside :
    (now hour : ℕ) (runs : List GenerationRun) (session new : DemoSession)
    (windows after : List (ℕ × ℕ))
    → (hour_of now == hour) ≡ false
    → consume_hybrid_quota now runs session windows ≡ ok (new, after)
    → global_count hour after ≡ global_count hour windows
unfolding consume_hybrid_quota within_quota counted
granted_outside now hour runs session new windows after other h =
    ground (arith, global_count-count_run (hour_of now) hour windows)

-- If the count of an hour is within the limit of 120, then in any sequence of requests of any
-- sessions it grows by the number of hybrid runs granted in that hour, and stays within the limit.
pub serve_limit :
    (hour : ℕ) (requests : List Request) (windows : List (ℕ × ℕ))
    → global_count hour windows ≤ global_hybrid_run_limit
    → (global_count hour (serve hour requests windows).1
        ≡ global_count hour windows + (serve hour requests windows).0)
      × (global_count hour (serve hour requests windows).1 ≤ global_hybrid_run_limit)
unfolding serve
serve_limit hour [] windows h = (omega arith, h)
serve_limit hour (r ∷ requests) windows h =
    go (consume_hybrid_quota r.now r.runs r.session windows) refl
      (λ after. serve_limit hour requests after)
  where
    go :
        (outcome : Result (DemoSession × List (ℕ × ℕ)))
        → consume_hybrid_quota r.now r.runs r.session windows ≡ outcome
        → ((after : List (ℕ × ℕ))
            → global_count hour after ≤ global_hybrid_run_limit
            → (global_count hour (serve hour requests after).1
                ≡ global_count hour after + (serve hour requests after).0)
              × (global_count hour (serve hour requests after).1 ≤ global_hybrid_run_limit))
        → (global_count hour (serve hour (r ∷ requests) windows).1
            ≡ global_count hour windows + (serve hour (r ∷ requests) windows).0)
          × (global_count hour (serve hour (r ∷ requests) windows).1 ≤ global_hybrid_run_limit)
    go (err e) run rest = rw (run, serve) (rest windows h)
    go (ok (new, after)) run rest = elim (Bool-cases (hour_of r.now == hour)) [
      | inl e ↦
          let (below, more) = granted_inside r.now hour r.runs r.session new windows after e run in
          let ends = rest after (omega (arith, below, more)) in
          rw (run, serve, e) (omega (arith, ends.0, more), ends.1)
      | inr e ↦
          let same = granted_outside r.now hour r.runs r.session new windows after e run in
          let ends = rest after (omega (arith, h, same)) in
          rw (run, serve, e) (omega (arith, ends.0, same), ends.1)
    ]

granted_within :
    (now : ℕ) (runs : List GenerationRun) (session : DemoSession) (windows : List (ℕ × ℕ))
    (after : DemoSession × List (ℕ × ℕ))
    → within_quota now runs session windows ≡ ok after
    → (active_runs session runs < session_concurrent_run_limit)
      × (session.hybrid_run_count < session_hybrid_run_limit)
      × (global_count (hour_of now) windows < global_hybrid_run_limit)
unfolding within_quota
granted_within now runs session windows after h = ground arith

within_granted :
    (now : ℕ) (runs : List GenerationRun) (session : DemoSession) (windows : List (ℕ × ℕ))
    → active_runs session runs < session_concurrent_run_limit
    → session.hybrid_run_count < session_hybrid_run_limit
    → global_count (hour_of now) windows < global_hybrid_run_limit
    → within_quota now runs session windows ≡ ok (counted now session windows)
unfolding within_quota
within_granted now runs session windows a b c = ground arith

same_active :
    (now : ℕ) (session : DemoSession) (runs : List GenerationRun)
    → active_runs (current_window now session) runs ≡ active_runs session runs
unfolding active_runs current_window
same_active now session runs =
    elim (Bool-cases (leb (session.quota_window_started_at + quota_window) now)) [
      | inl e ↦ rw e refl
      | inr e ↦ rw e refl
    ]

window_room :
    (now : ℕ) (session : DemoSession)
    → ((current_window now session).hybrid_run_count < session_hybrid_run_limit) ↔ (
        (session.hybrid_run_count < session_hybrid_run_limit)
        ⊎ (session.quota_window_started_at + quota_window ≤ now))
unfolding current_window
window_room now session = ground arith

-- A hybrid run is granted exactly if the session has fewer than 2 active runs, fewer than 12 in its
-- window, which starts again when it is over, and all sessions fewer than 120 in the clock hour.
pub consume_hybrid_quota_grants :
    (now : ℕ) (runs : List GenerationRun) (session : DemoSession) (windows : List (ℕ × ℕ))
    → ((after : DemoSession × List (ℕ × ℕ)) × (consume_hybrid_quota now runs session windows
          ≡ ok after))
      ↔ ((active_runs session runs < session_concurrent_run_limit)
          × ((session.hybrid_run_count < session_hybrid_run_limit)
              ⊎ (session.quota_window_started_at + quota_window ≤ now))
          × (global_count (hour_of now) windows < global_hybrid_run_limit))
unfolding consume_hybrid_quota
consume_hybrid_quota_grants now runs session windows =
    let current = current_window now session in
    (
      (λ (after, h).
          let (few, room, calm) = granted_within now runs current windows after h in
          (
            subst (λ n. n < session_concurrent_run_limit) (same_active now session runs) few,
            (window_room now session).0 room,
            calm,
          )),
      (λ (few, room, calm). (
        counted now current windows,
        within_granted now runs current windows
            (subst (λ n. n < session_concurrent_run_limit) (sym (same_active now session runs)) few)
            ((window_room now session).1 room) calm,
      )),
    )
