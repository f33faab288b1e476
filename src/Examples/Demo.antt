-- ===== src/Examples/Demo.antt =====
-- The quotas at concrete inputs.
use proofgraph.Base.{ℕ, ◌*◌, ◌≡◌, ◌↔◌, ◌≤◌, ◌<◌, ◌+◌, ◌⊎◌, none, List, [], ◌∷◌, ok, arith}
use proofgraph.Demo.{
  DemoSession, quota_window, session_hybrid_run_limit, session_concurrent_run_limit,
  global_hybrid_run_limit, active_runs, hour_of, global_count, consume_hybrid_quota,
}
use proofgraph.Demo.Limits.{Request, serve, serve_limit, consume_hybrid_quota_grants}
use proofgraph.Examples.Samples.{running_run}

abbrev session : DemoSession
session = record {
  id = 3;
  active_canvas_id = none;
  quota_window_started_at = 0;
  hybrid_run_count = 12;
  expires_at = 9;
}

-- Before the window is over, and after.
abbrev requests : List Request
requests =
    record { now = 5; runs = running_run ∷ []; session = session }
    ∷ record { now = 3600 * 1_000_000; runs = []; session = session }
    ∷ []

consume_hybrid_quota_grants_example :
    ((after : DemoSession × List (ℕ × ℕ)) × (consume_hybrid_quota 5
          (running_run ∷ [])
          session
          ((0, 119) ∷ [])
        ≡ ok after))
    ↔ ((active_runs session (running_run ∷ []) < session_concurrent_run_limit)
        × ((session.hybrid_run_count < session_hybrid_run_limit)
            ⊎ (session.quota_window_started_at + quota_window ≤ 5))
        × (global_count (hour_of 5) ((0, 119) ∷ []) < global_hybrid_run_limit))
consume_hybrid_quota_grants_example =
    consume_hybrid_quota_grants 5 (running_run ∷ []) session ((0, 119) ∷ [])

serve_limit_example :
    (global_count 3600000000 (serve 3600000000 requests ((0, 119) ∷ [])).1
      ≡ global_count 3600000000 ((0, 119) ∷ []) + (serve 3600000000 requests ((0, 119) ∷ [])).0)
    × (global_count 3600000000 (serve 3600000000 requests ((0, 119) ∷ [])).1
        ≤ global_hybrid_run_limit)
unfolding global_count
serve_limit_example = serve_limit 3600000000 requests ((0, 119) ∷ []) (omega arith)
