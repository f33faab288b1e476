-- ===== src/Demo.antt =====
-- proofgraph/demo/quotas.py: which profiles a demo session may run, and how often. The quota of a
-- session counts its hybrid runs from the start of its window; the quota of all sessions counts
-- them in each clock hour. An error rolls back the transaction around it.
pub mod Limits
pub mod Fencing
use proofgraph.Base.{
  ℕ, suc, ◌+◌, ◌-◌, ◌*◌, ◌%◌, String, Bool, true, false, ◌&&◌, ◌||◌, Option, none, some, List, [],
  ◌∷◌, ◌==◌, str_eq, leb, length, keep, if◌then◌else◌, Error, Result, ok, err, bind_result,
}
use proofgraph.Tables.{RunStatus, ExecutionConfiguration, GenerationRun}
use proofgraph.Queue.{is_number, status_in}

-- settings.DEMO_QUOTA_WINDOW_SECONDS, in microseconds, and the limits.
abbrev pub quota_window : ℕ
quota_window = 3600 * 1_000_000

abbrev pub session_hybrid_run_limit : ℕ
session_hybrid_run_limit = 12

abbrev pub session_concurrent_run_limit : ℕ
session_concurrent_run_limit = 2

abbrev pub global_hybrid_run_limit : ℕ
global_hybrid_run_limit = 120

-- The columns of a session that the quotas read or write.
pub record DemoSession : Type 0 where
  pub id : ℕ
  pub active_canvas_id : Option ℕ
  pub quota_window_started_at : ℕ
  pub hybrid_run_count : ℕ
  pub expires_at : ℕ

-- ALLOWED_DEMO_PROFILES
unfoldable pub validate_demo_profile : String → Result (Unit {0})
validate_demo_profile profile_id =
    if str_eq profile_id "demo_hybrid_v1" || str_eq profile_id "replay_v1"
    then ok tt
    else err (Error.api 403 "demo_profile_not_allowed")

-- A new window, if the old one is over.
unfoldable pub current_window : ℕ → DemoSession → DemoSession
current_window now session =
    if leb (session.quota_window_started_at + quota_window) now
    then record session { quota_window_started_at = now; hybrid_run_count = 0 }
    else session

unfoldable pub is_active_hybrid : DemoSession → GenerationRun → Bool
unfolding is_number status_in
is_active_hybrid session run =
    is_number run.demo_session_id session.id
    && status_in (RunStatus.queued ∷ RunStatus.running ∷ []) run.status
    && str_eq run.execution_configuration.profile_id "demo_hybrid_v1"

unfoldable pub active_runs : DemoSession → List GenerationRun → ℕ
unfolding is_active_hybrid keep
active_runs session runs = length (keep (is_active_hybrid session) runs)

-- now.replace(minute=0, second=0, microsecond=0), in UTC. The length of an hour is fixed here,
-- whatever the length of a session's window.
unfoldable pub hour_of : ℕ → ℕ
hour_of now = now - now % (3600 * 1_000_000)

-- The row of an hour, by its start; `get_or_create` counts a new one from 0.
unfoldable pub global_count : ℕ → List (ℕ × ℕ) → ℕ
global_count start [] = 0
global_count start ((window, count) ∷ windows) =
    if window == start then count else global_count start windows

unfoldable pub count_run : ℕ → List (ℕ × ℕ) → List (ℕ × ℕ)
count_run start [] = (start, 1) ∷ []
count_run start ((window, count) ∷ windows) =
    let rest = count_run start windows in
    if window == start then (window, count + 1) ∷ windows else (window, count) ∷ rest

unfoldable pub counted : ℕ → DemoSession → List (ℕ × ℕ) → DemoSession × List (ℕ × ℕ)
unfolding hour_of count_run
counted now session windows = (
  record session { hybrid_run_count = session.hybrid_run_count + 1 },
  count_run (hour_of now) windows,
)

-- The three limits in their order, then the counts.
unfoldable pub within_quota :
    ℕ → List GenerationRun → DemoSession → List (ℕ × ℕ) → Result (DemoSession × List (ℕ × ℕ))
unfolding active_runs hour_of global_count counted
within_quota now runs session windows =
    if leb session_concurrent_run_limit (active_runs session runs)
    then err (Error.api 429 "demo_concurrent_run_limit")
    else (if leb session_hybrid_run_limit session.hybrid_run_count
        then err (Error.api 429 "demo_session_quota_exhausted")
        else (if leb global_hybrid_run_limit (global_count (hour_of now) windows)
            then err (Error.api 429 "demo_global_quota_exhausted")
            else ok (counted now session windows)))

unfoldable pub consume_hybrid_quota :
    ℕ → List GenerationRun → DemoSession → List (ℕ × ℕ) → Result (DemoSession × List (ℕ × ℕ))
unfolding current_window within_quota
consume_hybrid_quota now runs session windows =
    within_quota now runs (current_window now session) windows
