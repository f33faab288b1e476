-- ===== src/Lifecycle.antt =====
-- The life of the runs that are there: the transactions by which the queue, the services and the
-- executor change a run, and what the reset and the clean-up of a demo session do to each run, as
-- one type of actions, and histories of them in any interleaving. A transaction that raises leaves
-- the tables as they were. The creation of runs and the deletion of a canvas with its runs are no
-- actions.
mod Sound
mod Updates
mod QueueSound
mod ExecutionSound
mod StagesSound
mod DemoSound
pub mod History
pub mod Fencing
pub mod Exclusion
pub mod Reset
pub mod CleanUp
pub mod Fairness
use proofgraph.Base.{ℕ, ◌≡◌, String, Bool, false, Option, List, [], ◌∷◌, committed}
use proofgraph.Json.{Json, Fields}
use proofgraph.Tables.{ProgressEvent, StageResult, PatchRow, Store}
use proofgraph.Events.{is_terminal}
use proofgraph.Queue.{Moment, RunLease, terminalize_one, renew_lease}
use proofgraph.Queue.Recovery.{reclaim_patch_ready, complete_recovered}
use proofgraph.Queue.Claim.{claim_one}
use proofgraph.Services.{cancel_generation_run, retry_generation_run}
use proofgraph.Execution.Rows.{RunError}
use proofgraph.Execution.Stages.{begin_stage, complete_stage, append_progress_event}
use proofgraph.Demo.Fencing.{reset_run, clean_run}
use proofgraph.Execution.Endings.{cancel_if_requested, fail_run, persist_patch, complete_run}

pub data Action : Type 0 where
  claims : String → Moment → Action
  exhausts reclaims : Moment → Action
  recovers renews : RunLease → ℕ → Action
  cancels : ℕ → ℕ → Action
  retries : ℕ → Action
  observes : RunLease → Option ℕ → ℕ → ℕ → Action
  begins : (Json → Option StageResult) → RunLease → String → String → ℕ → ℕ → ℕ → Action
  finishes : RunLease → ℕ → StageResult → ℕ → ℕ → Action
  reports : RunLease → ProgressEvent → ℕ → Action
  fails : RunLease → RunError → Option ℕ → ℕ → ℕ → Action
  persists : RunLease → Fields → ℕ → ℕ → ℕ → Action
  completes : RunLease → PatchRow → ℕ → ℕ → Action
  resets : ℕ → ℕ → ℕ → ℕ → Action
  cleans : ℕ → ℕ → ℕ → Action

pub perform : Action → Store → Store
perform (Action.claims worker m) s = committed s (claim_one worker m s)
perform (Action.exhausts m) s = committed s (terminalize_one m s)
perform (Action.reclaims m) s = committed s (reclaim_patch_ready m s)
perform (Action.recovers lease now) s = committed s (complete_recovered lease now s)
perform (Action.renews lease now) s = committed s (renew_lease lease now s)
perform (Action.cancels run_id now) s = committed s (cancel_generation_run run_id now s)
perform (Action.retries run_id) s = committed s (retry_generation_run run_id s)
perform (Action.observes lease stage now clock) s =
    committed s (cancel_if_requested lease stage now clock s)
perform (Action.begins validate_json lease name hash fresh now clock) s =
    committed s (begin_stage validate_json lease name hash fresh now clock s)
perform (Action.finishes lease stage result now clock) s =
    committed s (complete_stage lease stage result now clock s)
perform (Action.reports lease p now) s = committed s (append_progress_event lease p now s)
perform (Action.fails lease error stage now clock) s =
    committed s (fail_run lease error stage now clock s)
perform (Action.persists lease output fresh now clock) s =
    committed s (persist_patch lease output fresh now clock s)
perform (Action.completes lease patch now clock) s =
    committed s (complete_run lease patch now clock s)
perform (Action.resets session canvas run_id now) s =
    committed s (reset_run session canvas run_id now s)
perform (Action.cleans session run_id now) s = committed s (clean_run session run_id now s)

pub history : List Action → Store → Store
history [] s = s
history (a ∷ rest) s = history rest (perform a s)

-- No progress event of a provider has a type that ends a run.
abbrev pub OpenEnded : List ProgressEvent → Type 0
OpenEnded = StagesSound.OpenEnded

abbrev pub WellBehaved : Action → Type 0
WellBehaved (Action.finishes lease stage result now clock) = OpenEnded result.progress_events
WellBehaved (Action.reports lease p now) = is_terminal p.event_type ≡ false
WellBehaved _ = Unit
