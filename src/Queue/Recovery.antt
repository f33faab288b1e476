-- ===== src/Queue/Recovery.antt =====
-- finalize_expired_patch_ready_runs: a run whose patch was stored and whose lease ran out before it
-- was completed is leased again and completed, in two transactions.
use Prim.Native.String.{◌++◌ as join}
use proofgraph.Base.{
  ℕ, zero, suc, String, Bool, true, false, ◌&&◌, Option, none, some, List, [], ◌∷◌, Result, ok, err,
  Error, Tx, ◌>>=◌, ◌>>◌, pure, modify,
}
use proofgraph.Json.{Json, Fields}
use proofgraph.Tables.{
  RunStatus, EventType, GenerationRun, PatchRow, Store, same_status, patch_of_run,
}
use proofgraph.Events.{append_event_locked}
use proofgraph.Queue.{
  Moment, RunLease, expired, first_unlocked, without_lease, store_run, lock_fenced_run, with_lease,
  lease_of, uuid_text,
}

unfoldable pub is_recoverable : List PatchRow → ℕ → GenerationRun → Bool
unfolding same_status expired
is_recoverable patches now run =
    same_status run.status RunStatus.patch_ready
    && expired run now
    && elim (patch_of_run run.id patches) [ none ↦ false | some _ ↦ true ]

unfoldable pub recovery_worker_id : ℕ → String
recovery_worker_id token = join "patch-ready-recovery:" (uuid_text token)

-- The first transaction of a round of `finalize_expired_patch_ready_runs`.
unfoldable pub reclaim_patch_ready : Moment → Tx Store (Option RunLease)
unfolding first_unlocked store_run
reclaim_patch_ready m s = elim (first_unlocked (is_recoverable s.patches m.now) m s.runs) [
  | none ↦ ok (none, s)
  | some run ↦
      let reclaimed = with_lease (recovery_worker_id m.fresh) m.fresh m.now run in
      ok (some (lease_of (recovery_worker_id m.fresh) m.fresh reclaimed), store_run reclaimed s)
]

unfoldable pub completed : ℕ → GenerationRun → GenerationRun
unfolding without_lease
completed now run = record (without_lease run) {
  status = RunStatus.completed;
  completed_at = some now;
}

-- run.patch.id
unfoldable pub patch_id_of : GenerationRun → Tx Store ℕ
patch_id_of run s = elim (patch_of_run run.id s.patches) [
  | none ↦ err Error.does_not_exist
  | some patch ↦ ok (patch.id, s)
]

unfoldable pub recovered_payload : ℕ → ℕ → Fields
recovered_payload patch_id attempt = Fields.field "patch_id" (Json.text (uuid_text patch_id)) (
    Fields.field "attempt" (Json.num attempt)
      (Fields.field "recovered_after_lease_expiry" (Json.bool true) Fields.end))

-- The second transaction of the round.
unfoldable pub complete_recovered : RunLease → ℕ → Tx Store (Unit {0})
unfolding lock_fenced_run store_run patch_id_of
complete_recovered lease now = do
  run ← lock_fenced_run lease (RunStatus.patch_ready ∷ []) true now
  patch_id ← patch_id_of run
  modify (store_run (completed now run))
  append_event_locked (completed now run) EventType.run_completed
      (recovered_payload patch_id run.attempt) true
  pure tt

-- One round of the loop; the second transaction starts at `later`. An exception in it leaves what
-- the first committed, so the round gives the state beside its result.
unfoldable pub recover_one : Moment → ℕ → Store → Result Bool × Store
unfolding reclaim_patch_ready complete_recovered
recover_one m later s = elim (reclaim_patch_ready m s) [
  | err e ↦ (err e, s)
  | ok (none, t) ↦ (ok false, t)
  | ok (some lease, t) ↦ elim (complete_recovered lease later t) [
    | err e ↦ (err e, t)
    | ok (_, u) ↦ (ok true, u)
  ]
]

-- finalize_expired_patch_ready_runs, with the count of the runs completed.
unfoldable pub finalize_expired_patch_ready_runs :
    ℕ → (ℕ → Moment) → (ℕ → ℕ) → ℕ → Store → Option (Result ℕ × Store)
finalize_expired_patch_ready_runs zero moments laters rounds s = none
finalize_expired_patch_ready_runs (suc fuel) moments laters rounds s =
    let (outcome, t) = recover_one (moments rounds) (laters rounds) s in
    elim outcome [
      | err e ↦ some (err e, t)
      | ok false ↦ some (ok rounds, t)
      | ok true ↦ finalize_expired_patch_ready_runs fuel moments laters (suc rounds) t
    ]
