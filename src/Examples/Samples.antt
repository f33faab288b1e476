-- ===== src/Examples/Samples.antt =====
-- Runs, leases and tables for the examples.
use proofgraph.Base.{ℕ, false, none, some, [], ◌∷◌}
use proofgraph.Json.{Json, Fields}
use proofgraph.Tables.{
  RunOperation, RunStatus, ExecutionConfiguration, RunRequest, GenerationRun, Store,
}
use proofgraph.Queue.{Moment, RunLease}

abbrev pub configuration : ExecutionConfiguration
configuration = record {
  profile_id = "replay_v1";
  provider_identity = "fixture";
  pipeline_version = "intelligence_pipeline_v1";
  prompt_version = "p1";
  strategy_version = "s1";
  fixture_bundle_id = none;
  fixture_version = some "1";
}

abbrev pub request : RunRequest
request = record {
  canvas_id = 7;
  demo_session_id = none;
  operation = RunOperation.generate_strategies;
  idempotency_key = "k";
  request_fingerprint = "f";
  base_canvas_revision = 1;
  context_snapshot = Json.obj Fields.end;
  context_manifest = Json.obj Fields.end;
  context_hash = "h";
  events_after_sequence = 0;
  selected_node_ids = [];
  expected_node_versions = [];
  execution_configuration = configuration;
  max_attempts = 3;
  created_at = 10;
}

abbrev pub queued_run : GenerationRun
queued_run = record {
  id = 1;
  request = request;
  status = RunStatus.queued;
  current_stage = none;
  worker_id = none;
  lease_token = none;
  lease_epoch = 0;
  attempt = 0;
  heartbeat_at = none;
  lease_expires_at = none;
  cancel_requested_at = none;
  error = none;
  started_at = none;
  completed_at = none;
}

-- Leased to worker "a" until time 50, in its first attempt.
abbrev pub running_run : GenerationRun
running_run = record queued_run {
  status = RunStatus.running;
  worker_id = some "a";
  lease_token = some 100;
  lease_epoch = 1;
  attempt = 1;
  heartbeat_at = some 20;
  lease_expires_at = some 50;
  started_at = some 20;
}

abbrev pub table : GenerationRun → Store
table run = record {
  runs = run ∷ [];
  stages = [];
  events = [];
  cursors = (7, 0) ∷ [];
  patches = [];
}

abbrev pub moment : ℕ → ℕ → Moment
moment now fresh = record { now = now; locked = λ _. false; fresh = fresh }

-- The lease of worker "a".
abbrev pub first_lease : RunLease
first_lease = record {
  run_id = 1;
  worker_id = "a";
  lease_token = 100;
  lease_epoch = 1;
  canvas_id = 7;
}

-- What worker "b" gets at time 60, after the lease of "a" ran out.
abbrev pub second_lease : RunLease
second_lease = record {
  run_id = 1;
  worker_id = "b";
  lease_token = 200;
  lease_epoch = 2;
  canvas_id = 7;
}
