-- ===== src/Examples/Services.antt =====
-- Creating runs at concrete inputs.
use proofgraph.Base.{
  ℕ, String, ◌≡◌, refl, none, some, [], ◌∷◌, Result, ok, err, Error, keep, committed,
}
use proofgraph.Base.Checks.{◌>>=◌, Holds}
use proofgraph.Json.{Json}
use proofgraph.Tables.{RunOperation, RunStatus, ExecutionConfiguration, GenerationRun}
use proofgraph.Graph.Tables.{NodeKind}
use proofgraph.Graph.Staleness.Marking.{order_by_id, is_selected}
use proofgraph.Services.Creation.{
  Composition, ServiceTables, RunCreated, create_run, create_generation_run, checked_session,
  find_by_key,
}
use proofgraph.Services.Fingerprint.{generation_request_fingerprint}
use proofgraph.Services.Creating.{Creation, create}
use proofgraph.Services.Keeping.{creating, nothing}
use proofgraph.Services.Repeating.{create_generation_run_once, idempotency_key_conflict}
use proofgraph.Services.Suitable.{Suitable, Works, create_run-Suitable}
use proofgraph.Examples.Operations.{platform, claim_row, tables}

abbrev configuration : ExecutionConfiguration
configuration = record {
  profile_id = "replay_v1";
  provider_identity = "replay";
  pipeline_version = "1";
  prompt_version = "1";
  strategy_version = "1";
  fixture_bundle_id = none;
  fixture_version = none;
}

abbrev composition : Composition
composition = record {
  resolve = λ profile. ok configuration;
  build = λ canvas r nodes.
      ok (record { snapshot = Json.null; manifest = Json.null; context_hash = "hash" });
}

-- A strategy in version 1, on the canvas of the operations' example.
abbrev service_tables : ServiceTables
service_tables = record {
  store = record { runs = []; stages = []; events = []; cursors = (7, 4) ∷ []; patches = [] };
  canvases = tables.canvases;
  nodes = record (claim_row 1) { kind = NodeKind.strategy } ∷ claim_row 2 ∷ [];
  sessions = [];
  windows = [];
}

abbrev research : String → RunOperation → Creation
research key operation = record {
  now = 5;
  fresh_id = 20;
  canvas_id = 7;
  request = record {
    operation = operation;
    selected_node_ids = 1 ∷ [];
    expected_node_versions = (1, 1) ∷ [];
    instruction = none;
    execution_profile_id = "replay_v1";
    idempotency_key = key;
    regeneration_scope = none;
  };
  demo_session_id = none;
}

abbrev first : Creation
first = research "key" RunOperation.research_evidence

abbrev outcome_or : Result ((RunCreated × ℕ) × ServiceTables) → (RunCreated × ℕ) × ServiceTables
outcome_or (ok out) = out
outcome_or (err e) = (
  (record { run_id = 0; status = RunStatus.failed; events_canvas = 0; events_after = 0 }, 500),
  service_tables,
)

abbrev created : (RunCreated × ℕ) × ServiceTables
created = outcome_or (create platform composition first service_tables)

run_is_queued : created.0.0.status ≡ RunStatus.queued
unfolding create_generation_run ◌>>=◌
run_is_queued = refl

-- In between, another run is created.
abbrev other : Creation
other = record (research "other" RunOperation.research_evidence) { fresh_id = 21 }

abbrev after : ServiceTables
after = committed created.1 (create platform composition other created.1)

create_generation_run_once_example :
    (present : GenerationRun) × (find_by_key 7 "key" after.store.runs ≡ some present)
    × (present.id ≡ created.0.0.run_id)
    × (create platform composition
          (record first { now = 9; fresh_id = 30; demo_session_id = none })
          after
        ≡ ok ((record created.0.0 { status = present.status }, 202), after))
unfolding create_generation_run ◌>>=◌ checked_session
create_generation_run_once_example =
    create_generation_run_once platform composition first service_tables created.1 after created.0.0
      created.0.1 9 30 none none
      (record { id = 7; title = "canvas"; revision = 0; created_at = 0; updated_at = 0 }) refl
      (creating other nothing) refl refl

-- The key again, with another selection.
abbrev changed : Creation
changed = record first {
  request = record first.request {
    operation = RunOperation.regenerate_stale;
    regeneration_scope = some "node";
  };
}

idempotency_key_conflict_example :
    create platform composition changed after ≡ err (Error.api 409 "idempotency_key_conflict")
unfolding create_generation_run ◌>>=◌ checked_session generation_request_fingerprint
idempotency_key_conflict_example =
    idempotency_key_conflict platform composition first changed service_tables created.1 after
      created.0.0 created.0.1 none
      (record { id = 7; title = "canvas"; revision = 0; created_at = 0; updated_at = 0 })
      "research_evidence" "regenerate_stale" refl (creating other nothing) refl refl refl refl refl
      refl refl

create_run-Suitable_example :
    Holds
      (λ (out : (RunCreated × ℕ) × ServiceTables).
        Suitable first.request
          (order_by_id (keep (is_selected 7 first.request.selected_node_ids) service_tables.nodes))
        × Works first.request service_tables out)
      (create_run composition 5 20
        (record { id = 7; title = "canvas"; revision = 0; created_at = 0; updated_at = 0 })
        first.request
        none
        "fingerprint"
        service_tables)
create_run-Suitable_example =
    create_run-Suitable composition 5 20
      (record { id = 7; title = "canvas"; revision = 0; created_at = 0; updated_at = 0 })
      first.request none "fingerprint" service_tables
