-- ===== src/Services/Creation.antt =====
-- proofgraph/generation/services.py: creating a run, once for each idempotency key of a canvas.
use proofgraph.Base.{
  ℕ, String, not, ◌&&◌, Option, none, some, List, [], ◌∷◌, ◌==◌, str_eq, leb, any, keep,
  if◌then◌else◌, Error, Result, ok, err, Tx,
}
use proofgraph.Base.Checks.{◌>>=◌, ◌>>◌, refuse}
use proofgraph.Json.{Json}
use proofgraph.Queue.{uuid_text, is_number}
use proofgraph.Tables.{RunStatus, ExecutionConfiguration, GenerationRun, Store, find_cursor}
use proofgraph.Demo.{DemoSession, validate_demo_profile, consume_hybrid_quota}
use proofgraph.Graph.Ids.{sorted}
use proofgraph.Graph.Tables.{Canvas, Node}
use proofgraph.Graph.Staleness.Marking.{order_by_id, is_selected}
use proofgraph.Graph.Operations.Rows.{Platform}
use proofgraph.Graph.Operations.Apply.{find_canvas}
use proofgraph.Services.Selection.{GenerationRunRequest, validate_explicit_selection}
use proofgraph.Services.Fingerprint.{sorted_versions, generation_request_fingerprint}

-- schemas.py: RunContextEnvelope, as far as a run stores it.
pub record RunContext : Type 0 where
  pub snapshot : Json
  pub manifest : Json
  pub context_hash : String

-- The ports of the composition that creating a run uses (ports.py): the profile resolver for a
-- product request, and the context factory.
pub record Composition : Type 0 where
  pub resolve : String → Result ExecutionConfiguration
  pub build : Canvas → GenerationRunRequest → List Node → Result RunContext

pub record ServiceTables : Type 0 where
  pub store : Store
  pub canvases : List Canvas
  pub nodes : List Node
  pub sessions : List DemoSession
  pub windows : List (ℕ × ℕ)

-- _run_created_payload; the URL of the events names the canvas and the number.
pub record RunCreated : Type 0 where
  pub run_id : ℕ
  pub status : RunStatus
  pub events_canvas : ℕ
  pub events_after : ℕ

unfoldable pub run_created : GenerationRun → ℕ → RunCreated
run_created run after = record {
  run_id = run.id;
  status = run.status;
  events_canvas = run.canvas_id;
  events_after = after;
}

unfoldable pub find_session : ℕ → List DemoSession → Option DemoSession
find_session id [] = none
find_session id (d ∷ sessions) = if d.id == id then some d else find_session id sessions

unfoldable pub save_session : DemoSession → List DemoSession → List DemoSession
save_session d [] = []
save_session d (row ∷ sessions) = (if row.id == d.id then d else row) ∷ save_session d sessions

-- The demo session of a request, if it may ask for this.
unfoldable pub checked_session :
    ℕ → ℕ → GenerationRunRequest → Option ℕ → List DemoSession → Result (Option DemoSession)
unfolding find_session is_number validate_demo_profile
checked_session now canvas_id r none sessions = ok none
checked_session now canvas_id r (some id) sessions = elim (find_session id sessions) [
  | none ↦ err (Error.api 404 "resource_not_found")
  | some d ↦ do
    refuse (not (is_number d.active_canvas_id canvas_id)) 404 "resource_not_found"
    refuse (leb d.expires_at now) 401 "demo_session_expired"
    validate_demo_profile r.execution_profile_id
    ok (some d)
]

-- The run of a canvas under an idempotency key.
unfoldable pub find_by_key : ℕ → String → List GenerationRun → Option GenerationRun
find_by_key canvas key [] = none
find_by_key canvas key (run ∷ runs) =
    if run.canvas_id == canvas && str_eq run.idempotency_key key
    then some run
    else find_by_key canvas key runs

-- The sessions and the hours after the quota is charged.
unfoldable pub charged :
    ℕ
    → GenerationRunRequest
    → Option DemoSession
    → ServiceTables
    → Result (List DemoSession × List (ℕ × ℕ))
unfolding consume_hybrid_quota save_session
charged now r none s = ok (s.sessions, s.windows)
charged now r (some d) s =
    if str_eq r.execution_profile_id "demo_hybrid_v1"
    then (do
      after ← consume_hybrid_quota now s.store.runs d s.windows
      ok (save_session after.0 s.sessions, after.1))
    else ok (s.sessions, s.windows)

unfoldable pub last_sequence : ℕ → Store → Result ℕ
unfolding find_cursor
last_sequence canvas store = elim (find_cursor canvas store.cursors) [
  | none ↦ err Error.does_not_exist
  | some last ↦ ok last
]

abbrev pub session_id : Option DemoSession → Option ℕ
session_id none = none
session_id (some d) = some d.id

abbrev pub id_texts : List ℕ → List String
id_texts [] = []
id_texts (id ∷ ids) = uuid_text id ∷ id_texts ids

abbrev pub version_texts : List (ℕ × ℕ) → List (String × ℕ)
version_texts [] = []
version_texts ((id, version) ∷ versions) = (uuid_text id, version) ∷ version_texts versions

-- The row of the new run, with the defaults of its columns.
unfoldable pub new_run :
    ℕ
    → ℕ
    → Canvas
    → GenerationRunRequest
    → Option DemoSession
    → String
    → ExecutionConfiguration
    → RunContext
    → ℕ
    → GenerationRun
unfolding sorted sorted_versions
new_run now id canvas r d fingerprint configuration context after = record {
  id = id;
  request = record {
    canvas_id = canvas.id;
    demo_session_id = session_id d;
    operation = r.operation;
    idempotency_key = r.idempotency_key;
    request_fingerprint = fingerprint;
    base_canvas_revision = canvas.revision;
    context_snapshot = context.snapshot;
    context_manifest = context.manifest;
    context_hash = context.context_hash;
    events_after_sequence = after;
    selected_node_ids = id_texts (sorted r.selected_node_ids);
    expected_node_versions = version_texts (sorted_versions r.expected_node_versions);
    execution_configuration = configuration;
    max_attempts = 3;
    created_at = now;
  };
  status = RunStatus.queued;
  current_stage = none;
  worker_id = none;
  lease_token = none;
  lease_epoch = 0;
  attempt = 0;
  heartbeat_at = none;
  lease_expires_at = none;
  cancel_requested_at = none;
  error = none;
  started_at = none;
  completed_at = none;
}

unfoldable pub insert_run : GenerationRun → Store → Result Store
unfolding any
insert_run run store =
    if any (λ (other : GenerationRun). other.id == run.id) store.runs
    then err (Error.other_exception "IntegrityError")
    else ok (record store { runs = run ∷ store.runs })

-- A run under a new key.
unfoldable pub create_run :
    Composition
    → ℕ
    → ℕ
    → Canvas
    → GenerationRunRequest
    → Option DemoSession
    → String
    → Tx ServiceTables (RunCreated × ℕ)
unfolding validate_explicit_selection order_by_id keep is_selected charged last_sequence new_run
    insert_run run_created
create_run comp now id canvas r d fingerprint s = do
  configuration ← comp.resolve r.execution_profile_id
  let selected = order_by_id (keep (is_selected canvas.id r.selected_node_ids) s.nodes)
  validate_explicit_selection r selected
  context ← comp.build canvas r selected
  quota ← charged now r d s
  after ← last_sequence canvas.id s.store
  store ← insert_run (new_run now id canvas r d fingerprint configuration context after) s.store
  ok (
    (run_created (new_run now id canvas r d fingerprint configuration context after) after, 202),
    record s { store = store; sessions = quota.0; windows = quota.1 },
  )

-- A key that was used: the run again, if the request is the same.
unfoldable pub repeat_run : String → GenerationRun → Tx ServiceTables (RunCreated × ℕ)
unfolding run_created
repeat_run fingerprint run s =
    if str_eq run.request_fingerprint fingerprint
    then ok ((run_created run run.events_after_sequence, 202), s)
    else err (Error.api 409 "idempotency_key_conflict")

-- create_generation_run
unfoldable pub create_generation_run :
    Platform
    → Composition
    → ℕ
    → ℕ
    → ℕ
    → GenerationRunRequest
    → Option ℕ
    → Tx ServiceTables (RunCreated × ℕ)
unfolding generation_request_fingerprint checked_session find_canvas find_by_key repeat_run
    create_run
create_generation_run p comp now id canvas_id r demo_session_id s = do
  fingerprint ← generation_request_fingerprint p r
  d ← checked_session now canvas_id r demo_session_id s.sessions
  elim (find_canvas canvas_id s.canvases) [
    | none ↦ err (Error.api 404 "canvas_not_found")
    | some canvas ↦ elim (find_by_key canvas.id r.idempotency_key s.store.runs) [
      | some run ↦ repeat_run fingerprint run s
      | none ↦ create_run comp now id canvas r d fingerprint s
    ]
  ]
