-- ===== src/Examples/Operations.antt =====
-- Operations on a canvas at concrete inputs.
use proofgraph.Base.{
  ℕ, String, ◌≡◌, refl, false, none, some, List, [], ◌∷◌, Result, ok, err, Error, str_eq,
  if◌then◌else◌, arith,
}
use proofgraph.Graph.Ids.{member}
use proofgraph.Graph.Staleness.Marking.Consistency.{has_cause}
use proofgraph.Base.Checks.{◌>>=◌, Holds}
use proofgraph.Json.{Json, Fields}
use proofgraph.Graph.Tables.{NodeKind, EdgeKind, Node, Edge}
use proofgraph.Graph.Queries.{GraphStore}
use proofgraph.Graph.Operations.Rows.{Platform, Supply, has_node}
use proofgraph.Graph.Operations.Serialization.{fields_of}
use proofgraph.Graph.Operations.Apply.{
  GraphTables, Request, canonical_request, apply_graph_operation, handle,
}
use proofgraph.Graph.Operations.Calls.{Call, call, serve}
use proofgraph.Graph.Operations.Keys.{apply_graph_operation_once, operation_key_conflict}
use proofgraph.Graph.Operations.Revisions.{revisions, countdown, Numbered, serve-Numbered}
use proofgraph.Graph.Operations.Payload.{item}
use proofgraph.Graph.Operations.Versions.Revising.{updates, deletes}
use proofgraph.Graph.Operations.Versions.Locking.{expected_version_used_once}
use proofgraph.Graph.Operations.Integrity.{Sound}
use proofgraph.Graph.Operations.Integrity.Serving.{serve-Sound}
use proofgraph.Graph.Operations.Effects.{Change, has_edge_id}
use proofgraph.Graph.Operations.Effects.Handling.{handle-Changed}

-- A platform with three identifiers, and a fingerprint that tells two requests apart.
abbrev pub platform : Platform
platform = record {
  uuid_of = λ s.
      if str_eq s "first"
      then some 1
      else (if str_eq s "edge" then some 9 else (if str_eq s "key" then some 77 else some 78));
  iso = λ t. "2026-01-01T00:00:00Z";
  dumps = λ fields. elim fields [
    | Fields.end ↦ some "{}"
    | Fields.field key child rest ↦ elim child [ Json.text s ↦ some s | _ ↦ some key ]
  ];
  sha256 = λ s. s;
}

abbrev supply : Supply
supply = record { now = 5; fresh_id = 30; operation_id = 40 }

abbrev pub claim_row : ℕ → Node
claim_row id = record {
  id = id;
  canvas_id = 7;
  kind = NodeKind.claim;
  title = "a claim";
  body = none;
  metadata = Fields.end;
  branch_root_id = none;
  position = Fields.end;
  stale = false;
  stale_since_revision = none;
  version = 1;
  position_version = 1;
  context_token_count = none;
  context_representation_version = 1;
  context_content_hash = none;
  created_at = 0;
  semantic_updated_at = 0;
  position_updated_at = 0;
  updated_at = 0;
}

abbrev link : Edge
link = record {
  id = 9;
  canvas_id = 7;
  source_id = 1;
  target_id = 2;
  kind = EdgeKind.supports;
  metadata = Fields.end;
  version = 1;
  created_at = 0;
  updated_at = 0;
}

abbrev pub tables : GraphTables
tables = record {
  canvases = record { id = 7; title = "canvas"; revision = 0; created_at = 0; updated_at = 0 } ∷ [];
  operations = [];
  graph = record { nodes = claim_row 1 ∷ claim_row 2 ∷ []; edges = link ∷ []; causes = [] };
}

-- A request under a key.
abbrev request : String → String → List (String × Json) → Call
request key op fields = record {
  supply = supply;
  canvas_id = 7;
  payload = fields_of (("op", Json.text op) ∷ ("operation_key", Json.text key) ∷ fields);
  actor_type = "direct_api";
  actor_id = none;
}

abbrev delete_link : Call
delete_link =
    request "key" "DELETE_EDGE"
      (("edge_id", Json.text "edge") ∷ ("expected_version", Json.num 1) ∷ [])

abbrev delete_first : String → Call
delete_first key =
    request key "DELETE_NODE"
      (("node_id", Json.text "first") ∷ ("expected_version", Json.num 1) ∷ [])

abbrev result_or : Result (Fields × GraphTables) → Fields × GraphTables
result_or (ok out) = out
result_or (err e) = (Fields.end, tables)

abbrev outcome : Fields × GraphTables
outcome = result_or (call platform delete_link tables)

link_deleted : outcome.1.graph.edges ≡ []
unfolding apply_graph_operation ◌>>=◌
link_deleted = refl

-- Another operation in between.
apply_graph_operation_once_example :
    call platform
      (record delete_link { supply = supply; actor_id = some "b" })
      (serve platform (delete_first "other" ∷ []) outcome.1)
    ≡ ok (outcome.0, serve platform (delete_first "other" ∷ []) outcome.1)
unfolding apply_graph_operation ◌>>=◌
apply_graph_operation_once_example =
    apply_graph_operation_once platform delete_link tables outcome.1 outcome.0
      (delete_first "other" ∷ []) supply (some "b") refl

abbrev request_or : Result Request → Request
request_or (ok r) = r
request_or (err e) = record {
  canonical = Fields.end;
  op = "";
  operation_key = "";
  fingerprint = "";
}

-- The key again, with the content of another operation.
operation_key_conflict_example :
    call platform (delete_first "key") (serve platform (delete_first "other" ∷ []) outcome.1)
    ≡ err (Error.api 409 "operation_key_conflict")
unfolding apply_graph_operation ◌>>=◌ canonical_request
operation_key_conflict_example =
    operation_key_conflict platform delete_link (delete_first "key") tables outcome.1 outcome.0
      (delete_first "other" ∷ []) (request_or (canonical_request platform delete_link.payload))
      (request_or (canonical_request platform (delete_first "key").payload)) refl refl refl refl
      refl refl refl

serve-Numbered_example : Numbered (serve platform (delete_link ∷ delete_first "other" ∷ []) tables)
unfolding revisions countdown
serve-Numbered_example =
    serve-Numbered platform (delete_link ∷ delete_first "other" ∷ []) tables (refl, tt)

tables-Sound : Sound tables.graph
unfolding member has_edge_id has_node has_cause
tables-Sound = record {
  unique_nodes = (refl, (refl, tt));
  unique_edges = (refl, tt);
  connected = ((refl, refl), tt);
  anchored = ((λ root e. ground arith), ((λ root e. ground arith), tt));
  owned = tt;
  consistent = (refl, (refl, tt));
  brief = ((λ source. ground arith), ((λ source. ground arith), tt));
}

serve-Sound_example : Sound (serve platform (delete_link ∷ delete_first "other" ∷ []) tables).graph
serve-Sound_example =
    serve-Sound platform (delete_link ∷ delete_first "other" ∷ []) tables tables-Sound

handle-Changed_example :
    Holds
      (λ (out : Fields × GraphStore). Change 7 supply.fresh_id tables.graph out.1)
      (handle "DELETE_EDGE" platform supply 7 tables.graph delete_link.payload)
unfolding member has_edge_id
handle-Changed_example =
    handle-Changed "DELETE_EDGE" platform supply 7 tables.graph delete_link.payload
      tables-Sound.unique_nodes tables-Sound.unique_edges

abbrev update_first : Call
update_first = request "key" "UPDATE_NODE" (
    ("node_id", Json.text "first")
    ∷ ("expected_version", Json.num 1)
    ∷ ("changes", Json.obj (fields_of (("title", Json.text "a better claim") ∷ [])))
    ∷ [])

abbrev updated : Fields × GraphTables
updated = result_or (call platform update_first tables)

-- A deletion that expects the version before the update.
expected_version_used_once_example :
    Holds
      (λ (out : Fields × GraphTables). out.1 ≡ serve platform (delete_link ∷ []) updated.1)
      (call platform (delete_first "other") (serve platform (delete_link ∷ []) updated.1))
unfolding apply_graph_operation ◌>>=◌ canonical_request item
expected_version_used_once_example =
    expected_version_used_once platform update_first (delete_first "other") tables updated.1
      updated.0 (delete_link ∷ []) 1 1
      (
        request_or (canonical_request platform update_first.payload),
        refl,
        updates,
        (Json.text "first", refl, refl, refl),
      )
      tables-Sound refl refl (refl, tt) refl
      (
        request_or (canonical_request platform (delete_first "other").payload),
        refl,
        deletes,
        (Json.text "first", refl, refl, refl),
      )
