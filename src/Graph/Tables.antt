-- ===== src/Graph/Tables.antt =====
-- proofgraph/graph/models.py: the rows of the graph tables. A UUID is its number, a timestamp
-- counts microseconds, and metadata is a JSON object.
use proofgraph.Base.{ℕ, String, Bool, Option}
use proofgraph.Json.{Fields}

pub data NodeKind : Type 0 where
  goal constraint strategy source claim opportunity assumption risk : NodeKind
  validation_experiment generation_placeholder : NodeKind

pub data EdgeKind : Type 0 where
  supports contradicts derived_from constrained_by evolves_into : EdgeKind
  requires_validation extracted_from : EdgeKind

pub record Node : Type 0 where
  pub id : ℕ
  pub canvas_id : ℕ
  pub kind : NodeKind
  pub title : String
  pub body : Option String
  pub metadata : Fields
  pub branch_root_id : Option ℕ
  pub position : Fields
  pub stale : Bool
  pub stale_since_revision : Option ℕ
  pub version : ℕ
  pub position_version : ℕ
  pub context_token_count : Option ℕ
  pub context_representation_version : ℕ
  pub context_content_hash : Option String
  pub created_at : ℕ
  pub semantic_updated_at : ℕ
  pub position_updated_at : ℕ
  pub updated_at : ℕ

pub record Edge : Type 0 where
  pub id : ℕ
  pub canvas_id : ℕ
  pub source_id : ℕ
  pub target_id : ℕ
  pub kind : EdgeKind
  pub metadata : Fields
  pub version : ℕ
  pub created_at : ℕ
  pub updated_at : ℕ

pub data OriginType : Type 0 where
  node edge : OriginType

pub record NodeStalenessCause : Type 0 where
  pub canvas_id : ℕ
  pub node_id : ℕ
  pub cause_graph_operation_id : ℕ
  pub origin_entity_type : OriginType
  pub origin_entity_id : ℕ
  pub created_at : ℕ
  pub cleared_by_graph_operation_id : Option ℕ
  pub cleared_at : Option ℕ

pub record Canvas : Type 0 where
  pub id : ℕ
  pub title : String
  pub revision : ℕ
  pub created_at : ℕ
  pub updated_at : ℕ

pub record GraphOperation : Type 0 where
  pub id : ℕ
  pub canvas_id : ℕ
  pub actor_type : String
  pub actor_id : Option String
  pub operation_key : String
  pub request_fingerprint : String
  pub operation_type : String
  pub payload : Fields
  pub result_payload : Fields
  pub canvas_revision : ℕ
  pub created_at : ℕ
