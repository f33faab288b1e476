-- ===== src/Graph/Operations/Serialization.antt =====
-- proofgraph/graph/serialization.py: rows as JSON. `iso` is datetime.isoformat.
use proofgraph.Base.{ℕ, String, Option, none, some, List, [], ◌∷◌}
use proofgraph.Json.{Json, Items, Fields}
use proofgraph.Graph.Tables.{Node, Edge}
use proofgraph.Queue.{uuid_text}
use proofgraph.Graph.Operations.Kinds.{node_kind_name, edge_kind_name}

abbrev pub fields_of : List (String × Json) → Fields
fields_of [] = Fields.end
fields_of ((key, child) ∷ rest) = Fields.field key child (fields_of rest)

abbrev pub id_json : ℕ → Json
id_json id = Json.text (uuid_text id)

abbrev pub optional_id : Option ℕ → Json
optional_id none = Json.null
optional_id (some id) = id_json id

abbrev pub optional_json_text : Option String → Json
optional_json_text none = Json.null
optional_json_text (some s) = Json.text s

abbrev pub optional_json_num : Option ℕ → Json
optional_json_num none = Json.null
optional_json_num (some n) = Json.num n

-- [str(id) for id in ids]
unfoldable pub id_items : List ℕ → Items
id_items [] = Items.nil
id_items (id ∷ ids) = Items.cons (id_json id) (id_items ids)

unfoldable pub serialize_node : (ℕ → String) → Node → Fields
unfolding node_kind_name
serialize_node iso n = fields_of (
    ("id", id_json n.id)
    ∷ ("canvas_id", id_json n.canvas_id)
    ∷ ("kind", Json.text (node_kind_name n.kind))
    ∷ ("title", Json.text n.title)
    ∷ ("body", optional_json_text n.body)
    ∷ ("metadata", Json.obj n.metadata)
    ∷ ("branch_root_node_id", optional_id n.branch_root_id)
    ∷ ("position", Json.obj n.position)
    ∷ ("stale", Json.bool n.stale)
    ∷ ("stale_since_revision", optional_json_num n.stale_since_revision)
    ∷ ("version", Json.num n.version)
    ∷ ("position_version", Json.num n.position_version)
    ∷ ("context_token_count", optional_json_num n.context_token_count)
    ∷ ("context_representation_version", Json.num n.context_representation_version)
    ∷ ("context_content_hash", optional_json_text n.context_content_hash)
    ∷ ("created_at", Json.text (iso n.created_at))
    ∷ ("semantic_updated_at", Json.text (iso n.semantic_updated_at))
    ∷ ("position_updated_at", Json.text (iso n.position_updated_at))
    ∷ ("updated_at", Json.text (iso n.updated_at))
    ∷ [])

unfoldable pub serialize_edge : (ℕ → String) → Edge → Fields
unfolding edge_kind_name
serialize_edge iso e = fields_of (
    ("id", id_json e.id)
    ∷ ("canvas_id", id_json e.canvas_id)
    ∷ ("source_node_id", id_json e.source_id)
    ∷ ("target_node_id", id_json e.target_id)
    ∷ ("kind", Json.text (edge_kind_name e.kind))
    ∷ ("metadata", Json.obj e.metadata)
    ∷ ("version", Json.num e.version)
    ∷ ("created_at", Json.text (iso e.created_at))
    ∷ ("updated_at", Json.text (iso e.updated_at))
    ∷ [])
