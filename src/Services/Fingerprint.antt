-- ===== src/Services/Fingerprint.antt =====
-- proofgraph/generation/services.py: generation_request_fingerprint.
use proofgraph.Base.{
  ℕ, String, none, some, List, [], ◌∷◌, leb, if◌then◌else◌, Error, Result, ok, err,
}
use proofgraph.Json.{Json, Fields}
use proofgraph.Queue.{uuid_text}
use proofgraph.Tables.{RunOperation}
use proofgraph.Graph.Ids.{sorted}
use proofgraph.Graph.Operations.Serialization.{fields_of, id_items, optional_json_text}
use proofgraph.Graph.Operations.Rows.{Platform}
use proofgraph.Services.Selection.{GenerationRunRequest}

unfoldable pub operation_name : RunOperation → String
operation_name RunOperation.generate_strategies = "generate_strategies"
operation_name RunOperation.research_evidence = "research_evidence"
operation_name RunOperation.synthesize_opportunities = "synthesize_opportunities"
operation_name RunOperation.regenerate_stale = "regenerate_stale"

unfoldable pub put_version : ℕ × ℕ → List (ℕ × ℕ) → List (ℕ × ℕ)
put_version entry [] = entry ∷ []
put_version entry (other ∷ versions) =
    let rest = put_version entry versions in
    if leb entry.0 other.0 then entry ∷ other ∷ versions else other ∷ rest

-- dict(sorted(versions.items()))
unfoldable pub sorted_versions : List (ℕ × ℕ) → List (ℕ × ℕ)
unfolding put_version
sorted_versions [] = []
sorted_versions (entry ∷ versions) = put_version entry (sorted_versions versions)

unfoldable pub version_fields : List (ℕ × ℕ) → Fields
version_fields [] = Fields.end
version_fields ((id, version) ∷ versions) =
    Fields.field (uuid_text id) (Json.num version) (version_fields versions)

-- What the fingerprint is taken of. A request has no id twice.
unfoldable pub semantic : GenerationRunRequest → Fields
unfolding operation_name id_items sorted version_fields sorted_versions
semantic r = fields_of (
    ("operation", Json.text (operation_name r.operation))
    ∷ ("selected_node_ids", Json.arr (id_items (sorted r.selected_node_ids)))
    ∷ (
      "expected_node_versions",
      Json.obj (version_fields (sorted_versions r.expected_node_versions)),
    )
    ∷ ("instruction", optional_json_text r.instruction)
    ∷ ("execution_profile_id", Json.text r.execution_profile_id)
    ∷ ("regeneration_scope", optional_json_text r.regeneration_scope)
    ∷ [])

unfoldable pub generation_request_fingerprint : Platform → GenerationRunRequest → Result String
unfolding semantic
generation_request_fingerprint p r = elim (p.dumps (semantic r)) [
  | none ↦ err (Error.other_exception "ValueError")
  | some text ↦ ok (p.sha256 text)
]
