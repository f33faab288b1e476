-- ===== src/Examples/Retention.antt =====
-- Retention at concrete payloads.
use proofgraph.Base.{◌≡◌, refl, false, ok, err, Error}
use proofgraph.Json.{Json, Items, Fields}
use proofgraph.Retention.{
  validate_retained_payload, check_entry, casefold, is_source_node, one_of, is_text,
  validate_excerpt,
}
use proofgraph.Retention.Rules.{Clean, validate_retained_payload-Clean}

-- A list of sources, one with a short excerpt.
abbrev found_sources : Json
found_sources = Json.obj (
    Fields.field "sources"
      (Json.arr (
        Items.cons
          (Json.obj (
            Fields.field "title" (Json.text "Report")
              (Fields.field "Sanitized_Excerpt" (Json.text "short") Fields.end)))
          Items.nil))
      Fields.end)

found_sources_pass : validate_retained_payload found_sources false ≡ ok tt
unfolding validate_retained_payload check_entry casefold is_source_node one_of is_text
    validate_excerpt
found_sources_pass = refl

validate_retained_payload-Clean_example : Clean found_sources false
validate_retained_payload-Clean_example =
    validate_retained_payload-Clean found_sources false found_sources_pass

-- Under a key that holds sources the text itself is refused, however deep.
text_of_source_refused :
    validate_retained_payload
      (Json.obj (
        Fields.field "Sources"
          (Json.arr (
            Items.cons
              (Json.obj (Fields.field "text" (Json.text "whole page") Fields.end))
              Items.nil))
          Fields.end))
      false
    ≡ err Error.retention_policy
unfolding validate_retained_payload check_entry casefold is_source_node one_of is_text
text_of_source_refused = refl
