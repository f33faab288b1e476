-- ===== src/Retention.antt =====
-- proofgraph/generation/retention.py: what a payload may keep of a retrieved source. A path in an
-- error message is not modelled, and `str.casefold` is that of ASCII text.
pub mod Rules
use proofgraph.Base.{
  ℕ, ◌+◌, String, Bool, true, false, not, ◌&&◌, none, some, List, [], ◌∷◌, map, Result, ok, err,
  Error, bind_result, leb, ◌==◌, if◌then◌else◌, length, any,
}
use proofgraph.Json.{Json, Items, Fields, get, codes}
use proofgraph.Json

abbrev pub max_retained_excerpt_chars : ℕ
max_retained_excerpt_chars = 500

abbrev lower : ℕ → ℕ
lower c = if leb b'A' c && leb c b'Z' then c + 32 else c

-- str.casefold
unfoldable pub casefold : String → List ℕ
casefold s = map lower (codes s)

unfoldable pub same_codes : List ℕ → List ℕ → Bool
same_codes [] [] = true
same_codes (x ∷ xs) (y ∷ ys) = x == y && same_codes xs ys
same_codes _ _ = false

unfoldable pub one_of : List String → List ℕ → Bool
unfolding any same_codes
one_of names normalized = any (λ name. same_codes (codes name) normalized) names

abbrev pub raw_source_fields : List String
raw_source_fields =
    "document_text" ∷ "full_content" ∷ "full_text" ∷ "html" ∷ "page_content" ∷ "raw_content"
    ∷ "raw_document" ∷ "raw_html" ∷ "source_document" ∷ []

abbrev pub excerpt_fields : List String
excerpt_fields = "excerpt" ∷ "sanitized_excerpt" ∷ "snippet" ∷ []

abbrev pub source_container_fields : List String
source_container_fields =
    "document" ∷ "page" ∷ "retrieved_content" ∷ "retrieved_contents" ∷ "retrieved_document"
    ∷ "retrieved_documents" ∷ "retrieved_page" ∷ "retrieved_pages" ∷ "source" ∷ "source_content"
    ∷ "source_material" ∷ "sources" ∷ []

abbrev pub source_text_fields : List String
source_text_fields = "body" ∷ "content" ∷ "html" ∷ "markdown" ∷ "text" ∷ []

abbrev pub source_metadata_excerpt_fields : List String
source_metadata_excerpt_fields = "description" ∷ "notes" ∷ "summary" ∷ []

-- _validate_excerpt
unfoldable pub validate_excerpt : Json → Result (Unit {0})
validate_excerpt (Json.text s) =
    if leb (length (codes s)) max_retained_excerpt_chars then ok tt else err Error.retention_policy
validate_excerpt _ = err Error.retention_policy

-- sum(len(tag) for tag in child), if all are strings.
unfoldable pub tag_chars : Items → Result ℕ
tag_chars Items.nil = ok 0
tag_chars (Items.cons (Json.text s) rest) =
    bind_result (tag_chars rest) (λ chars. ok (length (codes s) + chars))
tag_chars (Items.cons _ rest) = err Error.retention_policy

unfoldable pub validate_tags : Json → Result (Unit {0})
unfolding tag_chars
validate_tags (Json.arr tags) =
    bind_result (tag_chars tags)
      λ chars. if leb chars max_retained_excerpt_chars then ok tt else err Error.retention_policy
validate_tags _ = err Error.retention_policy

unfoldable pub is_null : Json → Bool
is_null Json.null = true
is_null _ = false

unfoldable pub is_text : Json → Bool
is_text (Json.text s) = true
is_text _ = false

-- A test of the loop body: if it applies, its check is made.
abbrev pub when : Bool → Result (Unit {0}) → Result (Unit {0})
when test check = if test then check else ok tt

abbrev pub ◌then_check◌ : Result (Unit {0}) → Result (Unit {0}) → Result (Unit {0})
◌then_check◌ first second = bind_result first (λ _. second)

infixr 5 ◌then_check◌
-- The checks on one key and its child, in order: raw source fields, `retained_content`, excerpts,
-- text and metadata of a source, tags, and a text in place of a source container.
unfoldable pub check_entry : Bool → Bool → List ℕ → Json → Result (Unit {0})
check_entry source_node mapping_is_source normalized child =
    when (one_of raw_source_fields normalized) (err Error.retention_policy)
    then_check when (same_codes (codes "retained_content") normalized && not (is_null child))
        (err Error.retention_policy)
    then_check when (one_of excerpt_fields normalized) (validate_excerpt child)
    then_check when (mapping_is_source && one_of source_text_fields normalized) (
        if source_node && same_codes (codes "body") normalized
        then validate_excerpt child
        else err Error.retention_policy)
    then_check when (mapping_is_source && one_of source_metadata_excerpt_fields normalized)
        (validate_excerpt child)
    then_check when (mapping_is_source && same_codes (codes "tags") normalized)
        (validate_tags child)
    then_check when (one_of source_container_fields normalized && is_text child)
        (err Error.retention_policy)

-- str(value.get("kind", "")).casefold() == "source": only a text reads so.
unfoldable pub is_source_node : Fields → Bool
unfolding get same_codes casefold
is_source_node fields = elim (get "kind" fields) [
  | some (Json.text s) ↦ same_codes (codes "source") (casefold s)
  | _ ↦ false
]

-- validate_retained_payload. A text is no `Sequence` here, and a scalar passes.
unfoldable mutual
  pub validate_retained_payload : Json → Bool → Result (Unit {0})
  validate_retained_payload (Json.obj fields) source_context =
      validate_fields fields (is_source_node fields)
        (if source_context then true else is_source_node fields)
  validate_retained_payload (Json.arr items) source_context = validate_items items source_context
  validate_retained_payload _ source_context = ok tt

  pub validate_items : Items → Bool → Result (Unit {0})
  validate_items Items.nil source_context = ok tt
  validate_items (Items.cons child rest) source_context =
      validate_retained_payload child source_context then_check validate_items rest source_context

  pub validate_fields : Fields → Bool → Bool → Result (Unit {0})
  validate_fields Fields.end source_node mapping_is_source = ok tt
  validate_fields (Fields.field key child rest) source_node mapping_is_source =
      check_entry source_node mapping_is_source (casefold key) child
      then_check validate_retained_payload child
          (if mapping_is_source then true else one_of source_container_fields (casefold key))
      then_check validate_fields rest source_node mapping_is_source

-- event_type in {"research.source_found", "evidence.extracted"}
unfoldable pub provisional_only : String → Bool
unfolding one_of
provisional_only event_type =
    one_of ("research.source_found" ∷ "evidence.extracted" ∷ []) (codes event_type)

-- payload.get("provisional") is True
unfoldable pub is_provisional : Fields → Bool
unfolding get
is_provisional payload = elim (get "provisional" payload) [ some (Json.bool b) ↦ b | _ ↦ false ]

unfoldable pub validate_progress_payload : String → Fields → Result (Unit {0})
unfolding validate_retained_payload provisional_only is_provisional
validate_progress_payload event_type payload =
    validate_retained_payload (Json.obj payload) false
    then_check (if provisional_only event_type && not (is_provisional payload)
        then err Error.retention_policy
        else ok tt)
