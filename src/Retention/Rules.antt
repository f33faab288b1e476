-- ===== src/Retention/Rules.antt =====
-- What a payload that passes validation keeps, at every depth: stated of keys and children alone.
use proofgraph.Base.{
  ℕ, ◌≤◌, String, ◌≡◌, refl, Bool, true, false, List, ok, err, Result, if◌then◌else◌, length, arith,
  [], ◌∷◌, ◌+◌, ap, Result-cases, inl, inr,
}
use proofgraph.Json.{Json, Items, Fields, codes}
use proofgraph.Retention.{
  max_retained_excerpt_chars, casefold, same_codes, one_of, raw_source_fields, excerpt_fields,
  source_container_fields, source_text_fields, source_metadata_excerpt_fields, validate_excerpt,
  tag_chars, validate_tags, is_null, is_text, check_entry, is_source_node,
  validate_retained_payload, validate_items, validate_fields, ◌then_check◌,
}

-- A text of at most 500 characters.
abbrev pub IsExcerpt : Json → Type 0
IsExcerpt c = (s : String) × (c ≡ Json.text s) × (length (codes s) ≤ max_retained_excerpt_chars)

abbrev pub texts : List String → Items
texts [] = Items.nil
texts (s ∷ rest) = Items.cons (Json.text s) (texts rest)

abbrev pub characters : List String → ℕ
characters [] = 0
characters (s ∷ rest) = length (codes s) + characters rest

-- A list of texts with at most 500 characters together.
abbrev pub AreTags : Json → Type 0
AreTags c =
    (tags : List String) × (c ≡ Json.arr (texts tags))
    × (characters tags ≤ max_retained_excerpt_chars)

-- What an entry `key: child` of an object may be, by its folded key.
pub record Allowed (source_node in_source : Bool) (key : List ℕ) (child : Json) : Type 0 where
  pub not_raw : one_of raw_source_fields key ≡ false
  pub not_retained : same_codes (codes "retained_content") key ≡ true → child ≡ Json.null
  pub short : one_of excerpt_fields key ≡ true → IsExcerpt child
  pub source_text :
      in_source ≡ true
      → one_of source_text_fields key ≡ true
      → (source_node ≡ true) × (same_codes (codes "body") key ≡ true) × IsExcerpt child
  pub source_metadata :
      in_source ≡ true → one_of source_metadata_excerpt_fields key ≡ true → IsExcerpt child
  pub tags : in_source ≡ true → same_codes (codes "tags") key ≡ true → AreTags child
  pub container : one_of source_container_fields key ≡ true → (s : String) → child ≡ Json.text s → ⊥

-- Every entry at every depth is allowed. An object is a source if its kind says so, or if it
-- stands below a source or below a key that holds sources.
abbrev mutual
  pub Clean : Json → Bool → Type 0
  Clean (Json.obj fields) ctx =
      CleanFields fields (is_source_node fields) (if ctx then true else is_source_node fields)
  Clean (Json.arr items) ctx = CleanItems items ctx
  Clean _ ctx = Unit

  pub CleanItems : Items → Bool → Type 0
  CleanItems Items.nil ctx = Unit
  CleanItems (Items.cons child rest) ctx = Clean child ctx × CleanItems rest ctx

  pub CleanFields : Fields → Bool → Bool → Type 0
  CleanFields Fields.end source_node in_source = Unit
  CleanFields (Fields.field key child rest) source_node in_source =
      Allowed source_node in_source (casefold key) child
      × Clean child (if in_source then true else one_of source_container_fields (casefold key))
      × CleanFields rest source_node in_source

validate_excerpt-IsExcerpt : (c : Json) → validate_excerpt c ≡ ok tt → IsExcerpt c
unfolding validate_excerpt
validate_excerpt-IsExcerpt (Json.text s) h = (s, refl, ground arith)
validate_excerpt-IsExcerpt _ h = ground arith

tag_chars-texts :
    (xs : Items) (n : ℕ)
    → tag_chars xs ≡ ok n
    → (tags : List String) × (xs ≡ texts tags) × (characters tags ≡ n)
unfolding tag_chars
tag_chars-texts Items.nil n h = ([], refl, cc)
tag_chars-texts (Items.cons (Json.text s) rest) n h = elim (Result-cases (tag_chars rest)) [
  | inl (k, e) ↦
      let (tags, same, counted) = tag_chars-texts rest k e in
      (s ∷ tags, ap (λ (ys : Items). Items.cons (Json.text s) ys) same, ground (arith, e, counted))
  | inr (k, e) ↦ let absurd : ⊥ = ground (arith, e) in elim absurd [ ]
]
tag_chars-texts (Items.cons _ rest) n h = ground arith

validate_tags-AreTags : (c : Json) → validate_tags c ≡ ok tt → AreTags c
unfolding validate_tags
validate_tags-AreTags (Json.arr items) h = elim (Result-cases (tag_chars items)) [
  | inl (n, e) ↦
      let (tags, same, counted) = tag_chars-texts items n e in
      (tags, ap Json.arr same, ground (arith, e, counted))
  | inr (k, e) ↦ let absurd : ⊥ = ground (arith, e) in elim absurd [ ]
]
validate_tags-AreTags _ h = ground arith

is_null-eq : (c : Json) → is_null c ≡ true → c ≡ Json.null
unfolding is_null
is_null-eq Json.null h = refl
is_null-eq _ h = cc

check_entry-Allowed :
    (source_node in_source : Bool) (key : List ℕ) (child : Json)
    → check_entry source_node in_source key child ≡ ok tt
    → Allowed source_node in_source key child
unfolding check_entry is_text
check_entry-Allowed source_node in_source key child h =
    let excerpt = validate_excerpt-IsExcerpt child in
    let are_tags = validate_tags-AreTags child in
    record {
      not_raw = ground arith;
      not_retained = ground (arith, is_null-eq child);
      short = λ e. excerpt (ground arith);
      source_text = λ a b. (ground arith, ground arith, excerpt (ground arith));
      source_metadata = λ a b. excerpt (ground arith);
      tags = λ a b. are_tags (ground arith);
      container = λ e s t. ground arith;
    }

then_check_parts : (a b : Result (Unit {0})) → (a then_check b) ≡ ok tt → (a ≡ ok tt) × (b ≡ ok tt)
then_check_parts (ok tt) b h = (refl, h)
then_check_parts (err e) b h = ground arith

mutual
  unfolding validate_retained_payload

  Clean-payload : (j : Json) (ctx : Bool) → validate_retained_payload j ctx ≡ ok tt → Clean j ctx
  Clean-payload (Json.obj fields) ctx h = clean_fields fields _ _ h
  Clean-payload (Json.arr items) ctx h = clean_items items ctx h
  Clean-payload Json.null ctx h = tt
  Clean-payload (Json.bool b) ctx h = tt
  Clean-payload (Json.num n) ctx h = tt
  Clean-payload (Json.decimal s) ctx h = tt
  Clean-payload (Json.text s) ctx h = tt

  clean_items : (xs : Items) (ctx : Bool) → validate_items xs ctx ≡ ok tt → CleanItems xs ctx
  clean_items Items.nil ctx h = tt
  clean_items (Items.cons child rest) ctx h =
      let (here, later) = then_check_parts _ _ h in
      (Clean-payload child ctx here, clean_items rest ctx later)

  clean_fields :
      (fs : Fields) (source_node in_source : Bool)
      → validate_fields fs source_node in_source ≡ ok tt
      → CleanFields fs source_node in_source
  clean_fields Fields.end source_node in_source h = tt
  clean_fields (Fields.field key child rest) source_node in_source h =
      let (entry, below) = then_check_parts _ _ h in
      let (inside, later) = then_check_parts _ _ below in
      (
        check_entry-Allowed source_node in_source (casefold key) child entry,
        Clean-payload child _ inside,
        clean_fields rest source_node in_source later,
      )

-- A payload that passes `validate_retained_payload`, in or outside the context of a source, is
-- clean at every depth, with keys compared without case: no key is a raw source field,
-- `retained_content` is null, the values of the excerpt fields are texts of at most 500 characters,
-- and the value of a source container field is no text. In an object that is a source by its
-- kind, or stands in one, below a source container field or in the context of a source, the
-- source text fields (body, content, html, markdown, text) do not occur, but for a body of at most
-- 500 characters in a source itself; description, notes and summary are texts of at most 500
-- characters, and tags are texts of at most 500 characters together.
pub validate_retained_payload-Clean :
    (j : Json) (ctx : Bool) → validate_retained_payload j ctx ≡ ok tt → Clean j ctx
validate_retained_payload-Clean j ctx h = Clean-payload j ctx h
