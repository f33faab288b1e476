-- ===== src/Graph/Operations/Payload.antt =====
-- proofgraph/graph/operations.py: reading a request. Details of an error are left out.
use Prim.Native.Nat.{◌^◌}
use proofgraph.Base.{
  ℕ, ◌-◌, String, Bool, true, false, not, ◌&&◌, ◌||◌, Option, none, some, List, [], ◌∷◌, ◌==◌, ltb,
  leb, str_eq, length, any, if◌then◌else◌, Error, Result, ok, err,
}
use proofgraph.Base.Checks.{◌>>=◌, ◌>>◌, refuse}
use proofgraph.Json.{Json, Fields, get, codes}
use proofgraph.Graph.Tables.{NodeKind}

unfoldable pub contains : String → List String → Bool
contains s [] = false
contains s (x ∷ xs) = str_eq s x || contains s xs

unfoldable pub any_key : (String → Bool) → Fields → Bool
any_key test Fields.end = false
any_key test (Fields.field key child rest) = test key || any_key test rest

-- key in d
unfoldable pub has_key : String → Fields → Bool
unfolding get
has_key key fields = elim (get key fields) [ none ↦ false | some child ↦ true ]

unfoldable pub lacks_key : List String → Fields → Bool
unfolding has_key
lacks_key [] fields = false
lacks_key (key ∷ required) fields = not (has_key key fields) || lacks_key required fields

-- _validate_keys
unfoldable pub validate_keys : List String → List String → List String → Fields → Result (Unit {0})
unfolding any_key contains lacks_key
validate_keys allowed required protected value = do
  refuse (any_key (λ key. contains key protected) value) 403 "server_owned_field"
  refuse (any_key (λ key. not (contains key allowed || contains key protected)) value) 422
      "unknown_field"
  refuse (lacks_key required value) 422 "missing_field"

-- d[key]
unfoldable pub item : String → Fields → Result Json
unfolding get
item key fields = elim (get key fields) [
  | none ↦ err (Error.other_exception "KeyError")
  | some child ↦ ok child
]

-- d.get(key, {})
unfoldable pub item_or_empty : String → Fields → Json
unfolding get
item_or_empty key fields = elim (get key fields) [ none ↦ Json.obj Fields.end | some child ↦ child ]

-- _parse_uuid
unfoldable pub parse_uuid : (String → Option ℕ) → Json → Result ℕ
parse_uuid uuid_of (Json.text s) = elim (uuid_of s) [
  | none ↦ err (Error.api 422 "invalid_uuid")
  | some id ↦ ok id
]
parse_uuid uuid_of _ = err (Error.api 422 "invalid_uuid")

-- _positive_version
unfoldable pub positive_version : Json → Result ℕ
positive_version (Json.num n) = if ltb n 1 then err (Error.api 422 "invalid_version") else ok n
positive_version _ = err (Error.api 422 "invalid_version")

-- str.isspace of one character.
unfoldable pub is_space : ℕ → Bool
is_space c =
    leb 9 c && leb c 13
    || leb 28 c && leb c 32
    || c == 133
    || c == 160
    || c == 5760
    || leb 8192 c && leb c 8202
    || c == 8232
    || c == 8233
    || c == 8239
    || c == 8287
    || c == 12288

unfoldable pub strip_left : String → String
unfolding is_space
strip_left String.[] = String.[]
strip_left (String.◌∷◌ c s) =
    let rest = strip_left s in
    if any is_space (codes (String.◌∷◌ c String.[])) then rest else String.◌∷◌ c s

unfoldable pub is_empty_text : String → Bool
is_empty_text String.[] = true
is_empty_text (String.◌∷◌ c s) = false

unfoldable pub strip_right : String → String
unfolding is_space is_empty_text
strip_right String.[] = String.[]
strip_right (String.◌∷◌ c s) =
    let rest = strip_right s in
    if is_empty_text rest && any is_space (codes (String.◌∷◌ c String.[]))
    then String.[]
    else String.◌∷◌ c rest

-- s.strip()
unfoldable pub strip : String → String
unfolding strip_left strip_right
strip s = strip_right (strip_left s)

abbrev pub max_retained_source_chars : ℕ
max_retained_source_chars = 500

unfoldable pub is_source_kind : NodeKind → Bool
is_source_kind NodeKind.source = true
is_source_kind _ = false

-- kind == NodeKind.SOURCE and len(s) > 500
unfoldable pub too_long : NodeKind → String → Bool
unfolding is_source_kind
too_long kind s = is_source_kind kind && ltb max_retained_source_chars (length (codes s))

-- _validate_title
unfoldable pub validate_title : NodeKind → Json → Result String
unfolding strip is_empty_text too_long
validate_title kind (Json.text s) = do
  refuse (is_empty_text (strip s)) 422 "invalid_title"
  refuse (too_long kind (strip s)) 422 "retention_policy_violation"
  ok (strip s)
validate_title kind _ = err (Error.api 422 "invalid_title")

-- _validate_body
unfoldable pub validate_body : NodeKind → Json → Result (Option String)
unfolding too_long
validate_body kind Json.null = ok none
validate_body kind (Json.text s) = do
  refuse (too_long kind s) 422 "retention_policy_violation"
  ok (some s)
validate_body kind _ = err (Error.api 422 "invalid_body")

-- _validate_json_object
unfoldable pub validate_json_object : Json → Result Fields
validate_json_object (Json.obj fields) = ok fields
validate_json_object _ = err (Error.api 422 "invalid_object")

-- The least natural number that is rounded to no double.
unfoldable pub float_limit : ℕ
float_limit = 2 ^ 1024 - 2 ^ 970

-- A number that is finite; `true` and `false` are none, and math.isfinite raises on an int that is
-- no double. The text of a negative int is taken for finite.
unfoldable pub is_finite_number : Json → Result Bool
unfolding contains float_limit
is_finite_number (Json.num n) =
    if ltb n float_limit then ok true else err (Error.other_exception "OverflowError")
is_finite_number (Json.decimal s) = ok (not (contains s ("NaN" ∷ "Infinity" ∷ "-Infinity" ∷ [])))
is_finite_number _ = ok false

-- One round of the loop on the coordinates.
unfoldable pub validate_coordinate : String → Fields → Result (Unit {0})
unfolding get is_finite_number
validate_coordinate key fields = elim (get key fields) [
  | none ↦ err (Error.api 422 "invalid_position")
  | some number ↦ is_finite_number number >>= λ finite. refuse (not finite) 422 "invalid_position"
]

-- _validate_position
unfoldable pub validate_position : Json → Result Fields
unfolding validate_json_object any_key contains lacks_key validate_coordinate
validate_position value = do
  position ← validate_json_object value
  refuse (any_key (λ key. not (contains key ("x" ∷ "y" ∷ []))) position) 422 "invalid_position"
  refuse (lacks_key ("x" ∷ "y" ∷ []) position) 422 "invalid_position"
  validate_coordinate "x" position
  validate_coordinate "y" position
  ok position
