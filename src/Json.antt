-- ===== src/Json.antt =====
-- JSON values, as Python's `json` and Django's JSONField hold them. Objects keep the order of
-- their keys and have no key twice. A number is a natural number, or another number (a negative
-- one, a fraction, an infinity) by its text.
use Prim.Native.Char.{code}
use proofgraph.Base.{ℕ, String, Bool, Option, none, some, List, [], ◌∷◌, if◌then◌else◌, str_eq}

mutual
  pub data Json : Type 0 where
    null : Json
    bool : Bool → Json
    num : ℕ → Json
    decimal : String → Json
    text : String → Json
    arr : Items → Json
    obj : Fields → Json

  pub data Items : Type 0 where
    nil : Items
    cons : Json → Items → Items

  pub data Fields : Type 0 where
    end : Fields
    field : String → Json → Fields → Fields

-- d.get(key)
unfoldable pub get : String → Fields → Option Json
get key end = none
get key (field k child rest) = if str_eq k key then some child else get key rest

-- {**d, key: value}
unfoldable pub put : String → Json → Fields → Fields
put key value end = field key value end
put key value (field k child rest) =
    let later = put key value rest in
    if str_eq k key then field key value rest else field k child later

-- The code points of a text; len(s) is their number.
abbrev pub codes : String → List ℕ
codes String.[] = []
codes (String.◌∷◌ c s) = code c ∷ codes s
