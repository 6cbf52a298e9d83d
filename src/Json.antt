-- ===== src/Json.antt =====
-- `encoding/json` as the program uses it: a value of type `any`, and a `json.RawMessage` by what
-- the code can see of it.
use clawbot_server.Base.{
  ℕ, ◌*◌, List, [], ◌∷◌, String, Bool, true, false, Option, none, some, ◌==◌, if◌then◌else◌,
}
use clawbot_server.Base.Int.{ℤ, pos}

-- A decoded value. A number (`float64`) is counted in thousandths.
mutual
  pub data Json : Type 0 where
    null : Json
    bool : Bool → Json
    num : ℤ → Json
    str : String → Json
    arr : Items → Json
    obj : Fields → Json

  pub data Items : Type 0 where
    nil : Items
    cons : Json → Items → Items

  pub data Fields : Type 0 where
    end : Fields
    field : String → Json → Fields → Fields

-- `empty` has no bytes, `braces` is the text `{}`, `invalid` does not parse, and `doc j` is any other
-- text of the value `j`.
pub data Raw : Type 0 where
  empty braces invalid : Raw
  doc : Json → Raw

-- `len(raw) == 0`.
abbrev pub is_empty : Raw → Bool
is_empty empty = true
is_empty _ = false

-- `string(raw) == "{}"`.
abbrev pub is_braces : Raw → Bool
is_braces braces = true
is_braces _ = false

-- `payload[key]`, with `none` where the key is missing.
abbrev pub lookup : String → Fields → Option Json
lookup key end = none
lookup key (field k v fs) = if k == key then some v else lookup key fs

-- `payload[key] = value`.
abbrev pub insert : String → Json → Fields → Fields
insert key v end = field key v end
insert key v (field k w fs) = if k == key then field k v fs else field k w (insert key v fs)

-- `json.Marshal` of a map.
abbrev pub marshal : Fields → Raw
marshal end = braces
marshal (field k v fs) = doc (obj (field k v fs))

-- `json.Unmarshal` into a `map[string]any`: the text `null` gives the nil map, and a text that is no
-- object gives an error.
pub data Decoded : Type 0 where
  object : Fields → Decoded
  nil_map : Decoded
  failed : Decoded

abbrev pub decode : Json → Decoded
decode (obj fs) = object fs
decode null = nil_map
decode _ = failed

abbrev pub unmarshal : Raw → Decoded
unmarshal empty = failed
unmarshal invalid = failed
unmarshal braces = object end
unmarshal (doc j) = decode j

-- `if len(raw) == 0 { raw = {} }`.
abbrev pub or_braces : Raw → Raw
or_braces empty = braces
or_braces raw = raw

-- A list of texts, and an `int`, as values.
abbrev pub items : List String → Items
items [] = nil
items (s ∷ ss) = cons (str s) (items ss)

abbrev pub whole : ℕ → Json
whole n = num (pos (1000 * n))

-- A `json.RawMessage` inside a value: the nil message is written as `null`, and one that does not
-- parse makes `json.Marshal` fail.
abbrev pub raw_value : Raw → Option Json
raw_value empty = some null
raw_value braces = some (obj end)
raw_value invalid = none
raw_value (doc j) = some j
