-- ===== src/Cbor/Types.antt =====
-- convertCBORToEIP712TypedData of services/new/utils/cbor/cbor_to_eip712_converter.ts: the types of
-- a message, from what the visitor is shown.
use Prim.Native.String.{◌++◌ as cat, len, slice}
use vsc_node.Prelude.{
  ℕ, zero, suc, ◌-◌, String, Bool, true, false, ◌&&◌, List, [], ◌∷◌, ◌++◌, Option, none, some, ltb,
  str_eq, if◌then◌else◌, ◌>>=◌, starts_with, Dict, lookup, insert, find,
}
use vsc_node.Cbor.Values.{
  Leaf, text, number, big, boolean, bytes, null, Token, Value, Shown, shown_leaf, empty_array,
  Visit,
}
use vsc_node.Cbor.Decode.{object_names, broken, unfinished, decoded, decode}
use vsc_node.Election.Weights.{includes}

-- `{ name, type }`, where the name of a message that is one leaf is `undefined`.
pub record TypeField : Type 0 where
  pub name : Option String
  pub kind : String

-- An entry of typeMap.
pub record PartialType : Type 0 where
  pub type_name : List String
  pub val : TypeField

abbrev pub Types : Type 0
Types = Dict (List TypeField)

-- `path.slice(0, -1)` and `path.at(-1)`
unfoldable pub drop_last : List String → List String
drop_last [] = []
drop_last (s ∷ []) = []
drop_last (s ∷ t ∷ path) = s ∷ drop_last (t ∷ path)

unfoldable pub last : List String → Option String
last [] = none
last (s ∷ []) = some s
last (s ∷ t ∷ path) = last (t ∷ path)

-- `parts.join('.')`
unfoldable pub join : List String → String
join [] = ""
join (s ∷ []) = s
join (s ∷ t ∷ parts) = cat s (cat "." (join (t ∷ parts)))

unfoldable pub type_of : Leaf → String
type_of (text s) = "string"
type_of (number z) = "number"
type_of (big z) = "bigint"
type_of (boolean b) = "boolean"
type_of (bytes s) = "object"
type_of null = "object"

unfoldable pub eip712_type : String → String
eip712_type kind = if str_eq kind "number" then "uint256" else kind

unfoldable pub shown_type : Shown → String
shown_type (shown_leaf l) = eip712_type (type_of l)
shown_type empty_array = "undefined[]"

-- The visitor: `null` is refused.
unfoldable pub visit : String → Visit → Option PartialType
visit primary_type (path, shown_leaf null) = none
visit primary_type (path, shown) = some record {
  type_name = primary_type ∷ drop_last path;
  val = record { name = last path; kind = shown_type shown };
}

unfoldable pub type_map_of : String → List Visit → Option (List PartialType)
type_map_of primary_type [] = some []
type_map_of primary_type (v ∷ visits) = do
  partial ← visit primary_type v
  later ← type_map_of primary_type visits
  some (partial ∷ later)

unfoldable pub arrays_equal : List String → List String → Bool
arrays_equal [] [] = true
arrays_equal [] (t ∷ ts) = false
arrays_equal (s ∷ ss) [] = false
arrays_equal (s ∷ ss) (t ∷ ts) = str_eq s t && arrays_equal ss ts

abbrev pub white_space : List String
white_space =
    " " ∷ "\t" ∷ "\n" ∷ "\r" ∷ "\u{b}" ∷ "\u{c}" ∷ "\u{a0}" ∷ "\u{1680}" ∷ "\u{2000}" ∷ "\u{2001}"
    ∷ "\u{2002}" ∷ "\u{2003}" ∷ "\u{2004}" ∷ "\u{2005}" ∷ "\u{2006}" ∷ "\u{2007}" ∷ "\u{2008}"
    ∷ "\u{2009}" ∷ "\u{200a}" ∷ "\u{2028}" ∷ "\u{2029}" ∷ "\u{202f}" ∷ "\u{205f}" ∷ "\u{3000}"
    ∷ "\u{feff}" ∷ []

abbrev pub digits : List String
digits = "0" ∷ "1" ∷ "2" ∷ "3" ∷ "4" ∷ "5" ∷ "6" ∷ "7" ∷ "8" ∷ "9" ∷ []

abbrev pub hex_digits : List String
hex_digits = digits ++ "a" ∷ "b" ∷ "c" ∷ "d" ∷ "e" ∷ "f" ∷ "A" ∷ "B" ∷ "C" ∷ "D" ∷ "E" ∷ "F" ∷ []

-- The part of a text after the first of some prefixes that it has.
unfoldable pub strip : List String → String → Option String
strip prefixes s = do prefix ← find (starts_with s) prefixes; some (slice s (len prefix) (len s))

unfoldable pub trim_start : ℕ → String → String
trim_start zero s = s
trim_start (suc fuel) s = elim (strip white_space s) [ none ↦ s | some rest ↦ trim_start fuel rest ]

unfoldable pub is_some {ℓ} : {A : Type ℓ} → Option A → Bool
is_some none = false
is_some (some a) = true

-- `!isNaN(parseInt(s))`: white space and a sign are skipped, and a digit follows.
unfoldable pub is_number : String → Bool
is_number s =
    let trimmed = trim_start (len s) s in
    let unsigned : String = elim (strip ("+" ∷ "-" ∷ []) trimmed) [
      | none ↦ trimmed
      | some rest ↦ rest
    ] in
    elim (strip ("0x" ∷ "0X" ∷ []) unsigned) [
      | none ↦ is_some (strip digits unsigned)
      | some rest ↦ is_some (strip hex_digits rest)
    ]

unfoldable pub is_valid_arr : String → Bool
is_valid_arr s =
    ltb 2 (len s)
    && str_eq (slice s 0 1) "["
    && str_eq (slice s (len s - 1) (len s)) "]"
    && is_number (slice s 1 (len s - 1))

unfoldable pub is_arr_name : Option String → Bool
is_arr_name none = false
is_arr_name (some name) = is_valid_arr name

-- `types[typeName] = types[typeName] || []` and the push.
unfoldable pub push_field : String → TypeField → Types → Types
push_field type_name f types = elim (lookup type_name types) [
  | none ↦ insert type_name (f ∷ []) types
  | some fields ↦ insert type_name (fields ++ f ∷ []) types
]

unfoldable pub is_named : String → TypeField → Bool
is_named name f = elim f.name [ none ↦ false | some n ↦ str_eq n name ]

unfoldable pub has_field : String → String → Types → Bool
has_field type_name name types = elim (lookup type_name types) [
  | none ↦ false
  | some fields ↦ is_some (find (is_named name) fields)
]

-- The kind of the first entry with a type name; without one, `typeMap[-1].val` throws.
unfoldable pub kind_at : List String → List PartialType → Option String
kind_at type_name type_map = do
  partial ← find (λ p. arrays_equal p.type_name type_name) type_map
  some partial.val.kind

-- The loop over the prefixes of one type name, from `before` with `after` left.
unfoldable pub add_levels :
    List PartialType → TypeField → List String → List String → Types → Option Types
add_levels type_map val before [] types = some (push_field (join before) val types)
add_levels type_map val before (name ∷ after) types =
    let known = add_levels type_map val (before ++ name ∷ []) after types in
    let added = add_levels type_map val (before ++ name ∷ []) after (
      push_field (join before) record { name = some name; kind = cat (join before) (cat "." name) }
        types) in
    let element = elim (kind_at (before ++ name ∷ []) type_map) as (λ k. Option Types) [
      | none ↦ none
      | some kind ↦
          some (push_field (join before) record { name = some name; kind = cat kind "[]" } types)
    ] in
    if has_field (join before) name types
    then known
    else if is_arr_name val.name
    then element
    else added

-- The first prefix is the primary type. Where that is a name that every object has, `types` gives
-- what the object inherits, which has no `find` and no `push`, and the code throws; a longer prefix
-- has a dot and is no such name.
unfoldable pub add_partial : List PartialType → List String → TypeField → Types → Option Types
add_partial type_map [] val types = some types
add_partial type_map (first ∷ after) val types =
    if includes first object_names then none else add_levels type_map val (first ∷ []) after types

-- The loop over typeMap.
unfoldable pub add_all : List PartialType → List PartialType → Types → Option Types
add_all type_map [] types = some types
add_all type_map (partial ∷ later) types = do
  types' ← add_partial type_map partial.type_name partial.val types
  add_all type_map later types'

unfoldable pub types_of : List PartialType → Option Types
types_of type_map = add_all type_map type_map []

pub record TypedData : Type 0 where
  pub domain_name : String
  pub message : Value
  pub primary_type : String
  pub types : Types

-- An exception is `none`.
unfoldable pub convert : (ℕ → String) → String → List Token → String → Option TypedData
convert decimal domain_name tokens primary_type = elim (decode decimal tokens) [
  | broken ↦ none
  | unfinished ↦ none
  | decoded message visits ↦ do
    type_map ← type_map_of primary_type visits
    types ← types_of type_map
    some record {
      domain_name = domain_name;
      message = message;
      primary_type = primary_type;
      types = types;
    }
]
