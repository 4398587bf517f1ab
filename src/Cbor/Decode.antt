-- ===== src/Cbor/Decode.antt =====
-- tokensToObject, tokenToArray, tokenToMap and cborgdecode of
-- services/new/utils/cbor/cbor_to_eip712_converter.ts, with the options that its `decode` sets. The
-- rest of the tokens and the visits are passed on. The branches for `stop` and for a count that is
-- not known are the code's, though the tokeniser, with `allowIndefinite` false, gives no such token.
use Prim.Native.String.{◌++◌ as cat}
use vsc_node.Prelude.{
  ℕ, zero, suc, ◌+◌, ◌*◌, ◌==◌, String, Bool, true, false, List, [], ◌∷◌, ◌++◌, Option, none, some,
  length, if◌then◌else◌, ◌||◌,
}
use vsc_node.Election.Weights.{includes}
use vsc_node.Cbor.Values.{
  Leaf, text, Token, terminal, array, dict, tag, stop, Value, leaf, arr, obj, stop_mark, Items, nil,
  cons, Fields, end, field, shown_leaf, empty_array, Visit,
}

-- What a read ends in: an exception, out of fuel, or its result with the tokens that are left and
-- the visits that it makes.
pub data Outcome (Res : Type 0) : Type 0 where
  failed : Outcome Res
  stuck : Outcome Res
  next : Res → List Token → List Visit → Outcome Res

-- `DONE`, `BREAK`, or a value.
pub data Read : Type 0 where
  at_end : Read
  at_stop : Read
  got : Value → Read

-- The names that every object has, so that `key in obj` holds of them.
abbrev pub object_names : List String
object_names =
    "constructor" ∷ "__defineGetter__" ∷ "__defineSetter__" ∷ "hasOwnProperty" ∷ "__lookupGetter__"
    ∷ "__lookupSetter__" ∷ "isPrototypeOf" ∷ "propertyIsEnumerable" ∷ "toString" ∷ "valueOf"
    ∷ "__proto__" ∷ "toLocaleString" ∷ []

unfoldable pub is_in : String → List String → Bool
is_in key seen = includes key object_names || includes key seen

unfoldable pub is_last : ℕ → Option ℕ → Bool
is_last i none = false
is_last i (some n) = i == n

unfoldable pub is_infinite : Option ℕ → Bool
is_infinite none = true
is_infinite (some n) = false

unfoldable pub visit_leaf : Bool → List String → Leaf → List Visit
visit_leaf ignored path l = if ignored then [] else (path, shown_leaf l) ∷ []

unfoldable pub visit_items : Bool → List String → Items → List Visit
visit_items ignored path nil = if ignored then [] else (path, empty_array) ∷ []
visit_items ignored path (cons v items) = []

-- The end of a finite or an indefinite loop at a `BREAK`.
unfoldable pub stop_loop {ℓ} : {Res : Type ℓ} → Option ℕ → Res → Res → Res
stop_loop count ends fails = if is_infinite count then ends else fails

unfoldable pub prepend_item : Value → List Visit → Outcome Items → Outcome Items
prepend_item v visits failed = failed
prepend_item v visits stuck = stuck
prepend_item v visits (next items rest later) = next (cons v items) rest (visits ++ later)

unfoldable pub prepend_field : String → Value → List Visit → Outcome Fields → Outcome Fields
prepend_field key v visits failed = failed
prepend_field key v visits stuck = stuck
prepend_field key v visits (next fields rest later) =
    next (field key v fields) rest (visits ++ later)

unfoldable pub finish_array : Bool → List String → Outcome Items → Outcome Read
finish_array ignored path failed = failed
finish_array ignored path stuck = stuck
finish_array ignored path (next items rest visits) =
    next (got (arr items)) rest (visits ++ visit_items ignored path items)

unfoldable pub finish_map : Outcome Fields → Outcome Read
finish_map failed = failed
finish_map stuck = stuck
finish_map (next fields rest visits) = next (got (obj fields)) rest visits

pub data Decoded : Type 0 where
  broken : Decoded
  unfinished : Decoded
  decoded : Value → List Visit → Decoded

-- decodeFirst and cborgdecode: one value, and no token after it.
unfoldable pub result_of : Outcome Read → Decoded
result_of failed = broken
result_of stuck = unfinished
result_of (next at_end rest visits) = broken
result_of (next at_stop rest visits) = broken
result_of (next (got v) [] visits) = decoded v visits
result_of (next (got v) (t ∷ rest) visits) = broken

module _ (decimal : ℕ → String) where
  abbrev pub index_name : ℕ → String
  index_name i = cat "[" (cat (decimal i) "]")

  unfoldable mutual
    pub read_value : ℕ → List String → Bool → List Token → Outcome Read
    read_value zero path ignored tokens = stuck
    read_value (suc fuel) path ignored [] = next at_end [] []
    read_value (suc fuel) path ignored (stop ∷ tokens) = next at_stop tokens []
    read_value (suc fuel) path ignored (terminal l ∷ tokens) =
        next (got (leaf l)) tokens (visit_leaf ignored path l)
    read_value (suc fuel) path ignored (array count ∷ tokens) =
        finish_array ignored path (read_items fuel count 0 path ignored tokens)
    read_value (suc fuel) path ignored (dict count ∷ tokens) =
        finish_map (read_fields fuel count 0 path ignored [] tokens)
    read_value (suc fuel) path ignored (tag n ∷ tokens) = failed

    -- The loop of tokenToArray, from the index `i`.
    pub read_items : ℕ → Option ℕ → ℕ → List String → Bool → List Token → Outcome Items
    read_items zero count i path ignored tokens = stuck
    read_items (suc fuel) count i path ignored tokens =
        let step =
          elim (read_value fuel (path ++ index_name i ∷ []) ignored tokens)
            as (λ r. Outcome Items) [
              | failed ↦ failed
              | stuck ↦ stuck
              | next read rest visits ↦ elim read as (λ r. Outcome Items) [
                | at_end ↦ failed
                | at_stop ↦ stop_loop count (next nil rest []) failed
                | got v ↦ prepend_item v visits (read_items fuel count (i + 1) path ignored rest)
              ]
            ] in
        if is_last i count then next nil tokens [] else step

    -- The loop of tokenToMap; `seen` are the keys that the object has.
    pub read_fields :
        ℕ → Option ℕ → ℕ → List String → Bool → List String → List Token → Outcome Fields
    read_fields zero count i path ignored seen tokens = stuck
    read_fields (suc fuel) count i path ignored seen tokens =
        let step = elim (read_value fuel path true tokens) as (λ r. Outcome Fields) [
          | failed ↦ failed
          | stuck ↦ stuck
          | next read rest visits ↦ elim read as (λ r. Outcome Fields) [
            | at_end ↦ failed
            | at_stop ↦ stop_loop count (next end rest []) failed
            | got key ↦ read_entry fuel count i path ignored seen key rest
          ]
        ] in
        if is_last i count then next end tokens [] else step

    -- The value of a key, and the rest of the map.
    pub read_entry :
        ℕ → Option ℕ → ℕ → List String → Bool → List String → Value → List Token → Outcome Fields
    read_entry zero count i path ignored seen key tokens = stuck
    read_entry (suc fuel) count i path ignored seen (leaf (text key)) tokens =
        let step =
          elim (read_value fuel (path ++ key ∷ []) ignored tokens) as (λ r. Outcome Fields) [
            | failed ↦ failed
            | stuck ↦ stuck
            | next read rest visits ↦ elim read as (λ r. Outcome Fields) [
              | at_end ↦ failed
              | at_stop ↦
                  prepend_field key stop_mark visits
                    (read_fields fuel count (i + 1) path ignored (key ∷ seen) rest)
              | got v ↦
                  prepend_field key v visits
                    (read_fields fuel count (i + 1) path ignored (key ∷ seen) rest)
            ]
          ] in
        if is_in key seen then failed else step
    read_entry (suc fuel) count i path ignored seen key tokens = failed

  -- The fuel is three for each token, and four.
  abbrev pub fuel_for : List Token → ℕ
  fuel_for tokens = 3 * length tokens + 4

  unfoldable pub decode : List Token → Decoded
  decode tokens = result_of (read_value (fuel_for tokens) [] false tokens)
