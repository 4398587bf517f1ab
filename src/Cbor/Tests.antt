-- ===== src/Cbor/Tests.antt =====
-- A transaction of nested objects, and the theorems on its conversion.
use vsc_node.Prelude.{
  ℕ, zero, suc, String, ◌≡◌, ◌≢◌, refl, List, [], ◌∷◌, none, some, lookup, insert,
}
use vsc_node.Prelude.Int.{pos}
use vsc_node.Election.Weights.{includes}
use vsc_node.Cbor.Values.{
  text, number, terminal, array, dict, stop, Value, leaf, arr, obj, nil, cons, end, field,
  shown_leaf,
}
use vsc_node.Cbor.Decode.{
  is_in, is_last, read_value, visit_leaf, visit_items, prepend_item, prepend_field, finish_array,
  finish_map, result_of, stop_loop, is_infinite, decode, decoded, broken, unfinished,
}
use vsc_node.Cbor.Encode.{tokens_of, item_count, field_count, IsPlain, leaves}
use vsc_node.Cbor.Types.{
  PartialType, Types, drop_last, last, join, type_of, eip712_type, shown_type, visit, type_map_of,
  arrays_equal, strip, trim_start, is_some, is_number, is_valid_arr, is_arr_name, push_field,
  is_named, has_field, kind_at, add_levels, add_partial, add_all, types_of, convert,
}
use vsc_node.Cbor.Roundtrip.{decode-tokens_of}
use vsc_node.Cbor.Totality.{decode_ends}
use vsc_node.Cbor.Typing.{convert-IsCovered, AreCovered}

abbrev decimal : ℕ → String
decimal zero = "0"
decimal (suc zero) = "1"
decimal n = "many"

abbrev payload : Value
payload = obj (field "to" (leaf (text "alice")) (field "amount" (leaf (number (pos 5))) end))

abbrev transaction : Value
transaction = obj (field "op" (leaf (text "transfer")) (field "payload" payload end))

abbrev listed : Value
listed = obj (field "auths" (arr (cons (leaf (text "alice")) (cons (leaf (text "bob")) nil))) end)

abbrev nested : Value
nested = obj (field "rows" (arr (cons (arr (cons (leaf (text "a")) nil)) nil)) end)

listed-IsPlain : IsPlain listed
unfolding IsPlain is_in includes
listed-IsPlain = (refl, ((tt, (tt, tt)), tt))

transaction-IsPlain : IsPlain transaction
unfolding IsPlain is_in includes
transaction-IsPlain = (refl, (tt, (refl, ((refl, (tt, (refl, (tt, tt)))), tt))))

decode-tokens_of_example :
    decode decimal (tokens_of listed)
    ≡ decoded listed (
        ("auths" ∷ "[0]" ∷ [], shown_leaf (text "alice"))
        ∷ ("auths" ∷ "[1]" ∷ [], shown_leaf (text "bob"))
        ∷ [])
unfolding leaves
decode-tokens_of_example = decode-tokens_of decimal listed listed-IsPlain

decode_ends_example :
    decode decimal (array none ∷ terminal (text "a") ∷ dict (some 2) ∷ stop ∷ []) ≢ unfinished
decode_ends_example =
    decode_ends decimal (array none ∷ terminal (text "a") ∷ dict (some 2) ∷ stop ∷ [])

-- An indefinite array, a map with one entry too few, and a key twice.
indefinite :
    decode decimal (array none ∷ terminal (text "a") ∷ stop ∷ [])
    ≡ decoded (arr (cons (leaf (text "a")) nil)) (("[0]" ∷ [], shown_leaf (text "a")) ∷ [])
unfolding decode read_value visit_leaf visit_items prepend_item finish_array result_of stop_loop
    is_infinite is_last
indefinite = refl

short : decode decimal (dict (some 1) ∷ []) ≡ broken
unfolding decode read_value finish_map result_of is_last
short = refl

twice :
    decode decimal
      (tokens_of (obj (field "a" (leaf (number (pos 1))) (field "a" (leaf (number (pos 2))) end))))
    ≡ broken
unfolding decode read_value prepend_field finish_map result_of is_last tokens_of field_count is_in
    includes visit_leaf
twice = refl

-- A key that every object has is taken for a key that stands twice.
reserved :
    decode decimal (tokens_of (obj (field "constructor" (leaf (number (pos 1))) end))) ≡ broken
unfolding decode read_value prepend_field finish_map result_of is_last tokens_of field_count is_in
    includes visit_leaf
reserved = refl

abbrev entries : List PartialType
entries =
    record { type_name = "tx" ∷ []; val = record { name = some "op"; kind = "string" } }
    ∷ record {
      type_name = "tx" ∷ "payload" ∷ [];
      val = record { name = some "to"; kind = "string" };
    }
    ∷ record {
      type_name = "tx" ∷ "payload" ∷ [];
      val = record { name = some "amount"; kind = "uint256" };
    }
    ∷ []

mapped : type_map_of "tx" (leaves decimal [] transaction) ≡ some entries
unfolding type_map_of visit leaves drop_last last shown_type type_of eip712_type
mapped = refl

convert-IsCovered_example :
    (types : Types) × ((convert decimal "vsc" (tokens_of transaction) "tx"
        ≡ some record {
          domain_name = "vsc";
          message = transaction;
          primary_type = "tx";
          types = types;
        })
      × AreCovered types entries)
unfolding is_arr_name is_valid_arr includes
convert-IsCovered_example =
    convert-IsCovered decimal "vsc" "tx" transaction entries transaction-IsPlain refl mapped
      (refl, (refl, (refl, tt)))

transaction_types :
    types_of entries
    ≡ some (
        (
          "tx",
          record { name = some "op"; kind = "string" }
              ∷ record { name = some "payload"; kind = "tx.payload" }
              ∷ [],
        )
        ∷ (
          "tx.payload",
          record { name = some "to"; kind = "string" }
              ∷ record { name = some "amount"; kind = "uint256" }
              ∷ [],
        )
        ∷ [])
unfolding types_of add_all add_partial add_levels push_field has_field is_named is_some is_arr_name
    is_valid_arr join lookup insert includes
transaction_types = refl

-- The second element of an array is declared as a field of a type that no field has.
listed_types :
    convert decimal "vsc" (tokens_of listed) "tx"
    ≡ some record {
      domain_name = "vsc";
      message = listed;
      primary_type = "tx";
      types =
          ("tx", record { name = some "auths"; kind = "string[]" } ∷ [])
          ∷ ("tx.auths", record { name = some "[1]"; kind = "string" } ∷ [])
          ∷ [];
    }
unfolding convert types_of type_map_of visit leaves drop_last last shown_type type_of eip712_type
    add_all add_partial add_levels push_field has_field is_named is_some is_arr_name is_valid_arr
    is_number strip trim_start kind_at arrays_equal join lookup insert decode read_value visit_leaf
    visit_items prepend_item prepend_field finish_array finish_map result_of is_last tokens_of
    field_count item_count is_in includes
listed_types = refl

-- An array in an array has no entry of the type name that is looked for, and the conversion throws.
nested_throws : convert decimal "vsc" (tokens_of nested) "tx" ≡ none
unfolding convert types_of type_map_of visit leaves drop_last last shown_type type_of eip712_type
    add_all add_partial add_levels push_field has_field is_named is_some is_arr_name is_valid_arr
    is_number strip trim_start kind_at arrays_equal join lookup insert decode read_value visit_leaf
    visit_items prepend_item prepend_field finish_array finish_map result_of is_last tokens_of
    field_count item_count is_in includes
nested_throws = refl
