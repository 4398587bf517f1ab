-- ===== src/Cbor/Totality.antt =====
-- services/new/utils/cbor/cbor_to_eip712_converter.ts: the reading of any tokens ends.
use vsc_node.Prelude.{
  ℕ, zero, suc, ◌+◌, ◌*◌, ◌≤◌, ◌≢◌, String, Bool, true, false, List, [], ◌∷◌, ◌++◌, Option, length,
  if-holds, arith,
}
use vsc_node.Cbor.Values.{
  text, number, big, boolean, bytes, null, Token, terminal, array, dict, tag, stop, Value, leaf,
  arr, obj, stop_mark, nil, end,
}
use vsc_node.Cbor.Decode.{
  failed, next, is_in, is_last, stop_loop, is_infinite, prepend_item, prepend_field, index_name,
  read_value, read_items, read_fields, read_entry, unfinished, decode, fuel_for,
}
use vsc_node.Cbor.Steps.{
  Leaves, Takes, finish_array-Takes, weaken-Leaves, finish_map-Takes, prepend_item-Leaves,
  prepend_field-Leaves, stop_loop-Leaves, step-Leaves, result_of-Ends,
}

module _ (decimal : ℕ → String) where
  mutual
    unfolding Leaves Takes read_value stop_loop is_infinite

    read_value-Takes :
        (fuel : ℕ) (path : List String) (ignored : Bool) (tokens : List Token)
        → 3 * length tokens + 1 ≤ fuel
        → Takes (length tokens) (read_value decimal fuel path ignored tokens)
    read_value-Takes zero path ignored tokens enough = absurd (omega arith)
    read_value-Takes (suc fuel) path ignored [] enough = tt
    read_value-Takes (suc fuel) path ignored (stop ∷ tokens) enough = omega arith
    read_value-Takes (suc fuel) path ignored (terminal l ∷ tokens) enough = omega arith
    read_value-Takes (suc fuel) path ignored (array count ∷ tokens) enough =
        finish_array-Takes (length tokens) ignored path
          (read_items decimal fuel count 0 path ignored tokens)
          (read_items-Leaves fuel count 0 path ignored tokens (omega arith))
    read_value-Takes (suc fuel) path ignored (dict count ∷ tokens) enough =
        finish_map-Takes (length tokens) (read_fields decimal fuel count 0 path ignored [] tokens)
          (read_fields-Leaves fuel count 0 path ignored [] tokens (omega arith))
    read_value-Takes (suc fuel) path ignored (tag n ∷ tokens) enough = tt

    read_items-Leaves :
        (fuel : ℕ) (count : Option ℕ) (i : ℕ) (path : List String) (ignored : Bool)
        (tokens : List Token)
        → 3 * length tokens + 2 ≤ fuel
        → Leaves (length tokens) (read_items decimal fuel count i path ignored tokens)
    read_items-Leaves zero count i path ignored tokens enough = absurd (omega arith)
    read_items-Leaves (suc fuel) count i path ignored tokens enough =
        if-holds (Leaves (length tokens)) (is_last i count) (omega arith) (
          step-Leaves (length tokens) (λ rest visits. stop_loop count (next nil rest []) failed)
            (λ v rest visits.
              prepend_item v visits (read_items decimal fuel count (i + 1) path ignored rest))
            (λ rest visits le. stop_loop-Leaves (length tokens) count nil rest (omega arith))
            (λ v rest visits le.
              prepend_item-Leaves (length tokens) (length rest) v visits
                (read_items decimal fuel count (i + 1) path ignored rest) (omega arith)
                (read_items-Leaves fuel count (i + 1) path ignored rest (omega arith)))
            (read_value decimal fuel (path ++ index_name decimal i ∷ []) ignored tokens)
            (read_value-Takes fuel (path ++ index_name decimal i ∷ []) ignored tokens
              (omega arith)))

    read_fields-Leaves :
        (fuel : ℕ) (count : Option ℕ) (i : ℕ) (path : List String) (ignored : Bool)
        (seen : List String) (tokens : List Token)
        → 3 * length tokens + 2 ≤ fuel
        → Leaves (length tokens) (read_fields decimal fuel count i path ignored seen tokens)
    read_fields-Leaves zero count i path ignored seen tokens enough = absurd (omega arith)
    read_fields-Leaves (suc fuel) count i path ignored seen tokens enough =
        if-holds (Leaves (length tokens)) (is_last i count) (omega arith) (
          step-Leaves (length tokens) (λ rest visits. stop_loop count (next end rest []) failed)
            (λ key rest visits. read_entry decimal fuel count i path ignored seen key rest)
            (λ rest visits le. stop_loop-Leaves (length tokens) count end rest (omega arith))
            (λ key rest visits le.
              weaken-Leaves (length rest) (length tokens)
                (read_entry decimal fuel count i path ignored seen key rest) (omega arith)
                (read_entry-Leaves fuel count i path ignored seen key rest (omega arith)))
            (read_value decimal fuel path true tokens)
            (read_value-Takes fuel path true tokens (omega arith)))

    read_entry-Leaves :
        (fuel : ℕ) (count : Option ℕ) (i : ℕ) (path : List String) (ignored : Bool)
        (seen : List String) (key : Value) (tokens : List Token)
        → 3 * length tokens + 3 ≤ fuel
        → Leaves (length tokens) (read_entry decimal fuel count i path ignored seen key tokens)
    read_entry-Leaves zero count i path ignored seen key tokens enough = absurd (omega arith)
    read_entry-Leaves (suc fuel) count i path ignored seen (leaf (text key)) tokens enough =
        if-holds (Leaves (length tokens)) (is_in key seen) tt (
          step-Leaves (length tokens)
            (λ rest visits.
              prepend_field key stop_mark visits
                (read_fields decimal fuel count (i + 1) path ignored (key ∷ seen) rest))
            (λ v rest visits.
              prepend_field key v visits
                (read_fields decimal fuel count (i + 1) path ignored (key ∷ seen) rest))
            (λ rest visits le.
              prepend_field-Leaves (length tokens) (length rest) key stop_mark visits
                (read_fields decimal fuel count (i + 1) path ignored (key ∷ seen) rest)
                (omega arith)
                (read_fields-Leaves fuel count (i + 1) path ignored (key ∷ seen) rest
                  (omega arith)))
            (λ v rest visits le.
              prepend_field-Leaves (length tokens) (length rest) key v visits
                (read_fields decimal fuel count (i + 1) path ignored (key ∷ seen) rest)
                (omega arith)
                (read_fields-Leaves fuel count (i + 1) path ignored (key ∷ seen) rest
                  (omega arith)))
            (read_value decimal fuel (path ++ key ∷ []) ignored tokens)
            (read_value-Takes fuel (path ++ key ∷ []) ignored tokens (omega arith)))
    read_entry-Leaves (suc fuel) count i path ignored seen (leaf (number n)) tokens enough = tt
    read_entry-Leaves (suc fuel) count i path ignored seen (leaf (big n)) tokens enough = tt
    read_entry-Leaves (suc fuel) count i path ignored seen (leaf (boolean b)) tokens enough = tt
    read_entry-Leaves (suc fuel) count i path ignored seen (leaf (bytes s)) tokens enough = tt
    read_entry-Leaves (suc fuel) count i path ignored seen (leaf null) tokens enough = tt
    read_entry-Leaves (suc fuel) count i path ignored seen (arr items) tokens enough = tt
    read_entry-Leaves (suc fuel) count i path ignored seen (obj fields) tokens enough = tt
    read_entry-Leaves (suc fuel) count i path ignored seen stop_mark tokens enough = tt

  -- Decoding ends on every list of tokens: the fuel is enough, so that the result is the exception
  -- or a value.
  pub decode_ends : (tokens : List Token) → decode decimal tokens ≢ unfinished
  unfolding decode
  decode_ends tokens =
      result_of-Ends (length tokens) (read_value decimal (fuel_for decimal tokens) [] false tokens)
        (read_value-Takes (fuel_for decimal tokens) [] false tokens (omega arith))
