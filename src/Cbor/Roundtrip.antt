-- ===== src/Cbor/Roundtrip.antt =====
-- services/new/utils/cbor/cbor_to_eip712_converter.ts: the tokens of a value are read back.
use vsc_node.Prelude.{
  ℕ, zero, suc, ◌+◌, ◌*◌, ◌≤◌, ◌≡◌, refl, ap, ◌∙◌, String, true, false, List, [], ◌∷◌, ◌++◌, some,
  length, length-append, append-nil, append_assoc, arith,
}
use vsc_node.Cbor.Values.{
  Token, Value, leaf, arr, obj, stop_mark, Items, nil, cons, Fields, end, field,
}
use vsc_node.Cbor.Decode.{
  next, got, is_last, visit_leaf, visit_items, prepend_item, prepend_field, finish_array,
  finish_map, index_name, read_value, read_items, read_fields, fuel_for, decoded, result_of, decode,
}
use vsc_node.Cbor.Encode.{
  item_count, field_count, tokens_of, item_tokens, field_tokens, IsPlain, ArePlainItems,
  ArePlainFields, leaves, item_leaves, field_leaves,
}

-- The fuel that each part takes.
unfoldable mutual
  need : Value → ℕ
  need (leaf l) = 1
  need (arr items) = suc (item_need items)
  need (obj fields) = suc (field_need fields)
  need stop_mark = 1

  item_need : Items → ℕ
  item_need nil = 1
  item_need (cons v items) = suc (need v + item_need items)

  field_need : Fields → ℕ
  field_need end = 1
  field_need (field key v fields) = suc (suc (need v + field_need fields))

mutual
  unfolding need tokens_of

  need-le : (v : Value) → need v + 1 ≤ 3 * length (tokens_of v)
  need-le (leaf l) = omega arith
  need-le (arr items) = omega (arith, item_need-le items)
  need-le (obj fields) = omega (arith, field_need-le fields)
  need-le stop_mark = omega arith

  item_need-le : (items : Items) → item_need items ≤ 3 * length (item_tokens items) + 1
  item_need-le nil = omega arith
  item_need-le (cons v items) =
      omega (arith, need-le v, item_need-le items, length-append (tokens_of v) (item_tokens items))

  field_need-le : (fields : Fields) → field_need fields ≤ 3 * length (field_tokens fields) + 1
  field_need-le end = omega arith
  field_need-le (field key v fields) =
      omega
        (arith, need-le v, field_need-le fields, length-append (tokens_of v) (field_tokens fields))

need-positive : (v : Value) → 1 ≤ need v
unfolding need
need-positive (leaf l) = omega arith
need-positive (arr items) = omega arith
need-positive (obj fields) = omega arith
need-positive stop_mark = omega arith

item_need-positive : (items : Items) → 1 ≤ item_need items
unfolding need
item_need-positive nil = omega arith
item_need-positive (cons v items) = omega arith

field_need-positive : (fields : Fields) → 1 ≤ field_need fields
unfolding need
field_need-positive end = omega arith
field_need-positive (field key v fields) = omega arith

is_last-end : (n i : ℕ) → n ≡ i + 0 → is_last i (some n) ≡ true
unfolding is_last
is_last-end n i h = ground arith

is_last-before : (n i k : ℕ) → n ≡ i + suc k → is_last i (some n) ≡ false
unfolding is_last
is_last-before n i k h = ground arith

module _ (decimal : ℕ → String) where
  mutual
    unfolding need tokens_of IsPlain leaves item_count field_count read_value visit_leaf visit_items
        prepend_item prepend_field finish_array finish_map

    read_value-tokens_of :
        (v : Value) (fuel : ℕ) (path : List String) (rest : List Token)
        → IsPlain v
        → need v ≤ fuel
        → read_value decimal fuel path false (tokens_of v ++ rest)
          ≡ next (got v) rest (leaves decimal path v)
    read_value-tokens_of v zero path rest plain enough = absurd (omega (arith, need-positive v))
    read_value-tokens_of (leaf l) (suc fuel) path rest plain enough = refl
    read_value-tokens_of (arr nil) (suc fuel) path rest plain enough =
        ap (finish_array false path)
          (read_items-item_tokens nil fuel 0 0 path rest plain (omega arith) refl)
    read_value-tokens_of (arr (cons v items)) (suc fuel) path rest plain enough =
        ap (finish_array false path) (
          read_items-item_tokens (cons v items) fuel (suc (item_count items)) 0 path rest plain
            (omega arith) (omega arith))
        ∙ ap (next (got (arr (cons v items))) rest)
            (append-nil (item_leaves decimal path 0 (cons v items)))
    read_value-tokens_of (obj fields) (suc fuel) path rest plain enough = ap finish_map (
        read_fields-field_tokens fields fuel (field_count fields) 0 path [] rest plain (omega arith)
          (omega arith))
    read_value-tokens_of stop_mark (suc fuel) path rest plain enough = absurd plain

    read_items-item_tokens :
        (items : Items) (fuel n i : ℕ) (path : List String) (rest : List Token)
        → ArePlainItems items
        → item_need items ≤ fuel
        → n ≡ i + item_count items
        → read_items decimal fuel (some n) i path false (item_tokens items ++ rest)
          ≡ next items rest (item_leaves decimal path i items)
    read_items-item_tokens items zero n i path rest plain enough count =
        absurd (omega (arith, item_need-positive items))
    read_items-item_tokens nil (suc fuel) n i path rest plain enough count =
        rw (is_last-end n i count) refl
    read_items-item_tokens (cons v items) (suc fuel) n i path rest (plain, others) enough count =
        rw
          (
            is_last-before n i (item_count items) count,
            append_assoc (tokens_of v) (item_tokens items) rest,
            read_value-tokens_of v fuel (path ++ index_name decimal i ∷ [])
                (item_tokens items ++ rest) plain (omega arith),
            read_items-item_tokens items fuel n (i + 1) path rest others (omega arith)
                (omega arith),
          )
          refl

    read_fields-field_tokens :
        (fields : Fields) (fuel n i : ℕ) (path seen : List String) (rest : List Token)
        → ArePlainFields seen fields
        → field_need fields ≤ fuel
        → n ≡ i + field_count fields
        → read_fields decimal fuel (some n) i path false seen (field_tokens fields ++ rest)
          ≡ next fields rest (field_leaves decimal path fields)
    read_fields-field_tokens fields zero n i path seen rest plain enough count =
        absurd (omega (arith, field_need-positive fields))
    read_fields-field_tokens end (suc fuel) n i path seen rest plain enough count =
        rw (is_last-end n i count) refl
    read_fields-field_tokens (field key v fields) (suc zero) n i path seen rest plain enough count =
        absurd (omega arith)
    read_fields-field_tokens (field key v fields) (suc (suc fuel)) n i path seen rest
          (new, (plain, others)) enough count =
        rw
          (
            is_last-before n i (field_count fields) count,
            append_assoc (tokens_of v) (field_tokens fields) rest,
            new,
            read_value-tokens_of v fuel (path ++ key ∷ []) (field_tokens fields ++ rest) plain
                (omega arith),
            read_fields-field_tokens fields fuel n (i + 1) path (key ∷ seen) rest others
                (omega arith) (omega arith),
          )
          refl

  -- Decoding the tokens of a value whose objects have each key once, none of them a key that every
  -- object has, gives that value, and the visitor sees each leaf and each empty array with its
  -- path, from the left.
  pub decode-tokens_of :
      (v : Value) → IsPlain v → decode decimal (tokens_of v) ≡ decoded v (leaves decimal [] v)
  unfolding decode result_of
  decode-tokens_of v plain =
      let same =
        read_value-tokens_of v (fuel_for decimal (tokens_of v)) [] [] plain
          (omega (arith, need-le v)) in
      ap result_of (rw (append-nil (tokens_of v)) at same)
