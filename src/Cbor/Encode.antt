-- ===== src/Cbor/Encode.antt =====
-- A description of what services/new/utils/cbor/cbor_to_eip712_converter.ts reads: the tokens of a
-- value, with definite lengths, and what the visitor is to see of it.
use vsc_node.Prelude.{ℕ, suc, ◌+◌, ◌≡◌, String, false, List, [], ◌∷◌, ◌++◌, some}
use vsc_node.Cbor.Values.{
  text, Token, terminal, array, dict, stop, Value, leaf, arr, obj, stop_mark, Items, nil, cons,
  Fields, end, field, shown_leaf, empty_array, Visit,
}
use vsc_node.Cbor.Decode.{is_in, index_name}

unfoldable pub item_count : Items → ℕ
item_count nil = 0
item_count (cons v items) = suc (item_count items)

unfoldable pub field_count : Fields → ℕ
field_count end = 0
field_count (field key v fields) = suc (field_count fields)

unfoldable mutual
  pub tokens_of : Value → List Token
  tokens_of (leaf l) = terminal l ∷ []
  tokens_of (arr items) = array (some (item_count items)) ∷ item_tokens items
  tokens_of (obj fields) = dict (some (field_count fields)) ∷ field_tokens fields
  tokens_of stop_mark = stop ∷ []

  pub item_tokens : Items → List Token
  item_tokens nil = []
  item_tokens (cons v items) = tokens_of v ++ item_tokens items

  pub field_tokens : Fields → List Token
  field_tokens end = []
  field_tokens (field key v fields) = terminal (text key) ∷ (tokens_of v ++ field_tokens fields)

-- A value of JSON whose objects have each key once, and no key that every object has.
unfoldable mutual
  pub IsPlain : Value → Type 0
  IsPlain (leaf l) = Unit
  IsPlain (arr items) = ArePlainItems items
  IsPlain (obj fields) = ArePlainFields [] fields
  IsPlain stop_mark = ⊥

  pub ArePlainItems : Items → Type 0
  ArePlainItems nil = Unit
  ArePlainItems (cons v items) = IsPlain v × ArePlainItems items

  pub ArePlainFields : List String → Fields → Type 0
  ArePlainFields seen end = Unit
  ArePlainFields seen (field key v fields) =
      (is_in key seen ≡ false) × (IsPlain v × ArePlainFields (key ∷ seen) fields)

module _ (decimal : ℕ → String) where
  -- Each leaf with its path, and each empty array, from the left.
  unfoldable mutual
    pub leaves : List String → Value → List Visit
    leaves path (leaf l) = (path, shown_leaf l) ∷ []
    leaves path (arr nil) = (path, empty_array) ∷ []
    leaves path (arr (cons v items)) = item_leaves path 0 (cons v items)
    leaves path (obj fields) = field_leaves path fields
    leaves path stop_mark = []

    pub item_leaves : List String → ℕ → Items → List Visit
    item_leaves path i nil = []
    item_leaves path i (cons v items) =
        leaves (path ++ index_name decimal i ∷ []) v ++ item_leaves path (i + 1) items

    pub field_leaves : List String → Fields → List Visit
    field_leaves path end = []
    field_leaves path (field key v fields) = leaves (path ++ key ∷ []) v ++ field_leaves path fields
