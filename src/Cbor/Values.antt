-- ===== src/Cbor/Values.antt =====
-- The tokens and the values of services/new/utils/cbor/cbor_to_eip712_converter.ts. The tokeniser,
-- whose tables are those of the cborg library, gives a list of tokens.
use vsc_node.Prelude.{ℕ, String, Bool, List, Option}
use vsc_node.Prelude.Int.{ℤ}

-- `big` is an integer that is read as a `bigint`.
pub data Leaf : Type 0 where
  text : String → Leaf
  number : ℤ → Leaf
  big : ℤ → Leaf
  boolean : Bool → Leaf
  bytes : String → Leaf
  null : Leaf

-- A count of `none` is `Infinity`, an indefinite length.
pub data Token : Type 0 where
  terminal : Leaf → Token
  array : Option ℕ → Token
  dict : Option ℕ → Token
  tag : ℕ → Token
  stop : Token

-- `stop_mark` is the symbol `BREAK`, which a map can hold.
mutual
  pub data Value : Type 0 where
    leaf : Leaf → Value
    arr : Items → Value
    obj : Fields → Value
    stop_mark : Value

  pub data Items : Type 0 where
    nil : Items
    cons : Value → Items → Items

  pub data Fields : Type 0 where
    end : Fields
    field : String → Value → Fields → Fields

-- What the visitor is shown: a leaf, or the mark of an empty array.
pub data Shown : Type 0 where
  shown_leaf : Leaf → Shown
  empty_array : Shown

abbrev pub Visit : Type 0
Visit = List String × Shown
