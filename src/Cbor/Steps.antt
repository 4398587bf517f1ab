-- ===== src/Cbor/Steps.antt =====
-- services/new/utils/cbor/cbor_to_eip712_converter.ts: how many tokens each step of a read leaves.
use vsc_node.Prelude.{
  ℕ, suc, ◌+◌, ◌≤◌, ◌≢◌, String, Bool, List, [], ◌∷◌, Option, none, some, length, arith,
}
use vsc_node.Cbor.Values.{Token, Value, Items, Fields, Visit}
use vsc_node.Cbor.Decode.{
  Outcome, failed, stuck, next, Read, at_end, at_stop, got, stop_loop, is_infinite, prepend_item,
  prepend_field, finish_array, finish_map, unfinished, result_of,
}

-- The read ends and leaves at most `n` tokens.
unfoldable pub Leaves : {Res : Type 0} → ℕ → Outcome Res → Type 0
Leaves n failed = Unit
Leaves n stuck = ⊥
Leaves n (next r rest visits) = length rest ≤ n

-- The read of one value ends, and takes a token unless there is none.
unfoldable pub Takes : ℕ → Outcome Read → Type 0
Takes n failed = Unit
Takes n stuck = ⊥
Takes n (next at_end rest visits) = Unit
Takes n (next at_stop rest visits) = length rest + 1 ≤ n
Takes n (next (got v) rest visits) = length rest + 1 ≤ n

pub finish_array-Takes :
    (n : ℕ) (ignored : Bool) (path : List String) (items : Outcome Items)
    → Leaves n items
    → Takes (suc n) (finish_array ignored path items)
unfolding Leaves Takes finish_array
finish_array-Takes n ignored path failed h = h
finish_array-Takes n ignored path stuck h = h
finish_array-Takes n ignored path (next items rest visits) h = omega arith

pub weaken-Leaves :
    {Res : Type 0} (n m : ℕ) (outcome : Outcome Res) → n ≤ m → Leaves n outcome → Leaves m outcome
unfolding Leaves
weaken-Leaves n m failed le h = h
weaken-Leaves n m stuck le h = h
weaken-Leaves n m (next r rest visits) le h = omega arith

pub finish_map-Takes :
    (n : ℕ) (fields : Outcome Fields) → Leaves n fields → Takes (suc n) (finish_map fields)
unfolding Leaves Takes finish_map
finish_map-Takes n failed h = h
finish_map-Takes n stuck h = h
finish_map-Takes n (next fields rest visits) h = omega arith

pub prepend_item-Leaves :
    (n m : ℕ) (v : Value) (visits : List Visit) (items : Outcome Items)
    → m ≤ n
    → Leaves m items
    → Leaves n (prepend_item v visits items)
unfolding Leaves prepend_item
prepend_item-Leaves n m v visits failed le h = h
prepend_item-Leaves n m v visits stuck le h = h
prepend_item-Leaves n m v visits (next items rest later) le h = omega arith

pub prepend_field-Leaves :
    (n m : ℕ) (key : String) (v : Value) (visits : List Visit) (fields : Outcome Fields)
    → m ≤ n
    → Leaves m fields
    → Leaves n (prepend_field key v visits fields)
unfolding Leaves prepend_field
prepend_field-Leaves n m key v visits failed le h = h
prepend_field-Leaves n m key v visits stuck le h = h
prepend_field-Leaves n m key v visits (next fields rest later) le h = omega arith

pub stop_loop-Leaves :
    {Res : Type 0} (n : ℕ) (count : Option ℕ) (r : Res) (rest : List Token)
    → length rest ≤ n
    → Leaves n (stop_loop count (next r rest []) failed)
unfolding Leaves stop_loop is_infinite
stop_loop-Leaves n none r rest h = h
stop_loop-Leaves n (some k) r rest h = tt

-- A loop that reads a value, and goes on from a `BREAK` or from the value.
pub step-Leaves :
    {Res : Type 0} (n : ℕ) (stopped : List Token → List Visit → Outcome Res)
    (more : Value → List Token → List Visit → Outcome Res)
    → ((rest : List Token) (visits : List Visit)
        → length rest + 1 ≤ n
        → Leaves n (stopped rest visits))
    → ((v : Value) (rest : List Token) (visits : List Visit)
        → length rest + 1 ≤ n
        → Leaves n (more v rest visits))
    → (read : Outcome Read) → Takes n read
    → Leaves n (elim read as (λ r. Outcome Res) [
      | failed ↦ failed
      | stuck ↦ stuck
      | next read rest visits ↦ elim read as (λ r. Outcome Res) [
        | at_end ↦ failed
        | at_stop ↦ stopped rest visits
        | got v ↦ more v rest visits
      ]
    ])
unfolding Leaves Takes
step-Leaves n stopped more hs hm failed h = tt
step-Leaves n stopped more hs hm stuck h = h
step-Leaves n stopped more hs hm (next at_end rest visits) h = tt
step-Leaves n stopped more hs hm (next at_stop rest visits) h = hs rest visits h
step-Leaves n stopped more hs hm (next (got v) rest visits) h = hm v rest visits h

pub result_of-Ends : (n : ℕ) (read : Outcome Read) → Takes n read → result_of read ≢ unfinished
unfolding Takes result_of
result_of-Ends n failed h e = ground arith
result_of-Ends n stuck h e = h
result_of-Ends n (next at_end rest visits) h e = ground arith
result_of-Ends n (next at_stop rest visits) h e = ground arith
result_of-Ends n (next (got v) [] visits) h e = ground arith
result_of-Ends n (next (got v) (t ∷ rest) visits) h e = ground arith
