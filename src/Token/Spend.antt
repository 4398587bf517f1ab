-- ===== src/Token/Spend.antt =====
-- The actions of contracts/btc-token.ts that spend outputs: applyTx, applyHtlc and redeem. The
-- host's `state.pull` returns a new object at each call.
use vsc_node.Prelude.{
  ℕ, String, List, [], ◌∷◌, ◌++◌, Option, none, some, Bool, false, str_eq, ◌&&◌, if◌then◌else◌,
  Dict, lookup, insert,
}
use vsc_node.Prelude.Int.{ℤ, pos, ◌+ℤ◌, ◌-ℤ◌, leb_ℤ}
use vsc_node.Token.Store.{
  RefType, Input, Lock, Controller, LedgerOutput, RedeemStatus, Redeem, TokenState, ApiInput,
  is_cleared,
}

-- An entry of `modifyOuts`.
pub record Debit : Type 0 where
  pub id : String
  pub out : LedgerOutput
  pub amount : ℤ

-- What the loop over the inputs ends in: an exception, an early return, or the debits.
pub data Collected : Type 0 where
  thrown : Collected
  refused : Collected
  collected : List Debit → ℤ → Collected

unfoldable pub debit_of : Input → LedgerOutput → Debit
debit_of input out = record {
  id = input.id;
  out = record out { balance = out.balance -ℤ input.amount };
  amount = input.amount;
}

module _ (allowed : LedgerOutput → Input → Bool) (outputs : Dict LedgerOutput) where
  unfoldable pub collect : List Input → List Debit → ℤ → Collected
  collect [] debits total = collected debits total
  collect (input ∷ inputs) debits total = elim (lookup input.id outputs) [
    | none ↦ thrown
    | some out ↦
        let rest = collect inputs (debits ++ debit_of input out ∷ []) (total +ℤ input.amount) in
        if leb_ℤ input.amount out.balance && allowed out input then rest else refused
  ]

-- The loop that stores the spent outputs.
unfoldable pub store_debits :
    String → Option RefType → List Debit → Dict LedgerOutput → Dict LedgerOutput
store_debits output_id t [] outputs = outputs
store_debits output_id t (d ∷ debits) outputs = store_debits output_id t debits (
    insert d.id
      (record d.out {
        outputs = d.out.outputs ++ record { id = output_id; amount = d.amount; t = t } ∷ [];
      })
      outputs)

unfoldable pub is_address : LedgerOutput → String → Bool
is_address out address = elim out.address [ none ↦ false | some a ↦ str_eq a address ]

pub record Transfer : Type 0 where
  pub dest : String
  pub memo : Option String
  pub inputs : List Input

pub record HtlcTransfer : Type 0 where
  pub block_lock : ℕ
  pub hash_lock : String
  pub receiver : String
  pub memo : Option String
  pub inputs : List Input

unfoldable pub htlc_controllers : ApiInput → HtlcTransfer → List Controller
htlc_controllers api tx =
    record { authority = api.sender; lock = some (Lock.time tx.block_lock) }
    ∷ record { authority = tx.receiver; lock = some (Lock.hash tx.hash_lock) }
    ∷ []

abbrev pub new_output :
    Option String → Option (List Controller) → ℤ → Option String → List Input → LedgerOutput
new_output address controllers total memo inputs = record {
  address = address;
  controllers = controllers;
  balance = total;
  obalance = total;
  memo = memo;
  outputs = [];
  inputs = inputs;
}

-- `id_of` is the hash of an output's JSON, and `address_of` that of a list of controllers.
module _ (sha256 : String → String) (id_of : LedgerOutput → String)
    (address_of : List Controller → String) (api : ApiInput) where
  -- The test of applyTx and redeem on an output.
  unfoldable pub is_spendable : LedgerOutput → Input → Bool
  is_spendable out input = elim out.controllers [
    | none ↦ is_address out api.sender
    | some cs ↦ is_cleared sha256 api cs input.hash_lock
  ]

  -- The test of applyHtlc.
  unfoldable pub is_owned : LedgerOutput → Input → Bool
  is_owned out input =
      is_address out (address_of (record { authority = api.sender; lock = none } ∷ []))

  unfoldable pub finish_spend : LedgerOutput → List Debit → TokenState → TokenState
  finish_spend output debits s =
      let output_id = id_of output in
      record s { outputs = insert output_id output (store_debits output_id none debits s.outputs) }

  -- `none` where the code throws.
  unfoldable pub apply_tx : Transfer → TokenState → Option TokenState
  apply_tx tx s = elim (collect is_spendable s.outputs tx.inputs [] (pos 0)) [
    | thrown ↦ none
    | refused ↦ some s
    | collected debits total ↦
        some (finish_spend (new_output (some tx.dest) none total tx.memo tx.inputs) debits s)
  ]

  unfoldable pub htlc_output : HtlcTransfer → ℤ → LedgerOutput
  htlc_output tx total =
      let controllers = htlc_controllers api tx in
      new_output (some (address_of controllers)) (some controllers) total tx.memo tx.inputs

  unfoldable pub apply_htlc : HtlcTransfer → TokenState → Option TokenState
  apply_htlc tx s = elim (collect is_owned s.outputs tx.inputs [] (pos 0)) [
    | thrown ↦ none
    | refused ↦ some s
    | collected debits total ↦ some (finish_spend (htlc_output tx total) debits s)
  ]

  abbrev pub new_redeem : Transfer → ℤ → Redeem
  new_redeem tx total = record {
    status = RedeemStatus.pending;
    address = tx.dest;
    balance = total;
    rbalance = pos 0;
    inputs = tx.inputs;
    tx_id = none;
    out_index = none;
  }

  -- `redeem_id` is the hash of a redeem's JSON with the block that includes the call.
  module _ (redeem_id : Redeem → String → String) where
    unfoldable pub finish_redeem : Redeem → List Debit → TokenState → TokenState
    finish_redeem output debits s =
        let output_id = redeem_id output api.included_in in
        record s {
          outputs = store_debits output_id (some RefType.redeem) debits s.outputs;
          redeems = insert output_id output s.redeems;
        }

    unfoldable pub redeem : Transfer → TokenState → Option TokenState
    redeem tx s = elim (collect is_spendable s.outputs tx.inputs [] (pos 0)) [
      | thrown ↦ none
      | refused ↦ some s
      | collected debits total ↦ some (finish_redeem (new_redeem tx total) debits s)
    ]
