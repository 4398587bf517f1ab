-- ===== src/Keeper/Deposits.antt =====
-- handleTxTick of services/new/witness/balanceKeeper.ts: deposits on Hive become entries of the
-- ledger, and inputs of the transaction pool where they ask for a withdrawal. Of the fields that are
-- stored, `tx_id` and those that no operation of the model reads are left out.
use Prim.Native.String.{◌++◌ as cat}
use vsc_node.Prelude.{
  ℕ, ◌+◌, String, List, [], ◌∷◌, Option, none, some, Bool, false, ◌&&◌, ◌||◌, str_eq, if◌then◌else◌,
}
use vsc_node.Prelude.Int.{ℤ, ◌+ℤ◌}
use vsc_node.Ledger.Types.{Token}
use vsc_node.Keeper.Store.{Keeper, LedgerEntry, EntryType}
use vsc_node.Keeper.Events.{upsert_entry}
use vsc_node.Keeper.Withdrawals.{complete_batch}
use vsc_node.Keeper.Addresses.{MemoField, absent, text, other, normal_dest}

-- A transfer, with the text of its amount and its token apart.
pub record HiveTransfer : Type 0 where
  pub from : String
  pub to : String
  pub amount : String
  pub tk : Token
  pub memo : String

pub data TickOp : Type 0 where
  custom_json : String → List String → String → TickOp
  transfer : HiveTransfer → TickOp
  other_op : TickOp

pub record HiveTx : Type 0 where
  pub tx_id : String
  pub operations : List TickOp
  pub height : ℕ
  pub block_id : String
  pub idx : ℕ

pub record Memo : Type 0 where
  pub to : MemoField
  pub action : MemoField
  pub amount : MemoField

-- The record of a withdrawal in the transaction pool; an amount of `none` is
-- NaN, or no whole number.
pub record Input : Type 0 where
  pub id : String
  pub from : String
  pub dest : String
  pub amount : Option ℤ
  pub tk : Token
  pub anchored_block : String
  pub anchored_height : ℕ
  pub anchored_index : ℕ

pub record TickState : Type 0 where
  pub keeper : Keeper
  pub inputs : List Input

-- What is stored before an exception stays. At `not_whole` the code goes on with an amount that is
-- no whole number, which the ledger of the model does not hold.
pub data Ticked : Type 0 where
  threw : TickState → Ticked
  not_whole : TickState → Ticked
  ticked : TickState → Ticked

unfoldable pub then_tick : (TickState → Ticked) → Ticked → Ticked
then_tick next (threw st) = threw st
then_tick next (not_whole st) = not_whole st
then_tick next (ticked st) = next st

-- The state that is left, by an exception too.
unfoldable pub state_of : Ticked → TickState
state_of (threw st) = st
state_of (not_whole st) = st
state_of (ticked st) = st

-- `decodedMemo['action'] === name`
unfoldable pub is_action : String → MemoField → Bool
is_action name absent = false
is_action name (text s) = str_eq s name
is_action name other = false

unfoldable pub memo_at : String → List LedgerEntry → Option String
memo_at id [] = none
memo_at id (e ∷ db) = if str_eq e.id id then e.memo else memo_at id db

unfoldable pub upsert_input : Input → List Input → List Input
upsert_input i [] = i ∷ []
upsert_input i (j ∷ db) = if str_eq j.id i.id then i ∷ db else j ∷ upsert_input i db

-- The parts of the language that the handler reads memos and numbers with: `parse_json` gives
-- `none` where JSON.parse throws and `some none` for null, `parse_query` is URLSearchParams, and
-- `thousandths` is `Number(Number(s).toFixed(3)) * 1_000`, and `product` is `Number(amount) * 1_000`,
-- in doubles, with `none` where that is NaN or no whole number. `withdrawals_of`
-- reads the ids of a batch from the JSON of its reference and IPFS, with `none` where this throws.
pub record TickServices : Type 0 where
  pub multisig : String
  pub parse_json : String → Option (Option Memo)
  pub parse_query : String → Memo
  pub thousandths : MemoField → Option ℤ
  pub product : String → Option ℤ
  pub withdrawals_of : String → Option (List String)
  pub checksum : String → String
  pub decimal : ℕ → String

module _ (services : TickServices) where
  -- `${tx.transaction_id}-${idx}`
  unfoldable pub deposit_id : String → ℕ → String
  deposit_id tx_id idx = cat tx_id (cat "-" (services.decimal idx))

  -- The decoded memo; null is `none`.
  unfoldable pub memo_of : String → Option Memo
  memo_of memo = elim (services.parse_json memo) [
    | none ↦ some (services.parse_query memo)
    | some decoded ↦ decoded
  ]

  unfoldable pub deposit_entry : HiveTx → ℕ → HiveTransfer → ℤ → String → LedgerEntry
  deposit_entry tx idx op sent dest = record {
    id = deposit_id tx.tx_id idx;
    owner = dest;
    amount = sent;
    tk = op.tk;
    block_height = tx.height;
    t = EntryType.deposit;
    status = none;
    memo = none;
    from = some op.from;
  }

  unfoldable pub withdraw_input : HiveTx → ℕ → HiveTransfer → ℤ → Memo → String → Input
  withdraw_input tx idx op sent memo dest = record {
    id = deposit_id tx.tx_id idx;
    from = cat "hive:" op.from;
    dest = dest;
    amount = elim (services.thousandths memo.amount) [ none ↦ none | some a ↦ some (a +ℤ sent) ];
    tk = op.tk;
    anchored_block = tx.block_id;
    anchored_height = tx.height;
    anchored_index = tx.idx;
  }

  -- The update names no memo, so that of an entry with the id stays.
  unfoldable pub store_deposit : LedgerEntry → TickState → TickState
  store_deposit e st =
      let entry = record e { memo = memo_at e.id st.keeper.ledger_db } in
      record st { keeper = record st.keeper { ledger_db = upsert_entry entry st.keeper.ledger_db } }

  unfoldable pub store_input : Bool → Input → TickState → TickState
  store_input wanted i st = if wanted then record st { inputs = upsert_input i st.inputs } else st

  unfoldable pub store_sent :
      HiveTx → ℕ → HiveTransfer → Memo → String → Option ℤ → TickState → Ticked
  store_sent tx idx op memo dest none st = not_whole st
  store_sent tx idx op memo dest (some sent) st = ticked (
      store_deposit (deposit_entry tx idx op sent dest) (
        store_input (is_action "withdraw" memo.action) (withdraw_input tx idx op sent memo dest)
          st))

  -- A transfer to the multisig account whose memo names an owner.
  unfoldable pub take_deposit : HiveTx → ℕ → HiveTransfer → Memo → String → TickState → Ticked
  take_deposit tx idx op memo dest st =
      if is_action "donate_fill" memo.action || is_action "donate" memo.action
      then ticked st
      else store_sent tx idx op memo dest (services.product op.amount) st

  -- The owner that a memo names; `none` is a TypeError.
  unfoldable pub owner_of : HiveTx → HiveTransfer → Option (Memo × String)
  owner_of tx op = elim (memo_of op.memo) [
    | none ↦ none
    | some memo ↦ elim (normal_dest services.checksum tx.height op.from memo.to) [
      | none ↦ none
      | some dest ↦ some (memo, dest)
    ]
  ]

  unfoldable pub handle_op : HiveTx → ℕ → TickOp → TickState → Ticked
  handle_op tx idx (custom_json id auths json) st = ticked st
  handle_op tx idx other_op st = ticked st
  handle_op tx idx (transfer op) st =
      if str_eq services.multisig op.to
      then elim (owner_of tx op) [
        | none ↦ threw st
        | some (memo, dest) ↦ take_deposit tx idx op memo dest st
      ]
      else ticked st

  unfoldable pub handle_ops : HiveTx → ℕ → List TickOp → TickState → Ticked
  handle_ops tx idx [] st = ticked st
  handle_ops tx idx (op ∷ ops) st =
      then_tick (λ st'. handle_ops tx (idx + 1) ops st') (handle_op tx idx op st)

  -- `required_auths[0] === this.multisigAccount`
  unfoldable pub is_by_multisig : List String → Bool
  is_by_multisig [] = false
  is_by_multisig (auth ∷ auths) = str_eq auth services.multisig

  -- The ids of a confirmed batch, which a reference that cannot be read leaves pending.
  unfoldable pub confirm_batch : String → String → TickState → TickState
  confirm_batch tx_id json st = elim (services.withdrawals_of json) [
    | none ↦ st
    | some ids ↦ record st {
      keeper = record st.keeper { withdraw_db = complete_batch tx_id ids st.keeper.withdraw_db };
    }
  ]

  -- The first operation decides whether the transaction is a batch of withdrawals.
  unfoldable pub dispatch_tick : HiveTx → List TickOp → TickState → Ticked
  dispatch_tick tx [] st = threw st
  dispatch_tick tx (custom_json id auths json ∷ ops) st =
      if str_eq id "vsc.bridge_ref" && is_by_multisig auths
      then ticked (confirm_batch tx.tx_id json st)
      else handle_ops tx 0 (custom_json id auths json ∷ ops) st
  dispatch_tick tx (transfer op ∷ ops) st = handle_ops tx 0 (transfer op ∷ ops) st
  dispatch_tick tx (other_op ∷ ops) st = handle_ops tx 0 (other_op ∷ ops) st

  unfoldable pub handle_tx_tick : HiveTx → TickState → Ticked
  handle_tx_tick tx st = dispatch_tick tx tx.operations st
