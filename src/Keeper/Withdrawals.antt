-- ===== src/Keeper/Withdrawals.antt =====
-- createWithdrawTx of services/new/witness/balanceKeeper.ts, and the part of handleTxTick that
-- marks a batch as paid. What Hive knows of its accounts is a parameter; the amount of a transfer
-- is a number, where the code writes it as a text with three decimals.
use Prim.Native.String.{find as find_text, slice, len}
use vsc_node.Prelude.{
  ◌+◌, String, List, [], ◌∷◌, map, Option, none, some, Bool, true, false, leb, str_eq,
  if◌then◌else◌, filter, ◌>>=◌,
}
use vsc_node.Prelude.Int.{ℤ}
use vsc_node.Ledger.Types.{Token}
use vsc_node.Keeper.Store.{Status, Withdrawal}

-- A `transfer` operation of the batch, and the ids that its first operation refers to.
pub record Transfer : Type 0 where
  pub to : String
  pub amount : ℤ
  pub tk : Token

pub record Batch : Type 0 where
  pub ids : List String
  pub transfers : List Transfer

-- `dest.split(":")[1]`
unfoldable pub account_of : String → Option String
account_of dest =
    let i = find_text dest ":" in
    if leb (len dest) i
    then none
    else (let rest = slice dest (i + 1) (len dest) in some (slice rest 0 (find_text rest ":")))

unfoldable pub is_pending : Withdrawal → Bool
is_pending w = elim w.status [ Status.pending ↦ true | Status.complete ↦ false ]

-- A null destination makes the code throw.
unfoldable pub all_have_dest : List Withdrawal → Bool
all_have_dest [] = true
all_have_dest (w ∷ db) = elim w.dest [ none ↦ false | some dest ↦ all_have_dest db ]

unfoldable pub dest_account : Withdrawal → Option String
dest_account w = do dest ← w.dest; account_of dest

-- `findOneAndUpdate({id}, {$set: {status: "COMPLETE", withdraw_id}})`. The record without amount
-- that the upsert adds for an unknown id, which no query for pending ones returns, is left out.
unfoldable pub complete_one : String → String → List Withdrawal → List Withdrawal
complete_one tx_id id [] = []
complete_one tx_id id (w ∷ db) =
    if str_eq w.id id
    then record w { status = Status.complete; withdraw_id = some tx_id } ∷ db
    else w ∷ complete_one tx_id id db

unfoldable pub complete_batch : String → List String → List Withdrawal → List Withdrawal
complete_batch tx_id [] db = db
complete_batch tx_id (id ∷ ids) db = complete_batch tx_id ids (complete_one tx_id id db)

-- `exists_on_hive` is whether Hive's `getAccounts` returns the account.
module _ (exists_on_hive : String → Bool) where
  unfoldable pub is_payable : Withdrawal → Bool
  is_payable w = elim (dest_account w) [ none ↦ false | some account ↦ exists_on_hive account ]

  unfoldable pub as_transfers : List Withdrawal → List Transfer
  as_transfers [] = []
  as_transfers (w ∷ db) = elim (dest_account w) [
    | none ↦ as_transfers db
    | some account ↦ record { to = account; amount = w.amount; tk = w.tk } ∷ as_transfers db
  ]

  unfoldable pub batch_of : List Withdrawal → Option Batch
  batch_of [] = none
  batch_of (w ∷ db) =
      some (record { ids = map (λ v. v.id) (w ∷ db); transfers = as_transfers (w ∷ db) })

  -- The batch; `none` where the code throws, with nothing to pay among other causes.
  unfoldable pub create_withdraw_tx : List Withdrawal → Option Batch
  create_withdraw_tx db =
      let waiting = filter is_pending db in
      if all_have_dest waiting then batch_of (filter is_payable waiting) else none
