-- ===== src/Keeper/Tests.antt =====
-- A deposit, a block with one transfer, and the theorems on what the keeper makes of them.
use vsc_node.Prelude.{
  ℕ, String, ◌≡◌, refl, List, Bool, true, false, All, str_eq, [], ◌∷◌, Option, none, some, ◌==◌,
  if◌then◌else◌, arith, Dict, lookup, insert, inl,
}
use vsc_node.Prelude.Int.{ℤ, pos, ◌+ℤ◌, neg}
use vsc_node.Ledger.Types.{Token, Tokens, amount_of, EventOp, EventOpType}
use vsc_node.Ledger.Context.{
  Tx, TxSource, TxData, CallResult, Context, new_context, init, execute_all, execute_tx, dispatch,
  execute_transfer, transfer_ops, validate_balance, get_balance, record_ops, apply_ledger_ops,
  apply_ledger_op, credit_owner,
}
use vsc_node.Ledger.Context.{get_snapshot as context_snapshot}
use vsc_node.Ledger.Balances.{balance_of}
use vsc_node.Ledger.Finalize.{BlockEvents, block_events}
use vsc_node.Keeper.Store.{
  LedgerEntry, EntryType, Keeper, Status, Withdrawal, find_balance, counts, ledger_sum, base_amount,
  snapshot_amount, get_snapshot,
}
use vsc_node.Keeper.Events.{
  TxEvent, events_of, flatten_events, all_events, event_id, transfer_entry, post_entry, post_op,
  post_event, post_events, record_balances, process_events,
}
use vsc_node.Keeper.Appending.{has_id, is_among, IsFresh}
use vsc_node.Keeper.Posting.{IsPosted, posted, ids_from}
use vsc_node.Keeper.Indexing.{is_updated}
use vsc_node.Keeper.Withdrawals.{
  Batch, account_of, is_pending, all_have_dest, dest_account, complete_one, complete_batch,
  is_payable, as_transfers, batch_of, create_withdraw_tx,
}
use vsc_node.Keeper.Payouts.{IsUnique, has_withdrawal, create_withdraw_tx-once}
use vsc_node.Keeper.Agreement.{process_events-balance}

abbrev decimal : ℕ → String
decimal n = if n == 0 then "0" else "1"

abbrev query_to : Option String → Option String
query_to q = none

-- Alice has deposited 100.
abbrev deposited : LedgerEntry
deposited = record {
  id = "dep-0";
  owner = "hive:alice";
  amount = pos 100;
  tk = Token.hive;
  block_height = 90;
  t = EntryType.deposit;
  status = none;
  memo = none;
  from = some "alice";
}

abbrev keeper : Keeper
keeper = record { balance_db = []; ledger_db = deposited ∷ []; withdraw_db = [] }

abbrev op_of : String → ℤ → EventOp
op_of owner amount = record {
  owner = owner;
  tk = Token.hive;
  t = EventOpType.ledger_transfer;
  amt = amount;
  memo = none;
}

abbrev block : BlockEvents
block = record {
  txs = "tx" ∷ [];
  txs_map = (0 ∷ 1 ∷ []) ∷ [];
  events = op_of "hive:alice" (neg (pos 30)) ∷ op_of "hive:bob" (pos 30) ∷ [];
}

abbrev events : List TxEvent
events =
    record { tx_id = "tx"; op = some (op_of "hive:alice" (neg (pos 30))) }
    ∷ record { tx_id = "tx"; op = some (op_of "hive:bob" (pos 30)) }
    ∷ []

-- The keeper after the block, as the code leaves it.
abbrev indexed : Keeper
indexed =
    record_balances decimal query_to 100 (post_events decimal query_to 100 0 events (keeper, [])).1
      (post_events decimal query_to 100 0 events (keeper, [])).0

abbrev snapshot : String → Tokens
snapshot id = get_snapshot keeper id 95

abbrev no_vm : ℕ → Tx → Dict Tokens → CallResult × ℕ
no_vm vm tx balances = (CallResult.timeout, vm)

abbrev payment : Tx
payment = record {
  id = "tx";
  required_auths = "hive:alice" ∷ [];
  nonce = none;
  src = TxSource.vsc;
  body = TxData.transfer (record {
    to = "hive:bob";
    from = "hive:alice";
    amount = pos 30;
    tk = Token.hive;
    memo = none;
  });
}

abbrev executed : Context
executed = (execute_all snapshot [] no_vm (payment ∷ []) 0 (init new_context)).1

process_events-balance_example :
    (t : Tokens) × (find_balance "hive:alice" indexed.balance_db ≡ some t)
    × ((tk : Token) → amount_of t tk ≡ balance_of snapshot executed "hive:alice" tk)
unfolding process_events all_events flatten_events events_of IsFresh ids_from has_id is_among
    event_id IsPosted posted is_updated post_events post_event post_op post_entry transfer_entry
    lookup insert find_balance execute_all execute_tx dispatch execute_transfer transfer_ops
    validate_balance get_balance record_ops apply_ledger_ops apply_ledger_op credit_owner
    context_snapshot new_context init block_events get_snapshot snapshot_amount base_amount
    ledger_sum counts ◌+ℤ◌ neg
process_events-balance_example =
    process_events-balance decimal query_to keeper indexed 95 100 [] no_vm (payment ∷ []) 0 events
      "hive:alice" (omega arith, tt) (omega arith) refl ((inl refl, (inl refl, tt)))
      ((refl, refl, (refl, refl, tt))) refl refl refl refl refl

abbrev withdrawal : String → String → Withdrawal
withdrawal id dest = record {
  id = id;
  amount = pos 5;
  tk = Token.hbd;
  dest = some dest;
  block_height = 80;
  idx = 0;
  status = Status.pending;
  withdraw_id = none;
}

-- Hive knows Bob and Carol.
abbrev on_hive : String → Bool
on_hive account = if str_eq account "bob" then true else str_eq account "carol"

-- Two withdrawals that wait to be paid.
abbrev waiting : List Withdrawal
waiting = withdrawal "w-1" "hive:bob" ∷ withdrawal "w-2" "hive:carol" ∷ []

abbrev batch : Batch
batch = record {
  ids = "w-1" ∷ "w-2" ∷ [];
  transfers =
      record { to = "bob"; amount = pos 5; tk = Token.hbd }
      ∷ record { to = "carol"; amount = pos 5; tk = Token.hbd }
      ∷ [];
}

run-batch : create_withdraw_tx on_hive waiting ≡ some batch
unfolding create_withdraw_tx batch_of all_have_dest as_transfers dest_account account_of is_payable
    is_pending
run-batch = refl

abbrev carol_again : Batch
carol_again = record {
  ids = "w-3" ∷ [];
  transfers = record { to = "carol"; amount = pos 5; tk = Token.hbd } ∷ [];
}

create_withdraw_tx-once_example : All (λ id. is_among id carol_again.ids ≡ false) batch.ids
unfolding create_withdraw_tx batch_of all_have_dest as_transfers dest_account account_of is_payable
    is_pending IsUnique has_withdrawal complete_batch complete_one
create_withdraw_tx-once_example =
    create_withdraw_tx-once on_hive on_hive "hive-tx" waiting (withdrawal "w-3" "hive:carol" ∷ [])
      batch carol_again (refl, (refl, tt)) refl (refl, (refl, tt)) refl
