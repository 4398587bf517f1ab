-- ===== src/Keeper/TickTests.antt =====
-- A Hive transaction with a deposit, a donation and a transfer elsewhere, and the theorem on what
-- the keeper makes of it.
use vsc_node.Prelude.{
  String, ◌≡◌, refl, [], ◌∷◌, none, some, true, false, str_eq, ◌==◌, if◌then◌else◌, arith,
}
use vsc_node.Prelude.Int.{pos, ◌+ℤ◌}
use vsc_node.Ledger.Types.{Token, amount_of}
use vsc_node.Keeper.Store.{find_balance, ledger_sum, base_amount, snapshot_amount, get_snapshot}
use vsc_node.Keeper.Appending.{has_id, is_among, IsFresh}
use vsc_node.Keeper.Addresses.{
  absent, text, codes, is_within, is_hex, is_letter, is_letter_or_digit, all_hex, is_eth,
  next_count, is_next, are_segments, is_hive, named_owner, normal_dest,
}
use vsc_node.Keeper.Deposits.{
  TickOp, transfer, HiveTx, Memo, TickState, threw, not_whole, take_deposit, store_sent,
  TickServices, deposit_id, is_action, state_of, handle_tx_tick, memo_of, owner_of, handle_op,
  handle_ops, then_tick, dispatch_tick,
}
use vsc_node.Keeper.Crediting.{
  is_whole, amount_in, deposit_ids, credits, credit_of, is_unreadable, is_donation,
}
use vsc_node.Keeper.Ticks.{deposited, handle_tx_tick-get_snapshot}

abbrev nothing : Memo
nothing = record { to = absent; action = absent; amount = absent }

abbrev services : TickServices
services = record {
  multisig = "vsc.ms";
  parse_json = λ s. if str_eq s "null" then some none else none;
  parse_query = λ s.
      if str_eq s "to=@alice"
      then record nothing { to = text "@alice" }
      else record nothing { action = text s };
  product = λ amount.
      if str_eq amount "1.000"
      then some (pos 1000)
      else if str_eq amount "0.050"
      then some (pos 50)
      else none;
  thousandths = λ f. none;
  withdrawals_of = λ json. none;
  checksum = λ s. s;
  decimal = λ n. if n == 0 then "0" else if n == 1 then "1" else "2";
}

abbrev transfer_of : String → String → String → TickOp
transfer_of to n memo =
    transfer record { from = "bob"; to = to; amount = n; tk = Token.hive; memo = memo }

abbrev tx : HiveTx
tx = record {
  tx_id = "t";
  operations =
      transfer_of "vsc.ms" "1.000" "to=@alice"
      ∷ transfer_of "vsc.ms" "0.050" "donate"
      ∷ transfer_of "carol" "0.050" ""
      ∷ [];
  height = 10;
  block_id = "b";
  idx = 0;
}

abbrev start : TickState
start = record {
  keeper = record { balance_db = []; ledger_db = []; withdraw_db = [] };
  inputs = [];
}

valid_names :
    (is_hive "alice" ≡ true)
    × (is_hive "a.b" ≡ false)
    × (is_hive "vsc.ms-8968d20c" ≡ true)
    × (is_hive "good-karma.one" ≡ true)
    × (is_hive "al-" ≡ false)
unfolding is_hive is_within codes are_segments is_next next_count is_letter_or_digit is_letter
valid_names = (refl, refl, refl, refl, refl)

valid_addresses :
    (is_eth "0x52908400098527886E0F7030069857D2E4169EE7" ≡ true)
    × (is_eth "52908400098527886E0F7030069857D2E4169EE7" ≡ true)
    × (is_eth "0x5290840009" ≡ false)
unfolding is_eth codes all_hex is_hex is_within
valid_addresses = (refl, refl, refl)

handle_tx_tick-get_snapshot_example :
    amount_of
      (get_snapshot (state_of (handle_tx_tick services tx start)).keeper "hive:alice" 12)
      Token.hive
    ≡ pos 0 +ℤ deposited services tx tx.operations "hive:alice" Token.hive
unfolding get_snapshot snapshot_amount find_balance base_amount ledger_sum IsFresh has_id is_among
    deposit_ids deposit_id is_whole ◌+ℤ◌
handle_tx_tick-get_snapshot_example =
    handle_tx_tick-get_snapshot services tx start "hive:alice" Token.hive 12 (omega arith)
      (refl, refl, (refl, refl, (refl, refl, tt))) (refl, (refl, (refl, tt)))

alice_deposited : deposited services tx tx.operations "hive:alice" Token.hive ≡ pos 1000
unfolding deposited credits credit_of is_unreadable is_donation owner_of memo_of normal_dest
    named_owner amount_in is_hive is_within codes are_segments is_next next_count is_letter_or_digit
    is_letter ◌+ℤ◌ is_action
alice_deposited = refl

-- A memo that reads "null" makes the handler throw, and the deposit after it is lost.
null_memo :
    handle_tx_tick services
      (record tx {
        operations =
            transfer_of "vsc.ms" "0.050" "null" ∷ transfer_of "vsc.ms" "1.000" "to=@alice" ∷ [];
      })
      start
    ≡ threw start
unfolding handle_tx_tick dispatch_tick handle_ops handle_op then_tick owner_of memo_of
null_memo = refl

-- An amount whose product is no whole number: what follows is not modelled.
fraction :
    handle_tx_tick services
      (record tx { operations = transfer_of "vsc.ms" "1.001" "to=@alice" ∷ [] })
      start
    ≡ not_whole start
unfolding handle_tx_tick dispatch_tick handle_ops handle_op then_tick owner_of memo_of take_deposit
    store_sent is_action normal_dest named_owner is_hive is_within codes are_segments is_next
    next_count is_letter_or_digit is_letter
fraction = refl
