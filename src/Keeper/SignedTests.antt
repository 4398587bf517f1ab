-- ===== src/Keeper/SignedTests.antt =====
-- A batch of one withdrawal that two of three owners sign, and the theorems on it.
use vsc_node.Prelude.{
  String, ◌≡◌, ◌≤◌, refl, List, [], ◌∷◌, Option, none, some, Bool, true, starts_with, if◌then◌else◌,
  All, arith,
}
use vsc_node.Prelude.Int.{pos}
use vsc_node.Ledger.Types.{Token}
use vsc_node.Election.Weights.{includes}
use vsc_node.Keeper.Store.{Status, Withdrawal}
use vsc_node.Keeper.Withdrawals.{
  Batch, account_of, is_pending, all_have_dest, dest_account, is_payable, as_transfers, batch_of,
  create_withdraw_tx,
}
use vsc_node.Keeper.Signing.{
  Authority, broadcast, batch_threw, add_signature, collect, send_signed, run_batch_operation,
}
use vsc_node.Keeper.Sending.{owners_signatures, run_batch_operation_sends}
use vsc_node.Keeper.Signed.{IsDistinct, IsOwners, run_batch_operation-IsOwners}

abbrev exists_on_hive : String → Bool
exists_on_hive account = true

-- The signatures "A1" and "A2" are by the key "A".
abbrev public_key_of : Batch → String → Option String
public_key_of batch s =
    if starts_with s "A"
    then some "A"
    else if starts_with s "B"
    then some "B"
    else if starts_with s "X"
    then some "X"
    else none

abbrev authority : Authority
authority = record { weight_threshold = 2; keys = "A" ∷ "B" ∷ "C" ∷ [] }

abbrev withdrawals : List Withdrawal
withdrawals =
    record {
      id = "w1";
      amount = pos 5;
      tk = Token.hive;
      dest = some "hive:alice";
      block_height = 1;
      idx = 0;
      status = Status.pending;
      withdraw_id = none;
    }
    ∷ []

abbrev batch : Batch
batch = record {
  ids = "w1" ∷ [];
  transfers = record { to = "alice"; amount = pos 5; tk = Token.hive } ∷ [];
}

made : create_withdraw_tx exists_on_hive withdrawals ≡ some batch
unfolding create_withdraw_tx is_pending all_have_dest is_payable dest_account account_of batch_of
    as_transfers
made = refl

sent :
    run_batch_operation exists_on_hive public_key_of authority
      ("X1" ∷ "A1" ∷ "A1" ∷ "B1" ∷ [])
      withdrawals
    ≡ broadcast batch ("A1" ∷ "B1" ∷ [])
unfolding run_batch_operation create_withdraw_tx is_pending all_have_dest is_payable dest_account
    account_of batch_of as_transfers collect add_signature includes send_signed
sent = refl

run_batch_operation-IsOwners_example :
    (create_withdraw_tx exists_on_hive withdrawals ≡ some batch)
    × ((2 ≤ 2)
        × (All (IsOwners exists_on_hive public_key_of authority batch) ("A1" ∷ "B1" ∷ [])
            × IsDistinct ("A1" ∷ "B1" ∷ [])))
run_batch_operation-IsOwners_example =
    run_batch_operation-IsOwners exists_on_hive public_key_of authority
      ("X1" ∷ "A1" ∷ "A1" ∷ "B1" ∷ []) withdrawals batch ("A1" ∷ "B1" ∷ []) sent

run_batch_operation_sends_example :
    (signatures : List String) × (run_batch_operation exists_on_hive public_key_of authority
        ("X1" ∷ "A1" ∷ "B1" ∷ [])
        withdrawals
      ≡ broadcast batch signatures)
unfolding owners_signatures includes
run_batch_operation_sends_example =
    run_batch_operation_sends exists_on_hive public_key_of authority ("X1" ∷ "A1" ∷ "B1" ∷ [])
      withdrawals batch made ((λ e. ground arith), ((λ e. ground arith), ((λ e. ground arith), tt)))
      (omega arith)

-- One key that signs twice is as good as two, and an answer that is no signature ends the batch.
one_key :
    run_batch_operation exists_on_hive public_key_of authority ("A1" ∷ "A2" ∷ []) withdrawals
    ≡ broadcast batch ("A1" ∷ "A2" ∷ [])
unfolding run_batch_operation create_withdraw_tx is_pending all_have_dest is_payable dest_account
    account_of batch_of as_transfers collect add_signature includes send_signed
one_key = refl

no_signature :
    run_batch_operation exists_on_hive public_key_of authority ("?" ∷ "A1" ∷ "B1" ∷ []) withdrawals
    ≡ batch_threw
unfolding run_batch_operation create_withdraw_tx is_pending all_have_dest is_payable dest_account
    account_of batch_of as_transfers collect add_signature includes send_signed
no_signature = refl
