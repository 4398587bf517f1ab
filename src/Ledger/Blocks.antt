-- ===== src/Ledger/Blocks.antt =====
-- The invariant over the transactions of a block.
use vsc_node.Prelude.{if-holds, String, refl, List, [], ◌∷◌, none, some, Dict}
use vsc_node.Ledger.Types.{Tokens}
use vsc_node.Ledger.Context.{
  Tx, TxData, CallResult, Outcome, Context, new_context, finish_call, execute_call, dispatch,
  execute_tx, execute_all,
}
use vsc_node.Ledger.Soundness.{IsSound, Same-IsSound, record_ops-IsSound, new_context-IsSound}
use vsc_node.Ledger.Execution.{execute_transfer-Ends, execute_withdraw-Ends, Ends-IsSound}
use vsc_node.Ledger.Context.{init}

module _ (snapshot : String → Tokens) (mock : Dict Tokens) {Vm : Type 0}
    (process_tx : Vm → Tx → Dict Tokens → CallResult × Vm) where
  finish_call-IsSound :
      (id contract_id : String) (r : CallResult) (c : Context)
      → IsSound snapshot c
      → IsSound snapshot (finish_call snapshot id contract_id r c)
  unfolding finish_call
  finish_call-IsSound id contract_id CallResult.timeout c s =
      Same-IsSound snapshot
        (record { balances = λ i tk. refl; ledger = refl; txs = refl; txs_map = refl }) s
  finish_call-IsSound id contract_id (CallResult.execute_stop out events) c s =
      record_ops-IsSound snapshot id events _ (
        Same-IsSound snapshot
          (record { balances = λ i tk. refl; ledger = refl; txs = refl; txs_map = refl }) s)

  dispatch-IsSound :
      (body : TxData) (tx : Tx) (vm : Vm) (c : Context)
      → IsSound snapshot c
      → IsSound snapshot (dispatch snapshot mock process_tx body tx vm c).2
  unfolding dispatch execute_call
  dispatch-IsSound (TxData.call_contract none) tx vm c s = s
  dispatch-IsSound (TxData.call_contract (some k)) tx vm c s =
      finish_call-IsSound tx.id k (process_tx vm tx c.balances).0 c s
  dispatch-IsSound (TxData.transfer p) tx vm c s =
      Ends-IsSound snapshot mock tx.id p _ c _ (execute_transfer-Ends snapshot mock tx.id p c) s
  dispatch-IsSound (TxData.withdraw p) tx vm c s =
      Ends-IsSound snapshot mock tx.id p _ c _ (execute_withdraw-Ends snapshot mock tx.id p c) s
  dispatch-IsSound TxData.other tx vm c s = s

  -- Whatever the transaction and whatever the contract VM answers, the execution of a transaction
  -- keeps the invariant: each external balance is its snapshot and the credits of the ledger, and
  -- the recorded indexes are those of the events, in order.
  pub execute_tx-IsSound :
      (tx : Tx) (vm : Vm) (c : Context)
      → IsSound snapshot c
      → IsSound snapshot (execute_tx snapshot mock process_tx tx vm c).2
  unfolding execute_tx
  execute_tx-IsSound tx vm c s =
      if-holds {Res = Outcome × Vm × Context} (λ r. IsSound snapshot r.2) c.initialized
        (dispatch-IsSound tx.body tx vm c s) s

  execute_all-IsSound :
      (txs : List Tx) (vm : Vm) (c : Context)
      → IsSound snapshot c
      → IsSound snapshot (execute_all snapshot mock process_tx txs vm c).1
  unfolding execute_all
  execute_all-IsSound [] vm c s = s
  execute_all-IsSound (tx ∷ txs) vm c s = execute_all-IsSound txs _ _ (execute_tx-IsSound tx vm c s)

  -- At the end of a block, whatever its transactions: the balance of each external account is its
  -- snapshot and what the block's events credit to it, the indexes recorded for the transactions
  -- are, in order, those of the events, and there is one list of indexes for each transaction.
  pub block-IsSound :
      (txs : List Tx) (vm : Vm)
      → IsSound snapshot (execute_all snapshot mock process_tx txs vm (init new_context)).1
  unfolding init
  block-IsSound txs vm = execute_all-IsSound txs vm _ (
      Same-IsSound snapshot
        (record { balances = λ i tk. refl; ledger = refl; txs = refl; txs_map = refl })
        (new_context-IsSound snapshot))
