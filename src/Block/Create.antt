-- ===== src/Block/Create.antt =====
-- createBlock of services/new/witness/index.ts: the selected transactions of the pool, the
-- outputs and events of the transactions it executes, and the reference to the anchored ones.
-- The queries' results are arguments; IPFS, the VM and the Merkle trees are parameters. The entry
-- `op` of an input, which no modelled code reads, is left out.
use vsc_node.Prelude.{
  ℕ, String, List, [], ◌∷◌, ◌++◌, map, Option, none, some, Bool, true, false, Dict, insert,
  if◌then◌else◌, str_eq, filter, ◌>>=◌,
}
use vsc_node.Ledger.Types.{Tokens}
use vsc_node.Ledger.Context.{Tx, TxData, TxSource, CallResult, new_context, init, execute_all}
use vsc_node.Ledger.Finalize.{OutputData, BlockEvents, ContractState, finalize}
use vsc_node.Block.Nonces.{select_txs}

-- `TransactionDbType`
pub data TransactionDbType : Type 0 where
  null input output virtual core anchor_ref events : TransactionDbType

-- An entry of the block's list of transactions.
pub record BlockTx : Type 0 where
  pub id : String
  pub t : TransactionDbType

pub record Block : Type 0 where
  pub txs : List BlockTx
  pub prevb : Option String
  pub merkle_root : Option String
  pub sig_root : Option String

-- What the function calls outside: the VM, IPFS, the hashes and the stored nonces.
pub record Services (Vm : Type 0) : Type 0 where
  pub vm_context : List String → Vm
  pub process_tx : Vm → Tx → Dict Tokens → CallResult × Vm
  pub vm_finish : Vm → List ContractState
  pub snapshot : String → Tokens
  pub put_output : OutputData → String
  pub put_events : BlockEvents → String
  pub put_refs : List String → String
  pub merkle_tree : List String → Option String
  pub sig_hash : Tx → String
  pub key_id : List String → String
  pub stored : String → Option ℕ

unfoldable pub is_onchain : Tx → Bool
is_onchain tx = elim tx.src [ TxSource.hive_chain ↦ true | TxSource.vsc ↦ false ]

unfoldable pub contract_of : TxData → Option String
contract_of (TxData.call_contract (some id)) = if str_eq id "" then none else some id
contract_of (TxData.call_contract none) = none
contract_of (TxData.transfer p) = none
contract_of (TxData.withdraw p) = none
contract_of TxData.other = none

-- `contractIdsOut[contract_id] = 1` for each transaction that has one
unfoldable pub collect_contracts : List Tx → Dict ℕ → Dict ℕ
collect_contracts [] out = out
collect_contracts (tx ∷ txs) out =
    collect_contracts txs (elim (contract_of tx.body) [ none ↦ out | some id ↦ insert id 1 out ])

unfoldable pub contract_ids : List Tx → List String
contract_ids txs = map (λ entry. entry.0) (collect_contracts txs [])

unfoldable pub as_input : Tx → BlockTx
as_input tx = record { id = tx.id; t = TransactionDbType.input }

module _ {Vm : Type 0} (services : Services Vm) where
  unfoldable pub as_output : OutputData → BlockTx
  as_output out = record { id = services.put_output out; t = TransactionDbType.output }

  -- The entry of the events, if there are any.
  unfoldable pub events_entry : BlockEvents → List BlockTx
  events_entry list = elim list.events [
    | [] ↦ []
    | event ∷ more ↦ record { id = services.put_events list; t = TransactionDbType.events } ∷ []
  ]

  -- `hiveMerkleProof`
  unfoldable pub anchor_entry : List Tx → List BlockTx
  anchor_entry [] = []
  anchor_entry (tx ∷ txs) =
      record {
        id = services.put_refs (map (λ x. x.id) (tx ∷ txs));
        t = TransactionDbType.anchor_ref;
      }
      ∷ []

  -- The entries that the execution of the anchored transactions yields; none if there are none.
  unfoldable pub execute_block : List Tx → Option (List BlockTx)
  execute_block [] = some []
  execute_block (tx ∷ txs) = do
    let transactions = tx ∷ txs
    let (vm, c) =
        execute_all services.snapshot [] services.process_tx transactions
          (services.vm_context (contract_ids transactions)) (init new_context)
    result ← finalize (services.vm_finish vm) c
    some (map as_output result.0 ++ events_entry result.1)

  unfoldable pub assemble : List Tx → List Tx → List BlockTx → Option String → Block
  assemble offchain transactions executed prev =
      let entries =
        map as_input offchain ++ executed ++ anchor_entry (filter is_onchain transactions) in
      record {
        txs = entries;
        prevb = prev;
        merkle_root = services.merkle_tree (map (λ entry. entry.id) entries);
        sig_root = services.merkle_tree (map services.sig_hash offchain);
      }

  -- `candidates` is `offchainTxsUnfiltered`, `transactions` the included ones, `prev` the id of
  -- the last block header.
  unfoldable pub create_block : List Tx → List Tx → Option String → Option Block
  create_block candidates transactions prev = do
    executed ← execute_block transactions
    some (
        assemble (select_txs services.key_id services.stored candidates []).0 transactions executed
          prev)
