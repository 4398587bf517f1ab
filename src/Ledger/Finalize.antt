-- ===== src/Ledger/Finalize.antt =====
-- TxContext.finalize of services/new/witness/index.ts: the outputs and the events of a block.
use vsc_node.Prelude.{ℕ, ◌+◌, String, List, [], ◌∷◌, map, Option, none, some, lookup, ◌>>=◌}
use vsc_node.Ledger.Types.{EventOp}
use vsc_node.Ledger.Context.{CallOutput, TxOutput, Context}

-- `vsc-events`: the transactions, the indexes of each one's events, and the events.
pub record BlockEvents : Type 0 where
  pub txs : List String
  pub txs_map : List (List ℕ)
  pub events : List EventOp

-- `vsc-output`
pub record OutputData : Type 0 where
  pub contract_id : String
  pub inputs : List String
  pub results : List CallOutput
  pub state_merkle : String
  pub io_gas : ℕ

-- What `contractVM.finish` reports of a contract.
pub record ContractState : Type 0 where
  pub contract_id : String
  pub state_merkle : String

unfoldable pub gas_of : List TxOutput → ℕ
gas_of [] = 0
gas_of (out ∷ outs) = out.result.io_gas + gas_of outs

-- `reduce` without a start value throws on an empty list.
unfoldable pub total_gas : List TxOutput → Option ℕ
total_gas [] = none
total_gas (out ∷ outs) = some (gas_of (out ∷ outs))

unfoldable pub output_data : ContractState → List TxOutput → ℕ → OutputData
output_data state outs gas = record {
  contract_id = state.contract_id;
  inputs = map (λ out. out.id) outs;
  results = map (λ out. out.result) outs;
  state_merkle = state.state_merkle;
  io_gas = gas;
}

-- A contract that the VM reports and no call was recorded for makes the code throw: `none`.
unfoldable pub contract_output : Context → ContractState → Option OutputData
contract_output c state = do
  outs ← lookup state.contract_id c.results
  gas ← total_gas outs
  some (output_data state outs gas)

unfoldable pub contract_outputs : Context → List ContractState → Option (List OutputData)
contract_outputs c [] = some []
contract_outputs c (state ∷ states) = do
  out ← contract_output c state
  outs ← contract_outputs c states
  some (out ∷ outs)

unfoldable pub block_events : Context → BlockEvents
block_events c = record { txs = c.txs; txs_map = c.txs_map; events = c.ledger }

-- `states` is the result of `contractVM.finish`.
unfoldable pub finalize : List ContractState → Context → Option (List OutputData × BlockEvents)
finalize states c = do outs ← contract_outputs c states; some (outs, block_events c)
