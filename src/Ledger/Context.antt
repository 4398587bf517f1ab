-- ===== src/Ledger/Context.antt =====
-- class TxContext: the balances cached for a block, the ledger of its events, and the outputs.
-- The balance keeper's snapshots and the contract VM enter as parameters of the section; a JS
-- number is an integer here, and a `throw` is the outcome `thrown`.
use vsc_node.Prelude.{
  ℕ, String, List, [], ◌∷◌, ◌++◌, Option, none, some, Bool, true, false, length, Dict, lookup,
  insert, starts_with, if◌then◌else◌,
}
use Prim.Native.String.{◌++◌ as cat}
use vsc_node.Prelude.Int.{ℤ, ◌+ℤ◌, neg, leb_ℤ}
use vsc_node.Ledger.Types.{Token, EventOpType, EventOp, Tokens, amount_of, with_amount}

pub record Payload : Type 0 where
  pub to : String
  pub from : String
  pub amount : ℤ
  pub tk : Token
  pub memo : Option String

-- `tx.data`, by its `op`.
pub data TxData : Type 0 where
  call_contract : Option String → TxData
  transfer : Payload → TxData
  withdraw : Payload → TxData
  other : TxData

-- `src` of a transaction: the network's own pool, or the Hive chain.
pub data TxSource : Type 0 where
  vsc hive_chain : TxSource

-- `TransactionDbRecordV2`, as far as block production reads it; `nonce` is `headers.nonce`.
pub record Tx : Type 0 where
  pub id : String
  pub required_auths : List String
  pub nonce : Option ℕ
  pub src : TxSource
  pub body : TxData

-- `ContractErrorType` of src/services/new/vm/utils.ts
pub data ContractErrorType : Type 0 where
  invalid_contract invalid_action invalid_input : ContractErrorType
  runtime_exception runtime_setup runtime_unknown timeout invalid_return gas_exhausted :
      ContractErrorType

-- The fields of `ExecuteStopMessage` that are kept for the output.
pub record CallOutput : Type 0 where
  pub ret : Option String
  pub error : Option String
  pub error_type : Option ContractErrorType
  pub logs : List String
  pub io_gas : ℕ

pub data CallResult : Type 0 where
  timeout : CallResult
  execute_stop : CallOutput → List EventOp → CallResult

pub record TxOutput : Type 0 where
  pub id : String
  pub result : CallOutput

pub record Context : Type 0 where
  pub balances : Dict Tokens
  pub ledger : List EventOp
  pub txs : List String
  pub txs_map : List (List ℕ)
  pub results : Dict (List TxOutput)
  pub initialized : Bool

-- What `executeTx` returns: nothing, or `ok`, or it throws.
pub data Outcome : Type 0 where
  thrown : Outcome
  undefined : Outcome
  ok : Bool → Outcome

-- The constructor; `init` sets the flag.
unfoldable pub new_context : Context
new_context = record {
  balances = [];
  ledger = [];
  txs = [];
  txs_map = [];
  results = [];
  initialized = false;
}

unfoldable pub init : Context → Context
init c = record c { initialized = true }

abbrev pub timeout_output : CallOutput
timeout_output = record {
  ret = none;
  error = some "timeout";
  error_type = some ContractErrorType.timeout;
  logs = [];
  io_gas = 0;
}

-- `this.results[contract_id].push(out)`, the list made if it is missing
unfoldable pub push_result : String → TxOutput → Dict (List TxOutput) → Dict (List TxOutput)
push_result k out m = insert k (elim (lookup k m) [ none ↦ out ∷ [] | some l ↦ l ++ out ∷ [] ]) m

-- The two events of a transfer: the debit and the credit.
unfoldable pub transfer_ops : Payload → List EventOp
transfer_ops p =
    record {
      owner = p.from;
      tk = p.tk;
      t = EventOpType.ledger_transfer;
      amt = neg p.amount;
      memo = p.memo;
    }
    ∷ record {
      owner = p.to;
      tk = p.tk;
      t = EventOpType.ledger_transfer;
      amt = p.amount;
      memo = p.memo;
    }
    ∷ []

unfoldable pub withdraw_ops : Payload → List EventOp
withdraw_ops p =
    record {
      owner = p.from;
      tk = p.tk;
      t = EventOpType.ledger_withdraw;
      amt = neg p.amount;
      memo = p.memo;
    }
    ∷ record {
      owner = cat "#withdraw?to=" p.to;
      tk = p.tk;
      t = EventOpType.ledger_withdraw;
      amt = p.amount;
      memo = p.memo;
    }
    ∷ []

-- `snapshot id` is `balanceKeeper.getSnapshot(id, br[1])`.
module _ (snapshot : String → Tokens) where
  unfoldable pub get_snapshot : String → Context → Tokens × Context
  get_snapshot id c = elim (lookup id c.balances) [
    | some b ↦ (b, c)
    | none ↦ (snapshot id, record c { balances = insert id (snapshot id) c.balances })
  ]

  -- Owners that start with `#` are internal, and have no balance.
  unfoldable pub credit_owner : EventOp → Context → Context
  unfolding get_snapshot
  credit_owner op c =
      if starts_with op.owner "#"
      then c
      else (let (b, c') = get_snapshot op.owner c in
          record c' {
            balances =
                insert op.owner (with_amount b op.tk (amount_of b op.tk +ℤ op.amt)) c'.balances;
          })

  unfoldable pub apply_ledger_op : EventOp → Context → ℕ × Context
  unfolding credit_owner
  apply_ledger_op op c =
      let c' = credit_owner op c in (length c'.ledger, record c' { ledger = c'.ledger ++ op ∷ [] })

  -- `for (let e of ops) eventIdxs.push(await this.applyLedgerOp(e))`
  unfoldable pub apply_ledger_ops : List EventOp → Context → List ℕ × Context
  apply_ledger_ops [] c = ([], c)
  apply_ledger_ops (e ∷ es) c =
      let (i, c') = apply_ledger_op e c in let (is, c'') = apply_ledger_ops es c' in (i ∷ is, c'')

  -- The events of a transaction, its id and the indexes of its events.
  unfoldable pub record_ops : String → List EventOp → Context → Context
  record_ops id ops c =
      let (idxs, c') = apply_ledger_ops ops c in
      record c' { txs = c'.txs ++ id ∷ []; txs_map = c'.txs_map ++ idxs ∷ [] }

  unfoldable pub finish_call : String → String → CallResult → Context → Context
  finish_call id contract_id CallResult.timeout c = record c {
    results = push_result contract_id (record { id = id; result = timeout_output }) c.results;
  }
  finish_call id contract_id (CallResult.execute_stop out events) c =
      record_ops id events (record c {
        results = push_result contract_id (record { id = id; result = out }) c.results;
      })

-- `mock` is `mockBalance`.
module _ (snapshot : String → Tokens) (mock : Dict Tokens) where
  unfoldable pub get_balance : String → Token → Context → ℤ × Context
  get_balance id tk c = elim (lookup id c.balances) [
    | some b ↦ (amount_of b tk, c)
    | none ↦ elim (lookup id mock) [
      | some b ↦ (amount_of b tk, c)
      | none ↦
          (amount_of (snapshot id) tk, record c { balances = insert id (snapshot id) c.balances })
    ]
  ]

  unfoldable pub validate_balance : String → Token → ℤ → Context → Bool × Context
  validate_balance id tk amount c = let (amt, c') = get_balance id tk c in (leb_ℤ amount amt, c')

  unfoldable pub execute_transfer : String → Payload → Context → Outcome × Context
  execute_transfer id p c =
      let (amt, c₁) = get_balance p.from p.tk c in
      let (valid, c₂) = validate_balance p.from p.tk p.amount c₁ in
      if valid then (ok true, record_ops snapshot id (transfer_ops p) c₂) else (ok false, c₂)

  unfoldable pub execute_withdraw : String → Payload → Context → Outcome × Context
  execute_withdraw id p c =
      let (valid, c₁) = validate_balance p.from p.tk p.amount c in
      if valid then (ok true, record_ops snapshot id (withdraw_ops p) c₁) else (ok false, c₁)

-- `process_tx` is `contractVM.processTx`, whose own state is threaded through the calls.
module _ (snapshot : String → Tokens) (mock : Dict Tokens) {Vm : Type 0}
    (process_tx : Vm → Tx → Dict Tokens → CallResult × Vm) where
  unfoldable pub execute_call : Tx → Option String → Vm → Context → Outcome × Vm × Context
  execute_call tx none vm c = (ok false, vm, c)
  execute_call tx (some contract_id) vm c =
      let (r, vm') = process_tx vm tx c.balances in
      (undefined, vm', finish_call snapshot tx.id contract_id r c)

  unfoldable pub dispatch : TxData → Tx → Vm → Context → Outcome × Vm × Context
  dispatch (TxData.call_contract contract_id) tx vm c = execute_call tx contract_id vm c
  dispatch (TxData.transfer p) tx vm c =
      let (o, c') = execute_transfer snapshot mock tx.id p c in (o, vm, c')
  dispatch (TxData.withdraw p) tx vm c =
      let (o, c') = execute_withdraw snapshot mock tx.id p c in (o, vm, c')
  dispatch TxData.other tx vm c = (undefined, vm, c)

  unfoldable pub execute_tx : Tx → Vm → Context → Outcome × Vm × Context
  execute_tx tx vm c = if c.initialized then dispatch tx.body tx vm c else (thrown, vm, c)

  -- `for (let tx of transactions) await txExecutor.executeTx(tx)`
  unfoldable pub execute_all : List Tx → Vm → Context → Vm × Context
  execute_all [] vm c = (vm, c)
  execute_all (tx ∷ txs) vm c = let (o, vm', c') = execute_tx tx vm c in execute_all txs vm' c'
