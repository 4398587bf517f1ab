-- ===== src/Vm/Runner.antt =====
-- class VmRunner of services/new/vm/vm-runner.ts: the ledger calls of a contract, and the end of an
-- execution. The compiled contract is a parameter: here it is the sequence of the system calls that
-- it makes and the way it stops. The calls between contracts (`ic`), and the hashes, logs and reads
-- of the environment, which leave the runner as it is, are left out. So are the early returns of
-- executeCall for a contract that is missing, a set-up that fails and an action that is not
-- exported: they come before the contract runs, with no ledger entry and no change of the state.
use Prim.Native.String.{◌++◌ as cat}
use vsc_node.Prelude.{
  String, List, [], ◌∷◌, ◌++◌, Option, none, some, Bool, true, false, Dict, lookup, insert, str_eq,
  starts_with, if◌then◌else◌, ◌&&◌, ◌>>=◌,
}
use vsc_node.Prelude.Int.{ℤ, pos, ◌+ℤ◌, neg, abs, leb_ℤ}
use vsc_node.Ledger.Types.{Token, EventOpType, EventOp, Tokens, amount_of, token_eq}
use vsc_node.Vm.State.{StateCache, finish_state, revert_state, set_key, del_key, get_key}

-- An intent of the transaction's header, with the arguments that are tested.
pub record Intent : Type 0 where
  pub name : String
  pub token : Option Token
  pub limit : Option ℤ

pub record DrawArgs : Type 0 where
  pub from : String
  pub amount : ℤ
  pub asset : Token
  pub tag : Option String

-- The arguments of a transfer or a withdrawal; an asset that is neither HIVE nor HBD is `none`.
pub record SendArgs : Type 0 where
  pub dest : String
  pub from_tag : Option String
  pub memo : Option String
  pub amount : ℤ
  pub asset : Option Token

-- `getbalance` has the name of an account, with its tag after a `#`.
pub data SystemCall : Type 0 where
  set_object : String → Option String → SystemCall
  get_object : String → SystemCall
  del_object : String → SystemCall
  revert : SystemCall
  getbalance : String → SystemCall
  draw : DrawArgs → SystemCall
  transfer : SendArgs → SystemCall
  withdraw : SendArgs → SystemCall

pub record Runner : Type 0 where
  pub ledger_stack : List EventOp
  pub balance_snapshots : Dict Tokens
  pub state : StateCache

-- `sift`'s `$eq` and `$gte` on the arguments of an intent
unfoldable pub is_token : Token → Option Token → Bool
is_token tk none = false
is_token tk (some t) = token_eq t tk

unfoldable pub is_enough : ℤ → Option ℤ → Bool
is_enough amount none = false
is_enough amount (some limit) = leb_ℤ amount limit

unfoldable pub verify_intent : String → Token → ℤ → List Intent → Bool
verify_intent name tk amount [] = false
verify_intent name tk amount (i ∷ intents) =
    if str_eq i.name name && (is_token tk i.token && is_enough amount i.limit)
    then true
    else verify_intent name tk amount intents

-- The fields `to` and `unit` of an entry of the stack, which none has.
unfoldable pub op_to : EventOp → Option String
op_to op = none

unfoldable pub matches : String → String → EventOp → Bool
matches from contract_id op =
    str_eq op.owner from && (elim (op_to op) [ none ↦ false | some to ↦ str_eq to contract_id ])

unfoldable pub sum_drawn : String → String → List EventOp → ℤ
sum_drawn from contract_id [] = pos 0
sum_drawn from contract_id (op ∷ ops) =
    (if matches from contract_id op then op.amt else pos 0) +ℤ sum_drawn from contract_id ops

unfoldable pub total_drawn : String → String → List EventOp → ℤ
total_drawn from contract_id ops = abs (sum_drawn from contract_id ops)

unfoldable pub apply_ledger_op : EventOp → Runner → Runner
apply_ledger_op op r = record r { ledger_stack = r.ledger_stack ++ op ∷ [] }

unfoldable pub revert_op : Runner → Runner
revert_op r = record r { ledger_stack = []; state = revert_state r.state }

unfoldable pub finish_op : Runner → List EventOp × Runner
finish_op r = (r.ledger_stack, record r { ledger_stack = []; state = finish_state r.state })

unfoldable pub tagged : String → Option String → String
tagged contract_id none = contract_id
tagged contract_id (some tag) = if str_eq tag "" then contract_id else cat contract_id (cat "#" tag)

unfoldable pub make_op : EventOpType → String → Token → ℤ → Option String → EventOp
make_op t owner tk amt memo = record { owner = owner; tk = tk; t = t; amt = amt; memo = memo }

-- The two entries that every ledger call posts.
unfoldable pub post_pair :
    EventOpType → String → String → Token → ℤ → Option String → Runner → Runner
post_pair t from to tk amount memo r =
    apply_ledger_op (make_op t to tk amount memo)
      (apply_ledger_op (make_op t from tk (neg amount) none) r)

-- `args.dest === '$self'` has no tag to split off; other destinations are DIDs and Hive accounts.
unfoldable pub transfer_dest : String → String → Option String
transfer_dest contract_id dest =
    if str_eq dest "$self"
    then some contract_id
    else (if starts_with dest "did:"
        then some dest
        else (if starts_with dest "hive:" then some dest else none))

unfoldable pub withdraw_dest : String → Option String
withdraw_dest dest = if starts_with dest "hive:" then some dest else none

-- `stored` reads the contract's state, `direct` is `getBalanceSnapshotDirect`.
module _ (contract_id : String) (intents : List Intent) (stored : String → Option String)
    (direct : String → Tokens) where
  -- A balance that is in the map already has no field `tokens`, and reading it throws: `none`.
  unfoldable pub get_balance_snapshot : String → Runner → Option (Tokens × Runner)
  get_balance_snapshot account r = elim (lookup account r.balance_snapshots) [
    | some b ↦ none
    | none ↦ some (
      direct account,
      record r { balance_snapshots = insert account (direct account) r.balance_snapshots },
    )
  ]

  unfoldable pub run_getbalance : String → Runner → Option Runner
  run_getbalance name r = do read ← get_balance_snapshot name r; some read.1

  unfoldable pub post_draw : DrawArgs → Tokens → Runner → Runner
  post_draw args snapshot r =
      if verify_intent "hive.allow_transfer" args.asset
          (args.amount +ℤ total_drawn args.from contract_id r.ledger_stack) intents
        && leb_ℤ args.amount (amount_of snapshot args.asset)
      then post_pair EventOpType.ledger_transfer args.from (tagged contract_id args.tag) args.asset
          args.amount none r
      else r

  unfoldable pub run_draw : DrawArgs → Runner → Option Runner
  run_draw args r = do read ← get_balance_snapshot args.from r; some (post_draw args read.0 read.1)

  unfoldable pub post_send : EventOpType → String → Token → SendArgs → Tokens → Runner → Runner
  post_send t to tk args snapshot r =
      if leb_ℤ args.amount (amount_of snapshot tk)
      then post_pair t (tagged contract_id args.from_tag) to tk args.amount args.memo r
      else r

  -- Refusals come before the balance is read.
  unfoldable pub run_send :
      EventOpType → Option String → Option Token → SendArgs → Runner → Option Runner
  run_send t none asset args r = some r
  run_send t (some to) none args r = some r
  run_send t (some to) (some tk) args r = do
    read ← get_balance_snapshot (tagged contract_id args.from_tag) r
    some (post_send t to tk args read.0 read.1)

  unfoldable pub run_transfer : SendArgs → Runner → Option Runner
  run_transfer args r =
      run_send EventOpType.ledger_transfer (transfer_dest contract_id args.dest) args.asset args r

  unfoldable pub withdraw_owner : SendArgs → Option String
  withdraw_owner args = do dest ← withdraw_dest args.dest; some (cat "#withdraw?to=" dest)

  unfoldable pub run_withdraw : SendArgs → Runner → Option Runner
  run_withdraw args r = run_send EventOpType.ledger_withdraw (withdraw_owner args) args.asset args r

  -- One system call; `none` is a call that throws.
  unfoldable pub run_call : SystemCall → Runner → Option Runner
  run_call (SystemCall.set_object key val) r = some (record r { state = set_key key val r.state })
  run_call (SystemCall.get_object key) r =
      some (record r { state = (get_key stored key r.state).1 })
  run_call (SystemCall.del_object key) r = some (record r { state = del_key key r.state })
  run_call SystemCall.revert r = some (revert_op r)
  run_call (SystemCall.getbalance name) r = run_getbalance name r
  run_call (SystemCall.draw args) r = run_draw args r
  run_call (SystemCall.transfer args) r = run_transfer args r
  run_call (SystemCall.withdraw args) r = run_withdraw args r

  -- The calls up to the end, or to the first that throws; the flag tells which.
  unfoldable pub run_calls : List SystemCall → Runner → Bool × Runner
  run_calls [] r = (true, r)
  run_calls (call ∷ calls) r = elim (run_call call r) [
    | none ↦ (false, r)
    | some r' ↦ run_calls calls r'
  ]

  -- The end of `executeCall`: whether it succeeds, and its ledger. `returns` is false if the
  -- contract traps.
  unfoldable pub execute_call : List SystemCall → Bool → Runner → Bool × List EventOp × Runner
  execute_call calls returns r =
      let (ran, r') = run_calls calls r in
      if ran && returns
      then (let (ledger, done) = finish_op r' in (true, ledger, done))
      else (false, [], revert_op r')
