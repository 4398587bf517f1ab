-- ===== src/Ledger/Tests.antt =====
-- Runs of the block context on concrete transactions, and the theorems at concrete inputs.
use vsc_node.Prelude.{
  String, ◌≡◌, refl, ◌≢◌, List, [], ◌∷◌, none, some, true, Dict, lookup, insert, if◌then◌else◌,
  str_eq, arith, eq_iff,
}
use vsc_node.Prelude.Int.{ℤ, pos, neg, ◌+ℤ◌}
use vsc_node.Ledger.Types.{Token, Tokens, amount_of, volume}
use vsc_node.Ledger.Context.{
  TxSource, Tx, TxData, Payload, CallResult, Context, new_context, init, execute_transfer,
  execute_withdraw, execute_tx, execute_all, get_balance, validate_balance, get_snapshot,
  credit_owner, apply_ledger_op, apply_ledger_ops, record_ops, transfer_ops, withdraw_ops, dispatch,
  execute_call, finish_call,
}
use vsc_node.Ledger.Balances.{balance_of}
use vsc_node.Ledger.Soundness.{IsSound}
use vsc_node.Ledger.Blocks.{execute_tx-IsSound, block-IsSound}
use vsc_node.Ledger.Solvency.{IsSolvent, execute_all-IsSolvent, execute_all_conserves}

-- Alice has 100 of each token, the internal address `#pot` 20.
abbrev funds : String → Tokens
funds id =
    if str_eq id "hive:alice"
    then record { hive_amt = pos 100; hbd_amt = pos 100 }
    else (if str_eq id "#pot"
        then record { hive_amt = pos 20; hbd_amt = pos 20 }
        else record { hive_amt = pos 0; hbd_amt = pos 0 })

abbrev pay : String → ℤ → Payload
pay from amount = record {
  to = "hive:bob";
  from = from;
  amount = amount;
  tk = Token.hive;
  memo = none;
}

abbrev start : Context
start = record {
  balances = [];
  ledger = [];
  txs = [];
  txs_map = [];
  results = [];
  initialized = true;
}

abbrev silent : Unit {0} → Tx → Dict Tokens → CallResult × Unit {0}
silent vm tx m = (CallResult.timeout, vm)

abbrev block : List Tx
block =
    record {
      id = "a";
      required_auths = [];
      nonce = none;
      src = TxSource.vsc;
      body = TxData.transfer (pay "hive:alice" (pos 30));
    }
    ∷ record {
      id = "b";
      required_auths = [];
      nonce = none;
      src = TxSource.vsc;
      body = TxData.transfer (pay "hive:alice" (pos 90));
    }
    ∷ record {
      id = "c";
      required_auths = [];
      nonce = none;
      src = TxSource.vsc;
      body = TxData.withdraw (pay "hive:alice" (pos 70));
    }
    ∷ record {
      id = "d";
      required_auths = [];
      nonce = none;
      src = TxSource.vsc;
      body = TxData.call_contract (some "vs4");
    }
    ∷ []

-- The second transfer is refused; the withdrawal takes what is left.
run-block :
    let (_, c) = execute_all funds [] silent block tt start in
    (c.txs ≡ "a" ∷ "c" ∷ [])
    × (c.txs_map ≡ (0 ∷ 1 ∷ []) ∷ (2 ∷ 3 ∷ []) ∷ [])
    × (balance_of funds c "hive:alice" Token.hive ≡ pos 0)
    × (balance_of funds c "hive:bob" Token.hive ≡ pos 30)
unfolding execute_all execute_tx dispatch execute_transfer execute_withdraw get_balance
    validate_balance get_snapshot credit_owner apply_ledger_op apply_ledger_ops record_ops
    transfer_ops withdraw_ops execute_call finish_call lookup insert neg ◌+ℤ◌
run-block = (refl, refl, refl, refl)

lookup_nothing : (k : String) → lookup {V = Tokens} k [] ≡ none
unfolding lookup
lookup_nothing k = refl

start_balance : (id : String) (tk : Token) → balance_of funds start id tk ≡ amount_of (funds id) tk
unfolding lookup
start_balance id tk = refl

start-IsSolvent : IsSolvent funds start
unfolding lookup
start-IsSolvent id tk h = grind arith

start-IsSound : IsSound funds start
unfolding lookup ◌+ℤ◌
start-IsSound = record { reconciled = λ id tk h. grind arith; partitioned = refl; paired = refl }

alice_ne_bob : ◌≢◌ {A = String} "hive:alice" "hive:bob"
alice_ne_bob = ground (arith, eq_iff "hive:alice" "hive:bob")

execute_tx-IsSound_example :
    IsSound funds
      (execute_tx funds [] silent
        (record {
          id = "a";
          required_auths = [];
          nonce = none;
          src = TxSource.vsc;
          body = TxData.transfer (pay "hive:alice" (pos 30));
        })
        tt
        start).2
execute_tx-IsSound_example =
    execute_tx-IsSound funds [] silent
      (record {
        id = "a";
        required_auths = [];
        nonce = none;
        src = TxSource.vsc;
        body = TxData.transfer (pay "hive:alice" (pos 30));
      })
      tt start start-IsSound

block-IsSound_example : IsSound funds (execute_all funds [] silent block tt (init new_context)).1
block-IsSound_example = block-IsSound funds [] silent block tt

abbrev payments : List Tx
payments =
    record {
      id = "a";
      required_auths = [];
      nonce = none;
      src = TxSource.vsc;
      body = TxData.transfer (pay "hive:alice" (pos 30));
    }
    ∷ record {
      id = "c";
      required_auths = [];
      nonce = none;
      src = TxSource.vsc;
      body = TxData.withdraw (pay "hive:alice" (pos 70));
    }
    ∷ []

execute_all-IsSolvent_example : IsSolvent funds (execute_all funds [] silent payments tt start).1
execute_all-IsSolvent_example =
    execute_all-IsSolvent funds silent payments tt start (omega arith) start-IsSolvent

execute_all_conserves_example :
    volume Token.hive (execute_all funds [] silent block tt start).1.ledger ≡ pos 0
execute_all_conserves_example =
    execute_all_conserves funds [] silent block tt start Token.hive (λ v tx m. tt)
