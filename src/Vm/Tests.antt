-- ===== src/Vm/Tests.antt =====
-- A contract's execution, run on concrete calls, and the theorems at concrete inputs.
use vsc_node.Prelude.{
  String, ◌≡◌, refl, List, [], ◌∷◌, Option, none, some, true, false, str_eq, if◌then◌else◌, lookup,
  insert,
}
use vsc_node.Prelude.Int.{pos, neg, abs, ◌+ℤ◌}
use vsc_node.Ledger.Types.{Token, EventOpType, Tokens}
use vsc_node.Ledger.Context.{CallOutput, CallResult}
use vsc_node.Ledger.Solvency.{IsBalanced}
use vsc_node.Vm.State.{new_state}
use vsc_node.Vm.Runner.{
  Intent, DrawArgs, SystemCall, Runner, is_token, is_enough, verify_intent, sum_drawn, total_drawn,
  tagged, make_op, post_pair, apply_ledger_op, finish_op, get_balance_snapshot, post_draw, run_draw,
  run_call, run_calls, execute_call,
}
use vsc_node.Vm.Atomicity.{view, execute_call-failed, execute_call-finished}
use vsc_node.Vm.Balance.{execute_call-IsBalanced}

abbrev allowance : List Intent
allowance =
    record { name = "hive.allow_transfer"; token = some Token.hive; limit = some (pos 50) } ∷ []

abbrev kept : String → Option String
kept key = if str_eq key "owner" then some "alice" else none

abbrev rich : String → Tokens
rich account = record { hive_amt = pos 100; hbd_amt = pos 0 }

abbrev draw_30 : DrawArgs
draw_30 = record { from = "hive:alice"; amount = pos 30; asset = Token.hive; tag = none }

abbrev start : Runner
start = record { ledger_stack = []; balance_snapshots = []; state = new_state }

abbrev writes : List SystemCall
writes = SystemCall.set_object "owner" (some "bob") ∷ SystemCall.draw draw_30 ∷ []

run-ledger :
    (execute_call "vs4" allowance kept rich writes true start).1
    ≡ make_op EventOpType.ledger_transfer "hive:alice" Token.hive (neg (pos 30)) none
      ∷ make_op EventOpType.ledger_transfer "vs4" Token.hive (pos 30) none
      ∷ []
unfolding execute_call run_calls run_call run_draw get_balance_snapshot post_draw verify_intent
    is_token is_enough total_drawn sum_drawn tagged post_pair apply_ledger_op make_op finish_op
    lookup insert ◌+ℤ◌ neg abs
run-ledger = refl

-- The contract writes and draws, and then traps.
execute_call-failed_example :
    ((execute_call "vs4" allowance kept rich writes false start).1 ≡ [])
    × ((key : String)
        → view kept key (execute_call "vs4" allowance kept rich writes false start).2.state
          ≡ view kept key start.state)
unfolding execute_call run_calls run_call run_draw get_balance_snapshot lookup new_state
execute_call-failed_example =
    execute_call-failed "vs4" allowance kept rich writes false start refl refl

execute_call-finished_example :
    let final = (run_calls "vs4" allowance kept rich writes start).1 in
    let result = execute_call "vs4" allowance kept rich writes true start in
    (result.1 ≡ final.ledger_stack)
    × (result.2.ledger_stack ≡ [])
    × (result.2.state.op_cache ≡ [])
    × ((key : String) → view kept key result.2.state ≡ view kept key final.state)
unfolding execute_call run_calls run_call run_draw get_balance_snapshot lookup new_state
execute_call-finished_example =
    execute_call-finished "vs4" allowance kept rich writes true start refl refl

abbrev output : CallOutput
output = record { ret = some "ok"; error = none; error_type = none; logs = []; io_gas = 8 }

execute_call-IsBalanced_example :
    IsBalanced
      (CallResult.execute_stop output (execute_call "vs4" allowance kept rich writes true start).1)
execute_call-IsBalanced_example =
    execute_call-IsBalanced "vs4" allowance kept rich writes true start output refl
