-- ===== src/Vm/Atomicity.antt =====
-- An execution takes effect whole or not at all.
use vsc_node.Prelude.{
  String, ◌≡◌, refl, sym, ◌∙◌, inl, inr, List, [], ◌∷◌, Option, none, some, Bool, true, false, Dict,
  lookup, insert, lookup-insert, IsObject, insert-IsObject, arith, eq_iff, subst, Bool-cases,
  Option-cases, ◌&&◌,
}
use vsc_node.Ledger.Types.{Token, EventOpType, Tokens}
use vsc_node.Vm.State.{
  StateCache, copy_entries, finish_state, revert_state, set_key, del_key, get_key,
}
use vsc_node.Vm.Runner.{
  Intent, DrawArgs, SendArgs, SystemCall, Runner, apply_ledger_op, revert_op, finish_op,
  run_getbalance, post_pair, get_balance_snapshot, post_draw, run_draw, post_send, run_send,
  run_transfer, run_withdraw, run_call, run_calls, execute_call,
}

-- What a contract reads under a key, and what it would read if its writes were dropped.
module _ (stored : String → Option String) where
  unfoldable pub committed : String → StateCache → Option String
  committed key s = elim (lookup key s.state_cache) [ none ↦ stored key | some val ↦ val ]

  unfoldable pub view : String → StateCache → Option String
  view key s = (get_key stored key s).0

  view-committed : (key : String) (s : StateCache) → s.op_cache ≡ [] → view key s ≡ committed key s
  unfolding view committed get_key lookup
  view-committed key s h = ground arith

  committed-get_key :
      (key other : String) (s : StateCache)
      → committed other (get_key stored key s).1 ≡ committed other s
  unfolding committed get_key
  committed-get_key key other s =
      ground (arith, lookup-insert key other (stored key) s.state_cache, eq_iff key other)

  view-revert_op :
      (key : String) (r : Runner) → view key (revert_op r).state ≡ committed key r.state
  unfolding view committed get_key lookup revert_op revert_state
  view-revert_op key r = ground arith

  lookup-copy_entries :
      (key : String) (entries into : Dict (Option String))
      → IsObject entries
      → lookup key (copy_entries entries into)
        ≡ elim (lookup key entries) [ none ↦ lookup key into | some val ↦ some val ]
  unfolding copy_entries lookup IsObject
  lookup-copy_entries key [] into h = refl
  lookup-copy_entries key ((k, val) ∷ entries) into (h, hs) = ground (
    arith,
    lookup-copy_entries key entries (insert k val into) hs,
    lookup-insert k key val into,
    eq_iff k key,
  )

  view-finish_state :
      (key : String) (s : StateCache) → IsObject s.op_cache → view key (finish_state s) ≡ view key s
  unfolding view get_key finish_state lookup
  view-finish_state key s h = ground (arith, lookup-copy_entries key s.op_cache s.state_cache h)

finish_state-op_cache : (s : StateCache) → (finish_state s).op_cache ≡ []
unfolding finish_state
finish_state-op_cache s = refl

empty-IsObject : IsObject {V = Option String} []
unfolding IsObject
empty-IsObject = tt

-- A call that keeps the state of the contract.
abbrev Keeps : Runner → Option Runner → Type 0
Keeps r none = Unit
Keeps r (some r') = r'.state ≡ r.state

module _ (contract_id : String) (intents : List Intent) (stored : String → Option String)
    (direct : String → Tokens) where
  run_draw-Keeps :
      (args : DrawArgs) (r : Runner) → Keeps r (run_draw contract_id intents stored direct args r)
  unfolding run_draw get_balance_snapshot post_draw post_pair apply_ledger_op
  run_draw-Keeps args r = ground arith

  run_send-Keeps :
      (t : EventOpType) (to : Option String) (asset : Option Token) (args : SendArgs) (r : Runner)
      → Keeps r (run_send contract_id intents stored direct t to asset args r)
  unfolding run_send get_balance_snapshot post_send post_pair apply_ledger_op
  run_send-Keeps t none asset args r = refl
  run_send-Keeps t (some to) none args r = refl
  run_send-Keeps t (some to) (some tk) args r = ground arith

  run_getbalance-Keeps :
      (name : String) (r : Runner)
      → Keeps r (run_getbalance contract_id intents stored direct name r)
  unfolding run_getbalance get_balance_snapshot
  run_getbalance-Keeps name r = ground arith

  -- What is committed stays as it is during an execution, and no key is written twice.
  record Stays (r r' : Runner) : Type 0 where
    same : (key : String) → committed stored key r'.state ≡ committed stored key r.state
    object : IsObject r.state.op_cache → IsObject r'.state.op_cache

  abbrev StaysIf : Runner → Option Runner → Type 0
  StaysIf r none = Unit
  StaysIf r (some r') = Stays r r'

  Keeps-StaysIf : (r : Runner) (o : Option Runner) → Keeps r o → StaysIf r o
  Keeps-StaysIf r none h = tt
  Keeps-StaysIf r (some r') h = record { same = λ key. rw h refl; object = λ obj. rw h obj }

  get_key-IsObject :
      (key : String) (s : StateCache)
      → IsObject s.op_cache
      → IsObject (get_key stored key s).1.op_cache
  unfolding get_key
  get_key-IsObject key s h =
      let same : (get_key stored key s).1.op_cache ≡ s.op_cache = ground arith in rw same h

  run_call-StaysIf :
      (call : SystemCall) (r : Runner)
      → StaysIf r (run_call contract_id intents stored direct call r)
  unfolding run_call run_transfer run_withdraw committed set_key del_key revert_op revert_state
      IsObject
  run_call-StaysIf (SystemCall.set_object key val) r = record {
    same = λ other. refl;
    object = λ h. insert-IsObject key val r.state.op_cache h;
  }
  run_call-StaysIf (SystemCall.get_object key) r = record {
    same = λ other. committed-get_key stored key other r.state;
    object = get_key-IsObject key r.state;
  }
  run_call-StaysIf (SystemCall.del_object key) r = record {
    same = λ other. refl;
    object = λ h. insert-IsObject key none r.state.op_cache h;
  }
  run_call-StaysIf SystemCall.revert r = record { same = λ other. refl; object = λ h. tt }
  run_call-StaysIf (SystemCall.getbalance name) r = Keeps-StaysIf r _ (run_getbalance-Keeps name r)
  run_call-StaysIf (SystemCall.draw args) r = Keeps-StaysIf r _ (run_draw-Keeps args r)
  run_call-StaysIf (SystemCall.transfer args) r = Keeps-StaysIf r _ (run_send-Keeps _ _ _ args r)
  run_call-StaysIf (SystemCall.withdraw args) r = Keeps-StaysIf r _ (run_send-Keeps _ _ _ args r)

  run_calls-Stays :
      (calls : List SystemCall) (r : Runner)
      → Stays r (run_calls contract_id intents stored direct calls r).1
  unfolding run_calls
  run_calls-Stays [] r = record { same = λ key. refl; object = λ h. h }
  run_calls-Stays (call ∷ calls) r =
      elim (Option-cases (run_call contract_id intents stored direct call r)) [
        | inl thrown ↦ rw (thrown, run_calls) (record { same = λ key. refl; object = λ h. h })
        | inr (r', ran) ↦
            let first : Stays r r' = subst (StaysIf r) ran (run_call-StaysIf call r) in
            let rest = run_calls-Stays calls r' in
            rw (ran, run_calls)
              (record {
                same = λ key. rest.same key ∙ first.same key;
                object = λ h. rest.object (first.object h);
              })
      ]

  -- An execution that fails, because a call throws or the contract traps, posts no ledger entry,
  -- and leaves every key of the contract's state with the value that it had, wherever in the
  -- sequence of system calls it fails.
  pub execute_call-failed :
      (calls : List SystemCall) (returns : Bool) (r : Runner)
      → r.state.op_cache ≡ []
      → (execute_call contract_id intents stored direct calls returns r).0 ≡ false
      → ((execute_call contract_id intents stored direct calls returns r).1 ≡ [])
        × ((key : String)
            → view stored key
                (execute_call contract_id intents stored direct calls returns r).2.state
              ≡ view stored key r.state)
  unfolding execute_call
  execute_call-failed calls returns r clean h =
      let (ran, r') = run_calls contract_id intents stored direct calls r in
      let stays = run_calls-Stays calls r in
      elim (Bool-cases (ran && returns)) [
        | inl done ↦ ground arith
        | inr failed ↦ rw failed (
          refl,
          λ key.
              view-revert_op stored key r'
              ∙ stays.same key
              ∙ sym (view-committed stored key r.state clean),
        )
      ]

  -- An execution that succeeds posts the entries on the stack, keeps every value that the contract
  -- would read at its end, and leaves no write apart, so that the next execution starts clean.
  pub execute_call-finished :
      (calls : List SystemCall) (returns : Bool) (r : Runner)
      → r.state.op_cache ≡ []
      → (execute_call contract_id intents stored direct calls returns r).0 ≡ true
      → let final = (run_calls contract_id intents stored direct calls r).1 in
        let result = execute_call contract_id intents stored direct calls returns r in
        (result.1 ≡ final.ledger_stack)
        × (result.2.ledger_stack ≡ [])
        × (result.2.state.op_cache ≡ [])
        × ((key : String) → view stored key result.2.state ≡ view stored key final.state)
  unfolding execute_call finish_op
  execute_call-finished calls returns r clean h =
      let (ran, r') = run_calls contract_id intents stored direct calls r in
      let stays = run_calls-Stays calls r in
      elim (Bool-cases (ran && returns)) [
        | inl done ↦ rw done (
          refl,
          refl,
          finish_state-op_cache r'.state,
          λ key. view-finish_state stored key r'.state (stays.object (rw clean empty-IsObject)),
        )
        | inr failed ↦ ground arith
      ]
