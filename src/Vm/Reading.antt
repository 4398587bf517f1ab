-- ===== src/Vm/Reading.antt =====
-- A balance that an execution has read cannot be read again.
use vsc_node.Prelude.{
  String, ◌≡◌, refl, ap, inl, inr, List, ◌∷◌, Option, none, some, Bool, false, lookup, insert,
  lookup-insert_self, Option-cases, if-holds, ◌>>=◌,
}
use vsc_node.Ledger.Types.{Tokens}
use vsc_node.Vm.Runner.{
  Intent, DrawArgs, SystemCall, Runner, apply_ledger_op, post_pair, get_balance_snapshot, post_draw,
  run_draw, run_call, run_calls, execute_call,
}

module _ (contract_id : String) (intents : List Intent) (stored : String → Option String)
    (direct : String → Tokens) where
  -- The runner once a balance is read for the first time.
  abbrev after_read : String → Runner → Runner
  after_read account r = record r {
    balance_snapshots = insert account (direct account) r.balance_snapshots;
  }

  read-known :
      (account : String) (r : Runner) (b : Tokens)
      → lookup account r.balance_snapshots ≡ some b
      → get_balance_snapshot contract_id intents stored direct account r ≡ none
  unfolding get_balance_snapshot
  read-known account r b h = rw (h, get_balance_snapshot) refl

  read-new :
      (account : String) (r : Runner)
      → lookup account r.balance_snapshots ≡ none
      → get_balance_snapshot contract_id intents stored direct account r
        ≡ some (direct account, after_read account r)
  unfolding get_balance_snapshot
  read-new account r h = rw (h, get_balance_snapshot) refl

  run_draw-known :
      (args : DrawArgs) (r : Runner) (b : Tokens)
      → lookup args.from r.balance_snapshots ≡ some b
      → run_call contract_id intents stored direct (SystemCall.draw args) r ≡ none
  unfolding run_call run_draw
  run_draw-known args r b h =
      ap
        (λ (o : Option (Tokens × Runner)).
          o >>= (λ read. some (post_draw contract_id intents stored direct args read.0 read.1)))
        (read-known args.from r b h)

  run_draw-new :
      (args : DrawArgs) (r : Runner)
      → lookup args.from r.balance_snapshots ≡ none
      → run_call contract_id intents stored direct (SystemCall.draw args) r
        ≡ some (
            post_draw contract_id intents stored direct args
              (direct args.from)
              (after_read args.from r))
  unfolding run_call run_draw
  run_draw-new args r h =
      ap
        (λ (o : Option (Tokens × Runner)).
          o >>= (λ read. some (post_draw contract_id intents stored direct args read.0 read.1)))
        (read-new args.from r h)

  post_draw-snapshots :
      (args : DrawArgs) (b : Tokens) (r : Runner)
      → (post_draw contract_id intents stored direct args b r).balance_snapshots
        ≡ r.balance_snapshots
  unfolding post_draw post_pair apply_ledger_op
  post_draw-snapshots args b r =
      if-holds (λ (r' : Runner). r'.balance_snapshots ≡ r.balance_snapshots) _ refl refl

  run_calls-thrown :
      (call : SystemCall) (calls : List SystemCall) (r : Runner)
      → run_call contract_id intents stored direct call r ≡ none
      → (run_calls contract_id intents stored direct (call ∷ calls) r).0 ≡ false
  unfolding run_calls
  run_calls-thrown call calls r h = rw (h, run_calls) refl

  run_calls-ran :
      (call : SystemCall) (calls : List SystemCall) (r r' : Runner)
      → run_call contract_id intents stored direct call r ≡ some r'
      → run_calls contract_id intents stored direct (call ∷ calls) r
        ≡ run_calls contract_id intents stored direct calls r'
  unfolding run_calls
  run_calls-ran call calls r r' h = rw (h, run_calls) refl

  run_calls_draw_twice :
      (first second : DrawArgs) (calls : List SystemCall) (r : Runner)
      → first.from ≡ second.from
      → (run_calls contract_id intents stored direct
          (SystemCall.draw first ∷ SystemCall.draw second ∷ calls)
          r).0
        ≡ false
  run_calls_draw_twice first second calls r same =
      let rest = SystemCall.draw second ∷ calls in
      elim (Option-cases (lookup first.from r.balance_snapshots)) [
        | inl new ↦
            let r₁ = after_read first.from r in
            let r₂ = post_draw contract_id intents stored direct first (direct first.from) r₁ in
            let there : lookup second.from r₂.balance_snapshots ≡ some (direct first.from) =
              rw (← same, post_draw-snapshots first (direct first.from) r₁)
                (lookup-insert_self first.from (direct first.from) r.balance_snapshots) in
            rw (run_calls-ran (SystemCall.draw first) rest r r₂ (run_draw-new first r new)) (
              run_calls-thrown (SystemCall.draw second) calls r₂
                (run_draw-known second r₂ (direct first.from) there))
        | inr (b, known) ↦
            run_calls-thrown (SystemCall.draw first) rest r (run_draw-known first r b known)
      ]

  -- Two draws from one account make the execution fail, whatever the amounts and the calls that
  -- follow: the balance that the first has kept cannot be read again.
  pub execute_call_draw_twice :
      (first second : DrawArgs) (calls : List SystemCall) (returns : Bool) (r : Runner)
      → first.from ≡ second.from
      → (execute_call contract_id intents stored direct
          (SystemCall.draw first ∷ SystemCall.draw second ∷ calls)
          returns
          r).0
        ≡ false
  unfolding execute_call
  execute_call_draw_twice first second calls returns r same =
      rw (run_calls_draw_twice first second calls r same) refl
