-- ===== src/Vm/Balance.antt =====
-- The ledger of an execution creates no tokens.
use vsc_node.Prelude.{
  String, ◌≡◌, refl, ap, ◌∙◌, inl, inr, List, [], ◌∷◌, ◌++◌, Option, none, some, Bool, lookup,
  Bool-cases, Option-cases, if-holds, ◌&&◌, ◌>>=◌, subst,
}
use vsc_node.Prelude.Int.{ℤ, pos, ◌+ℤ◌, neg, int_laws, zero_+ℤ}
use vsc_node.Ledger.Types.{Token, EventOpType, EventOp, Tokens, token_eq, volume, volume-append}
use vsc_node.Ledger.Context.{CallOutput, CallResult}
use vsc_node.Ledger.Solvency.{IsBalanced}
use vsc_node.Vm.Runner.{
  Intent, DrawArgs, SendArgs, SystemCall, Runner, make_op, tagged, apply_ledger_op, revert_op,
  run_getbalance, finish_op, post_pair, get_balance_snapshot, post_draw, run_draw, post_send,
  run_send, run_transfer, run_withdraw, run_call, run_calls, execute_call,
}

-- The entries on the stack cancel out, in each token.
abbrev IsEven : Runner → Type 0
IsEven r = (tk : Token) → volume tk r.ledger_stack ≡ pos 0

volume_pair :
    (t u : Token) (a b : EventOp)
    → a.tk ≡ t
    → b.tk ≡ t
    → a.amt ≡ neg b.amt
    → volume u (a ∷ []) +ℤ volume u (b ∷ []) ≡ pos 0
volume_pair t u a b ha hb h = elim (Bool-cases (token_eq t u)) [
  | inl same ↦ rw (ha, hb, h, same) (omega int_laws)
  | inr other ↦ rw (ha, hb, other) (omega int_laws)
]

post_pair-IsEven :
    (t : EventOpType) (from to : String) (tk : Token) (amount : ℤ) (memo : Option String)
    (r : Runner)
    → IsEven r
    → IsEven (post_pair t from to tk amount memo r)
unfolding post_pair apply_ledger_op make_op
post_pair-IsEven t from to tk amount memo r h u =
    let debit = make_op t from tk (neg amount) none in
    let credit = make_op t to tk amount memo in
    volume-append u (r.ledger_stack ++ debit ∷ []) (credit ∷ [])
    ∙ rw (volume-append u r.ledger_stack (debit ∷ []), h u)
        (ap (λ x. x +ℤ volume u (credit ∷ [])) (zero_+ℤ (volume u (debit ∷ [])))
          ∙ volume_pair tk u debit credit refl refl refl)

module _ (contract_id : String) (intents : List Intent) (stored : String → Option String)
    (direct : String → Tokens) where
  abbrev EvenIf : Option Runner → Type 0
  EvenIf none = Unit
  EvenIf (some r) = IsEven r

  abbrev ReadEven : Option (Tokens × Runner) → Type 0
  ReadEven none = Unit
  ReadEven (some (b, r)) = IsEven r

  read-IsEven :
      (account : String) (r : Runner)
      → IsEven r
      → ReadEven (get_balance_snapshot contract_id intents stored direct account r)
  unfolding get_balance_snapshot
  read-IsEven account r h = elim (Option-cases (lookup account r.balance_snapshots)) [
    | inl new ↦ rw (new, get_balance_snapshot) h
    | inr (b, known) ↦ rw (known, get_balance_snapshot) tt
  ]

  post-IsEven :
      (o : Option (Tokens × Runner)) (post : Tokens → Runner → Runner)
      → ((b : Tokens) (r : Runner) → IsEven r → IsEven (post b r))
      → ReadEven o
      → EvenIf (o >>= (λ read. some (post read.0 read.1)))
  post-IsEven none post keeps h = tt
  post-IsEven (some (b, r)) post keeps h = keeps b r h

  post_draw-IsEven :
      (args : DrawArgs) (b : Tokens) (r : Runner)
      → IsEven r
      → IsEven (post_draw contract_id intents stored direct args b r)
  unfolding post_draw
  post_draw-IsEven args b r h = if-holds IsEven _ (post_pair-IsEven _ _ _ _ _ _ r h) h

  post_send-IsEven :
      (t : EventOpType) (to : String) (tk : Token) (args : SendArgs) (b : Tokens) (r : Runner)
      → IsEven r
      → IsEven (post_send contract_id intents stored direct t to tk args b r)
  unfolding post_send
  post_send-IsEven t to tk args b r h = if-holds IsEven _ (post_pair-IsEven _ _ _ _ _ _ r h) h

  run_draw-IsEven :
      (args : DrawArgs) (r : Runner)
      → IsEven r
      → EvenIf (run_draw contract_id intents stored direct args r)
  unfolding run_draw
  run_draw-IsEven args r h =
      post-IsEven _ (post_draw contract_id intents stored direct args) (post_draw-IsEven args)
        (read-IsEven args.from r h)

  run_send-IsEven :
      (t : EventOpType) (to : Option String) (asset : Option Token) (args : SendArgs) (r : Runner)
      → IsEven r
      → EvenIf (run_send contract_id intents stored direct t to asset args r)
  unfolding run_send
  run_send-IsEven t none asset args r h = h
  run_send-IsEven t (some to) none args r h = h
  run_send-IsEven t (some to) (some tk) args r h =
      post-IsEven _ (post_send contract_id intents stored direct t to tk args)
        (post_send-IsEven t to tk args) (read-IsEven (tagged contract_id args.from_tag) r h)

  run_call-IsEven :
      (call : SystemCall) (r : Runner)
      → IsEven r
      → EvenIf (run_call contract_id intents stored direct call r)
  unfolding run_call run_getbalance run_transfer run_withdraw revert_op
  run_call-IsEven (SystemCall.set_object key val) r h = h
  run_call-IsEven (SystemCall.get_object key) r h = h
  run_call-IsEven (SystemCall.del_object key) r h = h
  run_call-IsEven SystemCall.revert r h = λ tk. refl
  run_call-IsEven (SystemCall.getbalance name) r h =
      post-IsEven _ (λ b s. s) (λ b s even. even) (read-IsEven name r h)
  run_call-IsEven (SystemCall.draw args) r h = run_draw-IsEven args r h
  run_call-IsEven (SystemCall.transfer args) r h = run_send-IsEven _ _ _ args r h
  run_call-IsEven (SystemCall.withdraw args) r h = run_send-IsEven _ _ _ args r h

  run_calls-IsEven :
      (calls : List SystemCall) (r : Runner)
      → IsEven r
      → IsEven (run_calls contract_id intents stored direct calls r).1
  unfolding run_calls
  run_calls-IsEven [] r h = h
  run_calls-IsEven (call ∷ calls) r h =
      elim (Option-cases (run_call contract_id intents stored direct call r)) [
        | inl thrown ↦ rw (thrown, run_calls) h
        | inr (r', ran) ↦
            rw (ran, run_calls)
              (run_calls-IsEven calls r' (subst EvenIf ran (run_call-IsEven call r h)))
      ]

  -- Whatever system calls a contract makes, and however it stops, the ledger that the execution
  -- hands to TxContext is balanced: the amounts of each token add up to zero. This is what the
  -- conservation of a block asks of the VM.
  pub execute_call-IsBalanced :
      (calls : List SystemCall) (returns : Bool) (r : Runner) (out : CallOutput)
      → r.ledger_stack ≡ []
      → IsBalanced (
          CallResult.execute_stop out
            (execute_call contract_id intents stored direct calls returns r).1)
  unfolding execute_call finish_op
  execute_call-IsBalanced calls returns r out clean =
      let (ran, r') = run_calls contract_id intents stored direct calls r in
      if-holds {Res = Bool × List EventOp × Runner}
        (λ result. (tk : Token) → volume tk result.1 ≡ pos 0) (ran && returns)
        (run_calls-IsEven calls r (λ tk. rw clean refl)) (λ tk. refl)
