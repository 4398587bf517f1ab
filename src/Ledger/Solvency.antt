-- ===== src/Ledger/Solvency.antt =====
-- What a block does to the accounts together: no balance falls below zero, and the events of each
-- token add up to zero.
use vsc_node.Prelude.{
  if-holds, String, ◌≡◌, refl, ◌∙◌, inl, inr, List, [], ◌∷◌, none, some, true, Dict, lookup, arith,
  Bool-cases,
}
use vsc_node.Prelude.Int.{ℤ, pos, ◌+ℤ◌, int_laws}
use vsc_node.Ledger.Types.{Token, EventOp, Tokens, credited}
use vsc_node.Ledger.Context.{
  Tx, TxData, Payload, CallResult, Outcome, Context, transfer_ops, withdraw_ops, execute_transfer,
  execute_withdraw, finish_call, execute_call, dispatch, execute_tx, execute_all,
}
use vsc_node.Ledger.Balances.{balance_of}
use vsc_node.Ledger.Posting.{IsExternal, record_ops-Posts}
use vsc_node.Ledger.Execution.{Ends, execute_transfer-Ends, execute_withdraw-Ends}
use Prim.Native.String.{◌++◌ as cat}
use vsc_node.Prelude.{subst, All, str_eq, eq_iff}
use vsc_node.Prelude.Int.{neg, ◌≤ℤ◌, +ℤ_zero}
use vsc_node.Ledger.Types.{volume, volume-append, token_eq}
use vsc_node.Ledger.Balances.{get_balance-eq}
use vsc_node.Ledger.Transfers.{transfer_conserves, withdraw_conserves, paid_balances, if_same}
use vsc_node.Ledger.Context.{push_result}

-- No external account is in debt.
abbrev pub IsSolvent : (String → Tokens) → Context → Type 0
IsSolvent snapshot c =
    (id : String) (tk : Token) → IsExternal id → pos 0 ≤ℤ balance_of snapshot c id tk

-- The events that a contract call reports add up to zero in each token.
abbrev pub IsBalanced : CallResult → Type 0
IsBalanced CallResult.timeout = Unit
IsBalanced (CallResult.execute_stop out events) = (tk : Token) → volume tk events ≡ pos 0

token_eq→eq : (a b : Token) → token_eq a b ≡ true → a ≡ b
token_eq→eq Token.hive Token.hive h = refl
token_eq→eq Token.hbd Token.hbd h = refl
token_eq→eq Token.hive Token.hbd h = cc
token_eq→eq Token.hbd Token.hive h = cc

-- A debit that the sender's balance covers leaves every balance at zero or more.
debit_covered :
    (p : Payload) (i : String) (tk : Token) (b : ℤ)
    → pos 0 ≤ℤ p.amount
    → pos 0 ≤ℤ b
    → (p.from ≡ i → p.tk ≡ tk → p.amount ≤ℤ b)
    → pos 0 ≤ℤ b +ℤ credited i tk (transfer_ops p)
unfolding transfer_ops
debit_covered p i tk b ha hb cover = elim (Bool-cases (token_eq p.tk tk)) [
  | inl t ↦ elim (Bool-cases (str_eq p.from i)) [
    | inl f ↦
        let c : p.amount ≤ℤ b = cover ((eq_iff p.from i).0 f) (token_eq→eq p.tk tk t) in
        rw (t, f)
          (if-holds (λ x. pos 0 ≤ℤ b +ℤ (neg p.amount +ℤ (x +ℤ pos 0))) (str_eq p.to i)
            (omega int_laws) (omega int_laws))
    | inr f ↦
        rw (t, f)
          (if-holds (λ x. pos 0 ≤ℤ b +ℤ (pos 0 +ℤ (x +ℤ pos 0))) (str_eq p.to i) (omega int_laws)
            (omega int_laws))
  ]
  | inr t ↦
      rw (t, if_same (str_eq p.from i) (pos 0), if_same (str_eq p.to i) (pos 0)) (omega int_laws)
]

debit_covered_withdraw :
    (p : Payload) (i : String) (tk : Token) (b : ℤ)
    → pos 0 ≤ℤ p.amount
    → pos 0 ≤ℤ b
    → (p.from ≡ i → p.tk ≡ tk → p.amount ≤ℤ b)
    → pos 0 ≤ℤ b +ℤ credited i tk (withdraw_ops p)
unfolding withdraw_ops transfer_ops
debit_covered_withdraw p i tk b ha hb cover =
    debit_covered (record p { to = cat "#withdraw?to=" p.to }) i tk b ha hb cover

module _ (snapshot : String → Tokens) (mock : Dict Tokens) where
  Ends-IsSolvent :
      (id : String) (p : Payload) (ops : List EventOp) (c : Context) (r : Outcome × Context)
      → ((i : String) (tk : Token) (b : ℤ)
          → pos 0 ≤ℤ b
          → (p.from ≡ i → p.tk ≡ tk → p.amount ≤ℤ b)
          → pos 0 ≤ℤ b +ℤ credited i tk ops)
      → lookup p.from mock ≡ none
      → Ends snapshot mock id p ops c r
      → IsSolvent snapshot c
      → IsSolvent snapshot r.1
  Ends-IsSolvent id p ops c r covered m (c', same, inl (fits, e)) s = rw e λ i tk h.
      rw (paid_balances snapshot mock id ops c c' i tk same h) (
        covered i tk _ (s i tk h) λ f t.
          subst (λ u. p.amount ≤ℤ balance_of snapshot c i u) t
            (subst (λ x. p.amount ≤ℤ balance_of snapshot c x p.tk) f
              (ground (arith, get_balance-eq snapshot mock p.from p.tk c m))))
  Ends-IsSolvent id p ops c r covered m (c', same, inr (_, e)) s =
      rw e λ i tk h. rw (same.balances i tk) (s i tk h)

  -- A transfer of an amount that is not negative leaves no external account in debt, whichever way
  -- it ends, if none was before.
  pub transfer-IsSolvent :
      (id : String) (p : Payload) (c : Context)
      → lookup p.from mock ≡ none
      → pos 0 ≤ℤ p.amount
      → IsSolvent snapshot c
      → IsSolvent snapshot (execute_transfer snapshot mock id p c).1
  transfer-IsSolvent id p c m ha s =
      Ends-IsSolvent id p _ c _ (λ i tk b. debit_covered p i tk b ha) m
        (execute_transfer-Ends snapshot mock id p c) s

  pub withdraw-IsSolvent :
      (id : String) (p : Payload) (c : Context)
      → lookup p.from mock ≡ none
      → pos 0 ≤ℤ p.amount
      → IsSolvent snapshot c
      → IsSolvent snapshot (execute_withdraw snapshot mock id p c).1
  withdraw-IsSolvent id p c m ha s =
      Ends-IsSolvent id p _ c _ (λ i tk b. debit_covered_withdraw p i tk b ha) m
        (execute_withdraw-Ends snapshot mock id p c) s

-- A transfer or withdrawal of an amount that is not negative, or an operation that moves nothing.
abbrev pub IsPayment : TxData → Type 0
IsPayment (TxData.call_contract contract_id) = ⊥
IsPayment (TxData.transfer p) = pos 0 ≤ℤ p.amount
IsPayment (TxData.withdraw p) = pos 0 ≤ℤ p.amount
IsPayment TxData.other = Unit

module _ (snapshot : String → Tokens) {Vm : Type 0}
    (process_tx : Vm → Tx → Dict Tokens → CallResult × Vm) where
  no_mock : (k : String) → lookup {V = Tokens} k [] ≡ none
  unfolding lookup
  no_mock k = refl

  dispatch-IsSolvent :
      (body : TxData) (tx : Tx) (vm : Vm) (c : Context)
      → IsPayment body
      → IsSolvent snapshot c
      → IsSolvent snapshot (dispatch snapshot [] process_tx body tx vm c).2
  unfolding dispatch
  dispatch-IsSolvent (TxData.call_contract k) tx vm c h s = absurd h
  dispatch-IsSolvent (TxData.transfer p) tx vm c h s =
      transfer-IsSolvent snapshot [] tx.id p c (no_mock p.from) h s
  dispatch-IsSolvent (TxData.withdraw p) tx vm c h s =
      withdraw-IsSolvent snapshot [] tx.id p c (no_mock p.from) h s
  dispatch-IsSolvent TxData.other tx vm c h s = s

  -- A block of transfers and withdrawals, none of a negative amount, leaves no external account in
  -- debt if none was before, whatever their order and whichever of them are refused.
  pub execute_all-IsSolvent :
      (txs : List Tx) (vm : Vm) (c : Context)
      → All (λ (tx : Tx). IsPayment tx.body) txs
      → IsSolvent snapshot c
      → IsSolvent snapshot (execute_all snapshot [] process_tx txs vm c).1
  unfolding execute_all execute_tx
  execute_all-IsSolvent [] vm c h s = s
  execute_all-IsSolvent (tx ∷ txs) vm c (h, hs) s = execute_all-IsSolvent txs _ _ hs (
      if-holds {Res = Outcome × Vm × Context} (λ r. IsSolvent snapshot r.2) c.initialized
        (dispatch-IsSolvent tx.body tx vm c h s) s)

module _ (snapshot : String → Tokens) (mock : Dict Tokens) {Vm : Type 0}
    (process_tx : Vm → Tx → Dict Tokens → CallResult × Vm) where
  volume-finish_call :
      (id contract_id : String) (r : CallResult) (c : Context) (tk : Token)
      → IsBalanced r
      → volume tk (finish_call snapshot id contract_id r c).ledger ≡ volume tk c.ledger
  unfolding finish_call
  volume-finish_call id contract_id CallResult.timeout c tk h = refl
  volume-finish_call id contract_id (CallResult.execute_stop out events) c tk h =
      let (q, _, _, _) = record_ops-Posts snapshot id events (record c {
        results = push_result contract_id (record { id = id; result = out }) c.results;
      }) in
      rw (q.appended, volume-append, h tk) (+ℤ_zero _)

  volume-dispatch :
      (body : TxData) (tx : Tx) (vm : Vm) (c : Context) (tk : Token)
      → IsBalanced (process_tx vm tx c.balances).0
      → volume tk (dispatch snapshot mock process_tx body tx vm c).2.ledger ≡ volume tk c.ledger
  unfolding dispatch execute_call
  volume-dispatch (TxData.call_contract none) tx vm c tk h = refl
  volume-dispatch (TxData.call_contract (some k)) tx vm c tk h = volume-finish_call tx.id k _ c tk h
  volume-dispatch (TxData.transfer p) tx vm c tk h = transfer_conserves snapshot mock tx.id p c tk
  volume-dispatch (TxData.withdraw p) tx vm c tk h = withdraw_conserves snapshot mock tx.id p c tk
  volume-dispatch TxData.other tx vm c tk h = refl

  -- If the contract calls report balanced events, then the execution of a block, whatever its
  -- transactions, leaves the total of the ledger in each token as it was: no token is made or lost.
  pub execute_all_conserves :
      (txs : List Tx) (vm : Vm) (c : Context) (tk : Token)
      → ((v : Vm) (tx : Tx) (m : Dict Tokens) → IsBalanced (process_tx v tx m).0)
      → volume tk (execute_all snapshot mock process_tx txs vm c).1.ledger ≡ volume tk c.ledger
  unfolding execute_all execute_tx
  execute_all_conserves [] vm c tk h = refl
  execute_all_conserves (tx ∷ txs) vm c tk h =
      execute_all_conserves txs _ _ tk h
      ∙ if-holds {Res = Outcome × Vm × Context} (λ r. volume tk r.2.ledger ≡ volume tk c.ledger)
          c.initialized (volume-dispatch tx.body tx vm c tk (h vm tx c.balances)) refl
