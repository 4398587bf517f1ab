-- ===== src/Ledger/Transfers.antt =====
-- Transfers and withdrawals: what moves, what is refused, and what the code lets through.
use vsc_node.Prelude.{
  ◌⊎◌, ℕ, ◌+◌, String, ◌≡◌, refl, sym, ap, ◌∙◌, inl, inr, List, none, Bool, true, false, Dict,
  lookup, if◌then◌else◌, arith, Bool-cases,
}
use vsc_node.Prelude.Int.{ℤ, pos, leb_ℤ, ◌+ℤ◌, int_laws}
use vsc_node.Ledger.Types.{Token, EventOp, Tokens, credited}
use vsc_node.Ledger.Context.{
  Tx, TxData, Payload, CallResult, Outcome, Context, record_ops, transfer_ops, withdraw_ops,
  execute_transfer, execute_withdraw, dispatch, execute_tx,
}
use vsc_node.Ledger.Balances.{balance_of}
use vsc_node.Ledger.Posting.{IsExternal, record_ops-Posts, record_ops-internal}
use vsc_node.Ledger.Soundness.{Same}
use vsc_node.Ledger.Execution.{Ends, execute_transfer-Ends, execute_withdraw-Ends}
use vsc_node.Prelude.{subst, str_eq, eq_refl, str_eq_ne, ◌≢◌, starts_with}
use vsc_node.Prelude.Int.{neg, ◌≤ℤ◌, +ℤ_zero, negsuc}
use vsc_node.Ledger.Types.{volume, volume-append, token_eq}
use vsc_node.Ledger.Balances.{get_balance-eq}

≤ℤ→leb_ℤ : (a b : ℤ) → a ≤ℤ b → leb_ℤ a b ≡ true
≤ℤ→leb_ℤ a b h = ground arith

¬≤ℤ→leb_ℤ : (a b : ℤ) → ¬ (a ≤ℤ b) → leb_ℤ a b ≡ false
¬≤ℤ→leb_ℤ a b h = ground arith

token_eq_refl : (tk : Token) → token_eq tk tk ≡ true
token_eq_refl Token.hive = refl
token_eq_refl Token.hbd = refl

pub if_same : (b : Bool) (x : ℤ) → (if b then x else x) ≡ x
if_same true x = refl
if_same false x = refl

credited_from : (p : Payload) → p.from ≢ p.to → credited p.from p.tk (transfer_ops p) ≡ neg p.amount
unfolding transfer_ops
credited_from p ne =
    rw (eq_refl p.from, token_eq_refl p.tk, str_eq_ne p.to p.from (λ e. ne (sym e)))
      (omega int_laws)

credited_to : (p : Payload) → p.from ≢ p.to → credited p.to p.tk (transfer_ops p) ≡ p.amount
unfolding transfer_ops
credited_to p ne = rw (str_eq_ne p.from p.to ne, eq_refl p.to, token_eq_refl p.tk) (omega int_laws)

credited_bystander :
    (p : Payload) (i : String) (tk : Token)
    → ((i ≢ p.from) × (i ≢ p.to)) ⊎ (token_eq p.tk tk ≡ false)
    → credited i tk (transfer_ops p) ≡ pos 0
unfolding transfer_ops
credited_bystander p i tk (inl (nf, nt)) =
    rw (str_eq_ne p.from i (λ e. nf (sym e)), str_eq_ne p.to i (λ e. nt (sym e))) (omega int_laws)
credited_bystander p i tk (inr h) =
    rw (h, if_same (str_eq p.from i) (pos 0), if_same (str_eq p.to i) (pos 0)) (omega int_laws)

module _ (snapshot : String → Tokens) (mock : Dict Tokens) where
  -- A transfer or withdrawal that its sender can pay for posts its events.
  pub paid :
      (id : String) (p : Payload) (ops : List EventOp) (c : Context) (r : Outcome × Context)
      → lookup p.from mock ≡ none
      → p.amount ≤ℤ balance_of snapshot c p.from p.tk
      → Ends snapshot mock id p ops c r
      → (c' : Context) × Same snapshot c c' × (r ≡ (Outcome.ok true, record_ops snapshot id ops c'))
  paid id p ops c r m h (c', same, inl (_, e)) = (c', same, e)
  paid id p ops c r m h (c', same, inr (short, e)) =
      absurd (ground (arith, get_balance-eq snapshot mock p.from p.tk c m))

  -- The balances after a paid transaction are those before it and the credits of its events.
  pub paid_balances :
      (id : String) (ops : List EventOp) (c c' : Context) (i : String) (tk : Token)
      → Same snapshot c c'
      → IsExternal i
      → balance_of snapshot (record_ops snapshot id ops c') i tk
        ≡ balance_of snapshot c i tk +ℤ credited i tk ops
  paid_balances id ops c c' i tk same h =
      let (p, _, _, _) = record_ops-Posts snapshot id ops c' in
      p.moved i tk h ∙ ap (λ x. x +ℤ credited i tk ops) (same.balances i tk)

  -- A transfer between two external accounts that the sender's balance covers succeeds: the amount
  -- moves from the sender to the recipient, and no other balance changes.
  pub transfer_moves :
      (id : String) (p : Payload) (c : Context)
      → lookup p.from mock ≡ none
      → IsExternal p.from
      → IsExternal p.to
      → p.from ≢ p.to
      → p.amount ≤ℤ balance_of snapshot c p.from p.tk
      → let (o, d) = execute_transfer snapshot mock id p c in
        (o ≡ Outcome.ok true)
        × (balance_of snapshot d p.from p.tk ≡ balance_of snapshot c p.from p.tk +ℤ neg p.amount)
        × (balance_of snapshot d p.to p.tk ≡ balance_of snapshot c p.to p.tk +ℤ p.amount)
        × ((i : String) (tk : Token)
            → IsExternal i
            → ((i ≢ p.from) × (i ≢ p.to)) ⊎ (token_eq p.tk tk ≡ false)
            → balance_of snapshot d i tk ≡ balance_of snapshot c i tk)
  transfer_moves id p c m hf ht ne h =
      let (c', same, e) = paid id p _ c _ m h (execute_transfer-Ends snapshot mock id p c) in
      rw e (
        refl,
        paid_balances id _ c c' p.from p.tk same hf
            ∙ ap (λ x. balance_of snapshot c p.from p.tk +ℤ x) (credited_from p ne),
        paid_balances id _ c c' p.to p.tk same ht
            ∙ ap (λ x. balance_of snapshot c p.to p.tk +ℤ x) (credited_to p ne),
        λ i tk hi other.
            paid_balances id _ c c' i tk same hi
            ∙ ap (λ x. balance_of snapshot c i tk +ℤ x) (credited_bystander p i tk other)
            ∙ +ℤ_zero _,
      )

  -- A transfer of more than the sender's balance is refused: no balance and no event changes.
  pub transfer_refused :
      (id : String) (p : Payload) (c : Context)
      → lookup p.from mock ≡ none
      → ¬ (p.amount ≤ℤ balance_of snapshot c p.from p.tk)
      → let (o, d) = execute_transfer snapshot mock id p c in
        (o ≡ Outcome.ok false)
        × (d.ledger ≡ c.ledger)
        × (d.txs ≡ c.txs)
        × ((i : String) (tk : Token) → balance_of snapshot d i tk ≡ balance_of snapshot c i tk)
  transfer_refused id p c m h = refused (execute_transfer-Ends snapshot mock id p c)
    where
      refused :
          Ends snapshot mock id p (transfer_ops p) c (execute_transfer snapshot mock id p c)
          → let (o, d) = execute_transfer snapshot mock id p c in
            (o ≡ Outcome.ok false)
            × (d.ledger ≡ c.ledger)
            × (d.txs ≡ c.txs)
            × ((i : String) (tk : Token) → balance_of snapshot d i tk ≡ balance_of snapshot c i tk)
      refused (c', same, inl (fits, e)) =
          absurd (ground (arith, get_balance-eq snapshot mock p.from p.tk c m))
      refused (c', same, inr (_, e)) = rw e (refl, same.ledger, same.txs, same.balances)

  -- The events of a transfer or a withdrawal add up to zero in each token, so whether it succeeds
  -- or not the ledger's total in each token stays as it was.
  pub ops_volume :
      (p : Payload) (tk : Token)
      → (volume tk (transfer_ops p) ≡ pos 0) × (volume tk (withdraw_ops p) ≡ pos 0)
  unfolding transfer_ops withdraw_ops
  ops_volume p tk = elim (Bool-cases (token_eq p.tk tk)) [
    | inl e ↦ rw e (omega int_laws, omega int_laws)
    | inr e ↦ rw e (omega int_laws, omega int_laws)
  ]

  Ends-volume :
      (id : String) (p : Payload) (ops : List EventOp) (c : Context) (r : Outcome × Context)
      → Ends snapshot mock id p ops c r
      → (tk : Token) → volume tk ops ≡ pos 0
      → volume tk r.1.ledger ≡ volume tk c.ledger
  Ends-volume id p ops c r (c', same, inl (_, e)) tk z =
      let (q, _, _, _) = record_ops-Posts snapshot id ops c' in
      rw (e, q.appended, volume-append, z, same.ledger) (+ℤ_zero _)
  Ends-volume id p ops c r (c', same, inr (_, e)) tk z = rw (e, same.ledger)

  pub transfer_conserves :
      (id : String) (p : Payload) (c : Context) (tk : Token)
      → volume tk (execute_transfer snapshot mock id p c).1.ledger ≡ volume tk c.ledger
  transfer_conserves id p c tk =
      Ends-volume id p _ c _ (execute_transfer-Ends snapshot mock id p c) tk (ops_volume p tk).0

  pub withdraw_conserves :
      (id : String) (p : Payload) (c : Context) (tk : Token)
      → volume tk (execute_withdraw snapshot mock id p c).1.ledger ≡ volume tk c.ledger
  withdraw_conserves id p c tk =
      Ends-volume id p _ c _ (execute_withdraw-Ends snapshot mock id p c) tk (ops_volume p tk).1

  -- A transfer of a negative amount needs no more than a debt of that size from its sender, whose
  -- balance it raises: it takes the amount from the recipient, whose balance is never looked at.
  pub negative_transfer_draws :
      (id : String) (p : Payload) (n : ℕ) (c : Context)
      → lookup p.from mock ≡ none
      → IsExternal p.from
      → IsExternal p.to
      → p.from ≢ p.to
      → p.amount ≡ negsuc n
      → pos 0 ≤ℤ balance_of snapshot c p.from p.tk
      → let (o, d) = execute_transfer snapshot mock id p c in
        (o ≡ Outcome.ok true)
        × (balance_of snapshot d p.from p.tk ≡ balance_of snapshot c p.from p.tk +ℤ pos (n + 1))
        × (balance_of snapshot d p.to p.tk +ℤ pos (n + 1) ≡ balance_of snapshot c p.to p.tk)
  negative_transfer_draws id p n c m hf ht ne e h =
      let (o, a, b, _) = transfer_moves id p c m hf ht ne (rw e (omega arith)) in
      let amt : neg p.amount ≡ pos (n + 1) = rw e (omega int_laws) in
      (o, a ∙ rw amt, rw (b, e) (omega int_laws))

  -- A transfer from an internal address (`#…`) is not debited: if it succeeds once, then the same
  -- transfer succeeds again on the context that it leaves.
  pub internal_spends_twice :
      (id : String) (p : Payload) (c : Context)
      → lookup p.from mock ≡ none
      → starts_with p.from "#" ≡ true
      → p.amount ≤ℤ balance_of snapshot c p.from p.tk
      → let (o, d) = execute_transfer snapshot mock id p c in
        (o ≡ Outcome.ok true) × ((execute_transfer snapshot mock id p d).0 ≡ Outcome.ok true)
  internal_spends_twice id p c m hi h =
      let (c', same, e) = paid id p _ c _ m h (execute_transfer-Ends snapshot mock id p c) in
      let d = record_ops snapshot id (transfer_ops p) c' in
      let kept : balance_of snapshot d p.from p.tk ≡ balance_of snapshot c p.from p.tk =
        record_ops-internal snapshot id (transfer_ops p) c' p.from p.tk hi
        ∙ same.balances p.from p.tk in
      let (d', _, e') =
        paid id p _ d _ m (subst (λ x. p.amount ≤ℤ x) (sym kept) h)
          (execute_transfer-Ends snapshot mock id p d) in
      rw e (refl, ap (λ (r : Outcome × Context). r.0) e')

-- The execution of a transfer or a withdrawal does not depend on who has authorised it: with any
-- other list of authorities the outcome and the context are the same.
pub authority_unread :
    (snapshot : String → Tokens) (mock : Dict Tokens) {Vm : Type 0}
    (process_tx : Vm → Tx → Dict Tokens → CallResult × Vm) (tx : Tx) (p : Payload)
    (auths : List String) (vm : Vm) (c : Context)
    → (tx.body ≡ TxData.transfer p) ⊎ (tx.body ≡ TxData.withdraw p)
    → execute_tx snapshot mock process_tx (record tx { required_auths = auths }) vm c
      ≡ execute_tx snapshot mock process_tx tx vm c
unfolding execute_tx dispatch
authority_unread snapshot mock process_tx tx p auths vm c (inl e) = rw (e, dispatch)
authority_unread snapshot mock process_tx tx p auths vm c (inr e) = rw (e, dispatch)
