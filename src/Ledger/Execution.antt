-- ===== src/Ledger/Execution.antt =====
-- The ways in which a transfer and a withdrawal end (`executeTx`, its branches `transfer` and
-- `withdraw`).
use vsc_node.Prelude.{
  ◌⊎◌, lookup-insert_self, String, ◌≡◌, sym, inl, inr, List, true, false, Dict, arith, Bool-cases,
}
use vsc_node.Prelude.Int.{leb_ℤ}
use vsc_node.Ledger.Types.{Token, EventOp, Tokens}
use vsc_node.Ledger.Context.{
  Payload, Outcome, Context, get_balance, validate_balance, record_ops, transfer_ops, withdraw_ops,
  execute_transfer, execute_withdraw,
}
use vsc_node.Ledger.Balances.{get_balance_keeps}
use vsc_node.Ledger.Soundness.{IsSound, Same, Same-IsSound, Same-trans, record_ops-IsSound}

module _ (snapshot : String → Tokens) (mock : Dict Tokens) where
  get_balance-Same :
      (id : String) (tk : Token) (c : Context)
      → Same snapshot c (get_balance snapshot mock id tk c).1
  unfolding get_balance
  get_balance-Same id tk c = record {
    balances = get_balance_keeps snapshot mock id tk c;
    ledger = ground arith;
    txs = ground arith;
    txs_map = ground arith;
  }

  -- The second reading, in `validateBalance`, yields what the first did.
  get_balance_again :
      (id : String) (tk : Token) (c : Context)
      → (get_balance snapshot mock id tk (get_balance snapshot mock id tk c).1).0
        ≡ (get_balance snapshot mock id tk c).0
  unfolding get_balance
  get_balance_again id tk c = ground (arith, lookup-insert_self id (snapshot id) c.balances)

  -- The two ways in which a transfer or a withdrawal ends.
  abbrev pub Ends : String → Payload → List EventOp → Context → Outcome × Context → Type 0
  Ends id p ops c r =
      (c' : Context) × Same snapshot c c'
      × ((leb_ℤ p.amount (get_balance snapshot mock p.from p.tk c).0 ≡ true)
            × (r ≡ (Outcome.ok true, record_ops snapshot id ops c'))
          ⊎ (leb_ℤ p.amount (get_balance snapshot mock p.from p.tk c).0 ≡ false)
            × (r ≡ (Outcome.ok false, c')))

  pub execute_transfer-Ends :
      (id : String) (p : Payload) (c : Context)
      → Ends id p (transfer_ops p) c (execute_transfer snapshot mock id p c)
  unfolding execute_transfer validate_balance
  execute_transfer-Ends id p c =
      let c₁ = (get_balance snapshot mock p.from p.tk c).1 in
      (
        (get_balance snapshot mock p.from p.tk c₁).1,
        Same-trans snapshot (get_balance-Same p.from p.tk c) (get_balance-Same p.from p.tk c₁),
        rw (sym (get_balance_again p.from p.tk c))
            (elim (Bool-cases (leb_ℤ p.amount (get_balance snapshot mock p.from p.tk c₁).0)) [
              | inl e ↦ inl (e, rw (e, execute_transfer))
              | inr e ↦ inr (e, rw (e, execute_transfer))
            ]),
      )

  pub execute_withdraw-Ends :
      (id : String) (p : Payload) (c : Context)
      → Ends id p (withdraw_ops p) c (execute_withdraw snapshot mock id p c)
  unfolding execute_withdraw validate_balance
  execute_withdraw-Ends id p c = (
    (get_balance snapshot mock p.from p.tk c).1,
    get_balance-Same p.from p.tk c,
    elim (Bool-cases (leb_ℤ p.amount (get_balance snapshot mock p.from p.tk c).0)) [
      | inl e ↦ inl (e, rw (e, execute_withdraw))
      | inr e ↦ inr (e, rw (e, execute_withdraw))
    ],
  )

  pub Ends-IsSound :
      (id : String) (p : Payload) (ops : List EventOp) (c : Context) (r : Outcome × Context)
      → Ends id p ops c r
      → IsSound snapshot c
      → IsSound snapshot r.1
  Ends-IsSound id p ops c r (c', same, inl (_, e)) s =
      rw e (record_ops-IsSound snapshot id ops c' (Same-IsSound snapshot same s))
  Ends-IsSound id p ops c r (c', same, inr (_, e)) s = rw e (Same-IsSound snapshot same s)
