-- ===== src/Ledger/Balances.antt =====
-- What TxContext's operations do to the balances of a block and to its ledger.
use vsc_node.Prelude.{
  String, ◌≡◌, refl, none, some, Dict, lookup, insert, lookup-insert, str_eq, eq_iff, eq_refl,
  if◌then◌else◌, arith,
}
use vsc_node.Prelude.Int.{ℤ, pos, ◌+ℤ◌, int_laws}
use vsc_node.Ledger.Types.{Token, Tokens, amount_of, with_amount, token_eq}
use vsc_node.Ledger.Context.{Context, get_balance, get_snapshot}

pub amount-with :
    (b : Tokens) (t u : Token) (x : ℤ)
    → amount_of (with_amount b t x) u ≡ (if token_eq t u then x else amount_of b u)
amount-with b Token.hive Token.hive x = refl
amount-with b Token.hive Token.hbd x = refl
amount-with b Token.hbd Token.hive x = refl
amount-with b Token.hbd Token.hbd x = refl

pub amount_update :
    (b : Tokens) (t u : Token) (x : ℤ)
    → amount_of (with_amount b t (amount_of b t +ℤ x)) u
      ≡ amount_of b u +ℤ (if token_eq t u then x else pos 0)
amount_update b Token.hive Token.hive x = refl
amount_update b Token.hive Token.hbd x = omega int_laws
amount_update b Token.hbd Token.hive x = omega int_laws
amount_update b Token.hbd Token.hbd x = refl

module _ (snapshot : String → Tokens) where
  -- The balance that a block's context stands for: the cached one, or else the snapshot.
  abbrev pub balance_in : Dict Tokens → String → Token → ℤ
  balance_in m id tk = elim (lookup id m) [
    | none ↦ amount_of (snapshot id) tk
    | some b ↦ amount_of b tk
  ]

  abbrev pub balance_of : Context → String → Token → ℤ
  balance_of c id tk = balance_in c.balances id tk

  pub balance_in-cache :
      (m : Dict Tokens) (k id : String) (tk : Token)
      → lookup k m ≡ none
      → balance_in (insert k (snapshot k) m) id tk ≡ balance_in m id tk
  balance_in-cache m k id tk h =
      ground (arith, lookup-insert k id (snapshot k) m, eq_iff k id, eq_refl k)

  pub balance_in-insert :
      (m : Dict Tokens) (k id : String) (b : Tokens) (tk : Token)
      → balance_in (insert k b m) id tk
        ≡ (if str_eq k id then amount_of b tk else balance_in m id tk)
  balance_in-insert m k id b tk = ground (arith, lookup-insert k id b m)

  -- Reading a balance changes none, and yields the balance where no mock stands in for it.
  pub get_balance-eq :
      (mock : Dict Tokens) (id : String) (tk : Token) (c : Context)
      → lookup id mock ≡ none
      → (get_balance snapshot mock id tk c).0 ≡ balance_of c id tk
  unfolding get_balance
  get_balance-eq mock id tk c h = ground arith

  pub get_balance_keeps :
      (mock : Dict Tokens) (k : String) (t : Token) (c : Context) (id : String) (tk : Token)
      → balance_of (get_balance snapshot mock k t c).1 id tk ≡ balance_of c id tk
  unfolding get_balance
  get_balance_keeps mock k t c id tk = ground (arith, balance_in-cache c.balances k id tk)

  pub get_snapshot_keeps :
      (k : String) (c : Context) (id : String) (tk : Token)
      → balance_of (get_snapshot snapshot k c).1 id tk ≡ balance_of c id tk
  unfolding get_snapshot
  get_snapshot_keeps k c id tk = ground (arith, balance_in-cache c.balances k id tk)

  pub get_snapshot-eq :
      (k : String) (c : Context) (tk : Token)
      → amount_of (get_snapshot snapshot k c).0 tk ≡ balance_of c k tk
  unfolding get_snapshot
  get_snapshot-eq k c tk = ground arith
