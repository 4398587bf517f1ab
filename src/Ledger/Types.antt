-- ===== src/Ledger/Types.antt =====
-- `EventOp` and `EventOpType` of src/services/new/vm/types.ts, and balances by token.
use vsc_node.Prelude.{
  String, ◌≡◌, List, [], ◌∷◌, ◌++◌, Option, Bool, true, false, str_eq, if◌then◌else◌,
}
use vsc_node.Prelude.Int.{ℤ, pos, ◌+ℤ◌, int_laws}

pub data Token : Type 0 where
  hive hbd : Token

pub data EventOpType : Type 0 where
  ledger_transfer ledger_withdraw ledger_deposit : EventOpType
  ledger_stake_hbd ledger_unstake_hbd ledger_claim_hbd : EventOpType
  consensus_stake consensus_unstake : EventOpType

pub record EventOp : Type 0 where
  pub owner : String
  pub tk : Token
  pub t : EventOpType
  pub amt : ℤ
  pub memo : Option String

pub record Tokens : Type 0 where
  pub hive_amt : ℤ
  pub hbd_amt : ℤ

-- `tokens[tk]`
abbrev pub amount_of : Tokens → Token → ℤ
amount_of b Token.hive = b.hive_amt
amount_of b Token.hbd = b.hbd_amt

-- `{...tokens, [tk]: amount}`
abbrev pub with_amount : Tokens → Token → ℤ → Tokens
with_amount b Token.hive x = record b { hive_amt = x }
with_amount b Token.hbd x = record b { hbd_amt = x }

abbrev pub token_eq : Token → Token → Bool
token_eq Token.hive Token.hive = true
token_eq Token.hbd Token.hbd = true
token_eq Token.hive Token.hbd = false
token_eq Token.hbd Token.hive = false

-- What one event adds to the balance of an owner in a token.
abbrev pub delta : String → Token → EventOp → ℤ
delta id tk e = if str_eq e.owner id then (if token_eq e.tk tk then e.amt else pos 0) else pos 0

-- What a list of events adds to the balance of an owner in a token.
abbrev pub credited : String → Token → List EventOp → ℤ
credited id tk [] = pos 0
credited id tk (e ∷ es) = delta id tk e +ℤ credited id tk es

-- What a list of events adds over all owners.
abbrev pub volume : Token → List EventOp → ℤ
volume tk [] = pos 0
volume tk (e ∷ es) = (if token_eq e.tk tk then e.amt else pos 0) +ℤ volume tk es

pub credited-append :
    (id : String) (tk : Token) (xs ys : List EventOp)
    → credited id tk (xs ++ ys) ≡ credited id tk xs +ℤ credited id tk ys
credited-append id tk [] ys = omega int_laws
credited-append id tk (x ∷ xs) ys = rw (credited-append id tk xs ys) (omega int_laws)

pub volume-append :
    (tk : Token) (xs ys : List EventOp) → volume tk (xs ++ ys) ≡ volume tk xs +ℤ volume tk ys
volume-append tk [] ys = omega int_laws
volume-append tk (x ∷ xs) ys = rw (volume-append tk xs ys) (omega int_laws)
