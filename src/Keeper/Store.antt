-- ===== src/Keeper/Store.antt =====
-- The collections of services/new/witness/balanceKeeper.ts, and getSnapshot. A query returns the
-- records of a list in its order; an amount is an integer.
use vsc_node.Prelude.{
  ℕ, String, List, [], ◌∷◌, Option, none, some, Bool, leb, ◌&&◌, str_eq, if◌then◌else◌,
}
use vsc_node.Prelude.Int.{ℤ, pos, ◌+ℤ◌}
use vsc_node.Ledger.Types.{Token, Tokens, amount_of, token_eq}

pub record BalanceRecord : Type 0 where
  pub account : String
  pub tokens : Tokens
  pub block_height : ℕ

pub data EntryType : Type 0 where
  deposit transfer withdraw : EntryType

pub data Status : Type 0 where
  pending complete : Status

pub record LedgerEntry : Type 0 where
  pub id : String
  pub owner : String
  pub amount : ℤ
  pub tk : Token
  pub block_height : ℕ
  pub t : EntryType
  pub status : Option Status
  pub memo : Option String
  pub from : Option String

-- `dest` is null where the event names none.
pub record Withdrawal : Type 0 where
  pub id : String
  pub amount : ℤ
  pub tk : Token
  pub dest : Option String
  pub block_height : ℕ
  pub idx : ℕ
  pub status : Status
  pub withdraw_id : Option String

pub record Keeper : Type 0 where
  pub balance_db : List BalanceRecord
  pub ledger_db : List LedgerEntry
  pub withdraw_db : List Withdrawal

-- `balanceDb.findOne({account})`
unfoldable pub find_balance : String → List BalanceRecord → Option Tokens
find_balance account [] = none
find_balance account (b ∷ db) =
    if str_eq b.account account then some b.tokens else find_balance account db

-- `{tk, owner, block_height: {$lte: height}}`
unfoldable pub counts : String → Token → ℕ → LedgerEntry → Bool
counts account tk height e =
    token_eq e.tk tk && (str_eq e.owner account && leb e.block_height height)

-- The sum over the entries that the query returns. Sorting them does not change it.
unfoldable pub ledger_sum : String → Token → ℕ → List LedgerEntry → ℤ
ledger_sum account tk height [] = pos 0
ledger_sum account tk height (e ∷ db) =
    (if counts account tk height e then e.amount else pos 0) +ℤ ledger_sum account tk height db

-- `balanceTemplate.tokens[tk]`
unfoldable pub base_amount : Option Tokens → Token → ℤ
base_amount none tk = pos 0
base_amount (some b) tk = amount_of b tk

unfoldable pub snapshot_amount : Keeper → String → ℕ → Token → ℤ
snapshot_amount keeper account height tk =
    base_amount (find_balance account keeper.balance_db) tk
    +ℤ ledger_sum account tk height keeper.ledger_db

unfoldable pub get_snapshot : Keeper → String → ℕ → Tokens
get_snapshot keeper account height = record {
  hive_amt = snapshot_amount keeper account height Token.hive;
  hbd_amt = snapshot_amount keeper account height Token.hbd;
}
