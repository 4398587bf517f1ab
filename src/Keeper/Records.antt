-- ===== src/Keeper/Records.antt =====
-- The balances that processEvents records, and what getSnapshot makes of them afterwards.
use vsc_node.Prelude.{
  ℕ, ◌+◌, String, ◌≡◌, refl, ◌∙◌, inl, inr, List, [], ◌∷◌, Option, none, some, false, str_eq, arith,
  eq_iff, Bool-cases, Option-cases, Dict, if-holds, starts_with, lookup, IsObject, insert-IsObject,
}
use vsc_node.Prelude.Int.{zero_+ℤ}
use vsc_node.Ledger.Types.{Token, Tokens, amount_of, EventOp, EventOpType}
use vsc_node.Keeper.Store.{
  BalanceRecord, Keeper, find_balance, ledger_sum, base_amount, snapshot_amount, get_snapshot,
}
use vsc_node.Keeper.Events.{
  TxEvent, event_id, transfer_entry, withdraw_entry, upsert_balance, post_entry, post_op,
  post_event, post_events, record_balances,
}

find_balance-upsert :
    (account : String) (b : BalanceRecord) (db : List BalanceRecord)
    → str_eq b.account account ≡ false
    → find_balance account (upsert_balance b db) ≡ find_balance account db
unfolding find_balance upsert_balance
find_balance-upsert account b [] h = rw h refl
find_balance-upsert account b (c ∷ db) h = ground (
  arith,
  find_balance-upsert account b db,
  eq_iff c.account b.account,
  eq_iff c.account account,
  eq_iff b.account account,
)

find_balance-new :
    (b : BalanceRecord) (db : List BalanceRecord)
    → find_balance b.account db ≡ none
    → find_balance b.account (upsert_balance b db) ≡ some b.tokens
unfolding find_balance upsert_balance
find_balance-new b [] h = ground (arith, eq_iff b.account b.account)
find_balance-new b (c ∷ db) h = ground (arith, find_balance-new b db, eq_iff c.account b.account)

-- Without a recorded balance the snapshot is the sum of the ledger.
pub get_snapshot-sum :
    (keeper : Keeper) (account : String) (height : ℕ) (tk : Token)
    → find_balance account keeper.balance_db ≡ none
    → amount_of (get_snapshot keeper account height) tk
      ≡ ledger_sum account tk height keeper.ledger_db
unfolding get_snapshot snapshot_amount base_amount
get_snapshot-sum keeper account height Token.hive h = rw h (zero_+ℤ _)
get_snapshot-sum keeper account height Token.hbd h = rw h (zero_+ℤ _)

module _ (decimal : ℕ → String) (query_to : Option String → Option String) where
  pub record_balances-ledger :
      (height : ℕ) (updated : Dict ℕ) (keeper : Keeper)
      → (record_balances decimal query_to height updated keeper).ledger_db ≡ keeper.ledger_db
  unfolding record_balances
  record_balances-ledger height [] keeper = refl
  record_balances-ledger height ((owner, n) ∷ updated) keeper =
      record_balances-ledger height updated _

  -- The keeper after one turn of the loop.
  abbrev after_record : ℕ → String → Keeper → Keeper
  after_record height owner keeper = record keeper {
    balance_db =
        upsert_balance
          (record {
            account = owner;
            tokens = get_snapshot keeper owner height;
            block_height = height;
          })
          keeper.balance_db;
  }

  record_balances-other :
      (height : ℕ) (updated : Dict ℕ) (keeper : Keeper) (account : String)
      → lookup account updated ≡ none
      → find_balance account (record_balances decimal query_to height updated keeper).balance_db
        ≡ find_balance account keeper.balance_db
  unfolding record_balances lookup
  record_balances-other height [] keeper account h = refl
  record_balances-other height ((owner, n) ∷ updated) keeper account h =
      (let at_owner : str_eq owner account ≡ false = ground arith in
        record_balances-other height updated _ account (ground arith)
        ∙ find_balance-upsert account
            (record {
              account = owner;
              tokens = get_snapshot keeper owner height;
              block_height = height;
            })
            keeper.balance_db at_owner)

  record_balances-first :
      (height : ℕ) (updated : Dict ℕ) (keeper : Keeper) (owner : String) (n : ℕ)
      → lookup owner updated ≡ none
      → find_balance owner keeper.balance_db ≡ none
      → find_balance owner
          (record_balances decimal query_to height ((owner, n) ∷ updated) keeper).balance_db
        ≡ some (get_snapshot keeper owner height)
  unfolding record_balances
  record_balances-first height updated keeper owner n absent new =
      record_balances-other height updated _ owner absent
      ∙ find_balance-new
          (record {
            account = owner;
            tokens = get_snapshot keeper owner height;
            block_height = height;
          })
          keeper.balance_db new

  pub record_balances-owner :
      (height : ℕ) (updated : Dict ℕ) (keeper : Keeper) (account : String) (n : ℕ)
      → IsObject updated
      → lookup account updated ≡ some n
      → find_balance account keeper.balance_db ≡ none
      → (t : Tokens) × (find_balance account
            (record_balances decimal query_to height updated keeper).balance_db
          ≡ some t)
        × ((tk : Token) → amount_of t tk ≡ ledger_sum account tk height keeper.ledger_db)
  unfolding record_balances lookup IsObject
  record_balances-owner height [] keeper account n obj h new = ground arith
  record_balances-owner height ((owner, m) ∷ updated) keeper account n (absent, obj) h new =
      elim (Bool-cases (str_eq owner account)) [
        | inl same ↦
            let e : owner ≡ account = (eq_iff owner account).0 same in
            (
              get_snapshot keeper account height,
              rw (← e) (record_balances-first height updated keeper owner m absent (rw e new)),
              λ tk. get_snapshot-sum keeper account height tk new,
            )
        | inr other ↦
            record_balances-owner height updated (after_record height owner keeper) account n obj
              (ground arith)
              (find_balance-upsert account
                  (record {
                    account = owner;
                    tokens = get_snapshot keeper owner height;
                    block_height = height;
                  })
                  keeper.balance_db other
                ∙ new)
      ]

  post_op-balances :
      (id : String) (height idx : ℕ) (op : EventOp) (t : EventOpType) (st : Keeper × Dict ℕ)
      → IsObject st.1
      → let st' = post_op decimal query_to id height idx op t st in
        (st'.0.balance_db ≡ st.0.balance_db) × IsObject st'.1
  unfolding post_op post_entry transfer_entry withdraw_entry
  post_op-balances id height idx op EventOpType.ledger_transfer (keeper, updated) h =
      (refl, insert-IsObject op.owner 1 updated h)
  post_op-balances id height idx op EventOpType.ledger_withdraw (keeper, updated) h =
      if-holds {Res = Keeper × Dict ℕ}
        (λ st'. (st'.0.balance_db ≡ keeper.balance_db) × IsObject st'.1)
        (starts_with op.owner "#withdraw") (refl, h) (refl, insert-IsObject op.owner 1 updated h)
  post_op-balances id height idx op EventOpType.ledger_deposit st h = (refl, h)
  post_op-balances id height idx op EventOpType.ledger_stake_hbd st h = (refl, h)
  post_op-balances id height idx op EventOpType.ledger_unstake_hbd st h = (refl, h)
  post_op-balances id height idx op EventOpType.ledger_claim_hbd st h = (refl, h)
  post_op-balances id height idx op EventOpType.consensus_stake st h = (refl, h)
  post_op-balances id height idx op EventOpType.consensus_unstake st h = (refl, h)

  post_event-balances :
      (height idx : ℕ) (e : TxEvent) (st : Keeper × Dict ℕ)
      → IsObject st.1
      → let st' = post_event decimal query_to height idx e st in
        (st'.0.balance_db ≡ st.0.balance_db) × IsObject st'.1
  unfolding post_event
  post_event-balances height idx e st h = elim (Option-cases e.op) [
    | inl missing ↦ rw missing (refl, h)
    | inr (op, is_op) ↦
        rw is_op (post_op-balances (event_id decimal query_to e.tx_id idx) height idx op op.t st h)
  ]

  pub post_events-balances :
      (height idx : ℕ) (events : List TxEvent) (st : Keeper × Dict ℕ)
      → IsObject st.1
      → let st' = post_events decimal query_to height idx events st in
        (st'.0.balance_db ≡ st.0.balance_db) × IsObject st'.1
  unfolding post_events
  post_events-balances height idx [] st h = (refl, h)
  post_events-balances height idx (e ∷ events) st h =
      let (same, obj) = post_event-balances height idx e st h in
      let (rest, obj') =
        post_events-balances height (idx + 1) events (post_event decimal query_to height idx e st)
          obj in
      (rest ∙ same, obj')
