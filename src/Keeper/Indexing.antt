-- ===== src/Keeper/Indexing.antt =====
-- What processEvents records of the events of a block, and what getSnapshot makes of it.
use vsc_node.Prelude.{
  IsObject, ℕ, String, ◌≡◌, refl, ◌∙◌, inl, inr, List, [], Option, none, some, Bool, true, false,
  arith, Option-cases, All, lookup,
}
use vsc_node.Prelude.Int.{◌+ℤ◌}
use vsc_node.Ledger.Types.{Token, Tokens, amount_of, credited}
use vsc_node.Ledger.Finalize.{BlockEvents}
use vsc_node.Keeper.Store.{Keeper, find_balance, ledger_sum, base_amount, snapshot_amount}
use vsc_node.Keeper.Events.{TxEvent, all_events, post_events, record_balances, process_events}
use vsc_node.Keeper.Appending.{IsFresh}
use vsc_node.Keeper.Posting.{IsPosted, posted, ids_from, IsAccount, ledger_sum-post_events}
use vsc_node.Keeper.Records.{record_balances-ledger, record_balances-owner, post_events-balances}

module _ (decimal : ℕ → String) (query_to : Option String → Option String) where
  -- The accounts whose balances processEvents records.
  unfoldable pub is_updated : ℕ → List TxEvent → Keeper → String → Bool
  is_updated height events keeper account =
      elim (lookup account (post_events decimal query_to height 0 events (keeper, [])).1) [
        | none ↦ false
        | some n ↦ true
      ]

  recorded :
      (height : ℕ) (events : List TxEvent) (keeper : Keeper) (account : String)
      → is_updated height events keeper account ≡ true
      → (n : ℕ) × (lookup account (post_events decimal query_to height 0 events (keeper, [])).1
          ≡ some n)
  unfolding is_updated
  recorded height events keeper account h =
      elim (Option-cases
        (lookup account (post_events decimal query_to height 0 events (keeper, [])).1)) [
          | inl missing ↦ ground arith
          | inr found ↦ found
        ]

  -- When the ids of a block's events are new and all its events are transfers and withdrawals, the
  -- balance recorded for an updated account without an earlier record is the sum of its ledger
  -- entries and of what the events credit to it.
  pub process_events-records :
      (block : BlockEvents) (height : ℕ) (keeper keeper' : Keeper) (events : List TxEvent)
      (account : String)
      → all_events block ≡ some events
      → IsFresh (ids_from decimal query_to 0 events) keeper.ledger_db
      → All IsPosted (posted events)
      → IsAccount account
      → find_balance account keeper.balance_db ≡ none
      → is_updated height events keeper account ≡ true
      → process_events decimal query_to block height keeper ≡ some keeper'
      → (t : Tokens) × (find_balance account keeper'.balance_db ≡ some t)
        × ((tk : Token)
            → amount_of t tk
              ≡ ledger_sum account tk height keeper.ledger_db
                +ℤ credited account tk (posted events))
        × ((tk : Token)
            → ledger_sum account tk height keeper'.ledger_db
              ≡ ledger_sum account tk height keeper.ledger_db
                +ℤ credited account tk (posted events))
  unfolding process_events IsObject
  process_events-records block height keeper keeper' events account read fresh ops ext new updated
        h =
      let st = post_events decimal query_to height 0 events (keeper, []) in
      let result : record_balances decimal query_to height st.1 st.0 ≡ keeper' = ground arith in
      let (same, obj) = post_events-balances decimal query_to height 0 events (keeper, []) tt in
      let (n, found) = recorded height events keeper account updated in
      let (t, is_t, amounts) =
        record_balances-owner decimal query_to height st.1 st.0 account n obj found (rw same new) in
      let sum = λ (tk : Token).
        ledger_sum-post_events decimal query_to height 0 events (keeper, []) account tk height fresh
          ops ext (omega arith) in
      (
        t,
        rw (← result) is_t,
        λ tk. amounts tk ∙ sum tk,
        λ tk. rw (← result, record_balances-ledger decimal query_to) (sum tk),
      )

  -- The snapshot that getSnapshot then takes of such an account is twice its balance: it adds all
  -- entries of the ledger to the recorded balance, which counts them already.
  pub get_snapshot_doubles :
      (block : BlockEvents) (height : ℕ) (keeper keeper' : Keeper) (events : List TxEvent)
      (account : String) (tk : Token)
      → all_events block ≡ some events
      → IsFresh (ids_from decimal query_to 0 events) keeper.ledger_db
      → All IsPosted (posted events)
      → IsAccount account
      → find_balance account keeper.balance_db ≡ none
      → is_updated height events keeper account ≡ true
      → process_events decimal query_to block height keeper ≡ some keeper'
      → let balance =
          ledger_sum account tk height keeper.ledger_db +ℤ credited account tk (posted events) in
        snapshot_amount keeper' account height tk ≡ balance +ℤ balance
  unfolding snapshot_amount base_amount
  get_snapshot_doubles block height keeper keeper' events account tk read fresh ops ext new updated
        h =
      let (t, is_t, amounts, sums) =
        process_events-records block height keeper keeper' events account read fresh ops ext new
          updated h in
      rw (is_t, amounts tk, sums tk) refl
