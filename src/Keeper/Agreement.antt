-- ===== src/Keeper/Agreement.antt =====
-- The balance that the keeper records for a block is the one that TxContext computed.
use vsc_node.Prelude.{
  ℕ, ◌≤◌, String, ◌≡◌, refl, sym, ◌∙◌, List, [], ◌∷◌, map, Option, none, some, true, leb, arith,
  subst, All, Dict,
}
use vsc_node.Ledger.Types.{Token, Tokens, amount_of, EventOp}
use vsc_node.Ledger.Context.{Tx, CallResult, new_context, init, execute_all}
use vsc_node.Ledger.Balances.{balance_of}
use vsc_node.Ledger.Posting.{IsExternal}
use vsc_node.Ledger.Blocks.{block-IsSound}
use vsc_node.Ledger.Finalize.{block_events}
use vsc_node.Keeper.Store.{LedgerEntry, Keeper, find_balance, counts, ledger_sum, get_snapshot}
use vsc_node.Keeper.Events.{TxEvent, all_events, process_events}
use vsc_node.Keeper.Flattening.{ops_of, block_events_complete}
use vsc_node.Keeper.Appending.{IsFresh}
use vsc_node.Keeper.Posting.{IsPosted, posted, ids_from, IsAccount}
use vsc_node.Keeper.Records.{get_snapshot-sum}
use vsc_node.Keeper.Indexing.{is_updated, process_events-records}

-- Entries up to one height count at every later one.
ledger_sum_settled :
    (account : String) (tk : Token) (start height : ℕ) (db : List LedgerEntry)
    → All (λ e. e.block_height ≤ start) db
    → start ≤ height
    → ledger_sum account tk height db ≡ ledger_sum account tk start db
unfolding ledger_sum counts
ledger_sum_settled account tk start height [] h le = refl
ledger_sum_settled account tk start height (e ∷ db) (h, hs) le =
    let now : leb e.block_height start ≡ true = ground arith in
    let later : leb e.block_height height ≡ true = ground arith in
    rw (now, later, ledger_sum_settled account tk start height db hs le) refl

-- The events of a list that reads back as some operations are these operations.
posted-ops :
    (events : List TxEvent) (ops : List EventOp)
    → ops_of events ≡ map some ops
    → posted events ≡ ops
unfolding posted
posted-ops [] [] h = refl
posted-ops [] (op ∷ ops) h = cc
posted-ops (e ∷ events) [] h = cc
posted-ops (e ∷ events) (op ∷ ops) h =
    let head : e.op ≡ some op = cc in
    let tail : ops_of events ≡ map some ops = cc in rw (head, posted-ops events ops tail) refl

-- When a block is executed on the keeper's snapshots at a height that no ledger entry is above, each
-- operation of its ledger is a transfer or a withdrawal, and its events are then indexed at that
-- height or a later one under new ids, the balance that the keeper records for an updated
-- external account without an earlier record is the balance that the execution ended with.
pub process_events-balance :
    (decimal : ℕ → String) (query_to : Option String → Option String) (keeper keeper' : Keeper)
    (start height : ℕ) (mock : Dict Tokens) {Vm : Type 0}
    (process_tx : Vm → Tx → Dict Tokens → CallResult × Vm) (txs : List Tx) (vm : Vm)
    (events : List TxEvent) (account : String)
    → let snapshot = λ (id : String). get_snapshot keeper id start in
      let c = (execute_all snapshot mock process_tx txs vm (init new_context)).1 in
      All (λ e. e.block_height ≤ start) keeper.ledger_db
      → start ≤ height
      → all_events (block_events c) ≡ some events
      → All IsPosted c.ledger
      → IsFresh (ids_from decimal query_to 0 events) keeper.ledger_db
      → IsExternal account
      → IsAccount account
      → find_balance account keeper.balance_db ≡ none
      → is_updated decimal query_to height events keeper account ≡ true
      → process_events decimal query_to (block_events c) height keeper ≡ some keeper'
      → (t : Tokens) × (find_balance account keeper'.balance_db ≡ some t)
        × ((tk : Token) → amount_of t tk ≡ balance_of snapshot c account tk)
process_events-balance decimal query_to keeper keeper' start height mock process_tx txs vm events
      account settled le read ops fresh external outside new updated h =
    let snapshot = λ (id : String). get_snapshot keeper id start in
    let c = (execute_all snapshot mock process_tx txs vm (init new_context)).1 in
    let (list, is_list, same) = block_events_complete snapshot mock process_tx txs vm in
    let both : some events ≡ some list = sym read ∙ is_list in
    let one : list ≡ events = cc in
    let this : posted events ≡ c.ledger =
      posted-ops events c.ledger (subst (λ l. ops_of l ≡ map some c.ledger) one same) in
    let (t, is_t, amounts, _) =
      process_events-records decimal query_to (block_events c) height keeper keeper' events account
        read fresh (subst (All IsPosted) (sym this) ops) outside new updated h in
    let sound = block-IsSound snapshot mock process_tx txs vm in
    (
      t,
      is_t,
      λ tk.
          amounts tk
          ∙ rw
              (
                ledger_sum_settled account tk start height keeper.ledger_db settled le,
                this,
                ← get_snapshot-sum keeper account start tk new,
              )
              (sym (sound.reconciled account tk external)),
    )
