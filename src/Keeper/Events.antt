-- ===== src/Keeper/Events.antt =====
-- processEvents of services/new/witness/balanceKeeper.ts: the events of a block become entries of
-- the ledger and withdrawals, and the balances of the owners are recorded.
use Prim.Native.String.{◌++◌ as cat, find as find_text, slice, len}
use vsc_node.Prelude.{
  ℕ, ◌+◌, String, List, [], ◌∷◌, ◌++◌, map, Option, none, some, leb, ◌==◌, ◌&&◌, str_eq,
  starts_with, if◌then◌else◌, get_elem?, ◌>>=◌, Dict, insert,
}
use vsc_node.Ledger.Types.{EventOp, EventOpType}
use vsc_node.Ledger.Finalize.{BlockEvents}
use vsc_node.Keeper.Store.{
  BalanceRecord, EntryType, Status, LedgerEntry, Withdrawal, Keeper, get_snapshot,
}

-- An event with the id of its transaction; an index out of range spreads `undefined`.
pub record TxEvent : Type 0 where
  pub tx_id : String
  pub op : Option EventOp

unfoldable pub events_of : List EventOp → String → List ℕ → List TxEvent
events_of events id idxs = map (λ i. record { tx_id = id; op = get_elem? events i }) idxs

-- `allEvents`; a transaction without a list of indexes makes the code throw.
unfoldable pub flatten_events : List EventOp → List String → List (List ℕ) → Option (List TxEvent)
flatten_events events [] maps = some []
flatten_events events (id ∷ txs) [] = none
flatten_events events (id ∷ txs) (idxs ∷ maps) = do
  rest ← flatten_events events txs maps
  some (events_of events id idxs ++ rest)

unfoldable pub all_events : BlockEvents → Option (List TxEvent)
all_events block = flatten_events block.events block.txs block.txs_map

-- `owner.split('?')[1]`
unfoldable pub query_of : String → Option String
query_of owner =
    let i = find_text owner "?" in
    if leb (len owner) i
    then none
    else (let rest = slice owner (i + 1) (len owner) in some (slice rest 0 (find_text rest "?")))

-- What `$set` leaves of an entry that is there: the fields that the update does not name.
unfoldable pub merge_entry : LedgerEntry → LedgerEntry → LedgerEntry
merge_entry old new = record new {
  from = elim new.from [ none ↦ old.from | some f ↦ some f ];
  status = elim new.status [ none ↦ old.status | some s ↦ some s ];
}

-- `ledgerDb.findOneAndUpdate({id}, {$set}, {upsert: true})`
unfoldable pub upsert_entry : LedgerEntry → List LedgerEntry → List LedgerEntry
upsert_entry e [] = e ∷ []
upsert_entry e (f ∷ db) = if str_eq f.id e.id then merge_entry f e ∷ db else f ∷ upsert_entry e db

unfoldable pub upsert_withdrawal : Withdrawal → List Withdrawal → List Withdrawal
upsert_withdrawal w [] = w ∷ []
upsert_withdrawal w (v ∷ db) =
    if str_eq v.id w.id
    then record w { withdraw_id = v.withdraw_id } ∷ db
    else v ∷ upsert_withdrawal w db

unfoldable pub upsert_balance : BalanceRecord → List BalanceRecord → List BalanceRecord
upsert_balance b [] = b ∷ []
upsert_balance b (c ∷ db) =
    if str_eq c.account b.account && c.block_height == b.block_height
    then b ∷ db
    else c ∷ upsert_balance b db

-- `decimal` writes a number, `query_to` is `new URLSearchParams(query).get('to')`.
module _ (decimal : ℕ → String) (query_to : Option String → Option String) where
  -- `${event.txId}-${eventIdx}`
  unfoldable pub event_id : String → ℕ → String
  event_id tx_id idx = cat tx_id (cat "-" (decimal idx))

  unfoldable pub transfer_entry : String → ℕ → EventOp → LedgerEntry
  transfer_entry id height op = record {
    id = id;
    owner = op.owner;
    amount = op.amt;
    tk = op.tk;
    block_height = height;
    t = EntryType.transfer;
    status = none;
    memo = op.memo;
    from = none;
  }

  unfoldable pub withdraw_entry : String → ℕ → EventOp → LedgerEntry
  withdraw_entry id height op = record (transfer_entry id height op) {
    t = EntryType.withdraw;
    status = some Status.pending;
  }

  unfoldable pub new_withdrawal : String → ℕ → ℕ → EventOp → Withdrawal
  new_withdrawal id height idx op = record {
    id = id;
    amount = op.amt;
    tk = op.tk;
    dest = query_to (query_of op.owner);
    block_height = height;
    idx = idx;
    status = Status.pending;
    withdraw_id = none;
  }

  unfoldable pub post_entry : LedgerEntry → Keeper × Dict ℕ → Keeper × Dict ℕ
  post_entry e (keeper, updated) =
      (record keeper { ledger_db = upsert_entry e keeper.ledger_db }, insert e.owner 1 updated)

  unfoldable pub post_op :
      String → ℕ → ℕ → EventOp → EventOpType → Keeper × Dict ℕ → Keeper × Dict ℕ
  post_op id height idx op EventOpType.ledger_transfer st =
      post_entry (transfer_entry id height op) st
  post_op id height idx op EventOpType.ledger_withdraw (keeper, updated) =
      if starts_with op.owner "#withdraw"
      then (
        record keeper {
          withdraw_db = upsert_withdrawal (new_withdrawal id height idx op) keeper.withdraw_db;
        },
        updated,
      )
      else post_entry (withdraw_entry id height op) (keeper, updated)
  post_op id height idx op EventOpType.ledger_deposit st = st
  post_op id height idx op EventOpType.ledger_stake_hbd st = st
  post_op id height idx op EventOpType.ledger_unstake_hbd st = st
  post_op id height idx op EventOpType.ledger_claim_hbd st = st
  post_op id height idx op EventOpType.consensus_stake st = st
  post_op id height idx op EventOpType.consensus_unstake st = st

  unfoldable pub post_event : ℕ → ℕ → TxEvent → Keeper × Dict ℕ → Keeper × Dict ℕ
  post_event height idx event st = elim event.op [
    | none ↦ st
    | some op ↦ post_op (event_id event.tx_id idx) height idx op op.t st
  ]

  unfoldable pub post_events : ℕ → ℕ → List TxEvent → Keeper × Dict ℕ → Keeper × Dict ℕ
  post_events height idx [] st = st
  post_events height idx (event ∷ events) st =
      post_events height (idx + 1) events (post_event height idx event st)

  -- `for (let owner of Object.keys(balancesUpdated))`
  unfoldable pub record_balances : ℕ → Dict ℕ → Keeper → Keeper
  record_balances height [] keeper = keeper
  record_balances height ((owner, flag) ∷ updated) keeper =
      record_balances height updated (record keeper {
        balance_db =
            upsert_balance
              (record {
                account = owner;
                tokens = get_snapshot keeper owner height;
                block_height = height;
              })
              keeper.balance_db;
      })

  unfoldable pub process_events : BlockEvents → ℕ → Keeper → Option Keeper
  process_events block height keeper = do
    events ← all_events block
    let (posted, updated) = post_events height 0 events (keeper, [])
    some (record_balances height updated posted)
