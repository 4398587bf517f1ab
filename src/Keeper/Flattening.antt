-- ===== src/Keeper/Flattening.antt =====
-- The events that processEvents reads from a block are those that TxContext posted, in order.
use vsc_node.Prelude.{
  ℕ, String, ◌≡◌, refl, sym, ap, ◌∙◌, List, [], ◌∷◌, ◌++◌, map, Option, some, get_elem?, length,
  map_get_range, arith, Dict,
}
use vsc_node.Ledger.Types.{EventOp, Tokens}
use vsc_node.Ledger.Context.{Tx, CallResult, new_context, init, execute_all}
use vsc_node.Ledger.Soundness.{flatten}
use vsc_node.Ledger.Blocks.{block-IsSound}
use vsc_node.Ledger.Finalize.{block_events}
use vsc_node.Keeper.Events.{TxEvent, events_of, flatten_events, all_events}

map-append {ℓ κ} :
    {A : Type ℓ} {B : Type κ} (f : A → B) (xs ys : List A) → map f (xs ++ ys) ≡ map f xs ++ map f ys
map-append f [] ys = refl
map-append f (x ∷ xs) ys = ap (λ l. f x ∷ l) (map-append f xs ys)

-- The events as they stand in the block.
abbrev pub ops_of : List TxEvent → List (Option EventOp)
ops_of = map (λ e. e.op)

ops-events_of :
    (events : List EventOp) (id : String) (idxs : List ℕ)
    → ops_of (events_of events id idxs) ≡ map (get_elem? events) idxs
unfolding events_of
ops-events_of events id [] = refl
ops-events_of events id (i ∷ idxs) = ap (λ l. get_elem? events i ∷ l) (ops-events_of events id idxs)

flatten_events-ops :
    (events : List EventOp) (txs : List String) (maps : List (List ℕ))
    → length txs ≡ length maps
    → (list : List TxEvent) × (flatten_events events txs maps ≡ some list)
      × (ops_of list ≡ map (get_elem? events) (flatten maps))
unfolding flatten_events
flatten_events-ops events [] [] h = ([], refl, refl)
flatten_events-ops events [] (idxs ∷ maps) h = ground arith
flatten_events-ops events (id ∷ txs) [] h = ground arith
flatten_events-ops events (id ∷ txs) (idxs ∷ maps) h =
    let (rest, found, same) = flatten_events-ops events txs maps (omega arith) in
    (
      events_of events id idxs ++ rest,
      rw found refl,
      map-append (λ e. e.op) (events_of events id idxs) rest
          ∙ rw (ops-events_of events id idxs, same)
              (sym (map-append (get_elem? events) idxs (flatten maps))),
    )

-- When a block's context, run from its start over any transactions, is finalized, the balance
-- keeper finds in the events that it exports every posted event once, in the order of the ledger.
pub block_events_complete :
    (snapshot : String → Tokens) (mock : Dict Tokens) {Vm : Type 0}
    (process_tx : Vm → Tx → Dict Tokens → CallResult × Vm) (txs : List Tx) (vm : Vm)
    → let c = (execute_all snapshot mock process_tx txs vm (init new_context)).1 in
      (list : List TxEvent) × (all_events (block_events c) ≡ some list)
      × (ops_of list ≡ map some c.ledger)
unfolding all_events block_events
block_events_complete snapshot mock process_tx txs vm =
    let c = (execute_all snapshot mock process_tx txs vm (init new_context)).1 in
    let sound = block-IsSound snapshot mock process_tx txs vm in
    let (list, found, same) = flatten_events-ops c.ledger c.txs c.txs_map sound.paired in
    (list, found, same ∙ rw sound.partitioned (map_get_range c.ledger))
