-- ===== src/Keeper/Payouts.antt =====
-- A withdrawal that a completed batch has paid is in no later batch.
use vsc_node.Prelude.{
  String, ◌≡◌, refl, inl, inr, List, [], ◌∷◌, ◌++◌, map, some, Bool, false, ◌&&◌, ◌||◌, str_eq,
  filter, arith, eq_iff, Bool-cases, All,
}
use vsc_node.Keeper.Store.{Withdrawal}
use vsc_node.Keeper.Appending.{is_among}
use vsc_node.Keeper.Withdrawals.{
  Batch, is_pending, complete_one, complete_batch, is_payable, batch_of, create_withdraw_tx,
}

unfoldable pub has_withdrawal : String → List Withdrawal → Bool
has_withdrawal id [] = false
has_withdrawal id (w ∷ db) = str_eq w.id id || has_withdrawal id db

unfoldable pub has_pending : String → List Withdrawal → Bool
has_pending id [] = false
has_pending id (w ∷ db) = str_eq w.id id && is_pending w || has_pending id db

-- No id stands twice in the collection.
unfoldable pub IsUnique : List Withdrawal → Type 0
IsUnique [] = Unit
IsUnique (w ∷ db) = (has_withdrawal w.id db ≡ false) × IsUnique db

absent-pending :
    (id : String) (db : List Withdrawal) → has_withdrawal id db ≡ false → has_pending id db ≡ false
unfolding has_withdrawal has_pending
absent-pending id [] h = refl
absent-pending id (w ∷ db) h = ground (arith, absent-pending id db)

has_withdrawal_complete :
    (tx_id id j : String) (db : List Withdrawal)
    → has_withdrawal j (complete_one tx_id id db) ≡ has_withdrawal j db
unfolding has_withdrawal complete_one
has_withdrawal_complete tx_id id j [] = refl
has_withdrawal_complete tx_id id j (w ∷ db) = ground (arith, has_withdrawal_complete tx_id id j db)

complete_one-IsUnique :
    (tx_id id : String) (db : List Withdrawal) → IsUnique db → IsUnique (complete_one tx_id id db)
unfolding IsUnique complete_one
complete_one-IsUnique tx_id id [] h = tt
complete_one-IsUnique tx_id id (w ∷ db) (h, hs) = elim (Bool-cases (str_eq w.id id)) [
  | inl same ↦ rw (same, IsUnique) (h, hs)
  | inr other ↦
      rw (other, IsUnique)
        (rw (has_withdrawal_complete tx_id id w.id db) h, complete_one-IsUnique tx_id id db hs)
]

complete_one-done :
    (tx_id id : String) (db : List Withdrawal)
    → IsUnique db
    → has_pending id (complete_one tx_id id db) ≡ false
unfolding IsUnique complete_one has_pending is_pending
complete_one-done tx_id id [] h = refl
complete_one-done tx_id id (w ∷ db) (h, hs) =
    ground (arith, complete_one-done tx_id id db hs, absent-pending id db, eq_iff w.id id)

complete_one-stays :
    (tx_id id j : String) (db : List Withdrawal)
    → has_pending j db ≡ false
    → has_pending j (complete_one tx_id id db) ≡ false
unfolding complete_one has_pending is_pending
complete_one-stays tx_id id j [] h = refl
complete_one-stays tx_id id j (w ∷ db) h = ground (arith, complete_one-stays tx_id id j db)

complete_batch-stays :
    (tx_id : String) (ids : List String) (j : String) (db : List Withdrawal)
    → has_pending j db ≡ false
    → has_pending j (complete_batch tx_id ids db) ≡ false
unfolding complete_batch
complete_batch-stays tx_id [] j db h = h
complete_batch-stays tx_id (id ∷ ids) j db h =
    complete_batch-stays tx_id ids j (complete_one tx_id id db) (complete_one-stays tx_id id j db h)

complete_batch-done :
    (tx_id : String) (ids : List String) (db : List Withdrawal)
    → IsUnique db
    → All (λ id. has_pending id (complete_batch tx_id ids db) ≡ false) ids
unfolding complete_batch
complete_batch-done tx_id [] db h = tt
complete_batch-done tx_id (id ∷ ids) db h = (
  complete_batch-stays tx_id ids id (complete_one tx_id id db) (complete_one-done tx_id id db h),
  complete_batch-done tx_id ids (complete_one tx_id id db) (complete_one-IsUnique tx_id id db h),
)

filter-among :
    (id : String) (keep : Withdrawal → Bool) (db : List Withdrawal)
    → is_among id (map (λ w. w.id) db) ≡ false
    → is_among id (map (λ w. w.id) (filter keep db)) ≡ false
unfolding is_among
filter-among id keep [] h = refl
filter-among id keep (w ∷ db) h = elim (Bool-cases (keep w)) [
  | inl kept ↦ rw kept (ground (arith, filter-among id keep db))
  | inr dropped ↦ rw dropped (ground (arith, filter-among id keep db))
]

pending-among :
    (id : String) (db : List Withdrawal)
    → has_pending id db ≡ false
    → is_among id (map (λ w. w.id) (filter is_pending db)) ≡ false
unfolding has_pending is_among
pending-among id [] h = refl
pending-among id (w ∷ db) h = elim (Bool-cases (is_pending w)) [
  | inl kept ↦ rw kept (ground (arith, pending-among id db))
  | inr dropped ↦ rw dropped (ground (arith, pending-among id db))
]

pending_append :
    (id : String) (db news : List Withdrawal)
    → has_pending id db ≡ false
    → has_withdrawal id news ≡ false
    → has_pending id (db ++ news) ≡ false
unfolding has_pending
pending_append id [] news h h' = absent-pending id news h'
pending_append id (w ∷ db) news h h' = ground (arith, pending_append id db news)

none_pending_append :
    (ids : List String) (db news : List Withdrawal)
    → All (λ id. has_pending id db ≡ false) ids
    → All (λ id. has_withdrawal id news ≡ false) ids
    → All (λ id. has_pending id (db ++ news) ≡ false) ids
none_pending_append [] db news h h' = tt
none_pending_append (id ∷ ids) db news (h, hs) (h', hs') =
    (pending_append id db news h h', none_pending_append ids db news hs hs')

module _ (exists_on_hive : String → Bool) where
  batch_of-ids :
      (db : List Withdrawal) (batch : Batch)
      → batch_of exists_on_hive db ≡ some batch
      → batch.ids ≡ map (λ w. w.id) db
  unfolding batch_of
  batch_of-ids [] batch h = ground arith
  batch_of-ids (w ∷ db) batch h = ground arith

  batch-among :
      (id : String) (db : List Withdrawal) (batch : Batch)
      → has_pending id db ≡ false
      → create_withdraw_tx exists_on_hive db ≡ some batch
      → is_among id batch.ids ≡ false
  unfolding create_withdraw_tx
  batch-among id db batch h e =
      let waiting = filter is_pending db in
      let made : batch_of exists_on_hive (filter (is_payable exists_on_hive) waiting) ≡ some batch =
        ground arith in
      rw (batch_of-ids (filter (is_payable exists_on_hive) waiting) batch made)
        (filter-among id (is_payable exists_on_hive) waiting (pending-among id db h))

  later_batch :
      (ids : List String) (db : List Withdrawal) (later : Batch)
      → All (λ id. has_pending id db ≡ false) ids
      → create_withdraw_tx exists_on_hive db ≡ some later
      → All (λ id. is_among id later.ids ≡ false) ids
  later_batch [] db later h e = tt
  later_batch (id ∷ ids) db later (h, hs) e =
      (batch-among id db later h e, later_batch ids db later hs e)

-- When the ids of the withdrawals are unique, no withdrawal that a confirmed batch has paid is in a
-- batch that is created later, whatever withdrawals with other ids have come in, and whatever
-- accounts have come to exist on Hive.
pub create_withdraw_tx-once :
    (exists_on_hive exists_later : String → Bool) (tx_id : String) (db news : List Withdrawal)
    (batch later : Batch)
    → IsUnique db
    → create_withdraw_tx exists_on_hive db ≡ some batch
    → All (λ id. has_withdrawal id news ≡ false) batch.ids
    → create_withdraw_tx exists_later (complete_batch tx_id batch.ids db ++ news) ≡ some later
    → All (λ id. is_among id later.ids ≡ false) batch.ids
create_withdraw_tx-once exists_on_hive exists_later tx_id db news batch later unique made new
      made' =
    later_batch exists_later batch.ids (complete_batch tx_id batch.ids db ++ news) later
      (none_pending_append batch.ids (complete_batch tx_id batch.ids db) news
        (complete_batch-done tx_id batch.ids db unique) new)
      made'
