-- ===== src/Keeper/Posting.antt =====
-- What posting the events of a block adds to the sums of the ledger.
use vsc_node.Prelude.{
  ℕ, ◌+◌, ◌≤◌, String, ◌≡◌, refl, sym, ap, ◌∙◌, ◌⊎◌, inl, inr, List, [], ◌∷◌, Option, none, some,
  true, false, str_eq, starts_with, arith, eq_iff, Bool-cases, Option-cases, subst, All, Dict,
}
use vsc_node.Prelude.Int.{pos, ◌+ℤ◌, +ℤ_assoc, +ℤ_zero}
use vsc_node.Ledger.Types.{Token, EventOp, EventOpType, delta, credited}
use vsc_node.Keeper.Store.{LedgerEntry, Keeper, counts, ledger_sum}
use vsc_node.Keeper.Events.{
  TxEvent, upsert_entry, event_id, transfer_entry, withdraw_entry, post_entry, post_op, post_event,
  post_events,
}
use vsc_node.Keeper.Appending.{
  has_id, IsFresh, entry_share, upsert-append, sum-append, append-IsFresh,
}

-- The kinds of events that the keeper posts.
unfoldable pub IsPosted : EventOp → Type 0
IsPosted op = (op.t ≡ EventOpType.ledger_transfer) ⊎ (op.t ≡ EventOpType.ledger_withdraw)

-- The events of a list that stand in the block.
unfoldable pub posted : List TxEvent → List EventOp
posted [] = []
posted (e ∷ events) = elim e.op [ none ↦ posted events | some op ↦ op ∷ posted events ]

posted-nil : posted [] ≡ []
unfolding posted
posted-nil = refl

posted-some :
    (e : TxEvent) (events : List TxEvent) (op : EventOp)
    → e.op ≡ some op
    → posted (e ∷ events) ≡ op ∷ posted events
unfolding posted
posted-some e events op h = rw h refl

posted-none :
    (e : TxEvent) (events : List TxEvent) → e.op ≡ none → posted (e ∷ events) ≡ posted events
unfolding posted
posted-none e events h = rw h refl

-- An account whose name does not mark a withdrawal from the network.
abbrev pub IsAccount : String → Type 0
IsAccount account = starts_with account "#withdraw" ≡ false

module _ (decimal : ℕ → String) (query_to : Option String → Option String) where
  unfoldable pub ids_from : ℕ → List TxEvent → List String
  ids_from idx [] = []
  ids_from idx (e ∷ events) = event_id decimal query_to e.tx_id idx ∷ ids_from (idx + 1) events

  -- What an event does to the ledger: nothing, or one more entry with the event's id.
  Effect : String → ℕ → EventOp → List LedgerEntry → List LedgerEntry → Type 0
  Effect id height op db db' =
      ((db' ≡ db) × (starts_with op.owner "#withdraw" ≡ true))
      ⊎ ((e : LedgerEntry) × (db' ≡ upsert_entry e db)
          × (e.id ≡ id)
          × ((account : String) (tk : Token) (h : ℕ)
              → height ≤ h
              → entry_share account tk h e ≡ delta account tk op))

  transfer-Effect :
      (id : String) (height idx : ℕ) (op : EventOp) (st : Keeper × Dict ℕ)
      → Effect id height op st.0.ledger_db
          (post_op decimal query_to id height idx op EventOpType.ledger_transfer st).0.ledger_db
  unfolding Effect post_op post_entry transfer_entry counts
  transfer-Effect id height idx op st =
      inr
        (transfer_entry decimal query_to id height op, refl, refl, λ account tk h le. ground arith)

  withdraw-Effect :
      (id : String) (height idx : ℕ) (op : EventOp) (st : Keeper × Dict ℕ)
      → Effect id height op st.0.ledger_db
          (post_op decimal query_to id height idx op EventOpType.ledger_withdraw st).0.ledger_db
  unfolding Effect post_op post_entry withdraw_entry transfer_entry counts
  withdraw-Effect id height idx op (keeper, updated) =
      elim (Bool-cases (starts_with op.owner "#withdraw")) [
        | inl outside ↦ inl (rw outside refl, outside)
        | inr inside ↦ inr (
          withdraw_entry decimal query_to id height op,
          rw inside refl,
          refl,
          λ account tk h le. ground arith,
        )
      ]

  post_op-Effect :
      (id : String) (height idx : ℕ) (op : EventOp) (t : EventOpType) (st : Keeper × Dict ℕ)
      → (t ≡ EventOpType.ledger_transfer) ⊎ (t ≡ EventOpType.ledger_withdraw)
      → Effect id height op st.0.ledger_db
          (post_op decimal query_to id height idx op t st).0.ledger_db
  post_op-Effect id height idx op t st (inl transfer) =
      rw transfer (transfer-Effect id height idx op st)
  post_op-Effect id height idx op t st (inr withdraw) =
      rw withdraw (withdraw-Effect id height idx op st)

  delta-outside :
      (account : String) (tk : Token) (op : EventOp)
      → IsAccount account
      → starts_with op.owner "#withdraw" ≡ true
      → delta account tk op ≡ pos 0
  delta-outside account tk op h h' = elim (Bool-cases (str_eq op.owner account)) [
    | inl same ↦
        let clash : true ≡ false =
          sym h' ∙ ap (λ o. starts_with o "#withdraw") ((eq_iff op.owner account).0 same) ∙ h in
        ground arith
    | inr other ↦ rw other refl
  ]

  Effect-sum :
      (id : String) (height : ℕ) (op : EventOp) (db db' : List LedgerEntry) (account : String)
      (tk : Token) (h : ℕ)
      → Effect id height op db db'
      → has_id id db ≡ false
      → IsAccount account
      → height ≤ h
      → ledger_sum account tk h db' ≡ ledger_sum account tk h db +ℤ delta account tk op
  unfolding Effect
  Effect-sum id height op db db' account tk h (inl (same, outside)) new ext le =
      rw (same, delta-outside account tk op ext outside) (sym (+ℤ_zero _))
  Effect-sum id height op db db' account tk h (inr (e, update, is_id, amount)) new ext le =
      rw (update, upsert-append e db (rw is_id new), sum-append, amount account tk h le) refl

  Effect-IsFresh :
      (id : String) (height : ℕ) (op : EventOp) (db db' : List LedgerEntry) (ids : List String)
      → Effect id height op db db'
      → IsFresh (id ∷ ids) db
      → IsFresh ids db'
  unfolding Effect IsFresh
  Effect-IsFresh id height op db db' ids (inl (same, outside)) (new, apart, fresh) = rw same fresh
  Effect-IsFresh id height op db db' ids (inr (e, update, is_id, amount)) (new, apart, fresh) =
      rw (update, upsert-append e db (rw is_id new))
        (append-IsFresh ids db e fresh (rw is_id apart))

  IsFresh-rest :
      (id : String) (ids : List String) (db : List LedgerEntry)
      → IsFresh (id ∷ ids) db
      → IsFresh ids db
  unfolding IsFresh
  IsFresh-rest id ids db (new, apart, fresh) = fresh

  post_event-Effect :
      (height idx : ℕ) (e : TxEvent) (op : EventOp) (st : Keeper × Dict ℕ)
      → e.op ≡ some op
      → IsPosted op
      → Effect
          (event_id decimal query_to e.tx_id idx)
          height
          op
          st.0.ledger_db
          (post_event decimal query_to height idx e st).0.ledger_db
  unfolding post_event IsPosted
  post_event-Effect height idx e op st is_op kind =
      subst
        (λ o.
          Effect (event_id decimal query_to e.tx_id idx) height op st.0.ledger_db
            (elim o as (λ x. Keeper × Dict ℕ) [
              | none ↦ st
              | some op' ↦
                  post_op decimal query_to (event_id decimal query_to e.tx_id idx) height idx op'
                    op'.t st
            ]).0.ledger_db)
        (sym is_op)
        (post_op-Effect (event_id decimal query_to e.tx_id idx) height idx op op.t st kind)

  post_event-none :
      (height idx : ℕ) (e : TxEvent) (st : Keeper × Dict ℕ)
      → e.op ≡ none
      → post_event decimal query_to height idx e st ≡ st
  unfolding post_event
  post_event-none height idx e st h = rw h refl

  IsFresh-new :
      (id : String) (ids : List String) (db : List LedgerEntry)
      → IsFresh (id ∷ ids) db
      → has_id id db ≡ false
  unfolding IsFresh
  IsFresh-new id ids db (new, apart, fresh) = new

  -- Posting events adds to the sum of an account what they credit to it.
  pub ledger_sum-post_events :
      (height idx : ℕ) (events : List TxEvent) (st : Keeper × Dict ℕ) (account : String)
      (tk : Token) (h : ℕ)
      → IsFresh (ids_from idx events) st.0.ledger_db
      → All IsPosted (posted events)
      → IsAccount account
      → height ≤ h
      → ledger_sum account tk h (post_events decimal query_to height idx events st).0.ledger_db
        ≡ ledger_sum account tk h st.0.ledger_db +ℤ credited account tk (posted events)
  unfolding post_events ids_from
  ledger_sum-post_events height idx [] st account tk h fresh ops ext le =
      rw posted-nil (sym (+ℤ_zero _))
  ledger_sum-post_events height idx (e ∷ events) st account tk h fresh ops ext le =
      elim (Option-cases e.op) [
        | inl none_there ↦
            subst
              (λ s.
                ledger_sum account tk h
                  (post_events decimal query_to height (idx + 1) events s).0.ledger_db
                ≡ ledger_sum account tk h st.0.ledger_db
                  +ℤ credited account tk (posted (e ∷ events)))
              (sym (post_event-none height idx e st none_there))
              (rw (posted-none e events none_there) (
                ledger_sum-post_events height (idx + 1) events st account tk h
                  (IsFresh-rest _ _ _ fresh)
                  (subst (All IsPosted) (posted-none e events none_there) ops) ext le))
        | inr (op, is_op) ↦
            let (kind, kinds) = subst (All IsPosted) (posted-some e events op is_op) ops in
            let effect = post_event-Effect height idx e op st is_op kind in
            let rest =
              ledger_sum-post_events height (idx + 1) events
                (post_event decimal query_to height idx e st) account tk h
                (Effect-IsFresh _ height op _ _ _ effect fresh) kinds ext le in
            let first =
              Effect-sum _ height op _ _ account tk h effect (IsFresh-new _ _ _ fresh) ext le in
            rest
            ∙ rw (first, posted-some e events op is_op)
                (+ℤ_assoc (ledger_sum account tk h st.0.ledger_db) (delta account tk op)
                  (credited account tk (posted events)))
      ]
