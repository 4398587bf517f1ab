-- ===== src/Keeper/Crediting.antt =====
-- services/new/witness/balanceKeeper.ts: what handleTxTick adds to the balances of the owners.
use vsc_node.Prelude.{
  ℕ, ◌+◌, ◌≤◌, String, ◌≡◌, refl, ◌⊎◌, inl, inr, List, [], ◌∷◌, ◌++◌, Option, none, some, Bool,
  true, false, ◌&&◌, ◌||◌, str_eq, if◌then◌else◌, arith, Bool-cases, Option-cases,
}
use vsc_node.Prelude.Int.{ℤ, pos, ◌+ℤ◌}
use vsc_node.Ledger.Types.{Token, token_eq}
use vsc_node.Keeper.Store.{LedgerEntry, counts}
use vsc_node.Keeper.Appending.{has_id, entry_share, upsert-append}
use vsc_node.Keeper.Deposits.{
  HiveTransfer, TickOp, custom_json, transfer, other_op, HiveTx, Memo, Input, TickState, threw,
  ticked, is_action, memo_at, TickServices, deposit_id, deposit_entry, withdraw_input,
  store_deposit, store_input, take_deposit, store_sent, owner_of, handle_op,
}

module _ (services : TickServices) where
  unfoldable pub is_donation : Memo → Bool
  is_donation memo = is_action "donate_fill" memo.action || is_action "donate" memo.action

  -- A transfer to the multisig account with a memo that makes the handler throw.
  unfoldable pub is_unreadable : HiveTx → TickOp → Bool
  is_unreadable tx (custom_json id auths json) = false
  is_unreadable tx other_op = false
  is_unreadable tx (transfer op) =
      str_eq services.multisig op.to
      && elim (owner_of services tx op) [ none ↦ true | some o ↦ false ]

  -- A transfer has an amount whose product with a thousand is a whole number.
  unfoldable pub is_whole : TickOp → Bool
  is_whole (custom_json id auths json) = true
  is_whole other_op = true
  is_whole (transfer op) = elim (services.product op.amount) [ none ↦ false | some sent ↦ true ]

  unfoldable pub amount_in : HiveTransfer → ℤ
  amount_in op = elim (services.product op.amount) [ none ↦ pos 0 | some sent ↦ sent ]

  -- What an operation deposits for an account in a token.
  unfoldable pub credit_of : HiveTx → String → Token → TickOp → ℤ
  credit_of tx account tk (custom_json id auths json) = pos 0
  credit_of tx account tk other_op = pos 0
  credit_of tx account tk (transfer op) =
      if str_eq services.multisig op.to
      then elim (owner_of services tx op) [
        | none ↦ pos 0
        | some (memo, dest) ↦
            if is_donation memo
            then pos 0
            else if token_eq op.tk tk && str_eq dest account
            then amount_in op
            else pos 0
      ]
      else pos 0

  -- The deposits up to the first memo that makes the handler throw.
  unfoldable pub credits : HiveTx → String → Token → List TickOp → ℤ
  credits tx account tk [] = pos 0
  credits tx account tk (op ∷ ops) =
      if is_unreadable tx op then pos 0 else credit_of tx account tk op +ℤ credits tx account tk ops

  unfoldable pub deposit_ids : HiveTx → ℕ → List TickOp → List String
  deposit_ids tx idx [] = []
  deposit_ids tx idx (op ∷ ops) = deposit_id services tx.tx_id idx ∷ deposit_ids tx (idx + 1) ops

  -- An operation leaves the ledger, or appends an entry with the credit.
  unfoldable pub Effect : HiveTx → ℕ → TickOp → TickState → TickState → Type 0
  Effect tx idx op st st' =
      (st'.keeper.balance_db ≡ st.keeper.balance_db)
      × (((st'.keeper.ledger_db ≡ st.keeper.ledger_db)
            × ((account : String) (tk : Token) → credit_of tx account tk op ≡ pos 0))
          ⊎ ((e : LedgerEntry) × ((e.id ≡ deposit_id services tx.tx_id idx)
                × ((st'.keeper.ledger_db ≡ st.keeper.ledger_db ++ e ∷ [])
                    × ((account : String) (tk : Token) (height : ℕ)
                        → tx.height ≤ height
                        → entry_share account tk height e ≡ credit_of tx account tk op)))))

  store_input-keeper :
      (wanted : Bool) (i : Input) (st : TickState)
      → (store_input services wanted i st).keeper ≡ st.keeper
  unfolding store_input
  store_input-keeper true i st = refl
  store_input-keeper false i st = refl

  share_of_entry :
      (tx : HiveTx) (idx : ℕ) (op : HiveTransfer) (sent : ℤ) (dest : String) (memo : Option String)
      (account : String) (tk : Token) (height : ℕ)
      → tx.height ≤ height
      → entry_share account tk height
          (record (deposit_entry services tx idx op sent dest) { memo = memo })
        ≡ (if token_eq op.tk tk && str_eq dest account then sent else pos 0)
  unfolding deposit_entry counts
  share_of_entry tx idx op sent dest memo account tk height le = ground arith

  take_deposit-Effect :
      (tx : HiveTx) (idx : ℕ) (op : HiveTransfer) (sent : ℤ) (memo : Memo) (dest : String)
      (st : TickState)
      → has_id (deposit_id services tx.tx_id idx) st.keeper.ledger_db ≡ false
      → str_eq services.multisig op.to ≡ true
      → owner_of services tx op ≡ some (memo, dest)
      → services.product op.amount ≡ some sent
      → (st' : TickState) × ((take_deposit services tx idx op memo dest st ≡ ticked st')
          × Effect tx idx (transfer op) st st')
  unfolding Effect credit_of take_deposit is_donation store_sent store_deposit deposit_entry
      deposit_id amount_in
  take_deposit-Effect tx idx op sent memo dest st new here owner whole =
      let donated = is_action "donate_fill" memo.action || is_action "donate" memo.action in
      elim (Bool-cases donated) [
        | inl given ↦
            (st, (rw given refl, (refl, inl (refl, λ account tk. rw (here, owner, given) refl))))
        | inr kept ↦
            let wanted = is_action "withdraw" memo.action in
            let input = withdraw_input services tx idx op sent memo dest in
            let entry : LedgerEntry = record (deposit_entry services tx idx op sent dest) {
              memo = memo_at (deposit_id services tx.tx_id idx) st.keeper.ledger_db;
            } in
            (
              store_deposit services (deposit_entry services tx idx op sent dest)
                  (store_input services wanted input st),
              (
                rw (kept, whole) refl,
                rw (store_input-keeper wanted input st) (
                  refl,
                  inr (
                    entry,
                    (
                      refl,
                      (
                        upsert-append entry st.keeper.ledger_db new,
                        λ account tk height le.
                            rw (here, owner, kept, whole, amount_in)
                              (share_of_entry tx idx op sent dest
                                (memo_at (deposit_id services tx.tx_id idx) st.keeper.ledger_db)
                                account tk height le),
                      ),
                    ),
                  ),
                ),
              ),
            )
      ]

  pub handle_op-Effect :
      (tx : HiveTx) (idx : ℕ) (op : TickOp) (st : TickState)
      → has_id (deposit_id services tx.tx_id idx) st.keeper.ledger_db ≡ false
      → is_whole op ≡ true
      → ((handle_op services tx idx op st ≡ threw st) × (is_unreadable tx op ≡ true))
        ⊎ ((st' : TickState) × ((handle_op services tx idx op st ≡ ticked st')
              × ((is_unreadable tx op ≡ false) × Effect tx idx op st st')))
  unfolding handle_op is_unreadable credit_of is_whole Effect
  handle_op-Effect tx idx (custom_json id auths json) st new whole =
      inr (st, (refl, (refl, (refl, inl (refl, λ account tk. refl)))))
  handle_op-Effect tx idx other_op st new whole =
      inr (st, (refl, (refl, (refl, inl (refl, λ account tk. refl)))))
  handle_op-Effect tx idx (transfer op) st new whole =
      elim (Bool-cases (str_eq services.multisig op.to)) [
        | inr elsewhere ↦ inr (
          st,
          (
            rw elsewhere refl,
            (rw elsewhere refl, (refl, inl (refl, λ account tk. rw elsewhere refl))),
          ),
        )
        | inl here ↦ elim (Option-cases (owner_of services tx op)) [
          | inl none_of ↦ inl (rw (here, none_of) refl, rw (here, none_of) refl)
          | inr ((memo, dest), owner) ↦ elim (Option-cases (services.product op.amount)) [
            | inl none_sent ↦ absurd (ground arith)
            | inr (sent, is_sent) ↦
                let (st', (ends, effect)) =
                  take_deposit-Effect tx idx op sent memo dest st new here owner is_sent in
                inr (st', (rw (here, owner) ends, (rw (here, owner) refl, effect)))
          ]
        ]
      ]
