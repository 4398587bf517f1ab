-- ===== src/Keeper/Ticks.antt =====
-- services/new/witness/balanceKeeper.ts: the balances after a transaction of Hive.
use vsc_node.Prelude.{
  ℕ, ◌+◌, ◌≤◌, String, ◌≡◌, refl, sym, inl, inr, List, [], ◌∷◌, All, true, false, ◌&&◌, str_eq,
  if◌then◌else◌, Bool-cases, Option-cases,
}
use vsc_node.Prelude.Int.{ℤ, pos, ◌+ℤ◌, +ℤ_assoc, +ℤ_zero}
use vsc_node.Ledger.Types.{Token, amount_of}
use vsc_node.Keeper.Store.{LedgerEntry, snapshot_amount, get_snapshot}
use vsc_node.Keeper.Appending.{has_id, IsFresh, sum-append, append-IsFresh}
use vsc_node.Keeper.Deposits.{
  TickOp, custom_json, transfer, other_op, HiveTx, TickState, then_tick, state_of, TickServices,
  deposit_id, handle_ops, is_by_multisig, confirm_batch, dispatch_tick, handle_tx_tick,
}
use vsc_node.Keeper.Crediting.{is_whole, credit_of, credits, deposit_ids, Effect, handle_op-Effect}

head-IsFresh :
    (id : String) (ids : List String) (db : List LedgerEntry)
    → IsFresh (id ∷ ids) db
    → has_id id db ≡ false
unfolding IsFresh
head-IsFresh id ids db (new, apart, rest) = new

module _ (services : TickServices) where
  Effect-amount :
      (tx : HiveTx) (idx : ℕ) (op : TickOp) (st st' : TickState) (account : String) (tk : Token)
      (height : ℕ)
      → tx.height ≤ height
      → Effect services tx idx op st st'
      → snapshot_amount st'.keeper account height tk
        ≡ snapshot_amount st.keeper account height tk +ℤ credit_of services tx account tk op
  unfolding Effect snapshot_amount
  Effect-amount tx idx op st st' account tk height le (kept, inl (same, nothing)) =
      rw (kept, same, nothing account tk) (sym (+ℤ_zero _))
  Effect-amount tx idx op st st' account tk height le (kept, inr (e, (is_id, (update, share)))) =
      rw
        (
          kept,
          update,
          sum-append account tk height st.keeper.ledger_db e,
          share account tk height le,
        )
        (sym (+ℤ_assoc _ _ _))

  Effect-IsFresh :
      (tx : HiveTx) (idx : ℕ) (op : TickOp) (st st' : TickState) (ids : List String)
      → IsFresh (deposit_id services tx.tx_id idx ∷ ids) st.keeper.ledger_db
      → Effect services tx idx op st st'
      → IsFresh ids st'.keeper.ledger_db
  unfolding Effect IsFresh
  Effect-IsFresh tx idx op st st' ids (new, apart, fresh) (kept, inl (same, nothing)) =
      rw same fresh
  Effect-IsFresh tx idx op st st' ids (new, apart, fresh)
        (kept, inr (e, (is_id, (update, share)))) =
      rw update (append-IsFresh ids st.keeper.ledger_db e fresh (rw is_id apart))

  handle_ops-amount :
      (tx : HiveTx) (idx : ℕ) (ops : List TickOp) (st : TickState) (account : String) (tk : Token)
      (height : ℕ)
      → tx.height ≤ height
      → IsFresh (deposit_ids services tx idx ops) st.keeper.ledger_db
      → All (λ op. is_whole services op ≡ true) ops
      → snapshot_amount (state_of (handle_ops services tx idx ops st)).keeper account height tk
        ≡ snapshot_amount st.keeper account height tk +ℤ credits services tx account tk ops
  unfolding handle_ops credits deposit_ids state_of then_tick
  handle_ops-amount tx idx [] st account tk height le fresh whole = sym (+ℤ_zero _)
  handle_ops-amount tx idx (op ∷ ops) st account tk height le fresh (is_w, whole) =
      elim (handle_op-Effect services tx idx op st (head-IsFresh _ _ _ fresh) is_w) [
        | inl (throws, unreadable) ↦ rw (throws, unreadable) (sym (+ℤ_zero _))
        | inr (st', (ends, (readable, effect))) ↦
            rw
              (
                ends,
                readable,
                handle_ops-amount tx (idx + 1) ops st' account tk height le
                    (Effect-IsFresh tx idx op st st' (deposit_ids services tx (idx + 1) ops) fresh
                      effect)
                    whole,
                Effect-amount tx idx op st st' account tk height le effect,
              )
              (+ℤ_assoc _ _ _)
      ]

  -- What a transaction deposits: nothing when it refers to a batch of withdrawals.
  unfoldable pub deposited : HiveTx → List TickOp → String → Token → ℤ
  deposited tx [] account tk = pos 0
  deposited tx (custom_json id auths json ∷ ops) account tk =
      if str_eq id "vsc.bridge_ref" && is_by_multisig services auths
      then pos 0
      else credits services tx account tk (custom_json id auths json ∷ ops)
  deposited tx (transfer op ∷ ops) account tk = credits services tx account tk (transfer op ∷ ops)
  deposited tx (other_op ∷ ops) account tk = credits services tx account tk (other_op ∷ ops)

  confirm_batch-amount :
      (tx : HiveTx) (json : String) (st : TickState) (account : String) (tk : Token) (height : ℕ)
      → snapshot_amount (confirm_batch services tx.tx_id json st).keeper account height tk
        ≡ snapshot_amount st.keeper account height tk
  unfolding confirm_batch snapshot_amount
  confirm_batch-amount tx json st account tk height =
      elim (Option-cases (services.withdrawals_of json)) [
        | inl unread ↦ rw (unread, confirm_batch) refl
        | inr (ids, read) ↦ rw (read, confirm_batch) refl
      ]

  dispatch_tick-amount :
      (tx : HiveTx) (ops : List TickOp) (st : TickState) (account : String) (tk : Token)
      (height : ℕ)
      → tx.height ≤ height
      → IsFresh (deposit_ids services tx 0 ops) st.keeper.ledger_db
      → All (λ op. is_whole services op ≡ true) ops
      → snapshot_amount (state_of (dispatch_tick services tx ops st)).keeper account height tk
        ≡ snapshot_amount st.keeper account height tk +ℤ deposited tx ops account tk
  unfolding dispatch_tick deposited state_of
  dispatch_tick-amount tx [] st account tk height le fresh whole = sym (+ℤ_zero _)
  dispatch_tick-amount tx (transfer op ∷ ops) st account tk height le fresh whole =
      handle_ops-amount tx 0 (transfer op ∷ ops) st account tk height le fresh whole
  dispatch_tick-amount tx (other_op ∷ ops) st account tk height le fresh whole =
      handle_ops-amount tx 0 (other_op ∷ ops) st account tk height le fresh whole
  dispatch_tick-amount tx (custom_json id auths json ∷ ops) st account tk height le fresh whole =
      elim (Bool-cases (str_eq id "vsc.bridge_ref" && is_by_multisig services auths)) [
        | inl batch ↦
            rw (batch, confirm_batch-amount tx json st account tk height) (sym (+ℤ_zero _))
        | inr ordinary ↦ rw ordinary (
            handle_ops-amount tx 0 (custom_json id auths json ∷ ops) st account tk height le fresh
              whole)
      ]

  -- When the amounts of a Hive transaction give whole numbers as the code multiplies them by a
  -- thousand, and the ids of its deposits are new to the ledger and differ from each other, its tick
  -- adds to each account's snapshot, from its block on and in each token, the amounts of the
  -- transfers to the multisig account that name the account as their owner and are no donations, up
  -- to the first memo that makes the handler throw, and nothing when its first operation confirms a
  -- batch of withdrawals.
  pub handle_tx_tick-get_snapshot :
      (tx : HiveTx) (st : TickState) (account : String) (tk : Token) (height : ℕ)
      → tx.height ≤ height
      → IsFresh (deposit_ids services tx 0 tx.operations) st.keeper.ledger_db
      → All (λ op. is_whole services op ≡ true) tx.operations
      → amount_of (get_snapshot (state_of (handle_tx_tick services tx st)).keeper account height) tk
        ≡ amount_of (get_snapshot st.keeper account height) tk
          +ℤ deposited tx tx.operations account tk
  unfolding handle_tx_tick get_snapshot
  handle_tx_tick-get_snapshot tx st account Token.hive height le fresh whole =
      dispatch_tick-amount tx tx.operations st account Token.hive height le fresh whole
  handle_tx_tick-get_snapshot tx st account Token.hbd height le fresh whole =
      dispatch_tick-amount tx tx.operations st account Token.hbd height le fresh whole
