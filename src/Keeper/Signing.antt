-- ===== src/Keeper/Signing.antt =====
-- runBatchOperation, handleBlockTick and handleMessage of services/new/witness/balanceKeeper.ts: a
-- batch of withdrawals is signed by the owners of the multisig account. Hive, its signatures and
-- the channel between the nodes are parameters.
use vsc_node.Prelude.{
  ℕ, ◌%◌, String, List, [], ◌∷◌, ◌++◌, Option, none, some, Bool, false, ◌&&◌, ltb, leb, ◌==◌,
  str_eq, length, find, if◌then◌else◌, ◌>>=◌,
}
use vsc_node.Election.Weights.{includes}
use vsc_node.Election.Store.{Member}
use vsc_node.Schedule.Plan.{Slot}
use vsc_node.Keeper.Store.{Withdrawal}
use vsc_node.Keeper.Withdrawals.{Batch, create_withdraw_tx}

-- The owner authority of the multisig account; the weights of its keys are not read.
pub record Authority : Type 0 where
  pub weight_threshold : ℕ
  pub keys : List String

pub data BatchResult : Type 0 where
  batch_threw : BatchResult
  not_signed : BatchResult
  broadcast : Batch → List String → BatchResult

-- `public_key_of` is the key that a signature of the batch derives to; `none` is an exception.
module _ (exists_on_hive : String → Bool) (public_key_of : Batch → String → Option String) where
  unfoldable pub add_signature : String → List String → List String
  add_signature signature signatures =
      if includes signature signatures then signatures else signatures ++ signature ∷ []

  -- The loop over the answers, which ends early once there are enough.
  unfoldable pub collect : Authority → Batch → List String → List String → Option (List String)
  collect authority batch signatures [] = some signatures
  collect authority batch signatures (signature ∷ drain) =
      let added = add_signature signature signatures in
      let more = collect authority batch added drain in
      let ignored = collect authority batch signatures drain in
      elim (public_key_of batch signature) as (λ k. Option (List String)) [
        | none ↦ none
        | some key ↦
            if includes key authority.keys
            then if leb authority.weight_threshold (length added) then some added else more
            else ignored
      ]

  unfoldable pub send_signed : Authority → Batch → Option (List String) → BatchResult
  send_signed authority batch none = batch_threw
  send_signed authority batch (some signatures) =
      if leb authority.weight_threshold (length signatures)
      then broadcast batch signatures
      else not_signed

  unfoldable pub run_batch_operation : Authority → List String → List Withdrawal → BatchResult
  run_batch_operation authority drain db = elim (create_withdraw_tx exists_on_hive db) [
    | none ↦ batch_threw
    | some batch ↦ send_signed authority batch (collect authority batch [] drain)
  ]

  unfoldable pub is_own : Option Member → String → Bool
  is_own none account = false
  is_own (some m) account = str_eq m.account account

  -- Whether this node runs the batch of a block: the first slot from the block on is its own.
  unfoldable pub is_batch_turn : ℕ → ℕ → List Slot → String → Bool
  is_batch_turn height parse_lag schedule account =
      height % 20 == 0 && ltb parse_lag 5 && elim (find (λ slot. leb height slot.bn) schedule) [
        | none ↦ false
        | some slot ↦ is_own slot.witness account
      ]

  unfoldable pub handle_block_tick :
      ℕ → ℕ → List Slot → String → Authority → List String → List Withdrawal → Option BatchResult
  handle_block_tick height parse_lag schedule account authority drain db =
      if is_batch_turn height parse_lag schedule account
      then some (run_batch_operation authority drain db)
      else none

  -- The node's key: the first of those from its wallet that is an owner's, or the one it was started
  -- with. `public_of` is the public key of a private one.
  unfoldable pub signing_key :
      (String → String) → Authority → List String → Option String → Option String
  signing_key public_of authority wallet startup =
      elim (find (λ key. includes (public_of key) authority.keys) wallet) [
        | none ↦ startup
        | some key ↦ some key
      ]

  -- The answer to a request, if there is one; `is_known` is whether the sender is a witness.
  unfoldable pub handle_message :
      (String → Batch → String)
      → (String → String)
      → Bool
      → ℕ
      → ℕ
      → Authority
      → List String
      → Option String
      → List Withdrawal
      → Option String
  handle_message sign public_of is_known height last_block authority wallet startup db =
      if is_known && ltb height last_block && height % 20 == 0
      then (do
        batch ← create_withdraw_tx exists_on_hive db
        key ← signing_key public_of authority wallet startup
        some (sign key batch))
      else none
