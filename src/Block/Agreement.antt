-- ===== src/Block/Agreement.antt =====
-- A witness that receives the ids of a proposer's inputs selects them again, and so rebuilds the
-- proposer's block.
use vsc_node.Prelude.{
  ℕ, String, ◌≡◌, refl, sym, ap, ◌∙◌, List, [], ◌∷◌, map, Option, some, false, Dict, str_eq, All,
  Bool-cases, inl, inr, if-holds,
}
use vsc_node.Ledger.Context.{Tx}
use vsc_node.Block.Nonces.{check_nonce, select_txs}
use vsc_node.Block.Turns.{after_turn, expected, expected-check_nonce}
use vsc_node.Block.Create.{Services, create_block}
use vsc_node.Block.Proposals.{gather}

module _ (key_id : List String → String) (stored : String → Option ℕ) where
  -- Two maps of nonces from which every group expects the same.
  abbrev Agree : Dict ℕ → Dict ℕ → Type 0
  Agree nonces other =
      (key : String) → expected key_id stored key nonces ≡ expected key_id stored key other

  Agree-turn :
      (tx : Tx) (nonces other : Dict ℕ)
      → Agree nonces other
      → ((check_nonce key_id stored tx nonces).0 ≡ (check_nonce key_id stored tx other).0)
        × Agree (check_nonce key_id stored tx nonces).1 (check_nonce key_id stored tx other).1
  Agree-turn tx nonces other h = (
    rw
        (
          (expected-check_nonce key_id stored tx "" nonces).0,
          (expected-check_nonce key_id stored tx "" other).0,
          h (key_id tx.required_auths),
        )
        refl,
    λ key.
        rw
          (
            (expected-check_nonce key_id stored tx key nonces).1,
            (expected-check_nonce key_id stored tx key other).1,
            h (key_id tx.required_auths),
            h key,
          )
          refl,
  )

  dropped_turn :
      (tx : Tx) (nonces : Dict ℕ)
      → (check_nonce key_id stored tx nonces).0 ≡ false
      → Agree (check_nonce key_id stored tx nonces).1 nonces
  dropped_turn tx nonces h key =
      (expected-check_nonce key_id stored tx key nonces).1
      ∙ ap
          (λ kept.
            after_turn kept (str_eq (key_id tx.required_auths) key)
              (expected key_id stored key nonces))
          (sym ((expected-check_nonce key_id stored tx key nonces).0) ∙ h)

  reselect :
      (txs : List Tx) (nonces other : Dict ℕ)
      → Agree nonces other
      → (select_txs key_id stored (select_txs key_id stored txs nonces).0 other).0
        ≡ (select_txs key_id stored txs nonces).0
  unfolding select_txs
  reselect [] nonces other h = refl
  reselect (tx ∷ txs) nonces other h =
      let (same, agree) = Agree-turn tx nonces other h in
      elim (Bool-cases (check_nonce key_id stored tx nonces).0) [
        | inl kept ↦ rw (kept, sym same ∙ kept) (ap (λ l. tx ∷ l) (reselect txs _ _ agree))
        | inr dropped ↦ rw dropped (
            reselect txs (check_nonce key_id stored tx nonces).1 other
              (λ key. dropped_turn tx nonces dropped key ∙ h key))
      ]

  -- Every selected transaction is a candidate.
  selected-All :
      (P : Tx → Type 0) (txs : List Tx) (nonces : Dict ℕ)
      → All P txs
      → All P (select_txs key_id stored txs nonces).0
  unfolding select_txs
  selected-All P [] nonces h = h
  selected-All P (tx ∷ txs) nonces (h, hs) =
      let rest = selected-All P txs (check_nonce key_id stored tx nonces).1 hs in
      if-holds (λ l. All P l) (check_nonce key_id stored tx nonces).0 (h, rest) rest

gather-known :
    (find_tx : String → Option Tx) (txs : List Tx)
    → All (λ tx. find_tx tx.id ≡ some tx) txs
    → gather find_tx (map (λ tx. tx.id) txs) ≡ some txs
unfolding gather
gather-known find_tx [] h = refl
gather-known find_tx (tx ∷ txs) (h, hs) = rw (h, gather-known find_tx txs hs) refl

-- When a proposer creates a block from its candidates, and another witness knows every candidate by
-- its id, the ids of the selected candidates resolve at that witness, and the block that it creates
-- from them is the proposer's. The two have the same stored nonces, balance snapshots, contracts and
-- state of the VM, included transactions and previous block, and the hashes and the content ids are
-- functions.
pub create_block_agree :
    {Vm : Type 0} (services : Services Vm) (find_tx : String → Option Tx)
    (candidates transactions : List Tx) (prev : Option String)
    → All (λ tx. find_tx tx.id ≡ some tx) candidates
    → let selected = (select_txs services.key_id services.stored candidates []).0 in
      (gather find_tx (map (λ tx. tx.id) selected) ≡ some selected)
      × (create_block services selected transactions prev
          ≡ create_block services candidates transactions prev)
unfolding create_block
create_block_agree services find_tx candidates transactions prev known = (
  gather-known find_tx (select_txs services.key_id services.stored candidates []).0
      (selected-All services.key_id services.stored _ candidates [] known),
  rw (reselect services.key_id services.stored candidates [] [] (λ key. refl)) refl,
)
