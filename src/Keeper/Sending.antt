-- ===== src/Keeper/Sending.antt =====
-- services/new/witness/balanceKeeper.ts: enough signatures of the owners get a batch sent.
use vsc_node.Prelude.{
  ℕ, suc, ◌+◌, ◌≤◌, String, ◌≡◌, ◌≢◌, refl, inl, inr, List, [], ◌∷◌, ◌++◌, Option, none, some, Bool,
  not, ◌&&◌, leb, leb→le, length, length-append, if◌then◌else◌, All, arith, Bool-cases,
  Option-cases,
}
use vsc_node.Election.Weights.{includes}
use vsc_node.Keeper.Store.{Withdrawal}
use vsc_node.Keeper.Withdrawals.{Batch, create_withdraw_tx}
use vsc_node.Keeper.Signing.{
  Authority, broadcast, add_signature, collect, send_signed, run_batch_operation,
}

module _ (exists_on_hive : String → Bool) (public_key_of : Batch → String → Option String) where
  -- How many signatures by the owners' keys there are, each counted once.
  unfoldable pub owners_signatures : Authority → Batch → List String → List String → ℕ
  owners_signatures authority batch seen [] = 0
  owners_signatures authority batch seen (signature ∷ drain) =
      elim (public_key_of batch signature) as (λ k. ℕ) [
        | none ↦ owners_signatures authority batch seen drain
        | some key ↦
            if includes key authority.keys && not (includes signature seen)
            then suc (owners_signatures authority batch (seen ++ signature ∷ []) drain)
            else owners_signatures authority batch seen drain
      ]

  collect_enough :
      (authority : Authority) (batch : Batch) (drain signatures : List String)
      → All (λ s. public_key_of batch s ≢ none) drain
      → authority.weight_threshold
        ≤ length signatures + owners_signatures authority batch signatures drain
      → (collected : List String) × ((collect exists_on_hive public_key_of authority batch
              signatures drain
            ≡ some collected)
          × (authority.weight_threshold ≤ length collected))
  unfolding collect owners_signatures add_signature
  collect_enough authority batch [] signatures readable enough = (signatures, (refl, omega arith))
  collect_enough authority batch (signature ∷ drain) signatures (h, hs) enough =
      elim (Option-cases (public_key_of batch signature)) [
        | inl unread ↦ absurd (h unread)
        | inr (key, read) ↦ elim (Bool-cases (includes key authority.keys)) [
          | inr foreign ↦
              let (collected, (ends, le)) =
                collect_enough authority batch drain signatures hs
                  (rw (read, owners_signatures, foreign) at enough) in
              (collected, (ground arith, le))
          | inl owners ↦ elim (Bool-cases (includes signature signatures)) [
            | inl known ↦ elim (Bool-cases (leb authority.weight_threshold (length signatures))) [
              | inl done ↦ (signatures, (ground arith, leb→le _ _ done))
              | inr few ↦
                  let (collected, (ends, le)) =
                    collect_enough authority batch drain signatures hs
                      (rw (read, owners_signatures, owners, known) at enough) in
                  (collected, (ground arith, le))
            ]
            | inr new ↦
                elim (Bool-cases
                  (leb authority.weight_threshold (length (signatures ++ signature ∷ [])))) [
                    | inl done ↦ (signatures ++ signature ∷ [], (ground arith, leb→le _ _ done))
                    | inr few ↦
                        let more : authority.weight_threshold
                            ≤ length signatures
                              + suc (
                                  owners_signatures authority batch (signatures ++ signature ∷ [])
                                    drain) =
                          rw (read, owners_signatures, owners, new) at enough in
                        let (collected, (ends, le)) =
                          collect_enough authority batch drain (signatures ++ signature ∷ []) hs
                            (omega (arith, length-append signatures (signature ∷ []))) in
                        (collected, (ground arith, le))
                  ]
          ]
        ]
      ]

  -- When there is a batch to pay, every answer is a signature that can be read, and the answers have
  -- as many different signatures by the owners' keys as the threshold asks for, the batch is sent.
  pub run_batch_operation_sends :
      (authority : Authority) (drain : List String) (db : List Withdrawal) (batch : Batch)
      → create_withdraw_tx exists_on_hive db ≡ some batch
      → All (λ s. public_key_of batch s ≢ none) drain
      → authority.weight_threshold ≤ owners_signatures authority batch [] drain
      → (signatures : List String) × (run_batch_operation exists_on_hive public_key_of authority
            drain db
          ≡ broadcast batch signatures)
  unfolding run_batch_operation send_signed
  run_batch_operation_sends authority drain db batch made readable enough =
      let (collected, (ends, le)) =
        collect_enough authority batch drain [] readable (omega arith) in
      (collected, rw (made, run_batch_operation, ends) (ground arith))
