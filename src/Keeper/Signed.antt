-- ===== src/Keeper/Signed.antt =====
-- services/new/witness/balanceKeeper.ts: which batches of withdrawals are sent.
use vsc_node.Prelude.{
  ◌≤◌, String, ◌≡◌, refl, subst, inl, inr, List, [], ◌∷◌, ◌++◌, Option, some, Bool, true, false,
  leb, leb→le, str_eq, eq_iff, length, All, All-append, arith, Bool-cases, Option-cases,
}
use vsc_node.Election.Weights.{includes}
use vsc_node.Keeper.Store.{Withdrawal}
use vsc_node.Keeper.Withdrawals.{Batch, create_withdraw_tx}
use vsc_node.Keeper.Signing.{
  Authority, broadcast, add_signature, collect, send_signed, run_batch_operation,
}

unfoldable pub IsDistinct : List String → Type 0
IsDistinct [] = Unit
IsDistinct (s ∷ signatures) = (includes s signatures ≡ false) × IsDistinct signatures

includes-append :
    (s t : String) (signatures : List String)
    → includes s signatures ≡ false
    → str_eq t s ≡ false
    → includes s (signatures ++ t ∷ []) ≡ false
unfolding includes
includes-append s t [] h h' = ground arith
includes-append s t (u ∷ signatures) h h' = ground (arith, includes-append s t signatures)

append-IsDistinct :
    (signature : String) (signatures : List String)
    → includes signature signatures ≡ false
    → IsDistinct signatures
    → IsDistinct (signatures ++ signature ∷ [])
unfolding IsDistinct includes
append-IsDistinct signature [] new h = (refl, tt)
append-IsDistinct signature (s ∷ signatures) new (h, hs) = (
  includes-append s signature signatures h (ground (arith, eq_iff s signature, eq_iff signature s)),
  append-IsDistinct signature signatures (ground arith) hs,
)

module _ (exists_on_hive : String → Bool) (public_key_of : Batch → String → Option String) where
  -- A signature of the batch by an owner's key.
  abbrev pub IsOwners : Authority → Batch → String → Type 0
  IsOwners authority batch signature =
      (key : String) × ((public_key_of batch signature ≡ some key)
        × (includes key authority.keys ≡ true))

  add_signature-IsOwners :
      (authority : Authority) (batch : Batch) (signature : String) (signatures : List String)
      → IsOwners authority batch signature
      → All (IsOwners authority batch) signatures
      → All
          (IsOwners authority batch)
          (add_signature exists_on_hive public_key_of signature signatures)
  unfolding add_signature
  add_signature-IsOwners authority batch signature signatures new all =
      elim (Bool-cases (includes signature signatures)) [
        | inl known ↦ rw known all
        | inr other ↦
            rw other
              (All-append (IsOwners authority batch) signatures (signature ∷ []) all (new, tt))
      ]

  add_signature-IsDistinct :
      (signature : String) (signatures : List String)
      → IsDistinct signatures
      → IsDistinct (add_signature exists_on_hive public_key_of signature signatures)
  unfolding add_signature
  add_signature-IsDistinct signature signatures h =
      elim (Bool-cases (includes signature signatures)) [
        | inl known ↦ rw known h
        | inr other ↦ rw other (append-IsDistinct signature signatures other h)
      ]

  collect-IsOwners :
      (authority : Authority) (batch : Batch) (drain signatures collected : List String)
      → All (IsOwners authority batch) signatures
      → IsDistinct signatures
      → collect exists_on_hive public_key_of authority batch signatures drain ≡ some collected
      → All (IsOwners authority batch) collected × IsDistinct collected
  unfolding collect
  collect-IsOwners authority batch [] signatures collected all apart e =
      let same : signatures ≡ collected = ground arith in
      subst (λ l. All (IsOwners authority batch) l × IsDistinct l) same (all, apart)
  collect-IsOwners authority batch (signature ∷ drain) signatures collected all apart e =
      elim (Option-cases (public_key_of batch signature)) [
        | inl unread ↦ absurd (ground arith)
        | inr (key, read) ↦ elim (Bool-cases (includes key authority.keys)) [
          | inr foreign ↦
              collect-IsOwners authority batch drain signatures collected all apart (ground arith)
          | inl owners ↦
              let added = add_signature exists_on_hive public_key_of signature signatures in
              let all' =
                add_signature-IsOwners authority batch signature signatures (key, (read, owners))
                  all in
              let apart' = add_signature-IsDistinct signature signatures apart in
              elim (Bool-cases (leb authority.weight_threshold (length added))) [
                | inl enough ↦
                    let same : added ≡ collected = ground arith in
                    subst (λ l. All (IsOwners authority batch) l × IsDistinct l) same (all', apart')
                | inr few ↦
                    collect-IsOwners authority batch drain added collected all' apart'
                      (ground arith)
              ]
        ]
      ]

  -- A batch that is sent is the one of the withdrawals that wait, and it has as many signatures as
  -- the threshold of the multisig account asks for, no two the same and each by a key of its owners.
  pub run_batch_operation-IsOwners :
      (authority : Authority) (drain : List String) (db : List Withdrawal) (batch : Batch)
      (signatures : List String)
      → run_batch_operation exists_on_hive public_key_of authority drain db
        ≡ broadcast batch signatures
      → (create_withdraw_tx exists_on_hive db ≡ some batch)
        × ((authority.weight_threshold ≤ length signatures)
            × (All (IsOwners authority batch) signatures × IsDistinct signatures))
  unfolding run_batch_operation send_signed IsDistinct
  run_batch_operation-IsOwners authority drain db batch signatures e =
      elim (Option-cases (create_withdraw_tx exists_on_hive db)) [
        | inl unpaid ↦ absurd (ground arith)
        | inr (made, is_made) ↦
            elim (Option-cases (collect exists_on_hive public_key_of authority made [] drain)) [
              | inl failed ↦ absurd (ground arith)
              | inr (collected, ends) ↦
                  elim (Bool-cases (leb authority.weight_threshold (length collected))) [
                    | inr few ↦ absurd (ground arith)
                    | inl enough ↦
                        let same : made ≡ batch = ground arith in
                        let sent : collected ≡ signatures = ground arith in
                        subst
                          (λ b.
                            (create_withdraw_tx exists_on_hive db ≡ some b)
                            × ((authority.weight_threshold ≤ length signatures)
                                × (All (IsOwners authority b) signatures × IsDistinct signatures)))
                          same
                          (subst
                            (λ l.
                              (create_withdraw_tx exists_on_hive db ≡ some made)
                              × ((authority.weight_threshold ≤ length l)
                                  × (All (IsOwners authority made) l × IsDistinct l)))
                            sent
                            (
                              is_made,
                              (
                                leb→le _ _ enough,
                                collect-IsOwners authority made drain [] collected tt tt ends,
                              ),
                            ))
                  ]
            ]
      ]
