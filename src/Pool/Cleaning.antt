-- ===== src/Pool/Cleaning.antt =====
-- What transactionCleaner of services/new/transactionPool.ts leaves in the pool.
use vsc_node.Prelude.{
  ℕ, String, ◌≡◌, refl, ap, ◌∙◌, inl, inr, List, [], ◌∷◌, Option, none, some, Bool, false, ◌&&◌,
  ◌||◌, str_eq, if◌then◌else◌, Dict, lookup, filter, IsObject, arith, eq_iff, Bool-cases,
}
use vsc_node.Pool.Store.{TxRecord, Filter, Pool, Services}
use vsc_node.Pool.Ingest.{is_stale}
use vsc_node.Pool.Cleaner.{delete, current_nonce, is_old, clean_one, clean_all, transaction_cleaner}

module _ {V : Type 0} where
  lookup-delete :
      (key id : String) (dict : Dict V)
      → IsObject dict
      → lookup id (delete key dict) ≡ (if str_eq key id then none else lookup id dict)
  unfolding lookup delete IsObject
  lookup-delete key id [] h = ground arith
  lookup-delete key id ((k, v) ∷ rest) (h, hs) =
      ground (arith, lookup-delete key id rest hs, eq_iff k key, eq_iff k id, eq_iff key id)

  delete-IsObject : (key : String) (dict : Dict V) → IsObject dict → IsObject (delete key dict)
  unfolding IsObject delete
  delete-IsObject key [] h = tt
  delete-IsObject key ((k, v) ∷ rest) (h, hs) = elim (Bool-cases (str_eq k key)) [
    | inl same ↦ rw (same, delete) hs
    | inr other ↦
        rw (other, delete)
          (ground (arith, lookup-delete key k rest hs), delete-IsObject key rest hs)
  ]

module _ (services : Services) {State : Type 0} (bloom : Filter State) where
  -- A record of the list has the id and is stale.
  deletes : Dict ℕ → String → List (String × TxRecord) → Bool
  deletes nonces id [] = false
  deletes nonces id ((k, r) ∷ es) =
      str_eq k id && is_stale (current_nonce services bloom nonces r) r.nonce
      || deletes nonces id es

  clean_all-lookup :
      (nonces : Dict ℕ) (id : String) (es : List (String × TxRecord)) (pool : Pool State)
      → IsObject pool.txs
      → lookup id (clean_all services bloom nonces es pool).txs
        ≡ (if deletes nonces id es then none else lookup id pool.txs)
  unfolding clean_all deletes clean_one
  clean_all-lookup nonces id [] pool h = refl
  clean_all-lookup nonces id ((k, r) ∷ es) pool h =
      elim (Bool-cases (is_stale (current_nonce services bloom nonces r) r.nonce)) [
        | inl stale ↦
            rw (stale, clean_all, clean_one)
              (clean_all-lookup nonces id es
                  (record pool { txs = delete k pool.txs; rejected = bloom.add k pool.rejected })
                  (delete-IsObject k pool.txs h)
                ∙ ground (arith, lookup-delete k id pool.txs h))
        | inr fresh ↦
            rw (fresh, clean_all, clean_one) (clean_all-lookup nonces id es pool h ∙ ground arith)
      ]

  -- Whether the cleaner takes a record out: it waits since before the limit, and its accounts have
  -- reached a later nonce.
  unfoldable pub is_expired : ℕ → Dict ℕ → TxRecord → Bool
  is_expired limit nonces r =
      is_old services bloom limit r && is_stale (current_nonce services bloom nonces r) r.nonce

  unfoldable pub expires : ℕ → Dict ℕ → Option TxRecord → Bool
  expires limit nonces none = false
  expires limit nonces (some r) = is_expired limit nonces r

  deletes-filter :
      (limit : ℕ) (nonces : Dict ℕ) (id : String) (txs : Dict TxRecord)
      → IsObject txs
      → deletes nonces id (filter (λ e. is_old services bloom limit e.1) txs)
        ≡ expires limit nonces (lookup id txs)
  unfolding deletes lookup IsObject expires is_expired
  deletes-filter limit nonces id [] h = refl
  deletes-filter limit nonces id ((k, r) ∷ rest) (h, hs) =
      let later = deletes-filter limit nonces id rest hs in
      elim (Bool-cases (is_old services bloom limit r)) [
        | inl old ↦
            rw (old, filter)
              (elim (Bool-cases (str_eq k id)) [
                | inl same ↦
                    let absent : lookup id rest ≡ none = rw ((eq_iff k id).0 same) at h in
                    rw (same, later, absent) (ground arith)
                | inr other ↦ rw (other, later) refl
              ])
        | inr recent ↦
            rw (recent, filter)
              (elim (Bool-cases (str_eq k id)) [
                | inl same ↦
                    let absent : lookup id rest ≡ none = rw ((eq_iff k id).0 same) at h in
                    rw (same, later, absent, recent) refl
                | inr other ↦ rw (other, later) refl
              ])
      ]

  -- The cleaner takes out of the pool exactly the records that wait since before the limit and whose
  -- accounts have reached a later nonce, when no id stands twice in the collection.
  pub transaction_cleaner_exact :
      (limit : ℕ) (id : String) (pool : Pool State)
      → IsObject pool.txs
      → lookup id (transaction_cleaner services bloom limit pool).txs
        ≡ (if expires limit pool.nonces (lookup id pool.txs) then none else lookup id pool.txs)
  unfolding transaction_cleaner
  transaction_cleaner_exact limit id pool h =
      clean_all-lookup pool.nonces id (filter (λ e. is_old services bloom limit e.1) pool.txs) pool
        h
      ∙ ap (λ b. if b then none else lookup id pool.txs)
          (deletes-filter limit pool.nonces id pool.txs h)
