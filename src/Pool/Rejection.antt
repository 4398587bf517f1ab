-- ===== src/Pool/Rejection.antt =====
-- Rejected transactions and the announcements that name them: onTxAnnounce of
-- services/new/transactionPool.ts over any history of the pool.
use vsc_node.Prelude.{
  ℕ, String, ◌≡◌, refl, sym, ap, subst, ◌∙◌, inl, inr, List, [], ◌∷◌, Option, none, some, true,
  str_eq, Dict, lookup, filter, arith, eq_iff, Bool-cases, Option-cases,
}
use vsc_node.Pool.Store.{Container, TxRecord, Filter, Pool, Services}
use vsc_node.Pool.Signature.{verify_tx_signature}
use vsc_node.Pool.Sole.{Checked-cases}
use vsc_node.Pool.Ingest.{
  Message, sig_data_of, handled, ingested, is_stale, is_outdated, add_tx, fetch, check_and_add,
  insert_one, add_announced, on_tx_announce, add_if_new, ingest_tx,
}
use vsc_node.Pool.Agreement.{ingest_tx_stores}
use vsc_node.Pool.Cleaner.{
  HiveOp, parse_ops, current_nonce, is_old, clean_one, clean_all, transaction_cleaner,
}
use vsc_node.Pool.Cleaning.{is_expired}

module _ (services : Services) {State : Type 0} (bloom : Filter State) where
  -- What the node does with its pool.
  pub data Step (pool pool' : Pool State) : Type 0 where
    announce :
        (now : ℕ) (message : Message)
        → on_tx_announce services bloom now message pool ≡ handled pool'
        → Step pool pool'
    ingest :
        (now : ℕ) (tx sig id : String) (message : Message)
        → ingest_tx services bloom now tx sig pool ≡ ingested pool' id message
        → Step pool pool'
    clean : (limit : ℕ) → pool' ≡ transaction_cleaner services bloom limit pool → Step pool pool'
    parse :
        (net_id tx_id : String) (decimal : ℕ → String) (height index now : ℕ) (ops : List HiveOp)
        → pool'
          ≡ record pool { txs = parse_ops net_id tx_id decimal height index now 0 ops pool.txs }
        → Step pool pool'
    confirm :
        (nonces : Dict ℕ) (txs : Dict TxRecord)
        → pool' ≡ record pool { nonces = nonces; txs = txs }
        → Step pool pool'

  pub data History (pool : Pool State) : Pool State → Type 0 where
    start : History pool pool
    then_step :
        {pool' pool'' : Pool State} → History pool pool' → Step pool' pool'' → History pool pool''

  -- Every rejected id stays rejected.
  abbrev Keeps : Pool State → Pool State → Type 0
  Keeps pool pool' =
      (id : String) → bloom.has pool.rejected id ≡ true → bloom.has pool'.rejected id ≡ true

  check_and_add-Keeps :
      (now : ℕ) (raw id : String) (tx : Container) (sig : Option String) (pool pool' : Pool State)
      → check_and_add services bloom now raw id tx sig pool ≡ handled pool'
      → Keeps pool pool'
  unfolding check_and_add insert_one add_tx
  check_and_add-Keeps now raw id tx none pool pool' h other was =
      let same : pool ≡ pool' = ground arith in
      subst (λ p. bloom.has p.rejected other ≡ true) same was
  check_and_add-Keeps now raw id tx (some sig) pool pool' h other was =
      elim (Option-cases (services.parse_cid id)) [
        | inl unread ↦ ground arith
        | inr (cid, parsed) ↦
            elim (Checked-cases (verify_tx_signature services (services.to_base64 raw) sig)) [
              | inl e ↦ ground arith
              | inr (inl (err, e)) ↦
                  let same : pool ≡ pool' = ground arith in
                  subst (λ p. bloom.has p.rejected other ≡ true) same was
              | inr (inr (u, e)) ↦ elim (Option-cases (lookup cid pool.txs)) [
                | inl absent ↦
                    let same : add_tx services bloom now cid tx sig pool ≡ pool' = ground arith in
                    subst (λ p. bloom.has p.rejected other ≡ true) same was
                | inr (known, found) ↦ absurd (ground arith)
              ]
            ]
      ]

  add_announced-Keeps :
      (now : ℕ) (raw id : String) (tx : Container) (sig : Option String) (pool pool' : Pool State)
      → add_announced services bloom now raw id tx sig pool ≡ handled pool'
      → Keeps pool pool'
  unfolding add_announced
  add_announced-Keeps now raw id tx sig pool pool' h other was =
      elim (Bool-cases (bloom.has pool.rejected id)) [
        | inl hit ↦
            let same : pool ≡ pool' = ground arith in
            subst (λ p. bloom.has p.rejected other ≡ true) same was
        | inr new ↦ elim (Bool-cases (is_outdated services bloom now pool tx)) [
          | inl outdated ↦
              let same : record pool { rejected = bloom.add id pool.rejected } ≡ pool' =
                ground arith in
              subst (λ p. bloom.has p.rejected other ≡ true) same
                (bloom.keeps id other pool.rejected was)
          | inr current ↦ elim (Option-cases (lookup id pool.txs)) [
            | inl absent ↦ check_and_add-Keeps now raw id tx sig pool pool' (ground arith) other was
            | inr (known, found) ↦
                let same : pool ≡ pool' = ground arith in
                subst (λ p. bloom.has p.rejected other ≡ true) same was
          ]
        ]
      ]

  on_tx_announce-Keeps :
      (now : ℕ) (message : Message) (pool pool' : Pool State)
      → on_tx_announce services bloom now message pool ≡ handled pool'
      → Keeps pool pool'
  unfolding on_tx_announce
  on_tx_announce-Keeps now message pool pool' h other was =
      elim (Option-cases (fetch services bloom now message)) [
        | inl lost ↦ ground arith
        | inr ((raw, id), fetched) ↦ elim (Option-cases (services.decode raw)) [
          | inl unread ↦ ground arith
          | inr (tx, read) ↦
              add_announced-Keeps now raw id tx (sig_data_of message) pool pool' (ground arith)
                other was
        ]
      ]

  ingest_tx-Keeps :
      (now : ℕ) (tx sig id : String) (message : Message) (pool pool' : Pool State)
      → ingest_tx services bloom now tx sig pool ≡ ingested pool' id message
      → Keeps pool pool'
  unfolding ingest_tx add_if_new add_tx
  ingest_tx-Keeps now tx sig id message pool pool' h other was =
      elim (Option-cases (services.decode (services.of_base64 tx))) [
        | inl unread ↦ ground arith
        | inr (container, read) ↦
            let (signed, is_id, is_message, stored) =
              ingest_tx_stores services bloom now tx sig id container pool pool' message read h in
            subst (λ p. bloom.has p.rejected other ≡ true) (sym stored)
              (elim (Option-cases (lookup id pool.txs)) [
                | inl absent ↦ rw (absent, add_if_new) was
                | inr (known, found) ↦ rw (found, add_if_new) was
              ])
      ]

  clean_all-Keeps :
      (nonces : Dict ℕ) (es : List (String × TxRecord)) (pool : Pool State)
      → Keeps pool (clean_all services bloom nonces es pool)
  unfolding clean_all clean_one
  clean_all-Keeps nonces [] pool other was = was
  clean_all-Keeps nonces ((id, r) ∷ es) pool other was =
      elim (Bool-cases (is_stale (current_nonce services bloom nonces r) r.nonce)) [
        | inl stale ↦
            rw (stale, clean_all, clean_one)
              (clean_all-Keeps nonces es _ other (bloom.keeps id other pool.rejected was))
        | inr fresh ↦ rw (fresh, clean_all, clean_one) (clean_all-Keeps nonces es pool other was)
      ]

  -- A record of the list that is stale is rejected at the end.
  clean_all_rejects :
      (nonces : Dict ℕ) (limit : ℕ) (id : String) (r : TxRecord) (txs : Dict TxRecord)
      (pool : Pool State)
      → lookup id txs ≡ some r
      → is_expired services bloom limit nonces r ≡ true
      → bloom.has
          (clean_all services bloom nonces
            (filter (λ e. is_old services bloom limit e.1) txs)
            pool).rejected
          id
        ≡ true
  unfolding lookup is_expired clean_all clean_one
  clean_all_rejects nonces limit id r [] pool found expired = ground arith
  clean_all_rejects nonces limit id r ((k, e) ∷ rest) pool found expired =
      elim (Bool-cases (str_eq k id)) [
        | inl same ↦
            let is_r : e ≡ r = ground arith in
            let gone : is_expired services bloom limit nonces e ≡ true =
              ap (is_expired services bloom limit nonces) is_r ∙ expired in
            let old : is_old services bloom limit e ≡ true = ground arith in
            let stale : is_stale (current_nonce services bloom nonces e) e.nonce ≡ true =
              ground arith in
            rw (old, filter, stale, clean_all, clean_one)
              (clean_all-Keeps nonces (filter (λ x. is_old services bloom limit x.1) rest) _ id (
                subst (λ x. bloom.has (bloom.add k pool.rejected) x ≡ true) ((eq_iff k id).0 same)
                  (bloom.has_added k pool.rejected)))
        | inr other ↦
            let later : lookup id rest ≡ some r = ground arith in
            elim (Bool-cases (is_old services bloom limit e)) [
              | inr recent ↦
                  rw (recent, filter) (clean_all_rejects nonces limit id r rest pool later expired)
              | inl old ↦
                  elim (Bool-cases (is_stale (current_nonce services bloom nonces e) e.nonce)) [
                    | inl stale ↦
                        rw (old, filter, stale, clean_all, clean_one)
                          (clean_all_rejects nonces limit id r rest _ later expired)
                    | inr fresh ↦
                        rw (old, filter, fresh, clean_all, clean_one)
                          (clean_all_rejects nonces limit id r rest pool later expired)
                  ]
            ]
      ]

  Step-Keeps : (pool pool' : Pool State) → Step pool pool' → Keeps pool pool'
  unfolding transaction_cleaner
  Step-Keeps pool pool' (announce now message h) = on_tx_announce-Keeps now message pool pool' h
  Step-Keeps pool pool' (ingest now tx sig id message h) =
      ingest_tx-Keeps now tx sig id message pool pool' h
  Step-Keeps pool pool' (clean limit h) =
      subst (Keeps pool) (sym h)
        (clean_all-Keeps pool.nonces (filter (λ e. is_old services bloom limit e.1) pool.txs) pool)
  Step-Keeps pool pool' (parse net_id tx_id decimal height index now ops h) =
      subst (Keeps pool) (sym h) (λ id was. was)
  Step-Keeps pool pool' (confirm nonces txs h) = subst (Keeps pool) (sym h) (λ id was. was)

  History-Keeps : (pool pool' : Pool State) → History pool pool' → Keeps pool pool'
  History-Keeps pool _ start = λ id was. was
  History-Keeps pool pool'' (then_step {pool'} h step) =
      λ id was. Step-Keeps pool' pool'' step id (History-Keeps pool pool' h id was)

  -- After the cleaner has taken out a transaction, and after any further steps of the node, an
  -- announcement whose bytes can be read and which names the transaction by the text under which it
  -- was stored leaves the pool as it is.
  pub transaction_cleaner_final :
      (limit now : ℕ) (pool pool' : Pool State) (id raw : String) (r : TxRecord) (message : Message)
      (tx : Container)
      → lookup id pool.txs ≡ some r
      → is_expired services bloom limit pool.nonces r ≡ true
      → History (transaction_cleaner services bloom limit pool) pool'
      → fetch services bloom now message ≡ some (raw, id)
      → services.decode raw ≡ some tx
      → on_tx_announce services bloom now message pool' ≡ handled pool'
  unfolding transaction_cleaner on_tx_announce add_announced
  transaction_cleaner_final limit now pool pool' id raw r message tx found expired h fetched read =
      let hit =
        History-Keeps (transaction_cleaner services bloom limit pool) pool' h id
          (clean_all_rejects pool.nonces limit id r pool.txs pool found expired) in
      rw (fetched, on_tx_announce, read, hit) refl
