-- ===== src/Pool/Agreement.antt =====
-- A transaction that ingestTx of services/new/transactionPool.ts accepts, and the nodes that hear of
-- it.
use Prim.Native.String.{len}
use vsc_node.Prelude.{
  ℕ, String, ◌≡◌, refl, sym, ap, ◌∙◌, inl, inr, none, some, false, ltb, lookup, lookup-insert_self,
  arith, Bool-cases, Option-cases,
}
use vsc_node.Pool.Store.{Container, TxRecord, Filter, Pool, Services}
use vsc_node.Pool.Signature.{ok, verify_raw, verify_tx_signature}
use vsc_node.Pool.Ingest.{
  Message, sig_data_of, handled, ingested, new_record, is_outdated, add_tx, fetch, check_and_add,
  insert_one, add_announced, on_tx_announce, add_if_new, announcement, ingest_checked, ingest_tx,
  max_broadcast_size,
}
use vsc_node.Pool.Sole.{Checked-cases}

module _ (services : Services) {State : Type 0} (bloom : Filter State) where
  pub ingest_tx_stores :
      (now : ℕ) (tx sig id : String) (container : Container) (pool pool' : Pool State)
      (message : Message)
      → services.decode (services.of_base64 tx) ≡ some container
      → ingest_tx services bloom now tx sig pool ≡ ingested pool' id message
      → (verify_tx_signature services tx sig ≡ ok tt)
        × (id ≡ services.cid_of (services.of_base64 tx))
        × (message ≡ announcement services bloom now (services.of_base64 tx) id sig)
        × (pool' ≡ add_if_new services bloom now id container sig pool)
  unfolding ingest_tx ingest_checked
  ingest_tx_stores now tx sig id container pool pool' message read h =
      elim (Checked-cases (verify_tx_signature services tx sig)) [
        | inl e ↦ ground arith
        | inr (inl (err, e)) ↦ ground arith
        | inr (inr (u, e)) ↦ elim (Option-cases container.headers.nonce) [
          | inl absent ↦ ground arith
          | inr (nonce, has_nonce) ↦ (e, ground arith, ground arith, ground arith)
        ]
      ]

  -- The bytes of an announcement are those of the transaction, and so is the id.
  fetch-announcement :
      (now later : ℕ) (raw sig : String)
      → services.of_base64 (services.to_base64 raw) ≡ raw
      → services.block_get (services.cid_of raw) ≡ some raw
      → (fetch services bloom later (announcement services bloom now raw (services.cid_of raw) sig)
          ≡ some (raw, services.cid_of raw))
        × (sig_data_of (announcement services bloom now raw (services.cid_of raw) sig) ≡ some sig)
  unfolding fetch announcement sig_data_of
  fetch-announcement now later raw sig text get =
      elim (Bool-cases (ltb max_broadcast_size (len raw))) [
        | inl large ↦ rw (large, get) (refl, refl)
        | inr small ↦ rw (small, text) (refl, refl)
      ]

  verify-to_base64 :
      (tx sig : String)
      → services.of_base64 (services.to_base64 (services.of_base64 tx)) ≡ services.of_base64 tx
      → verify_tx_signature services (services.to_base64 (services.of_base64 tx)) sig
        ≡ verify_tx_signature services tx sig
  unfolding verify_tx_signature
  verify-to_base64 tx sig text = ap (λ raw. verify_raw services raw sig) text

  announced_new :
      (later : ℕ) (raw id sig : String) (container : Container) (peer : Pool State)
      → services.parse_cid id ≡ some id
      → verify_tx_signature services (services.to_base64 raw) sig ≡ ok tt
      → bloom.has peer.rejected id ≡ false
      → is_outdated services bloom later peer container ≡ false
      → lookup id peer.txs ≡ none
      → add_announced services bloom later raw id container (some sig) peer
        ≡ handled (add_tx services bloom later id container sig peer)
  unfolding add_announced check_and_add insert_one
  announced_new later raw id sig container peer standard signed kept current absent =
      rw (kept, current, absent, check_and_add, standard, signed, insert_one, absent) refl

  add_if_new-absent :
      (now : ℕ) (id sig : String) (container : Container) (pool : Pool State)
      → lookup id pool.txs ≡ none
      → lookup id (add_if_new services bloom now id container sig pool).txs
        ≡ some (new_record services bloom now container sig)
  unfolding add_if_new add_tx
  add_if_new-absent now id sig container pool absent =
      rw (absent, add_if_new)
        (lookup-insert_self id (new_record services bloom now container sig) pool.txs)

  -- What ingestTx accepts, stores for the first time and announces, every node stores that has not
  -- stored or rejected it and knows no later nonce of its accounts: the record is the same but for
  -- the time at which it was first seen. Base64 text can be read back, the bytes can be fetched by
  -- their id, and an id that is computed from bytes has the standard form.
  pub ingest_tx_announced :
      (now later : ℕ) (tx sig id : String) (container : Container) (pool pool' peer : Pool State)
      (message : Message)
      → services.decode (services.of_base64 tx) ≡ some container
      → services.of_base64 (services.to_base64 (services.of_base64 tx)) ≡ services.of_base64 tx
      → services.block_get (services.cid_of (services.of_base64 tx)) ≡ some (services.of_base64 tx)
      → services.parse_cid (services.cid_of (services.of_base64 tx))
        ≡ some (services.cid_of (services.of_base64 tx))
      → ingest_tx services bloom now tx sig pool ≡ ingested pool' id message
      → lookup id pool.txs ≡ none
      → lookup id peer.txs ≡ none
      → bloom.has peer.rejected id ≡ false
      → is_outdated services bloom later peer container ≡ false
      → (r : TxRecord) × (peer' : Pool State) × (lookup id pool'.txs ≡ some r)
        × (on_tx_announce services bloom later message peer ≡ handled peer')
        × (lookup id peer'.txs ≡ some (record r { first_seen = later }))
  unfolding on_tx_announce add_tx new_record
  ingest_tx_announced now later tx sig id container pool pool' peer message read text get standard
        accepted absent absent' kept current =
      let raw = services.of_base64 tx in
      let (signed, is_id, is_message, stored) =
        ingest_tx_stores now tx sig id container pool pool' message read accepted in
      let (fetched, carried) = fetch-announcement now later raw sig text get in
      let message_is : message ≡ announcement services bloom now raw (services.cid_of raw) sig =
        rw is_message (ap (λ i. announcement services bloom now raw i sig) is_id) in
      let peer' = add_tx services bloom later id container sig peer in
      let new = new_record services bloom now container sig in
      (
        new,
        peer',
        ap (λ p. lookup id p.txs) stored ∙ add_if_new-absent now id sig container pool absent,
        rw
            (
              ap (fetch services bloom later) message_is ∙ fetched,
              on_tx_announce,
              read,
              ap sig_data_of message_is ∙ carried,
            )
            (ap (λ i. add_announced services bloom later raw i container (some sig) peer)
                (sym is_id)
              ∙ announced_new later raw id sig container peer (rw is_id standard)
                  (verify-to_base64 tx sig text ∙ signed) kept current absent'),
        lookup-insert_self id (record new { first_seen = later }) peer.txs,
      )
