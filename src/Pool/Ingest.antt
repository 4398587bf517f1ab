-- ===== src/Pool/Ingest.antt =====
-- onTxAnnounce and ingestTx of services/new/transactionPool.ts. The time of a call is an argument.
use Prim.Native.String.{len}
use vsc_node.Prelude.{
  ℕ, String, map, Option, none, some, Bool, false, ltb, ◌>>=◌, if◌then◌else◌, lookup, insert,
}
use vsc_node.Pool.Store.{
  Container, DbStatus, Source, TxRecord, Filter, Pool, Services, without_query,
}
use vsc_node.Pool.Signature.{thrown, invalid, ok, SigError, verify_tx_signature}

abbrev pub max_broadcast_size : ℕ
max_broadcast_size = 8_000

-- A message on the channel, with the fields of its payload. Every type but `ref_tx` counts as
-- `direct_tx`, since the code assigns where it means to compare.
pub data Message : Type 0 where
  ref_tx : (id : String) → (sig_data : Option String) → Message
  direct_tx : (data_text : Option String) → (sig_data : Option String) → Message

unfoldable pub sig_data_of : Message → Option String
sig_data_of (ref_tx id sig_data) = sig_data
sig_data_of (direct_tx data_text sig_data) = sig_data

-- How a handler ends: with an exception, or with the pool as it is then.
pub data Handled (State : Type 0) : Type 0 where
  broken : Handled State
  handled : Pool State → Handled State

pub data IngestError : Type 0 where
  check_threw : IngestError
  bad_signature : SigError → IngestError
  missing_nonce : IngestError
  invalid_nonce : IngestError
  not_decoded : IngestError

pub data Ingested (State : Type 0) : Type 0 where
  refused : IngestError → Ingested State
  ingested : Pool State → String → Message → Ingested State

-- `nonceEntry.nonce > nonce`; a missing nonce compares as false.
unfoldable pub is_stale : ℕ → Option ℕ → Bool
is_stale known none = false
is_stale known (some nonce) = ltb nonce known

module _ (services : Services) {State : Type 0} (bloom : Filter State) (now : ℕ) where
  unfoldable pub new_record : Container → String → TxRecord
  new_record tx sig = record {
    status = DbStatus.unconfirmed;
    nonce = tx.headers.nonce;
    t = tx.headers.t;
    required_auths =
        map (λ e. record { value = without_query e; t = none }) tx.headers.required_auths;
    body = tx.tx;
    sig_hash = some (services.cid_of (services.of_base64 sig));
    src = Source.vsc;
    first_seen = now;
    anchor = none;
  }

  unfoldable pub known_nonce : Pool State → Container → Option ℕ
  known_nonce pool tx = lookup (services.key_id tx.headers.required_auths) pool.nonces

  unfoldable pub is_outdated : Pool State → Container → Bool
  is_outdated pool tx = elim (known_nonce pool tx) [
    | none ↦ false
    | some known ↦ is_stale known tx.headers.nonce
  ]

  unfoldable pub add_tx : String → Container → String → Pool State → Pool State
  add_tx id tx sig pool = record pool { txs = insert id (new_record tx sig) pool.txs }

  -- The bytes that a message carries or names, and their id.
  unfoldable pub fetch : Message → Option (String × String)
  fetch (ref_tx id sig_data) = do raw ← services.block_get id; some (raw, id)
  fetch (direct_tx data_text sig_data) = do
    text ← data_text
    some (services.of_base64 text, services.cid_of (services.of_base64 text))

  -- `insertOne`, which throws where the index of `txDb` has the id.
  unfoldable pub insert_one : String → Container → String → Pool State → Handled State
  insert_one id tx sig pool = elim (lookup id pool.txs) [
    | none ↦ handled (add_tx id tx sig pool)
    | some known ↦ broken
  ]

  -- The end of onTxAnnounce, for a transaction that is not in the pool. It is stored under the
  -- standard form of the id, while the checks before look up the id as the message spells it.
  unfoldable pub check_and_add :
      String → String → Container → Option String → Pool State → Handled State
  check_and_add raw id tx none pool = handled pool
  check_and_add raw id tx (some sig) pool = elim (services.parse_cid id) [
    | none ↦ broken
    | some cid ↦ elim (verify_tx_signature services (services.to_base64 raw) sig) [
      | thrown ↦ broken
      | invalid e ↦ handled pool
      | ok u ↦ insert_one cid tx sig pool
    ]
  ]

  unfoldable pub add_announced :
      String → String → Container → Option String → Pool State → Handled State
  add_announced raw id tx sig_data pool =
      if bloom.has pool.rejected id
      then handled pool
      else if is_outdated pool tx
      then handled (record pool { rejected = bloom.add id pool.rejected })
      else elim (lookup id pool.txs) [
        | none ↦ check_and_add raw id tx sig_data pool
        | some known ↦ handled pool
      ]

  unfoldable pub on_tx_announce : Message → Pool State → Handled State
  on_tx_announce message pool = elim (fetch message) [
    | none ↦ broken
    | some (raw, id) ↦ elim (services.decode raw) [
      | none ↦ broken
      | some tx ↦ add_announced raw id tx (sig_data_of message) pool
    ]
  ]

  unfoldable pub add_if_new : String → Container → String → Pool State → Pool State
  add_if_new id tx sig pool = elim (lookup id pool.txs) [
    | none ↦ add_tx id tx sig pool
    | some known ↦ pool
  ]

  -- What ingestTx announces: a large transaction by its id.
  unfoldable pub announcement : String → String → String → Message
  announcement raw id sig =
      if ltb max_broadcast_size (len raw)
      then ref_tx id (some sig)
      else direct_tx (some (services.to_base64 raw)) (some sig)

  unfoldable pub ingest_checked : String → String → Container → Pool State → Ingested State
  ingest_checked raw sig tx pool = elim tx.headers.nonce [
    | none ↦ refused missing_nonce
    | some nonce ↦
        let known : ℕ = elim (known_nonce pool tx) [ none ↦ 0 | some n ↦ n ] in
        let id = services.cid_of raw in
        if ltb nonce known
        then refused invalid_nonce
        else ingested (add_if_new id tx sig pool) id (announcement raw id sig)
  ]

  unfoldable pub ingest_tx : String → String → Pool State → Ingested State
  ingest_tx tx sig pool =
      let raw = services.of_base64 tx in
      elim (services.decode raw) [
        | none ↦ refused not_decoded
        | some container ↦ elim (verify_tx_signature services tx sig) [
          | thrown ↦ refused check_threw
          | invalid e ↦ refused (bad_signature e)
          | ok u ↦ ingest_checked raw sig container pool
        ]
      ]
