-- ===== src/Pool/Cleaner.antt =====
-- transactionCleaner and blockParser of services/new/transactionPool.ts.
use Prim.Native.String.{◌++◌ as cat}
use vsc_node.Prelude.{
  ℕ, ◌+◌, String, List, [], ◌∷◌, ◌++◌, map, Option, none, some, Bool, true, false, ltb, ◌&&◌, ◌||◌,
  str_eq, if◌then◌else◌, Dict, lookup, insert, filter,
}
use vsc_node.Pool.Store.{Body, DbStatus, Source, AuthType, TxRecord, Filter, Pool, Services}
use vsc_node.Pool.Ingest.{is_stale}

unfoldable pub is_unconfirmed : TxRecord → Bool
is_unconfirmed r = elim r.status [ DbStatus.unconfirmed ↦ true | _ ↦ false ]

-- `deleteOne({id})`
unfoldable pub delete {ℓ} : {V : Type ℓ} → String → Dict V → Dict V
delete id [] = []
delete id ((k, v) ∷ rest) = if str_eq k id then rest else (k, v) ∷ delete id rest

module _ (services : Services) {State : Type 0} (bloom : Filter State) where
  -- The nonce that the accounts of a record have reached.
  unfoldable pub current_nonce : Dict ℕ → TxRecord → ℕ
  current_nonce nonces r =
      elim (lookup (services.key_id (map (λ a. a.value) r.required_auths)) nonces) [
        | none ↦ 0
        | some n ↦ n
      ]

  -- The query for unconfirmed records that were first seen before `limit`, one hour ago.
  unfoldable pub is_old : ℕ → TxRecord → Bool
  is_old limit r = is_unconfirmed r && ltb r.first_seen limit

  unfoldable pub clean_one : Dict ℕ → String × TxRecord → Pool State → Pool State
  clean_one nonces (id, r) pool =
      if is_stale (current_nonce nonces r) r.nonce
      then record pool { txs = delete id pool.txs; rejected = bloom.add id pool.rejected }
      else pool

  unfoldable pub clean_all : Dict ℕ → List (String × TxRecord) → Pool State → Pool State
  clean_all nonces [] pool = pool
  clean_all nonces (e ∷ es) pool = clean_all nonces es (clean_one nonces e pool)

  unfoldable pub transaction_cleaner : ℕ → Pool State → Pool State
  transaction_cleaner limit pool =
      clean_all pool.nonces (filter (λ e. is_old limit e.1) pool.txs) pool

-- An operation of a Hive transaction, as blockParser reads it: the network that the JSON names, and
-- the type and the body of its `tx`; `none` where reading them throws.
pub record CustomJson : Type 0 where
  pub id : String
  pub required_posting_auths : List String
  pub required_auths : List String
  pub json : Option (String × Option (String × Body))

pub data HiveOp : Type 0 where
  custom_json : CustomJson → HiveOp
  other_op : HiveOp

unfoldable pub is_vsc_tx : CustomJson → Bool
is_vsc_tx op = str_eq op.id "vsc.announce_tx" || str_eq op.id "vsc.tx"

module _ (net_id tx_id : String) (decimal : ℕ → String) (height tx_index now : ℕ) where
  unfoldable pub hive_record : CustomJson → ℕ → String → Body → TxRecord
  hive_record op i t body = record {
    status = DbStatus.included;
    nonce = none;
    t = t;
    required_auths =
        map (λ e. record { value = e; t = some AuthType.posting }) op.required_posting_auths
        ++ map (λ e. record { value = e; t = some AuthType.active }) op.required_auths;
    body = body;
    sig_hash = none;
    src = Source.hive;
    first_seen = now;
    anchor = some (record { height = height; index = tx_index; op_index = i });
  }

  -- The loop over the operations, which an exception ends.
  unfoldable pub parse_ops : ℕ → List HiveOp → Dict TxRecord → Dict TxRecord
  parse_ops i [] txs = txs
  parse_ops i (other_op ∷ ops) txs = parse_ops (i + 1) ops txs
  parse_ops i (custom_json op ∷ ops) txs =
      let rest = parse_ops (i + 1) ops txs in
      let parsed : Dict TxRecord = elim op.json [
        | none ↦ txs
        | some (net, tx) ↦
            let here : Dict TxRecord = elim tx [
              | none ↦ txs
              | some (t, body) ↦
                  parse_ops (i + 1) ops
                    (insert (cat tx_id (cat "-" (decimal i))) (hive_record op i t body) txs)
            ] in
            if str_eq net net_id then here else rest
      ] in
      if is_vsc_tx op then parsed else rest
