-- ===== src/Pool/Tests.antt =====
-- A node with one transaction in its pool, and the theorems on what becomes of it.
use vsc_node.Prelude.{
  String, ◌≡◌, refl, List, [], ◌∷◌, map, none, some, true, str_eq, eq_refl, if◌then◌else◌, All,
  lookup, insert, IsObject, arith,
}
use vsc_node.Election.Weights.{includes}
use vsc_node.Pool.Store.{Body, Container, eip191, TxRecord, Filter, Pool, Services, without_query}
use vsc_node.Pool.Signature.{
  all_some, resolve, evm_addresses, recover_eip191, recovered_auth, covers, verify_sigs, verify_raw,
  verify_tx_signature,
}
use vsc_node.Pool.Ingest.{
  insert_one, broken, add_announced, check_and_add, sig_data_of, add_tx, ref_tx, direct_tx, handled,
  ingested, new_record, known_nonce, is_outdated, is_stale, add_if_new, fetch, announcement,
  ingest_checked, ingest_tx, on_tx_announce,
}
use vsc_node.Pool.Cleaner.{
  HiveOp, custom_json, other_op, is_vsc_tx, parse_ops, is_unconfirmed, current_nonce, is_old,
  transaction_cleaner,
}
use vsc_node.Pool.Sole.{IsSole, verify_sigs-IsSole}
use vsc_node.Pool.Agreement.{ingest_tx_announced}
use vsc_node.Pool.Cleaning.{is_expired, expires, transaction_cleaner_exact}
use vsc_node.Pool.Rejection.{start, transaction_cleaner_final}

abbrev owner : String
owner = "did:pkh:eip155:1:0xA"

abbrev body : Body
body = record { op = some "transfer"; action = none; payload = none; contract_id = none }

abbrev container : Container
container = record {
  headers = record { nonce = some 4; t = "1"; required_auths = owner ∷ []; payer = none };
  tx = body;
}

abbrev services : Services
services = record {
  of_base64 = λ text. text;
  to_base64 = λ raw. raw;
  decode = λ raw. if str_eq raw "tx" then some container else none;
  cid_of = λ raw. raw;
  parse_cid = λ id. some (if str_eq id "TX" then "tx" else id);
  decode_sigs = λ raw. if str_eq raw "sig" then some (eip191 "s" ∷ []) else some [];
  recover = λ tx s. some ("0xA" ∷ []);
  evm_address = λ e. if str_eq e owner then some "0xA" else none;
  verify_jws = λ sig cid. none;
  key_id = λ auths. "key";
  block_get = λ id. some (if str_eq id "TX" then "tx" else id);
}

added_has : (id : String) (f : List String) → includes id (id ∷ f) ≡ true
unfolding includes
added_has id f = rw (eq_refl id) refl

added_keeps :
    (id other : String) (f : List String) → includes other f ≡ true → includes other (id ∷ f) ≡ true
unfolding includes
added_keeps id other f h = ground arith

abbrev bloom : Filter (List String)
bloom = record {
  add = λ id f. id ∷ f;
  has = λ f id. includes id f;
  has_added = added_has;
  keeps = added_keeps;
}

abbrev pool : Pool (List String)
pool = record { txs = []; nonces = ("key", 3) ∷ []; rejected = [] }

abbrev signed : String → Pool (List String)
signed sig = add_if_new services bloom 50 "tx" container sig pool

run-ingest :
    ingest_tx services bloom 50 "tx" "sig" pool
    ≡ ingested (signed "sig") "tx" (direct_tx (some "tx") (some "sig"))
unfolding ingest_tx ingest_checked verify_tx_signature verify_raw verify_sigs recovered_auth
    recover_eip191 evm_addresses all_some resolve without_query covers known_nonce announcement
    includes lookup
run-ingest = refl

verify_sigs-IsSole_example : All (IsSole services container "tx") (eip191 "s" ∷ [])
unfolding verify_sigs recovered_auth recover_eip191 evm_addresses all_some resolve without_query
    covers includes
verify_sigs-IsSole_example = verify_sigs-IsSole services container "tx" (eip191 "s" ∷ []) refl

abbrev peer : Pool (List String)
peer = record { txs = []; nonces = []; rejected = "other" ∷ [] }

ingest_tx_announced_example :
    (r : TxRecord) × (peer' : Pool (List String)) × (lookup "tx" (signed "sig").txs ≡ some r)
    × (on_tx_announce services bloom 60 (direct_tx (some "tx") (some "sig")) peer ≡ handled peer')
    × (lookup "tx" peer'.txs ≡ some (record r { first_seen = 60 }))
unfolding is_outdated known_nonce lookup includes
ingest_tx_announced_example =
    ingest_tx_announced services bloom 50 60 "tx" "sig" "tx" container pool (signed "sig") peer
      (direct_tx (some "tx") (some "sig")) refl refl refl refl run-ingest refl refl refl refl

-- The account has reached nonce 5 since.
abbrev waiting : TxRecord
waiting = new_record services bloom 50 container "sig"

abbrev late : Pool (List String)
late = record { txs = ("tx", waiting) ∷ []; nonces = ("key", 5) ∷ []; rejected = [] }

transaction_cleaner_exact_example :
    lookup "tx" (transaction_cleaner services bloom 100 late).txs ≡ none
unfolding expires is_expired is_old is_unconfirmed current_nonce is_stale lookup IsObject new_record
transaction_cleaner_exact_example =
    transaction_cleaner_exact services bloom 100 "tx" late (refl, tt)

transaction_cleaner_final_example :
    on_tx_announce services bloom 200
      (ref_tx "tx" (some "sig"))
      (transaction_cleaner services bloom 100 late)
    ≡ handled (transaction_cleaner services bloom 100 late)
unfolding is_expired is_old is_unconfirmed current_nonce is_stale lookup new_record fetch
transaction_cleaner_final_example =
    transaction_cleaner_final services bloom 100 200 late
      (transaction_cleaner services bloom 100 late) "tx" "tx" waiting (ref_tx "tx" (some "sig"))
      container refl refl start refl refl

-- Another spelling of the id of a stored transaction passes the filter and the look for its record,
-- and the insertion under the standard form fails.
respelled : on_tx_announce services bloom 200 (ref_tx "TX" (some "sig")) (signed "sig") ≡ broken
unfolding on_tx_announce fetch add_announced includes lookup is_outdated known_nonce is_stale add_tx
    insert check_and_add insert_one sig_data_of all_some covers evm_addresses recover_eip191
    recovered_auth resolve verify_raw verify_sigs verify_tx_signature without_query add_if_new
    new_record
respelled = refl

-- A `vsc.tx` of another network is passed over, and one of this network is stored.
abbrev announced : String → HiveOp
announced net = custom_json (record {
  id = "vsc.tx";
  required_posting_auths = [];
  required_auths = "alice" ∷ [];
  json = some (net, some ("1", body));
})

run-parse :
    map
      (λ e. e.0)
      (parse_ops "mainnet" "hive"
        (λ i. "1")
        9
        0
        50
        0
        (announced "testnet" ∷ announced "mainnet" ∷ other_op ∷ [])
        [])
    ≡ "hive-1" ∷ []
unfolding parse_ops is_vsc_tx insert
run-parse = refl
