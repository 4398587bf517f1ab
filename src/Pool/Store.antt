-- ===== src/Pool/Store.antt =====
-- The records of services/new/transactionPool.ts, without the flags `local` and `accessible`: transactions as containers, their signatures,
-- and the collections of the pool. Texts stand for the encoded data.
use Prim.Native.String.{find as find_text, slice}
use vsc_node.Prelude.{ℕ, String, ◌≡◌, Bool, true, List, Option, Dict}

-- The body `tx` of a container.
pub record Body : Type 0 where
  pub op : Option String
  pub action : Option String
  pub payload : Option String
  pub contract_id : Option String

pub record Headers : Type 0 where
  pub nonce : Option ℕ
  pub t : String
  pub required_auths : List String
  pub payer : Option String

pub record Container : Type 0 where
  pub headers : Headers
  pub tx : Body

pub data Sig : Type 0 where
  jws : (alg kid sig : String) → Sig
  eip191 : (s : String) → Sig

pub data AuthType : Type 0 where
  posting : AuthType
  active : AuthType

pub record Auth : Type 0 where
  pub value : String
  pub t : Option AuthType

pub data DbStatus : Type 0 where
  unconfirmed : DbStatus
  confirmed : DbStatus
  failed : DbStatus
  included : DbStatus
  processed : DbStatus

pub data Source : Type 0 where
  vsc : Source
  hive : Source

-- Where a transaction of the Hive chain stands.
pub record Anchor : Type 0 where
  pub height : ℕ
  pub index : ℕ
  pub op_index : ℕ

pub record TxRecord : Type 0 where
  pub status : DbStatus
  pub nonce : Option ℕ
  pub t : String
  pub required_auths : List Auth
  pub body : Body
  pub sig_hash : Option String
  pub src : Source
  pub first_seen : ℕ
  pub anchor : Option Anchor

-- `e.split("?")[0]`
unfoldable pub without_query : String → String
without_query e = slice e 0 (find_text e "?")

-- The filter of rejected ids: what the code relies on of the Bloom filter of a third party.
pub record Filter (State : Type 0) : Type 0 where
  pub add : String → State → State
  pub has : State → String → Bool
  pub has_added : (id : String) (f : State) → has (add id f) id ≡ true
  pub keeps : (id other : String) (f : State) → has f other ≡ true → has (add id f) other ≡ true

-- `txDb` by id, `nonceMap` and `rejectFilter`
pub record Pool (State : Type 0) : Type 0 where
  pub txs : Dict TxRecord
  pub nonces : Dict ℕ
  pub rejected : State

-- What a node uses to read and check transactions. `parse_cid` is `CID.parse(id).toString()`, which
-- gives the text of an id in its standard form, with `none` where it throws.
pub record Services : Type 0 where
  pub of_base64 : String → String
  pub to_base64 : String → String
  pub decode : String → Option Container
  pub cid_of : String → String
  pub parse_cid : String → Option String
  pub decode_sigs : String → Option (List Sig)
  pub recover : Container → String → Option (List String)
  pub evm_address : String → Option String
  pub verify_jws : Sig → String → Option String
  pub key_id : List String → String
  pub block_get : String → Option String
