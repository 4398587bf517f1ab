-- ===== src/Token/Store.antt =====
-- The records of contracts/btc-token.ts, its state, and the check of a controller. The hashes and
-- the host's JSON are parameters where they are used. An amount is a whole number of the smallest
-- unit, where the code holds a double.
use vsc_node.Prelude.{
  ℕ, String, List, [], ◌∷◌, Option, none, some, Bool, false, ltb, str_eq, ◌&&◌, ◌||◌, if◌then◌else◌,
  Dict,
}
use vsc_node.Prelude.Int.{ℤ}

pub data RefType : Type 0 where
  mint : RefType
  redeem : RefType

-- An entry of `inputs`.
pub record Input : Type 0 where
  pub id : String
  pub amount : ℤ
  pub hash_lock : Option String
  pub index : Option ℕ
  pub t : Option RefType

-- An entry of `outputs`.
pub record OutputRef : Type 0 where
  pub id : String
  pub amount : ℤ
  pub t : Option RefType

pub data Lock : Type 0 where
  time : ℕ → Lock
  hash : String → Lock

pub record Controller : Type 0 where
  pub authority : String
  pub lock : Option Lock

pub record LedgerOutput : Type 0 where
  pub address : Option String
  pub controllers : Option (List Controller)
  pub balance : ℤ
  pub obalance : ℤ
  pub memo : Option String
  pub outputs : List OutputRef
  pub inputs : List Input

pub data RedeemStatus : Type 0 where
  pending : RedeemStatus
  complete : RedeemStatus

pub record Redeem : Type 0 where
  pub status : RedeemStatus
  pub address : String
  pub balance : ℤ
  pub rbalance : ℤ
  pub inputs : List Input
  pub tx_id : Option String
  pub out_index : Option ℕ

-- The state of the contract, by the first part of a key.
pub record TokenState : Type 0 where
  pub outputs : Dict LedgerOutput
  pub redeems : Dict Redeem
  pub btc_addrs : Dict String
  pub wraps : Dict String

-- `api.input`
pub record ApiInput : Type 0 where
  pub sender : String
  pub included_in : String
  pub included_block : ℕ

module _ (sha256 : String → String) (api : ApiInput) where
  unfoldable pub verify_hash : Controller → String → Option String → Bool
  verify_hash controller val none = false
  verify_hash controller val (some image) =
      if str_eq image ""
      then false
      else str_eq (sha256 image) val && str_eq api.sender controller.authority

  unfoldable pub verify_lock : Controller → Option String → Bool
  verify_lock controller image = elim controller.lock [
    | none ↦ str_eq controller.authority api.sender
    | some (time val) ↦ ltb val api.included_block && str_eq api.sender controller.authority
    | some (hash val) ↦ verify_hash controller val image
  ]

  -- The loop over the controllers of an output.
  unfoldable pub is_cleared : List Controller → Option String → Bool
  is_cleared [] image = false
  is_cleared (c ∷ cs) image = verify_lock c image || is_cleared cs image
