-- ===== src/Token/Deposit.antt =====
-- The actions of contracts/btc-token.ts that follow the bitcoin chain: registerDeposit, mint and
-- redeemProof. The bitcoin library, base58 and the relay's headers are parameters.
use vsc_node.Prelude.{
  ℕ, ◌+◌, ◌*◌, ◌/◌, ◌^◌, String, List, [], ◌∷◌, Option, none, some, Bool, true, false, ltb, str_eq,
  ◌&&◌, not, ◌>>=◌, if◌then◌else◌, Dict, lookup, insert,
}
use vsc_node.Prelude.Int.{pos, ◌+ℤ◌}
use vsc_node.Token.Store.{RefType, LedgerOutput, RedeemStatus, Redeem, TokenState, ApiInput}
use vsc_node.Token.Spend.{new_output}

-- `BigDecimal`, by its `bigint`: a number of units of 10^-10.
abbrev decimals : ℕ
decimals = 10

unfoldable pub of_int : ℕ → ℕ
of_int n = n * 10 ^ decimals

unfoldable pub divide : ℕ → ℕ → ℕ
divide a b = a * 10 ^ decimals / b

-- The amount of an output that holds `val` satoshi.
unfoldable pub btc_amount : ℕ → ℕ
btc_amount val = divide (of_int val) (of_int 100_000_000)

abbrev pub replay_height : ℕ
replay_height = 818_769

-- An output of a bitcoin transaction, as the library reads it: the hash, null where it finds none,
-- the value, and the data of an OP_RETURN in hexadecimal without its prefix; `none` where that
-- call throws.
pub record BtcOutput : Type 0 where
  pub hash : Option String
  pub val : ℕ
  pub op_return : Option String

-- A proof, with its id reversed and its outputs taken apart.
pub record TxProof : Type 0 where
  pub tx_id : String
  pub confirming_height : ℕ
  pub vout : List BtcOutput

-- `destAddr`, when it is there and not the empty text.
unfoldable pub truthy : Option String → Option String
truthy none = none
truthy (some text) = if str_eq text "" then none else some text

unfoldable pub minted_output : String → ℕ → ℕ → Option String → LedgerOutput
minted_output tx_id index val owner =
    let amount = pos (btc_amount val) in
    new_output owner none amount none (
      record {
        id = tx_id;
        amount = amount;
        hash_lock = none;
        index = some index;
        t = some RefType.mint;
      }
      ∷ [])

-- Whether the transaction has been wrapped.
unfoldable pub is_wrapped : String → TokenState → Bool
is_wrapped tx_id s = elim (lookup tx_id s.wraps) [ none ↦ false | some mark ↦ true ]

unfoldable pub complete_redeem : String → ℕ → ℕ → Redeem → Redeem
complete_redeem tx_id index val r = record r {
  status = RedeemStatus.complete;
  tx_id = some tx_id;
  out_index = some index;
  rbalance = r.rbalance +ℤ pos (btc_amount val);
}

-- `deposit_hash` is the hash of the script of an owner, `hash_address` the address of a hash, and
-- `encode` is base58.
module _ (deposit_hash hash_address encode : String → String) (api : ApiInput) where
  unfoldable pub register_deposit : Option String → TokenState → TokenState
  register_deposit addr s =
      let owner : String = elim (truthy addr) [ none ↦ api.sender | some a ↦ a ] in
      record s { btc_addrs = insert (hash_address (deposit_hash owner)) owner s.btc_addrs }

  -- The owner of a deposit that is not registered: none where the loop goes on. In the last case,
  -- where the sender's own script is paid, the code stores the absent `destAddr`.
  unfoldable pub named_owner : Option String → String → Option (Option String)
  named_owner dest_addr hash = elim (truthy dest_addr) [
    | some dest ↦
        if str_eq (encode (deposit_hash dest)) (encode hash) then some (some dest) else none
    | none ↦
        if str_eq (encode (deposit_hash api.sender)) (encode hash) then some dest_addr else none
  ]

  unfoldable pub owner_of : Option String → Dict String → String → Option (Option String)
  owner_of dest_addr addrs hash = elim (lookup (hash_address hash) addrs) [
    | some owner ↦ some (some owner)
    | none ↦ named_owner dest_addr hash
  ]

  module _ (id_of : LedgerOutput → String) where
    -- The loop over the outputs; it ends at the first one without a hash.
    unfoldable pub mint_outputs :
        Option String
        → String
        → Dict String
        → ℕ
        → List BtcOutput
        → Dict LedgerOutput
        → Dict LedgerOutput
    mint_outputs dest_addr tx_id addrs index [] outputs = outputs
    mint_outputs dest_addr tx_id addrs index (o ∷ vout) outputs = elim o.hash [
      | none ↦ outputs
      | some hash ↦ elim (owner_of dest_addr addrs hash) [
        | none ↦ mint_outputs dest_addr tx_id addrs (index + 1) vout outputs
        | some owner ↦
            let out = minted_output tx_id index o.val owner in
            mint_outputs dest_addr tx_id addrs (index + 1) vout (insert (id_of out) out outputs)
      ]
    ]

-- `header_at` gives the header that the relay has at a height, and `check` is whether the library
-- finds a proof valid under it, with `none` where it throws.
module _ (check : String → TxProof → Option Bool) (header_at : ℕ → Option String) where
  -- The library's answer on a proof.
  unfoldable pub validate : TxProof → Option Bool
  validate proof = do header ← header_at proof.confirming_height; check header proof

  unfoldable pub is_valid : TxProof → Bool
  is_valid proof = elim (validate proof) [ none ↦ false | some valid ↦ valid ]

  module _ (deposit_hash hash_address encode : String → String) (api : ApiInput)
      (id_of : LedgerOutput → String) where
    unfoldable pub mint : Option String → TxProof → TokenState → TokenState
    mint dest_addr proof s =
        if ltb proof.confirming_height replay_height
        then s
        else if is_valid proof && not (is_wrapped proof.tx_id s)
        then record s {
          outputs =
              mint_outputs deposit_hash hash_address encode api id_of dest_addr proof.tx_id
                s.btc_addrs 0 proof.vout s.outputs;
          wraps = insert proof.tx_id "1" s.wraps;
        }
        else s

-- `encode` is base58, and `redeem_hash` the hash in an address; `none` where it cannot be decoded.
module _ (encode : String → String) (redeem_hash : String → Option String) where
  -- Whether an output pays a redeem; `none` where the code throws.
  unfoldable pub is_payment : Redeem → Option String → Option Bool
  is_payment r hash = do
    owed ← redeem_hash r.address
    elim r.status [
      | RedeemStatus.complete ↦ some false
      | RedeemStatus.pending ↦ do paid ← hash; some (str_eq (encode paid) (encode owed))
    ]

  unfoldable pub pay_redeem : String → ℕ → BtcOutput → String → Dict Redeem → Option (Dict Redeem)
  pay_redeem tx_id index o redeem_id redeems = elim (lookup redeem_id redeems) [
    | none ↦ some redeems
    | some r ↦ do
      pays ← is_payment r o.hash
      some
          (if pays then insert redeem_id (complete_redeem tx_id index o.val r) redeems else redeems)
  ]

  -- The loop over the pairs of a payment and the output that names its redeem, which ends where
  -- the code throws.
  unfoldable pub pay_redeems : String → ℕ → List BtcOutput → Dict Redeem → Dict Redeem
  pay_redeems tx_id index (o ∷ note ∷ vout) redeems = elim note.op_return [
    | none ↦ redeems
    | some redeem_id ↦ elim (pay_redeem tx_id index o redeem_id redeems) [
      | none ↦ redeems
      | some paid ↦ pay_redeems tx_id (index + 2) vout paid
    ]
  ]
  pay_redeems tx_id index _ redeems = redeems

  module _ (check : String → TxProof → Option Bool) (header_at : ℕ → Option String) where
    -- `none` where the code throws.
    unfoldable pub redeem_proof : TxProof → TokenState → Option TokenState
    redeem_proof proof s = if ltb proof.confirming_height replay_height then some s else do
      valid ← validate check header_at proof
      some (
          if valid
          then record s { redeems = pay_redeems proof.tx_id 0 proof.vout s.redeems }
          else s)
