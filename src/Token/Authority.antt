-- ===== src/Token/Authority.antt =====
-- Who can spend an output of contracts/btc-token.ts.
use vsc_node.Prelude.{
  ◌<◌, String, ◌≡◌, ◌≢◌, ◌↔◌, refl, inl, inr, List, Option, none, some, true, ltb, str_eq, ◌&&◌,
  arith, eq_iff, Bool-cases,
}
use vsc_node.Prelude.Int.{ℤ}
use vsc_node.Token.Store.{
  Input, Lock, Controller, LedgerOutput, ApiInput, verify_lock, verify_hash, is_cleared,
}
use vsc_node.Token.Spend.{HtlcTransfer, htlc_controllers, htlc_output, is_spendable}
use vsc_node.Token.Debits.{Debits}

module _ (sha256 : String → String) (id_of : LedgerOutput → String)
    (address_of : List Controller → String) (api : ApiInput) where
  -- What an input must carry to clear an output that applyHtlc has made.
  pub data Clears (maker : ApiInput) (tx : HtlcTransfer) (input : Input) : Type 0 where
    after_lock :
        api.sender ≡ maker.sender → tx.block_lock < api.included_block → Clears maker tx input
    with_image :
        (image : String)
        → api.sender ≡ tx.receiver
        → input.hash_lock ≡ some image
        → image ≢ ""
        → sha256 image ≡ tx.hash_lock
        → Clears maker tx input

  verify_hash_image :
      (controller : Controller) (val : String) (image : Option String)
      → verify_hash sha256 api controller val image ≡ true
      → (text : String) × (image ≡ some text)
        × (text ≢ "")
        × (sha256 text ≡ val)
        × (api.sender ≡ controller.authority)
  unfolding verify_hash
  verify_hash_image controller val none h = ground arith
  verify_hash_image controller val (some text) h = (
    text,
    refl,
    λ e. ground (arith, eq_iff text ""),
    ground (arith, eq_iff (sha256 text) val),
    ground (arith, eq_iff api.sender controller.authority),
  )

  image_verifies :
      (controller : Controller) (val text : String)
      → text ≢ ""
      → sha256 text ≡ val
      → api.sender ≡ controller.authority
      → verify_hash sha256 api controller val (some text) ≡ true
  unfolding verify_hash
  image_verifies controller val text full hashes sends =
      ground
        (arith, eq_iff text "", eq_iff (sha256 text) val, eq_iff api.sender controller.authority)

  -- An output that applyHtlc has made can be spent by exactly two: its maker, in a block after the
  -- lock, and its receiver, with an image that is not empty and has the hash.
  pub htlc_spendable :
      (maker : ApiInput) (tx : HtlcTransfer) (total : ℤ) (input : Input)
      → (is_spendable sha256 id_of address_of api
            (htlc_output sha256 id_of address_of maker tx total)
            input
          ≡ true)
        ↔ Clears maker tx input
  unfolding is_spendable htlc_output htlc_controllers is_cleared verify_lock
  htlc_spendable maker tx total input = (
    λ h.
        elim (Bool-cases (ltb tx.block_lock api.included_block && str_eq api.sender maker.sender)) [
          | inl timed ↦ after_lock (ground (arith, eq_iff api.sender maker.sender)) (ground arith)
          | inr early ↦
              let (image, carried, full, hashes, sends) =
                verify_hash_image
                  (record { authority = tx.receiver; lock = some (Lock.hash tx.hash_lock) })
                  tx.hash_lock input.hash_lock (ground arith) in
              with_image image sends carried full hashes
        ],
    λ c. elim c [
      | after_lock sends late ↦ ground (arith, eq_iff api.sender maker.sender)
      | with_image image sends carried full hashes ↦
          let shown =
            image_verifies
              (record { authority = tx.receiver; lock = some (Lock.hash tx.hash_lock) })
              tx.hash_lock image full hashes sends in
          rw carried (ground arith)
    ],
  )
