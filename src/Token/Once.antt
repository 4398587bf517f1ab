-- ===== src/Token/Once.antt =====
-- That mint of contracts/btc-token.ts takes a bitcoin transaction once, whatever calls follow.
use vsc_node.Prelude.{
  ℕ, ◌≤◌, String, ◌≡◌, refl, sym, ap, inl, inr, [], Option, none, some, true, ltb, lookup-insert,
  lookup-insert_self, arith, ◌∙◌, Bool-cases, Option-cases,
}
use vsc_node.Prelude.Int.{pos}
use vsc_node.Token.Store.{TokenState, ApiInput}
use vsc_node.Token.Spend.{
  Transfer, HtlcTransfer, collect, apply_tx, apply_htlc, redeem, is_spendable, is_owned,
  finish_spend, finish_redeem, new_output, new_redeem, htlc_output,
}
use vsc_node.Token.Deposit.{
  TxProof, is_wrapped, register_deposit, mint, redeem_proof, is_valid, replay_height, pay_redeems,
  validate,
}
use vsc_node.Token.Conservation.{Collected-cases}
use vsc_node.Token.History.{Host}

-- A call that the contract accepts, with the sender and the relay of its time.
pub data Accepted (host : Host) (s s' : TokenState) : Type 0 where
  transfer :
      (api : ApiInput) (tx : Transfer)
      → apply_tx host.sha256 host.id_of host.address_of api tx s ≡ some s'
      → Accepted host s s'
  lock :
      (api : ApiInput) (tx : HtlcTransfer)
      → apply_htlc host.sha256 host.id_of host.address_of api tx s ≡ some s'
      → Accepted host s s'
  withdraw :
      (api : ApiInput) (tx : Transfer)
      → redeem host.sha256 host.id_of host.address_of api host.redeem_id tx s ≡ some s'
      → Accepted host s s'
  register :
      (api : ApiInput) (addr : Option String)
      → s' ≡ register_deposit host.deposit_hash host.hash_address host.encode api addr s
      → Accepted host s s'
  prove :
      (header_at : ℕ → Option String) (proof : TxProof)
      → redeem_proof host.encode host.redeem_hash host.check header_at proof s ≡ some s'
      → Accepted host s s'
  issue :
      (api : ApiInput) (header_at : ℕ → Option String) (dest_addr : Option String) (proof : TxProof)
      → s'
        ≡ mint host.check header_at host.deposit_hash host.hash_address host.encode api host.id_of
            dest_addr proof s
      → Accepted host s s'

pub data Run (host : Host) (s : TokenState) : TokenState → Type 0 where
  start : Run host s s
  then_call : {s' s'' : TokenState} → Run host s s' → Accepted host s' s'' → Run host s s''

module _ (host : Host) where
  apply_tx-wraps :
      (api : ApiInput) (tx : Transfer) (s s' : TokenState)
      → apply_tx host.sha256 host.id_of host.address_of api tx s ≡ some s'
      → s'.wraps ≡ s.wraps
  unfolding apply_tx finish_spend
  apply_tx-wraps api tx s s' h =
      elim (Collected-cases (
        collect (is_spendable host.sha256 host.id_of host.address_of api) s.outputs tx.inputs []
          (pos 0))) [
            | inl e ↦ absurd (ground arith)
            | inr (inl e) ↦ let same : s ≡ s' = ground arith in ap (λ x. x.wraps) (sym same)
            | inr (inr (debits, total, e)) ↦
                let same : finish_spend host.sha256 host.id_of host.address_of api
                      (new_output (some tx.dest) none total tx.memo tx.inputs) debits s
                    ≡ s' =
                  ground arith in
                ap (λ x. x.wraps) (sym same)
          ]

  apply_htlc-wraps :
      (api : ApiInput) (tx : HtlcTransfer) (s s' : TokenState)
      → apply_htlc host.sha256 host.id_of host.address_of api tx s ≡ some s'
      → s'.wraps ≡ s.wraps
  unfolding apply_htlc finish_spend
  apply_htlc-wraps api tx s s' h =
      elim (Collected-cases (
        collect (is_owned host.sha256 host.id_of host.address_of api) s.outputs tx.inputs []
          (pos 0))) [
            | inl e ↦ absurd (ground arith)
            | inr (inl e) ↦ let same : s ≡ s' = ground arith in ap (λ x. x.wraps) (sym same)
            | inr (inr (debits, total, e)) ↦
                let same : finish_spend host.sha256 host.id_of host.address_of api
                      (htlc_output host.sha256 host.id_of host.address_of api tx total) debits s
                    ≡ s' =
                  ground arith in
                ap (λ x. x.wraps) (sym same)
          ]

  redeem-wraps :
      (api : ApiInput) (tx : Transfer) (s s' : TokenState)
      → redeem host.sha256 host.id_of host.address_of api host.redeem_id tx s ≡ some s'
      → s'.wraps ≡ s.wraps
  unfolding redeem finish_redeem
  redeem-wraps api tx s s' h =
      elim (Collected-cases (
        collect (is_spendable host.sha256 host.id_of host.address_of api) s.outputs tx.inputs []
          (pos 0))) [
            | inl e ↦ absurd (ground arith)
            | inr (inl e) ↦ let same : s ≡ s' = ground arith in ap (λ x. x.wraps) (sym same)
            | inr (inr (debits, total, e)) ↦
                let same : finish_redeem host.sha256 host.id_of host.address_of api host.redeem_id
                      (new_redeem host.sha256 host.id_of host.address_of api tx total) debits s
                    ≡ s' =
                  ground arith in
                ap (λ x. x.wraps) (sym same)
          ]

  redeem_proof-wraps :
      (header_at : ℕ → Option String) (proof : TxProof) (s s' : TokenState)
      → redeem_proof host.encode host.redeem_hash host.check header_at proof s ≡ some s'
      → s'.wraps ≡ s.wraps
  unfolding redeem_proof
  redeem_proof-wraps header_at proof s s' h =
      elim (Bool-cases (ltb proof.confirming_height replay_height)) [
        | inl old ↦ let same : s ≡ s' = ground arith in ap (λ x. x.wraps) (sym same)
        | inr recent ↦ elim (Option-cases (validate host.check header_at proof)) [
          | inl fails ↦ absurd (ground arith)
          | inr (valid, answer) ↦ elim (Bool-cases valid) [
            | inl holds ↦
                let same : record s {
                  redeems =
                      pay_redeems host.encode host.redeem_hash proof.tx_id 0 proof.vout s.redeems;
                }
                    ≡ s' =
                  ground arith in
                ap (λ x. x.wraps) (sym same)
            | inr fails ↦ let same : s ≡ s' = ground arith in ap (λ x. x.wraps) (sym same)
          ]
        ]
      ]

  register_deposit-wraps :
      (api : ApiInput) (addr : Option String) (s : TokenState)
      → (register_deposit host.deposit_hash host.hash_address host.encode api addr s).wraps
        ≡ s.wraps
  unfolding register_deposit
  register_deposit-wraps api addr s = refl

  is_wrapped-wraps :
      (id : String) (s s' : TokenState)
      → s'.wraps ≡ s.wraps
      → is_wrapped id s ≡ true
      → is_wrapped id s' ≡ true
  unfolding is_wrapped
  is_wrapped-wraps id s s' same wrapped = rw same wrapped

  is_wrapped-Accepted :
      (id : String) (s s' : TokenState)
      → Accepted host s s'
      → is_wrapped id s ≡ true
      → is_wrapped id s' ≡ true
  unfolding is_wrapped mint
  is_wrapped-Accepted id s s' (transfer api tx h) =
      is_wrapped-wraps id s s' (apply_tx-wraps api tx s s' h)
  is_wrapped-Accepted id s s' (lock api tx h) =
      is_wrapped-wraps id s s' (apply_htlc-wraps api tx s s' h)
  is_wrapped-Accepted id s s' (withdraw api tx h) =
      is_wrapped-wraps id s s' (redeem-wraps api tx s s' h)
  is_wrapped-Accepted id s s' (register api addr h) =
      is_wrapped-wraps id s s' (ap (λ x. x.wraps) h ∙ register_deposit-wraps api addr s)
  is_wrapped-Accepted id s s' (prove header_at proof h) =
      is_wrapped-wraps id s s' (redeem_proof-wraps header_at proof s s' h)
  is_wrapped-Accepted id s s' (issue api header_at dest_addr proof h) =
      λ wrapped. rw h (ground (arith, lookup-insert proof.tx_id id "1" s.wraps))

  is_wrapped-Run :
      (id : String) (s s' : TokenState)
      → Run host s s'
      → is_wrapped id s ≡ true
      → is_wrapped id s' ≡ true
  is_wrapped-Run id s _ start wrapped = wrapped
  is_wrapped-Run id s s'' (then_call {s'} h call) wrapped =
      is_wrapped-Accepted id s' s'' call (is_wrapped-Run id s s' h wrapped)

  is_wrapped-mint :
      (api : ApiInput) (header_at : ℕ → Option String) (dest_addr : Option String) (proof : TxProof)
      (s : TokenState)
      → replay_height ≤ proof.confirming_height
      → is_valid host.check header_at proof ≡ true
      → is_wrapped proof.tx_id (
          mint host.check header_at host.deposit_hash host.hash_address host.encode api host.id_of
            dest_addr proof s)
        ≡ true
  unfolding is_wrapped mint
  is_wrapped-mint api header_at dest_addr proof s recent valid =
      ground (arith, lookup-insert_self proof.tx_id "1" s.wraps)

  mint-wrapped :
      (api : ApiInput) (header_at : ℕ → Option String) (dest_addr : Option String) (proof : TxProof)
      (s : TokenState)
      → is_wrapped proof.tx_id s ≡ true
      → mint host.check header_at host.deposit_hash host.hash_address host.encode api host.id_of
          dest_addr proof s
        ≡ s
  unfolding mint
  mint-wrapped api header_at dest_addr proof s wrapped = ground arith

  -- Once mint has found a bitcoin transaction valid in a block of height 818,769 or later, a further
  -- call of mint for it changes nothing, whoever calls it and whatever the relay has then, after any
  -- calls of the contract's actions in between that do not throw, with any arguments.
  pub mint_once :
      (api later : ApiInput) (header_at headers_later : ℕ → Option String)
      (dest_addr dest_later : Option String) (proof again : TxProof) (s s' : TokenState)
      → replay_height ≤ proof.confirming_height
      → is_valid host.check header_at proof ≡ true
      → again.tx_id ≡ proof.tx_id
      → Run host
          (mint host.check header_at host.deposit_hash host.hash_address host.encode api host.id_of
            dest_addr proof s)
          s'
      → mint host.check headers_later host.deposit_hash host.hash_address host.encode later
          host.id_of dest_later again s'
        ≡ s'
  mint_once api later header_at headers_later dest_addr dest_later proof again s s' recent valid
        same h =
      let wrapped = is_wrapped-mint api header_at dest_addr proof s recent valid in
      let still = is_wrapped-Run proof.tx_id _ s' h wrapped in
      mint-wrapped later headers_later dest_later again s' (rw same still)
