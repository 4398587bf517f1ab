-- ===== src/Token/Supply.antt =====
-- What mint and registerDeposit of contracts/btc-token.ts do to the sum of all balances.
use vsc_node.Prelude.{
  ℕ, ◌+◌, String, ◌≡◌, refl, sym, ap, ◌∙◌, inl, inr, List, [], ◌∷◌, Option, none, some, Bool, not,
  ltb, ◌&&◌, if◌then◌else◌, Dict, lookup, insert, Bool-cases, Option-cases,
}
use vsc_node.Prelude.Int.{ℤ, pos, ◌+ℤ◌, int_laws, parts_of_eq, +ℤ_assoc, +ℤ_zero}
use vsc_node.Token.Store.{LedgerOutput, TokenState, ApiInput}
use vsc_node.Token.Deposit.{
  BtcOutput, TxProof, btc_amount, owner_of, minted_output, mint_outputs, register_deposit,
  is_wrapped, is_valid, mint, replay_height,
}
use vsc_node.Token.Debits.{total_balance, total_balance-insert_new}
use vsc_node.Token.Conservation.{supply, Keeps}

minted_total :
    (tx_id : String) (index val : ℕ) (owner : Option String) (id : String)
    (outputs : Dict LedgerOutput)
    → lookup id outputs ≡ none
    → total_balance (insert id (minted_output tx_id index val owner) outputs)
      ≡ total_balance outputs +ℤ pos (btc_amount val)
unfolding minted_output
minted_total tx_id index val owner id outputs absent =
    total_balance-insert_new id (minted_output tx_id index val owner) outputs absent

module _ (deposit_hash hash_address encode : String → String) (api : ApiInput) where
  -- What the loop of mint issues.
  unfoldable pub issued : Option String → Dict String → List BtcOutput → ℤ
  issued dest_addr addrs [] = pos 0
  issued dest_addr addrs (o ∷ vout) = elim o.hash [
    | none ↦ pos 0
    | some hash ↦ elim (owner_of deposit_hash hash_address encode api dest_addr addrs hash) [
      | none ↦ issued dest_addr addrs vout
      | some owner ↦ pos (btc_amount o.val) +ℤ issued dest_addr addrs vout
    ]
  ]

  module _ (id_of : LedgerOutput → String) (dest_addr : Option String) (tx_id : String)
      (addrs : Dict String) where
    -- Each output that the loop of mint stores has an id that is not in use then.
    unfoldable pub IsMintable : ℕ → List BtcOutput → Dict LedgerOutput → Type 0
    IsMintable index [] outputs = Unit
    IsMintable index (o ∷ vout) outputs = elim o.hash [
      | none ↦ Unit
      | some hash ↦ elim (owner_of deposit_hash hash_address encode api dest_addr addrs hash) [
        | none ↦ IsMintable (index + 1) vout outputs
        | some owner ↦
            let out = minted_output tx_id index o.val owner in
            (lookup (id_of out) outputs ≡ none)
            × IsMintable (index + 1) vout (insert (id_of out) out outputs)
      ]
    ]

    mint_outputs_total :
        (vout : List BtcOutput) (index : ℕ) (outputs : Dict LedgerOutput)
        → IsMintable index vout outputs
        → total_balance (
            mint_outputs deposit_hash hash_address encode api id_of dest_addr tx_id addrs index vout
              outputs)
          ≡ total_balance outputs +ℤ issued dest_addr addrs vout
    unfolding mint_outputs issued IsMintable
    mint_outputs_total [] index outputs new = sym (+ℤ_zero (total_balance outputs))
    mint_outputs_total (o ∷ vout) index outputs new = elim (Option-cases o.hash) [
      | inl unread ↦ rw unread (sym (+ℤ_zero (total_balance outputs)))
      | inr (hash, read) ↦
          elim (Option-cases (owner_of deposit_hash hash_address encode api dest_addr addrs hash)) [
            | inl unowned ↦
                rw (read, unowned)
                  (mint_outputs_total vout (index + 1) outputs (rw (read, unowned) at new))
            | inr (owner, owned) ↦
                let out = minted_output tx_id index o.val owner in
                let (absent, later) = rw (read, owned) at new in
                rw (read, owned)
                  (mint_outputs_total vout (index + 1) (insert (id_of out) out outputs) later
                    ∙ ap (λ b. b +ℤ issued dest_addr addrs vout)
                        (minted_total tx_id index o.val owner (id_of out) outputs absent)
                    ∙ +ℤ_assoc (total_balance outputs) (pos (btc_amount o.val))
                        (issued dest_addr addrs vout))
          ]
    ]

module _ (check : String → TxProof → Option Bool) (header_at : ℕ → Option String) where
  module _ (deposit_hash hash_address encode : String → String) (api : ApiInput)
      (id_of : LedgerOutput → String) (dest_addr : Option String) where
    -- What a call of mint issues: nothing for a transaction that is old, unproved or wrapped.
    unfoldable pub minted : TxProof → TokenState → ℤ
    minted proof s =
        if ltb proof.confirming_height replay_height
        then pos 0
        else if is_valid check header_at proof && not (is_wrapped proof.tx_id s)
        then issued deposit_hash hash_address encode api dest_addr s.btc_addrs proof.vout
        else pos 0

    pub mint_issues :
        (proof : TxProof) (s : TokenState)
        → IsMintable deposit_hash hash_address encode api id_of dest_addr proof.tx_id s.btc_addrs 0
            proof.vout s.outputs
        → supply (mint check header_at deposit_hash hash_address encode api id_of dest_addr proof s)
          ≡ supply s +ℤ minted proof s
    unfolding mint minted supply
    mint_issues proof s new = elim (Bool-cases (ltb proof.confirming_height replay_height)) [
      | inl old ↦ rw old (sym (+ℤ_zero (supply s)))
      | inr recent ↦
          elim (Bool-cases (is_valid check header_at proof && not (is_wrapped proof.tx_id s))) [
            | inl holds ↦
                let made =
                  mint_outputs_total deposit_hash hash_address encode api id_of dest_addr
                    proof.tx_id s.btc_addrs proof.vout 0 s.outputs new in
                rw (recent, holds) (omega (int_laws, parts_of_eq made))
            | inr fails ↦ rw (recent, fails) (sym (+ℤ_zero (supply s)))
          ]
    ]

pub register_deposit_supply :
    (deposit_hash hash_address encode : String → String) (api : ApiInput) (addr : Option String)
    (s : TokenState)
    → Keeps s (register_deposit deposit_hash hash_address encode api addr s)
unfolding register_deposit supply
register_deposit_supply deposit_hash hash_address encode api addr s = (refl, refl)
