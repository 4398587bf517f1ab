-- ===== src/Token/Conservation.antt =====
-- The actions of contracts/btc-token.ts that spend outputs keep the sum of all balances.
use vsc_node.Prelude.{
  String, ◌≡◌, refl, sym, ap, ◌∙◌, ◌⊎◌, inl, inr, List, [], ◌∷◌, Option, none, some, Bool, false,
  str_eq, Dict, lookup, insert, arith, eq_iff, Bool-cases, subst,
}
use vsc_node.Prelude.Int.{ℤ, pos, ◌+ℤ◌, zero_+ℤ}
use vsc_node.Token.Store.{RefType, Input, Controller, LedgerOutput, Redeem, TokenState, ApiInput}
use vsc_node.Token.Spend.{
  Debit, Collected, thrown, refused, collected, collect, store_debits, Transfer, HtlcTransfer,
  is_spendable, is_owned, new_output, htlc_output, finish_spend, apply_tx, apply_htlc,
}
use vsc_node.Token.Debits.{
  total_balance, total_debit, spends, IsDistinct, Debits, collect-from, total_balance-insert_new,
  total_balance-store_debits, lookup-store_debits,
}

unfoldable pub total_redeemed : Dict Redeem → ℤ
total_redeemed [] = pos 0
total_redeemed ((id, r) ∷ rest) = r.balance +ℤ total_redeemed rest

-- What the outputs and the redeems hold.
unfoldable pub supply : TokenState → ℤ
supply s = total_balance s.outputs +ℤ total_redeemed s.redeems

-- A step that issues nothing and wraps no transaction.
abbrev pub Keeps : TokenState → TokenState → Type 0
Keeps s s' = (supply s' ≡ supply s) × (s'.wraps ≡ s.wraps)

pub Collected-cases :
    (c : Collected)
    → (c ≡ thrown)
      ⊎ ((c ≡ refused) ⊎ ((debits : List Debit) × (total : ℤ) × (c ≡ collected debits total)))
Collected-cases thrown = inl refl
Collected-cases refused = inr (inl refl)
Collected-cases (collected debits total) = inr (inr (debits, total, refl))

-- What the loop over the inputs gathers, from its start.
pub collect-Debits :
    (allowed : LedgerOutput → Input → Bool) (outputs : Dict LedgerOutput) (inputs : List Input)
    (debits : List Debit) (total : ℤ)
    → collect allowed outputs inputs [] (pos 0) ≡ collected debits total
    → (total ≡ total_debit debits) × Debits allowed outputs inputs debits
collect-Debits allowed outputs inputs debits total h =
    let (gathered, ends, sum, facts) =
      collect-from allowed outputs inputs [] debits (pos 0) total h in
    (
      sum ∙ zero_+ℤ (total_debit gathered) ∙ ap total_debit (sym ends),
      subst (Debits allowed outputs inputs) (sym ends) facts,
    )

Debits-spends :
    (allowed : LedgerOutput → Input → Bool) (outputs : Dict LedgerOutput) (inputs : List Input)
    (debits : List Debit) (id : String)
    → Debits allowed outputs inputs debits
    → lookup id outputs ≡ none
    → spends id inputs ≡ false
unfolding Debits spends
Debits-spends allowed outputs [] debits id d h = refl
Debits-spends allowed outputs (input ∷ inputs) debits id (o, rest, found, covered, ok, e, ds) h =
    let later = Debits-spends allowed outputs inputs rest id ds h in
    elim (Bool-cases (str_eq input.id id)) [
      | inl same ↦
          let clash : some o ≡ none =
            sym found ∙ ap (λ j. lookup j outputs) ((eq_iff input.id id).0 same) ∙ h in
          ground arith
      | inr other ↦ rw other later
    ]

module _ (allowed : LedgerOutput → Input → Bool) (inputs : List Input) (outputs : Dict LedgerOutput)
    (debits : List Debit) (total : ℤ) (distinct : IsDistinct inputs)
    (gathered : collect allowed outputs inputs [] (pos 0) ≡ collected debits total) where
  -- The debits of distinct inputs add up to what the outputs lose.
  pub store_debits_conserves :
      (output_id : String) (t : Option RefType)
      → total_balance (store_debits output_id t debits outputs) +ℤ total ≡ total_balance outputs
  store_debits_conserves output_id t =
      let (sum, facts) = collect-Debits allowed outputs inputs debits total gathered in
      rw sum (total_balance-store_debits output_id t allowed inputs debits outputs distinct facts)

  -- With the new output, which holds that sum, the total is as it was.
  pub new_output_total :
      (output_id : String) (t : Option RefType) (out : LedgerOutput)
      → lookup output_id outputs ≡ none
      → out.balance ≡ total
      → total_balance (insert output_id out (store_debits output_id t debits outputs))
        ≡ total_balance outputs
  new_output_total output_id t out fresh holds =
      let (sum, facts) = collect-Debits allowed outputs inputs debits total gathered in
      let unspent = Debits-spends allowed outputs inputs debits output_id facts fresh in
      let absent =
        lookup-store_debits output_id t allowed inputs debits outputs outputs output_id unspent
          facts
        ∙ fresh in
      total_balance-insert_new output_id out (store_debits output_id t debits outputs) absent
      ∙ ap (λ b. total_balance (store_debits output_id t debits outputs) +ℤ b) holds
      ∙ store_debits_conserves output_id t

-- No stored output has the id of an output with the inputs.
unfoldable pub IsNew : (LedgerOutput → String) → List Input → TokenState → Type 0
IsNew id_of inputs s =
    (out : LedgerOutput) → out.inputs ≡ inputs → lookup (id_of out) s.outputs ≡ none

module _ (sha256 : String → String) (id_of : LedgerOutput → String)
    (address_of : List Controller → String) (api : ApiInput) where
  finish_spend_total :
      (allowed : LedgerOutput → Input → Bool) (inputs : List Input) (s : TokenState)
      (debits : List Debit) (total : ℤ) (out : LedgerOutput)
      → IsDistinct inputs
      → lookup (id_of out) s.outputs ≡ none
      → collect allowed s.outputs inputs [] (pos 0) ≡ collected debits total
      → out.balance ≡ total
      → Keeps s (finish_spend sha256 id_of address_of api out debits s)
  unfolding finish_spend supply
  finish_spend_total allowed inputs s debits total out distinct new gathered holds = (
    ap (λ t. t +ℤ total_redeemed s.redeems)
        (new_output_total allowed inputs s.outputs debits total distinct gathered (id_of out) none
          out new holds),
    refl,
  )

  pub apply_tx_total :
      (tx : Transfer) (s s' : TokenState)
      → IsDistinct tx.inputs
      → IsNew id_of tx.inputs s
      → apply_tx sha256 id_of address_of api tx s ≡ some s'
      → Keeps s s'
  unfolding apply_tx IsNew
  apply_tx_total tx s s' distinct new h =
      let allowed = is_spendable sha256 id_of address_of api in
      elim (Collected-cases (collect allowed s.outputs tx.inputs [] (pos 0))) [
        | inl e ↦ ground arith
        | inr (inl e) ↦ let same : s ≡ s' = ground arith in subst (Keeps s) same (refl, refl)
        | inr (inr (debits, total, e)) ↦
            let out = new_output (some tx.dest) none total tx.memo tx.inputs in
            let same : finish_spend sha256 id_of address_of api out debits s ≡ s' = ground arith in
            subst (Keeps s) same (
              finish_spend_total allowed tx.inputs s debits total out distinct (new out refl) e
                refl)
      ]

  pub apply_htlc_total :
      (tx : HtlcTransfer) (s s' : TokenState)
      → IsDistinct tx.inputs
      → IsNew id_of tx.inputs s
      → apply_htlc sha256 id_of address_of api tx s ≡ some s'
      → Keeps s s'
  unfolding apply_htlc IsNew htlc_output
  apply_htlc_total tx s s' distinct new h =
      let allowed = is_owned sha256 id_of address_of api in
      elim (Collected-cases (collect allowed s.outputs tx.inputs [] (pos 0))) [
        | inl e ↦ ground arith
        | inr (inl e) ↦ let same : s ≡ s' = ground arith in subst (Keeps s) same (refl, refl)
        | inr (inr (debits, total, e)) ↦
            let out = htlc_output sha256 id_of address_of api tx total in
            let same : finish_spend sha256 id_of address_of api out debits s ≡ s' = ground arith in
            subst (Keeps s) same (
              finish_spend_total allowed tx.inputs s debits total out distinct (new out refl) e
                refl)
      ]
