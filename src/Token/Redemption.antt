-- ===== src/Token/Redemption.antt =====
-- What redeem and redeemProof of contracts/btc-token.ts do to the sum of all balances.
use vsc_node.Prelude.{
  ℕ, ◌+◌, String, ◌≡◌, refl, sym, ap, subst, ◌∙◌, inl, inr, List, [], ◌∷◌, Option, none, some, Bool,
  ltb, str_eq, Dict, lookup, insert, arith, Bool-cases, Option-cases,
}
use vsc_node.Prelude.Int.{pos, ◌+ℤ◌, int_laws, parts_of_eq, +ℤ_assoc}
use vsc_node.Token.Store.{RefType, Input, Controller, LedgerOutput, Redeem, TokenState, ApiInput}
use vsc_node.Token.Spend.{collect, Transfer, is_spendable, new_redeem, redeem, finish_redeem}
use vsc_node.Token.Deposit.{
  BtcOutput, TxProof, validate, complete_redeem, is_payment, pay_redeem, pay_redeems, redeem_proof,
  replay_height,
}
use vsc_node.Token.Debits.{total_balance, IsDistinct}
use vsc_node.Token.Conservation.{
  total_redeemed, supply, Keeps, Collected-cases, store_debits_conserves,
}

total_redeemed-insert_new :
    (id : String) (r : Redeem) (redeems : Dict Redeem)
    → lookup id redeems ≡ none
    → total_redeemed (insert id r redeems) ≡ total_redeemed redeems +ℤ r.balance
unfolding total_redeemed insert lookup
total_redeemed-insert_new id r [] h = omega int_laws
total_redeemed-insert_new id r ((k, old) ∷ rest) h = elim (Bool-cases (str_eq k id)) [
  | inl same ↦ ground arith
  | inr other ↦
      let absent : lookup id rest ≡ none = ground arith in
      rw (other, total_redeemed-insert_new id r rest absent)
        (sym (+ℤ_assoc old.balance (total_redeemed rest) r.balance))
]

-- A redeem is replaced by one with the same balance.
total_redeemed-insert_same :
    (id : String) (r old : Redeem) (redeems : Dict Redeem)
    → lookup id redeems ≡ some old
    → r.balance ≡ old.balance
    → total_redeemed (insert id r redeems) ≡ total_redeemed redeems
unfolding total_redeemed insert lookup
total_redeemed-insert_same id r old [] h e = ground arith
total_redeemed-insert_same id r old ((k, here) ∷ rest) h e = elim (Bool-cases (str_eq k id)) [
  | inl same ↦ let is_old : here ≡ old = ground arith in rw (same, is_old, e) refl
  | inr other ↦
      let later : lookup id rest ≡ some old = ground arith in
      rw (other, total_redeemed-insert_same id r old rest later e) refl
]

-- No stored redeem has the id of one with the inputs.
unfoldable pub IsNewRedeem :
    (Redeem → String → String) → ApiInput → List Input → TokenState → Type 0
IsNewRedeem redeem_id api inputs s =
    (r : Redeem) → r.inputs ≡ inputs → lookup (redeem_id r api.included_in) s.redeems ≡ none

module _ (sha256 : String → String) (id_of : LedgerOutput → String)
    (address_of : List Controller → String) (redeem_id : Redeem → String → String) where
  pub redeem_supply :
      (api : ApiInput) (tx : Transfer) (s s' : TokenState)
      → IsDistinct tx.inputs
      → IsNewRedeem redeem_id api tx.inputs s
      → redeem sha256 id_of address_of api redeem_id tx s ≡ some s'
      → Keeps s s'
  unfolding redeem finish_redeem supply IsNewRedeem
  redeem_supply api tx s s' distinct new h =
      let allowed = is_spendable sha256 id_of address_of api in
      elim (Collected-cases (collect allowed s.outputs tx.inputs [] (pos 0))) [
        | inl e ↦ ground arith
        | inr (inl e) ↦ let same : s ≡ s' = ground arith in subst (Keeps s) same (refl, refl)
        | inr (inr (debits, total, e)) ↦
            let made = new_redeem sha256 id_of address_of api tx total in
            let output_id = redeem_id made api.included_in in
            let same : finish_redeem sha256 id_of address_of api redeem_id made debits s ≡ s' =
              ground arith in
            let taken =
              store_debits_conserves allowed tx.inputs s.outputs debits total distinct e output_id
                (some RefType.redeem) in
            let kept = total_redeemed-insert_new output_id made s.redeems (new made refl) in
            subst (Keeps s) same (omega (int_laws, parts_of_eq taken, parts_of_eq kept), refl)
      ]

module _ (check : String → TxProof → Option Bool) (header_at : ℕ → Option String) where
  module _ (encode : String → String) (redeem_hash : String → Option String) where
    pay_redeem_total :
        (tx_id : String) (index : ℕ) (o : BtcOutput) (id : String) (redeems paid : Dict Redeem)
        → pay_redeem encode redeem_hash tx_id index o id redeems ≡ some paid
        → total_redeemed paid ≡ total_redeemed redeems
    unfolding pay_redeem complete_redeem
    pay_redeem_total tx_id index o id redeems paid h = elim (Option-cases (lookup id redeems)) [
      | inl missing ↦ let same : redeems ≡ paid = ground arith in ap total_redeemed (sym same)
      | inr (r, found) ↦ elim (Option-cases (is_payment encode redeem_hash r o.hash)) [
        | inl broken ↦ ground arith
        | inr (pays, known) ↦ elim (Bool-cases pays) [
          | inl yes_pays ↦
              let done = complete_redeem tx_id index o.val r in
              let same : insert id done redeems ≡ paid = ground arith in
              ap total_redeemed (sym same) ∙ total_redeemed-insert_same id done r redeems found refl
          | inr other ↦ let same : redeems ≡ paid = ground arith in ap total_redeemed (sym same)
        ]
      ]
    ]

    pay_redeems_total :
        (tx_id : String) (index : ℕ) (vout : List BtcOutput) (redeems : Dict Redeem)
        → total_redeemed (pay_redeems encode redeem_hash tx_id index vout redeems)
          ≡ total_redeemed redeems
    unfolding pay_redeems
    pay_redeems_total tx_id index [] redeems = refl
    pay_redeems_total tx_id index (o ∷ []) redeems = refl
    pay_redeems_total tx_id index (o ∷ note ∷ vout) redeems = elim (Option-cases note.op_return) [
      | inl unread ↦ rw unread refl
      | inr (id, read) ↦
          elim (Option-cases (pay_redeem encode redeem_hash tx_id index o id redeems)) [
            | inl broken ↦ rw (read, broken) refl
            | inr (paid, known) ↦
                rw (read, known)
                  (pay_redeems_total tx_id (index + 2) vout paid
                    ∙ pay_redeem_total tx_id index o id redeems paid known)
          ]
    ]

    pub redeem_proof_supply :
        (proof : TxProof) (s s' : TokenState)
        → redeem_proof encode redeem_hash check header_at proof s ≡ some s'
        → Keeps s s'
    unfolding redeem_proof supply
    redeem_proof_supply proof s s' h =
        elim (Bool-cases (ltb proof.confirming_height replay_height)) [
          | inl old ↦ let same : s ≡ s' = ground arith in subst (Keeps s) same (refl, refl)
          | inr recent ↦ elim (Option-cases (validate check header_at proof)) [
            | inl broken ↦ ground arith
            | inr (valid, known) ↦ elim (Bool-cases valid) [
              | inl holds ↦
                  let paid = pay_redeems encode redeem_hash proof.tx_id 0 proof.vout s.redeems in
                  let same : record s { redeems = paid } ≡ s' = ground arith in
                  subst (Keeps s) same (
                    ap (λ t. total_balance s.outputs +ℤ t)
                        (pay_redeems_total proof.tx_id 0 proof.vout s.redeems),
                    refl,
                  )
              | inr fails ↦ let same : s ≡ s' = ground arith in subst (Keeps s) same (refl, refl)
            ]
          ]
        ]
