-- ===== src/Token/Debits.antt =====
-- What the loops over the inputs of contracts/btc-token.ts gather and store.
use vsc_node.Prelude.{
  String, ◌≡◌, refl, sym, ◌∙◌, inl, inr, List, [], ◌∷◌, ◌++◌, Option, none, some, Bool, true, false,
  str_eq, ◌||◌, Dict, lookup, insert, lookup-insert, arith, eq_iff, Bool-cases, Option-cases,
  append_assoc, append-nil,
}
use vsc_node.Prelude.Int.{ℤ, pos, ◌+ℤ◌, ◌-ℤ◌, leb_ℤ, int_laws, parts_of_eq, +ℤ_assoc, +ℤ_zero}
use vsc_node.Token.Store.{RefType, Input, LedgerOutput}
use vsc_node.Token.Spend.{Debit, collected, debit_of, collect, store_debits}

-- What all outputs hold.
unfoldable pub total_balance : Dict LedgerOutput → ℤ
total_balance [] = pos 0
total_balance ((id, out) ∷ rest) = out.balance +ℤ total_balance rest

unfoldable pub total_debit : List Debit → ℤ
total_debit [] = pos 0
total_debit (d ∷ debits) = d.amount +ℤ total_debit debits

-- An input with the id is among those of a transfer.
unfoldable pub spends : String → List Input → Bool
spends id [] = false
spends id (input ∷ inputs) = str_eq input.id id || spends id inputs

-- No output is an input twice.
unfoldable pub IsDistinct : List Input → Type 0
IsDistinct [] = Unit
IsDistinct (input ∷ inputs) = (spends input.id inputs ≡ false) × IsDistinct inputs

-- The debits of the inputs, which are all stored, large enough and allowed.
unfoldable pub Debits :
    (LedgerOutput → Input → Bool) → Dict LedgerOutput → List Input → List Debit → Type 0
Debits allowed outputs [] debits = debits ≡ []
Debits allowed outputs (input ∷ inputs) debits =
    (out : LedgerOutput) × (rest : List Debit) × (lookup input.id outputs ≡ some out)
    × (leb_ℤ input.amount out.balance ≡ true)
    × (allowed out input ≡ true)
    × (debits ≡ debit_of input out ∷ rest)
    × Debits allowed outputs inputs rest

pub collect-from :
    (allowed : LedgerOutput → Input → Bool) (outputs : Dict LedgerOutput) (inputs : List Input)
    (before after : List Debit) (start total : ℤ)
    → collect allowed outputs inputs before start ≡ collected after total
    → (debits : List Debit) × (after ≡ before ++ debits)
      × (total ≡ start +ℤ total_debit debits)
      × Debits allowed outputs inputs debits
unfolding collect Debits total_debit debit_of
collect-from allowed outputs [] before after start total h =
    let same : before ≡ after = ground arith in
    let sum : start ≡ total = ground arith in
    ([], sym same ∙ sym (append-nil before), sym sum ∙ sym (+ℤ_zero start), refl)
collect-from allowed outputs (input ∷ inputs) before after start total h =
    elim (Option-cases (lookup input.id outputs)) [
      | inl missing ↦ ground arith
      | inr (out, found) ↦
          let covered : leb_ℤ input.amount out.balance ≡ true = ground arith in
          let ok : allowed out input ≡ true = ground arith in
          let next : collect allowed outputs inputs (before ++ debit_of input out ∷ [])
                (start +ℤ input.amount)
              ≡ collected after total =
            ground arith in
          let (debits, ends, sum, facts) =
            collect-from allowed outputs inputs (before ++ debit_of input out ∷ []) after
              (start +ℤ input.amount) total next in
          (
            debit_of input out ∷ debits,
            ends ∙ append_assoc before (debit_of input out ∷ []) debits,
            sum ∙ +ℤ_assoc start input.amount (total_debit debits),
            (out, debits, found, covered, ok, refl, facts),
          )
    ]

pub total_balance-insert_new :
    (id : String) (out : LedgerOutput) (outputs : Dict LedgerOutput)
    → lookup id outputs ≡ none
    → total_balance (insert id out outputs) ≡ total_balance outputs +ℤ out.balance
unfolding total_balance insert lookup
total_balance-insert_new id out [] h = omega int_laws
total_balance-insert_new id out ((k, old) ∷ rest) h = elim (Bool-cases (str_eq k id)) [
  | inl same ↦ ground arith
  | inr other ↦
      let absent : lookup id rest ≡ none = ground arith in
      let tail = total_balance-insert_new id out rest absent in
      rw (other, tail) (sym (+ℤ_assoc old.balance (total_balance rest) out.balance))
]

pub total_balance-insert_old :
    (id : String) (out old : LedgerOutput) (outputs : Dict LedgerOutput)
    → lookup id outputs ≡ some old
    → total_balance (insert id out outputs) +ℤ old.balance ≡ total_balance outputs +ℤ out.balance
unfolding total_balance insert lookup
total_balance-insert_old id out old [] h = ground arith
total_balance-insert_old id out old ((k, here) ∷ rest) h = elim (Bool-cases (str_eq k id)) [
  | inl same ↦ let is_old : here ≡ old = ground arith in rw (same, is_old) (omega int_laws)
  | inr other ↦
      let later : lookup id rest ≡ some old = ground arith in
      let tail = total_balance-insert_old id out old rest later in
      rw other (omega (int_laws, parts_of_eq tail))
]

Debits-insert :
    (allowed : LedgerOutput → Input → Bool) (id : String) (out : LedgerOutput)
    (outputs : Dict LedgerOutput) (inputs : List Input) (debits : List Debit)
    → spends id inputs ≡ false
    → Debits allowed outputs inputs debits
    → Debits allowed (insert id out outputs) inputs debits
unfolding Debits spends
Debits-insert allowed id out outputs [] debits h d = d
Debits-insert allowed id out outputs (input ∷ inputs) debits h
      (o, rest, found, covered, ok, e, ds) =
    (
      o,
      rest,
      ground (arith, lookup-insert id input.id out outputs, eq_iff id input.id, eq_iff input.id id),
      covered,
      ok,
      e,
      Debits-insert allowed id out outputs inputs rest (ground arith) ds,
    )

-- Storing the debits of distinct inputs takes from the outputs what they add up to.
pub total_balance-store_debits :
    (output_id : String) (t : Option RefType) (allowed : LedgerOutput → Input → Bool)
    (inputs : List Input) (debits : List Debit) (outputs : Dict LedgerOutput)
    → IsDistinct inputs
    → Debits allowed outputs inputs debits
    → total_balance (store_debits output_id t debits outputs) +ℤ total_debit debits
      ≡ total_balance outputs
unfolding IsDistinct Debits store_debits total_debit debit_of
total_balance-store_debits output_id t allowed [] debits outputs h d =
    rw d (+ℤ_zero (total_balance outputs))
total_balance-store_debits output_id t allowed (input ∷ inputs) debits outputs (apart, h)
      (o, rest, found, covered, ok, e, ds) =
    let stored : LedgerOutput = record o {
      balance = o.balance -ℤ input.amount;
      outputs = o.outputs ++ record { id = output_id; amount = input.amount; t = t } ∷ [];
    } in
    let tail =
      total_balance-store_debits output_id t allowed inputs rest (insert input.id stored outputs) h
        (Debits-insert allowed input.id stored outputs inputs rest apart ds) in
    let head = total_balance-insert_old input.id stored o outputs found in
    rw e (omega (int_laws, parts_of_eq tail, parts_of_eq head))

-- An output that is no input is left as it was.
pub lookup-store_debits :
    (output_id : String) (t : Option RefType) (allowed : LedgerOutput → Input → Bool)
    (inputs : List Input) (debits : List Debit) (base outputs : Dict LedgerOutput) (id : String)
    → spends id inputs ≡ false
    → Debits allowed base inputs debits
    → lookup id (store_debits output_id t debits outputs) ≡ lookup id outputs
unfolding spends Debits store_debits debit_of
lookup-store_debits output_id t allowed [] debits base outputs id h d = rw d refl
lookup-store_debits output_id t allowed (input ∷ inputs) debits base outputs id h
      (o, rest, found, covered, ok, e, ds) =
    let other : str_eq input.id id ≡ false = ground arith in
    rw e (
      lookup-store_debits output_id t allowed inputs rest base _ id (ground arith) ds
      ∙ rw (lookup-insert input.id id, other) refl)
