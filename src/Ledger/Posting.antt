-- ===== src/Ledger/Posting.antt =====
-- What the posting of events (`applyLedgerOp`, and the loop over it) does to a context.
use vsc_node.Prelude.{
  range, ℕ, ◌+◌, String, ◌≡◌, refl, sym, ap, ◌∙◌, inl, inr, List, [], ◌∷◌, ◌++◌, append-nil,
  append_assoc, true, false, length, length-append, insert, starts_with, str_eq, eq_iff, arith,
  Bool-cases,
}
use vsc_node.Prelude.Int.{pos, ◌+ℤ◌, int_laws, +ℤ_assoc}
use vsc_node.Ledger.Types.{Token, EventOp, Tokens, amount_of, with_amount, delta, credited}
use vsc_node.Ledger.Context.{
  Context, get_snapshot, credit_owner, apply_ledger_op, apply_ledger_ops, record_ops,
}
use vsc_node.Ledger.Balances.{
  amount_update, balance_in, balance_of, balance_in-insert, get_snapshot_keeps, get_snapshot-eq,
}

false-ne-true : false ≡ true → ⊥
false-ne-true e = cc

-- An owner outside the internal addresses.
abbrev pub IsExternal : String → Type 0
IsExternal id = starts_with id "#" ≡ false

module _ (snapshot : String → Tokens) where
  delta_internal :
      (op : EventOp) (id : String) (tk : Token)
      → IsExternal id
      → starts_with op.owner "#" ≡ true
      → delta id tk op ≡ pos 0
  delta_internal op id tk h s = elim (Bool-cases (str_eq op.owner id)) [
    | inl e ↦
        absurd
          (false-ne-true (sym h ∙ sym (ap (λ o. starts_with o "#") ((eq_iff op.owner id).0 e)) ∙ s))
    | inr e ↦ rw e
  ]

  credit_lem :
      (op : EventOp) (c : Context) (r : Tokens × Context) (id : String) (tk : Token)
      → amount_of r.0 tk ≡ balance_of snapshot c op.owner tk
      → balance_of snapshot r.1 id tk ≡ balance_of snapshot c id tk
      → balance_in snapshot
          (insert op.owner (with_amount r.0 op.tk (amount_of r.0 op.tk +ℤ op.amt)) r.1.balances)
          id
          tk
        ≡ balance_of snapshot c id tk +ℤ delta id tk op
  credit_lem op c r id tk ha hb =
      rw
        (balance_in-insert snapshot r.1.balances op.owner id
          (with_amount r.0 op.tk (amount_of r.0 op.tk +ℤ op.amt)) tk)
        (elim (Bool-cases (str_eq op.owner id)) [
          | inl e ↦ rw (e, amount_update r.0 op.tk tk op.amt, ha, (eq_iff op.owner id).0 e)
          | inr e ↦ rw (e, hb) (omega int_laws)
        ])

  -- One event changes the balance of its owner in its token, by its amount.
  pub credit_owner-balance :
      (op : EventOp) (c : Context) (id : String) (tk : Token)
      → IsExternal id
      → balance_of snapshot (credit_owner snapshot op c) id tk
        ≡ balance_of snapshot c id tk +ℤ delta id tk op
  unfolding credit_owner
  credit_owner-balance op c id tk h = elim (Bool-cases (starts_with op.owner "#")) [
    | inl internal ↦ rw (internal, delta_internal op id tk h internal) (omega int_laws)
    | inr external ↦
        rw (external, credit_owner)
          (credit_lem op c (get_snapshot snapshot op.owner c) id tk
            (get_snapshot-eq snapshot op.owner c tk) (get_snapshot_keeps snapshot op.owner c id tk))
  ]

  -- An internal address has no balance that an event could change.
  delta_other :
      (op : EventOp) (id : String) (tk : Token)
      → starts_with id "#" ≡ true
      → starts_with op.owner "#" ≡ false
      → delta id tk op ≡ pos 0
  delta_other op id tk h s = elim (Bool-cases (str_eq op.owner id)) [
    | inl e ↦
        absurd (false-ne-true (sym s ∙ ap (λ o. starts_with o "#") ((eq_iff op.owner id).0 e) ∙ h))
    | inr e ↦ rw e
  ]

  credit_owner-internal :
      (op : EventOp) (c : Context) (id : String) (tk : Token)
      → starts_with id "#" ≡ true
      → balance_of snapshot (credit_owner snapshot op c) id tk ≡ balance_of snapshot c id tk
  unfolding credit_owner
  credit_owner-internal op c id tk h = elim (Bool-cases (starts_with op.owner "#")) [
    | inl internal ↦ rw internal
    | inr external ↦
        rw (external, credit_owner)
          (credit_lem op c (get_snapshot snapshot op.owner c) id tk
              (get_snapshot-eq snapshot op.owner c tk)
              (get_snapshot_keeps snapshot op.owner c id tk)
            ∙ rw (delta_other op id tk h external) (omega int_laws))
  ]

  apply_ledger_ops-internal :
      (ops : List EventOp) (c : Context) (id : String) (tk : Token)
      → starts_with id "#" ≡ true
      → balance_of snapshot (apply_ledger_ops snapshot ops c).1 id tk ≡ balance_of snapshot c id tk
  unfolding apply_ledger_ops apply_ledger_op
  apply_ledger_ops-internal [] c id tk h = refl
  apply_ledger_ops-internal (op ∷ ops) c id tk h =
      apply_ledger_ops-internal ops (apply_ledger_op snapshot op c).1 id tk h
      ∙ credit_owner-internal op c id tk h

  pub record_ops-internal :
      (tx_id : String) (ops : List EventOp) (c : Context) (id : String) (tk : Token)
      → starts_with id "#" ≡ true
      → balance_of snapshot (record_ops snapshot tx_id ops c) id tk ≡ balance_of snapshot c id tk
  unfolding record_ops
  record_ops-internal tx_id ops c id tk h = apply_ledger_ops-internal ops c id tk h

  pub credit_owner-ledger :
      (op : EventOp) (c : Context) → (credit_owner snapshot op c).ledger ≡ c.ledger
  unfolding credit_owner get_snapshot
  credit_owner-ledger op c = ground arith

  -- What it means that the step from `c` to `d` posts the events `ops` with the indexes `is`.
  pub record Posts (ops : List EventOp) (is : List ℕ) (c d : Context) : Type 0 where
    pub appended : d.ledger ≡ c.ledger ++ ops
    pub indexed : is ≡ range (length c.ledger) (length ops)
    pub moved :
        (id : String) (tk : Token)
        → IsExternal id
        → balance_of snapshot d id tk ≡ balance_of snapshot c id tk +ℤ credited id tk ops

  pub apply_ledger_ops-Posts :
      (ops : List EventOp) (c : Context)
      → Posts ops (apply_ledger_ops snapshot ops c).0 c (apply_ledger_ops snapshot ops c).1
  unfolding apply_ledger_ops apply_ledger_op
  apply_ledger_ops-Posts [] c = record {
    appended = sym (append-nil c.ledger);
    indexed = refl;
    moved = λ id tk h. omega int_laws;
  }
  apply_ledger_ops-Posts (op ∷ ops) c =
      let c' = (apply_ledger_op snapshot op c).1 in
      let same = credit_owner-ledger op c in
      let rest = apply_ledger_ops-Posts ops c' in
      record {
        appended = rest.appended ∙ rw same (append_assoc c.ledger (op ∷ []) ops);
        indexed =
            let more : length c'.ledger ≡ length c.ledger + 1 =
              rw same (length-append c.ledger (op ∷ [])) in
            let first : length (credit_owner snapshot op c).ledger ≡ length c.ledger = rw same in
            rw (rest.indexed, more, first);
        moved = λ id tk h.
            rest.moved id tk h
            ∙ ap (λ x. x +ℤ credited id tk ops) (credit_owner-balance op c id tk h)
            ∙ +ℤ_assoc _ _ _;
      }

  -- The posting of events leaves the rest of the context alone.
  abbrev pub SameRest : Context → Context → Type 0
  SameRest c d =
      (d.txs ≡ c.txs)
      × (d.txs_map ≡ c.txs_map)
      × (d.results ≡ c.results)
      × (d.initialized ≡ c.initialized)

  credit_owner-SameRest : (op : EventOp) (c : Context) → SameRest c (credit_owner snapshot op c)
  unfolding credit_owner get_snapshot
  credit_owner-SameRest op c = ground arith

  pub apply_ledger_ops-SameRest :
      (ops : List EventOp) (c : Context) → SameRest c (apply_ledger_ops snapshot ops c).1
  unfolding apply_ledger_ops apply_ledger_op
  apply_ledger_ops-SameRest [] c = (refl, refl, refl, refl)
  apply_ledger_ops-SameRest (op ∷ ops) c =
      let (a, b, r, i) = apply_ledger_ops-SameRest ops (apply_ledger_op snapshot op c).1 in
      let (a', b', r', i') = credit_owner-SameRest op c in (a ∙ a', b ∙ b', r ∙ r', i ∙ i')

  -- A transaction whose events are recorded adds its id and their indexes.
  pub record_ops-Posts :
      (id : String) (ops : List EventOp) (c : Context)
      → let d = record_ops snapshot id ops c in
        let is = range (length c.ledger) (length ops) in
        Posts ops is c d
        × (d.txs ≡ c.txs ++ id ∷ [])
        × (d.txs_map ≡ c.txs_map ++ is ∷ [])
        × (d.initialized ≡ c.initialized)
  unfolding record_ops
  record_ops-Posts id ops c =
      let p = apply_ledger_ops-Posts ops c in
      let (t, m, _, i) = apply_ledger_ops-SameRest ops c in
      (
        record { appended = p.appended; indexed = refl; moved = p.moved },
        rw t,
        rw (m, p.indexed),
        i,
      )
