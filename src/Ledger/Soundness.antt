-- ===== src/Ledger/Soundness.antt =====
-- The invariant of TxContext: the cached balances agree with the ledger, and the indexes in
-- `txsMap` name each event once. Recording a transaction keeps it.
use vsc_node.Prelude.{
  range, range-append, ℕ, ◌+◌, String, ◌≡◌, refl, sym, ◌∙◌, List, [], ◌∷◌, ◌++◌, append-nil,
  append_assoc, length, length-append, lookup, arith,
}
use vsc_node.Prelude.Int.{◌+ℤ◌, int_laws, +ℤ_assoc}
use vsc_node.Ledger.Types.{Token, EventOp, Tokens, amount_of, credited, credited-append}
use vsc_node.Ledger.Context.{Context, new_context, record_ops}
use vsc_node.Ledger.Balances.{balance_of}
use vsc_node.Ledger.Posting.{IsExternal, record_ops-Posts}

abbrev pub flatten : List (List ℕ) → List ℕ
flatten [] = []
flatten (xs ∷ xss) = xs ++ flatten xss

flatten-append : (xss : List (List ℕ)) (ys : List ℕ) → flatten (xss ++ ys ∷ []) ≡ flatten xss ++ ys
flatten-append [] ys = append-nil ys
flatten-append (xs ∷ xss) ys = rw (flatten-append xss ys) (sym (append_assoc xs (flatten xss) ys))

range_from_zero : (n m : ℕ) → range 0 n ++ range n m ≡ range 0 (n + m)
range_from_zero n m = let e : 0 + n ≡ n = omega arith in rw e at (range-append 0 n m)

module _ (snapshot : String → Tokens) where
  pub record IsSound (c : Context) : Type 0 where
    -- The balance of an account is its snapshot and what the events of this block credit to it.
    pub reconciled :
        (id : String) (tk : Token)
        → IsExternal id
        → balance_of snapshot c id tk ≡ amount_of (snapshot id) tk +ℤ credited id tk c.ledger
    -- The transactions' indexes, in order, are those of the events.
    pub partitioned : flatten c.txs_map ≡ range 0 (length c.ledger)
    pub paired : length c.txs ≡ length c.txs_map

  pub new_context-IsSound : IsSound new_context
  unfolding new_context lookup ◌+ℤ◌
  new_context-IsSound = record {
    reconciled = λ id tk h. omega int_laws;
    partitioned = refl;
    paired = refl;
  }

  -- A context with the same ledger and the same balances.
  pub record Same (c d : Context) : Type 0 where
    pub balances :
        (id : String) (tk : Token) → balance_of snapshot d id tk ≡ balance_of snapshot c id tk
    pub ledger : d.ledger ≡ c.ledger
    pub txs : d.txs ≡ c.txs
    pub txs_map : d.txs_map ≡ c.txs_map

  pub Same-IsSound : {c d : Context} → Same c d → IsSound c → IsSound d
  Same-IsSound same s = record {
    reconciled = λ id tk h. same.balances id tk ∙ rw same.ledger (s.reconciled id tk h);
    partitioned = rw (same.txs_map, same.ledger) s.partitioned;
    paired = rw (same.txs, same.txs_map) s.paired;
  }

  pub Same-trans : {c d e : Context} → Same c d → Same d e → Same c e
  Same-trans p q = record {
    balances = λ id tk. q.balances id tk ∙ p.balances id tk;
    ledger = q.ledger ∙ p.ledger;
    txs = q.txs ∙ p.txs;
    txs_map = q.txs_map ∙ p.txs_map;
  }

  pub record_ops-IsSound :
      (id : String) (ops : List EventOp) (c : Context)
      → IsSound c
      → IsSound (record_ops snapshot id ops c)
  record_ops-IsSound id ops c s =
      let (p, t, m, _) = record_ops-Posts snapshot id ops c in
      record {
        reconciled = λ i tk h.
            p.moved i tk h
            ∙ rw (p.appended, credited-append i tk c.ledger ops, s.reconciled i tk h)
                (+ℤ_assoc _ _ _);
        partitioned =
            rw (m, flatten-append, s.partitioned, p.appended, length-append)
              (range_from_zero (length c.ledger) (length ops));
        paired =
            rw (t, m)
              (omega (
                arith,
                length-append c.txs (id ∷ []),
                length-append c.txs_map (range (length c.ledger) (length ops) ∷ []),
                s.paired,
              ));
      }
