-- ===== src/Block/Maximality.antt =====
-- What createBlock selects from candidates sorted by nonce could not be longer.
use vsc_node.Prelude.{
  ℕ, ◌+◌, ◌≤◌, String, ◌≡◌, ◌≢◌, refl, ap, ◌∙◌, inl, inr, List, [], ◌∷◌, Option, none, some, Bool,
  true, false, Dict, str_eq, arith, eq_iff, All, leb, lt_or_ge,
}
use vsc_node.Ledger.Context.{Tx}
use vsc_node.Block.Nonces.{nonce_is, check_nonce, select_txs}
use vsc_node.Block.Turns.{after_turn, expected, expected-check_nonce}

-- The order of the pool's query: a missing nonce comes first.
unfoldable pub nonce_le : Option ℕ → Option ℕ → Bool
nonce_le none m = true
nonce_le (some n) none = false
nonce_le (some n) (some m) = leb n m

unfoldable pub IsAbove : ℕ → Tx → Type 0
IsAbove n tx = nonce_le (some (n + 1)) tx.nonce ≡ true

-- Sorted by nonce, lowest first.
unfoldable pub IsAscending : List Tx → Type 0
IsAscending [] = Unit
IsAscending (tx ∷ txs) = All (λ later. nonce_le tx.nonce later.nonce ≡ true) txs × IsAscending txs

-- A nonce above the expected one leaves its group's expectation as it is.
turn_stuck :
    (next : String → ℕ) (group key : String) (m : Option ℕ)
    → nonce_le (some (next key + 1)) m ≡ true
    → after_turn (nonce_is (some (next group)) m) (str_eq group key) (next key) ≡ next key
unfolding nonce_le nonce_is
turn_stuck next group key none h = ground arith
turn_stuck next group key (some n) h = ground (arith, eq_iff group key)

-- The expected nonce moves its group on.
turn_moves :
    (next : String → ℕ) (group key : String) (m : Option ℕ)
    → str_eq group key ≡ true
    → m ≡ some (next key)
    → after_turn (nonce_is (some (next group)) m) (str_eq group key) (next key) ≡ next key + 1
unfolding nonce_is
turn_moves next group key none h e = ground arith
turn_moves next group key (some n) h e = ground (arith, eq_iff group key)

nonce_le_trans :
    (a b c : Option ℕ) → nonce_le a b ≡ true → nonce_le b c ≡ true → nonce_le a c ≡ true
unfolding nonce_le
nonce_le_trans none b c h k = refl
nonce_le_trans (some x) none c h k = ground arith
nonce_le_trans (some x) (some y) none h k = ground arith
nonce_le_trans (some x) (some y) (some z) h k = ground arith

nonce_le-some : (a b : ℕ) (m : Option ℕ) → a ≤ b → m ≡ some b → nonce_le (some a) m ≡ true
unfolding nonce_le
nonce_le-some a b none h e = ground arith
nonce_le-some a b (some c) h e = ground arith

All-IsAbove :
    (n : ℕ) (m : Option ℕ) (txs : List Tx)
    → nonce_le (some (n + 1)) m ≡ true
    → All (λ later. nonce_le m later.nonce ≡ true) txs
    → All (λ later. IsAbove n later) txs
unfolding IsAbove
All-IsAbove n m [] h hs = tt
All-IsAbove n m (tx ∷ txs) h (k, ks) =
    (nonce_le_trans (some (n + 1)) m tx.nonce h k, All-IsAbove n m txs h ks)

module _ (key_id : List String → String) (stored : String → Option ℕ) where
  -- What a group may expect never falls.
  after_turn_mono : (kept same : Bool) (n : ℕ) → n ≤ after_turn kept same n
  after_turn_mono kept same n = ground arith

  -- The nonce a group expects at the end is at least the one it expected at the start.
  expected_mono :
      (txs : List Tx) (key : String) (nonces : Dict ℕ)
      → expected key_id stored key nonces
        ≤ expected key_id stored key (select_txs key_id stored txs nonces).1
  unfolding select_txs
  expected_mono [] key nonces = omega arith
  expected_mono (tx ∷ txs) key nonces =
      let step : expected key_id stored key nonces
          ≤ expected key_id stored key (check_nonce key_id stored tx nonces).1 =
        rw ((expected-check_nonce key_id stored tx key nonces).1)
          (after_turn_mono _ _ (expected key_id stored key nonces)) in
      omega (arith, expected_mono txs key (check_nonce key_id stored tx nonces).1)

  -- A group none of whose candidates is as low as the nonce it expects goes on expecting it.
  expected_stuck :
      (txs : List Tx) (key : String) (nonces : Dict ℕ)
      → All (λ tx. IsAbove (expected key_id stored key nonces) tx) txs
      → expected key_id stored key (select_txs key_id stored txs nonces).1
        ≡ expected key_id stored key nonces
  unfolding select_txs IsAbove
  expected_stuck [] key nonces h = refl
  expected_stuck (tx ∷ txs) key nonces (h, hs) =
      let step : expected key_id stored key (check_nonce key_id stored tx nonces).1
          ≡ expected key_id stored key nonces =
        (expected-check_nonce key_id stored tx key nonces).1
        ∙ turn_stuck (λ k. expected key_id stored k nonces) (key_id tx.required_auths) key tx.nonce
            h in
      expected_stuck txs key (check_nonce key_id stored tx nonces).1 (rw step hs) ∙ step

  head_above :
      (tx : Tx) (txs : List Tx) (key : String) (nonces : Dict ℕ)
      → All (λ later. nonce_le tx.nonce later.nonce ≡ true) txs
      → nonce_le (some (expected key_id stored key nonces + 1)) tx.nonce ≡ true
      → expected key_id stored key (select_txs key_id stored (tx ∷ txs) nonces).1
        ≡ expected key_id stored key nonces
  unfolding IsAbove
  head_above tx txs key nonces hs h =
      expected_stuck (tx ∷ txs) key nonces
        (h, All-IsAbove (expected key_id stored key nonces) tx.nonce txs h hs)

  head_moves :
      (tx : Tx) (txs : List Tx) (key : String) (nonces : Dict ℕ)
      → str_eq (key_id tx.required_auths) key ≡ true
      → tx.nonce ≡ some (expected key_id stored key nonces)
      → expected key_id stored key nonces + 1
        ≤ expected key_id stored key (select_txs key_id stored (tx ∷ txs) nonces).1
  unfolding select_txs
  head_moves tx txs key nonces same e =
      let step : expected key_id stored key (check_nonce key_id stored tx nonces).1
          ≡ expected key_id stored key nonces + 1 =
        (expected-check_nonce key_id stored tx key nonces).1
        ∙ turn_moves (λ k. expected key_id stored k nonces) (key_id tx.required_auths) key tx.nonce
            same e in
      omega (arith, expected_mono txs key (check_nonce key_id stored tx nonces).1)

  head_not_next :
      (tx : Tx) (txs : List Tx) (key : String) (nonces : Dict ℕ)
      → All (λ later. nonce_le tx.nonce later.nonce ≡ true) txs
      → str_eq (key_id tx.required_auths) key ≡ true
      → tx.nonce ≢ some (expected key_id stored key (select_txs key_id stored (tx ∷ txs) nonces).1)
  head_not_next tx txs key nonces hs same e =
      let start = expected key_id stored key nonces in
      let final = expected key_id stored key (select_txs key_id stored (tx ∷ txs) nonces).1 in
      let low : start ≤ final = expected_mono (tx ∷ txs) key nonces in
      elim (lt_or_ge start final) [
        | inl lt ↦
            let stay : final ≡ start =
              head_above tx txs key nonces hs
                (nonce_le-some (start + 1) final tx.nonce (omega arith) e) in
            omega arith
        | inr ge ↦
            let same_nonce : final ≡ start = omega arith in
            let move : start + 1 ≤ final =
              head_moves tx txs key nonces same (e ∙ ap some same_nonce) in
            omega arith
      ]

  tail_not_next :
      (tx : Tx) (txs : List Tx) (key : String) (nonces : Dict ℕ)
      → All
          (λ later.
            str_eq (key_id later.required_auths) key ≡ true
            → later.nonce
              ≢ some (
                  expected key_id stored key
                    (select_txs key_id stored txs (check_nonce key_id stored tx nonces).1).1))
          txs
      → All
          (λ later.
            str_eq (key_id later.required_auths) key ≡ true
            → later.nonce
              ≢ some (expected key_id stored key (select_txs key_id stored (tx ∷ txs) nonces).1))
          txs
  unfolding select_txs
  tail_not_next tx txs key nonces h = h

  -- When the candidates come sorted by nonce, as the pool's query returns them, no candidate of
  -- a key group, selected or not, carries the nonce that the group expects after the selection:
  -- the selected run could not have been longer.
  pub select_txs_maximal :
      (txs : List Tx) (key : String) (nonces : Dict ℕ)
      → IsAscending txs
      → All
          (λ tx.
            str_eq (key_id tx.required_auths) key ≡ true
            → tx.nonce ≢ some (expected key_id stored key (select_txs key_id stored txs nonces).1))
          txs
  unfolding IsAscending
  select_txs_maximal [] key nonces h = tt
  select_txs_maximal (tx ∷ txs) key nonces (h, hs) = (
    head_not_next tx txs key nonces h,
    tail_not_next tx txs key nonces (select_txs_maximal txs key _ hs),
  )
