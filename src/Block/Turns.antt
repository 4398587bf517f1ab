-- ===== src/Block/Turns.antt =====
-- One turn of the loop over the candidates in createBlock: what it leaves expected of each group.
use vsc_node.Prelude.{
  ℕ, ◌+◌, String, ◌≡◌, refl, List, Option, none, some, Bool, true, false, ◌==◌, Dict, lookup,
  insert, if◌then◌else◌, str_eq, filter, arith, eq_iff, lookup-insert,
}
use vsc_node.Ledger.Context.{Tx}
use vsc_node.Block.Nonces.{has_nonce, nonce_is, next_nonce, stored_nonce, fetch_nonce, check_nonce}

-- The nonce that a turn leaves expected of a group, by the turn's outcome.
abbrev pub after_turn : Bool → Bool → ℕ → ℕ
after_turn true true n = n + 1
after_turn true false n = n
after_turn false same n = n

module _ (key_id : List String → String) where
  -- The transactions of one key group.
  unfoldable pub of_key : String → List Tx → List Tx
  of_key key = filter (λ tx. str_eq (key_id tx.required_auths) key)

module _ (key_id : List String → String) (stored : String → Option ℕ) where
  -- The nonce that the loop expects next of a key group.
  unfoldable pub expected : String → Dict ℕ → ℕ
  expected key nonces = elim (lookup key nonces) [
    | none ↦ stored_nonce key_id stored key
    | some n ↦ if n == 0 then stored_nonce key_id stored key else n
  ]

  lookup-fetch_nonce :
      (key : String) (nonces : Dict ℕ)
      → lookup key (fetch_nonce key_id stored key nonces) ≡ some (expected key nonces)
  unfolding fetch_nonce has_nonce expected
  lookup-fetch_nonce key nonces =
      ground (arith, lookup-insert key key (stored_nonce key_id stored key) nonces, eq_iff key key)

  expected-fetch_nonce :
      (key other : String) (nonces : Dict ℕ)
      → expected other (fetch_nonce key_id stored key nonces) ≡ expected other nonces
  unfolding fetch_nonce has_nonce expected
  expected-fetch_nonce key other nonces =
      ground
        (arith, lookup-insert key other (stored_nonce key_id stored key) nonces, eq_iff key other)

  expected-insert :
      (key other : String) (n : ℕ) (nonces : Dict ℕ)
      → expected other (insert key (n + 1) nonces)
        ≡ (if str_eq key other then n + 1 else expected other nonces)
  unfolding expected
  expected-insert key other n nonces =
      ground (arith, lookup-insert key other (n + 1) nonces, eq_iff key other)

  expected_turn :
      (kept : Bool) (key other : String) (nonces : Dict ℕ)
      → let fetched = fetch_nonce key_id stored key nonces in
        let turn : Bool × Dict ℕ =
          if kept then (true, insert key (expected key nonces + 1) fetched) else (false, fetched) in
        (turn.0 ≡ kept)
        × (expected other turn.1 ≡ after_turn kept (str_eq key other) (expected other nonces))
  expected_turn true key other nonces = (
    refl,
    ground (
      arith,
      expected-insert key other (expected key nonces) (fetch_nonce key_id stored key nonces),
      expected-fetch_nonce key other nonces,
      eq_iff key other,
    ),
  )
  expected_turn false key other nonces = (refl, expected-fetch_nonce key other nonces)

  pub expected-check_nonce :
      (tx : Tx) (key : String) (nonces : Dict ℕ)
      → let group = key_id tx.required_auths in
        let kept = nonce_is (some (expected group nonces)) tx.nonce in
        let turn = check_nonce key_id stored tx nonces in
        (turn.0 ≡ kept)
        × (expected key turn.1 ≡ after_turn kept (str_eq group key) (expected key nonces))
  unfolding check_nonce next_nonce
  expected-check_nonce tx key nonces =
      rw (lookup-fetch_nonce (key_id tx.required_auths) nonces)
        (expected_turn _ (key_id tx.required_auths) key nonces)
