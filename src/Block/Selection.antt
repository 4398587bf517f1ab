-- ===== src/Block/Selection.antt =====
-- What createBlock selects: for each key group a run of consecutive nonces.
use vsc_node.Prelude.{
  ℕ, String, ◌≡◌, refl, sym, ap, subst, List, [], ◌∷◌, map, Option, none, some, Bool, true, false,
  Dict, if◌then◌else◌, str_eq, length, range, arith, eq_iff,
}
use vsc_node.Ledger.Context.{Tx}
use vsc_node.Block.Nonces.{nonce_is, check_nonce, select_txs}
use vsc_node.Block.Turns.{after_turn, expected, of_key, expected-check_nonce}

-- The transactions carry consecutive nonces from `start` on.
unfoldable pub IsRun : ℕ → List Tx → Type 0
IsRun start txs = map (λ tx. tx.nonce) txs ≡ map some (range start (length txs))

extend-IsRun :
    (same : Bool) (tx : Tx) (keyed : List Tx) (start next : ℕ)
    → (same ≡ true → tx.nonce ≡ some start)
    → next ≡ after_turn true same start
    → IsRun next keyed
    → IsRun start (if same then tx ∷ keyed else keyed)
unfolding IsRun
extend-IsRun true tx keyed start next hk hn ih =
    rw (hk refl) (ap (λ l. some start ∷ l) (rw (← hn) ih))
extend-IsRun false tx keyed start next hk hn ih = rw (← hn) ih

nonce_is-eq : (n : ℕ) (m : Option ℕ) → nonce_is (some n) m ≡ true → m ≡ some n
unfolding nonce_is
nonce_is-eq n none h = ground arith
nonce_is-eq n (some m) h = ground arith

module _ (key_id : List String → String) (stored : String → Option ℕ) where
  extend_selection :
      (kept : Bool) (tx : Tx) (rest : List Tx) (key : String) (nonces : Dict ℕ) (next : ℕ)
      → kept ≡ nonce_is (some (expected key_id stored (key_id tx.required_auths) nonces)) tx.nonce
      → next
        ≡ after_turn kept
            (str_eq (key_id tx.required_auths) key)
            (expected key_id stored key nonces)
      → IsRun next (of_key key_id key rest)
      → IsRun
          (expected key_id stored key nonces)
          (of_key key_id key (if kept then tx ∷ rest else rest))
  unfolding of_key
  extend_selection true tx rest key nonces next hk hn ih =
      extend-IsRun _ tx (of_key key_id key rest) (expected key_id stored key nonces) next
        (λ same.
          (subst (λ k. tx.nonce ≡ some (expected key_id stored k nonces))
            ((eq_iff (key_id tx.required_auths) key).0 same) (nonce_is-eq _ tx.nonce (sym hk))))
        hn ih
  extend_selection false tx rest key nonces next hk hn ih = rw (← hn) ih

  -- Whatever order the candidates come in, the selected transactions of a key group carry
  -- consecutive nonces, from the group's stored nonce (0 if none is stored) when the map of
  -- nonces starts empty: no nonce is skipped or selected twice.
  pub select_txs-IsRun :
      (txs : List Tx) (key : String) (nonces : Dict ℕ)
      → IsRun
          (expected key_id stored key nonces)
          (of_key key_id key (select_txs key_id stored txs nonces).0)
  unfolding select_txs IsRun of_key
  select_txs-IsRun [] key nonces = refl
  select_txs-IsRun (tx ∷ txs) key nonces =
      extend_selection _ tx _ key nonces _ (expected-check_nonce key_id stored tx key nonces).0
        (rw ((expected-check_nonce key_id stored tx key nonces).0)
          ((expected-check_nonce key_id stored tx key nonces).1))
        (select_txs-IsRun txs key (check_nonce key_id stored tx nonces).1)
