-- ===== src/Block/Nonces.antt =====
-- createBlock of services/new/witness/index.ts: the transactions of the pool whose nonce is the
-- next of their key group, in the order the pool's query returns them.
use vsc_node.Prelude.{
  ℕ, ◌+◌, String, List, [], ◌∷◌, Option, none, some, Bool, true, false, ◌==◌, Dict, lookup, insert,
  if◌then◌else◌,
}
use vsc_node.Ledger.Context.{Tx}

-- `nonceMap[keyId]`, as a test reads it: a missing or zero nonce is falsy.
unfoldable pub has_nonce : String → Dict ℕ → Bool
has_nonce key nonces = elim (lookup key nonces) [
  | none ↦ false
  | some n ↦ if n == 0 then false else true
]

-- `nonceMap[keyId] === tx.headers.nonce`
unfoldable pub nonce_is : Option ℕ → Option ℕ → Bool
nonce_is (some n) (some m) = n == m
nonce_is (some n) none = false
nonce_is none m = false

-- `nonceMap[keyId] + 1`
unfoldable pub next_nonce : Option ℕ → ℕ
next_nonce none = 1
next_nonce (some n) = n + 1

-- `key_id` is `computeKeyId`, a hash; `stored` looks a key group up in the collection `nonceMap`.
module _ (key_id : List String → String) (stored : String → Option ℕ) where
  unfoldable pub stored_nonce : String → ℕ
  stored_nonce key = elim (stored key) [ none ↦ 0 | some n ↦ n ]

  unfoldable pub fetch_nonce : String → Dict ℕ → Dict ℕ
  fetch_nonce key nonces =
      if has_nonce key nonces then nonces else insert key (stored_nonce key) nonces

  -- One turn of the loop: whether the transaction is kept, and the nonces after it.
  unfoldable pub check_nonce : Tx → Dict ℕ → Bool × Dict ℕ
  check_nonce tx nonces =
      let key = key_id tx.required_auths in
      let fetched = fetch_nonce key nonces in
      let n = lookup key fetched in
      if nonce_is n tx.nonce then (true, insert key (next_nonce n) fetched) else (false, fetched)

  unfoldable pub select_txs : List Tx → Dict ℕ → List Tx × Dict ℕ
  select_txs [] nonces = ([], nonces)
  select_txs (tx ∷ txs) nonces =
      let (kept, nonces₁) = check_nonce tx nonces in
      let (rest, nonces₂) = select_txs txs nonces₁ in ((if kept then tx ∷ rest else rest), nonces₂)
