-- ===== src/Relay/Minting.antt =====
-- contracts/btc-token.ts over the headers of contracts/btc-relay.ts: the relay goes on, and what a
-- proof under a final header does to the token does not change.
use vsc_node.Prelude.{
  ℕ, String, ◌≡◌, ◌≢◌, refl, ap, sym, inl, inr, List, Option, some, Bool, Bool-cases, Option-cases,
  insert, arith,
}
use vsc_node.Relay.Headers.{
  Decoded, RelayState, done, process_headers, header_at, validate_tx_proof,
}
use vsc_node.Relay.Final.{process_headers_keeps}
use vsc_node.Token.Store.{LedgerOutput, TokenState, ApiInput}
use vsc_node.Token.Deposit.{TxProof, validate, is_valid, mint, redeem_proof}

module _ (decimal : ℕ → String) (decode : String → Option Decoded)
    (check : String → TxProof → Option Bool) where
  -- The states that the calls of the relay lead to; a call that throws changes nothing.
  pub data Later (s : RelayState) : RelayState → Type 0 where
    here : Later s s
    headers :
        {t u : RelayState} (raws : List String)
        → Later s t
        → process_headers decimal decode raws t ≡ done u
        → Later s u
    proof :
        {t u : RelayState} (p : TxProof)
        → Later s t
        → validate_tx_proof decimal check p t ≡ some u
        → Later s u

  validate_tx_proof-headers :
      (p : TxProof) (t u : RelayState)
      → validate_tx_proof decimal check p t ≡ some u
      → t.headers ≡ u.headers
  unfolding validate_tx_proof
  validate_tx_proof-headers p t u e =
      elim (Option-cases (header_at decimal t p.confirming_height)) [
        | inl absent ↦ absurd (ground arith)
        | inr (header, found) ↦ elim (Option-cases (check header p)) [
          | inl broken ↦ absurd (ground arith)
          | inr (valid, checked) ↦ elim (Bool-cases valid) [
            | inl good ↦
                let same : record t { txs = insert p.tx_id p t.txs } ≡ u = ground arith in
                ap (λ x. x.headers) same
            | inr bad ↦ let same : t ≡ u = ground arith in ap (λ x. x.headers) same
          ]
        ]
      ]

  Later-header_at :
      {s t : RelayState} (height : ℕ) (raw : String)
      → raw ≢ ""
      → header_at decimal s height ≡ some raw
      → Later s t
      → header_at decimal t height ≡ some raw
  unfolding header_at
  Later-header_at height raw full found here = found
  Later-header_at height raw full found (headers {t} {u} raws before step) =
      process_headers_keeps decimal decode raws t u height raw step full
        (Later-header_at height raw full found before)
  Later-header_at height raw full found (proof {t} {u} p before step) =
      let kept : header_at decimal t height ≡ some raw =
        Later-header_at height raw full found before in
      rw (sym (validate_tx_proof-headers p t u step)) kept

  validate_later :
      {s t : RelayState} (p : TxProof) (raw : String)
      → raw ≢ ""
      → header_at decimal s p.confirming_height ≡ some raw
      → Later s t
      → validate check (header_at decimal t) p ≡ validate check (header_at decimal s) p
  unfolding validate
  validate_later p raw full found after =
      rw (Later-header_at p.confirming_height raw full found after, found) refl

  -- Once the header of a proof is final and not the empty text, the proof does the same to the
  -- token, whatever other headers and proofs the relay takes in first: mint issues the same outputs,
  -- and redeemProof completes the same redeems or throws as well.
  pub mint_after_Later :
      {s t : RelayState} (deposit_hash hash_address encode : String → String)
      (redeem_hash : String → Option String) (api : ApiInput) (id_of : LedgerOutput → String)
      (dest_addr : Option String) (p : TxProof) (raw : String) (token : TokenState)
      → raw ≢ ""
      → header_at decimal s p.confirming_height ≡ some raw
      → Later s t
      → (mint check
            (header_at decimal t)
            deposit_hash
            hash_address
            encode
            api
            id_of
            dest_addr
            p
            token
          ≡ mint check
              (header_at decimal s)
              deposit_hash
              hash_address
              encode
              api
              id_of
              dest_addr
              p
              token)
        × (redeem_proof encode redeem_hash check (header_at decimal t) p token
            ≡ redeem_proof encode redeem_hash check (header_at decimal s) p token)
  unfolding redeem_proof is_valid mint
  mint_after_Later {s} {t} deposit_hash hash_address encode redeem_hash api id_of dest_addr p raw
        token full found after =
      let same = validate_later p raw full found after in
      let valid : is_valid check (header_at decimal t) p ≡ is_valid check (header_at decimal s) p =
        rw (same, is_valid) refl in
      (rw (valid, mint) refl, rw (same, redeem_proof) refl)
