-- ===== src/Relay/Origin.antt =====
-- Where the final headers of contracts/btc-relay.ts come from.
use vsc_node.Prelude.{
  ℕ, ◌==◌, String, ◌≡◌, ◌⊎◌, subst, inl, inr, List, [], ◌∷◌, none, some, true, false, str_eq,
  if-holds, Dict, lookup, insert, lookup-insert, All, All-lookup, All-insert, arith, eq_iff,
  Bool-cases, Option-cases, ==_iff,
}
use vsc_node.Token.Deposit.{TxProof}
use vsc_node.Relay.Headers.{
  PreHeader, Bundle, lookup_height, calc_key, bundle_of, put_height, push_block, push_blocks,
  write_bundles, commit, header_at,
}

put_same :
    (b : PreHeader) (bundle : Bundle) (height : ℕ) (raw : String)
    → (b.height == height) ≡ true
    → lookup_height height ((b.height, b.raw) ∷ bundle) ≡ some raw
    → b.raw ≡ raw
unfolding lookup_height
put_same b bundle height raw same found = ground arith

put_other :
    (b : PreHeader) (bundle : Bundle) (height : ℕ) (raw : String)
    → (b.height == height) ≡ false
    → lookup_height height ((b.height, b.raw) ∷ bundle) ≡ some raw
    → lookup_height height bundle ≡ some raw
unfolding lookup_height
put_other b bundle height raw other found = ground arith

module _ (Held : PreHeader → Type 0) (stored : Dict Bundle) where
  -- A header that is not stored comes from a block of which `Held` holds.
  abbrev pub IsFrom : String → ℕ → String → Type 0
  IsFrom key height raw =
      ((old : Bundle) × (lookup key stored ≡ some old) × (lookup_height height old ≡ some raw))
      ⊎ ((b : PreHeader) × Held b × (b.height ≡ height) × (b.raw ≡ raw))

  abbrev pub AreFrom : String → Bundle → Type 0
  AreFrom key bundle =
      (height : ℕ) (raw : String) → lookup_height height bundle ≡ some raw → IsFrom key height raw

  put_height-AreFrom :
      (key : String) (b : PreHeader) (bundle : Bundle)
      → Held b
      → AreFrom key bundle
      → AreFrom key (put_height b.height b.raw bundle)
  unfolding put_height
  put_height-AreFrom key b bundle held from =
      let put : AreFrom key ((b.height, b.raw) ∷ bundle) = λ height raw found.
        elim (Bool-cases (b.height == height)) [
          | inl same ↦
              inr
                (b, held, (==_iff b.height height).0 same, put_same b bundle height raw same found)
          | inr other ↦ from height raw (put_other b bundle height raw other found)
        ] in
      elim (Option-cases (lookup_height b.height bundle)) [
        | inl absent ↦ rw (absent, put_height) put
        | inr (old, found) ↦
            rw (found, put_height) (if-holds {Res = Bundle} (AreFrom key) (str_eq old "") put from)
      ]

  bundle_of-AreFrom :
      (memory : Dict Bundle) (key : String)
      → All (λ e. AreFrom e.0 e.1) memory
      → AreFrom key (bundle_of stored memory key)
  unfolding bundle_of lookup_height
  bundle_of-AreFrom memory key from height raw found = elim (Option-cases (lookup key memory)) [
    | inr (m, cached) ↦
        All-lookup AreFrom memory key m from cached height raw (rw (cached, bundle_of) at found)
    | inl absent ↦ elim (Option-cases (lookup key stored)) [
      | inl missing ↦
          let none_there : none ≡ some raw = rw (absent, bundle_of, missing) at found in
          ground arith
      | inr (old, there) ↦ inl (old, there, rw (absent, bundle_of, there) at found)
    ]
  ]

  push_blocks-AreFrom :
      (decimal : ℕ → String) (blocks : List PreHeader) (memory : Dict Bundle)
      → All Held blocks
      → All (λ e. AreFrom e.0 e.1) memory
      → All (λ e. AreFrom e.0 e.1) (push_blocks decimal stored blocks memory)
  unfolding push_blocks push_block
  push_blocks-AreFrom decimal [] memory held from = from
  push_blocks-AreFrom decimal (b ∷ blocks) memory (held, all_held) from =
      let key = calc_key decimal b.height in
      let bundle = put_height b.height b.raw (bundle_of stored memory key) in
      push_blocks-AreFrom decimal blocks (insert key bundle memory) all_held (
        All-insert AreFrom memory key bundle
          (put_height-AreFrom key b (bundle_of stored memory key) held
            (bundle_of-AreFrom memory key from))
          from)

  write_bundles-AreFrom :
      (memory db : Dict Bundle) (key : String) (new : Bundle)
      → All (λ e. AreFrom e.0 e.1) memory
      → ((b : Bundle) → lookup key db ≡ some b → AreFrom key b)
      → lookup key (write_bundles memory db) ≡ some new
      → AreFrom key new
  unfolding write_bundles
  write_bundles-AreFrom [] db key new from base found = base new found
  write_bundles-AreFrom ((k, m) ∷ memory) db key new (here, later) base found =
      write_bundles-AreFrom memory (insert k m db) key new later
        (λ b there. elim (Bool-cases (str_eq k key)) [
          | inl same ↦
              let is_b : some m ≡ some b = rw (lookup-insert k key m db, same) at there in
              let equal : m ≡ b = ground arith in
              subst (AreFrom key) equal (subst (λ x. AreFrom x m) ((eq_iff k key).0 same) here)
          | inr other ↦ base b (rw (lookup-insert k key m db, other) at there)
        ])
        found

  -- A header that is final after a call was so before, or comes from a block that is held.
  pub commit-AreFrom :
      (decimal : ℕ → String) (blocks : List PreHeader) (added preheaders : Dict PreHeader)
      (txs : Dict TxProof) (height : ℕ) (raw : String)
      → All Held blocks
      → header_at decimal
          (commit decimal blocks added
            (record { preheaders = preheaders; headers = stored; txs = txs }))
          height
        ≡ some raw
      → IsFrom (calc_key decimal height) height raw
  unfolding commit header_at
  commit-AreFrom decimal blocks added preheaders txs height raw held h =
      let key = calc_key decimal height in
      let memory = push_blocks decimal stored blocks [] in
      elim (Option-cases (lookup key (write_bundles memory stored))) [
        | inl absent ↦ let none_there : none ≡ some raw = rw absent at h in ground arith
        | inr (new, found) ↦
            write_bundles-AreFrom memory stored key new
              (push_blocks-AreFrom decimal blocks [] held tt)
              (λ b there height raw here. inl (b, there, here)) found height raw (rw found at h)
      ]
