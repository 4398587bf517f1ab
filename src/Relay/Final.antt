-- ===== src/Relay/Final.antt =====
-- The final headers of contracts/btc-relay.ts.
use vsc_node.Prelude.{
  ℕ, ◌+◌, String, ◌≡◌, ◌≢◌, refl, sym, subst, inl, inr, List, [], ◌∷◌, Option, some, str_eq, Dict,
  lookup, insert, lookup-insert, All, All-lookup, All-insert, arith, eq_iff, Bool-cases,
  Option-cases,
}
use vsc_node.Relay.Headers.{
  PreHeader, Bundle, RelayState, lookup_height, calc_key, Decoded, add_headers, top_header, walk,
  bundle_of, put_height, push_block, push_blocks, write_bundles, commit, finish, process_headers,
  header_at, done, max_height,
}

-- Every header of the first bundle is in the second.
abbrev Extends : Bundle → Bundle → Type 0
Extends old new =
    (height : ℕ) (raw : String)
    → raw ≢ ""
    → lookup_height height old ≡ some raw
    → lookup_height height new ≡ some raw

put_height-Extends :
    (height : ℕ) (raw : String) (bundle : Bundle) → Extends bundle (put_height height raw bundle)
unfolding put_height lookup_height
put_height-Extends height raw bundle h r full found = ground (arith, eq_iff r "")

-- A bundle extends the one that is stored under a key, if one is.
abbrev IsNewer : Dict Bundle → String → Bundle → Type 0
IsNewer stored key bundle = (old : Bundle) → lookup key stored ≡ some old → Extends old bundle

abbrev AreNewer : Dict Bundle → Dict Bundle → Type 0
AreNewer stored = All (λ e. IsNewer stored e.0 e.1)

Extends-put :
    (height : ℕ) (raw : String) (old bundle : Bundle)
    → Extends old bundle
    → Extends old (put_height height raw bundle)
Extends-put height raw old bundle newer h r full found =
    put_height-Extends height raw bundle h r full (newer h r full found)

bundle_of-IsNewer :
    (stored memory : Dict Bundle) (key : String)
    → AreNewer stored memory
    → IsNewer stored key (bundle_of stored memory key)
unfolding bundle_of
bundle_of-IsNewer stored memory key newer old h = elim (Option-cases (lookup key memory)) [
  | inl absent ↦ rw (absent, bundle_of, h) (λ height raw full found. found)
  | inr (m, found) ↦
      rw (found, bundle_of) (All-lookup (IsNewer stored) memory key m newer found old h)
]

push_blocks-AreNewer :
    (decimal : ℕ → String) (stored : Dict Bundle) (blocks : List PreHeader) (memory : Dict Bundle)
    → AreNewer stored memory
    → AreNewer stored (push_blocks decimal stored blocks memory)
unfolding push_blocks push_block
push_blocks-AreNewer decimal stored [] memory newer = newer
push_blocks-AreNewer decimal stored (b ∷ blocks) memory newer =
    let key = calc_key decimal b.height in
    push_blocks-AreNewer decimal stored blocks
      (insert key (put_height b.height b.raw (bundle_of stored memory key)) memory)
      (All-insert (IsNewer stored) memory key
        (put_height b.height b.raw (bundle_of stored memory key))
        (λ old h.
          Extends-put b.height b.raw old (bundle_of stored memory key)
            (bundle_of-IsNewer stored memory key newer old h))
        newer)

-- The key holds a bundle that extends the old one.
abbrev Holds : Bundle → String → Dict Bundle → Type 0
Holds old key db = (new : Bundle) × (lookup key db ≡ some new) × Extends old new

write_bundles-Holds :
    (stored memory db : Dict Bundle) (key : String) (old : Bundle)
    → lookup key stored ≡ some old
    → AreNewer stored memory
    → Holds old key db
    → Holds old key (write_bundles memory db)
unfolding write_bundles
write_bundles-Holds stored [] db key old h newer holds = holds
write_bundles-Holds stored ((k, m) ∷ memory) db key old h (here, later) (new, found, extends) =
    write_bundles-Holds stored memory (insert k m db) key old h later
      (elim (Bool-cases (str_eq k key)) [
        | inl same ↦ (
          m,
          rw (lookup-insert k key m db, same) refl,
          here old (rw (sym ((eq_iff k key).0 same)) at h),
        )
        | inr other ↦ (new, rw (lookup-insert k key m db, other) found, extends)
      ])

header_at-some :
    (decimal : ℕ → String) (s : RelayState) (height : ℕ) (raw : String)
    → header_at decimal s height ≡ some raw
    → (old : Bundle) × (lookup (calc_key decimal height) s.headers ≡ some old)
      × (lookup_height height old ≡ some raw)
unfolding header_at
header_at-some decimal s height raw h =
    elim (Option-cases (lookup (calc_key decimal height) s.headers)) [
      | inl absent ↦ ground arith
      | inr (old, found) ↦ (old, found, ground arith)
    ]

commit-header_at :
    (decimal : ℕ → String) (blocks : List PreHeader) (added : Dict PreHeader) (s : RelayState)
    (height : ℕ) (raw : String)
    → raw ≢ ""
    → header_at decimal s height ≡ some raw
    → header_at decimal (commit decimal blocks added s) height ≡ some raw
unfolding commit header_at
commit-header_at decimal blocks added s height raw full h =
    let (old, found, held) = header_at-some decimal s height raw h in
    let memory = push_blocks decimal s.headers blocks [] in
    let (new, found', extends) =
      write_bundles-Holds s.headers memory s.headers (calc_key decimal height) old found
        (push_blocks-AreNewer decimal s.headers blocks [] tt) (old, found, λ h r full here. here) in
    rw found' (extends height raw full held)

finish-header_at :
    (decimal : ℕ → String) (added : Dict PreHeader) (s s' : RelayState) (height : ℕ) (raw : String)
    → finish decimal added s ≡ done s'
    → raw ≢ ""
    → header_at decimal s height ≡ some raw
    → header_at decimal s' height ≡ some raw
unfolding finish
finish-header_at decimal added s s' height raw ends full h =
    elim (Option-cases (top_header added)) [
      | inl empty ↦ ground arith
      | inr (top, is_top) ↦ elim (Option-cases (walk added top.0 (max_height added + 2) top.0 0)) [
        | inl broken ↦ ground arith
        | inr (blocks, walked) ↦
            let same : commit decimal blocks added s ≡ s' = ground arith in
            subst (λ x. header_at decimal x height ≡ some raw) same
              (commit-header_at decimal blocks added s height raw full h)
      ]
    ]

-- A final header, which is not the empty text, stays final: no call of processHeaders changes or
-- removes the header at its height.
pub process_headers_keeps :
    (decimal : ℕ → String) (decode : String → Option Decoded) (raws : List String)
    (s s' : RelayState) (height : ℕ) (raw : String)
    → process_headers decimal decode raws s ≡ done s'
    → raw ≢ ""
    → header_at decimal s height ≡ some raw
    → header_at decimal s' height ≡ some raw
unfolding process_headers
process_headers_keeps decimal decode raws s s' height raw ends full h =
    elim (Option-cases (add_headers decode raws s.preheaders)) [
      | inl broken ↦ ground arith
      | inr (added, read) ↦ finish-header_at decimal added s s' height raw (ground arith) full h
    ]
