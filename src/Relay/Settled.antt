-- ===== src/Relay/Settled.antt =====
-- What contracts/btc-relay.ts has found when it makes a header final.
use vsc_node.Prelude.{
  ℕ, ◌+◌, ◌≤◌, String, ◌≡◌, sym, ap, subst, ◌∙◌, inl, inr, List, [], ◌∷◌, Option, none, some, leb,
  if◌then◌else◌, ◌>>=◌, Dict, lookup, All, arith, Option-cases,
}
use vsc_node.Relay.Headers.{
  PreHeader, Bundle, RelayState, lookup_height, calc_key, Decoded, add_headers, best_of, top_header,
  walk, commit, finish, process_headers, header_at, done, max_height,
}
use vsc_node.Relay.Links.{IsLinked, IsRanked, add_headers-IsLinked}
use vsc_node.Relay.Walk.{or_top_top}
use vsc_node.Relay.Burial.{at_top, IsBuried, walk-IsBuried}
use vsc_node.Relay.Origin.{commit-AreFrom}

-- The top has the most work of all entries.
pub HasMostWork : String × PreHeader → Dict PreHeader → Type 0
HasMostWork top = All (λ e. e.1.total_diff ≤ top.1.total_diff)

better_of :
    (best e : String × PreHeader)
    → let next = if leb best.1.total_diff e.1.total_diff then e else best in
      (best.1.total_diff ≤ next.1.total_diff) × (e.1.total_diff ≤ next.1.total_diff)
better_of best e = ground arith

best_of-HasMostWork :
    (best : String × PreHeader) (rest : Dict PreHeader)
    → (best.1.total_diff ≤ (best_of best rest).1.total_diff) × HasMostWork (best_of best rest) rest
unfolding HasMostWork best_of
best_of-HasMostWork best [] = (omega arith, tt)
best_of-HasMostWork best (e ∷ rest) =
    let next = if leb best.1.total_diff e.1.total_diff then e else best in
    let (over, all) = best_of-HasMostWork next rest in
    let (below, below') = better_of best e in
    (omega (arith, below, over), (omega (arith, below', over), all))

top_header-HasMostWork :
    (preheaders : Dict PreHeader) (top : String × PreHeader)
    → top_header preheaders ≡ some top
    → HasMostWork top preheaders
unfolding top_header HasMostWork
top_header-HasMostWork [] top h = ground arith
top_header-HasMostWork (e ∷ rest) top h =
    let same : best_of e rest ≡ top = ground arith in
    subst (λ x. HasMostWork x (e ∷ rest)) same (best_of-HasMostWork e rest)

not_final :
    (decimal : ℕ → String) (s : RelayState) (height : ℕ) (raw : String) (bundle : Bundle)
    → header_at decimal s height ≡ none
    → lookup (calc_key decimal height) s.headers ≡ some bundle
    → lookup_height height bundle ≡ some raw
    → ⊥
unfolding header_at
not_final decimal s height raw bundle old stored held =
    let some_there : some raw ≡ none =
      sym held ∙ ap (λ o. o >>= lookup_height height) (sym stored) ∙ old in
    ground arith

-- What a call has found when it makes a header final.
pub record IsSettled (decode : String → Option Decoded) (raws : List String) (s : RelayState)
    (height : ℕ) (raw : String) : Type 0 where
  pub added : Dict PreHeader
  pub top : String × PreHeader
  pub block : PreHeader
  pub is_added : add_headers decode raws s.preheaders ≡ some added
  pub is_top : top_header added ≡ some top
  pub has_most_work : HasMostWork top added
  pub is_buried : IsBuried added top.0 block
  pub at_height : block.height ≡ height
  pub has_raw : block.raw ≡ raw

-- A header that becomes final in a call of processHeaders is in the chain under the entry with the
-- most work, and that chain has three headers or more above it; its height is the one it is stored
-- under. The links of the entries are sound, and fit what is read in the headers.
pub process_headers_settles :
    (height_of : String → ℕ) (decimal : ℕ → String) (decode : String → Option Decoded)
    (raws : List String) (s s' : RelayState) (height : ℕ) (raw : String)
    → IsRanked height_of decode
    → IsLinked height_of s.preheaders
    → process_headers decimal decode raws s ≡ done s'
    → header_at decimal s height ≡ none
    → header_at decimal s' height ≡ some raw
    → IsSettled decode raws s height raw
unfolding process_headers finish
process_headers_settles height_of decimal decode raws s s' height raw ranked links ends old new =
    elim (Option-cases (add_headers decode raws s.preheaders)) [
      | inl broken ↦ ground arith
      | inr (added, read) ↦ elim (Option-cases (top_header added)) [
        | inl empty ↦ ground arith
        | inr (top, is_top) ↦
            elim (Option-cases (walk added top.0 (max_height added + 2) top.0 0)) [
              | inl broken ↦ ground arith
              | inr (blocks, walked) ↦
                  let same : commit decimal blocks added s ≡ s' = ground arith in
                  let linked =
                    add_headers-IsLinked height_of decode raws s.preheaders added ranked links
                      read in
                  let buried =
                    walk-IsBuried height_of added top.0 linked (max_height added + 2) 0 top.0 0
                      blocks (or_top_top height_of top.0) at_top (omega arith) walked in
                  elim (commit-AreFrom (IsBuried added top.0) s.headers decimal blocks added
                    s.preheaders s.txs height raw buried
                    (subst (λ x. header_at decimal x height ≡ some raw) (sym same) new)) [
                      | inl (bundle, stored, held) ↦
                          absurd (not_final decimal s height raw bundle old stored held)
                      | inr (b, deep, at, is_raw) ↦ record {
                        added = added;
                        top = top;
                        block = b;
                        is_added = read;
                        is_top = is_top;
                        has_most_work = top_header-HasMostWork added top is_top;
                        is_buried = deep;
                        at_height = at;
                        has_raw = is_raw;
                      }
                    ]
            ]
      ]
    ]
