-- ===== src/Relay/Walk.antt =====
-- The walk of processHeaders in contracts/btc-relay.ts ends.
use vsc_node.Prelude.{
  ℕ, zero, suc, ◌+◌, ◌≤◌, String, ◌≡◌, ◌≢◌, ◌⊎◌, refl, subst, inl, inr, List, [], ◌∷◌, Option, none,
  some, ltb, leb, max, if◌then◌else◌, Dict, lookup, All-lookup, arith, eq_iff, Bool-cases,
  Option-cases, if-holds,
}
use vsc_node.Relay.Headers.{
  no_block, Decoded, PreHeader, RelayState, add_headers, best_of, top_header, or_top, walk,
  max_height, done, commit, finish, process_headers, validity_depth, highest_of,
}
use vsc_node.Relay.Links.{IsLink, IsLinked, IsRanked, add_headers-IsLinked, above-IsLinked}

top_header-none : (preheaders : Dict PreHeader) → top_header preheaders ≡ none → preheaders ≡ []
unfolding top_header
top_header-none [] h = refl
top_header-none (e ∷ rest) h = ground arith

module _ (height_of : String → ℕ) where
  no_block_absent :
      (preheaders : Dict PreHeader)
      → IsLinked height_of preheaders
      → lookup no_block preheaders ≡ none
  no_block_absent preheaders links = elim (Option-cases (lookup no_block preheaders)) [
    | inl absent ↦ absent
    | inr (h, found) ↦
        absurd ((All-lookup (IsLink height_of) preheaders no_block h links found).is_block refl)
  ]

  pub or_top-full : (top prev : String) → prev ≢ "" → or_top top prev ≡ prev
  unfolding or_top
  or_top-full top prev full = ground (arith, eq_iff prev "")

  -- How much fuel the walk needs from a block, or from the mark of no block.
  abbrev Suffices : ℕ → String → Type 0
  Suffices fuel prev = ((prev ≡ no_block) × (1 ≤ fuel)) ⊎ (height_of prev + 2 ≤ fuel)

  parent-Suffices :
      (preheaders : Dict PreHeader) (fuel : ℕ) (prev : String) (h : PreHeader)
      → IsLinked height_of preheaders
      → lookup prev preheaders ≡ some h
      → Suffices (suc fuel) prev
      → Suffices fuel h.prev_block
  parent-Suffices preheaders fuel prev h links found (inl (e, enough)) =
      absurd ((All-lookup (IsLink height_of) preheaders prev h links found).is_block e)
  parent-Suffices preheaders fuel prev h links found (inr enough) =
      elim ((All-lookup (IsLink height_of) preheaders prev h links found).descends) [
        | inl first ↦ inl (first, omega arith)
        | inr next ↦ inr (omega arith)
      ]

  walk_ends :
      (preheaders : Dict PreHeader) (top : String) (fuel : ℕ) (prev : String) (depth : ℕ)
      → IsLinked height_of preheaders
      → or_top top prev ≡ prev
      → Suffices fuel prev
      → (blocks : List PreHeader) × (walk preheaders top fuel prev depth ≡ some blocks)
  unfolding walk
  walk_ends preheaders top zero prev depth links here enough = elim enough [
    | inl (e, h) ↦ elim h [ ]
    | inr h ↦ absurd (omega arith)
  ]
  walk_ends preheaders top (suc fuel) prev depth links here enough =
      elim (Option-cases (lookup prev preheaders)) [
        | inl absent ↦ ([], rw (here, walk, absent) refl)
        | inr (h, found) ↦
            let up = parent-Suffices preheaders fuel prev h links found enough in
            let parent =
              or_top-full top h.prev_block
                (All-lookup (IsLink height_of) preheaders prev h links found).has_parent in
            let (blocks, walked) =
              walk_ends preheaders top fuel h.prev_block depth links parent up in
            let (others, walked') =
              walk_ends preheaders top fuel h.prev_block (depth + 1) links parent up in
            elim (Bool-cases (ltb validity_depth depth)) [
              | inl deep ↦ (h ∷ blocks, rw (here, walk, found, deep, walked) refl)
              | inr shallow ↦ (others, rw (here, walk, found, shallow, walked') refl)
            ]
      ]

  pub or_top_top : (top : String) → or_top top top ≡ top
  unfolding or_top
  or_top_top top = ground arith

  best_of-IsLink :
      (bound : ℕ) (best : String × PreHeader) (rest : Dict PreHeader)
      → IsLink height_of best.0 best.1 × (best.1.height ≤ bound)
      → IsLinked height_of rest
      → max_height rest ≤ bound
      → let top = best_of best rest in IsLink height_of top.0 top.1 × (top.1.height ≤ bound)
  unfolding best_of max_height
  best_of-IsLink bound best [] here links h = here
  best_of-IsLink bound best (e ∷ rest) here (link, links) h =
      best_of-IsLink bound (if leb best.1.total_diff e.1.total_diff then e else best) rest
        (if-holds {Res = String × PreHeader} (λ x. IsLink height_of x.0 x.1 × (x.1.height ≤ bound))
          (leb best.1.total_diff e.1.total_diff) (link, omega arith) here)
        links (omega arith)

  top_header-IsLink :
      (preheaders : Dict PreHeader) (top : String × PreHeader)
      → IsLinked height_of preheaders
      → top_header preheaders ≡ some top
      → IsLink height_of top.0 top.1 × (top.1.height ≤ max_height preheaders)
  unfolding top_header max_height
  top_header-IsLink [] top links h = ground arith
  top_header-IsLink (e ∷ rest) top (link, links) h =
      let same : best_of e rest ≡ top = ground arith in
      subst (λ x. IsLink height_of x.0 x.1 × (x.1.height ≤ max e.1.height (max_height rest))) same
        (best_of-IsLink (max e.1.height (max_height rest)) e rest (link, omega arith) links
          (omega arith))

  finish_ends :
      (decimal : ℕ → String) (added : Dict PreHeader) (s : RelayState)
      → IsLinked height_of added
      → added ≢ []
      → (s' : RelayState) × (finish decimal added s ≡ done s') × IsLinked height_of s'.preheaders
  unfolding finish commit
  finish_ends decimal added s links some_left = elim (Option-cases (top_header added)) [
    | inl empty ↦ absurd (some_left (top_header-none added empty))
    | inr (top, is_top) ↦
        let (link, low) = top_header-IsLink added top links is_top in
        let (blocks, walked) =
          walk_ends added top.0 (max_height added + 2) top.0 0 links (or_top_top top.0)
            (inr (omega (arith, link.at_height, low))) in
        (
          commit decimal blocks added s,
          rw (is_top, finish, walked) refl,
          above-IsLinked height_of (highest_of blocks) added links,
        )
  ]

  -- Suppose that heights fit the links between all the headers that can be read: no hash of a header
  -- is its ancestor's or stands for two headers, none is the mark of no block, no parent's hash is
  -- empty, and the stored headers have these heights. Then a call of processHeaders that can read
  -- each header and has one to build on ends with a new state, which has these heights again: its
  -- walk does not run out of fuel.
  pub process_headers_ends :
      (decimal : ℕ → String) (decode : String → Option Decoded) (raws : List String)
      (s : RelayState) (added : Dict PreHeader)
      → IsRanked height_of decode
      → IsLinked height_of s.preheaders
      → add_headers decode raws s.preheaders ≡ some added
      → added ≢ []
      → (s' : RelayState) × (process_headers decimal decode raws s ≡ done s')
        × IsLinked height_of s'.preheaders
  unfolding process_headers
  process_headers_ends decimal decode raws s added ranked links read some_left =
      let (s', ends, links') =
        finish_ends decimal added s
          (add_headers-IsLinked height_of decode raws s.preheaders added ranked links read)
          some_left in
      (s', rw (read, process_headers) ends, links')
