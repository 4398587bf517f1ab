-- ===== src/Relay/Links.antt =====
-- The links between the entries of contracts/btc-relay.ts, which its actions keep sound.
use vsc_node.Prelude.{
  ℕ, ◌+◌, String, ◌≡◌, ◌≢◌, ◌⊎◌, sym, subst, inl, inr, List, [], ◌∷◌, Option, some, ltb, str_eq,
  Dict, lookup, All, All-lookup, All-insert, arith, eq_iff, Bool-cases, Option-cases,
}
use vsc_node.Relay.Headers.{
  no_block, Decoded, PreHeader, parent_of, pre_header, add_decoded, add_headers, above,
}

module _ (height_of : String → ℕ) where
  -- The height of an entry is that of its key, and its parent is no block or one lower.
  pub record IsLink (key : String) (h : PreHeader) : Type 0 where
    pub at_height : h.height ≡ height_of key
    pub is_block : key ≢ no_block
    pub has_parent : h.prev_block ≢ ""
    pub descends : (h.prev_block ≡ no_block) ⊎ (height_of key ≡ height_of h.prev_block + 1)

  abbrev pub IsLinked : Dict PreHeader → Type 0
  IsLinked = All (λ e. IsLink e.0 e.1)

  -- The heights fit the links between the headers, as they do when the hashes of headers have no
  -- collision, and no header hashes to the mark of no block.
  pub record IsRanked (decode : String → Option Decoded) : Type 0 where
    pub genesis :
        (raw : String) (d : Decoded)
        → decode raw ≡ some d
        → d.prev_block ≡ no_block
        → height_of d.hash ≡ 0
    pub child :
        (raw : String) (d : Decoded)
        → decode raw ≡ some d
        → d.prev_block ≢ no_block
        → height_of d.hash ≡ height_of d.prev_block + 1
    pub hashed : (raw : String) (d : Decoded) → decode raw ≡ some d → d.hash ≢ no_block
    pub linked : (raw : String) (d : Decoded) → decode raw ≡ some d → d.prev_block ≢ ""

  add_decoded-IsLinked :
      (decode : String → Option Decoded) (raw : String) (d : Decoded) (preheaders : Dict PreHeader)
      → IsRanked decode
      → decode raw ≡ some d
      → IsLinked preheaders
      → IsLinked (add_decoded raw d preheaders)
  unfolding add_decoded parent_of pre_header
  add_decoded-IsLinked decode raw d preheaders ranked read links =
      elim (Bool-cases (str_eq d.prev_block no_block)) [
        | inl first ↦
            let none_before = (eq_iff d.prev_block no_block).0 first in
            let zero_height = ranked.genesis raw d read none_before in
            rw (first, add_decoded, parent_of)
              (All-insert IsLink preheaders d.hash (pre_header raw d (0, 0))
                (record {
                  at_height = sym zero_height;
                  is_block = ranked.hashed raw d read;
                  has_parent = ranked.linked raw d read;
                  descends = inl none_before;
                })
                links)
        | inr later ↦ elim (Option-cases (lookup d.prev_block preheaders)) [
          | inl absent ↦ rw (later, add_decoded, parent_of, absent) links
          | inr (parent, found) ↦
              let up = All-lookup IsLink preheaders d.prev_block parent links found in
              let next =
                ranked.child raw d read (λ e. ground (arith, eq_iff d.prev_block no_block)) in
              rw (later, add_decoded, parent_of, found)
                (All-insert IsLink preheaders d.hash
                  (pre_header raw d (parent.total_diff, parent.height + 1))
                  (record {
                    at_height = omega (arith, up.at_height, next);
                    is_block = ranked.hashed raw d read;
                    has_parent = ranked.linked raw d read;
                    descends = inr next;
                  })
                  links)
        ]
      ]

  pub add_headers-IsLinked :
      (decode : String → Option Decoded) (raws : List String) (preheaders added : Dict PreHeader)
      → IsRanked decode
      → IsLinked preheaders
      → add_headers decode raws preheaders ≡ some added
      → IsLinked added
  unfolding add_headers
  add_headers-IsLinked decode [] preheaders added ranked links h =
      let same : preheaders ≡ added = ground arith in subst IsLinked same links
  add_headers-IsLinked decode (raw ∷ raws) preheaders added ranked links h =
      elim (Option-cases (decode raw)) [
        | inl broken ↦ ground arith
        | inr (d, read) ↦
            add_headers-IsLinked decode raws (add_decoded raw d preheaders) added ranked
              (add_decoded-IsLinked decode raw d preheaders ranked read links) (ground arith)
      ]

  pub above-IsLinked :
      (highest : ℕ) (preheaders : Dict PreHeader)
      → IsLinked preheaders
      → IsLinked (above highest preheaders)
  unfolding above
  above-IsLinked highest [] links = tt
  above-IsLinked highest (e ∷ rest) (link, links) =
      let later = above-IsLinked highest rest links in
      elim (Bool-cases (ltb highest e.1.height)) [
        | inl kept ↦ rw kept (link, later)
        | inr dropped ↦ rw dropped later
      ]
