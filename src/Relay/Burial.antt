-- ===== src/Relay/Burial.antt =====
-- Which headers contracts/btc-relay.ts makes final.
use vsc_node.Prelude.{
  ℕ, zero, suc, ◌+◌, ◌≤◌, String, ◌≡◌, refl, sym, ap, subst, ◌∙◌, inl, inr, List, [], ◌∷◌, none,
  some, true, false, ltb, ◌>>=◌, Dict, lookup, All, All-lookup, arith, Bool-cases, Option-cases,
}
use vsc_node.Relay.Headers.{PreHeader, walk, or_top, validity_depth}
use vsc_node.Relay.Links.{IsLink, IsLinked}
use vsc_node.Relay.Walk.{or_top-full}

-- The blocks under a top, with the number of links down to them.
pub data Below (preheaders : Dict PreHeader) (top : String) : ℕ → String → Type 0 where
  at_top : Below preheaders top 0 top
  parent :
      {depth : ℕ} {key : String} {h : PreHeader}
      → Below preheaders top depth key
      → lookup key preheaders ≡ some h
      → Below preheaders top (suc depth) h.prev_block

-- A header is in the chain under the top, with three headers or more above it.
pub record IsBuried (preheaders : Dict PreHeader) (top : String) (h : PreHeader) : Type 0 where
  pub depth : ℕ
  pub key : String
  pub is_below : Below preheaders top depth key
  pub is_stored : lookup key preheaders ≡ some h
  pub is_deep : 3 ≤ depth

module _ (preheaders : Dict PreHeader) (top : String) (fuel : ℕ) (prev : String) (depth : ℕ)
    (here : or_top top prev ≡ prev) where
  walk_absent : lookup prev preheaders ≡ none → walk preheaders top (suc fuel) prev depth ≡ some []
  unfolding walk
  walk_absent absent = rw (here, walk, absent) refl

  walk_emits :
      (h : PreHeader) (blocks : List PreHeader)
      → lookup prev preheaders ≡ some h
      → ltb validity_depth depth ≡ true
      → walk preheaders top (suc fuel) prev depth ≡ some blocks
      → (rest : List PreHeader) × (walk preheaders top fuel h.prev_block depth ≡ some rest)
        × (h ∷ rest ≡ blocks)
  unfolding walk
  walk_emits h blocks found deep ends =
      let step : walk preheaders top (suc fuel) prev depth
          ≡ (walk preheaders top fuel h.prev_block depth >>= λ rest. some (h ∷ rest)) =
        rw (here, walk, found, deep) refl in
      elim (Option-cases (walk preheaders top fuel h.prev_block depth)) [
        | inl broken ↦
            let clash : none ≡ some blocks =
              ap (λ w. w >>= λ rest. some (h ∷ rest)) (sym broken) ∙ sym step ∙ ends in
            ground arith
        | inr (rest, walked) ↦
            let same : some (h ∷ rest) ≡ some blocks =
              ap (λ w. w >>= λ rest. some (h ∷ rest)) (sym walked) ∙ sym step ∙ ends in
            (rest, walked, ground arith)
      ]

  walk_skips :
      (h : PreHeader)
      → lookup prev preheaders ≡ some h
      → ltb validity_depth depth ≡ false
      → walk preheaders top (suc fuel) prev depth
        ≡ walk preheaders top fuel h.prev_block (depth + 1)
  unfolding walk
  walk_skips h found shallow = rw (here, walk, found, shallow) refl

module _ (height_of : String → ℕ) (preheaders : Dict PreHeader) (top : String)
    (links : IsLinked height_of preheaders) where
  pub walk-IsBuried :
      (fuel n : ℕ) (prev : String) (depth : ℕ) (blocks : List PreHeader)
      → or_top top prev ≡ prev
      → Below preheaders top n prev
      → depth ≤ n
      → walk preheaders top fuel prev depth ≡ some blocks
      → All (IsBuried preheaders top) blocks
  unfolding walk
  walk-IsBuried zero n prev depth blocks here below deep h = ground arith
  walk-IsBuried (suc fuel) n prev depth blocks here below deep h =
      elim (Option-cases (lookup prev preheaders)) [
        | inl absent ↦
            let ends = sym (walk_absent preheaders top fuel prev depth here absent) ∙ h in
            let same : [] ≡ blocks = ground arith in subst (All (IsBuried preheaders top)) same tt
        | inr (e, found) ↦
            let next =
              or_top-full height_of top e.prev_block
                (All-lookup (IsLink height_of) preheaders prev e links found).has_parent in
            let lower : Below preheaders top (suc n) e.prev_block = parent below found in
            elim (Bool-cases (ltb validity_depth depth)) [
              | inl emits ↦
                  let (rest, walked, same) =
                    walk_emits preheaders top fuel prev depth here e blocks found emits h in
                  subst (All (IsBuried preheaders top)) same (
                    record {
                      depth = n;
                      key = prev;
                      is_below = below;
                      is_stored = found;
                      is_deep = ground arith;
                    },
                    walk-IsBuried fuel (suc n) e.prev_block depth rest next lower (omega arith)
                        walked,
                  )
              | inr skips ↦
                  walk-IsBuried fuel (suc n) e.prev_block (depth + 1) blocks next lower
                    (omega arith)
                    (sym (walk_skips preheaders top fuel prev depth here e found skips) ∙ h)
            ]
      ]
