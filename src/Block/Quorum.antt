-- ===== src/Block/Quorum.antt =====
-- Two sets of signatures that each suffice to broadcast a block share a signer.
use vsc_node.Prelude.{
  ℕ, ◌+◌, ◌*◌, ◌≤◌, ◌<◌, String, ◌≡◌, refl, inl, inr, ◌⊎◌, List, [], ◌∷◌, ◌++◌, map, some, true,
  false, ◌==◌, length, if◌then◌else◌, str_eq, arith, eq_iff, Bool-cases, Option-cases, All,
  if-holds,
}
use vsc_node.Election.Store.{Member, ElectionResult}
use vsc_node.Election.Weights.{includes, set_key, index_of, share, add_weight, voted_weight}
use vsc_node.Block.Votes.{
  SigMsg, accepted_key, collect_votes, passes, wins_vote, decide_broadcast, signers_of,
}

unfoldable pub IsDistinct : List String → Type 0
IsDistinct [] = Unit
IsDistinct (k ∷ keys) = (includes k keys ≡ false) × IsDistinct keys

unfoldable pub total : List ℕ → ℕ
total [] = 0
total (w ∷ weights) = w + total weights

-- What a member of the list and the rest give a key.
weight_of : List Member → List ℕ → String → ℕ
weight_of [] ws key = 0
weight_of (m ∷ ms) [] key = 0
weight_of (m ∷ ms) (w ∷ ws) key = if str_eq m.key key then w else weight_of ms ws key

abbrev votes : (String → ℕ) → List String → ℕ
votes f [] = 0
votes f (k ∷ keys) = f k + votes f keys

share-weight_of :
    (ms : List Member) (ws : List ℕ) (key : String)
    → length ws ≡ length ms
    → share ms ws key ≡ some (weight_of ms ws key)
unfolding share index_of weight_of
share-weight_of [] ws key e = refl
share-weight_of (m ∷ ms) [] key e = ground arith
share-weight_of (m ∷ ms) (w ∷ ws) key e = ground (arith, share-weight_of ms ws key)

voted_weight-votes :
    (ms : List Member) (ws : List ℕ) (keys : List String)
    → length ws ≡ length ms
    → voted_weight ms ws keys ≡ some (votes (weight_of ms ws) keys)
unfolding voted_weight add_weight
voted_weight-votes ms ws [] e = refl
voted_weight-votes ms ws (k ∷ keys) e =
    rw (share-weight_of ms ws k e, voted_weight-votes ms ws keys e) refl

-- One member's weight counts at most once among distinct keys.
votes_head :
    (key : String) (w : ℕ) (f : String → ℕ) (keys : List String)
    → includes key keys ≡ false
    → votes (λ k. if str_eq key k then w else f k) keys ≡ votes f keys
unfolding includes
votes_head key w f [] h = refl
votes_head key w f (k ∷ keys) h =
    ground (arith, votes_head key w f keys, eq_iff key k, eq_iff k key)

votes_step :
    (key : String) (w : ℕ) (f : String → ℕ) (keys : List String)
    → IsDistinct keys
    → votes (λ k. if str_eq key k then w else f k) keys ≤ w + votes f keys
unfolding IsDistinct
votes_step key w f [] h = omega arith
votes_step key w f (k ∷ keys) (h, hs) =
    ground (arith, votes_head key w f keys, votes_step key w f keys hs, eq_iff key k)

votes_ext :
    (f g : String → ℕ) (keys : List String)
    → ((k : String) → f k ≡ g k)
    → votes f keys ≡ votes g keys
votes_ext f g [] h = refl
votes_ext f g (k ∷ keys) h = rw (h k, votes_ext f g keys h) refl

votes_zero : (f : String → ℕ) (keys : List String) → ((k : String) → f k ≡ 0) → votes f keys ≡ 0
votes_zero f [] h = refl
votes_zero f (k ∷ keys) h = omega (arith, h k, votes_zero f keys h)

votes-append : (f : String → ℕ) (xs ys : List String) → votes f (xs ++ ys) ≡ votes f xs + votes f ys
votes-append f [] ys = omega arith
votes-append f (x ∷ xs) ys = omega (arith, votes-append f xs ys)

votes-total :
    (ms : List Member) (ws : List ℕ) (keys : List String)
    → IsDistinct keys
    → votes (weight_of ms ws) keys ≤ total ws
unfolding weight_of total
votes-total [] ws keys h = rw (votes_zero (weight_of [] ws) keys (λ k. refl)) (omega arith)
votes-total (m ∷ ms) [] keys h =
    rw (votes_zero (weight_of (m ∷ ms) []) keys (λ k. refl)) (omega arith)
votes-total (m ∷ ms) (w ∷ ws) keys h =
    let step = votes_step m.key w (weight_of ms ws) keys h in
    let same : votes (weight_of (m ∷ ms) (w ∷ ws)) keys
        ≡ votes (λ k. if str_eq m.key k then w else weight_of ms ws k) keys =
      votes_ext _ _ keys (λ k. refl) in
    omega (arith, votes-total ms ws keys h)

-- Two lists share a key, or no key of the first is in the second.
unfoldable pub Shared : List String → List String → Type 0
Shared xs ys = (k : String) × (includes k xs ≡ true) × (includes k ys ≡ true)

Apart : List String → List String → Type 0
Apart xs ys = All (λ k. includes k ys ≡ false) xs

Shared-or_Apart : (xs ys : List String) → Shared xs ys ⊎ Apart xs ys
unfolding Shared Apart includes
Shared-or_Apart [] ys = inr tt
Shared-or_Apart (x ∷ xs) ys = elim (Bool-cases (includes x ys)) [
  | inl yes_x ↦ inl (x, ground (arith, eq_iff x x), yes_x)
  | inr no_x ↦ elim (Shared-or_Apart xs ys) [
    | inl (k, hx, hy) ↦ inl (k, ground arith, hy)
    | inr apart ↦ inr (no_x, apart)
  ]
]

includes-append :
    (k : String) (xs ys : List String)
    → includes k xs ≡ false
    → includes k ys ≡ false
    → includes k (xs ++ ys) ≡ false
unfolding includes
includes-append k [] ys h h' = h'
includes-append k (x ∷ xs) ys h h' = ground (arith, includes-append k xs ys)

append-IsDistinct :
    (xs ys : List String) → IsDistinct xs → IsDistinct ys → Apart xs ys → IsDistinct (xs ++ ys)
unfolding IsDistinct Apart
append-IsDistinct [] ys h h' a = h'
append-IsDistinct (x ∷ xs) ys (h, hs) h' (a, apart) =
    (includes-append x xs ys h a, append-IsDistinct xs ys hs h' apart)

single-IsDistinct :
    (xs : List String) (k : String)
    → IsDistinct xs
    → includes k xs ≡ false
    → IsDistinct (xs ++ k ∷ [])
unfolding IsDistinct includes
single-IsDistinct [] k h h' = (refl, tt)
single-IsDistinct (x ∷ xs) k (h, hs) h' = (
  includes-append x xs (k ∷ []) h (ground (arith, eq_iff x k, eq_iff k x)),
  single-IsDistinct xs k hs (ground arith),
)

set_key-IsDistinct :
    (key : String) (agg : List String) → IsDistinct agg → IsDistinct (set_key key agg)
unfolding set_key
set_key-IsDistinct key agg h = elim (Bool-cases (includes key agg)) [
  | inl known ↦ rw known h
  | inr new ↦ rw new (single-IsDistinct agg key h new)
]

collect_votes-IsDistinct :
    (keys : List String) (msgs : List SigMsg) (agg : List String)
    → IsDistinct agg
    → IsDistinct (collect_votes keys msgs agg)
unfolding collect_votes
collect_votes-IsDistinct keys [] agg h = h
collect_votes-IsDistinct keys (msg ∷ msgs) agg h = elim (Option-cases (accepted_key keys msg)) [
  | inl none_added ↦ rw (none_added, collect_votes) (collect_votes-IsDistinct keys msgs agg h)
  | inr (key, added) ↦
      let here = set_key-IsDistinct key agg h in
      rw (added, collect_votes)
        (if-holds IsDistinct (length (set_key key agg) == length keys) here
          (collect_votes-IsDistinct keys msgs (set_key key agg) here))
]

signers_of-IsDistinct :
    (e : ElectionResult) (own : String) (msgs : List SigMsg) → IsDistinct (signers_of e own msgs)
unfolding signers_of IsDistinct set_key includes
signers_of-IsDistinct e own msgs =
    collect_votes-IsDistinct (map (λ m. m.key) e.members) msgs (own ∷ []) (refl, tt)

-- A decision to broadcast says that the votes exceed 67 hundredths of the total.
decide_broadcast-votes :
    (e : ElectionResult) (ws : List ℕ) (own : String) (msgs : List SigMsg)
    → e.weights ≡ some ws
    → length ws ≡ length e.members
    → e.weight_total ≡ some (total ws)
    → decide_broadcast e own msgs ≡ some true
    → 67 * total ws < 100 * votes (weight_of e.members ws) (signers_of e own msgs)
unfolding decide_broadcast wins_vote passes
decide_broadcast-votes e ws own msgs hw hl ht h =
    let counted = voted_weight-votes e.members ws (signers_of e own msgs) hl in ground arith

-- When the weights of an election belong to its members and add up to its total weight, two
-- decisions to broadcast a block, by any two proposers and after any two sequences of messages,
-- share a signer: two blocks cannot both win a vote of the same election with disjoint signers.
pub decide_broadcast-Shared :
    (e : ElectionResult) (ws : List ℕ) (own other : String) (msgs others : List SigMsg)
    → e.weights ≡ some ws
    → length ws ≡ length e.members
    → e.weight_total ≡ some (total ws)
    → decide_broadcast e own msgs ≡ some true
    → decide_broadcast e other others ≡ some true
    → Shared (signers_of e own msgs) (signers_of e other others)
decide_broadcast-Shared e ws own other msgs others hw hl ht h h' =
    let xs = signers_of e own msgs in
    let ys = signers_of e other others in
    elim (Shared-or_Apart xs ys) [
      | inl shared ↦ shared
      | inr apart ↦
          let distinct =
            append-IsDistinct xs ys (signers_of-IsDistinct e own msgs)
              (signers_of-IsDistinct e other others) apart in
          let all = votes-total e.members ws (xs ++ ys) distinct in
          let both = votes-append (weight_of e.members ws) xs ys in
          let first = decide_broadcast-votes e ws own msgs hw hl ht h in
          let second = decide_broadcast-votes e ws other others hw hl ht h' in
          let no_room : ⊥ = omega arith in elim no_room [ ]
    ]
