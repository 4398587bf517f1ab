-- ===== src/Election/Majority.antt =====
-- The vote that an election needs is a majority, at most two thirds rounded up, and falls as time
-- passes.
use vsc_node.Prelude.{
  ℕ, ◌+◌, ◌-◌, ◌*◌, ◌/◌, ◌≤◌, ◌<◌, min, ◌≡◌, refl, sym, ◌∙◌, none, some, true, false, leb, ltb,
  ◌||◌, ◌⊎◌, arith,
}
use native.Mathlib.Nat.{mul-le-mul_right}
use vsc_node.Election.Threshold.{
  from, position, value, map_range, round, min_members, max_members, drift,
  minimal_required_election_votes,
}

-- `lo` and the share `d` of a span `w`, in units of 1/403200, rounded.
abbrev blend : ℕ → ℕ → ℕ → ℕ
blend d w lo = (2 * (d * w + lo * 403200) + 403200) / 806400

blend-between : (d w lo : ℕ) → d ≤ 403200 → (lo ≤ blend d w lo) × (blend d w lo ≤ lo + w)
blend-between d w lo h =
    let p : d * w ≤ 403200 * w = mul-le-mul_right w h in (omega arith, omega arith)

blend_mono : (d d' w lo : ℕ) → d ≤ d' → blend d w lo ≤ blend d' w lo
blend_mono d d' w lo h = let p : d * w ≤ d' * w = mul-le-mul_right w h in omega arith

votes-blend :
    (blocks count : ℕ)
    → 1200 ≤ blocks
    → min_members count < max_members count
    → minimal_required_election_votes blocks count
      ≡ some (
          blend
            (403200 - min blocks 403200)
            (max_members count - min_members count)
            (min_members count))
unfolding minimal_required_election_votes from map_range position value round drift
votes-blend blocks count h h' =
    let in_time : ltb blocks 1200 ≡ false = ground arith in
    let wide : leb (max_members count) (min_members count) ≡ false = ground arith in
    let above : ltb (403200 - min blocks 403200) 0 ≡ false = ground arith in
    let below : ltb 403200 (403200 - min blocks 403200) ≡ false = ground arith in
    let low : 403200 - min blocks 403200 - 0 ≡ 403200 - min blocks 403200 = omega arith in
    rw (in_time, wide, above, below, low, ◌||◌, ltb, below) refl

-- A threshold is only computed in time and when two thirds exceed the majority.
votes-some :
    (blocks count votes : ℕ)
    → minimal_required_election_votes blocks count ≡ some votes
    → (1200 ≤ blocks) × (min_members count < max_members count)
unfolding minimal_required_election_votes from
votes-some blocks count votes h = ground arith

-- The threshold, where the code computes one, is at least half of the votes and one more, so that
-- two sets of votes that meet it intersect, and at most two thirds rounded up.
pub minimal_required_election_votes_bounds :
    (blocks count votes : ℕ)
    → minimal_required_election_votes blocks count ≡ some votes
    → (count < 2 * votes) × (3 * votes ≤ 2 * count + 2)
unfolding min_members max_members
minimal_required_election_votes_bounds blocks count votes h =
    let (early, wide) = votes-some blocks count votes h in
    let e = votes-blend blocks count early wide in
    let (lo, hi) =
      blend-between (403200 - min blocks 403200) (max_members count - min_members count)
        (min_members count) (omega arith) in
    let same = sym h ∙ e in ground arith

-- Waiting longer never asks for more votes.
pub minimal_required_election_votes_antitone :
    (blocks later count votes fewer : ℕ)
    → blocks ≤ later
    → minimal_required_election_votes blocks count ≡ some votes
    → minimal_required_election_votes later count ≡ some fewer
    → fewer ≤ votes
minimal_required_election_votes_antitone blocks later count votes fewer h e e' =
    let (early, wide) = votes-some blocks count votes e in
    let b = votes-blend blocks count early wide in
    let b' = votes-blend later count (omega arith) wide in
    let mono =
      blend_mono (403200 - min later 403200) (403200 - min blocks 403200)
        (max_members count - min_members count) (min_members count) (omega arith) in
    let same = sym e ∙ b in let same_later = sym e' ∙ b' in ground arith

-- Among seven votes or more there is a threshold as soon as the time slot is reached.
pub minimal_required_election_votes_defined :
    (blocks count : ℕ)
    → 1200 ≤ blocks
    → 7 ≤ count
    → (votes : ℕ) × (minimal_required_election_votes blocks count ≡ some votes)
unfolding min_members max_members
minimal_required_election_votes_defined blocks count h h' =
    (_, votes-blend blocks count h (omega arith))

-- With fewer than five votes, or with six, two thirds do not exceed the majority, and the code
-- throws whatever the time.
pub minimal_required_election_votes_small :
    (blocks count : ℕ)
    → (count < 5) ⊎ (count ≡ 6)
    → minimal_required_election_votes blocks count ≡ none
unfolding minimal_required_election_votes from min_members max_members
minimal_required_election_votes_small blocks count h =
    let narrow : leb ((count * 2 + 2) / 3) (count / 2 + 1) ≡ true = ground arith in
    rw narrow (ground arith)
