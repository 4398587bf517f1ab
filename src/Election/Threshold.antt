-- ===== src/Election/Threshold.antt =====
-- minimalRequiredElectionVotes and the class Range of services/new/witness/electionManager.ts. The
-- code computes with binary fractions what is computed with exact ones here.
use vsc_node.Prelude.{
  ℕ, ◌+◌, ◌-◌, ◌*◌, ◌/◌, min, Option, none, some, leb, ltb, if◌then◌else◌, ◌>>=◌, ◌||◌,
}

-- `Range`; `from` throws unless the end exceeds the start.
pub record Range : Type 0 where
  pub start : ℕ
  pub finish : ℕ

unfoldable pub from : ℕ → ℕ → Option Range
from start finish =
    if leb finish start then none else some (record { start = start; finish = finish })

-- A nonnegative fraction.
pub record Fraction : Type 0 where
  pub num : ℕ
  pub den : ℕ

-- `position`, of a fraction with the denominator `den`
unfoldable pub position : Range → Fraction → Option Fraction
position r x =
    if ltb x.num (r.start * x.den) || ltb (r.finish * x.den) x.num
    then none
    else some (record { num = x.num - r.start * x.den; den = (r.finish - r.start) * x.den })

unfoldable pub value : Range → Fraction → Option Fraction
value r x =
    if ltb x.den x.num
    then none
    else some (record { num = x.num * (r.finish - r.start) + r.start * x.den; den = x.den })

unfoldable pub map_range : Range → Fraction → Range → Option Fraction
map_range r x to = do p ← position r x; value to p

-- `Math.round`, half up
unfoldable pub round : Fraction → ℕ
round x = (2 * x.num + x.den) / (2 * x.den)

abbrev pub min_blocks : ℕ
min_blocks = 1200

abbrev pub max_blocks : ℕ
max_blocks = 403200

unfoldable pub min_members : ℕ → ℕ
min_members count = count / 2 + 1

unfoldable pub max_members : ℕ → ℕ
max_members count = (count * 2 + 2) / 3

unfoldable pub drift : ℕ → Fraction
drift blocks = record { num = max_blocks - min blocks max_blocks; den = max_blocks }

-- The number of votes that an election needs; `none` where the code throws.
unfoldable pub minimal_required_election_votes : ℕ → ℕ → Option ℕ
minimal_required_election_votes blocks count = if ltb blocks min_blocks then none else do
  unit ← from 0 1
  range ← from (min_members count) (max_members count)
  votes ← map_range unit (drift blocks) range
  some (round votes)
