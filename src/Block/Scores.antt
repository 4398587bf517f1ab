-- ===== src/Block/Scores.antt =====
-- getWitnessActiveScore of services/new/witness/index.ts: how many of the last blocks each witness
-- has signed. A quotient is compared by cross-multiplied numbers.
use vsc_node.Prelude.{
  ℕ, ◌+◌, ◌*◌, String, List, [], ◌∷◌, map, Option, none, some, leb, take, filter, if◌then◌else◌,
  Dict, lookup, insert, ◌>>=◌,
}
use vsc_node.Election.Store.{ElectionResult, get_valid_election_unchecked}

-- The fields of a block header that are read.
pub record SignedHeader : Type 0 where
  pub slot_height : ℕ
  pub signers : List String

pub record Scores : Type 0 where
  pub score : Dict ℕ
  pub expected : Dict ℕ

-- A percentage or a weight is `none` where the code has NaN or undefined.
pub record WitnessScore : Type 0 where
  pub account : String
  pub pct : Option ℕ
  pub expected : Option ℕ
  pub actual : ℕ
  pub weight : Option ℕ

unfoldable pub or_zero : Option ℕ → ℕ
or_zero none = 0
or_zero (some n) = n

-- `if(!map[key]) map[key] = 0`
unfoldable pub touch : String → Dict ℕ → Dict ℕ
touch key dict = insert key (or_zero (lookup key dict)) dict

-- The same, and `map[key] = map[key] + 1`.
unfoldable pub bump : String → Dict ℕ → Dict ℕ
bump key dict = insert key (or_zero (lookup key dict) + 1) dict

unfoldable pub expect_members : List String → Scores → Scores
expect_members [] scores = scores
expect_members (member ∷ members) scores =
    expect_members members
      record { score = touch member scores.score; expected = bump member scores.expected }

unfoldable pub count_signers : List String → Scores → Scores
count_signers [] scores = scores
count_signers (account ∷ signers) scores =
    count_signers signers (record scores { score = bump account scores.score })

-- targetConstraints: the last one that `actual / expected` reaches.
unfoldable pub score_weight : ℕ → ℕ → ℕ
score_weight actual expected =
    if leb (8 * expected) (10 * actual)
    then 13
    else if leb (7 * expected) (10 * actual)
    then 10
    else 6

-- `round_percent` is `Math.round(actual / expected * 100)` in floating point.
unfoldable pub rate : (ℕ → ℕ → ℕ) → Dict ℕ → String × ℕ → WitnessScore
rate round_percent expected (account, actual) = elim (lookup account expected) [
  | none ↦ record { account = account; pct = none; expected = none; actual = actual; weight = none }
  | some due ↦ record {
    account = account;
    pct = some (round_percent actual due);
    expected = some due;
    actual = actual;
    weight = some (score_weight actual due);
  }
]

-- The accounts of the election that is valid at a block; without one the code throws.
unfoldable pub members_at : List ElectionResult → ℕ → Option (List String)
members_at db height = elim (get_valid_election_unchecked db height) [
  | none ↦ none
  | some e ↦ some (map (λ m. m.account) e.members)
]

unfoldable pub score_blocks : List ElectionResult → List SignedHeader → Scores → Option Scores
score_blocks db [] scores = some scores
score_blocks db (block ∷ blocks) scores = do
  members ← members_at db block.slot_height
  score_blocks db blocks (count_signers block.signers (expect_members members scores))

-- The last sixty headers up to a height; the headers stand with the latest first.
unfoldable pub last_blocks : ℕ → List SignedHeader → List SignedHeader
last_blocks height headers = take 60 (filter (λ b. leb b.slot_height height) headers)

unfoldable pub get_witness_active_score :
    (ℕ → ℕ → ℕ) → ℕ → List ElectionResult → List SignedHeader → Option (List WitnessScore)
get_witness_active_score round_percent height db headers = do
  scores ← score_blocks db (last_blocks height headers) record { score = []; expected = [] }
  some (map (rate round_percent scores.expected) scores.score)
