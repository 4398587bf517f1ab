-- ===== src/Block/ScoreTests.antt =====
-- Two blocks of two members, one of which has signed both, and the theorem on their scores.
use vsc_node.Prelude.{ℕ, ◌+◌, ◌*◌, ◌/◌, ◌≡◌, refl, List, [], ◌∷◌, none, some, lookup, insert, All}
use vsc_node.Election.Store.{ElectionResult, get_valid_election_unchecked}
use vsc_node.Block.Scores.{
  SignedHeader, WitnessScore, or_zero, touch, bump, expect_members, count_signers, score_weight,
  rate, members_at, score_blocks, last_blocks, get_witness_active_score,
}
use vsc_node.Block.Scoring.{IsCounted, get_witness_active_score-IsCounted}

abbrev election : ElectionResult
election = record {
  block_height = 1;
  epoch = 0;
  net_id = "net";
  members = record { account = "a"; key = "ka" } ∷ record { account = "b"; key = "kb" } ∷ [];
  weights = none;
  weight_total = none;
  content = "";
  proposer = "a";
}

-- The exact quotient, rounded.
abbrev exact : ℕ → ℕ → ℕ
exact actual expected = (200 * actual + expected) / (2 * expected)

abbrev headers : List SignedHeader
headers =
    record { slot_height = 30; signers = "a" ∷ [] }
    ∷ record { slot_height = 20; signers = "b" ∷ "a" ∷ [] }
    ∷ record { slot_height = 10; signers = "c" ∷ "a" ∷ [] }
    ∷ []

abbrev scores : List WitnessScore
scores =
    record { account = "a"; pct = some 100; expected = some 2; actual = 2; weight = some 13 }
    ∷ record { account = "b"; pct = some 50; expected = some 2; actual = 1; weight = some 6 }
    ∷ record { account = "c"; pct = none; expected = none; actual = 1; weight = none }
    ∷ []

counted : get_witness_active_score exact 25 (election ∷ []) headers ≡ some scores
unfolding get_witness_active_score score_blocks members_at get_valid_election_unchecked last_blocks
    count_signers expect_members bump touch or_zero rate score_weight lookup insert
counted = refl

get_witness_active_score-IsCounted_example :
    All (IsCounted (election ∷ []) (last_blocks 25 headers)) scores
get_witness_active_score-IsCounted_example =
    get_witness_active_score-IsCounted exact 25 (election ∷ []) headers scores counted
