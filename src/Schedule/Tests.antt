-- ===== src/Schedule/Tests.antt =====
-- The schedule of a small election, and the theorems at concrete inputs.
use mathlib.Core.List.{Perm}
use vsc_node.Prelude.{ℕ, ◌==◌, ◌≡◌, refl, List, [], ◌∷◌, none, some, arith, find}
use vsc_node.Network.{new_testnet, networks}
use vsc_node.Election.Store.{
  Member, ElectionResult, get_valid_election_unchecked, get_members_of_block,
}
use vsc_node.Schedule.Plan.{
  calculate_consensus_round, Draw, seed_rand, shuffle, shuffle_loop, Slot, weighted_schedule,
}
use vsc_node.Schedule.Cache.{
  Env, compute_schedule, get_randomize_hash, get_block_schedule, track_slot,
}
use vsc_node.Schedule.Shuffle.{IsDraw, shuffle-perm}
use vsc_node.Schedule.Slots.{IsIn, weighted_schedule_covers}
use vsc_node.Schedule.Caching.{
  slots_of, IsConsistent, IsCoherent, get_block_schedule_fresh, hash_of,
}
use vsc_node.Schedule.Tracking.{IsTracked, track_slot-IsExpected}

abbrev node_a : Member
node_a = record { account = "a"; key = "ka" }

abbrev node_b : Member
node_b = record { account = "b"; key = "kb" }

abbrev election : ElectionResult
election = record {
  block_height = 10;
  epoch = 1;
  net_id = "net";
  members = node_a ∷ node_b ∷ [];
  weights = none;
  weight_total = none;
  content = "cid";
  proposer = "a";
}

-- A generator that always draws 1/2.
abbrev half : ℕ → Draw
half k = record { num = 1; den = 2 }

abbrev env : Env
env = record {
  network_id = "testnet/0bf2e474-6b9e-4165-ad4e-a0d78968d20c";
  election_db = election ∷ [];
  witnesses_at = λ h. [];
  header_id = λ h. some "id";
  seedrandom = λ seed. half;
}

-- The middle key is drawn each time.
run-shuffle : shuffle {A = ℕ} half (10 ∷ 20 ∷ 30 ∷ []) ≡ some 20 ∷ some 30 ∷ some 10 ∷ []
unfolding shuffle shuffle_loop seed_rand
run-shuffle = refl

-- The first of the repository's tests of the function.
run-round :
    calculate_consensus_round 10 new_testnet
    ≡ record { next_round_height = 1200; past_round_height = 0; current_block_number = 10 }
unfolding calculate_consensus_round
run-round = refl

half-IsDraw : (k : ℕ) → IsDraw (half k)
half-IsDraw k = omega arith

shuffle-perm_example :
    Perm (shuffle {A = ℕ} half (10 ∷ 20 ∷ 30 ∷ [])) (some 10 ∷ some 20 ∷ some 30 ∷ [])
shuffle-perm_example = shuffle-perm {A = ℕ} half (10 ∷ 20 ∷ 30 ∷ []) half-IsDraw

weighted_schedule_covers_example :
    (s : Slot) × (w : Member) × (find
        (λ (s : Slot). s.bn == 1230)
        (weighted_schedule new_testnet
          (node_a ∷ node_b ∷ [])
          half
          (calculate_consensus_round 1230 new_testnet)).schedule
      ≡ some s)
    × (s.bn ≡ 1230)
    × (s.witness ≡ some w)
    × IsIn w (node_a ∷ node_b ∷ [])
weighted_schedule_covers_example =
    weighted_schedule_covers new_testnet (node_a ∷ node_b ∷ []) half 1230 (omega arith)
      (omega arith) (omega arith) half-IsDraw refl

only_election :
    (h : ℕ) (e : ElectionResult)
    → get_valid_election_unchecked (election ∷ []) h ≡ some e
    → e.members ≡ node_a ∷ node_b ∷ []
unfolding get_valid_election_unchecked
only_election h e f = ground arith

env-IsConsistent : IsConsistent env new_testnet
env-IsConsistent h h' e e' f f' ep = ground (arith, only_election h e f, only_election h' e' f')

empty-IsCoherent : IsCoherent env new_testnet none
empty-IsCoherent c h e s absent = cc

abbrev plan : List Slot
plan =
    (weighted_schedule new_testnet (node_a ∷ node_b ∷ []) half
      (calculate_consensus_round 1234 new_testnet)).schedule

get_block_schedule_fresh_example :
    (out : List Slot) × ((get_block_schedule env 1234 none).0 ≡ some out)
    × (slots_of out ≡ slots_of plan)
    × IsCoherent env new_testnet (get_block_schedule env 1234 none).1
unfolding networks get_valid_election_unchecked compute_schedule get_randomize_hash
    get_members_of_block calculate_consensus_round
get_block_schedule_fresh_example =
    get_block_schedule_fresh env new_testnet 1234 none election plan refl env-IsConsistent
      empty-IsCoherent refl refl

track_slot-IsExpected_example :
    IsTracked new_testnet
      (node_a ∷ node_b ∷ [])
      (weighted_schedule new_testnet
        (node_a ∷ node_b ∷ [])
        half
        (calculate_consensus_round 1230 new_testnet)).schedule
      none
      0
      1230
      1235
      (track_slot env new_testnet (λ h. none) 0 1230 1235 none).0
unfolding networks get_valid_election_unchecked hash_of get_randomize_hash calculate_consensus_round
track_slot-IsExpected_example =
    track_slot-IsExpected env new_testnet (λ h. none) 0 1230 1235 none election "id" (omega arith)
      (omega arith) (omega arith) (λ seed. half-IsDraw) refl env-IsConsistent empty-IsCoherent refl
      refl
