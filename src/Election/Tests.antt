-- ===== src/Election/Tests.antt =====
-- Thresholds that the repository's tests list, and the theorems at concrete elections.
use vsc_node.Prelude.{
  ℕ, ◌+◌, ◌*◌, ◌≤◌, ◌<◌, String, ◌≡◌, refl, List, [], ◌∷◌, some, Bool, true, arith,
}
use vsc_node.Election.Store.{
  Member, ElectionResult, get_valid_election_unchecked, get_members_of_block,
}
use vsc_node.Election.Weights.{includes, set_key, index_of, share, add_weight, voted_weight}
use vsc_node.Election.Threshold.{
  from, map_range, position, value, round, drift, min_members, max_members,
  minimal_required_election_votes,
}
use vsc_node.Election.Majority.{minimal_required_election_votes_bounds}
use vsc_node.Election.Indexing.{
  ElectionHeader, ElectionContent, deserialize_keys, tally, total_votes, blocks_since, has_majority,
  is_of, has_election, new_election, upsert, circuit_keys, store_election, index_election,
}
use vsc_node.Election.Integrity.{index_election_majority, index_election_keeps}

run-votes_8 : minimal_required_election_votes 1200 8 ≡ some 6
unfolding minimal_required_election_votes from map_range position value round drift min_members
    max_members
run-votes_8 = refl

run-votes_late : minimal_required_election_votes 403200 100 ≡ some 51
unfolding minimal_required_election_votes from map_range position value round drift min_members
    max_members
run-votes_late = refl

minimal_required_election_votes_bounds_example : (8 < 2 * 6) × (3 * 6 ≤ 2 * 8 + 2)
unfolding minimal_required_election_votes from map_range position value round drift min_members
    max_members
minimal_required_election_votes_bounds_example =
    minimal_required_election_votes_bounds 1200 8 6 refl

abbrev members : List Member
members =
    record { account = "a"; key = "ka" }
    ∷ record { account = "b"; key = "kb" }
    ∷ record { account = "c"; key = "kc" }
    ∷ []

-- The election in force, of epoch 4.
abbrev last : ElectionResult
last = record {
  block_height = 90000000;
  epoch = 4;
  net_id = "net";
  members = members;
  weights = some (10 ∷ 10 ∷ 9 ∷ []);
  weight_total = some 29;
  content = "old";
  proposer = "a";
}

-- Contents whose epoch is the header's, and one whose epoch is the stored election's.
abbrev content_of : ℕ → String → ElectionContent
content_of epoch cid = record {
  epoch = epoch;
  net_id = "net";
  members = members;
  weights = some (10 ∷ 10 ∷ 10 ∷ []);
  weight_total = 30;
}

abbrev header : ElectionHeader
header = record { content = "new"; epoch = 5; net_id = "net" }

-- Everyone has signed.
abbrev all_bits : ℕ → Bool
all_bits i = true

abbrev accepts : List String → ElectionHeader → Bool
accepts keys signed = true

abbrev witnesses : ℕ → List Member
witnesses height = []

abbrev indexed : ℕ → List ElectionResult
indexed epoch = upsert (new_election (content_of epoch "new") 90007201 header "b") (last ∷ [])

index_election_majority_example :
    (accepts (circuit_keys witnesses all_bits accepts (content_of 5) (last ∷ []) 90007201) header
      ≡ true)
    × (v : ℕ) × ((tally
          (get_valid_election_unchecked (last ∷ []) 90007201)
          (get_members_of_block (last ∷ []) witnesses 90007201)
          (circuit_keys witnesses all_bits accepts (content_of 5) (last ∷ []) 90007201)).0
        ≡ some v)
    × (total_votes
          (tally
            (get_valid_election_unchecked (last ∷ []) 90007201)
            (get_members_of_block (last ∷ []) witnesses 90007201)
            (circuit_keys witnesses all_bits accepts (content_of 5) (last ∷ []) 90007201)).1
        < 2 * v)
unfolding index_election store_election circuit_keys deserialize_keys tally total_votes blocks_since
    has_majority is_of has_election get_valid_election_unchecked get_members_of_block set_key
    includes voted_weight add_weight share index_of minimal_required_election_votes from map_range
    position value round drift min_members max_members
index_election_majority_example =
    index_election_majority witnesses all_bits accepts (content_of 5) (last ∷ []) (indexed 5)
      90007201 header "b" (omega arith) (omega arith) refl

index_election_keeps_example :
    indexed 5 ≡ last ∷ new_election (content_of 5 "new") 90007201 header "b" ∷ []
unfolding index_election store_election circuit_keys deserialize_keys tally total_votes blocks_since
    has_majority is_of has_election get_valid_election_unchecked get_members_of_block set_key
    includes voted_weight add_weight share index_of minimal_required_election_votes from map_range
    position value round drift min_members max_members
index_election_keeps_example =
    index_election_keeps witnesses all_bits accepts (content_of 5) (last ∷ []) (indexed 5) 90007201
      header "b" refl refl refl
