-- ===== src/Election/GenerateTests.antt =====
-- An election of the required nodes and two others, and the theorems on its weights.
use vsc_node.Prelude.{
  ℕ, String, ◌≡◌, refl, List, [], ◌∷◌, map, Option, none, some, false, str_eq, if◌then◌else◌,
}
use vsc_node.Election.Weights.{includes}
use vsc_node.Election.Threshold.{round}
use vsc_node.Election.Generate.{
  Witness, Release, ElectionData, required_members, is_required, is_released, is_updated,
  is_candidate, consensus_key, as_members, witness_list, sum, required_weight, weight_or_default,
  total_optional_weight, member_weight, generate_election,
}

abbrev witness : String → Option String → Witness
witness account version = record {
  account = account;
  version_id = version;
  keys = record { t = "consensus"; key = account } ∷ [];
}

-- Only the last one runs another version than the newest.
abbrev witnesses : List Witness
witnesses =
    witness "a" (some "v2")
    ∷ witness "b" (some "v2")
    ∷ witness "late" (some "v1")
    ∷ map (λ account. witness account none) required_members

abbrev newest : Option Release
newest = some (record { tag = "v2"; is_recent = false })

-- The account "a" has signed nearly all blocks, and the others are new.
abbrev scores : String → Option ℕ
scores account = if str_eq account "a" then some 13 else none

abbrev elected : ElectionData
elected = generate_election scores newest witnesses [] 100 "mainnet"

run-weights : elected.weights ≡ 13 ∷ 10 ∷ 2 ∷ 2 ∷ 2 ∷ 2 ∷ 2 ∷ 2 ∷ 2 ∷ 2 ∷ []
unfolding generate_election witness_list as_members consensus_key is_candidate is_required
    is_updated is_released includes member_weight required_weight round total_optional_weight
    weight_or_default sum
run-weights = refl

run-total : elected.weight_total ≡ 39
unfolding generate_election witness_list as_members consensus_key is_candidate is_required
    is_updated is_released includes member_weight required_weight round total_optional_weight
    weight_or_default sum
run-total = refl
