-- ===== src/Election/Store.antt =====
-- The collection `election_results`, and the lookup of the election that is valid at a block.
use vsc_node.Prelude.{ℕ, String, Option, none, some, List, [], ◌∷◌, ltb, if◌then◌else◌}

pub record Member : Type 0 where
  pub account : String
  pub key : String

-- `weights` and `weight_total` are null in the early elections.
pub record ElectionResult : Type 0 where
  pub block_height : ℕ
  pub epoch : ℕ
  pub net_id : String
  pub members : List Member
  pub weights : Option (List ℕ)
  pub weight_total : Option ℕ
  pub content : String
  pub proposer : String

-- The later of a found election and the best of the rest; the earlier record wins a tie.
later : ElectionResult → Option ElectionResult → Option ElectionResult
later e none = some e
later e (some f) = if ltb e.block_height f.block_height then some f else some e

-- `findOne({block_height: {$lt: height}}, {sort: {block_height: -1}})`
unfoldable pub get_valid_election_unchecked : List ElectionResult → ℕ → Option ElectionResult
unfolding later
get_valid_election_unchecked [] height = none
get_valid_election_unchecked (e ∷ db) height =
    let rest = get_valid_election_unchecked db height in
    if ltb e.block_height height then later e rest else rest

-- The members of the election that is valid at a block, or else of the witnesses of that block.
unfoldable pub get_members_of_block : List ElectionResult → (ℕ → List Member) → ℕ → List Member
get_members_of_block db witnesses height = elim (get_valid_election_unchecked db height) [
  | some e ↦ e.members
  | none ↦ witnesses height
]
