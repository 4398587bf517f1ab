-- ===== src/Schedule/Cache.antt =====
-- `getBlockSchedule`, which keeps the schedule of the last round, and the slot tracker's parser.
-- A throw is `none`. The witnesses, the Hive block headers and `seedrandom` are parameters.
use vsc_node.Prelude.{
  ℕ, ◌-◌, ◌%◌, String, List, Option, none, some, Bool, false, find, leb, ◌==◌, not, ◌&&◌,
  if◌then◌else◌,
}
use vsc_node.Network.{Network, networks}
use vsc_node.Election.Store.{
  Member, ElectionResult, get_valid_election_unchecked, get_members_of_block,
}
use vsc_node.Schedule.Plan.{
  ConsensusRound, calculate_consensus_round, Draw, Slot, weighted_schedule,
}

-- `witness.witnessSchedule`
pub record WitnessSchedule : Type 0 where
  pub schedule : List Slot
  pub valid_epoch : ℕ
  pub valid_height : ℕ

-- What the function reads: the network's id, the elections, the witnesses at a block, the block
-- ids of the stored Hive headers, and the generator for a seed.
pub record Env : Type 0 where
  pub network_id : String
  pub election_db : List ElectionResult
  pub witnesses_at : ℕ → List Member
  pub header_id : ℕ → Option String
  pub seedrandom : String → ℕ → Draw

-- The header of the block before the round; there is none before block 0.
unfoldable pub get_randomize_hash : Env → ConsensusRound → Option String
get_randomize_hash env round =
    if round.past_round_height == 0 then none else env.header_id (round.past_round_height - 1)

-- The schedule of a block, computed anew.
unfoldable pub compute_schedule : Env → Network → ℕ → Option (List Slot)
compute_schedule env network height =
    let round = calculate_consensus_round height network in
    elim (get_randomize_hash env round) [
      | none ↦ none
      | some hash ↦
          some
            (weighted_schedule network
              (get_members_of_block env.election_db env.witnesses_at height) (env.seedrandom hash)
              round).schedule
    ]

-- Whether the cached schedule serves the round and the epoch.
unfoldable pub cache_hit : Option WitnessSchedule → ConsensusRound → ℕ → Bool
cache_hit none round epoch = false
cache_hit (some c) round epoch = c.valid_height == round.past_round_height && epoch == c.valid_epoch

unfoldable pub cached : Option WitnessSchedule → Option (List Slot)
cached none = none
cached (some c) = some c.schedule

unfoldable pub fresh :
    Option WitnessSchedule
    → Option (List Slot)
    → ConsensusRound
    → ℕ
    → Option (List Slot) × Option WitnessSchedule
fresh cache none round epoch = (none, cache)
fresh cache (some schedule) round epoch = (
  some schedule,
  some
      (record { schedule = schedule; valid_epoch = epoch; valid_height = round.past_round_height }),
)

unfoldable pub scheduled :
    Env
    → Network
    → ℕ
    → Option ElectionResult
    → Option WitnessSchedule
    → Option (List Slot) × Option WitnessSchedule
scheduled env network height none cache = (none, cache)
scheduled env network height (some election) cache =
    let round = calculate_consensus_round height network in
    if cache_hit cache round election.epoch
    then (cached cache, cache)
    else fresh cache (compute_schedule env network height) round election.epoch

unfoldable pub on_network :
    Env → Option Network → ℕ → Option WitnessSchedule → Option (List Slot) × Option WitnessSchedule
on_network env none height cache = (none, cache)
on_network env (some network) height cache =
    scheduled env network height (get_valid_election_unchecked env.election_db height) cache

unfoldable pub get_block_schedule :
    Env → ℕ → Option WitnessSchedule → Option (List Slot) × Option WitnessSchedule
get_block_schedule env height cache = on_network env (networks env.network_id) height cache

-- `BLOCKS_TO_WAIT`
abbrev pub blocks_to_wait : ℕ
blocks_to_wait = 5

-- What the slot tracker reports of a block.
pub data Report : Type 0 where
  nothing : Report
  anchored : String → Report
  missed : Option Member → Report
  unsigned : Option Member → Report
  failed : Report

unfoldable pub report_scheduled : ℕ → ℕ → Option Slot → Report
report_scheduled last_valid_slot slot_height none = failed
report_scheduled last_valid_slot slot_height (some s) =
    if last_valid_slot == slot_height then unsigned s.witness else missed s.witness

unfoldable pub report_schedule : ℕ → ℕ → Option (List Slot) → Report
report_schedule last_valid_slot slot_height none = failed
report_schedule last_valid_slot slot_height (some schedule) =
    report_scheduled last_valid_slot slot_height (find (λ s. s.bn == slot_height) schedule)

unfoldable pub report_slot :
    Env → (ℕ → Option String) → ℕ → ℕ → Option WitnessSchedule → Report × Option WitnessSchedule
report_slot env proposer_of last_valid_slot slot_height cache = elim (proposer_of slot_height) [
  | some proposer ↦ (anchored proposer, cache)
  | none ↦
      let (schedule, cache') = get_block_schedule env slot_height cache in
      (report_schedule last_valid_slot slot_height schedule, cache')
]

-- `SlotTracker.blockParser`. `proposer_of` is the proposer of the stored block header of a slot.
unfoldable pub track_slot :
    Env
    → Network
    → (ℕ → Option String)
    → ℕ
    → ℕ
    → ℕ
    → Option WitnessSchedule
    → Report × Option WitnessSchedule
track_slot env network proposer_of parse_lag last_valid_slot height cache =
    if not (height % network.round_length == blocks_to_wait)
    then (nothing, cache)
    else (if leb blocks_to_wait parse_lag
        then (nothing, cache)
        else report_slot env proposer_of last_valid_slot (height - blocks_to_wait) cache)
