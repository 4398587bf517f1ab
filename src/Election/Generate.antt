-- ===== src/Election/Generate.antt =====
-- generateElection of services/new/witness/electionManager.ts: which witnesses are elected, and
-- with what weights. The witnesses of the block, the newest release and the scores of the
-- accounts are parameters; a score without a weight is not modelled.
use vsc_node.Prelude.{
  ℕ, ◌+◌, ◌-◌, ◌*◌, ◌/◌, String, List, [], ◌∷◌, map, Option, none, some, Bool, true, not, str_eq,
  if◌then◌else◌, filter,
}
use vsc_node.Election.Store.{Member, ElectionResult, get_valid_election_unchecked}
use vsc_node.Election.Weights.{includes}
use vsc_node.Election.Threshold.{round}

pub record WitnessKey : Type 0 where
  pub t : String
  pub key : String

pub record Witness : Type 0 where
  pub account : String
  pub version_id : Option String
  pub keys : List WitnessKey

-- The tag of the newest release, and whether it is less than 12 hours old.
pub record Release : Type 0 where
  pub tag : String
  pub is_recent : Bool

pub record ElectionData : Type 0 where
  pub members : List Member
  pub epoch : ℕ
  pub weights : List ℕ
  pub weight_total : ℕ
  pub net_id : String

abbrev pub required_members : List String
required_members =
    "vsc.node1" ∷ "vsc.node2" ∷ "vaultec-scc" ∷ "geo52rey.vsc" ∷ "geo52rey.dev" ∷ "manu-node"
    ∷ "v4vapp.vsc" ∷ "lassecashwitness" ∷ []

abbrev pub default_weight : ℕ
default_weight = 10

unfoldable pub is_required : String → Bool
is_required account = includes account required_members

-- Whether a version is the tag of the newest release, or of the one before, which the code never
-- loads, so that only a missing version equals it.
unfoldable pub is_released : Release → Option String → Bool
is_released r none = r.is_recent
is_released r (some version) = str_eq version r.tag

unfoldable pub is_updated : Option Release → Option String → Bool
is_updated none version = true
is_updated (some r) version = is_released r version

unfoldable pub is_candidate : Option Release → Witness → Bool
is_candidate release w = if is_required w.account then true else is_updated release w.version_id

unfoldable pub consensus_key : List WitnessKey → Option String
consensus_key [] = none
consensus_key (k ∷ keys) = if str_eq k.t "consensus" then some k.key else consensus_key keys

unfoldable pub as_members : List Witness → List Member
as_members [] = []
as_members (w ∷ ws) = elim (consensus_key w.keys) [
  | none ↦ as_members ws
  | some key ↦
      let rest = as_members ws in
      if str_eq key "" then rest else record { account = w.account; key = key } ∷ rest
]

unfoldable pub witness_list : Option Release → List Witness → List Member
witness_list release ws = as_members (filter (is_candidate release) ws)

unfoldable pub sum : List ℕ → ℕ
sum [] = 0
sum (w ∷ weights) = w + sum weights

-- `Math.ceil(Number(distWeight.toFixed(2)))`, of (1 + total / 2) / 8
unfoldable pub required_weight : ℕ → ℕ
required_weight total = (round (record { num = 100 * (2 + total); den = 16 }) + 99) / 100

unfoldable pub next_epoch : Option ElectionResult → ℕ
next_epoch none = 0
next_epoch (some e) = e.epoch + 1

module _ (score : String → Option ℕ) where
  unfoldable pub weight_or_default : String → ℕ
  weight_or_default account = elim (score account) [ none ↦ default_weight | some weight ↦ weight ]

  unfoldable pub total_optional_weight : List Member → ℕ
  total_optional_weight members =
      sum
        (map (λ m. weight_or_default m.account) (filter (λ m. not (is_required m.account)) members))

  unfoldable pub member_weight : ℕ → Member → ℕ
  member_weight required m = if is_required m.account then required else weight_or_default m.account

  unfoldable pub generate_election :
      Option Release → List Witness → List ElectionResult → ℕ → String → ElectionData
  generate_election release ws db blk net_id =
      let members = witness_list release ws in
      let weights = map (member_weight (required_weight (total_optional_weight members))) members in
      record {
        members = members;
        epoch = next_epoch (get_valid_election_unchecked db (blk - 1));
        weights = weights;
        weight_total = sum weights;
        net_id = net_id;
      }
