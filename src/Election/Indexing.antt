-- ===== src/Election/Indexing.antt =====
-- btIndexElection of services/new/witness/electionManager.ts: a signed election result that the
-- chain carries is checked against the last election and stored. The BLS check, the bit vector and
-- the content on IPFS are parameters.
use vsc_node.Prelude.{
  ℕ, ◌+◌, ◌-◌, ◌*◌, ◌%◌, String, List, [], ◌∷◌, map, Option, none, some, Bool, false, ltb, leb,
  ◌==◌, length, if◌then◌else◌, str_eq, ◌&&◌, ◌||◌, not,
}
use vsc_node.Election.Store.{
  Member, ElectionResult, get_valid_election_unchecked, get_members_of_block,
}
use vsc_node.Election.Weights.{set_key, voted_weight}
use vsc_node.Election.Threshold.{minimal_required_election_votes}

-- The JSON of the operation; `signature` is read by the parameters below.
pub record ElectionHeader : Type 0 where
  pub content : String
  pub epoch : ℕ
  pub net_id : String

-- What IPFS holds under `content`.
pub record ElectionContent : Type 0 where
  pub epoch : ℕ
  pub net_id : String
  pub members : List Member
  pub weights : Option (List ℕ)
  pub weight_total : ℕ

pub data Indexed : Type 0 where
  thrown : Indexed
  failed : Indexed
  exists_already : Indexed
  stored : Indexed

-- `epochLength`, and the height from which the threshold of votes falls with time.
abbrev pub epoch_length : ℕ
epoch_length = 7200

abbrev pub epoch_122_block_height : ℕ
epoch_122_block_height = 85060812

-- `BlsCircuit.deserialize`: the keys whose bit is set, in a `Map`; `bit` is `BitSet.get`.
unfoldable pub deserialize_keys : (ℕ → Bool) → ℕ → List String → List String → List String
deserialize_keys bit i [] agg = agg
deserialize_keys bit i (key ∷ keyset) agg =
    deserialize_keys bit (i + 1) keyset (if bit i then set_key key agg else agg)

-- `votedWeight` and `totalWeight`: by weight if the last election has weights, or else by count.
unfoldable pub tally : Option ElectionResult → List Member → List String → Option ℕ × Option ℕ
tally none members keys = (some (length keys), some (length members))
tally (some last) members keys = elim last.weights [
  | none ↦ (some (length keys), some (length members))
  | some weights ↦ (voted_weight members weights keys, last.weight_total)
]

-- The `total` of a test: null counts as 0.
unfoldable pub total_votes : Option ℕ → ℕ
total_votes none = 0
total_votes (some n) = n

unfoldable pub blocks_since : Option ElectionResult → ℕ → ℕ
blocks_since none height = height
blocks_since (some last) height = height - last.block_height

-- `votedWeight >= voteMajority`; `none` where the threshold throws.
unfoldable pub has_majority : Option ElectionResult → ℕ → Option ℕ → Option ℕ → Option Bool
has_majority last height voted total =
    if ltb height epoch_122_block_height
    then some (elim voted [ none ↦ false | some v ↦ leb (total_votes total * 2) (v * 3) ])
    else (elim (minimal_required_election_votes (blocks_since last height) (total_votes total)) [
      | none ↦ none
      | some needed ↦ some (elim voted [ none ↦ false | some v ↦ leb needed v ])
    ])

-- `findOne({epoch, net_id})`
unfoldable pub is_of : ℕ → String → ElectionResult → Bool
is_of epoch net_id e = e.epoch == epoch && str_eq e.net_id net_id

unfoldable pub has_election : ℕ → String → List ElectionResult → Bool
has_election epoch net_id [] = false
has_election epoch net_id (e ∷ db) = is_of epoch net_id e || has_election epoch net_id db

-- `fullContent.weight_total || null`
unfoldable pub or_null : ℕ → Option ℕ
or_null n = if n == 0 then none else some n

-- The record that the update sets.
unfoldable pub new_election : ElectionContent → ℕ → ElectionHeader → String → ElectionResult
new_election full height header proposer = record {
  block_height = height;
  epoch = full.epoch;
  net_id = full.net_id;
  members = full.members;
  weights = full.weights;
  weight_total = or_null full.weight_total;
  content = header.content;
  proposer = proposer;
}

-- `findOneAndUpdate({epoch, net_id}, {$set: ...}, {upsert: true})`
unfoldable pub upsert : ElectionResult → List ElectionResult → List ElectionResult
upsert e [] = e ∷ []
upsert e (f ∷ db) = if is_of e.epoch e.net_id f then e ∷ db else f ∷ upsert e db

module _ (witnesses : ℕ → List Member) (bit : ℕ → Bool)
    (verify : List String → ElectionHeader → Bool) (content : String → ElectionContent) where
  -- The signers, by the members of the block that starts the epoch.
  unfoldable pub circuit_keys : List ElectionResult → ℕ → List String
  circuit_keys db height =
      deserialize_keys bit 0
        (map (λ m. m.key) (get_members_of_block db witnesses (height - height % epoch_length))) []

  unfoldable pub store_election :
      List ElectionResult → ℕ → ElectionHeader → String → Bool → Indexed × List ElectionResult
  store_election db height header proposer accepted =
      if not accepted
      then (Indexed.failed, db)
      else (if has_election header.epoch header.net_id db then (Indexed.exists_already, db) else (
        Indexed.stored,
        upsert (new_election (content header.content) height header proposer) db,
      ))

  unfoldable pub index_election :
      List ElectionResult → ℕ → ElectionHeader → String → Indexed × List ElectionResult
  index_election db height header proposer =
      let keys = circuit_keys db height in
      let last = get_valid_election_unchecked db height in
      let (voted, total) = tally last (get_members_of_block db witnesses height) keys in
      elim (has_majority last height voted total) [
        | none ↦ (Indexed.thrown, db)
        | some majority ↦
            store_election db height header proposer
              (verify keys header && (majority || header.epoch == 0))
      ]
