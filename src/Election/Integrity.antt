-- ===== src/Election/Integrity.antt =====
-- What btIndexElection stores: an election that a majority signed, beside those it has.
use vsc_node.Prelude.{
  ℕ, suc, ◌*◌, ◌≤◌, ◌<◌, String, ◌≡◌, ◌≢◌, refl, ap, ◌∙◌, ◌⊎◌, inl, inr, List, [], ◌∷◌, ◌++◌,
  Option, none, some, Bool, true, false, ◌==◌, length, ◌&&◌, ◌||◌, arith, Bool-cases, Option-cases,
}
use vsc_node.Election.Store.{
  Member, ElectionResult, get_valid_election_unchecked, get_members_of_block,
}
use vsc_node.Election.Threshold.{minimal_required_election_votes}
use vsc_node.Election.Majority.{minimal_required_election_votes_bounds}
use vsc_node.Election.Indexing.{
  ElectionHeader, ElectionContent, Indexed, epoch_122_block_height, tally, total_votes,
  blocks_since, has_majority, is_of, has_election, new_election, upsert, circuit_keys,
  store_election, index_election,
}

upsert-append :
    (e : ElectionResult) (db : List ElectionResult)
    → has_election e.epoch e.net_id db ≡ false
    → upsert e db ≡ db ++ e ∷ []
unfolding upsert has_election
upsert-append e [] h = refl
upsert-append e (f ∷ db) h = elim (Bool-cases (is_of e.epoch e.net_id f)) [
  | inl same ↦ ground arith
  | inr other ↦ rw other (ap (λ l. f ∷ l) (upsert-append e db (ground arith)))
]

length-upsert :
    (e : ElectionResult) (db : List ElectionResult)
    → has_election e.epoch e.net_id db ≡ true
    → length (upsert e db) ≡ length db
unfolding upsert has_election
length-upsert e [] h = ground arith
length-upsert e (f ∷ db) h = elim (Bool-cases (is_of e.epoch e.net_id f)) [
  | inl same ↦ rw same refl
  | inr other ↦ rw other (ap suc (length-upsert e db (ground arith)))
]

-- With the falling threshold, a majority is more than half of the votes.
has_majority-more :
    (last : Option ElectionResult) (height : ℕ) (voted total : Option ℕ)
    → epoch_122_block_height ≤ height
    → has_majority last height voted total ≡ some true
    → (v : ℕ) × (voted ≡ some v) × (total_votes total < 2 * v)
unfolding has_majority
has_majority-more last height none total h e =
    elim (Option-cases
      (minimal_required_election_votes (blocks_since last height) (total_votes total))) [
        | inl missing ↦ ground arith
        | inr (needed, found) ↦ ground arith
      ]
has_majority-more last height (some v) total h e =
    elim (Option-cases
      (minimal_required_election_votes (blocks_since last height) (total_votes total))) [
        | inl missing ↦ ground arith
        | inr (needed, found) ↦
            let (half, _) =
              minimal_required_election_votes_bounds (blocks_since last height) (total_votes total)
                needed found in
            (v, refl, ground arith)
      ]

module _ (witnesses : ℕ → List Member) (bit : ℕ → Bool)
    (verify : List String → ElectionHeader → Bool) (content : String → ElectionContent) where
  store_election-stored :
      (db db' : List ElectionResult) (height : ℕ) (header : ElectionHeader) (proposer : String)
      (accepted : Bool)
      → store_election witnesses bit verify content db height header proposer accepted
        ≡ (Indexed.stored, db')
      → (accepted ≡ true)
        × (has_election header.epoch header.net_id db ≡ false)
        × (db' ≡ upsert (new_election (content header.content) height header proposer) db)
  unfolding store_election
  store_election-stored db db' height header proposer accepted h =
      elim (Bool-cases (has_election header.epoch header.net_id db)) [
        | inl known ↦ ground arith
        | inr new ↦ ground arith
      ]

  index_election-stored :
      (db db' : List ElectionResult) (height : ℕ) (header : ElectionHeader) (proposer : String)
      → index_election witnesses bit verify content db height header proposer
        ≡ (Indexed.stored, db')
      → let keys = circuit_keys witnesses bit verify content db height in
        let last = get_valid_election_unchecked db height in
        let counted = tally last (get_members_of_block db witnesses height) keys in
        (verify keys header ≡ true)
        × ((has_majority last height counted.0 counted.1 ≡ some true) ⊎ (header.epoch ≡ 0))
        × (has_election header.epoch header.net_id db ≡ false)
        × (db' ≡ upsert (new_election (content header.content) height header proposer) db)
  unfolding index_election
  index_election-stored db db' height header proposer h =
      let keys = circuit_keys witnesses bit verify content db height in
      let last = get_valid_election_unchecked db height in
      let counted = tally last (get_members_of_block db witnesses height) keys in
      elim (Option-cases (has_majority last height counted.0 counted.1)) [
        | inl missing ↦ ground arith
        | inr (majority, found) ↦
            let (accepted, new, update) =
              store_election-stored db db' height header proposer
                (verify keys header && (majority || header.epoch == 0)) (ground arith) in
            let cause : (has_majority last height counted.0 counted.1 ≡ some true)
                ⊎ (header.epoch ≡ 0) =
              elim (Bool-cases majority) [
                | inl held ↦ inl (found ∙ ap some held)
                | inr absent ↦ inr (ground arith)
              ] in
            (ground arith, cause, new, update)
      ]

  -- From block 85060812 on, an election other than that of epoch 0 is only stored when the circuit
  -- verifies over its content hash, epoch and network, and its signers hold more than half of the
  -- votes of the last election.
  pub index_election_majority :
      (db db' : List ElectionResult) (height : ℕ) (header : ElectionHeader) (proposer : String)
      → epoch_122_block_height ≤ height
      → header.epoch ≢ 0
      → index_election witnesses bit verify content db height header proposer
        ≡ (Indexed.stored, db')
      → let keys = circuit_keys witnesses bit verify content db height in
        let counted =
          tally
            (get_valid_election_unchecked db height)
            (get_members_of_block db witnesses height)
            keys in
        (verify keys header ≡ true)
        × (v : ℕ) × (counted.0 ≡ some v)
        × (total_votes counted.1 < 2 * v)
  index_election_majority db db' height header proposer late epoch h =
      let (verified, majority, _, _) = index_election-stored db db' height header proposer h in
      elim majority [
        | inl more ↦
            let (v, counted, half) = has_majority-more _ height _ _ late more in
            (verified, v, counted, half)
        | inr zero_epoch ↦ elim (epoch zero_epoch) [ ]
      ]

  -- When the content on IPFS carries the epoch and the network of the signed header, storing an
  -- election only ever adds one record behind those that are stored.
  pub index_election_keeps :
      (db db' : List ElectionResult) (height : ℕ) (header : ElectionHeader) (proposer : String)
      → (content header.content).epoch ≡ header.epoch
      → (content header.content).net_id ≡ header.net_id
      → index_election witnesses bit verify content db height header proposer
        ≡ (Indexed.stored, db')
      → db' ≡ db ++ new_election (content header.content) height header proposer ∷ []
  unfolding new_election
  index_election_keeps db db' height header proposer epoch net h =
      let (_, _, new, update) = index_election-stored db db' height header proposer h in
      update
      ∙ upsert-append (new_election (content header.content) height header proposer) db
          (rw (epoch, net) new)

  -- When the content carries the epoch and the network of an election that is stored already,
  -- though the header does not, the stored election is replaced: no record is added.
  pub index_election_replaces :
      (db db' : List ElectionResult) (height : ℕ) (header : ElectionHeader) (proposer : String)
      → has_election (content header.content).epoch (content header.content).net_id db ≡ true
      → index_election witnesses bit verify content db height header proposer
        ≡ (Indexed.stored, db')
      → (has_election header.epoch header.net_id db ≡ false) × (length db' ≡ length db)
  unfolding new_election
  index_election_replaces db db' height header proposer old h =
      let (_, _, new, update) = index_election-stored db db' height header proposer h in
      (
        new,
        ap length update
            ∙ length-upsert (new_election (content header.content) height header proposer) db old,
      )
