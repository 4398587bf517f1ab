-- ===== src/Block/Votes.antt =====
-- proposeBlock of services/new/witness/index.ts: the signatures that the proposer collects, and
-- the weight they must have before it broadcasts the block. The check of a BLS signature is a
-- parameter: a message says whether it succeeds.
use vsc_node.Prelude.{
  ℕ, ◌*◌, String, List, [], ◌∷◌, map, Option, none, some, Bool, false, ltb, ◌==◌, length,
  if◌then◌else◌, ◌>>=◌, ◌&&◌,
}
use vsc_node.Election.Store.{ElectionResult}
use vsc_node.Election.Weights.{includes, set_key, voted_weight}

-- A message of `drain`: whether it carries a signature, its public key if that parses, and
-- whether the signature verifies.
pub record SigMsg : Type 0 where
  pub has_sig : Bool
  pub signer : Option String
  pub verified : Bool

-- The key that a message adds to the circuit, if it adds one.
unfoldable pub accepted_key : List String → SigMsg → Option String
accepted_key keys msg = do
  key ← msg.signer
  if msg.has_sig && msg.verified && includes key keys then some key else none

-- The loop over the messages, which ends early when every member has signed.
unfoldable pub collect_votes : List String → List SigMsg → List String → List String
collect_votes keys [] agg = agg
collect_votes keys (msg ∷ msgs) agg = elim (accepted_key keys msg) [
  | none ↦ collect_votes keys msgs agg
  | some key ↦
      let rest = collect_votes keys msgs (set_key key agg) in
      if length (set_key key agg) == length keys then set_key key agg else rest
]

-- `votedWeight / totalWeight > 0.67`; a null total counts as 0.
unfoldable pub passes : Option ℕ → Option ℕ → Bool
passes none total = false
passes (some voted) none = ltb 0 (100 * voted)
passes (some voted) (some total) = ltb (67 * total) (100 * voted)

-- Whether the block is broadcast; null weights make the code throw when a signer is a member.
unfoldable pub wins_vote : ElectionResult → List String → Option Bool
wins_vote election agg = elim election.weights [
  | none ↦ elim (voted_weight election.members [] agg) [
    | none ↦ none
    | some voted ↦ some (passes (some voted) election.weight_total)
  ]
  | some weights ↦ some (passes (voted_weight election.members weights agg) election.weight_total)
]

-- The keys in the circuit when the loop ends: the proposer signs first.
unfoldable pub signers_of : ElectionResult → String → List SigMsg → List String
signers_of election own msgs =
    collect_votes (map (λ m. m.key) election.members) msgs (set_key own [])

-- From the proposer's own key and the messages to the decision. Two cases in which nothing is
-- broadcast are left out: a circuit that cannot be serialized, and a node with
-- BLOCK_BROADCAST_DISABLED.
unfoldable pub decide_broadcast : ElectionResult → String → List SigMsg → Option Bool
decide_broadcast election own msgs = wins_vote election (signers_of election own msgs)
