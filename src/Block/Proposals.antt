-- ===== src/Block/Proposals.antt =====
-- services/new/witness/index.ts: handleProposeBlockMsg, where a witness checks and signs the proposal
-- of another.
use vsc_node.Prelude.{
  ℕ, ◌+◌, ◌-◌, ◌%◌, String, List, [], ◌∷◌, Option, none, some, Bool, false, find, if◌then◌else◌,
  str_eq, ltb, ◌==◌, not, ◌&&◌, ◌>>=◌,
}
use vsc_node.Network.{Network, networks}
use vsc_node.Election.Store.{Member}
use vsc_node.Schedule.Plan.{Slot}
use vsc_node.Schedule.Cache.{Env, WitnessSchedule, get_block_schedule}
use vsc_node.Ledger.Context.{Tx}
use vsc_node.Block.Create.{Services, Block, create_block}

-- The message of a proposer. `full_inputs` is what is left of `block_full` when it parses.
pub record Proposal : Type 0 where
  pub slot_height : Option ℕ
  pub tx_ids : Option (List String)
  pub full_inputs : Option (List String)

pub data Refusal : Type 0 where
  not_a_slot future too_old lagging unknown_witness wrong_slot : Refusal
  no_transactions unknown_transaction empty_block : Refusal

pub data Verdict : Type 0 where
  refused : Refusal → Verdict
  thrown : Verdict
  signed : Block → Verdict

-- The state of the service that the handlers change.
pub record WitnessState : Type 0 where
  pub witness_schedule : Option WitnessSchedule
  pub last_valid_slot : ℕ

-- What the handlers read: the chain's head, the height that is parsed when the waiting ends, the
-- witness of a peer, the end of the last block and its id, the unconfirmed transactions by id, and
-- the included ones between two heights.
pub record Node : Type 0 where
  pub env : Env
  pub head_height : ℕ
  pub last_parsed : ℕ
  pub witness_of : String → Option String
  pub last_end_block : Option ℕ
  pub last_block_id : Option String
  pub unconfirmed : String → Option Tx
  pub included : ℕ → ℕ → List Tx

-- `message?.slotHeight || (block_height - (block_height % roundLength))`
unfoldable pub slot_of : Network → ℕ → Proposal → ℕ
slot_of network head message = elim message.slot_height [
  | none ↦ head - head % network.round_length
  | some n ↦ if n == 0 then head - head % network.round_length else n
]

-- The three tests of the slot's height. The code compares with `head + length - 1` and
-- `head - length + 1`, which may be negative; the terms stand on the other side here.
unfoldable pub check_slot : Network → ℕ → ℕ → Option Refusal
check_slot network head slot =
    if not (slot == slot - slot % network.round_length)
    then some Refusal.not_a_slot
    else (if ltb (head + network.round_length) (slot + 1)
        then some Refusal.future
        else (if ltb (slot + network.round_length) (head + 1) then some Refusal.too_old else none))

unfoldable pub account_is : Option Member → String → Bool
account_is none account = false
account_is (some m) account = str_eq m.account account

unfoldable pub start_height : Network → Node → ℕ
start_height network node = elim node.last_end_block [ none ↦ network.genesis_day | some n ↦ n + 1 ]

-- The proposed ids: `txIds` if it parses, or else those of `block_full`.
unfoldable pub proposed_ids : Proposal → Option (List String)
proposed_ids message = elim message.tx_ids [ some ids ↦ some ids | none ↦ message.full_inputs ]

-- Every id is that of an unconfirmed transaction, or there is no list.
unfoldable pub gather : (String → Option Tx) → List String → Option (List Tx)
gather find_tx [] = some []
gather find_tx (id ∷ ids) = do tx ← find_tx id; txs ← gather find_tx ids; some (tx ∷ txs)

module _ {Vm : Type 0} (services : Services Vm) where
  unfoldable pub sign_block : Option Block → Verdict
  sign_block none = thrown
  sign_block (some block) = elim block.txs [
    | [] ↦ refused Refusal.empty_block
    | entry ∷ more ↦ signed block
  ]

  unfoldable pub verify_block : Network → Node → ℕ → Proposal → Verdict
  verify_block network node slot message = elim (proposed_ids message) [
    | none ↦ refused Refusal.no_transactions
    | some ids ↦ elim (gather node.unconfirmed ids) [
      | none ↦ refused Refusal.unknown_transaction
      | some candidates ↦ sign_block (
          create_block services candidates (node.included (start_height network node) slot)
            node.last_block_id)
    ]
  ]

  unfoldable pub in_slot :
      Network → Node → ℕ → Proposal → String → List Slot → WitnessState → Verdict × WitnessState
  in_slot network node slot message account schedule st =
      elim (find (λ s. s.bn == slot && account_is s.witness account) schedule) [
        | none ↦ (refused Refusal.wrong_slot, st)
        | some s ↦ (verify_block network node slot message, record st { last_valid_slot = slot })
      ]

  -- The call for the schedule comes first: when it throws, the witness is not looked up.
  unfoldable pub check_witness :
      Network → Node → String → ℕ → Proposal → WitnessState → Verdict × WitnessState
  check_witness network node from slot message st =
      let (schedule, cache) = get_block_schedule node.env slot st.witness_schedule in
      let st' = record st { witness_schedule = cache } in
      elim schedule as (λ s. Verdict × WitnessState) [
        | none ↦ (thrown, st')
        | some slots ↦ elim (node.witness_of from) [
          | none ↦ (refused Refusal.unknown_witness, st')
          | some account ↦ in_slot network node slot message account slots st'
        ]
      ]

  unfoldable pub check_height :
      Network → Node → String → ℕ → Proposal → WitnessState → Verdict × WitnessState
  check_height network node from slot message st = elim (check_slot network node.head_height slot) [
    | some r ↦ (refused r, st)
    | none ↦
        if ltb node.last_parsed slot
        then (refused Refusal.lagging, st)
        else check_witness network node from slot message st
  ]

  unfoldable pub handle_propose_block :
      Node → String → Proposal → WitnessState → Verdict × WitnessState
  handle_propose_block node from message st = elim (networks node.env.network_id) [
    | none ↦ (thrown, st)
    | some network ↦
        check_height network node from (slot_of network node.head_height message) message st
  ]
