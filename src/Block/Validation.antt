-- ===== src/Block/Validation.antt =====
-- What a witness signs: a proposal of the witness whose slot it is, for a slot near the head.
use vsc_node.Prelude.{
  ℕ, ◌+◌, ◌%◌, ◌≤◌, ◌<◌, String, ◌≡◌, inl, inr, List, Option, none, some, find, ltb, ◌==◌, ◌&&◌,
  Option-cases, Bool-cases, arith,
}
use native.Mathlib.Nat.{div-add-mod'}
use vsc_node.Network.{Network, networks}
use vsc_node.Schedule.Plan.{Slot}
use vsc_node.Schedule.Cache.{WitnessSchedule, get_block_schedule}
use vsc_node.Block.Create.{Services, Block}
use vsc_node.Block.Proposals.{
  Proposal, Verdict, WitnessState, Node, slot_of, check_slot, account_is, in_slot, check_witness,
  check_height, handle_propose_block,
}

-- A slot that starts a round and lies within one round of the head.
abbrev pub IsNear : Network → ℕ → ℕ → Type 0
IsNear network head slot =
    (slot % network.round_length ≡ 0)
    × (head < slot + network.round_length)
    × (slot < head + network.round_length)

pub check_slot-IsNear :
    (network : Network) (head slot : ℕ)
    → check_slot network head slot ≡ none
    → IsNear network head slot
unfolding check_slot
check_slot-IsNear network head slot h = ground (arith, div-add-mod' slot network.round_length)

-- The peer is the witness of the slot in the schedule that the node computes or has kept.
pub record IsScheduled (node : Node) (from : String) (slot : ℕ) (kept : Option WitnessSchedule)
    : Type 0 where
  pub account : String
  pub schedule : List Slot
  pub s : Slot
  pub is_witness : node.witness_of from ≡ some account
  pub is_schedule : (get_block_schedule node.env slot kept).0 ≡ some schedule
  pub is_slot : find (λ s. s.bn == slot && account_is s.witness account) schedule ≡ some s

module _ {Vm : Type 0} (services : Services Vm) (network : Network) (node : Node) where
  in_slot-signed :
      (slot : ℕ) (message : Proposal) (account : String) (schedule : List Slot)
      (st st' : WitnessState) (block : Block)
      → in_slot services network node slot message account schedule st ≡ (Verdict.signed block, st')
      → (st'.last_valid_slot ≡ slot)
        × ((s : Slot) × (find (λ s. s.bn == slot && account_is s.witness account) schedule
              ≡ some s))
  unfolding in_slot
  in_slot-signed slot message account schedule st st' block h =
      elim (Option-cases (find (λ s. s.bn == slot && account_is s.witness account) schedule)) [
        | inl missing ↦ ground arith
        | inr (s, found) ↦ (ground arith, (s, found))
      ]

  check_witness-signed :
      (from : String) (slot : ℕ) (message : Proposal) (st st' : WitnessState) (block : Block)
      → check_witness services network node from slot message st ≡ (Verdict.signed block, st')
      → (st'.last_valid_slot ≡ slot) × IsScheduled node from slot st.witness_schedule
  unfolding check_witness
  check_witness-signed from slot message st st' block h =
      let (schedule, cache) = get_block_schedule node.env slot st.witness_schedule in
      elim (Option-cases schedule) [
        | inl failed ↦ ground arith
        | inr (slots, got) ↦ elim (Option-cases (node.witness_of from)) [
          | inl missing ↦ ground arith
          | inr (account, known) ↦
              let (last, (s, is_slot)) =
                in_slot-signed slot message account slots (record st { witness_schedule = cache })
                  st' block (ground arith) in
              (
                last,
                record {
                  account = account;
                  schedule = slots;
                  s = s;
                  is_witness = known;
                  is_schedule = got;
                  is_slot = is_slot;
                },
              )
        ]
      ]

  check_height-signed :
      (from : String) (slot : ℕ) (message : Proposal) (st st' : WitnessState) (block : Block)
      → check_height services network node from slot message st ≡ (Verdict.signed block, st')
      → IsNear network node.head_height slot
        × (slot ≤ node.last_parsed)
        × (st'.last_valid_slot ≡ slot)
        × IsScheduled node from slot st.witness_schedule
  unfolding check_height
  check_height-signed from slot message st st' block h =
      elim (Option-cases (check_slot network node.head_height slot)) [
        | inl near ↦ elim (Bool-cases (ltb node.last_parsed slot)) [
          | inl late ↦ ground arith
          | inr parsed ↦
              let (last, scheduled) =
                check_witness-signed from slot message st st' block (ground arith) in
              (check_slot-IsNear network node.head_height slot near, ground arith, last, scheduled)
        ]
        | inr (r, refused) ↦ ground arith
      ]

  -- When a node signs a proposal, the slot is a multiple of the round length, less than one round
  -- away from the node's head and already parsed; the peer is the witness that the block schedule
  -- names for the slot; and the slot is recorded as the last valid one.
  pub handle_propose_block-signed :
      (from : String) (message : Proposal) (st st' : WitnessState) (block : Block)
      → networks node.env.network_id ≡ some network
      → handle_propose_block services node from message st ≡ (Verdict.signed block, st')
      → let slot = slot_of network node.head_height message in
        IsNear network node.head_height slot
        × (slot ≤ node.last_parsed)
        × (st'.last_valid_slot ≡ slot)
        × IsScheduled node from slot st.witness_schedule
  unfolding handle_propose_block
  handle_propose_block-signed from message st st' block known h =
      check_height-signed from (slot_of network node.head_height message) message st st' block
        (ground arith)
