-- ===== src/Schedule/Plan.antt =====
-- The plan of a consensus round: its bounds, the shuffle of the witnesses and the slots.
-- `seedrandom(seed)` is not part of the source: a generator is a function from the number of a
-- draw to the fraction that the draw returns.
use vsc_node.Prelude.{
  ℕ, zero, suc, ◌+◌, ◌-◌, ◌*◌, ◌/◌, ◌%◌, List, [], ◌∷◌, ◌++◌, Option, none, some, Bool, length,
  get_elem?, erase_idx, range, ltb, ◌==◌,
}
use vsc_node.Network.{Network}
use vsc_node.Election.Store.{Member}

pub record ConsensusRound : Type 0 where
  pub next_round_height : ℕ
  pub past_round_height : ℕ
  pub current_block_number : ℕ

unfoldable pub calculate_consensus_round : ℕ → Network → ConsensusRound
calculate_consensus_round block_number network =
    let mod_length = network.round_length * network.total_rounds in
    let mod3 = block_number % mod_length in
    record {
      next_round_height = block_number + (mod_length - mod3);
      past_round_height = block_number - mod3;
      current_block_number = block_number;
    }

-- A number in [0, 1): what one call of the generator returns.
pub record Draw : Type 0 where
  pub num : ℕ
  pub den : ℕ

-- `Math.floor(func() * (max - min + 1)) + min`
unfoldable pub seed_rand : Draw → ℕ → ℕ → ℕ
seed_rand d lo hi = d.num * (hi - lo + 1) / d.den + lo

-- `keys[r]`, and then `arr[keys[r]]`: undefined when out of range.
abbrev pub pick {ℓ} : {A : Type ℓ} → List A → Option ℕ → Option A
pick arr none = none
pick arr (some g) = get_elem? arr g

module _ {ℓ} {A : Type ℓ} (rng : ℕ → Draw) (arr : List A) where
  -- The rounds left, the number of the draw, the keys left and the response so far.
  unfoldable pub shuffle_loop : ℕ → ℕ → List ℕ → List (Option A) → List (Option A)
  shuffle_loop zero i keys resp = resp
  shuffle_loop (suc n) i keys resp =
      let r = seed_rand (rng i) 0 (length keys - 1) in
      shuffle_loop n (i + 1) (erase_idx keys r) (resp ++ pick arr (get_elem? keys r) ∷ [])

  unfoldable pub shuffle : List (Option A)
  shuffle = shuffle_loop (length arr) 0 (range 0 (length arr)) []

pub record Slot : Type 0 where
  pub witness : Option Member
  pub bn : ℕ
  pub bn_works : Bool
  pub in_past : Bool

-- What the function given to `map` in `applyBNSchedule` returns.
abbrev pub slot_at : Option Member → ℕ → Network → ConsensusRound → Slot
slot_at e index network round = record {
  witness = e;
  bn = round.past_round_height + index * network.round_length;
  bn_works = (round.past_round_height + index * network.round_length) % network.round_length == 0;
  in_past = ltb (round.past_round_height + index * network.round_length) round.current_block_number;
}

unfoldable pub apply_bn_schedule : List (Option Member) → ℕ → Network → ConsensusRound → List Slot
apply_bn_schedule [] index network round = []
apply_bn_schedule (e ∷ es) index network round =
    slot_at e index network round ∷ apply_bn_schedule es (index + 1) network round

-- `for (let x = 0; x < totalRounds; x++)`: the witnesses in turn.
unfoldable pub take_turns : List Member → ℕ → ℕ → List Member
take_turns nodes zero x = []
take_turns nodes (suc n) x =
    let rest = take_turns nodes n (x + 1) in
    elim (get_elem? nodes (x % length nodes)) [ none ↦ rest | some w ↦ w ∷ rest ]

pub record WeightedSchedule : Type 0 where
  pub schedule : List Slot
  pub valid_from : ℕ
  pub valid_to : ℕ

-- `slot?.bn || d`
abbrev pub bn_or : Option Slot → ℕ → ℕ
bn_or none d = d
bn_or (some s) d = elim (s.bn == 0) [ Bool.true ↦ d | Bool.false ↦ s.bn ]

unfoldable pub weighted_schedule :
    Network → List Member → (ℕ → Draw) → ConsensusRound → WeightedSchedule
weighted_schedule network nodes rng round =
    let out = take_turns nodes network.total_rounds 0 in
    let schedule = apply_bn_schedule (shuffle rng out) 0 network round in
    record {
      schedule = schedule;
      valid_from = bn_or (get_elem? schedule 0) 0;
      valid_to = bn_or (get_elem? schedule (length out - 1)) 1;
    }
