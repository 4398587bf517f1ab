-- ===== src/Schedule/Rounds.antt =====
-- The bounds of a consensus round.
use vsc_node.Prelude.{ℕ, ◌+◌, ◌*◌, ◌%◌, ◌/◌, ◌-◌, ◌≤◌, ◌<◌, ◌≡◌, sym, ap, ◌∙◌, arith}
use native.Mathlib.Nat.{div-add-mod, div-eq_of_lt-le, mul-mod_left, mod-lt}
use vsc_node.Network.{Network}
use vsc_node.Schedule.Plan.{calculate_consensus_round}

-- A round that is as long as the network's rounds are, and begins at a multiple of its length.
abbrev pub round_size : Network → ℕ
round_size network = network.round_length * network.total_rounds

-- Rounding down to a multiple.
pub floor_mul : (h m : ℕ) → 0 < m → h - h % m ≡ h / m * m
floor_mul h m p = omega (arith, div-add-mod h m)

div_unique : (k q m : ℕ) → q * m ≤ k → k < q * m + m → k / m ≡ q
div_unique k q m lo hi =
    div-eq_of_lt-le m lo (let e : (q + 1) * m ≡ q * m + m = omega arith in rw e hi)

pub next_round : (h m : ℕ) → 0 < m → (h < h + (m - h % m)) × (h + (m - h % m) ≡ h - h % m + m)
next_round h m p = omega (arith, mod-lt h p, div-add-mod h m)

same_floor : (h k m : ℕ) → 0 < m → h - h % m ≤ k → k < h + (m - h % m) → k - k % m ≡ h - h % m
same_floor h k m p lo hi =
    floor_mul k m p
    ∙ ap (λ q. q * m)
        (div_unique k (h / m) m (rw (floor_mul h m p) at lo)
          (rw (← floor_mul h m p) (rw (← (next_round h m p).1) hi)))
    ∙ sym (floor_mul h m p)

-- The block lies in its round, which starts at a multiple of the round's size and is as long as
-- that; and every block of the round is given the same round.
pub calculate_consensus_round_bounds :
    (h : ℕ) (network : Network)
    → 0 < round_size network
    → let r = calculate_consensus_round h network in
      (r.past_round_height ≤ h)
      × (h < r.next_round_height)
      × (r.next_round_height ≡ r.past_round_height + round_size network)
      × (r.past_round_height % round_size network ≡ 0)
      × ((k : ℕ)
          → r.past_round_height ≤ k
          → k < r.next_round_height
          → (calculate_consensus_round k network).past_round_height ≡ r.past_round_height)
unfolding calculate_consensus_round
calculate_consensus_round_bounds h network pos =
    let m = round_size network in
    (
      omega arith,
      (next_round h m pos).0,
      (next_round h m pos).1,
      rw (floor_mul h m pos) (mul-mod_left (h / m) m),
      λ k lo hi. same_floor h k m pos lo hi,
    )
