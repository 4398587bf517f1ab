-- ===== src/Schedule/Slots.antt =====
-- The slots of a round: every slot height of the round has one, and a witness proposes in it.
use native.Mathlib.Nat.{le_of_mul-le-mul_right, mod-lt, div-add-mod', add-mul-mod_self_right}
use vsc_node.Prelude.{
  Bool-cases, ==_iff, ℕ, zero, suc, ◌+◌, ◌-◌, ◌*◌, ◌/◌, ◌%◌, ◌<◌, ◌≤◌, ◌≡◌, refl, sym, ap, subst,
  ◌∙◌, List, [], ◌∷◌, map, Option, some, true, false, length, get_elem?, get_elem?-some, find,
  range, All, arith, ◌==◌, inl, inr,
}
use vsc_node.Network.{Network}
use vsc_node.Election.Store.{Member}
use vsc_node.Schedule.Plan.{
  ConsensusRound, calculate_consensus_round, Draw, shuffle, Slot, slot_at, apply_bn_schedule,
  take_turns, weighted_schedule,
}
use vsc_node.Schedule.Shuffle.{IsDraw, shuffle-All, length-shuffle}
use vsc_node.Schedule.Rounds.{floor_mul, next_round}

-- The member stands in the list.
abbrev pub IsIn : Member → List Member → Type 0
IsIn w nodes = (i : ℕ) × (get_elem? nodes i ≡ some w)

take_turns-All :
    (nodes : List Member) (n x : ℕ)
    → 0 < length nodes
    → (length (take_turns nodes n x) ≡ n) × All (λ w. IsIn w nodes) (take_turns nodes n x)
unfolding take_turns
take_turns-All nodes zero x h = (refl, tt)
take_turns-All nodes (suc n) x h =
    let (w, e) = get_elem?-some nodes (x % length nodes) (mod-lt x h) in
    let (l, a) = take_turns-All nodes n (x + 1) h in
    rw (e, take_turns) (ap suc l, ((x % length nodes, e), a))

All-get_elem? {ℓ κ} :
    {A : Type ℓ} (P : A → Type κ) (xs : List A) (k : ℕ)
    → All P xs
    → k < length xs
    → (a : A) × (get_elem? xs k ≡ some a) × P a
All-get_elem? P [] k h lt = elim lt [ ]
All-get_elem? P (x ∷ xs) zero h lt = (x, refl, h.0)
All-get_elem? P (x ∷ xs) (suc k) h lt = All-get_elem? P xs k h.1 (omega arith)

-- A round's slots, in order: one each `round_length` blocks, all at a multiple of it.
slots_bn :
    (es : List (Option Member)) (k : ℕ) (network : Network) (round : ConsensusRound)
    → map (λ (s : Slot). s.bn) (apply_bn_schedule es k network round)
      ≡ map (λ j. round.past_round_height + j * network.round_length) (range k (length es))
unfolding apply_bn_schedule
slots_bn [] k network round = refl
slots_bn (e ∷ es) k network round =
    ap (λ xs. (round.past_round_height + k * network.round_length) ∷ xs)
      (slots_bn es (k + 1) network round)

slots_work :
    (es : List (Option Member)) (k : ℕ) (network : Network) (round : ConsensusRound)
    → round.past_round_height % network.round_length ≡ 0
    → All (λ (s : Slot). s.bn_works ≡ true) (apply_bn_schedule es k network round)
unfolding apply_bn_schedule
slots_work [] k network round h = tt
slots_work (e ∷ es) k network round h =
    let z : (round.past_round_height + k * network.round_length) % network.round_length ≡ 0 =
      add-mul-mod_self_right _ _ _ ∙ h in
    (rw z, slots_work es (k + 1) network round h)

==_refl : (a : ℕ) → (a == a) ≡ true
==_refl a = ground arith

sub_self : (a : ℕ) → a - a ≡ 0
sub_self a = omega arith

earlier_slot : (b l k j : ℕ) → 0 < l → k < j → (b + k * l == b + j * l) ≡ false
earlier_slot b l k j p h = let lt : k * l < j * l = grind arith in ground arith

-- Looking for the slot of a height of the round finds it.
find_slot :
    (es : List (Option Member)) (k j : ℕ) (network : Network) (round : ConsensusRound)
    → 0 < network.round_length
    → k ≤ j
    → j < k + length es
    → (s : Slot) × (find
          (λ (s : Slot). s.bn == round.past_round_height + j * network.round_length)
          (apply_bn_schedule es k network round)
        ≡ some s)
      × (get_elem? es (j - k) ≡ some s.witness)
      × (s.bn ≡ round.past_round_height + j * network.round_length)
unfolding apply_bn_schedule
find_slot [] k j network round p lo hi = absurd (omega arith)
find_slot (e ∷ es) k j network round p lo hi = elim (Bool-cases (k == j)) [
  | inl same ↦
      let eq : k ≡ j = (==_iff k j).0 same in
      (
        slot_at e k network round,
        rw (eq, ==_refl (round.past_round_height + j * network.round_length)),
        rw (eq, sub_self j),
        rw eq,
      )
  | inr other ↦
      let lt : k < j = ground arith in
      let miss : (round.past_round_height + k * network.round_length
            == round.past_round_height + j * network.round_length)
          ≡ false =
        earlier_slot round.past_round_height network.round_length k j p lt in
      let (s, found, w, b) = find_slot es (k + 1) j network round p (omega arith) (omega arith) in
      let step : j - k ≡ suc (j - (k + 1)) = omega arith in (s, rw miss found, rw step w, b)
]

lt_of_mul : (a b l : ℕ) → a * l < b * l → a < b
lt_of_mul a b l h = grind arith

some_inj : {a b : Option Member} → some a ≡ some b → a ≡ b
some_inj e = cc

-- A height of the round, counted in slots from the round's start.
slot_index :
    (h l t : ℕ) → 0 < l → 0 < t → h % l ≡ 0 → (j : ℕ) × (h ≡ h - h % (l * t) + j * l) × (j < t)
slot_index h l t pl pt z =
    let q = h / (l * t) in
    let n = h / l in
    let pm : 0 < l * t = grind arith in
    let start : h - h % (l * t) ≡ q * t * l =
      floor_mul h (l * t) pm ∙ (let e : q * (l * t) ≡ q * t * l = grind arith in e) in
    let whole : h ≡ n * l = omega (arith, div-add-mod' h l) in
    let lo : q * t * l ≤ n * l = omega arith in
    let hi : n * l < (q * t + t) * l = let m = (next_round h (l * t) pm) in grind arith in
    let lo' : q * t ≤ n = le_of_mul-le-mul_right {m = q * t} {n = n} {k = l} lo pl in
    let hi' : n < q * t + t = lt_of_mul n (q * t + t) l hi in
    let split : n ≡ q * t + (n - q * t) = omega arith in
    (n - q * t, omega (arith, whole, start, ap (λ x. x * l) split), omega arith)

past_height :
    (h : ℕ) (network : Network)
    → (calculate_consensus_round h network).past_round_height
      ≡ h - h % (network.round_length * network.total_rounds)
unfolding calculate_consensus_round
past_height h network = refl

-- An element of the shuffled schedule: a witness of the list.
abbrev pub Chosen : List Member → Option Member → Type 0
Chosen nodes o = (w : Member) × (o ≡ some w) × IsIn w nodes

chosen :
    (nodes out : List Member)
    → All (λ w. IsIn w nodes) out
    → (k : ℕ) → k < length out
    → Chosen nodes (get_elem? out k)
chosen nodes out all k lt =
    let (w, e, i) = All-get_elem? (λ w. IsIn w nodes) out k all lt in (w, e, i)

-- In a network whose rounds are not empty, with at least one witness and any numbers drawn in
-- [0, 1), every height of the round that is a multiple of the slot length has a slot, and one of
-- the witnesses proposes in it. So `slotTracker` never fails to find the slot of such a height.
pub weighted_schedule_covers :
    (network : Network) (nodes : List Member) (rng : ℕ → Draw) (h : ℕ)
    → 0 < network.round_length
    → 0 < network.total_rounds
    → 0 < length nodes
    → ((k : ℕ) → IsDraw (rng k))
    → h % network.round_length ≡ 0
    → (s : Slot) × (w : Member) × (find
          (λ (s : Slot). s.bn == h)
          (weighted_schedule network nodes rng (calculate_consensus_round h network)).schedule
        ≡ some s)
      × (s.bn ≡ h)
      × (s.witness ≡ some w)
      × IsIn w nodes
unfolding weighted_schedule
weighted_schedule_covers network nodes rng h pl pt pn draws aligned =
    let out = take_turns nodes network.total_rounds 0 in
    let round = calculate_consensus_round h network in
    let es = shuffle rng out in
    let (len, all) = take_turns-All nodes network.total_rounds 0 pn in
    let (j, at_h, lt) = slot_index h network.round_length network.total_rounds pl pt aligned in
    let start : round.past_round_height ≡ h - h % (network.round_length * network.total_rounds) =
      past_height h network in
    let at_slot : round.past_round_height + j * network.round_length ≡ h = rw start (sym at_h) in
    let len' : length es ≡ network.total_rounds = length-shuffle rng out ∙ len in
    let (s, found, here, b) = find_slot es 0 j network round pl (omega arith) (omega arith) in
    let (o, got, (w, some_w, in_nodes)) =
      All-get_elem? (Chosen nodes) es (j - 0)
        (shuffle-All rng out (Chosen nodes) draws (chosen nodes out all)) (omega arith) in
    (
      s,
      w,
      subst (λ x. find (λ (s : Slot). s.bn == x) (apply_bn_schedule es 0 network round) ≡ some s)
          at_slot found,
      b ∙ at_slot,
      some_inj (sym here ∙ got) ∙ some_w,
      in_nodes,
    )
