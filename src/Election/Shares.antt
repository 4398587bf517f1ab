-- ===== src/Election/Shares.antt =====
-- How the weight of a generated election is divided between the required nodes and the others.
use native.Mathlib.Nat.{mul-le-mul_right}
use vsc_node.Prelude.{
  ℕ, ◌+◌, ◌*◌, ◌/◌, ◌<◌, ◌≤◌, String, ◌≡◌, refl, List, [], ◌∷◌, map, Option, Bool, not, inl, inr,
  if◌then◌else◌, length, arith, Bool-cases,
}
use vsc_node.Election.Store.{Member, ElectionResult}
use vsc_node.Election.Threshold.{round}
use vsc_node.Election.Generate.{
  Release, Witness, is_required, witness_list, sum, required_weight, total_optional_weight,
  member_weight, generate_election,
}

-- The weight that the members of one kind hold, by their position in the list of weights.
unfoldable pub held : (String → Bool) → List Member → List ℕ → ℕ
held p [] weights = 0
held p (m ∷ members) [] = 0
held p (m ∷ members) (w ∷ weights) =
    let rest = held p members weights in if p m.account then w + rest else rest

unfoldable pub count_required : List Member → ℕ
count_required [] = 0
count_required (m ∷ members) =
    let rest = count_required members in if is_required m.account then 1 + rest else rest

-- For every total weight of the other nodes, the weight of a required node is an eighth of one more
-- than half of that total, rounded up: the rounding to two decimals in between changes nothing.
pub required_weight_exact : (total : ℕ) → required_weight total ≡ (total + 17) / 16
unfolding required_weight round
required_weight_exact total = omega arith

module _ (score : String → Option ℕ) where
  held-optional :
      (required : ℕ) (members : List Member)
      → held (λ a. not (is_required a)) members (map (member_weight score required) members)
        ≡ total_optional_weight score members
  unfolding held total_optional_weight member_weight sum
  held-optional required [] = refl
  held-optional required (m ∷ members) = elim (Bool-cases (is_required m.account)) [
    | inl needed ↦ rw needed (held-optional required members)
    | inr optional ↦ rw (optional, held-optional required members) refl
  ]

  held-required :
      (required : ℕ) (members : List Member)
      → held is_required members (map (member_weight score required) members)
        ≡ count_required members * required
  unfolding held count_required member_weight
  held-required required [] = ground arith
  held-required required (m ∷ members) = elim (Bool-cases (is_required m.account)) [
    | inl needed ↦ rw (needed, held-required required members) (ground arith)
    | inr optional ↦ rw optional (held-required required members)
  ]

  sum-member_weight :
      (required : ℕ) (members : List Member)
      → sum (map (member_weight score required) members)
        ≡ count_required members * required + total_optional_weight score members
  unfolding sum count_required member_weight total_optional_weight
  sum-member_weight required [] = ground arith
  sum-member_weight required (m ∷ members) = elim (Bool-cases (is_required m.account)) [
    | inl needed ↦ rw (needed, sum-member_weight required members) (ground arith)
    | inr optional ↦ rw (optional, sum-member_weight required members) (ground arith)
  ]

  length-member_weight :
      (required : ℕ) (members : List Member)
      → length (map (member_weight score required) members) ≡ length members
  length-member_weight required [] = refl
  length-member_weight required (m ∷ members) = rw (length-member_weight required members) refl

  -- The members of a generated election each have one weight, by position, and the total is what
  -- the required nodes and the others hold together.
  pub generate_election_total :
      (release : Option Release) (ws : List Witness) (db : List ElectionResult) (blk : ℕ)
      (net_id : String)
      → let e = generate_election score release ws db blk net_id in
        (length e.weights ≡ length e.members)
        × (e.weight_total
            ≡ held is_required e.members e.weights
              + held (λ a. not (is_required a)) e.members e.weights)
  unfolding generate_election
  generate_election_total release ws db blk net_id =
      let members = witness_list release ws in
      let required = required_weight (total_optional_weight score members) in
      (
        length-member_weight required members,
        rw
            (
              sum-member_weight required members,
              held-required required members,
              held-optional required members,
            )
            refl,
      )

  -- When the election has all eight required nodes, the other nodes hold less than two thirds of
  -- the total weight.
  pub generate_election_optional :
      (release : Option Release) (ws : List Witness) (db : List ElectionResult) (blk : ℕ)
      (net_id : String)
      → count_required (witness_list release ws) ≡ 8
      → let e = generate_election score release ws db blk net_id in
        3 * held (λ a. not (is_required a)) e.members e.weights < 2 * e.weight_total
  unfolding generate_election
  generate_election_optional release ws db blk net_id all =
      let members = witness_list release ws in
      let total = total_optional_weight score members in
      let exact : required_weight total ≡ (total + 17) / 16 = required_weight_exact total in
      rw
        (
          sum-member_weight (required_weight total) members,
          held-optional (required_weight total) members,
          all,
        )
        (omega arith)

  -- When the required nodes in the election are at most eight, and the other nodes hold a weight of
  -- 18 or more, the required nodes hold less than half of the total weight.
  pub generate_election_required :
      (release : Option Release) (ws : List Witness) (db : List ElectionResult) (blk : ℕ)
      (net_id : String)
      → count_required (witness_list release ws) ≤ 8
      → 18
        ≤ held
            (λ a. not (is_required a))
            (generate_election score release ws db blk net_id).members
            (generate_election score release ws db blk net_id).weights
      → let e = generate_election score release ws db blk net_id in
        2 * held is_required e.members e.weights < e.weight_total
  unfolding generate_election
  generate_election_required release ws db blk net_id most enough =
      let members = witness_list release ws in
      let total = total_optional_weight score members in
      let required = required_weight total in
      let exact : required_weight total ≡ (total + 17) / 16 = required_weight_exact total in
      let enough' : 18 ≤ total = rw (held-optional required members) at enough in
      let share : count_required members * required ≤ 8 * required =
        mul-le-mul_right required most in
      rw (sum-member_weight required members, held-required required members) (omega arith)
