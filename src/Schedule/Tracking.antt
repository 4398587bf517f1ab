-- ===== src/Schedule/Tracking.antt =====
-- The slot tracker reports a witness of the schedule, and does not fail.
use vsc_node.Prelude.{
  ℕ, ◌-◌, ◌%◌, ◌/◌, ◌*◌, ◌<◌, ◌≤◌, ◌≢◌, ◌⊎◌, refl, none, String, ◌≡◌, sym, ap, ◌∙◌, subst, inl, inr,
  List, [], ◌∷◌, Option, some, arith, Bool-cases, Option-cases, ◌==◌, ==_iff, leb, length, find,
}
use native.Mathlib.Nat.{div-add-mod', mul-mod_left}
use vsc_node.Network.{Network, networks}
use vsc_node.Election.Store.{Member, ElectionResult, get_valid_election_unchecked}
use vsc_node.Schedule.Plan.{calculate_consensus_round, Slot, weighted_schedule}
use vsc_node.Schedule.Shuffle.{IsDraw}
use vsc_node.Schedule.Slots.{Chosen, weighted_schedule_covers}
use vsc_node.Schedule.Cache.{
  WitnessSchedule, Env, compute_schedule, Report, report_scheduled, report_schedule, report_slot,
  track_slot, blocks_to_wait,
}
use vsc_node.Schedule.Caching.{
  slots_of, IsConsistent, IsCoherent, get_block_schedule_fresh, hash_of, with_hash, members_at,
}

-- A slot found in a schedule is found in any with the same slots.
find_same :
    (h : ℕ) (s t : List Slot) (x : Slot)
    → slots_of t ≡ slots_of s
    → find (λ (s : Slot). s.bn == h) s ≡ some x
    → (y : Slot) × (find (λ (s : Slot). s.bn == h) t ≡ some y) × (y.witness ≡ x.witness)
find_same h [] t x e f = cc
find_same h (a ∷ s) [] x e f = cc
find_same h (a ∷ s) (b ∷ t) x e f =
    let head_bn : b.bn ≡ a.bn = cc in
    let head_witness : b.witness ≡ a.witness = cc in
    let rest : slots_of t ≡ slots_of s = cc in
    elim (Bool-cases (a.bn == h)) [
      | inl hit ↦
          let same : a ≡ x = ground arith in
          (b, rw (head_bn, hit), head_witness ∙ ap (λ (w : Slot). w.witness) same)
      | inr miss ↦
          let (y, g, w) = find_same h s t x rest (ground arith) in (y, rw (head_bn, miss) g, w)
    ]

-- A member of the election, who is the witness of the slot at a height in a schedule.
abbrev pub IsOwner : List Member → List Slot → ℕ → Option Member → Type 0
IsOwner nodes plan h o =
    Chosen nodes o
    × ((x : Slot) × ((find (λ (s : Slot). s.bn == h) plan ≡ some x) × (o ≡ x.witness)))

-- What may be reported of a slot whose stored block has the given proposer.
abbrev pub IsExpected : List Member → List Slot → Option String → ℕ → ℕ → Report → Type 0
IsExpected nodes plan proposer last h Report.nothing = ⊥
IsExpected nodes plan proposer last h (Report.anchored p) = proposer ≡ some p
IsExpected nodes plan proposer last h (Report.missed o) =
    (proposer ≡ none) × (last ≢ h) × IsOwner nodes plan h o
IsExpected nodes plan proposer last h (Report.unsigned o) =
    (proposer ≡ none) × (last ≡ h) × IsOwner nodes plan h o
IsExpected nodes plan proposer last h Report.failed = ⊥

-- What the tracker may report at a height: of the slot five blocks before it when that is due, and
-- the node is not five blocks behind.
abbrev pub IsTracked :
    Network → List Member → List Slot → Option String → ℕ → ℕ → ℕ → Report → Type 0
IsTracked network nodes plan proposer lag last height r =
    ((r ≡ Report.nothing)
      × ((height % network.round_length ≢ blocks_to_wait) ⊎ (blocks_to_wait ≤ lag)))
    ⊎ ((height % network.round_length ≡ blocks_to_wait)
        × (lag < blocks_to_wait)
        × IsExpected nodes plan proposer last (height - blocks_to_wait) r)

reported :
    (nodes : List Member) (plan : List Slot) (last h : ℕ) (s : Slot)
    → IsOwner nodes plan h s.witness
    → IsExpected nodes plan none last h (report_scheduled last h (some s))
unfolding report_scheduled
reported nodes plan last h s owner = elim (Bool-cases (last == h)) [
  | inl now ↦ rw now (refl, (==_iff last h).0 now, owner)
  | inr before ↦ rw before (refl, (λ e. ground (arith, ==_iff last h)), owner)
]

slot_height : (h l : ℕ) → 0 < l → h % l ≡ 5 → (h - 5) % l ≡ 0
slot_height h l p e =
    let q : h - 5 ≡ h / l * l = omega (arith, div-add-mod' h l) in rw q (mul-mod_left (h / l) l)

module _ (env : Env) (network : Network) (proposer_of : ℕ → Option String) where
  report_slot-IsExpected :
      (last h : ℕ) (cache : Option WitnessSchedule) (e : ElectionResult) (s : List Slot) (x : Slot)
      → networks env.network_id ≡ some network
      → IsConsistent env network
      → IsCoherent env network cache
      → get_valid_election_unchecked env.election_db h ≡ some e
      → compute_schedule env network h ≡ some s
      → find (λ (s : Slot). s.bn == h) s ≡ some x
      → Chosen e.members x.witness
      → IsExpected e.members s (proposer_of h) last h (report_slot env proposer_of last h cache).0
  unfolding report_slot report_schedule
  report_slot-IsExpected last h cache e s x net con coh f c found chosen =
      elim (Option-cases (proposer_of h)) [
        | inl absent ↦
            let (out, got, same, _) =
              get_block_schedule_fresh env network h cache e s net con coh f c in
            let (y, here, w) = find_same h s out x same found in
            rw (absent, report_slot, got, report_schedule, here)
              (reported e.members s last h y
                (subst (Chosen e.members) (sym w) chosen, (x, (found, w))))
        | inr (proposer, stored) ↦ rw (stored, report_slot) refl
      ]

  -- On a configured network with a valid election that has members, where stored elections of one
  -- epoch have the same members, with the block before the round stored, any generator that draws
  -- from [0, 1), and a coherent kept schedule, the slot tracker ends without an error. It reports
  -- nothing unless the block is the fifth of a slot and the node is less than five blocks behind.
  -- Else it reports the proposer of the slot's stored block; and when there is none, the witness of
  -- the slot in the schedule of the round, a member of the election, as short of signatures when the
  -- slot is the last valid one, and as having missed the slot when it is not.
  pub track_slot-IsExpected :
      (lag last height : ℕ) (cache : Option WitnessSchedule) (e : ElectionResult) (hash : String)
      → 0 < network.round_length
      → 0 < network.total_rounds
      → 0 < length e.members
      → ((seed : String) (k : ℕ) → IsDraw (env.seedrandom seed k))
      → networks env.network_id ≡ some network
      → IsConsistent env network
      → IsCoherent env network cache
      → get_valid_election_unchecked env.election_db (height - blocks_to_wait) ≡ some e
      → hash_of env network (height - blocks_to_wait) ≡ some hash
      → IsTracked network e.members
          (weighted_schedule network e.members
            (env.seedrandom hash)
            (calculate_consensus_round (height - blocks_to_wait) network)).schedule
          (proposer_of (height - blocks_to_wait))
          lag
          last
          height
          (track_slot env network proposer_of lag last height cache).0
  unfolding track_slot
  track_slot-IsExpected lag last height cache e hash pl pt pm draws net con coh f got =
      elim (Bool-cases (height % network.round_length == blocks_to_wait)) [
        | inr other ↦
            rw other
              (inl (refl, inl (λ e. ground (arith, ==_iff (height % network.round_length) 5))))
        | inl due ↦ elim (Bool-cases (leb blocks_to_wait lag)) [
          | inl behind ↦ rw (due, behind) (inl (refl, inr (ground arith)))
          | inr close ↦
              let h = height - blocks_to_wait in
              let s =
                (weighted_schedule network e.members (env.seedrandom hash)
                  (calculate_consensus_round h network)).schedule in
              let (x, w, found, b, named, member) =
                weighted_schedule_covers network e.members (env.seedrandom hash) h pl pt pm
                  (draws hash) (slot_height height network.round_length pl ((==_iff _ 5).0 due)) in
              rw (due, close)
                (inr (
                  (==_iff _ 5).0 due,
                  ground arith,
                  report_slot-IsExpected last h cache e s x net con coh f
                      (with_hash env network h hash e.members got (members_at env network h e f))
                      found (w, named, member),
                ))
        ]
      ]
