-- ===== src/Schedule/Caching.antt =====
-- The kept schedule serves as well as a new one.
use vsc_node.Prelude.{
  ◌+◌, ◌-◌, if◌then◌else◌, ℕ, String, ◌≡◌, refl, sym, ap, ◌∙◌, inl, inr, List, [], ◌∷◌, map, Option,
  none, some, Bool, true, false, arith, Option-cases, ◌==◌,
}
use vsc_node.Network.{Network, networks}
use vsc_node.Election.Store.{
  Member, ElectionResult, get_valid_election_unchecked, get_members_of_block,
}
use vsc_node.Schedule.Plan.{
  Draw, shuffle, take_turns, ConsensusRound, calculate_consensus_round, Slot, apply_bn_schedule,
  weighted_schedule,
}
use vsc_node.Schedule.Cache.{
  WitnessSchedule, Env, get_randomize_hash, compute_schedule, cache_hit, cached, fresh, scheduled,
  on_network, get_block_schedule,
}

-- A schedule without its marks of what is past, which depend on the block that asks.
abbrev pub SlotPlan : Type 0
SlotPlan = Option Member × ℕ × Bool

abbrev pub slots_of : List Slot → List SlotPlan
slots_of = map (λ s. (s.witness, s.bn, s.bn_works))

abbrev pub past : ℕ → Network → ℕ
past h network = (calculate_consensus_round h network).past_round_height

apply_bn_schedule-past :
    (es : List (Option Member)) (k : ℕ) (network : Network) (r r' : ConsensusRound)
    → r.past_round_height ≡ r'.past_round_height
    → slots_of (apply_bn_schedule es k network r) ≡ slots_of (apply_bn_schedule es k network r')
unfolding apply_bn_schedule
apply_bn_schedule-past [] k network r r' e = refl
apply_bn_schedule-past (x ∷ es) k network r r' e =
    cc (apply_bn_schedule-past es (k + 1) network r r' e)

some_inj : {a b : List Slot} → some a ≡ some b → a ≡ b
some_inj e = cc

schedule_inj : {a b : WitnessSchedule} → some a ≡ some b → a ≡ b
schedule_inj e = cc

some-ne-none : {a : List Slot} → some a ≡ none → ⊥
some-ne-none e = cc

weighted_schedule-past :
    (network : Network) (ms : List Member) (rng : ℕ → Draw) (r r' : ConsensusRound)
    → r.past_round_height ≡ r'.past_round_height
    → slots_of (weighted_schedule network ms rng r).schedule
      ≡ slots_of (weighted_schedule network ms rng r').schedule
unfolding weighted_schedule
weighted_schedule-past network ms rng r r' e =
    apply_bn_schedule-past (shuffle rng (take_turns ms network.total_rounds 0)) 0 network r r' e

module _ (env : Env) (network : Network) where
  -- Elections of one epoch have the same members.
  abbrev pub IsConsistent : Type 0
  IsConsistent =
      (h h' : ℕ) (e e' : ElectionResult)
      → get_valid_election_unchecked env.election_db h ≡ some e
      → get_valid_election_unchecked env.election_db h' ≡ some e'
      → e.epoch ≡ e'.epoch
      → e.members ≡ e'.members

  -- The kept schedule has the slots that any block of its round and epoch would compute.
  abbrev pub IsCoherent : Option WitnessSchedule → Type 0
  IsCoherent cache =
      (c : WitnessSchedule) (h : ℕ) (e : ElectionResult) (s : List Slot)
      → cache ≡ some c
      → past h network ≡ c.valid_height
      → get_valid_election_unchecked env.election_db h ≡ some e
      → e.epoch ≡ c.valid_epoch
      → compute_schedule env network h ≡ some s
      → slots_of c.schedule ≡ slots_of s

  pub members_at :
      (h : ℕ) (e : ElectionResult)
      → get_valid_election_unchecked env.election_db h ≡ some e
      → get_members_of_block env.election_db env.witnesses_at h ≡ e.members
  unfolding get_members_of_block
  members_at h e found = rw (found, get_members_of_block)

  unfoldable pub hash_of : ℕ → Option String
  hash_of h = get_randomize_hash env (calculate_consensus_round h network)

  hash-past : (h h' : ℕ) → past h network ≡ past h' network → hash_of h ≡ hash_of h'
  unfolding hash_of get_randomize_hash
  hash-past h h' p = ap (λ b. if b == 0 then none else env.header_id (b - 1)) p

  no_hash : (h : ℕ) → hash_of h ≡ none → compute_schedule env network h ≡ none
  unfolding compute_schedule hash_of
  no_hash h e = rw (e, compute_schedule)

  pub with_hash :
      (h : ℕ) (hash : String) (ms : List Member)
      → hash_of h ≡ some hash
      → get_members_of_block env.election_db env.witnesses_at h ≡ ms
      → compute_schedule env network h
        ≡ some
            (weighted_schedule network ms
              (env.seedrandom hash)
              (calculate_consensus_round h network)).schedule
  unfolding compute_schedule hash_of
  with_hash h hash ms e m = rw (e, compute_schedule, m)

  -- Two blocks of one round and one epoch compute the same slots.
  compute_schedule-same :
      (h h' : ℕ) (e e' : ElectionResult) (s s' : List Slot)
      → IsConsistent
      → past h network ≡ past h' network
      → get_valid_election_unchecked env.election_db h ≡ some e
      → get_valid_election_unchecked env.election_db h' ≡ some e'
      → e.epoch ≡ e'.epoch
      → compute_schedule env network h ≡ some s
      → compute_schedule env network h' ≡ some s'
      → slots_of s ≡ slots_of s'
  compute_schedule-same h h' e e' s s' con p f f' ep c c' = elim (Option-cases (hash_of h)) [
    | inl missing ↦ absurd (some-ne-none (sym c ∙ no_hash h missing))
    | inr (hash, got) ↦
        let mine = with_hash h hash e.members got (members_at h e f) in
        let yours =
          with_hash h' hash e.members (sym (hash-past h h' p) ∙ got)
            (members_at h' e' f' ∙ sym (con h h' e e' f f' ep)) in
        rw (some_inj (sym c ∙ mine), some_inj (sym c' ∙ yours))
          (weighted_schedule-past network e.members (env.seedrandom hash) _ _ p)
  ]

  renewed : ℕ → ElectionResult → List Slot → WitnessSchedule
  renewed h e s = record { schedule = s; valid_epoch = e.epoch; valid_height = past h network }

  -- The call, where nothing is missing: the kept schedule on a hit, and otherwise a new one.
  get_block_schedule-eq :
      (h : ℕ) (cache : Option WitnessSchedule) (e : ElectionResult) (s : List Slot)
      → networks env.network_id ≡ some network
      → get_valid_election_unchecked env.election_db h ≡ some e
      → compute_schedule env network h ≡ some s
      → get_block_schedule env h cache ≡ (
          if cache_hit cache (calculate_consensus_round h network) e.epoch
          then (cached cache, cache)
          else (some s, some (renewed h e s)))
  unfolding get_block_schedule on_network scheduled fresh renewed
  get_block_schedule-eq h cache e s net f c = rw (net, on_network, f, scheduled, c)

  renewed-IsCoherent :
      (h : ℕ) (e : ElectionResult) (s : List Slot)
      → IsConsistent
      → get_valid_election_unchecked env.election_db h ≡ some e
      → compute_schedule env network h ≡ some s
      → IsCoherent (some (renewed h e s))
  unfolding renewed
  renewed-IsCoherent h e s con f c c' h' e' s' kept p f' ep comp =
      let k : renewed h e s ≡ c' = schedule_inj kept in
      ap (λ (w : WitnessSchedule). slots_of w.schedule) (sym k)
      ∙ compute_schedule-same h h' e e' s s' con
          (sym (p ∙ ap (λ (w : WitnessSchedule). w.valid_height) (sym k))) f f'
          (sym (ep ∙ ap (λ (w : WitnessSchedule). w.valid_epoch) (sym k))) c comp

  hit_fields :
      (c : WitnessSchedule) (r : ConsensusRound) (epoch : ℕ)
      → cache_hit (some c) r epoch ≡ true
      → (c.valid_height ≡ r.past_round_height) × (epoch ≡ c.valid_epoch)
  unfolding cache_hit
  hit_fields c r epoch h = ground arith

  abbrev Serves :
      Option WitnessSchedule → List Slot → Option (List Slot) × Option WitnessSchedule → Type 0
  Serves cache s r =
      (out : List Slot) × (r.0 ≡ some out) × (slots_of out ≡ slots_of s) × IsCoherent r.1

  serves :
      (h : ℕ) (cache : Option WitnessSchedule) (e : ElectionResult) (s : List Slot)
      → IsConsistent
      → IsCoherent cache
      → get_valid_election_unchecked env.election_db h ≡ some e
      → compute_schedule env network h ≡ some s
      → (b : Bool) → cache_hit cache (calculate_consensus_round h network) e.epoch ≡ b
      → Serves cache s (if b then (cached cache, cache) else (some s, some (renewed h e s)))
  unfolding cached cache_hit
  serves h cache e s con coh f c false hit = (s, refl, refl, renewed-IsCoherent h e s con f c)
  serves h none e s con coh f c true hit = cc
  serves h (some k) e s con coh f c true hit =
      let (at_height, at_epoch) = hit_fields k (calculate_consensus_round h network) e.epoch hit in
      (k.schedule, refl, coh k h e s refl (sym at_height) f at_epoch c, coh)

  -- On the configured network, where stored elections of one epoch have the same members, with an
  -- election valid at the block, the block before the round known and the kept schedule coherent:
  -- the call yields a schedule with the slots that would be computed anew, and what it keeps is
  -- coherent again.
  pub get_block_schedule_fresh :
      (h : ℕ) (cache : Option WitnessSchedule) (e : ElectionResult) (s : List Slot)
      → networks env.network_id ≡ some network
      → IsConsistent
      → IsCoherent cache
      → get_valid_election_unchecked env.election_db h ≡ some e
      → compute_schedule env network h ≡ some s
      → (out : List Slot) × ((get_block_schedule env h cache).0 ≡ some out)
        × (slots_of out ≡ slots_of s)
        × IsCoherent (get_block_schedule env h cache).1
  get_block_schedule_fresh h cache e s net con coh f c =
      rw (get_block_schedule-eq h cache e s net f c) (serves h cache e s con coh f c _ refl)
