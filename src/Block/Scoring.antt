-- ===== src/Block/Scoring.antt =====
-- services/new/witness/index.ts: the score of a witness counts what it signed and what it was to sign.
use vsc_node.Prelude.{
  ℕ, ◌+◌, String, ◌≡◌, refl, sym, ap, subst, ◌∙◌, inl, inr, List, [], ◌∷◌, map, none, some, str_eq,
  eq_iff, eq_refl, if◌then◌else◌, Dict, lookup, lookup-insert, IsObject, insert-IsObject, All,
  arith, Bool-cases, Option-cases,
}
use vsc_node.Election.Store.{ElectionResult}
use vsc_node.Block.Scores.{
  SignedHeader, Scores, WitnessScore, or_zero, touch, bump, expect_members, count_signers, rate,
  members_at, score_blocks, last_blocks, get_witness_active_score,
}

-- How often an account stands in a list.
unfoldable pub times : String → List String → ℕ
times account [] = 0
times account (a ∷ accounts) = (if str_eq a account then 1 else 0) + times account accounts

-- How many of the blocks an account has signed, and how many it was elected to sign.
unfoldable pub signed_by : String → List SignedHeader → ℕ
signed_by account [] = 0
signed_by account (block ∷ blocks) = times account block.signers + signed_by account blocks

unfoldable pub seats_of : List ElectionResult → String → List SignedHeader → ℕ
seats_of db account [] = 0
seats_of db account (block ∷ blocks) =
    elim (members_at db block.slot_height) [ none ↦ 0 | some members ↦ times account members ]
    + seats_of db account blocks

abbrev amount_at : String → Dict ℕ → ℕ
amount_at account dict = or_zero (lookup account dict)

bump-amount :
    (key account : String) (dict : Dict ℕ)
    → amount_at account (bump key dict)
      ≡ amount_at account dict + (if str_eq key account then 1 else 0)
unfolding bump or_zero
bump-amount key account dict = elim (Bool-cases (str_eq key account)) [
  | inl same ↦
      rw (lookup-insert key account (or_zero (lookup key dict) + 1) dict, same)
        (ap (λ k. amount_at k dict + 1) ((eq_iff key account).0 same))
  | inr other ↦
      rw (lookup-insert key account (or_zero (lookup key dict) + 1) dict, other) (omega arith)
]

touch-amount :
    (key account : String) (dict : Dict ℕ)
    → amount_at account (touch key dict) ≡ amount_at account dict
unfolding touch or_zero
touch-amount key account dict = elim (Bool-cases (str_eq key account)) [
  | inl same ↦
      rw (lookup-insert key account (or_zero (lookup key dict)) dict, same)
        (ap (λ k. amount_at k dict) ((eq_iff key account).0 same))
  | inr other ↦ rw (lookup-insert key account (or_zero (lookup key dict)) dict, other) refl
]

expect_members-amounts :
    (account : String) (members : List String) (scores : Scores)
    → (amount_at account (expect_members members scores).score ≡ amount_at account scores.score)
      × (amount_at account (expect_members members scores).expected
          ≡ amount_at account scores.expected + times account members)
unfolding expect_members times
expect_members-amounts account [] scores = (refl, omega arith)
expect_members-amounts account (m ∷ members) scores =
    let next : Scores = record {
      score = touch m scores.score;
      expected = bump m scores.expected;
    } in
    let (score, expected) = expect_members-amounts account members next in
    (
      score ∙ touch-amount m account scores.score,
      omega (arith, expected, bump-amount m account scores.expected),
    )

count_signers-amounts :
    (account : String) (signers : List String) (scores : Scores)
    → (amount_at account (count_signers signers scores).score
        ≡ amount_at account scores.score + times account signers)
      × ((count_signers signers scores).expected ≡ scores.expected)
unfolding count_signers times
count_signers-amounts account [] scores = (omega arith, refl)
count_signers-amounts account (s ∷ signers) scores =
    let next : Scores = record scores { score = bump s scores.score } in
    let (score, expected) = count_signers-amounts account signers next in
    (omega (arith, score, bump-amount s account scores.score), expected)

expect_members-IsObject :
    (members : List String) (scores : Scores)
    → IsObject scores.score
    → IsObject (expect_members members scores).score
unfolding expect_members touch
expect_members-IsObject [] scores h = h
expect_members-IsObject (m ∷ members) scores h =
    expect_members-IsObject members
      record { score = touch m scores.score; expected = bump m scores.expected }
      (insert-IsObject m (or_zero (lookup m scores.score)) scores.score h)

count_signers-IsObject :
    (signers : List String) (scores : Scores)
    → IsObject scores.score
    → IsObject (count_signers signers scores).score
unfolding count_signers bump
count_signers-IsObject [] scores h = h
count_signers-IsObject (s ∷ signers) scores h =
    count_signers-IsObject signers (record scores { score = bump s scores.score })
      (insert-IsObject s (or_zero (lookup s scores.score) + 1) scores.score h)

-- The counts so far, and those of the blocks.
abbrev AreCounted : List ElectionResult → List SignedHeader → Scores → Scores → Type 0
AreCounted db blocks before after =
    IsObject after.score
    × ((account : String)
        → (amount_at account after.score
            ≡ amount_at account before.score + signed_by account blocks)
          × (amount_at account after.expected
              ≡ amount_at account before.expected + seats_of db account blocks))

score_blocks-AreCounted :
    (db : List ElectionResult) (blocks : List SignedHeader) (scores after : Scores)
    → IsObject scores.score
    → score_blocks db blocks scores ≡ some after
    → AreCounted db blocks scores after
unfolding score_blocks signed_by seats_of
score_blocks-AreCounted db [] scores after h e =
    let same : scores ≡ after = ground arith in
    subst (λ s. AreCounted db [] scores s) same (h, λ account. (omega arith, omega arith))
score_blocks-AreCounted db (block ∷ blocks) scores after h e =
    elim (Option-cases (members_at db block.slot_height)) [
      | inl absent ↦ absurd (ground arith)
      | inr (members, found) ↦
          let mid = expect_members members scores in
          let next = count_signers block.signers mid in
          let rest : score_blocks db blocks next ≡ some after = ground arith in
          let (object, counts) =
            score_blocks-AreCounted db blocks next after
              (count_signers-IsObject block.signers mid (expect_members-IsObject members scores h))
              rest in
          (
            object,
            λ account.
                let (score, expected) = counts account in
                let (score', expected') = expect_members-amounts account members scores in
                let (score'', expected'') = count_signers-amounts account block.signers mid in
                rw found (
                  omega (arith, score, score', score''),
                  omega (arith, expected, expected', ap (amount_at account) expected''),
                ),
          )
    ]

absent-found :
    (key k : String) (v : ℕ) (rest : Dict ℕ)
    → key ≡ k
    → lookup key rest ≡ none
    → lookup k rest ≡ some v
    → ⊥
absent-found key k v rest same new here =
    let clash : none ≡ some v = sym new ∙ ap (λ j. lookup j rest) same ∙ here in ground arith

shift-entries :
    (key : String) (n : ℕ) (rest entries : Dict ℕ)
    → lookup key rest ≡ none
    → All (λ e. lookup e.0 rest ≡ some e.1) entries
    → All (λ e. lookup e.0 ((key, n) ∷ rest) ≡ some e.1) entries
unfolding lookup
shift-entries key n rest [] new all = tt
shift-entries key n rest ((k, v) ∷ entries) new (here, later) = (
  elim (Bool-cases (str_eq key k)) [
    | inl same ↦ absurd (absent-found key k v rest ((eq_iff key k).0 same) new here)
    | inr other ↦ rw other here
  ],
  shift-entries key n rest entries new later,
)

entries-lookup : (dict : Dict ℕ) → IsObject dict → All (λ e. lookup e.0 dict ≡ some e.1) dict
unfolding lookup IsObject
entries-lookup [] h = tt
entries-lookup ((k, v) ∷ rest) (new, h) =
    (rw (eq_refl k) refl, shift-entries k v rest rest new (entries-lookup rest h))

-- What a score says of its account.
abbrev pub IsCounted : List ElectionResult → List SignedHeader → WitnessScore → Type 0
IsCounted db blocks w =
    (w.actual ≡ signed_by w.account blocks) × (or_zero w.expected ≡ seats_of db w.account blocks)

rate-IsCounted :
    (round_percent : ℕ → ℕ → ℕ) (db : List ElectionResult) (blocks : List SignedHeader)
    (scores : Scores) (entries : Dict ℕ)
    → AreCounted db blocks record { score = []; expected = [] } scores
    → All (λ e. lookup e.0 scores.score ≡ some e.1) entries
    → All (IsCounted db blocks) (map (rate round_percent scores.expected) entries)
unfolding rate or_zero lookup
rate-IsCounted round_percent db blocks scores [] counted all = tt
rate-IsCounted round_percent db blocks scores ((account, actual) ∷ entries) (object, counts)
      (here, later) =
    let (score, expected) = counts account in
    let signed : actual ≡ signed_by account blocks = omega (arith, rw here at score) in
    let due_count : amount_at account scores.expected ≡ seats_of db account blocks =
      omega (arith, expected) in
    (
      elim (Option-cases (lookup account scores.expected)) [
        | inl none_due ↦ rw (none_due, rate) (signed, rw none_due at due_count)
        | inr (due, is_due) ↦ rw (is_due, rate) (signed, rw is_due at due_count)
      ],
      rate-IsCounted round_percent db blocks scores entries (object, counts) later,
    )

-- Each score counts, over the last sixty headers up to the height, those that its account has
-- signed, and those for which the account stood in the election.
pub get_witness_active_score-IsCounted :
    (round_percent : ℕ → ℕ → ℕ) (height : ℕ) (db : List ElectionResult)
    (headers : List SignedHeader) (out : List WitnessScore)
    → get_witness_active_score round_percent height db headers ≡ some out
    → All (IsCounted db (last_blocks height headers)) out
unfolding get_witness_active_score IsObject
get_witness_active_score-IsCounted round_percent height db headers out e =
    let blocks = last_blocks height headers in
    let start : Scores = record { score = []; expected = [] } in
    elim (Option-cases (score_blocks db blocks start)) [
      | inl failed ↦ absurd (ground arith)
      | inr (scores, ends) ↦
          let counted = score_blocks-AreCounted db blocks start scores tt ends in
          let same : map (rate round_percent scores.expected) scores.score ≡ out = ground arith in
          subst (All (IsCounted db blocks)) same (
            rate-IsCounted round_percent db blocks scores scores.score counted
              (entries-lookup scores.score counted.0))
    ]
