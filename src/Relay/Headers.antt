-- ===== src/Relay/Headers.antt =====
-- processHeaders and validateTxProof of contracts/btc-relay.ts. What the bitcoin library reads in a header is a
-- parameter, and so is the decimal text of a number.
-- The bundles in memory are empty when a call starts.
use Prim.Native.String.{◌++◌ as cat}
use vsc_node.Prelude.{
  ℕ, zero, suc, ◌+◌, ◌*◌, ◌/◌, ◌==◌, String, List, [], ◌∷◌, Option, none, some, Bool, ltb, leb, max,
  str_eq, ◌>>=◌, if◌then◌else◌, filter, Dict, lookup, insert,
}
use vsc_node.Token.Deposit.{TxProof}

abbrev pub validity_depth : ℕ
validity_depth = 2

abbrev pub no_block : String
no_block = "0000000000000000000000000000000000000000000000000000000000000000"

-- What the library finds in a header, with its hash in the order of a key.
pub record Decoded : Type 0 where
  pub hash : String
  pub prev_block : String
  pub timestamp : String
  pub merkle_root : String
  pub diff : ℕ

pub record PreHeader : Type 0 where
  pub prev_block : String
  pub timestamp : String
  pub merkle_root : String
  pub diff : ℕ
  pub total_diff : ℕ
  pub height : ℕ
  pub raw : String

-- A bundle of final headers, by height.
abbrev pub Bundle : Type 0
Bundle = List (ℕ × String)

unfoldable pub lookup_height : ℕ → Bundle → Option String
lookup_height height [] = none
lookup_height height ((h, raw) ∷ rest) = if h == height then some raw else lookup_height height rest

-- `pre-headers/main`, the bundles under `headers/`, and the proofs under `txs/`.
pub record RelayState : Type 0 where
  pub preheaders : Dict PreHeader
  pub headers : Dict Bundle
  pub txs : Dict TxProof

module _ (decimal : ℕ → String) where
  unfoldable pub calc_key : ℕ → String
  calc_key height =
      let key = height / 100 * 100 in cat (decimal key) (cat "-" (decimal (key + 100)))

-- The total difficulty and the height that a header adds to; `none` where the loop goes on.
unfoldable pub parent_of : String → Dict PreHeader → Option (ℕ × ℕ)
parent_of prev_block preheaders =
    if str_eq prev_block no_block
    then some (0, 0)
    else do parent ← lookup prev_block preheaders; some (parent.total_diff, parent.height + 1)

unfoldable pub pre_header : String → Decoded → ℕ × ℕ → PreHeader
pre_header raw d (work, height) = record {
  prev_block = d.prev_block;
  timestamp = d.timestamp;
  merkle_root = d.merkle_root;
  diff = d.diff;
  total_diff = d.diff + work;
  height = height;
  raw = raw;
}

unfoldable pub add_decoded : String → Decoded → Dict PreHeader → Dict PreHeader
add_decoded raw d preheaders = elim (parent_of d.prev_block preheaders) [
  | none ↦ preheaders
  | some parent ↦ insert d.hash (pre_header raw d parent) preheaders
]

-- The loop over the headers, with `none` where the library throws.
unfoldable pub add_headers :
    (String → Option Decoded) → List String → Dict PreHeader → Option (Dict PreHeader)
add_headers decode [] preheaders = some preheaders
add_headers decode (raw ∷ raws) preheaders = do
  d ← decode raw
  add_headers decode raws (add_decoded raw d preheaders)

-- The last entry of the ones sorted by total difficulty: the later of two that are equal.
unfoldable pub best_of : String × PreHeader → Dict PreHeader → String × PreHeader
best_of best [] = best
best_of best (e ∷ rest) = best_of (if leb best.1.total_diff e.1.total_diff then e else best) rest

unfoldable pub top_header : Dict PreHeader → Option (String × PreHeader)
top_header [] = none
top_header (e ∷ rest) = some (best_of e rest)

-- `if(!prevBlock) prevBlock = topHeader[0]`
unfoldable pub or_top : String → String → String
or_top top prev = if str_eq prev "" then top else prev

-- The walk from a block down its ancestors, which skips the first ones; `none` means that the fuel
-- ran out.
unfoldable pub walk : Dict PreHeader → String → ℕ → String → ℕ → Option (List PreHeader)
walk preheaders top zero prev depth = none
walk preheaders top (suc fuel) prev depth = elim (lookup (or_top top prev) preheaders) [
  | none ↦ some []
  | some h ↦
      if ltb validity_depth depth
      then (do blocks ← walk preheaders top fuel h.prev_block depth; some (h ∷ blocks))
      else walk preheaders top fuel h.prev_block (depth + 1)
]

-- The bundle of a key, in memory or in the state.
unfoldable pub bundle_of : Dict Bundle → Dict Bundle → String → Bundle
bundle_of stored memory key = elim (lookup key memory) [
  | some bundle ↦ bundle
  | none ↦ elim (lookup key stored) [ some bundle ↦ bundle | none ↦ [] ]
]

-- A header is only set where none is.
unfoldable pub put_height : ℕ → String → Bundle → Bundle
put_height height raw bundle = elim (lookup_height height bundle) [
  | none ↦ (height, raw) ∷ bundle
  | some old ↦ if str_eq old "" then (height, raw) ∷ bundle else bundle
]

unfoldable pub push_block : (ℕ → String) → Dict Bundle → PreHeader → Dict Bundle → Dict Bundle
push_block decimal stored block memory =
    let key = calc_key decimal block.height in
    insert key (put_height block.height block.raw (bundle_of stored memory key)) memory

unfoldable pub push_blocks : (ℕ → String) → Dict Bundle → List PreHeader → Dict Bundle → Dict Bundle
push_blocks decimal stored [] memory = memory
push_blocks decimal stored (block ∷ blocks) memory =
    push_blocks decimal stored blocks (push_block decimal stored block memory)

unfoldable pub highest_of : List PreHeader → ℕ
highest_of [] = 0
highest_of (block ∷ blocks) = max block.height (highest_of blocks)

-- `state.update` of each bundle in memory
unfoldable pub write_bundles : Dict Bundle → Dict Bundle → Dict Bundle
write_bundles [] stored = stored
write_bundles ((key, bundle) ∷ memory) stored = write_bundles memory (insert key bundle stored)

-- What is left of the preheaders when the final ones and all as low are deleted.
unfoldable pub above : ℕ → Dict PreHeader → Dict PreHeader
above highest preheaders = filter (λ e. ltb highest e.1.height) preheaders

unfoldable pub max_height : Dict PreHeader → ℕ
max_height [] = 0
max_height (e ∷ rest) = max e.1.height (max_height rest)

-- How a call ends: an exception, out of fuel, or the new state.
pub data Outcome : Type 0 where
  thrown : Outcome
  stuck : Outcome
  done : RelayState → Outcome

unfoldable pub commit : (ℕ → String) → List PreHeader → Dict PreHeader → RelayState → RelayState
commit decimal blocks preheaders s = record {
  preheaders = above (highest_of blocks) preheaders;
  headers = write_bundles (push_blocks decimal s.headers blocks []) s.headers;
  txs = s.txs;
}

-- The walk has fuel for two more steps than the greatest height.
unfoldable pub finish : (ℕ → String) → Dict PreHeader → RelayState → Outcome
finish decimal preheaders s = elim (top_header preheaders) [
  | none ↦ thrown
  | some top ↦ elim (walk preheaders top.0 (max_height preheaders + 2) top.0 0) [
    | none ↦ stuck
    | some blocks ↦ done (commit decimal blocks preheaders s)
  ]
]

unfoldable pub process_headers :
    (ℕ → String) → (String → Option Decoded) → List String → RelayState → Outcome
process_headers decimal decode raws s = elim (add_headers decode raws s.preheaders) [
  | none ↦ thrown
  | some preheaders ↦ finish decimal preheaders s
]

-- The final header at a height.
unfoldable pub header_at : (ℕ → String) → RelayState → ℕ → Option String
header_at decimal s height = do
  bundle ← lookup (calc_key decimal height) s.headers
  lookup_height height bundle

-- validateTxProof; `none` where the code throws.
unfoldable pub validate_tx_proof :
    (ℕ → String) → (String → TxProof → Option Bool) → TxProof → RelayState → Option RelayState
validate_tx_proof decimal check proof s = do
  header ← header_at decimal s proof.confirming_height
  valid ← check header proof
  some (if valid then record s { txs = insert proof.tx_id proof s.txs } else s)
