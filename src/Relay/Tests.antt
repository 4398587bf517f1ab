-- ===== src/Relay/Tests.antt =====
-- A chain of six headers, and the theorems on what the relay makes of it.
use Prim.Native.String.{len}
use vsc_node.Prelude.{
  ℕ, ◌+◌, ◌-◌, String, ◌≡◌, ◌≢◌, refl, sym, ap, ◌∙◌, List, [], ◌∷◌, map, Option, none, some, true,
  false, str_eq, eq_refl, if◌then◌else◌, ◌==◌, Dict, lookup, insert, All-lookup, arith,
}
use vsc_node.Relay.Headers.{
  no_block, Decoded, PreHeader, RelayState, Outcome, thrown, stuck, done, process_headers,
  add_headers, add_decoded, parent_of, pre_header, finish, top_header, best_of, walk, or_top,
  commit, above, highest_of, write_bundles, push_blocks, push_block, put_height, bundle_of,
  lookup_height, calc_key, header_at, max_height,
}
use vsc_node.Relay.Links.{IsLinked, IsRanked}
use vsc_node.Relay.Walk.{process_headers_ends}
use vsc_node.Relay.Final.{process_headers_keeps}
use vsc_node.Relay.Settled.{IsSettled, process_headers_settles}

apart : (s t : String) → str_eq s t ≡ false → s ≢ t
apart s t h e =
    let clash : true ≡ false = sym (eq_refl t) ∙ ap (λ x. str_eq x t) (sym e) ∙ h in ground arith

abbrev block : String → String → Decoded
block hash prev = record {
  hash = hash;
  prev_block = prev;
  timestamp = "";
  merkle_root = "";
  diff = 7;
}

-- The hash of a block has one letter more than its height.
abbrev table : Dict Decoded
table =
    ("0", block "a" no_block)
    ∷ ("1", block "aa" "a")
    ∷ ("2", block "aaa" "aa")
    ∷ ("3", block "aaaa" "aaa")
    ∷ ("4", block "aaaaa" "aaaa")
    ∷ ("5", block "aaaaaa" "aaaaa")
    ∷ []

abbrev decode : String → Option Decoded
decode raw = lookup raw table

abbrev height_of : String → ℕ
height_of hash = len hash - 1

abbrev decimal : ℕ → String
decimal n = if n == 0 then "0" else "100"

ranked : IsRanked height_of decode
ranked = record {
  genesis = λ raw d read.
      All-lookup (λ r d. d.prev_block ≡ no_block → height_of d.hash ≡ 0) table raw d
        (
          λ e. refl,
          (
            λ e. absurd (apart _ _ refl e),
            (
              λ e. absurd (apart _ _ refl e),
              (
                λ e. absurd (apart _ _ refl e),
                (λ e. absurd (apart _ _ refl e), (λ e. absurd (apart _ _ refl e), tt)),
              ),
            ),
          ),
        )
        read;
  child = λ raw d read.
      All-lookup (λ r d. d.prev_block ≢ no_block → height_of d.hash ≡ height_of d.prev_block + 1)
        table raw d
        (
          λ ne. absurd (ne refl),
          (λ ne. refl, (λ ne. refl, (λ ne. refl, (λ ne. refl, (λ ne. refl, tt))))),
        )
        read;
  hashed = λ raw d read.
      All-lookup (λ r d. d.hash ≢ no_block) table raw d
        (
          apart _ _ refl,
          (
            apart _ _ refl,
            (apart _ _ refl, (apart _ _ refl, (apart _ _ refl, (apart _ _ refl, tt)))),
          ),
        )
        read;
  linked = λ raw d read.
      All-lookup (λ r d. d.prev_block ≢ "") table raw d
        (
          apart _ _ refl,
          (
            apart _ _ refl,
            (apart _ _ refl, (apart _ _ refl, (apart _ _ refl, (apart _ _ refl, tt)))),
          ),
        )
        read;
}

abbrev nothing : RelayState
nothing = record { preheaders = []; headers = []; txs = [] }

abbrev five : List String
five = "0" ∷ "1" ∷ "2" ∷ "3" ∷ "4" ∷ []

abbrev state_of : Outcome → RelayState
state_of thrown = nothing
state_of stuck = nothing
state_of (done s) = s

abbrev synced : RelayState
synced = state_of (process_headers decimal decode five nothing)

abbrev longer : RelayState
longer = state_of (process_headers decimal decode ("5" ∷ []) synced)

run-five : header_at decimal synced 1 ≡ some "1"
unfolding process_headers add_headers add_decoded parent_of pre_header finish top_header best_of
    walk or_top commit above highest_of write_bundles push_blocks push_block put_height bundle_of
    lookup_height calc_key header_at max_height lookup insert
run-five = refl

abbrev dict_of : Option (Dict PreHeader) → Dict PreHeader
dict_of none = []
dict_of (some d) = d

abbrev added : Dict PreHeader
added = dict_of (add_headers decode five [])

nonempty : (entry : String × PreHeader) (rest : Dict PreHeader) → (entry ∷ rest) ≢ []
nonempty entry rest e = ground arith

process_headers_ends_example :
    (s' : RelayState) × (process_headers decimal decode five nothing ≡ done s')
    × IsLinked height_of s'.preheaders
unfolding add_headers add_decoded parent_of pre_header lookup insert
process_headers_ends_example =
    process_headers_ends height_of decimal decode five nothing added ranked tt refl (nonempty _ _)

process_headers_keeps_example : header_at decimal longer 1 ≡ some "1"
unfolding process_headers add_headers add_decoded parent_of pre_header finish top_header best_of
    walk or_top commit above highest_of write_bundles push_blocks push_block put_height bundle_of
    lookup_height calc_key header_at max_height lookup insert
process_headers_keeps_example =
    process_headers_keeps decimal decode ("5" ∷ []) synced longer 1 "1" refl (apart _ _ refl) refl

process_headers_settles_example : IsSettled decode five nothing 1 "1"
unfolding process_headers add_headers add_decoded parent_of pre_header finish top_header best_of
    walk or_top commit above highest_of write_bundles push_blocks push_block put_height bundle_of
    lookup_height calc_key header_at max_height lookup insert
process_headers_settles_example =
    process_headers_settles height_of decimal decode five nothing synced 1 "1" ranked tt refl refl
      refl

-- A call with the first two headers makes none final, and forgets the first one.
run-two :
    map (λ e. e.0) (state_of (process_headers decimal decode ("0" ∷ "1" ∷ []) nothing)).preheaders
    ≡ "aa" ∷ []
unfolding process_headers add_headers add_decoded parent_of pre_header finish top_header best_of
    walk or_top commit above highest_of write_bundles push_blocks push_block put_height bundle_of
    lookup_height calc_key header_at max_height lookup insert
run-two = refl
