-- ===== src/Relay/MintingTests.antt =====
-- A proof under a final header, before and after two calls of the relay.
use vsc_node.Prelude.{
  ℕ, ◌==◌, ◌≢◌, String, ◌≡◌, refl, ap, [], ◌∷◌, Option, none, some, Bool, true, false, str_eq,
  if◌then◌else◌, lookup, insert, arith,
}
use vsc_node.Token.Store.{LedgerOutput, TokenState, ApiInput}
use vsc_node.Token.Deposit.{TxProof, mint, redeem_proof}
use vsc_node.Relay.Headers.{
  Decoded, PreHeader, RelayState, done, process_headers, header_at, validate_tx_proof, add_headers,
  finish, top_header, best_of, walk, or_top, commit, above, highest_of, write_bundles, push_blocks,
  calc_key, lookup_height, max_height, no_block,
}
use vsc_node.Relay.Minting.{Later, mint_after_Later}

abbrev decimal : ℕ → String
decimal n = if n == 818_800 then "818800" else "818900"

abbrev decode : String → Option Decoded
decode raw = none

abbrev check : String → TxProof → Option Bool
check header p = some (str_eq header "ff")

abbrev latest : PreHeader
latest = record {
  prev_block = no_block;
  timestamp = "";
  merkle_root = "";
  diff = 7;
  total_diff = 7;
  height = 818_801;
  raw = "fe";
}

abbrev relay : RelayState
relay = record {
  preheaders = ("a", latest) ∷ [];
  headers = ("818800-818900", (818_800, "ff") ∷ []) ∷ [];
  txs = [];
}

abbrev deposit : TxProof
deposit = record {
  tx_id = "tx";
  confirming_height = 818_800;
  vout = record { hash = some "alice"; val = 100_000_000; op_return = none } ∷ [];
}

abbrev noted : RelayState
noted = record relay { txs = ("tx", deposit) ∷ [] }

final : header_at decimal relay 818_800 ≡ some "ff"
unfolding header_at calc_key lookup lookup_height
final = refl

proved : validate_tx_proof decimal check deposit relay ≡ some noted
unfolding validate_tx_proof header_at calc_key lookup lookup_height insert
proved = refl

ticked : process_headers decimal decode [] noted ≡ done noted
unfolding process_headers add_headers finish top_header best_of walk or_top commit above highest_of
    write_bundles push_blocks max_height lookup
ticked = refl

later : Later decimal decode check relay noted
later = Later.headers [] (Later.proof deposit Later.here proved) ticked

abbrev same_text : String → String
same_text s = s

abbrev call : ApiInput
call = record { sender = "alice"; included_in = "block"; included_block = 500 }

abbrev id_of : LedgerOutput → String
id_of out = "minted"

abbrev empty : TokenState
empty = record { outputs = []; redeems = []; btc_addrs = ("alice", "hive:alice") ∷ []; wraps = [] }

abbrev raw : String
raw = "ff"

not_empty : raw ≢ ""
not_empty e = let clash : true ≡ false = ap (λ x. str_eq x "ff") e in ground arith

mint_after_Later_example :
    (mint check
        (header_at decimal noted)
        same_text
        same_text
        same_text
        call
        id_of
        none
        deposit
        empty
      ≡ mint check
          (header_at decimal relay)
          same_text
          same_text
          same_text
          call
          id_of
          none
          deposit
          empty)
    × (redeem_proof same_text (λ a. some a) check (header_at decimal noted) deposit empty
        ≡ redeem_proof same_text (λ a. some a) check (header_at decimal relay) deposit empty)
mint_after_Later_example =
    mint_after_Later decimal decode check same_text same_text same_text (λ a. some a) call id_of
      none deposit raw empty not_empty final later
