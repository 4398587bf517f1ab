-- ===== src/Block/Tests.antt =====
-- Runs of the selection of transactions, of the validation of proposals and of the vote, and the
-- theorems at concrete inputs.
use vsc_node.Prelude.{
  ℕ, ◌≤◌, false, String, lookup, insert, ◌≢◌, All, true, ◌≡◌, refl, List, [], ◌∷◌, Option, none,
  some, if◌then◌else◌, str_eq,
}
use vsc_node.Prelude.Int.{pos}
use vsc_node.Ledger.Context.{Tx, TxSource, TxData, CallResult}
use vsc_node.Network.{new_testnet, networks}
use vsc_node.Election.Store.{Member, ElectionResult, get_valid_election_unchecked}
use vsc_node.Schedule.Plan.{Slot, calculate_consensus_round}
use vsc_node.Schedule.Cache.{get_block_schedule, on_network, scheduled, cache_hit, cached}
use vsc_node.Block.Create.{
  Services, Block, TransactionDbType, create_block, execute_block, assemble, anchor_entry, as_input,
  is_onchain,
}
use vsc_node.Block.Proposals.{
  Proposal, Node, WitnessState, slot_of, check_slot, in_slot, check_witness, check_height,
  handle_propose_block, gather, account_is, verify_block, proposed_ids, sign_block, start_height,
}
use vsc_node.Block.Validation.{IsNear, IsScheduled, handle_propose_block-signed}
use vsc_node.Block.Agreement.{create_block_agree}
use vsc_node.Election.Weights.{includes, set_key, index_of, share, add_weight, voted_weight}
use vsc_node.Block.Votes.{
  SigMsg, accepted_key, collect_votes, passes, wins_vote, decide_broadcast, signers_of,
}
use vsc_node.Block.Quorum.{Shared, total, decide_broadcast-Shared}
use vsc_node.Block.Nonces.{
  select_txs, check_nonce, fetch_nonce, has_nonce, nonce_is, next_nonce, stored_nonce,
}
use vsc_node.Block.Turns.{expected, of_key}
use vsc_node.Block.Selection.{IsRun, select_txs-IsRun}
use vsc_node.Block.Maximality.{select_txs_maximal, IsAscending, nonce_le}

abbrev first_key : List String → String
first_key [] = ""
first_key (k ∷ ks) = k

-- Alice's next nonce is 5, and nothing is stored for Bob.
abbrev nonces_kept : String → Option ℕ
nonces_kept key = if str_eq key "alice" then some 5 else none

abbrev call : String → String → ℕ → Tx
call id who n = record {
  id = id;
  required_auths = who ∷ [];
  nonce = some n;
  src = TxSource.vsc;
  body = TxData.other;
}

abbrev pool : List Tx
pool =
    call "a" "bob" 0
    ∷ call "b" "bob" 1
    ∷ call "c" "bob" 1
    ∷ call "d" "alice" 5
    ∷ call "e" "alice" 7
    ∷ call "f" "alice" 6
    ∷ []

run-select :
    (select_txs first_key nonces_kept pool []).0
    ≡ call "a" "bob" 0 ∷ call "b" "bob" 1 ∷ call "d" "alice" 5 ∷ call "f" "alice" 6 ∷ []
unfolding select_txs check_nonce fetch_nonce has_nonce nonce_is next_nonce stored_nonce lookup
    insert
run-select = refl

select_txs-IsRun_example :
    IsRun
      (expected first_key nonces_kept "alice" [])
      (of_key first_key "alice" (select_txs first_key nonces_kept pool []).0)
select_txs-IsRun_example = select_txs-IsRun first_key nonces_kept pool "alice" []

-- Bob's transactions, sorted.
abbrev sorted_pool : List Tx
sorted_pool = call "a" "bob" 0 ∷ call "b" "bob" 1 ∷ call "c" "bob" 1 ∷ call "g" "bob" 4 ∷ []

sorted_pool-IsAscending : IsAscending sorted_pool
unfolding IsAscending nonce_le
sorted_pool-IsAscending = ((refl, (refl, (refl, tt))), ((refl, (refl, tt)), ((refl, tt), (tt, tt))))

select_txs_maximal_example :
    All
      (λ tx.
        str_eq (first_key tx.required_auths) "bob" ≡ true
        → tx.nonce
          ≢ some (
              expected first_key nonces_kept "bob"
                (select_txs first_key nonces_kept sorted_pool []).1))
      sorted_pool
select_txs_maximal_example =
    select_txs_maximal first_key nonces_kept sorted_pool "bob" [] sorted_pool-IsAscending

-- A VM that does nothing, names that say what they are of, and the nonces above.
abbrev services : Services Unit
services = record {
  vm_context = λ ids. tt;
  process_tx = λ vm tx balances. (CallResult.timeout, vm);
  vm_finish = λ vm. [];
  snapshot = λ id. record { hive_amt = pos 0; hbd_amt = pos 0 };
  put_output = λ out. out.contract_id;
  put_events = λ list. "events";
  put_refs = λ refs. "refs";
  merkle_tree = λ ids. some "root";
  sig_hash = λ tx. tx.id;
  key_id = first_key;
  stored = nonces_kept;
}

abbrev find_bob : String → Option Tx
find_bob id =
    if str_eq id "a"
    then some (call "a" "bob" 0)
    else if str_eq id "b"
    then some (call "b" "bob" 1)
    else if str_eq id "g"
    then some (call "g" "bob" 4)
    else none

-- The candidate that leaves a gap in Bob's nonces is dropped.
create_block_agree_example :
    (gather find_bob ("a" ∷ "b" ∷ []) ≡ some (call "a" "bob" 0 ∷ call "b" "bob" 1 ∷ []))
    × (create_block services (call "a" "bob" 0 ∷ call "b" "bob" 1 ∷ []) [] none
        ≡ create_block services
            (call "a" "bob" 0 ∷ call "g" "bob" 4 ∷ call "b" "bob" 1 ∷ [])
            []
            none)
unfolding select_txs check_nonce fetch_nonce has_nonce nonce_is next_nonce stored_nonce lookup
    insert
create_block_agree_example =
    create_block_agree services find_bob
      (call "a" "bob" 0 ∷ call "g" "bob" 4 ∷ call "b" "bob" 1 ∷ []) [] none
      (refl, (refl, (refl, tt)))

abbrev node_a : Member
node_a = record { account = "a"; key = "ka" }

abbrev node_b : Member
node_b = record { account = "b"; key = "kb" }

abbrev node_c : Member
node_c = record { account = "c"; key = "kc" }

abbrev election : ElectionResult
election = record {
  block_height = 10;
  epoch = 1;
  net_id = "net";
  members = node_a ∷ node_b ∷ node_c ∷ [];
  weights = some (10 ∷ 10 ∷ 9 ∷ []);
  weight_total = some 29;
  content = "cid";
  proposer = "a";
}

abbrev vote_of : String → SigMsg
vote_of key = record { has_sig = true; signer = some key; verified = true }

decide_broadcast-Shared_example :
    Shared
      (signers_of election "ka" (vote_of "kx" ∷ vote_of "kb" ∷ []))
      (signers_of election "kb" (vote_of "ka" ∷ vote_of "kc" ∷ []))
unfolding decide_broadcast wins_vote passes voted_weight add_weight share index_of signers_of
    collect_votes accepted_key set_key includes total
decide_broadcast-Shared_example =
    decide_broadcast-Shared election (10 ∷ 10 ∷ 9 ∷ []) "ka" "kb" (vote_of "kx" ∷ vote_of "kb" ∷ [])
      (vote_of "ka" ∷ vote_of "kc" ∷ []) refl refl refl refl refl

-- The slot of `a` at 1230, kept in the cache, seen from a head at 1234.
abbrev slot_a : Slot
slot_a = record { witness = some node_a; bn = 1230; bn_works = true; in_past = false }

abbrev state : WitnessState
state = record {
  witness_schedule = some (record { schedule = slot_a ∷ []; valid_epoch = 1; valid_height = 1200 });
  last_valid_slot = 0;
}

abbrev node : Node
node = record {
  env = record {
    network_id = "testnet/0bf2e474-6b9e-4165-ad4e-a0d78968d20c";
    election_db = election ∷ [];
    witnesses_at = λ h. [];
    header_id = λ h. some "id";
    seedrandom = λ seed k. record { num = 1; den = 2 };
  };
  head_height = 1234;
  last_parsed = 1233;
  witness_of = λ peer. some "a";
  last_end_block = some 1219;
  last_block_id = some "prev";
  unconfirmed = find_bob;
  included = λ from to. [];
}

abbrev proposal : Proposal
proposal = record { slot_height = some 1230; tx_ids = some ("a" ∷ []); full_inputs = none }

abbrev block_a : Block
block_a = record {
  txs = record { id = "a"; t = TransactionDbType.input } ∷ [];
  prevb = some "prev";
  merkle_root = some "root";
  sig_root = some "root";
}

handle_propose_block-signed_example :
    IsNear new_testnet 1234 1230
    × (1230 ≤ 1233)
    × (◌≡◌ {A = ℕ} 1230 1230)
    × IsScheduled node "peer" 1230 state.witness_schedule
unfolding handle_propose_block networks slot_of check_height check_slot check_witness in_slot
    get_block_schedule on_network scheduled get_valid_election_unchecked cache_hit
    calculate_consensus_round cached account_is verify_block proposed_ids gather sign_block
    create_block execute_block assemble select_txs check_nonce anchor_entry as_input is_onchain
    fetch_nonce has_nonce next_nonce nonce_is stored_nonce start_height lookup insert
handle_propose_block-signed_example =
    handle_propose_block-signed services new_testnet node "peer" proposal state
      (record state { last_valid_slot = 1230 }) block_a refl refl
