-- ===== src/Token/Tests.antt =====
-- Runs of the contract of contracts/btc-token.ts, and the theorems at concrete calls.
use vsc_node.Prelude.{
  ℕ, String, ◌≡◌, refl, List, [], ◌∷◌, Option, none, some, true, arith, lookup, insert,
}
use vsc_node.Prelude.Int.{ℤ, pos, ◌+ℤ◌, ◌-ℤ◌}
use vsc_node.Token.Store.{Input, Controller, LedgerOutput, TokenState, ApiInput}
use vsc_node.Token.Spend.{
  Transfer, HtlcTransfer, debit_of, collect, store_debits, is_address, new_output, is_spendable,
  finish_spend, apply_tx,
}
use vsc_node.Token.Deposit.{
  TxProof, of_int, divide, btc_amount, truthy, register_deposit, named_owner, owner_of,
  minted_output, mint_outputs, is_wrapped, validate, is_valid, mint,
}
use vsc_node.Token.Debits.{total_balance}
use vsc_node.Token.Conservation.{supply, total_redeemed}
use vsc_node.Token.Supply.{minted}
use vsc_node.Token.History.{Host, History, start, then_call, transfer}
use vsc_node.Token.Once.{Run, Accepted, mint_once}

-- The id of an output names the transaction of its first input.
abbrev id_by : List Input → String
id_by [] = "none"
id_by (input ∷ inputs) = elim input.index [ none ↦ "spent" | some i ↦ "minted" ]

abbrev id_of : LedgerOutput → String
id_of out = id_by out.inputs

abbrev address_of : List Controller → String
address_of cs = "lock"

abbrev host : Host
host = record {
  sha256 = λ text. text;
  id_of = id_of;
  address_of = address_of;
  redeem_id = λ r block. block;
  deposit_hash = λ owner. owner;
  hash_address = λ hash. hash;
  encode = λ text. text;
  redeem_hash = λ address. some address;
  check = λ header proof. some true;
}

abbrev call_of : String → ApiInput
call_of sender = record { sender = sender; included_in = "block"; included_block = 500 }

abbrev nothing : TokenState
nothing = record { outputs = []; redeems = []; btc_addrs = []; wraps = [] }

abbrev headers : ℕ → Option String
headers height = some "header"

-- Two bitcoin to the registered owner Alice, and an output that nobody claims.
abbrev deposit : TxProof
deposit = record {
  tx_id = "btc-tx";
  confirming_height = 820_000;
  vout =
      record { hash = some "alice"; val = 200_000_000; op_return = none }
      ∷ record { hash = some "other"; val = 7; op_return = none }
      ∷ [];
}

abbrev registered : TokenState
registered =
    register_deposit host.deposit_hash host.hash_address host.encode (call_of "alice") none nothing

abbrev wrapped : TokenState
wrapped =
    mint host.check headers host.deposit_hash host.hash_address host.encode (call_of "carol") id_of
      none deposit registered

run-mint : supply wrapped ≡ pos 20_000_000_000
unfolding mint validate is_valid is_wrapped mint_outputs owner_of named_owner minted_output
    btc_amount of_int divide truthy register_deposit lookup insert supply total_balance
    total_redeemed ◌+ℤ◌
run-mint = refl

abbrev half : Input
half = record {
  id = "minted";
  amount = pos 10_000_000_000;
  hash_lock = none;
  index = none;
  t = none;
}

abbrev payment : Transfer
payment = record { dest = "bob"; memo = none; inputs = half ∷ [] }

abbrev minted_btc : LedgerOutput
minted_btc = minted_output "btc-tx" 0 200_000_000 (some "alice")

abbrev paid : TokenState
paid =
    finish_spend host.sha256 id_of address_of (call_of "alice")
      (new_output (some "bob") none (pos 10_000_000_000) none (half ∷ []))
      (debit_of half minted_btc ∷ []) wrapped

run-payment : apply_tx host.sha256 id_of address_of (call_of "alice") payment wrapped ≡ some paid
unfolding mint validate is_valid is_wrapped mint_outputs owner_of named_owner minted_output
    btc_amount of_int divide truthy register_deposit lookup insert apply_tx collect is_spendable
    is_address finish_spend store_debits debit_of ◌+ℤ◌ ◌-ℤ◌
run-payment = refl

abbrev issued_now : ℤ
issued_now =
    minted host.check headers host.deposit_hash host.hash_address host.encode (call_of "carol")
      id_of none deposit registered

mint_once_example :
    mint host.check
      (λ height. none)
      host.deposit_hash
      host.hash_address
      host.encode
      (call_of "eve")
      id_of
      (some "eve")
      deposit
      paid
    ≡ paid
unfolding validate is_valid
mint_once_example =
    mint_once host (call_of "carol") (call_of "eve") headers (λ height. none) none (some "eve")
      deposit deposit registered paid (omega arith) refl refl
      (Run.then_call Run.start (Accepted.transfer (call_of "alice") payment run-payment))

abbrev stolen : Transfer
stolen = record { dest = "mallory"; memo = none; inputs = half ∷ [] }

abbrev swap : HtlcTransfer
swap = record {
  block_lock = 600;
  hash_lock = "secret";
  receiver = "bob";
  memo = none;
  inputs = half ∷ [];
}
