-- ===== src/Lib.antt =====
-- A verification library for the VSC node: a model in cubical type theory of the parts of
-- the node that carry its consensus and its ledger, with theorems about them.
--
-- The node follows the Hive chain, keeps a pool of transactions, and takes part in a rota of
-- witnesses. The witness whose slot has come executes the pending transactions, posts the
-- ledger entries they cause and proposes a block; the other witnesses sign it.
--
--   Prelude           Boolean tests, lists, association lists, integers over the native
--                     naturals, with the lemmas the components share
--   Ledger            the class TxContext of services/new/witness/index.ts, which executes
--                     the transactions of one block: Ledger.Types holds the events and the
--                     transactions (services/new/vm/types.ts, services/new/types.ts), and
--                     Ledger.Context one function per method. The modules beside them prove
--                     the soundness of its balance cache (Posting, Soundness, Execution,
--                     Blocks), conservation and solvency (Balances, Solvency) and what one
--                     transfer does (Transfers)
--   Network           services/networks.ts
--   Election          services/new/witness/electionManager.ts: the stored elections (Store), the
--                     weight of signers (Weights), minimalRequiredElectionVotes (Threshold),
--                     btIndexElection (Indexing) and generateElection (Generate); Majority,
--                     Integrity and Shares prove
--   Block             the class WitnessServiceV2 of services/new/witness/index.ts: createBlock
--                     (Nonces, Create), handleProposeBlockMsg (Proposals), the vote of
--                     proposeBlock (Votes) and getWitnessActiveScore (Scores); Turns, Selection,
--                     Maximality, Agreement, Validation, Quorum and Scoring prove
--   Keeper            services/new/witness/balanceKeeper.ts: getSnapshot (Store); processEvents
--                     (Events), which reads the events that Ledger.Finalize exports; handleTxTick,
--                     which credits the deposits that Hive shows (Addresses, Deposits);
--                     createWithdrawTx with the completion of a batch (Withdrawals); and the
--                     signing of a batch, in runBatchOperation, handleBlockTick and handleMessage
--                     (Signing). Appending, Posting, Records, Flattening, Indexing, Agreement,
--                     Payouts, Crediting, Ticks, Signed and Sending prove
--   Schedule          services/new/witness/schedule.ts (Plan, Cache) and
--                     services/new/witness/slotTracker.ts (Tracking), with the theorems on
--                     rounds, shuffle, slots and the cache
--   Vm                classes StateCache and VmRunner of services/new/vm/vm-runner.ts: the state of a
--                     contract (State), its ledger calls and the end of an execution (Runner);
--                     Atomicity, Balance and Reading prove
--   Token             contracts/btc-token.ts: the records and the locks (Store), the actions that
--                     spend outputs (Spend) and those that follow the bitcoin chain (Deposit);
--                     Debits, Conservation, Supply, Redemption, History, Once, Authority and
--                     Doubling prove
--   Relay             contracts/btc-relay.ts: processHeaders and validateTxProof (Headers), whose final
--                     headers the mint of Token reads; Links, Walk, Final, Burial, Origin,
--                     Settled and, on both contracts, Minting prove
--   Pool              services/new/transactionPool.ts: the records (Store), verifyTxSignature
--                     (Signature), onTxAnnounce and ingestTx (Ingest), transactionCleaner and
--                     blockParser (Cleaner); Sole, Agreement, Cleaning and Rejection prove
--   Cbor              services/new/utils/cbor/cbor_to_eip712_converter.ts, which gives Pool the text
--                     that a wallet signs: tokensToObject (Values, Decode) and
--                     convertCBORToEIP712TypedData (Types). Encode describes what it reads, with
--                     fuel of three for each token; Roundtrip, Steps, Totality, Covers and Typing prove
--
-- Fractions are exact: where the code divides (the threshold of an election, the share of a
-- vote) the model compares cross-multiplied numbers or rounds the exact quotient, and does
-- not follow the last bit of a binary fraction. The amount of a deposit and the percentage of
-- a score, which the code gets by products in binary fractions, are parameters.
--
-- Conventions. State that the source keeps in fields of a class is a record passed along; a
-- MongoDB collection is the list of its records in the order a query reads them; a thrown
-- error is a value. Amounts are integers, as the code keeps them in thousandths. Balances
-- that the keeper reports, the contract VM and the hashes are parameters, since they come
-- from a database, from another process or from a library. The loops are recursion on lists
-- or on a counter that the source fixes; where one needs fuel, a theorem says that it is enough.
--
-- Not modelled: network and database I/O, IPFS, signatures, the GraphQL interface, logging,
-- and the parts of the node that only call them (the chain bridge, the peer to peer service, the
-- scripts); the cborg library that is copied into the sources; and, of the components above, the
-- sending of elections, the indexing of blocks, calls between contracts with their gas, and the
-- bytes of a BLS circuit.
pub mod Prelude
pub mod Ledger
pub mod Network
pub mod Election
pub mod Schedule
pub mod Block
pub mod Keeper
pub mod Vm
pub mod Token
pub mod Relay
pub mod Pool
pub mod Cbor
