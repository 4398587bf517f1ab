-- ===== src/Ledger.antt =====
-- Token amounts and ledger events, and `TxContext` of src/services/new/witness/index.ts, which
-- executes the transactions of a block. Children: `Types` and `Context` define, the others prove.
pub mod Types
pub mod Context
pub mod Finalize
pub mod Balances
pub mod Posting
pub mod Soundness
pub mod Execution
pub mod Blocks
pub mod Transfers
pub mod Solvency
mod Tests
