-- ===== src/Keeper.antt =====
-- src/services/new/witness/balanceKeeper.ts: the ledger of deposits, transfers and withdrawals, and
-- the balances that are read from it.
pub mod Store
pub mod Events
pub mod Appending
pub mod Posting
pub mod Records
pub mod Indexing
pub mod Agreement
pub mod Withdrawals
pub mod Payouts
pub mod Flattening
pub mod Addresses
pub mod Deposits
pub mod Crediting
pub mod Ticks
pub mod Signing
mod Signed
mod Sending
mod Tests
mod TickTests
mod SignedTests
