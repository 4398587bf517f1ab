-- ===== src/Election.antt =====
-- src/services/new/witness/electionManager.ts: the elections of the witnesses.
pub mod Store
pub mod Weights
pub mod Threshold
pub mod Majority
pub mod Indexing
pub mod Integrity
pub mod Generate
pub mod Shares
mod Tests
mod GenerateTests
