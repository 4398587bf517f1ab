-- ===== src/Block.antt =====
-- src/services/new/witness/index.ts, WitnessServiceV2: how a witness makes, checks and signs blocks.
pub mod Nonces
pub mod Turns
pub mod Selection
pub mod Maximality
pub mod Create
pub mod Proposals
pub mod Validation
pub mod Agreement
pub mod Scores
pub mod Scoring
pub mod Votes
pub mod Quorum
mod Tests
mod ScoreTests
