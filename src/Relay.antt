-- ===== src/Relay.antt =====
-- contracts/btc-relay.ts: the contract that follows the headers of the bitcoin chain.
pub mod Headers
pub mod Links
pub mod Walk
pub mod Final
pub mod Burial
pub mod Origin
pub mod Settled
mod Tests
pub mod Minting
mod MintingTests
