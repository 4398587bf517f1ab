-- ===== src/Token.antt =====
-- contracts/btc-token.ts: the contract of the wrapped bitcoin.
pub mod Store
pub mod Spend
pub mod Deposit
pub mod Debits
pub mod Conservation
pub mod Supply
pub mod Redemption
pub mod History
pub mod Once
pub mod Authority
pub mod Doubling
mod Tests
