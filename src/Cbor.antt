-- ===== src/Cbor.antt =====
-- services/new/utils/cbor/cbor_to_eip712_converter.ts: CBOR tokens are read into a value, and each
-- leaf is shown to a visitor.
pub mod Values
pub mod Decode
pub mod Encode
mod Roundtrip
mod Steps
mod Totality
pub mod Types
pub mod Covers
mod Typing
mod Tests
