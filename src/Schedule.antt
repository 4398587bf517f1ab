-- ===== src/Schedule.antt =====
-- src/services/new/witness/schedule.ts and slotTracker.ts: which witness proposes in which slot.
pub mod Plan
pub mod Cache
pub mod Shuffle
pub mod Rounds
pub mod Slots
pub mod Caching
pub mod Tracking
mod Tests
