-- ===== src/Pairings.antt =====
-- src/domain/pairings: two people who met decide, days later and apart, whether they may talk.
pub mod Types
pub mod Repository
pub mod Service
pub mod Trace
pub mod Inversion
pub mod Privacy
pub mod Lifecycle
pub mod Claims
pub mod Atomic
pub mod Gate
pub mod Deciding
mod Tests
