-- ===== src/Onboarding.antt =====
-- src/domain/onboarding: a device registers a key, and an admin's scan makes its owner a member.
pub mod Types
pub mod Repository
pub mod Service
mod Cases
mod Replay
mod Verifying
mod Numbers
mod Numbering
mod Knowing
mod Tests
