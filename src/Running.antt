-- ===== src/Running.antt =====
-- src/domain/running: runners, who sign up with a password, and the runs that they log.
pub mod Types
pub mod Board
pub mod Repository
pub mod Service
mod Cases
mod Sound
mod Signing
mod Averages
mod Standing
mod Tests
