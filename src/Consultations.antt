-- ===== src/Consultations.antt =====
-- src/domain/consultations: identity consultations, and the cards that they issue.
pub mod Types
pub mod Serial
pub mod Repository
pub mod Service
mod Canonical
mod Cards
mod Completion
mod Racing
mod Lookup
mod Tests
