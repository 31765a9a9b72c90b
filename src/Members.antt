-- ===== src/Members.antt =====
-- src/domain/members: memberships granted in person, their credentials and attendances.
pub mod Types
pub mod Repository
pub mod Service
mod Credentials
mod Tests
