-- ===== src/Runaway.antt =====
-- src/domain/runaway: anonymous answers, read by an editor before anybody else.
pub mod Service
pub mod Review
pub mod Publishing
mod Tests
