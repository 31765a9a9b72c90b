-- ===== src/Submissions.antt =====
-- src/domain/submissions: columns and photographs that members send in, and their review.
pub mod Types
pub mod Content
pub mod Repository
pub mod Service
mod Inversion
mod Review
mod Posting
mod Tests
