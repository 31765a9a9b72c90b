-- ===== src/Adverts.antt =====
-- src/domain/adverts: adverts that a runner chooses to open, and is paid for opening.
pub mod Types
pub mod Repository
pub mod Requests
pub mod Service
pub mod Trace
pub mod Opening
pub mod Cases
pub mod Books
pub mod Attention
pub mod Listing
pub mod Receipts
pub mod Ledgers
pub mod Accepting
pub mod Refusals
pub mod Settling
mod Tests
