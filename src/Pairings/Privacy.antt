-- ===== src/Pairings/Privacy.antt =====
-- The silent decline of src/domain/pairings and PAIRING.md: what one participant can observe.
pub mod Mask
pub mod Reads
pub mod Writes
pub mod Handlers
pub mod SilentDecline
pub mod Declining
