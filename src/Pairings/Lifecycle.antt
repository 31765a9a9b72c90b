-- ===== src/Pairings/Lifecycle.antt =====
-- The life of a pairing: how any request to src/domain/pairings changes any row, and what follows
-- for the rows that sequences of requests can reach.
pub mod Cases
pub mod Step
pub mod Evolves
pub mod Invariant
pub mod Final
