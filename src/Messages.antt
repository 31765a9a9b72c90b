-- ===== src/Messages.antt =====
-- src/domain/messages: the channel that a pairing opens. Everything in it is ciphertext.
pub mod Types
pub mod Repository
pub mod Service
pub mod Access
pub mod Blocking
pub mod Reading
pub mod Keys
mod Tests
