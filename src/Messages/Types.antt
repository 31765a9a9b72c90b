-- ===== src/Messages/Types.antt =====
-- src/domain/messages/types.rs and the tables of migrations/0026_messages.sql.
use box_fraise_server.Prelude.{ℕ, List}
use box_fraise_server.Prelude.Text.{Text}
use box_fraise_server.Server.{Bytes}
use box_fraise_server.Pairings.Repository

-- A row of `member_keys`.
pub record MemberKey : Type 0 where
  pub user_id : ℕ
  pub public_key : Bytes
  pub created_at : ℕ

-- A row of `messages`.
pub record MessageRow : Type 0 where
  pub id : ℕ
  pub pairing_id : ℕ
  pub sender_id : ℕ
  pub ciphertext : Bytes
  pub iv : Bytes
  pub created_at : ℕ

-- The two tables of the channel, beside those of the pairings that open it.
pub record Channel : Type 0 where
  pub base : Repository.Db
  pub member_keys : List MemberKey
  pub messages : List MessageRow

pub record PublishKeyRequest : Type 0 where
  pub public_key : Text

pub record PeerKey : Type 0 where
  pub public_key : Text

pub record SendMessageRequest : Type 0 where
  pub ciphertext : Text
  pub iv : Text

pub record Message : Type 0 where
  pub id : ℕ
  pub sender_id : ℕ
  pub ciphertext : Text
  pub iv : Text
  pub created_at : ℕ
