-- ===== src/Onboarding/Types.antt =====
-- src/domain/onboarding/types.rs, and the tables of migrations/0001_init.sql and
-- 0002_multi_key_and_staff.sql.
use box_fraise_server.Prelude.{ℕ, Option, List}
use box_fraise_server.Prelude.Text.{Text}
use box_fraise_server.Server.{Bytes}
use box_fraise_server.Members.Types.{UserStatus, Members}

-- A row of `device_keys`.
pub record DeviceKey : Type 0 where
  pub id : ℕ
  pub user_id : ℕ
  pub public_key : Bytes
  pub key_id : Text
  pub registered_at : ℕ

-- A row of `challenges`.
pub record Challenge : Type 0 where
  pub nonce : Text
  pub user_id : ℕ
  pub issued_at : ℕ
  pub expires_at : ℕ
  pub used_at : Option ℕ

-- The tables of the members, which onboarding writes too, and its own.
pub record Onboarding : Type 0 where
  pub members : Members
  pub device_keys : List DeviceKey
  pub challenges : List Challenge

pub record RegisterRequest : Type 0 where
  pub public_key : Text
  pub key_id : Text

pub record RegisterResponse : Type 0 where
  pub user_id : ℕ
  pub status : UserStatus
  pub session_token : Text

pub record ChallengeResponse : Type 0 where
  pub nonce : Text
  pub expires_at : ℕ

pub record VerifyRequest : Type 0 where
  pub nonce : Text
  pub signature_b64 : Text
  pub event_id : ℕ

pub record VerifyResponse : Type 0 where
  pub user_id : ℕ
  pub status : UserStatus
  pub verified_at : ℕ
  pub verified_at_event_id : ℕ

pub record VerifiedEvent : Type 0 where
  pub id : ℕ
  pub name : Text
  pub host_name : Text
  pub starts_at : ℕ
  pub address : Text

-- What `get_user_me` selects.
pub record MeRow : Type 0 where
  pub status : UserStatus
  pub display_name : Option Text
  pub verified_at : Option ℕ
  pub event : Option VerifiedEvent

pub record MeResponse : Type 0 where
  pub id : ℕ
  pub status : UserStatus
  pub verified_at : Option ℕ
  pub event : Option VerifiedEvent
