-- ===== src/Consultations/Types.antt =====
-- src/domain/consultations/types.rs, and the tables of migrations/0005_consultations_and_cards.sql.
use box_fraise_server.Prelude.{ℕ, Bool, true, false, Option, List}
use box_fraise_server.Prelude.Text.{Text, codes}
use box_fraise_server.Server.{AuditEvent}

pub data VerificationStatus : Type 0 where
  verified withdrawn expired : VerificationStatus

abbrev pub is_verified : VerificationStatus → Bool
is_verified verified = true
is_verified withdrawn = false
is_verified expired = false

-- A row of `social_verifications`. The snapshot is a JSON document, kept as its text.
pub record SocialVerification : Type 0 where
  pub id : ℕ
  pub user_id : ℕ
  pub consulted_by_user_id : ℕ
  pub salon_id : Option ℕ
  pub consulted_at : ℕ
  pub consultation_notes : Option Text
  pub consent_snapshot : Text
  pub status : VerificationStatus
  pub created_at : ℕ

pub data CardStatus : Type 0 where
  active replaced revoked lost : CardStatus

abbrev pub is_active : CardStatus → Bool
is_active active = true
is_active replaced = false
is_active revoked = false
is_active lost = false

-- A row of `identity_cards`.
pub record IdentityCard : Type 0 where
  pub id : ℕ
  pub user_id : ℕ
  pub social_verification_id : ℕ
  pub serial : Text
  pub issued_at : ℕ
  pub issued_by_user_id : ℕ
  pub salon_id : Option ℕ
  pub design_version : Text
  pub status : CardStatus
  pub replaced_by_card_id : Option ℕ
  pub revoked_at : Option ℕ
  pub revoked_reason : Option Text
  pub created_at : ℕ

-- What a consultation reads of a row of `staff`, and its key.
pub record StaffTraining : Type 0 where
  pub user_id : ℕ
  pub consultation_training_completed_at : Option ℕ
  pub terminated_at : Option ℕ

-- The keys of `users` and `salons` are what the foreign keys refer to.
pub record Consultations : Type 0 where
  pub users : List ℕ
  pub salons : List ℕ
  pub staff : List StaffTraining
  pub social_verifications : List SocialVerification
  pub identity_cards : List IdentityCard
  pub audit_events : List AuditEvent

pub record CompleteConsultationRequest : Type 0 where
  pub user_id : ℕ
  pub salon_id : Option ℕ
  pub consultation_notes : Option Text
  pub consent_snapshot : Text
  pub design_version : Text

abbrev pub default_design_version : Text
default_design_version = codes "v1"

pub record CompleteConsultationResponse : Type 0 where
  pub verification : SocialVerification
  pub card : IdentityCard

pub record RevokeCardRequest : Type 0 where
  pub reason : Text

pub record ReplaceCardRequest : Type 0 where
  pub design_version : Option Text

pub record CardLookupResponse : Type 0 where
  pub serial : Text
  pub is_valid : Bool
  pub status : CardStatus
  pub issued_at : ℕ
  pub design_version : Text

pub record MyVerificationStatus : Type 0 where
  pub tier : ℕ
  pub verified : Bool
  pub verification : Option SocialVerification
  pub active_card : Option IdentityCard
