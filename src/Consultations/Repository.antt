-- ===== src/Consultations/Repository.antt =====
-- The statements of src/domain/consultations/repository.rs.
use box_fraise_server.Prelude.{
  ℕ, Bool, true, not, ◌&&◌, ◌||◌, Option, none, some, List, [], ◌∷◌, ◌++◌, ◌==◌, if◌then◌else◌,
}
use box_fraise_server.Prelude.Text.{Text, text_eq}
use box_fraise_server.Table.{find, select, exists, update, order_desc, first}
use box_fraise_server.Consultations.Types.{
  verified, is_verified, SocialVerification, active, replaced, revoked, is_active, IdentityCard,
  Consultations,
}

-- A foreign key to a table of which only the keys are kept; NULL refers to nothing.
abbrev pub refers : List ℕ → ℕ → Bool
refers keys id = exists (λ k. k == id) keys

abbrev pub refers_if_any : List ℕ → Option ℕ → Bool
refers_if_any keys none = true
refers_if_any keys (some id) = refers keys id

abbrev pub new_verification : ℕ → ℕ → ℕ → ℕ → Option ℕ → Option Text → Text → SocialVerification
new_verification now id user consulted_by salon notes consent = record {
  id = id;
  user_id = user;
  consulted_by_user_id = consulted_by;
  salon_id = salon;
  consulted_at = now;
  consultation_notes = notes;
  consent_snapshot = consent;
  status = verified;
  created_at = now;
}

-- `none` is a refusal by a constraint of the table.
unfoldable pub insert_verification : SocialVerification → Consultations → Option Consultations
insert_verification v t =
    if exists (λ w. w.id == v.id) t.social_verifications
      || not (
          refers t.users v.user_id
          && refers t.users v.consulted_by_user_id
          && refers_if_any t.salons v.salon_id)
    then none
    else some (record t { social_verifications = t.social_verifications ++ v ∷ [] })

abbrev pub new_card : ℕ → ℕ → ℕ → ℕ → Text → ℕ → Option ℕ → Text → IdentityCard
new_card now id user verification serial issuer salon design = record {
  id = id;
  user_id = user;
  social_verification_id = verification;
  serial = serial;
  issued_at = now;
  issued_by_user_id = issuer;
  salon_id = salon;
  design_version = design;
  status = active;
  replaced_by_card_id = none;
  revoked_at = none;
  revoked_reason = none;
  created_at = now;
}

-- The primary key and the UNIQUE constraint on the serial.
abbrev pub clashes : IdentityCard → IdentityCard → Bool
clashes c d = d.id == c.id || text_eq d.serial c.serial

unfoldable pub insert_card : IdentityCard → Consultations → Option Consultations
insert_card c t =
    if exists (clashes c) t.identity_cards
      || not (
          refers t.users c.user_id
          && refers t.users c.issued_by_user_id
          && exists (λ v. v.id == c.social_verification_id) t.social_verifications
          && refers_if_any t.salons c.salon_id)
    then none
    else some (record t { identity_cards = t.identity_cards ++ c ∷ [] })

unfoldable pub get_card_by_serial : Text → List IdentityCard → Option IdentityCard
get_card_by_serial serial cards = find (λ c. text_eq c.serial serial) cards

unfoldable pub get_card_by_id : ℕ → List IdentityCard → Option IdentityCard
get_card_by_id id cards = find (λ c. c.id == id) cards

abbrev pub is_revocable : ℕ → IdentityCard → Bool
is_revocable id c = c.id == id && is_active c.status

abbrev pub revoked_card : Text → ℕ → IdentityCard → IdentityCard
revoked_card reason at c = record c {
  status = revoked;
  revoked_at = some at;
  revoked_reason = some reason;
}

abbrev returned : Text → ℕ → Option IdentityCard → Option IdentityCard
returned reason at none = none
returned reason at (some c) = some (revoked_card reason at c)

-- The row as the UPDATE leaves it, and the table.
unfoldable pub revoke_card :
    ℕ → Text → ℕ → List IdentityCard → Option IdentityCard × List IdentityCard
revoke_card id reason at cards = (
  returned reason at (find (is_revocable id) cards),
  update (is_revocable id) (revoked_card reason at) cards,
)

abbrev pub replaced_card : ℕ → IdentityCard → IdentityCard
replaced_card new_id c = record c { status = replaced; replaced_by_card_id = some new_id }

-- No guard on the status, as in the source.
unfoldable pub mark_card_replaced : ℕ → ℕ → List IdentityCard → List IdentityCard
mark_card_replaced old_id new_id cards = update (λ c. c.id == old_id) (replaced_card new_id) cards

unfoldable pub latest_verification_for : ℕ → List SocialVerification → Option SocialVerification
latest_verification_for user verifications = first (
    order_desc (λ v. v.consulted_at)
      (select (λ v. v.user_id == user && is_verified v.status) verifications))

unfoldable pub active_card_for : ℕ → List IdentityCard → Option IdentityCard
active_card_for user cards =
    first
      (order_desc (λ c. c.issued_at) (select (λ c. c.user_id == user && is_active c.status) cards))
