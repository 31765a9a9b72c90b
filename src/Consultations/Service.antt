-- ===== src/Consultations/Service.antt =====
-- The handlers of src/domain/consultations/service.rs. `random` is what the random generator fills
-- the ten bytes of a serial with.
use box_fraise_server.Prelude.{
  ℕ, String, not, Option, none, some, List, [], ◌∷◌, ◌==◌, if◌then◌else◌, is_some,
}
use box_fraise_server.Prelude.Text.{Text}
use box_fraise_server.Errors.{
  Result, ok, err, bad_request, forbidden, not_found, conflict, db, ◌>>=◌, ◌>>◌, fail_if, ok_or,
}
use box_fraise_server.Server.{Bytes, Env, Json, write_audit}
use box_fraise_server.Table.{find}
use box_fraise_server.Consultations.Types.{
  SocialVerification, IdentityCard, StaffTraining, Consultations, is_active,
  CompleteConsultationRequest, CompleteConsultationResponse, RevokeCardRequest, ReplaceCardRequest,
  CardLookupResponse, MyVerificationStatus,
}
use box_fraise_server.Consultations.Serial.{generate_serial, canonicalise_serial}
use box_fraise_server.Consultations.Repository

abbrev pub trained : Option StaffTraining → Result (Unit {0})
trained none = err forbidden
trained (some row) =
    if is_some row.terminated_at
    then err forbidden
    else if not (is_some row.consultation_training_completed_at)
    then err forbidden
    else ok tt

unfoldable pub ensure_can_consult : ℕ → Consultations → Result (Unit {0})
ensure_can_consult user t = trained (find (λ s. s.user_id == user) t.staff)

abbrev optional : Option ℕ → Json
optional none = Json.null
optional (some n) = Json.num n

-- `audit::write` of an act of an admin.
abbrev pub audited : Env → ℕ → String → ℕ → List (String × Json) → Consultations → Consultations
audited env actor action target metadata t = record t {
  audit_events =
      write_audit env
        (record {
          actor_type = "admin";
          actor_id = some actor;
          action = action;
          target = some (Json.num target);
          metadata = metadata;
        })
        t.audit_events;
}

-- The early returns of `complete_consultation`.
unfoldable pub check_complete : ℕ → CompleteConsultationRequest → Consultations → Result (Unit {0})
check_complete consultant req t = do
  fail_if (req.user_id == consultant) (bad_request "a consultant cannot verify themselves")
  ensure_can_consult consultant t

abbrev then_card : IdentityCard → Option Consultations → Option Consultations
then_card card none = none
then_card card (some t) = Repository.insert_card card t

-- The transaction of a consultation: both rows, or none of them.
unfoldable pub write_consultation :
    SocialVerification → IdentityCard → Consultations → Option Consultations
write_consultation v card t = then_card card (Repository.insert_verification v t)

unfoldable pub conclude_complete :
    Env
    → ℕ
    → CompleteConsultationRequest
    → SocialVerification
    → IdentityCard
    → Option Consultations
    → Consultations
    → Result CompleteConsultationResponse × Consultations
conclude_complete env consultant req v card none t = (err db, t)
conclude_complete env consultant req v card (some s) t = (
  ok (record { verification = v; card = card }),
  audited env consultant "consultation.complete" req.user_id
      (("verification_id", Json.num v.id)
        ∷ ("card_id", Json.num card.id)
        ∷ ("card_serial", Json.text card.serial)
        ∷ ("salon_id", optional req.salon_id)
        ∷ [])
      s,
)

-- The rows that a consultation inserts.
abbrev pub verification_of : Env → ℕ → CompleteConsultationRequest → SocialVerification
verification_of env consultant req =
    Repository.new_verification env.db_now env.uuid req.user_id consultant req.salon_id
      req.consultation_notes req.consent_snapshot

abbrev pub card_of : Env → Bytes → ℕ → CompleteConsultationRequest → IdentityCard
card_of env random consultant req =
    Repository.new_card env.db_now env.other_uuid req.user_id env.uuid (generate_serial random)
      consultant req.salon_id req.design_version

unfoldable pub complete_consultation :
    Env
    → Bytes
    → ℕ
    → CompleteConsultationRequest
    → Consultations
    → Result CompleteConsultationResponse × Consultations
complete_consultation env random consultant req t = elim (check_complete consultant req t) [
  | err e ↦ (err e, t)
  | ok _ ↦
      let v = verification_of env consultant req in
      let card = card_of env random consultant req in
      conclude_complete env consultant req v card (write_consultation v card t) t
]

unfoldable pub conclude_revoke :
    Env
    → ℕ
    → RevokeCardRequest
    → Option IdentityCard × List IdentityCard
    → Consultations
    → Result IdentityCard × Consultations
conclude_revoke env actor req (none, cards) t = (err not_found, record t { identity_cards = cards })
conclude_revoke env actor req (some card, cards) t = (
  ok card,
  audited env actor "card.revoke" card.id
      (("reason", Json.text req.reason) ∷ ("serial", Json.text card.serial) ∷ [])
      (record t { identity_cards = cards }),
)

unfoldable pub revoke_card :
    Env → ℕ → ℕ → RevokeCardRequest → Consultations → Result IdentityCard × Consultations
revoke_card env actor id req t =
    conclude_revoke env actor req (Repository.revoke_card id req.reason env.now t.identity_cards) t

-- The first transaction of `replace_card`, and the early returns.
unfoldable pub check_replace : ℕ → Consultations → Result IdentityCard
check_replace id t = do
  old ← ok_or (Repository.get_card_by_id id t.identity_cards) not_found
  fail_if (not (is_active old.status)) conflict
  ok old

abbrev design_of : ReplaceCardRequest → IdentityCard → Text
design_of req old = elim req.design_version [ none ↦ old.design_version | some d ↦ d ]

abbrev pub replacement_of : Env → Bytes → ℕ → IdentityCard → ReplaceCardRequest → IdentityCard
replacement_of env random actor old req =
    Repository.new_card env.db_now env.uuid old.user_id old.social_verification_id
      (generate_serial random) actor old.salon_id (design_of req old)

unfoldable pub conclude_replace :
    Env
    → ℕ
    → IdentityCard
    → IdentityCard
    → Option Consultations
    → Consultations
    → Result IdentityCard × Consultations
conclude_replace env actor old card none t = (err db, t)
conclude_replace env actor old card (some s) t = (
  ok card,
  audited env actor "card.replace" card.id
      (("old_card_id", Json.num old.id)
        ∷ ("old_serial", Json.text old.serial)
        ∷ ("new_serial", Json.text card.serial)
        ∷ [])
      (record s { identity_cards = Repository.mark_card_replaced old.id card.id s.identity_cards }),
)

-- The second transaction of `replace_card` and the rest of it, on the card `old` that the first
-- transaction read.
unfoldable pub finish_replace :
    Env
    → Bytes
    → ℕ
    → IdentityCard
    → ReplaceCardRequest
    → Consultations
    → Result IdentityCard × Consultations
finish_replace env random actor old req t =
    let card = replacement_of env random actor old req in
    conclude_replace env actor old card (Repository.insert_card card t) t

unfoldable pub replace_card :
    Env → Bytes → ℕ → ℕ → ReplaceCardRequest → Consultations → Result IdentityCard × Consultations
replace_card env random actor id req t = elim (check_replace id t) [
  | err e ↦ (err e, t)
  | ok old ↦ finish_replace env random actor old req t
]

abbrev pub public_view : IdentityCard → CardLookupResponse
public_view card = record {
  serial = card.serial;
  is_valid = is_active card.status;
  status = card.status;
  issued_at = card.issued_at;
  design_version = card.design_version;
}

unfoldable pub lookup_card : Text → Consultations → Result CardLookupResponse
lookup_card input t = do
  serial ← ok_or (canonicalise_serial input) (bad_request "invalid serial")
  card ← ok_or (Repository.get_card_by_serial serial t.identity_cards) not_found
  ok (public_view card)

unfoldable pub my_verification_status : ℕ → Consultations → Result MyVerificationStatus
my_verification_status user t =
    let verification = Repository.latest_verification_for user t.social_verifications in
    ok (record {
      tier = if is_some verification then 2 else 1;
      verified = is_some verification;
      verification = verification;
      active_card = Repository.active_card_for user t.identity_cards;
    })

-- The transactions that write, one after another. `late_replacing` is the second transaction of a
-- replacement whose first one ran at any earlier time, and read the card that it carries.
pub data Request : Type 0 where
  completing : Bytes → ℕ → CompleteConsultationRequest → Request
  revoking : ℕ → ℕ → RevokeCardRequest → Request
  replacing : Bytes → ℕ → ℕ → ReplaceCardRequest → Request
  late_replacing : Bytes → ℕ → IdentityCard → ReplaceCardRequest → Request

unfoldable pub serve : Env → Request → Consultations → Consultations
serve env (completing random consultant req) t =
    (complete_consultation env random consultant req t).1
serve env (revoking actor id req) t = (revoke_card env actor id req t).1
serve env (replacing random actor id req) t = (replace_card env random actor id req t).1
serve env (late_replacing random actor old req) t = (finish_replace env random actor old req t).1

unfoldable pub run : List (Env × Request) → Consultations → Consultations
run [] t = t
run ((env, req) ∷ rest) t = run rest (serve env req t)
