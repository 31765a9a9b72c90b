-- ===== src/Consultations/Tests.antt =====
-- Consultations and cards of src/domain/consultations on concrete tables.
use box_fraise_server.Prelude.{
  ℕ, ◌+◌, ◌≡◌, refl, true, false, none, some, arith, List, [], ◌∷◌, All, ◌<◌,
}
use box_fraise_server.Prelude.Text.{codes, text_eq}
use box_fraise_server.Errors.{ok}
use box_fraise_server.Server.{Env, Bytes}
use box_fraise_server.Table.{find, exists, update}
use box_fraise_server.Consultations.Types.{
  active, replaced, is_active, IdentityCard, Consultations, CardLookupResponse,
  CompleteConsultationRequest, CompleteConsultationResponse, RevokeCardRequest,
  default_design_version,
}
use box_fraise_server.Consultations.Serial.{
  hex, group, generate_serial, all_hex, stripped, canonicalise_serial,
}
use box_fraise_server.Consultations.Repository.{
  insert_verification, insert_card, get_card_by_serial, get_card_by_id, mark_card_replaced,
}
use box_fraise_server.Consultations.Repository
use box_fraise_server.Consultations.Service.{
  ensure_can_consult, check_complete, write_consultation, conclude_complete, complete_consultation,
  conclude_revoke, revoke_card, check_replace, conclude_replace, finish_replace, public_view,
  lookup_card, verification_of, card_of, replacement_of, completing, late_replacing, run,
}
use box_fraise_server.Consultations.Racing.{finish_replace-revoked}
use box_fraise_server.Consultations.Lookup.{complete_consultation-lookup_card, lookup_card-final}

abbrev at_time : ℕ → Env
at_time t = record {
  now = t;
  later = t;
  db_now = t;
  uuid = t + 100;
  other_uuid = t + 200;
  nonce = [];
  audit_up = true;
}

abbrev random : Bytes
random = 163 ∷ 244 ∷ 155 ∷ 44 ∷ 141 ∷ 1 ∷ 94 ∷ 118 ∷ 74 ∷ 159 ∷ []

abbrev other_random : Bytes
other_random = 0 ∷ 244 ∷ 155 ∷ 44 ∷ 141 ∷ 1 ∷ 94 ∷ 118 ∷ 74 ∷ 159 ∷ []

serial_runs : generate_serial random ≡ codes "A3F4-9B2C-8D01-5E76-4A9F"
unfolding generate_serial group hex
serial_runs = refl

-- User 2 is a trained consultant; user 1 is not on the staff.
abbrev tables : Consultations
tables = record {
  users = 1 ∷ 2 ∷ [];
  salons = [];
  staff =
      record { user_id = 2; consultation_training_completed_at = some 1; terminated_at = none }
      ∷ [];
  social_verifications = [];
  identity_cards = [];
  audit_events = [];
}

abbrev request : CompleteConsultationRequest
request = record {
  user_id = 1;
  salon_id = none;
  consultation_notes = none;
  consent_snapshot = codes "{}";
  design_version = default_design_version;
}

abbrev issued : CompleteConsultationResponse
issued = record {
  verification = verification_of (at_time 5) 2 request;
  card = card_of (at_time 5) random 2 request;
}

completes : (complete_consultation (at_time 5) random 2 request tables).0 ≡ ok issued
unfolding complete_consultation check_complete ensure_can_consult find write_consultation
    insert_verification exists insert_card conclude_complete
completes = refl

-- Lower case and spaces, as from a copy.
abbrev spelling : List ℕ
spelling = codes "a3f4 9b2c 8d015e764a9f"

same_letters : stripped spelling ≡ stripped issued.card.serial
unfolding stripped generate_serial group hex
same_letters = refl

bytes_random : All (λ b. b < 256) random
bytes_random = (
  omega arith,
  (
    omega arith,
    (
      omega arith,
      (
        omega arith,
        (
          omega arith,
          (omega arith, (omega arith, (omega arith, (omega arith, (omega arith, tt))))),
        ),
      ),
    ),
  ),
)

complete_consultation-lookup_card_example :
    (lookup_card spelling (complete_consultation (at_time 5) random 2 request tables).1
      ≡ ok (public_view issued.card))
    × (issued.card.user_id ≡ request.user_id)
    × (is_active issued.card.status ≡ true)
complete_consultation-lookup_card_example =
    complete_consultation-lookup_card (at_time 5) random 2 request tables spelling refl bytes_random
      completes same_letters

abbrev reason : RevokeCardRequest
reason = record { reason = codes "lost" }

-- After the consultation, and after the revocation of its card.
abbrev with_card : Consultations
with_card = record tables {
  social_verifications = issued.verification ∷ [];
  identity_cards = issued.card ∷ [];
}

abbrev without_card : Consultations
without_card = record with_card {
  identity_cards = Repository.revoked_card reason.reason 7 issued.card ∷ [];
}

looks_dead :
    lookup_card spelling without_card
    ≡ ok (public_view (Repository.revoked_card reason.reason 7 issued.card))
unfolding lookup_card canonicalise_serial stripped all_hex group get_card_by_serial find text_eq
    generate_serial hex
looks_dead = refl

lookup_card-final_example :
    (q : CardLookupResponse) × (lookup_card spelling (
        run
          ((at_time 8, late_replacing other_random 2 issued.card (record { design_version = none }))
            ∷ (at_time 9, completing random 2 request)
            ∷ [])
          without_card)
      ≡ ok q)
    × (q.is_valid ≡ false)
lookup_card-final_example =
    lookup_card-final spelling
      ((at_time 8, late_replacing other_random 2 issued.card (record { design_version = none }))
        ∷ (at_time 9, completing random 2 request)
        ∷ [])
      without_card looks_dead refl

reads_old : check_replace 205 with_card ≡ ok issued.card
unfolding check_replace get_card_by_id find
reads_old = refl

goes_on :
    (finish_replace
      (at_time 8)
      other_random
      2
      issued.card
      (record { design_version = none })
      (revoke_card (at_time 7) 2 205 reason with_card).1).0
    ≡ ok (replacement_of (at_time 8) other_random 2 issued.card (record { design_version = none }))
unfolding finish_replace conclude_replace insert_card exists revoke_card Repository.revoke_card
    conclude_revoke update find text_eq generate_serial group hex
goes_on = refl

finish_replace-revoked_example :
    let u =
      (finish_replace
        (at_time 8)
        other_random
        2
        issued.card
        (record { design_version = none })
        (revoke_card (at_time 7) 2 205 reason with_card).1).1 in
    let card =
      replacement_of (at_time 8) other_random 2 issued.card (record { design_version = none }) in
    (get_card_by_id card.id u.identity_cards ≡ some card)
    × (card.status ≡ active)
    × (card.user_id ≡ issued.card.user_id)
    × ((c : IdentityCard) × (get_card_by_id 205 u.identity_cards ≡ some c)
        × (c.status ≡ replaced)
        × (c.replaced_by_card_id ≡ some card.id)
        × (c.revoked_at ≡ some 7)
        × (c.revoked_reason ≡ some reason.reason))
finish_replace-revoked_example =
    finish_replace-revoked (at_time 7) (at_time 8) other_random 2 2 205 reason
      (record { design_version = none }) with_card reads_old goes_on
