-- ===== src/Consultations/Completion.antt =====
-- Who may complete a consultation of src/domain/consultations, and a replacement that comes late.
use box_fraise_server.Prelude.{
  ℕ, ◌≡◌, ◌≢◌, refl, ap, ◌∙◌, inl, inr, true, false, Option, none, some, arith, List, [], ◌∷◌, ◌++◌,
  Bool-cases, Option-cases, ◌==◌, is_some,
}
use box_fraise_server.Prelude.Text.{text_eq}
use box_fraise_server.Errors.{ok, Result-cases}
use box_fraise_server.Server.{Bytes, Env}
use box_fraise_server.Table.{find, exists}
use box_fraise_server.Consultations.Types.{
  is_active, StaffTraining, SocialVerification, IdentityCard, Consultations,
  CompleteConsultationRequest, CompleteConsultationResponse, RevokeCardRequest,
}
use box_fraise_server.Consultations.Repository.{clashes, mark_card_replaced, get_card_by_id}
use box_fraise_server.Consultations.Service.{
  trained, ensure_can_consult, check_complete, verification_of, card_of, write_consultation,
  conclude_complete, complete_consultation, check_replace, conclude_replace, conclude_revoke,
}
use box_fraise_server.Consultations.Cards.{write_consultation-some}

trained-ok :
    (o : Option StaffTraining)
    → trained o ≡ ok tt
    → (row : StaffTraining) × (o ≡ some row)
      × (row.terminated_at ≡ none)
      × (is_some row.consultation_training_completed_at ≡ true)
trained-ok none h = cc h
trained-ok (some row) h = (row, refl, ground arith, ground arith)

pub check_replace-ok :
    (id : ℕ) (t : Consultations) {old : IdentityCard}
    → check_replace id t ≡ ok old
    → (get_card_by_id id t.identity_cards ≡ some old) × (is_active old.status ≡ true)
unfolding check_replace
check_replace-ok id t {old} h = elim (Option-cases (get_card_by_id id t.identity_cards)) [
  | inl e ↦ cc (rw e at h)
  | inr (c, e) ↦ elim (Bool-cases (is_active c.status)) [
    | inr f ↦ cc (rw (e, f) at h)
    | inl f ↦ let same : c ≡ old = cc (rw (e, f) at h) in (rw e (ap some same), rw (← same) f)
  ]
]

pub conclude_complete-ok :
    (env : Env) (consultant : ℕ) (req : CompleteConsultationRequest) (v : SocialVerification)
    (c : IdentityCard) (o : Option Consultations) (t : Consultations)
    {r : CompleteConsultationResponse}
    → (conclude_complete env consultant req v c o t).0 ≡ ok r
    → (s : Consultations) × (o ≡ some s)
      × ((conclude_complete env consultant req v c o t).1.social_verifications
          ≡ s.social_verifications)
      × ((conclude_complete env consultant req v c o t).1.identity_cards ≡ s.identity_cards)
      × (r ≡ record { verification = v; card = c })
unfolding conclude_complete
conclude_complete-ok env consultant req v c none t h = cc h
conclude_complete-ok env consultant req v c (some s) t h = (s, refl, refl, refl, cc h)

check_complete-ok :
    (consultant : ℕ) (req : CompleteConsultationRequest) (t : Consultations)
    → check_complete consultant req t ≡ ok tt
    → (req.user_id ≢ consultant) × (ensure_can_consult consultant t ≡ ok tt)
unfolding check_complete
check_complete-ok consultant req t h = elim (Bool-cases (req.user_id == consultant)) [
  | inl e ↦ cc (rw e at h)
  | inr e ↦ (ground arith, rw e at h)
]

fresh_serial :
    (c : IdentityCard) (cards : List IdentityCard)
    → exists (clashes c) cards ≡ false
    → exists (λ x. text_eq x.serial c.serial) cards ≡ false
unfolding exists
fresh_serial c [] h = refl
fresh_serial c (x ∷ cards) h = let rest = fresh_serial c cards in ground (arith, rest)

-- A consultation is accepted only of somebody other than the consultant, by a consultant on the
-- staff who has been trained and whose employment has not ended; then one verification and one
-- active card, which refers to it and has a serial that no card had, are stored after all that
-- was there.
complete_consultation-ok :
    (env : Env) (random : Bytes) (consultant : ℕ) (req : CompleteConsultationRequest)
    (t : Consultations) {r : CompleteConsultationResponse}
    → (complete_consultation env random consultant req t).0 ≡ ok r
    → let s = (complete_consultation env random consultant req t).1 in
      (req.user_id ≢ consultant)
      × ((row : StaffTraining) × (find (λ m. m.user_id == consultant) t.staff ≡ some row)
          × (row.terminated_at ≡ none)
          × (is_some row.consultation_training_completed_at ≡ true))
      × (s.social_verifications ≡ t.social_verifications ++ r.verification ∷ [])
      × (s.identity_cards ≡ t.identity_cards ++ r.card ∷ [])
      × (exists (λ c. text_eq c.serial r.card.serial) t.identity_cards ≡ false)
      × (r.card.social_verification_id ≡ r.verification.id)
unfolding complete_consultation ensure_can_consult
complete_consultation-ok env random consultant req t h =
    elim (Result-cases (check_complete consultant req t)) [
      | inr (x, e) ↦ cc (rw (e, complete_consultation) at h)
      | inl (_, e) ↦
          let v = verification_of env consultant req in
          let c = card_of env random consultant req in
          let (s, f, verifications, cards, made) =
            conclude_complete-ok env consultant req v c (write_consultation v c t) t
              (rw (e, complete_consultation) at h) in
          let (fresh, rows) = write_consultation-some v c t f in
          let (other, able) = check_complete-ok consultant req t e in
          rw (e, complete_consultation, made)
            (
              other,
              trained-ok (find (λ m. m.user_id == consultant) t.staff) able,
              verifications ∙ ap (λ x. x.social_verifications) rows,
              cards ∙ ap (λ x. x.identity_cards) rows,
              fresh_serial c t.identity_cards fresh,
              refl,
            )
    ]

pub conclude_replace-ok :
    (env : Env) (actor : ℕ) (old c : IdentityCard) (o : Option Consultations) (t : Consultations)
    {card : IdentityCard}
    → (conclude_replace env actor old c o t).0 ≡ ok card
    → (s : Consultations) × (o ≡ some s)
      × ((conclude_replace env actor old c o t).1.identity_cards
          ≡ mark_card_replaced old.id c.id s.identity_cards)
      × (c ≡ card)
unfolding conclude_replace
conclude_replace-ok env actor old c none t h = cc h
conclude_replace-ok env actor old c (some s) t h = (s, refl, refl, cc h)

pub conclude_revoke-cards :
    (env : Env) (actor : ℕ) (req : RevokeCardRequest) (o : Option IdentityCard)
    (cards : List IdentityCard) (t : Consultations)
    → (conclude_revoke env actor req (o, cards) t).1.identity_cards ≡ cards
unfolding conclude_revoke
conclude_revoke-cards env actor req none cards t = refl
conclude_revoke-cards env actor req (some c) cards t = refl
