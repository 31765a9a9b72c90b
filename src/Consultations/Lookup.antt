-- ===== src/Consultations/Lookup.antt =====
-- What a stranger who scans a card of src/domain/consultations is told.
use box_fraise_server.Prelude.{
  ℕ, ◌<◌, ◌≡◌, refl, ap, ◌∙◌, inl, inr, Bool, true, false, some, arith, List, [], ◌∷◌, ◌++◌, All,
  length, Bool-cases, Option-cases, ◌==◌,
}
use box_fraise_server.Prelude.Text.{Text, text_eq, text_eq_refl}
use box_fraise_server.Errors.{ok, Result-cases}
use box_fraise_server.Server.{Bytes, Env}
use box_fraise_server.Table.{find, exists, update}
use box_fraise_server.Table.Laws.{changed}
use box_fraise_server.Table.Search.{find-update, find-append}
use box_fraise_server.Consultations.Types.{
  is_active, IdentityCard, Consultations, CompleteConsultationRequest, CompleteConsultationResponse,
  CardLookupResponse,
}
use box_fraise_server.Consultations.Serial.{stripped, canonicalise_serial}
use box_fraise_server.Consultations.Canonical.{canonicalise_serial-generate}
use box_fraise_server.Consultations.Repository.{
  clashes, is_revocable, revoked_card, replaced_card, mark_card_replaced, get_card_by_serial,
}
use box_fraise_server.Consultations.Service.{
  check_complete, write_consultation, conclude_complete, complete_consultation, verification_of,
  card_of, public_view, lookup_card, Request, run,
}
use box_fraise_server.Consultations.Completion.{conclude_complete-ok}
use box_fraise_server.Consultations.Cards.{write_consultation-some, run-cards}

-- A card with this serial that is not valid.
abbrev IsDead : Text → List IdentityCard → Type 0
IsDead serial cards =
    (c : IdentityCard) × (find (λ x. text_eq x.serial serial) cards ≡ some c)
    × (is_active c.status ≡ false)

updated-IsDead :
    (serial : Text) (w : IdentityCard → Bool) (f : IdentityCard → IdentityCard)
    (cards : List IdentityCard)
    → ((c : IdentityCard) → text_eq (f c).serial serial ≡ text_eq c.serial serial)
    → ((c : IdentityCard) → is_active (f c).status ≡ false)
    → IsDead serial cards
    → IsDead serial (update w f cards)
updated-IsDead serial w f cards blind dead (c, found, off) =
    let here = find-update (λ x. text_eq x.serial serial) w f cards hidden in
    (changed w f c, rw here (rw found refl), still)
  where
    hidden : (x : IdentityCard) → text_eq (changed w f x).serial serial ≡ text_eq x.serial serial
    hidden x = elim (Bool-cases (w x)) [ inl e ↦ rw e (blind x) | inr e ↦ rw e ]

    still : is_active (changed w f c).status ≡ false
    still = elim (Bool-cases (w c)) [ inl e ↦ rw e (dead c) | inr e ↦ rw e off ]

run-IsDead :
    (serial : Text) (requests : List (Env × Request)) (t : Consultations)
    → IsDead serial t.identity_cards
    → IsDead serial (run requests t).identity_cards
unfolding mark_card_replaced
run-IsDead serial =
    run-cards (IsDead serial)
      (λ c cards fresh (d, found, off).
        (d, find-append (λ x. text_eq x.serial serial) cards (c ∷ []) found, off))
      (λ id reason at cards.
        updated-IsDead serial (is_revocable id) (revoked_card reason at) cards (λ c. refl)
          (λ c. refl))
      (λ old new cards.
        updated-IsDead serial (λ c. c.id == old) (replaced_card new) cards (λ c. refl) (λ c. refl))

lookup_card-ok :
    (input : Text) (t : Consultations) {r : CardLookupResponse}
    → lookup_card input t ≡ ok r
    → (serial : Text) × (c : IdentityCard) × (canonicalise_serial input ≡ some serial)
      × (get_card_by_serial serial t.identity_cards ≡ some c)
      × (r ≡ public_view c)
unfolding lookup_card
lookup_card-ok input t h = elim (Option-cases (canonicalise_serial input)) [
  | inl e ↦ cc (rw e at h)
  | inr (serial, e) ↦ elim (Option-cases (get_card_by_serial serial t.identity_cards)) [
    | inl f ↦ cc (rw (e, f) at h)
    | inr (c, f) ↦ (serial, c, e, f, cc (rw (e, f) at h))
  ]
]

lookup_card-found :
    (input serial : Text) (t : Consultations) (c : IdentityCard)
    → canonicalise_serial input ≡ some serial
    → find (λ x. text_eq x.serial serial) t.identity_cards ≡ some c
    → lookup_card input t ≡ ok (public_view c)
unfolding lookup_card get_card_by_serial
lookup_card-found input serial t c e f = rw (e, f)

-- A card that a lookup calls invalid stays so: whatever transactions follow, the second half of a
-- replacement whose first half is long past included, the same lookup still finds a card, and
-- calls it invalid.
pub lookup_card-final :
    (input : Text) (requests : List (Env × Request)) (t : Consultations) {r : CardLookupResponse}
    → lookup_card input t ≡ ok r
    → r.is_valid ≡ false
    → (q : CardLookupResponse) × (lookup_card input (run requests t) ≡ ok q) × (q.is_valid ≡ false)
unfolding get_card_by_serial
lookup_card-final input requests t h off =
    let (serial, c, e, f, view) = lookup_card-ok input t h in
    let (d, found, dead) = run-IsDead serial requests t (c, f, rw view at off) in
    (public_view d, lookup_card-found input serial (run requests t) d e found, dead)

find-fresh :
    (c : IdentityCard) (cards : List IdentityCard)
    → exists (clashes c) cards ≡ false
    → find (λ x. text_eq x.serial c.serial) (cards ++ c ∷ []) ≡ some c
unfolding find exists
find-fresh c [] h = rw (text_eq_refl c.serial)
find-fresh c (x ∷ cards) h = let rest = find-fresh c cards in ground (arith, rest)

-- After a consultation that was accepted, if the ten bytes drawn for the serial were bytes, a
-- lookup by anything that agrees with the serial of the new card in its letters and digits finds
-- that card, and calls it valid.
pub complete_consultation-lookup_card :
    (env : Env) (random : Bytes) (consultant : ℕ) (req : CompleteConsultationRequest)
    (t : Consultations) (input : Text) {r : CompleteConsultationResponse}
    → length random ≡ 10
    → All (λ b. b < 256) random
    → (complete_consultation env random consultant req t).0 ≡ ok r
    → stripped input ≡ stripped r.card.serial
    → (lookup_card input (complete_consultation env random consultant req t).1
        ≡ ok (public_view r.card))
      × (r.card.user_id ≡ req.user_id)
      × (is_active r.card.status ≡ true)
unfolding complete_consultation
complete_consultation-lookup_card env random consultant req t input ten small h same =
    elim (Result-cases (check_complete consultant req t)) [
      | inr (x, e) ↦ cc (rw (e, complete_consultation) at h)
      | inl (_, e) ↦
          let v = verification_of env consultant req in
          let c = card_of env random consultant req in
          let (s, f, _, here, made) =
            conclude_complete-ok env consultant req v c (write_consultation v c t) t
              (rw (e, complete_consultation) at h) in
          let (fresh, rows) = write_consultation-some v c t f in
          let cards = here ∙ ap (λ x. x.identity_cards) rows in
          let spelt : canonicalise_serial input ≡ some c.serial =
            canonicalise_serial-generate random input ten small (rw made at same) in
          rw (e, complete_consultation, made)
            (
              lookup_card-found input c.serial
                  (conclude_complete env consultant req v c (write_consultation v c t) t).1 c spelt
                  (rw cards (find-fresh c t.identity_cards fresh)),
              refl,
              refl,
            )
    ]
