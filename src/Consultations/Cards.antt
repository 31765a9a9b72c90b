-- ===== src/Consultations/Cards.antt =====
-- The life of the cards of src/domain/consultations.
use box_fraise_server.Prelude.{
  ℕ, ◌≡◌, refl, ap, ◌∙◌, inl, inr, false, Option, none, some, arith, List, [], ◌∷◌, ◌++◌,
  Option-cases,
}
use box_fraise_server.Prelude.Text.{Text}
use box_fraise_server.Errors.{Result-cases}
use box_fraise_server.Server.{Bytes, Env}
use box_fraise_server.Table.{exists, update}
use box_fraise_server.Consultations.Types.{
  SocialVerification, IdentityCard, Consultations, CompleteConsultationRequest, RevokeCardRequest,
  ReplaceCardRequest,
}
use box_fraise_server.Consultations.Repository.{
  clashes, is_revocable, revoked_card, mark_card_replaced, insert_verification, insert_card,
}
use box_fraise_server.Consultations.Repository
use box_fraise_server.Consultations.Service.{
  check_complete, write_consultation, conclude_complete, complete_consultation, conclude_revoke,
  revoke_card, check_replace, conclude_replace, finish_replace, replace_card, verification_of,
  card_of, replacement_of, Request, completing, revoking, replacing, late_replacing, serve, run,
}

pub insert_card-some :
    (c : IdentityCard) (t : Consultations) {s : Consultations}
    → insert_card c t ≡ some s
    → (exists (clashes c) t.identity_cards ≡ false)
      × (s ≡ record t { identity_cards = t.identity_cards ++ c ∷ [] })
unfolding insert_card
insert_card-some c t h = ground arith

pub insert_verification-some :
    (v : SocialVerification) (t : Consultations) {s : Consultations}
    → insert_verification v t ≡ some s
    → s ≡ record t { social_verifications = t.social_verifications ++ v ∷ [] }
unfolding insert_verification
insert_verification-some v t h = ground arith

-- Both rows of a consultation.
pub write_consultation-some :
    (v : SocialVerification) (c : IdentityCard) (t : Consultations) {s : Consultations}
    → write_consultation v c t ≡ some s
    → (exists (clashes c) t.identity_cards ≡ false)
      × (s ≡ record t {
        social_verifications = t.social_verifications ++ v ∷ [];
        identity_cards = t.identity_cards ++ c ∷ [];
      })
unfolding write_consultation
write_consultation-some v c t h = elim (Option-cases (insert_verification v t)) [
  | inl e ↦ cc (rw e at h)
  | inr (u, e) ↦
      let made = insert_verification-some v t e in
      let (fresh, more) = insert_card-some c u (rw e at h) in
      (
        rw made at fresh,
        more
            ∙ ap {A = Consultations} (λ x. record x { identity_cards = x.identity_cards ++ c ∷ [] })
                made,
      )
]

-- What a transaction does to the cards: nothing, an insertion, a revocation, or an insertion and
-- a mark on the card that is replaced.
module _ (P : List IdentityCard → Type 0)
    (added : (c : IdentityCard) (cards : List IdentityCard)
      → exists (clashes c) cards ≡ false
      → P cards
      → P (cards ++ c ∷ []))
    (revoked_one : (id : ℕ) (reason : Text) (at : ℕ) (cards : List IdentityCard)
      → P cards
      → P (update (is_revocable id) (revoked_card reason at) cards))
    (marked : (old new : ℕ) (cards : List IdentityCard)
      → P cards
      → P (mark_card_replaced old new cards)) where
  conclude_complete-cards :
      (env : Env) (consultant : ℕ) (req : CompleteConsultationRequest) (v : SocialVerification)
      (c : IdentityCard) (o : Option Consultations) (t : Consultations)
      → ((s : Consultations) → o ≡ some s → P s.identity_cards)
      → P t.identity_cards
      → P (conclude_complete env consultant req v c o t).1.identity_cards
  unfolding conclude_complete
  conclude_complete-cards env consultant req v c none t k p = p
  conclude_complete-cards env consultant req v c (some s) t k p = k s refl

  complete-cards :
      (env : Env) (random : Bytes) (consultant : ℕ) (req : CompleteConsultationRequest)
      (t : Consultations)
      → P t.identity_cards
      → P (complete_consultation env random consultant req t).1.identity_cards
  unfolding complete_consultation
  complete-cards env random consultant req t p =
      elim (Result-cases (check_complete consultant req t)) [
        | inr (x, e) ↦ rw (e, complete_consultation) p
        | inl (_, e) ↦
            let c = card_of env random consultant req in
            rw (e, complete_consultation)
              (conclude_complete-cards env consultant req (verification_of env consultant req) c _ t
                (λ s h.
                  let (fresh, made) =
                    write_consultation-some (verification_of env consultant req) c t h in
                  rw made (added c t.identity_cards fresh p))
                p)
      ]

  conclude_replace-cards :
      (env : Env) (actor : ℕ) (old c : IdentityCard) (o : Option Consultations) (t : Consultations)
      → ((s : Consultations) → o ≡ some s → P s.identity_cards)
      → P t.identity_cards
      → P (conclude_replace env actor old c o t).1.identity_cards
  unfolding conclude_replace
  conclude_replace-cards env actor old c none t k p = p
  conclude_replace-cards env actor old c (some s) t k p = marked old.id c.id _ (k s refl)

  finish_replace-cards :
      (env : Env) (random : Bytes) (actor : ℕ) (old : IdentityCard) (req : ReplaceCardRequest)
      (t : Consultations)
      → P t.identity_cards
      → P (finish_replace env random actor old req t).1.identity_cards
  unfolding finish_replace
  finish_replace-cards env random actor old req t p =
      let c = replacement_of env random actor old req in
      conclude_replace-cards env actor old c (insert_card c t) t
        (λ s h.
          let (fresh, made) = insert_card-some c t h in rw made (added c t.identity_cards fresh p))
        p

  replace-cards :
      (env : Env) (random : Bytes) (actor id : ℕ) (req : ReplaceCardRequest) (t : Consultations)
      → P t.identity_cards
      → P (replace_card env random actor id req t).1.identity_cards
  unfolding replace_card
  replace-cards env random actor id req t p = elim (Result-cases (check_replace id t)) [
    | inr (x, e) ↦ rw (e, replace_card) p
    | inl (old, e) ↦ rw (e, replace_card) (finish_replace-cards env random actor old req t p)
  ]

  conclude_revoke-cards :
      (env : Env) (actor : ℕ) (req : RevokeCardRequest) (o : Option IdentityCard)
      (cards : List IdentityCard) (t : Consultations)
      → P cards
      → P (conclude_revoke env actor req (o, cards) t).1.identity_cards
  unfolding conclude_revoke
  conclude_revoke-cards env actor req none cards t p = p
  conclude_revoke-cards env actor req (some c) cards t p = p

  pub serve-cards :
      (env : Env) (req : Request) (t : Consultations)
      → P t.identity_cards
      → P (serve env req t).identity_cards
  unfolding serve revoke_card Repository.revoke_card
  serve-cards env (completing random consultant req) t p =
      complete-cards env random consultant req t p
  serve-cards env (revoking actor id req) t p =
      conclude_revoke-cards env actor req _ _ t
        (revoked_one id req.reason env.now t.identity_cards p)
  serve-cards env (replacing random actor id req) t p = replace-cards env random actor id req t p
  serve-cards env (late_replacing random actor old req) t p =
      finish_replace-cards env random actor old req t p

  pub run-cards :
      (requests : List (Env × Request)) (t : Consultations)
      → P t.identity_cards
      → P (run requests t).identity_cards
  unfolding run
  run-cards [] t p = p
  run-cards ((env, req) ∷ rest) t p = run-cards rest (serve env req t) (serve-cards env req t p)
