-- ===== src/Consultations/Racing.antt =====
-- Two admins of src/domain/consultations at one card: the two transactions of `replace_card` with
-- a `revoke_card` between them.
use box_fraise_server.Prelude.{
  ℕ, ◌≡◌, refl, subst, ap, ◌∙◌, false, ◌++◌, inl, inr, Bool, true, some, arith, List, [], ◌∷◌,
  Bool-cases, ◌==◌,
}
use box_fraise_server.Errors.{ok}
use box_fraise_server.Server.{Bytes, Env}
use box_fraise_server.Table.{find, exists, update}
use box_fraise_server.Table.Laws.{changed}
use box_fraise_server.Table.Search.{find-update, find-append, find-accepts, exists_of_find}
use box_fraise_server.Table.Removal.{find-last}
use box_fraise_server.Prelude.Text.{Text}
use box_fraise_server.Consultations.Types.{
  is_active, active, replaced, IdentityCard, Consultations, RevokeCardRequest, ReplaceCardRequest,
}
use box_fraise_server.Consultations.Repository.{
  clashes, is_revocable, revoked_card, replaced_card, mark_card_replaced, insert_card,
  get_card_by_id,
}
use box_fraise_server.Consultations.Repository
use box_fraise_server.Consultations.Service.{
  check_replace, replacement_of, finish_replace, revoke_card,
}
use box_fraise_server.Consultations.Cards.{insert_card-some}
use box_fraise_server.Consultations.Completion.{
  check_replace-ok, conclude_replace-ok, conclude_revoke-cards,
}

revoke_card-cards :
    (env : Env) (actor id : ℕ) (req : RevokeCardRequest) (t : Consultations)
    → (revoke_card env actor id req t).1.identity_cards
      ≡ update (is_revocable id) (revoked_card req.reason env.now) t.identity_cards
unfolding revoke_card Repository.revoke_card
revoke_card-cards env actor id req t = conclude_revoke-cards env actor req _ _ t

-- The row of an id after an update that leaves ids alone.
find-changed :
    (id : ℕ) (w : IdentityCard → Bool) (f : IdentityCard → IdentityCard) (cards : List IdentityCard)
    {c : IdentityCard}
    → ((x : IdentityCard) → (f x).id ≡ x.id)
    → find (λ x. x.id == id) cards ≡ some c
    → find (λ x. x.id == id) (update w f cards) ≡ some (changed w f c)
find-changed id w f cards blind found =
    rw (find-update (λ x. x.id == id) w f cards hidden) (rw found refl)
  where
    hidden : (x : IdentityCard) → ((changed w f x).id == id) ≡ (x.id == id)
    hidden x = elim (Bool-cases (w x)) [ inl e ↦ rw e (rw (blind x)) | inr e ↦ rw e ]

fresh_id :
    (c : IdentityCard) (cards : List IdentityCard)
    → exists (clashes c) cards ≡ false
    → exists (λ x. x.id == c.id) cards ≡ false
unfolding exists
fresh_id c [] h = refl
fresh_id c (x ∷ cards) h =
    let rest = fresh_id c cards (ground (arith, h)) in ground (arith, h, rest)

self : (n : ℕ) → (n == n) ≡ true
self n = ground arith

-- The row of a card that was active, revoked and then marked as replaced.
both_marks :
    (id new : ℕ) (reason : Text) (at : ℕ) (old : IdentityCard)
    → (old.id == id) ≡ true
    → is_active old.status ≡ true
    → changed
        (λ x. x.id == old.id)
        (replaced_card new)
        (changed (is_revocable id) (revoked_card reason at) old)
      ≡ replaced_card new (revoked_card reason at old)
both_marks id new reason at old here live = rw (here, live, self old.id) refl

-- The row of a card that has just been inserted, after another row has been marked.
find-inserted :
    (old : ℕ) (f : IdentityCard → IdentityCard) (c d : IdentityCard) (cards : List IdentityCard)
    → ((x : IdentityCard) → (f x).id ≡ x.id)
    → exists (clashes c) cards ≡ false
    → find (λ x. x.id == old) cards ≡ some d
    → find (λ x. x.id == c.id) (update (λ x. x.id == old) f (cards ++ c ∷ [])) ≡ some c
find-inserted old f c d cards blind fresh found =
    let unknown = fresh_id c cards fresh in
    let last = find-last (λ x. x.id == c.id) cards c unknown (self c.id) in
    let other : (c.id == old) ≡ false = elim (Bool-cases (c.id == old)) [
      | inr e ↦ e
      | inl e ↦
          let known = exists_of_find (λ x. x.id == old) cards found in
          let same : c.id ≡ old = ground (arith, e) in
          cc (subst (λ n. exists (λ x. x.id == n) cards ≡ false) same unknown, known)
    ] in
    rw (find-changed c.id (λ x. x.id == old) f (cards ++ c ∷ []) blind last, other) refl

-- A replacement that read its card before another admin revoked it, and that then goes on and
-- succeeds, undoes the revocation: the new card of the reply is stored, active, and of the same
-- holder, and the row of the old card, though it keeps the time and the reason of the
-- revocation, has the status of a replaced card.
pub finish_replace-revoked :
    (env env' : Env) (random : Bytes) (actor actor' id : ℕ) (revoke_req : RevokeCardRequest)
    (req : ReplaceCardRequest) (t : Consultations) {old card : IdentityCard}
    → check_replace id t ≡ ok old
    → let s = (revoke_card env actor id revoke_req t).1 in
      (finish_replace env' random actor' old req s).0 ≡ ok card
      → let u = (finish_replace env' random actor' old req s).1 in
        (get_card_by_id card.id u.identity_cards ≡ some card)
        × (card.status ≡ active)
        × (card.user_id ≡ old.user_id)
        × ((c : IdentityCard) × (get_card_by_id id u.identity_cards ≡ some c)
            × (c.status ≡ replaced)
            × (c.replaced_by_card_id ≡ some card.id)
            × (c.revoked_at ≡ some env.now)
            × (c.revoked_reason ≡ some revoke_req.reason))
unfolding finish_replace get_card_by_id mark_card_replaced
finish_replace-revoked env env' random actor actor' id revoke_req req t {old} {card} read h =
    let s = (revoke_card env actor id revoke_req t).1 in
    let new = replacement_of env' random actor' old req in
    let (found, live) = check_replace-ok id t read in
    let here = find-accepts (λ x. x.id == id) t.identity_cards found in
    let (u, e, cards, same) = conclude_replace-ok env' actor' old new (insert_card new s) s h in
    let (fresh, made) = insert_card-some new s e in
    let rows : u.identity_cards ≡ s.identity_cards ++ new ∷ [] = ap (λ x. x.identity_cards) made in
    let revoked : find (λ x. x.id == id) s.identity_cards
        ≡ some (changed (is_revocable id) (revoked_card revoke_req.reason env.now) old) =
      rw (revoke_card-cards env actor id revoke_req t) (
        find-changed id (is_revocable id) (revoked_card revoke_req.reason env.now) t.identity_cards
          (λ x. refl) found) in
    let sameid : old.id ≡ id = ground (arith, here) in
    let marked =
      find-changed id (λ x. x.id == old.id) (replaced_card new.id) (s.identity_cards ++ new ∷ [])
        (λ x. refl) (find-append (λ x. x.id == id) s.identity_cards (new ∷ []) revoked) in
    let stored =
      find-inserted old.id (replaced_card new.id) new
        (changed (is_revocable id) (revoked_card revoke_req.reason env.now) old) s.identity_cards
        (λ x. refl) fresh (ap (λ n. find (λ x. x.id == n) s.identity_cards) sameid ∙ revoked) in
    rw (← same) (
      rw (cards, rows) stored,
      refl,
      refl,
      (
        replaced_card new.id (revoked_card revoke_req.reason env.now old),
        rw (cards, rows)
            (marked ∙ ap some (both_marks id new.id revoke_req.reason env.now old here live)),
        refl,
        refl,
        refl,
        refl,
      ),
    )
