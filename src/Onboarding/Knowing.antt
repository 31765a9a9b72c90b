-- ===== src/Onboarding/Knowing.antt =====
-- What src/domain/onboarding tells a user whose device has been scanned.
use mathlib.Core.Option
use box_fraise_server.Prelude.{
  ℕ, ◌≡◌, refl, ap, ◌∙◌, inl, inr, true, false, some, arith, List, [], ◌∷◌, All, ◌==◌, Bool-cases,
}
use box_fraise_server.Errors.{ok}
use box_fraise_server.Server.{Env, Crypto}
use box_fraise_server.Table.{find, exists}
use box_fraise_server.Table.Laws.{changed}
use box_fraise_server.Table.Search.{find-update}
use box_fraise_server.Table.Distinct.{Distinct}
use box_fraise_server.Members.Types.{verified, User}
use box_fraise_server.Onboarding.Types.{Onboarding, VerifyRequest, VerifyResponse}
use box_fraise_server.Onboarding.Repository.{
  is_pending_user, promoted_user, joined_event, get_user_me, promote_user_to_verified,
  mark_challenge_used,
}
use box_fraise_server.Onboarding.Service.{verify, conclude_verify, me}
use box_fraise_server.Onboarding.Numbers.{same_member, IsNumbered}
use box_fraise_server.Onboarding.Verifying.{verify-once}

-- Nobody else has the id of a user.
others :
    (user : ℕ) (r : User) (us : List User)
    → (r.id == user) ≡ true
    → All (λ q. same_member q r ≡ false) us
    → exists (is_pending_user user) us ≡ false
unfolding exists
others user r [] here a = refl
others user r (q ∷ us) here a = ground (arith, others user r us here a.1, a.0)

find-pending :
    (user : ℕ) (us : List User)
    → Distinct same_member us
    → exists (is_pending_user user) us ≡ true
    → (u : User) × (find (λ q. q.id == user) us ≡ some u) × (is_pending_user user u ≡ true)
unfolding exists find
find-pending user [] d h = cc h
find-pending user (r ∷ us) d h = elim (Bool-cases (r.id == user)) [
  | inl here ↦
      let alone = others user r us here d.0 in (r, rw here refl, ground (arith, h, alone, here))
  | inr away ↦
      let (u, found, waits) = find-pending user us d.1 (ground (arith, h, away)) in
      (u, rw away found, waits)
]

promoted-id :
    (now event admin number user : ℕ) (u : User)
    → ((changed (is_pending_user user) (promoted_user now event admin number) u).id == user)
      ≡ (u.id == user)
promoted-id now event admin number user u = ground arith

verify-reply :
    (c : Crypto) (env : Env) (admin : ℕ) (req : VerifyRequest) (t : Onboarding) {r : VerifyResponse}
    → (verify c env admin req t).0 ≡ ok r
    → (r.verified_at ≡ env.db_now)
      × ((verify c env admin req t).1.members.events ≡ t.members.events)
unfolding verify conclude_verify promote_user_to_verified mark_challenge_used
verify-reply c env admin req t h = ground arith

me-found :
    (user : ℕ) (t : Onboarding) (u : User)
    → find (λ q. q.id == user) t.members.users ≡ some u
    → me user t
      ≡ ok (record {
        id = user;
        status = u.status;
        verified_at = u.verified_at;
        event = joined_event u.verified_at_event_id t.members.events;
      })
unfolding me get_user_me
me-found user t u found = rw (found, me, get_user_me) refl

promoted-row :
    (now event admin number user : ℕ) (u : User)
    → is_pending_user user u ≡ true
    → changed (is_pending_user user) (promoted_user now event admin number) u
      ≡ promoted_user now event admin number u
promoted-row now event admin number user u h = rw h refl

-- Where no two users share an id or a number, every number has been drawn, and exactly the
-- verified users have one: whoever has been scanned with success reads right after it that they
-- are verified, since the time that the reply to the admin says, and the event of the scan if it
-- is published, and no event if it is not.
pub verify-me :
    (c : Crypto) (env : Env) (admin : ℕ) (req : VerifyRequest) (t : Onboarding) {r : VerifyResponse}
    → (verify c env admin req t).0 ≡ ok r
    → IsNumbered t.members.users t.members.member_no_seq
    → me r.user_id (verify c env admin req t).1
      ≡ ok (record {
        id = r.user_id;
        status = verified;
        verified_at = some r.verified_at;
        event = joined_event (some req.event_id) t.members.events;
      })
verify-me c env admin req t {r} e w =
    let s = (verify c env admin req t).1 in
    let number = t.members.member_no_seq in
    let f = promoted_user env.db_now req.event_id admin number in
    let (_, waits, _, users, _, _, _) = verify-once c env admin req t e in
    let (at, events) = verify-reply c env admin req t e in
    let (u, found, pending) = find-pending r.user_id t.members.users w.distinct waits in
    let now_found : find (λ q. q.id == r.user_id) s.members.users ≡ some (f u) =
      ap (find (λ q. q.id == r.user_id)) users
      ∙ find-update (λ q. q.id == r.user_id) (is_pending_user r.user_id) f t.members.users
          (promoted-id env.db_now req.event_id admin number r.user_id)
      ∙ ap (Option.map (changed (is_pending_user r.user_id) f)) found
      ∙ ap some (promoted-row env.db_now req.event_id admin number r.user_id u pending) in
    rw at (
      me-found r.user_id s (f u) now_found
      ∙ ap
          (λ es. ok (record {
            id = r.user_id;
            status = verified;
            verified_at = some env.db_now;
            event = joined_event (some req.event_id) es;
          }))
          events)
