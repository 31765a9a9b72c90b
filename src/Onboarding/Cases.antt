-- ===== src/Onboarding/Cases.antt =====
-- The cases of a scan of src/domain/onboarding, and what each request does to the challenges.
use box_fraise_server.Prelude.{
  ℕ, suc, ◌≡◌, ◌<◌, ◌⊎◌, ◌+◌, ◌++◌, refl, sym, ap, true, false, inl, inr, some, none, arith, [],
  ◌∷◌, is_some, Bool, not, leb, length, ◌==◌,
}
use box_fraise_server.Prelude.Text.{Text, text_eq}
use box_fraise_server.Errors.{
  AppError, ok, err, conflict, not_found, ok-injective, bind-ok, ok_or, ok_or-ok, fail_if,
  fail_if-ok, Result-cases,
}
use box_fraise_server.Server.{Env, Bytes, Crypto, Hashing, b64_decode}
use box_fraise_server.Table.{exists, update}
use box_fraise_server.Members.Types.{Members}
use box_fraise_server.Members.Repository.{numbered}
use box_fraise_server.Onboarding.Types.{
  Challenge, Onboarding, RegisterRequest, VerifyRequest, VerifyResponse,
}
use box_fraise_server.Onboarding.Repository.{
  insert_device_key, insert_challenge, new_challenge, get_challenge_for_verify, used,
  mark_challenge_used, get_device_public_keys, is_pending_user, promoted_user, Promotion,
  not_pending, violation, promoted, promote_user_to_verified,
}
use box_fraise_server.Onboarding.Service.{
  write_register, conclude_register, register, issue_challenge, any_match, check_verify,
  conclude_verify, verify,
}

not-false : {b : Bool} → not b ≡ false → b ≡ true
not-false {b} h = ground arith

pub check_verify-ok :
    (c : Crypto) (env : Env) (req : VerifyRequest) (t : Onboarding) {ch : Challenge}
    → check_verify c env req t ≡ ok ch
    → (sig : Bytes) × (b64_decode c req.signature_b64 ≡ ok sig)
      × (get_challenge_for_verify req.nonce t ≡ some ch)
      × (ch.used_at ≡ none)
      × (env.now < ch.expires_at)
      × (any_match c req.nonce sig (get_device_public_keys ch.user_id t) ≡ true)
unfolding check_verify
check_verify-ok c env req t {ch} h =
    let (sig, f, h1) = bind-ok (b64_decode c req.signature_b64) _ h in
    let (a, g, h2) = bind-ok (ok_or (get_challenge_for_verify req.nonce t) not_found) _ h1 in
    let (_, u, h3) = bind-ok (fail_if (is_some a.used_at) conflict) _ h2 in
    let (_, e, h4) = bind-ok (fail_if (leb a.expires_at env.now) _) _ h3 in
    let keys = get_device_public_keys a.user_id t in
    let (_, _, h5) = bind-ok (fail_if (length keys == 0) not_found) _ h4 in
    let (_, m, h6) = bind-ok (fail_if (not (any_match c req.nonce sig keys)) _) _ h5 in
    let same = ok-injective a ch h6 in
    let unused = fail_if-ok (is_some a.used_at) conflict u in
    let valid = fail_if-ok (leb a.expires_at env.now) _ e in
    let signed = fail_if-ok (not (any_match c req.nonce sig keys)) _ m in
    rw (← same) (
      sig,
      f,
      ok_or-ok (get_challenge_for_verify req.nonce t) not_found g,
      ground arith,
      ground arith,
      not-false signed,
    )

pub promote-promoted :
    (now user event admin : ℕ) (t : Members) {at : ℕ} {m : Members}
    → promote_user_to_verified now user event admin t ≡ promoted at m
    → (exists (is_pending_user user) t.users ≡ true)
      × (exists (λ u. numbered t.member_no_seq u.member_no) t.users ≡ false)
      × (m ≡ record t {
        users =
            update (is_pending_user user) (promoted_user now event admin t.member_no_seq) t.users;
        member_no_seq = suc t.member_no_seq;
      })
unfolding promote_user_to_verified
promote-promoted now user event admin t h = ground arith

pub conclude_verify-ok :
    (env : Env) (admin : ℕ) (req : VerifyRequest) (user : ℕ) (p : Promotion) (t : Onboarding)
    {r : VerifyResponse}
    → (conclude_verify env admin req user p t).0 ≡ ok r
    → (at : ℕ) × (m : Members) × (p ≡ promoted at m)
      × (r.user_id ≡ user)
      × ((conclude_verify env admin req user p t).1.members.users ≡ m.users)
      × ((conclude_verify env admin req user p t).1.members.member_no_seq ≡ m.member_no_seq)
      × ((conclude_verify env admin req user p t).1.members.attendances ≡ m.attendances)
      × ((conclude_verify env admin req user p t).1.challenges
          ≡ update (λ ch. text_eq ch.nonce req.nonce) (used env.db_now) t.challenges)
unfolding conclude_verify mark_challenge_used
conclude_verify-ok env admin req user not_pending t h = cc h
conclude_verify-ok env admin req user violation t h = cc h
conclude_verify-ok env admin req user (promoted at m) t {r} h =
    (at, m, refl, ap (λ x. x.user_id) (sym (ok-injective _ r h)), refl, refl, refl, refl)

pub verify-conclude_verify :
    (c : Crypto) (env : Env) (admin : ℕ) (req : VerifyRequest) (t : Onboarding)
    → ((ch : Challenge) × (check_verify c env req t ≡ ok ch)
        × (verify c env admin req t
            ≡ conclude_verify env admin req ch.user_id
                (promote_user_to_verified env.db_now ch.user_id req.event_id admin t.members)
                t))
      ⊎ ((e : AppError) × (verify c env admin req t ≡ (err e, t)))
unfolding verify
verify-conclude_verify c env admin req t = elim (Result-cases (check_verify c env req t)) [
  | inl (ch, g) ↦ inl (ch, g, rw (g, verify))
  | inr (e, g) ↦ inr (e, rw (g, verify))
]

insert_challenge-some :
    (now user : ℕ) (nonce : Text) (expires_at : ℕ) (t : Onboarding) {s : Onboarding}
    → insert_challenge now user nonce expires_at t ≡ some s
    → s.challenges ≡ t.challenges ++ new_challenge now user nonce expires_at ∷ []
unfolding insert_challenge
insert_challenge-some now user nonce expires_at t h = ground arith

pub issue_challenge-challenges :
    (env : Env) (ttl user : ℕ) (t : Onboarding)
    → ((issue_challenge env ttl user t).1.challenges ≡ t.challenges)
      ⊎ ((issue_challenge env ttl user t).1.challenges
          ≡ t.challenges ++ new_challenge env.db_now user env.nonce (env.now + ttl) ∷ [])
unfolding issue_challenge insert_challenge
issue_challenge-challenges env ttl user t = ground arith

pub register-challenges :
    (c : Crypto) (h : Hashing) (env : Env) (req : RegisterRequest) (t : Onboarding)
    → (register c h env req t).1.challenges ≡ t.challenges
unfolding register conclude_register write_register insert_device_key
register-challenges c h env req t = ground arith

pub verify-challenges :
    (c : Crypto) (env : Env) (admin : ℕ) (req : VerifyRequest) (t : Onboarding)
    → ((verify c env admin req t).1.challenges ≡ t.challenges)
      ⊎ ((verify c env admin req t).1.challenges
          ≡ update (λ ch. text_eq ch.nonce req.nonce) (used env.db_now) t.challenges)
unfolding verify conclude_verify mark_challenge_used
verify-challenges c env admin req t = ground arith
