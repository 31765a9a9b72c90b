-- ===== src/Onboarding/Verifying.antt =====
-- What a scan of src/domain/onboarding that succeeds has found and made, and what becomes of its
-- challenge.
use box_fraise_server.Prelude.{
  ℕ, suc, ◌≡◌, ◌<◌, refl, sym, ap, subst, ◌∙◌, true, false, inl, inr, some, none, List,
}
use box_fraise_server.Prelude.Text.{text_eq}
use box_fraise_server.Errors.{ok, err, conflict}
use box_fraise_server.Server.{Env, Bytes, Crypto, Hashing, b64_decode}
use box_fraise_server.Table.{exists, update}
use box_fraise_server.Table.Laws.{changed}
use box_fraise_server.Table.Search.{find-accepts}
use box_fraise_server.Members.Repository.{numbered}
use box_fraise_server.Onboarding.Types.{Challenge, Onboarding, VerifyRequest, VerifyResponse}
use box_fraise_server.Onboarding.Repository.{
  get_challenge_for_verify, used, get_device_public_keys, is_pending_user, promoted_user,
  promote_user_to_verified,
}
use box_fraise_server.Onboarding.Service.{any_match, conclude_verify, verify, Request, run}
use box_fraise_server.Onboarding.Cases.{
  check_verify-ok, promote-promoted, conclude_verify-ok, verify-conclude_verify,
}
use box_fraise_server.Onboarding.Replay.{IsUsed, marked, find-marked, verify-replay}

-- What a scan that succeeds has found.
pub record IsScan (c : Crypto) (env : Env) (req : VerifyRequest) (t : Onboarding) (ch : Challenge)
    : Type 0 where
  pub issued : get_challenge_for_verify req.nonce t ≡ some ch
  pub unused : ch.used_at ≡ none
  pub valid : env.now < ch.expires_at
  -- the signature, as bytes, verifies under a key of the one who asked for the challenge
  pub signature : Bytes
  pub decoded : b64_decode c req.signature_b64 ≡ ok signature
  pub signed : any_match c req.nonce signature (get_device_public_keys ch.user_id t) ≡ true

-- When a scan succeeds, its nonce belonged to an unused challenge that had not expired, and the
-- signature verifies under a key of the user who had asked for it; that user was pending, and
-- their row now holds the status, the time, the event and the admin of the scan, and the next
-- number of the sequence, which nobody had; no other user's row has changed, and no attendance is
-- recorded. And whatever requests follow, any later scan of the same nonce whose signature
-- decodes, by any admin and for any event, is a conflict and changes nothing.
pub verify-once :
    (c : Crypto) (env : Env) (admin : ℕ) (req : VerifyRequest) (t : Onboarding) {r : VerifyResponse}
    → (verify c env admin req t).0 ≡ ok r
    → let s = (verify c env admin req t).1 in
      let number = t.members.member_no_seq in
      ((ch : Challenge) × IsScan c env req t ch × (r.user_id ≡ ch.user_id))
      × (exists (is_pending_user r.user_id) t.members.users ≡ true)
      × (exists (λ u. numbered number u.member_no) t.members.users ≡ false)
      × (s.members.users
          ≡ update
              (is_pending_user r.user_id)
              (promoted_user env.db_now req.event_id admin number)
              t.members.users)
      × (s.members.member_no_seq ≡ suc number)
      × (s.members.attendances ≡ t.members.attendances)
      × ((h : Hashing) (ttl : ℕ) (later : List (Env × Request)) (env' : Env) (admin' : ℕ)
            (again : VerifyRequest) (sig : Bytes)
          → again.nonce ≡ req.nonce
          → b64_decode c again.signature_b64 ≡ ok sig
          → verify c env' admin' again (run c h ttl later s) ≡ (err conflict, run c h ttl later s))
unfolding get_challenge_for_verify
verify-once c env admin req t {r} e = elim (verify-conclude_verify c env admin req t) [
  | inr (f, k) ↦ cc (rw k at e)
  | inl (ch, g, k) ↦
      let (sig, decoded, issued, unused, valid, signed) = check_verify-ok c env req t g in
      let p = promote_user_to_verified env.db_now ch.user_id req.event_id admin t.members in
      let (at, m, made, who, users, seq, attendances, challenges) =
        conclude_verify-ok env admin req ch.user_id p t (rw k at e) in
      let (was_pending, free, promotion) =
        promote-promoted env.db_now ch.user_id req.event_id admin t.members made in
      let is_used : IsUsed req.nonce (conclude_verify env admin req ch.user_id p t).1.challenges =
        subst (IsUsed req.nonce) (sym challenges) (
          changed (λ x. text_eq x.nonce req.nonce) (used env.db_now) ch,
          find-marked env.db_now req.nonce req.nonce t.challenges issued,
          marked env.db_now req.nonce ch
              (find-accepts (λ x. text_eq x.nonce req.nonce) t.challenges issued),
        ) in
      rw (k, who)
        (
          (
            ch,
            record {
              issued = issued;
              unused = unused;
              valid = valid;
              signature = sig;
              decoded = decoded;
              signed = signed;
            },
            refl,
          ),
          was_pending,
          free,
          users ∙ ap (λ x. x.users) promotion,
          seq ∙ ap (λ x. x.member_no_seq) promotion,
          attendances ∙ ap (λ x. x.attendances) promotion,
          verify-replay c req.nonce (conclude_verify env admin req ch.user_id p t).1 is_used,
        )
]
