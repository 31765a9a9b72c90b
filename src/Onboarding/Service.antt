-- ===== src/Onboarding/Service.antt =====
-- The handlers of src/domain/onboarding/service.rs.
use box_fraise_server.Prelude.{
  ℕ, suc, ◌+◌, String, Bool, false, not, ◌||◌, Option, none, some, is_some, List, [], ◌∷◌, leb, ltb,
  ◌==◌, length,
}
use box_fraise_server.Prelude.Text.{Text, is_empty, trim, byte_length}
use box_fraise_server.Errors.{
  Result, ok, err, not_found, conflict, bad_request, invalid_signature, db, ◌>>=◌, ◌>>◌, fail_if,
  ok_or, is_ok,
}
use box_fraise_server.Server.{
  Env, Bytes, Json, Crypto, Hashing, write_audit, b64_decode, verify_p256_signature,
}
use box_fraise_server.Table.{exists}
use box_fraise_server.Members.Types.{pending, verified, Members}
use box_fraise_server.Members.Repository.{insert_session}
use box_fraise_server.Members.Service.{new_session_token}
use box_fraise_server.Members.Service as MembersService
use box_fraise_server.Onboarding.Types.{
  Challenge, Onboarding, RegisterRequest, RegisterResponse, ChallengeResponse, VerifyRequest,
  VerifyResponse, MeResponse,
}
use box_fraise_server.Onboarding.Repository.{
  insert_pending_user_with_id, insert_device_key, insert_challenge, get_challenge_for_verify,
  mark_challenge_used, get_device_public_keys, Promotion, not_pending, violation, promoted,
  promote_user_to_verified, get_user_me,
}

abbrev pub sec1_uncompressed_len : ℕ
sec1_uncompressed_len = 65

abbrev audited :
    Env → String → Option ℕ → String → Option Json → List (String × Json) → Onboarding → Onboarding
audited env actor_type actor action target metadata t = record t {
  members = record t.members {
    audit_events =
        write_audit env
          (record {
            actor_type = actor_type;
            actor_id = actor;
            action = action;
            target = target;
            metadata = metadata;
          })
          t.members.audit_events;
  };
}

abbrev starts_with_4 : Bytes → Bool
starts_with_4 [] = false
starts_with_4 (b ∷ bs) = b == 4

-- The checks of `register`: the bytes of the key, and the trimmed `key_id`.
unfoldable pub check_register : Crypto → RegisterRequest → Result (Bytes × Text)
check_register c req = do
  pk ← b64_decode c req.public_key
  fail_if (not (length pk == sec1_uncompressed_len) || not (starts_with_4 pk))
      (bad_request "public_key must be SEC1 uncompressed (65 bytes, 0x04 prefix)")
  fail_if (not (is_some (c.public_key_from_sec1 pk)))
      (bad_request "public_key is not a valid P-256 point")
  fail_if (is_empty (trim req.key_id) || ltb 256 (byte_length (trim req.key_id)))
      (bad_request "key_id must be 1..=256 chars")
  ok (pk, trim req.key_id)

abbrev with_members : Onboarding → Option Members → Option Onboarding
with_members t none = none
with_members t (some m) = some (record t { members = m })

abbrev then_key : Env → Bytes → Text → Option Onboarding → Option Onboarding
then_key env pk key_id none = none
then_key env pk key_id (some t) = insert_device_key env.db_now env.other_uuid env.uuid pk key_id t

abbrev then_session : Env → Text → Option Onboarding → Option Onboarding
then_session env token_hash none = none
then_session env token_hash (some t) =
    with_members t (insert_session env.db_now env.uuid token_hash t.members)

-- The transaction of `register`.
unfoldable pub write_register : Env → Text → Bytes → Text → Onboarding → Option Onboarding
write_register env token_hash pk key_id t = then_session env token_hash (
    then_key env pk key_id
      (with_members t (insert_pending_user_with_id env.db_now env.uuid t.members)))

unfoldable pub conclude_register :
    Env → Text → Option Onboarding → Onboarding → Result RegisterResponse × Onboarding
conclude_register env key_id none t = (err db, t)
conclude_register env key_id (some s) t = (
  ok (record { user_id = env.uuid; status = pending; session_token = env.nonce }),
  audited env "system" none "user.register" (some (Json.num env.uuid))
      (("key_id", Json.text key_id) ∷ []) s,
)

unfoldable pub register :
    Crypto → Hashing → Env → RegisterRequest → Onboarding → Result RegisterResponse × Onboarding
register c h env req t = elim (check_register c req) [
  | err e ↦ (err e, t)
  | ok (pk, key_id) ↦
      conclude_register env key_id (write_register env (new_session_token env h).1 pk key_id t) t
]

unfoldable pub issue_challenge : Env → ℕ → ℕ → Onboarding → Result ChallengeResponse × Onboarding
issue_challenge env ttl user t =
    let expires_at = env.now + ttl in
    elim (insert_challenge env.db_now user env.nonce expires_at t) [
      | none ↦ (err db, t)
      | some s ↦ (
        ok (record { nonce = env.nonce; expires_at = expires_at }),
        audited env "user" (some user) "challenge.issued" (some (Json.text env.nonce)) [] s,
      )
    ]

-- `Iterator::any` over the public keys.
abbrev pub any_match : Crypto → Text → Bytes → List Bytes → Bool
any_match c nonce sig public_keys =
    exists (λ pk. is_ok (verify_p256_signature c pk nonce sig)) public_keys

-- The reads of `verify` and their early returns: the challenge that was met.
unfoldable pub check_verify : Crypto → Env → VerifyRequest → Onboarding → Result Challenge
check_verify c env req t = do
  sig ← b64_decode c req.signature_b64
  challenge ← ok_or (get_challenge_for_verify req.nonce t) not_found
  fail_if (is_some challenge.used_at) conflict
  fail_if (leb challenge.expires_at env.now) (bad_request "challenge expired")
  let public_keys = get_device_public_keys challenge.user_id t
  fail_if (length public_keys == 0) not_found
  fail_if (not (any_match c req.nonce sig public_keys)) invalid_signature
  ok challenge

-- `nextval` has drawn a number, which no rollback takes back.
abbrev drawn : Onboarding → Onboarding
drawn t = record t { members = record t.members { member_no_seq = suc t.members.member_no_seq } }

-- The writes of `verify`, after the UPDATE of the user.
unfoldable pub conclude_verify :
    Env → ℕ → VerifyRequest → ℕ → Promotion → Onboarding → Result VerifyResponse × Onboarding
conclude_verify env admin req user not_pending t = (err conflict, t)
conclude_verify env admin req user violation t = (err db, drawn t)
conclude_verify env admin req user (promoted verified_at m) t = (
  ok (record {
    user_id = user;
    status = verified;
    verified_at = verified_at;
    verified_at_event_id = req.event_id;
  }),
  audited env "admin" (some admin) "user.verify" (some (Json.num user))
      (("event_id", Json.num req.event_id) ∷ ("nonce", Json.text req.nonce) ∷ [])
      (mark_challenge_used env.db_now req.nonce (record t { members = m })),
)

unfoldable pub verify :
    Crypto → Env → ℕ → VerifyRequest → Onboarding → Result VerifyResponse × Onboarding
verify c env admin req t = elim (check_verify c env req t) [
  | err e ↦ (err e, t)
  | ok challenge ↦
      conclude_verify env admin req challenge.user_id
        (promote_user_to_verified env.db_now challenge.user_id req.event_id admin t.members) t
]

unfoldable pub me : ℕ → Onboarding → Result MeResponse
me user t = do
  row ← ok_or (get_user_me user t.members) not_found
  ok (record { id = user; status = row.status; verified_at = row.verified_at; event = row.event })

-- The requests that write the tables, those of the members among them, one after another.
pub data Request : Type 0 where
  registering : RegisterRequest → Request
  issuing : ℕ → Request
  verifying : ℕ → VerifyRequest → Request
  managing : MembersService.Request → Request

module _ (c : Crypto) (h : Hashing) (ttl : ℕ) where
  unfoldable pub serve : Env → Request → Onboarding → Onboarding
  serve env (registering req) t = (register c h env req t).1
  serve env (issuing user) t = (issue_challenge env ttl user t).1
  serve env (verifying admin req) t = (verify c env admin req t).1
  serve env (managing req) t = record t { members = MembersService.serve h env req t.members }

  unfoldable pub run : List (Env × Request) → Onboarding → Onboarding
  run [] t = t
  run ((env, req) ∷ rest) t = run rest (serve env req t)
