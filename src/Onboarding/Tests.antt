-- ===== src/Onboarding/Tests.antt =====
-- A scan of src/domain/onboarding at a run, on a concrete table.
use box_fraise_server.Prelude.{ℕ, suc, ◌≡◌, refl, true, false, some, none, List, map, [], ◌∷◌}
use box_fraise_server.Prelude.Text.{codes, text_eq}
use box_fraise_server.Errors.{ok, err, conflict}
use box_fraise_server.Server.{Env, Bytes, Crypto, Hashing, b64_decode, verify_p256_signature}
use box_fraise_server.Table.{find, exists, select, update}
use box_fraise_server.Members.Types.{verified}
use box_fraise_server.Members.Repository.{
  numbered, new_member, insert_verified_member, insert_session, record_attendance,
}
use box_fraise_server.Members.Service as MembersService
use box_fraise_server.Onboarding.Types.{Challenge, Onboarding, VerifyRequest, VerifyResponse}
use box_fraise_server.Onboarding.Repository.{
  pending_user, new_challenge, get_challenge_for_verify, insert_challenge, joined_event,
  mark_challenge_used, get_device_public_keys, is_pending_user, promoted_user,
  promote_user_to_verified,
}
use box_fraise_server.Onboarding.Service.{
  check_verify, conclude_verify, verify, Request, issuing, verifying, managing, serve, me,
  issue_challenge, run,
}
use box_fraise_server.Onboarding.Numbers.{IsNumbered}
use box_fraise_server.Onboarding.Numbering.{run-IsNumbered}
use box_fraise_server.Onboarding.Knowing.{verify-me}
use box_fraise_server.Onboarding.Verifying.{IsScan, verify-once}

abbrev saturday : Env
saturday = record {
  now = 100;
  later = 100;
  db_now = 100;
  uuid = 8;
  other_uuid = 9;
  nonce = codes "n";
  audit_up = true;
}

-- A signature is the key that made it.
abbrev toy : Crypto
toy = record {
  url_safe_no_pad = λ s. some s;
  url_safe = λ s. none;
  standard = λ s. none;
  encode_url_safe_no_pad = λ b. b;
  public_key_from_sec1 = λ b. some b;
  signature_from_der = λ b. some b;
  normalize_s = λ b. none;
  verify = λ key nonce sig. text_eq key sig;
}

-- User 2 registered with two keys; member 7 was there before.
abbrev table : Onboarding
table = record {
  members = record {
    users = new_member 1 1 5 0 7 ∷ pending_user 2 2 ∷ [];
    user_sessions = [];
    attendances = [];
    events =
        record {
          id = 5;
          name = codes "Saturday";
          host_name = [];
          address = [];
          starts_at = 90;
          published = true;
        }
        ∷ [];
    admins = 0 ∷ [];
    member_no_seq = 8;
    audit_events = [];
  };
  device_keys =
      record { id = 1; user_id = 2; public_key = 4 ∷ 1 ∷ []; key_id = []; registered_at = 2 }
      ∷ record { id = 2; user_id = 2; public_key = 4 ∷ 2 ∷ []; key_id = []; registered_at = 3 }
      ∷ [];
  challenges = new_challenge 95 2 (codes "n") 155 ∷ [];
}

abbrev scan : VerifyRequest
scan = record { nonce = codes "n"; signature_b64 = 4 ∷ 2 ∷ []; event_id = 5 }

abbrev reply : VerifyResponse
reply = record { user_id = 2; status = verified; verified_at = 100; verified_at_event_id = 5 }

scans : (verify toy saturday 0 scan table).0 ≡ ok reply
unfolding verify check_verify b64_decode get_challenge_for_verify get_device_public_keys find select
    exists text_eq verify_p256_signature conclude_verify promote_user_to_verified
scans = refl

verify-once_example :
    let s = (verify toy saturday 0 scan table).1 in
    ((ch : Challenge) × IsScan toy saturday scan table ch × (reply.user_id ≡ ch.user_id))
    × (exists (is_pending_user 2) table.members.users ≡ true)
    × (exists (λ u. numbered 8 u.member_no) table.members.users ≡ false)
    × (s.members.users ≡ update (is_pending_user 2) (promoted_user 100 5 0 8) table.members.users)
    × (s.members.member_no_seq ≡ suc 8)
    × (s.members.attendances ≡ table.members.attendances)
    × ((h : Hashing) (ttl : ℕ) (later : List (Env × Request)) (env' : Env) (admin' : ℕ)
          (again : VerifyRequest) (sig : Bytes)
        → again.nonce ≡ codes "n"
        → b64_decode toy again.signature_b64 ≡ ok sig
        → verify toy env' admin' again (run toy h ttl later s)
          ≡ (err conflict, run toy h ttl later s))
verify-once_example = verify-once toy saturday 0 scan table scans

table-IsNumbered : IsNumbered table.members.users 8
table-IsNumbered = record {
  distinct = ((refl, tt), (tt, tt));
  drawn = (refl, (refl, tt));
  matching = (refl, (refl, tt));
}

verify-me_example :
    me 2 (verify toy saturday 0 scan table).1
    ≡ ok (record {
      id = 2;
      status = verified;
      verified_at = some 100;
      event = joined_event (some 5) table.members.events;
    })
verify-me_example = verify-me toy saturday 0 scan table scans table-IsNumbered

abbrev plain : Hashing
plain = record {
  sha256_hex = λ token. token;
  argon2_hash = λ salt password. some password;
  argon2_verify = text_eq;
}

-- Beside the table, an admin makes a member in person and scans the code of user 2.
abbrev requests : List (Env × Request)
requests =
    (saturday, managing (MembersService.Request.creating 0 (record { event_id = 5 })))
    ∷ (saturday, verifying 0 scan)
    ∷ (saturday, issuing 2)
    ∷ []

run-IsNumbered_example :
    let s = run toy plain 60 requests table in IsNumbered s.members.users s.members.member_no_seq
run-IsNumbered_example = run-IsNumbered toy plain 60 requests table table-IsNumbered

-- The two draw one after the other, and a code that was scanned is spent.
numbers :
    map (λ u. u.member_no) (run toy plain 60 requests table).members.users
    ≡ some 7 ∷ some 9 ∷ some 8 ∷ []
unfolding run serve verify check_verify b64_decode get_challenge_for_verify get_device_public_keys
    find select exists update text_eq verify_p256_signature conclude_verify promote_user_to_verified
    mark_challenge_used issue_challenge insert_challenge MembersService.serve MembersService.create
    MembersService.conclude_create MembersService.write_member MembersService.new_session_token
    insert_verified_member insert_session record_attendance
numbers = refl
