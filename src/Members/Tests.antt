-- ===== src/Members/Tests.antt =====
-- A lost phone in src/domain/members, on a concrete table.
use box_fraise_server.Prelude.{ℕ, ◌≡◌, ◌≢◌, ◌↔◌, refl, true, false, some, none, [], ◌∷◌}
use box_fraise_server.Prelude.Integers.{pos}
use box_fraise_server.Prelude.Text.{codes, text_eq, trim, trim_start, is_whitespace}
use box_fraise_server.Errors.{ok}
use box_fraise_server.Server.{Env, Hashing}
use box_fraise_server.Table.{find, exists, count, delete}
use box_fraise_server.Members.Types.{Members, ReissueRequest, ReissuedCredential}
use box_fraise_server.Members.Repository.{
  insert_session, delete_all_sessions, id_by_member_no, standing, bf_member_is_current,
  bf_member_last_seen, new_member,
}
use box_fraise_server.Members.Service.{new_session_token, conclude_reissue, reissue}
use box_fraise_server.Members.Credentials.{reissue-resolve_bearer}
use box_fraise_server.Http.Cookies.{Headers, eq_ignore_case}
use box_fraise_server.Http.Middleware.{
  token_from, bearer_from, bearer_in, take, drop, resolve_bearer,
}

abbrev monday : Env
monday = record {
  now = 100;
  later = 100;
  db_now = 100;
  uuid = 8;
  other_uuid = 9;
  nonce = codes "new";
  audit_up = true;
}

abbrev plain : Hashing
plain = record {
  sha256_hex = λ token. token;
  argon2_hash = λ salt password. some password;
  argon2_verify = text_eq;
}

-- Member 7 has lost the phone with the token "old".
abbrev table : Members
table = record {
  users = new_member 1 1 5 0 7 ∷ new_member 1 2 5 0 8 ∷ [];
  user_sessions =
      record { token_hash = codes "old"; user_id = 1; created_at = 1 }
      ∷ record { token_hash = codes "hers"; user_id = 2; created_at = 1 }
      ∷ [];
  attendances = [];
  events = [];
  admins = 0 ∷ [];
  member_no_seq = 9;
  audit_events = [];
}

abbrev request : ReissueRequest
request = record { member_no = pos 7 }

abbrev reissued : ReissuedCredential
reissued = record {
  user_id = 1;
  member_no = pos 7;
  token = codes "new";
  sessions_ended = 1;
  current = false;
  last_seen = none;
}

reissues : (reissue monday plain 0 request table).0 ≡ ok reissued
unfolding reissue id_by_member_no find delete_all_sessions delete count new_session_token
    insert_session exists text_eq conclude_reissue standing bf_member_is_current bf_member_last_seen
reissues = refl

-- The finder of the phone still sends the old token.
abbrev finder : Headers
finder = record {
  cookie = [];
  authorization = some (some (codes "bearer old"));
  x_forwarded_proto = none;
}

sends_old : token_from finder ≡ some (codes "old")
unfolding token_from bearer_from bearer_in eq_ignore_case take drop trim trim_start is_whitespace
sends_old = refl

reissue-resolve_bearer_example :
    let s = (reissue monday plain 0 request table).1 in
    let authed = λ (m : Members).
      (resolve_bearer plain 100 finder (record {
        user_sessions = m.user_sessions;
        admin_sessions = [];
        runner_sessions = [];
      })).authed_user in
    ((authed s ≡ some 1) ↔ (codes "old" ≡ codes "new"))
    × ((other : ℕ) → other ≢ 1 → authed table ≡ some other → authed s ≡ some other)
    × (id_by_member_no (pos 7) table.users ≡ some 1)
    × (s.users ≡ table.users)
    × (s.attendances ≡ table.attendances)
reissue-resolve_bearer_example =
    reissue-resolve_bearer monday plain 0 request table [] [] 100 finder (codes "old") reissues
      sends_old
