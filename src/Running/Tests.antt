-- ===== src/Running/Tests.antt =====
-- Runners of src/domain/running on concrete tables.
use box_fraise_server.Prelude.{ℕ, ◌≡◌, ◌≢◌, refl, true, false, some, [], ◌∷◌}
use box_fraise_server.Prelude.Integers.{pos}
use box_fraise_server.Prelude.Text.{
  byte_length, Text, codes, text_eq, text_eq_refl, trim, trim_start, is_whitespace,
}
use box_fraise_server.Errors.{ok}
use box_fraise_server.Server.{Env, Hashing}
use box_fraise_server.Table.{exists}
use box_fraise_server.Running.Board.{run_score, AtMost}
use box_fraise_server.Running.Types.{Running, Credentials, LogRun}
use box_fraise_server.Running.Repository.{
  all_name_chars, insert_runner, insert_credentials, insert_session, insert_run, standing,
}
use box_fraise_server.Running.Service.{
  to_lowercase, clean_username, check_sign_up, write_credentials, conclude_credentials,
  conclude_sign_up, sign_up, log_in, check_log_run, conclude_log_run, log_run, signing_up,
  logging_in, logging_out, logging_run, serve, run,
}
use box_fraise_server.Running.Sound.{IsSound, run-IsSound}
use box_fraise_server.Running.Signing.{sign_up-log_in}
use box_fraise_server.Running.Standing.{log_run-standing}

abbrev at_time : ℕ → Env
at_time t = record {
  now = t;
  later = t;
  db_now = t;
  uuid = t;
  other_uuid = t;
  nonce = t ∷ [];
  audit_up = true;
}

-- Hash functions that verify what they have hashed.
abbrev plain : Hashing
plain = record {
  sha256_hex = λ token. token;
  argon2_hash = λ salt password. some password;
  argon2_verify = text_eq;
}

abbrev lower : ℕ → Text
lower c = c ∷ []

abbrev empty : Running
empty = record {
  runners = [];
  runner_credentials = [];
  runner_sessions = [];
  logged_runs = [];
  audit_events = [];
}

abbrev ada : Credentials
ada = record { username = codes " Ada_1"; password = codes "password" }

abbrev eve : Credentials
eve = record { username = codes "eve"; password = codes "passw0rd" }

-- Five kilometres in half an hour.
abbrev jog : LogRun
jog = record { distance_m = pos 5000; duration_s = pos 1800 }

run-IsSound_example : IsSound (
    run plain lower
      ((at_time 1, signing_up [] ada)
        ∷ (at_time 2, logging_in ada)
        ∷ (at_time 3, logging_run 1 jog)
        ∷ (at_time 4, logging_out 1 (1 ∷ []))
        ∷ [])
      empty)
run-IsSound_example =
    run-IsSound plain lower
      ((at_time 1, signing_up [] ada)
        ∷ (at_time 2, logging_in ada)
        ∷ (at_time 3, logging_run 1 jog)
        ∷ (at_time 4, logging_out 1 (1 ∷ []))
        ∷ [])
      empty (record { distinct = tt; shaped = tt; one_password = tt; signed_in = tt; sane = tt })

signs_up :
    (sign_up (at_time 1) plain lower [] ada empty).0
    ≡ ok (record { username = codes "ada_1"; token = 1 ∷ [] })
unfolding sign_up check_sign_up clean_username trim trim_start is_whitespace to_lowercase
    byte_length all_name_chars conclude_sign_up insert_runner exists write_credentials
    insert_credentials insert_session conclude_credentials text_eq
signs_up = refl

verifies : (salt password hash : Text) → some password ≡ some hash → text_eq password hash ≡ true
verifies salt password hash e = let same : password ≡ hash = cc e in rw same (text_eq_refl hash)

new_token :
    exists
      (λ x. text_eq x.token_hash (9 ∷ []))
      (run plain lower
        ((at_time 2, signing_up [] eve) ∷ [])
        (sign_up (at_time 1) plain lower [] ada empty).1).runner_sessions
    ≡ false
unfolding run serve sign_up check_sign_up clean_username trim trim_start is_whitespace to_lowercase
    byte_length all_name_chars conclude_sign_up insert_runner exists write_credentials
    insert_credentials insert_session conclude_credentials text_eq
new_token = refl

sign_up-log_in_example :
    (log_in (at_time 9) plain lower ada (
      run plain lower
        ((at_time 2, signing_up [] eve) ∷ [])
        (sign_up (at_time 1) plain lower [] ada empty).1)).0
    ≡ ok (record { username = codes "ada_1"; token = 9 ∷ [] })
sign_up-log_in_example =
    sign_up-log_in plain lower (at_time 1) (at_time 9) [] ada ((at_time 2, signing_up [] eve) ∷ [])
      empty verifies signs_up new_token

abbrev with_ada : Running
with_ada = record empty {
  runners = record { id = 1; username = codes "ada_1"; created_at = 1 } ∷ [];
  logged_runs =
      record {
        id = 7;
        runner_id = 1;
        distance_m = 5000;
        duration_s = 1500;
        started_at = 0;
        created_at = 1;
      }
      ∷ [];
}

logs : (log_run (at_time 3) 1 jog with_ada).0 ≡ ok tt
unfolding log_run check_log_run conclude_log_run insert_run exists
logs = refl

log_run-standing_example :
    let own = run_score 5000 1800 in
    let before = standing 1 with_ada.logged_runs in
    let after = standing 1 (log_run (at_time 3) 1 jog with_ada).1.logged_runs in
    (AtMost own before.0 → AtMost after.0 before.0)
    × (AtMost before.0 own → AtMost before.0 after.0)
    × ((other : ℕ)
        → other ≢ 1
        → standing other (log_run (at_time 3) 1 jog with_ada).1.logged_runs
          ≡ standing other with_ada.logged_runs)
log_run-standing_example = log_run-standing (at_time 3) 1 jog with_ada logs
