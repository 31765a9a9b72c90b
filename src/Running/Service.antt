-- ===== src/Running/Service.antt =====
-- The handlers of src/domain/running/service.rs. `salt` is what `OsRng` draws for a password.
use box_fraise_server.Prelude.{
  ℕ, ◌+◌, not, ◌&&◌, ◌||◌, Option, none, some, List, [], ◌∷◌, ◌++◌, length, leb, ltb, if◌then◌else◌,
}
use box_fraise_server.Prelude.Integers.{ℤ, pos, lessb, magnitude}
use box_fraise_server.Prelude.Text.{byte_length, Text, trim}
use box_fraise_server.Errors.{
  Result, ok, err, bad_request, unauthorized, internal, db, ◌>>=◌, ◌>>◌, fail_if, ok_or,
}
use box_fraise_server.Server.{Env, Json, Hashing, write_audit}
use box_fraise_server.Running.Types.{Running, Credentials, SignedIn, LogRun, Me, BoardRow}
use box_fraise_server.Running.Repository.{
  Inserted, unique_violation, check_violation, inserted, new_runner, all_name_chars, is_speed,
}
use box_fraise_server.Running.Repository

abbrev pub min_password : ℕ
min_password = 8

-- `str::to_lowercase`. The argument gives the lower case of a character that is not ASCII, from
-- the tables of Unicode.
unfoldable pub to_lowercase : (ℕ → Text) → Text → Text
to_lowercase unicode [] = []
to_lowercase unicode (c ∷ s) =
    if leb 65 c && leb c 90
    then (c + 32) ∷ to_lowercase unicode s
    else if ltb c 128
    then c ∷ to_lowercase unicode s
    else unicode c ++ to_lowercase unicode s

unfoldable pub clean_username : (ℕ → Text) → Text → Result Text
clean_username unicode raw =
    let name = to_lowercase unicode (trim raw) in
    do
      fail_if (ltb (byte_length name) 3 || ltb 20 (byte_length name))
          (bad_request "a name is three to twenty characters")
      fail_if (not (all_name_chars name)) (bad_request "letters, numbers and underscores only")
      ok name

-- The early returns of `sign_up`, with the name and the hash of the password.
unfoldable pub check_sign_up : Hashing → (ℕ → Text) → Text → Credentials → Result (Text × Text)
check_sign_up h unicode salt req = do
  name ← clean_username unicode req.username
  fail_if (ltb (length req.password) min_password)
      (bad_request "a password of at least eight characters")
  hash ← ok_or (h.argon2_hash salt req.password) internal
  ok (name, hash)

abbrev then_session : ℕ → Text → ℕ → Option Running → Option Running
then_session now token_hash runner none = none
then_session now token_hash runner (some t) = Repository.insert_session now token_hash runner t

-- The statements of `sign_up` after the INSERT of the runner.
unfoldable pub write_credentials : ℕ → ℕ → Text → Text → Running → Option Running
write_credentials now runner hash token_hash t =
    then_session now token_hash runner (Repository.insert_credentials runner hash t)

abbrev signed : Text → Text → SignedIn
signed username token = record { username = username; token = token }

unfoldable pub conclude_credentials :
    Env → Text → Option Running → Running → Result SignedIn × Running
conclude_credentials env name none t = (err db, t)
conclude_credentials env name (some s) t = (
  ok (signed name env.nonce),
  record s {
    audit_events =
        write_audit env
          (record {
            actor_type = "public";
            actor_id = none;
            action = "runner.signed_up";
            target = some (Json.num env.uuid);
            metadata = [];
          })
          s.audit_events;
  },
)

unfoldable pub conclude_sign_up :
    Env → Text → Text → Text → Inserted → Running → Result SignedIn × Running
conclude_sign_up env name hash token_hash unique_violation t =
    (err (bad_request "that name is taken"), t)
conclude_sign_up env name hash token_hash check_violation t = (err db, t)
conclude_sign_up env name hash token_hash (inserted s) t =
    conclude_credentials env name (write_credentials env.db_now env.uuid hash token_hash s) t

unfoldable pub sign_up :
    Env → Hashing → (ℕ → Text) → Text → Credentials → Running → Result SignedIn × Running
sign_up env h unicode salt req t = elim (check_sign_up h unicode salt req) [
  | err e ↦ (err e, t)
  | ok p ↦
      conclude_sign_up env p.0 p.1 (h.sha256_hex env.nonce)
        (Repository.insert_runner (new_runner env.db_now env.uuid p.0) t) t
]

-- The early returns of `log_in`, with the name and the id of the runner.
unfoldable pub check_log_in : Hashing → (ℕ → Text) → Credentials → Running → Result (Text × ℕ)
check_log_in h unicode req t = do
  name ← clean_username unicode req.username
  found ←
      ok_or (Repository.credentials_for name t) (bad_request "that name and password do not match")
  fail_if (not (h.argon2_verify req.password found.1))
      (bad_request "that name and password do not match")
  ok (name, found.0)

unfoldable pub conclude_log_in : Env → Text → Option Running → Running → Result SignedIn × Running
conclude_log_in env name none t = (err db, t)
conclude_log_in env name (some s) t = (ok (signed name env.nonce), s)

unfoldable pub log_in :
    Env → Hashing → (ℕ → Text) → Credentials → Running → Result SignedIn × Running
log_in env h unicode req t = elim (check_log_in h unicode req t) [
  | err e ↦ (err e, t)
  | ok p ↦
      conclude_log_in env p.0 (Repository.insert_session env.db_now (h.sha256_hex env.nonce) p.1 t)
        t
]

unfoldable pub log_out : ℕ → Text → Running → Result (Unit {0}) × Running
log_out runner token_hash t = (
  ok tt,
  record t { runner_sessions = Repository.delete_session runner token_hash t.runner_sessions },
)

unfoldable pub me : ℕ → Running → Result Me
me runner t = do
  username ← ok_or (Repository.username_of runner t.runners) unauthorized
  ok (record {
    username = username;
    runs = Repository.runs_for runner t.logged_runs;
    score = (Repository.standing runner t.logged_runs).0;
    total_m = (Repository.standing runner t.logged_runs).1;
  })

abbrev pub max_m : ℤ
max_m = pos 200000

abbrev pub max_s : ℤ
max_s = pos 86400

-- The early returns of `log_run`.
unfoldable pub check_log_run : LogRun → Result (Unit {0})
check_log_run req = do
  fail_if (not (lessb (pos 100) req.distance_m) || lessb max_m req.distance_m)
      (bad_request "that is not a distance")
  fail_if (lessb req.duration_s (pos 60) || lessb max_s req.duration_s)
      (bad_request "a run is at least a minute")
  fail_if (not (is_speed (magnitude req.distance_m) (magnitude req.duration_s)))
      (bad_request "nobody runs at that speed")
  ok tt

unfoldable pub conclude_log_run : Option Running → Running → Result (Unit {0}) × Running
conclude_log_run none t = (err db, t)
conclude_log_run (some s) t = (ok tt, s)

unfoldable pub log_run : Env → ℕ → LogRun → Running → Result (Unit {0}) × Running
log_run env runner req t = elim (check_log_run req) [
  | err e ↦ (err e, t)
  | ok _ ↦
      conclude_log_run
        (Repository.insert_run env.db_now env.uuid runner req.distance_m req.duration_s t) t
]

unfoldable pub board : Running → Result (List BoardRow)
board t = ok (Repository.board t)

-- The requests that write, one after another.
pub data Request : Type 0 where
  signing_up : Text → Credentials → Request
  logging_in : Credentials → Request
  logging_out : ℕ → Text → Request
  logging_run : ℕ → LogRun → Request

module _ (h : Hashing) (unicode : ℕ → Text) where
  unfoldable pub serve : Env → Request → Running → Running
  serve env (signing_up salt req) t = (sign_up env h unicode salt req t).1
  serve env (logging_in req) t = (log_in env h unicode req t).1
  serve env (logging_out runner token_hash) t = (log_out runner token_hash t).1
  serve env (logging_run runner req) t = (log_run env runner req t).1

  unfoldable pub run : List (Env × Request) → Running → Running
  run [] t = t
  run ((env, req) ∷ rest) t = run rest (serve env req t)
