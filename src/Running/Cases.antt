-- ===== src/Running/Cases.antt =====
-- What the requests to src/domain/running do to its tables.
use box_fraise_server.Prelude.{
  ℕ, ◌≡◌, refl, inl, inr, true, false, Option, none, some, arith, List, [], ◌∷◌, ◌++◌, ◌==◌,
  Option-cases,
}
use box_fraise_server.Prelude.Integers.{ℤ, magnitude}
use box_fraise_server.Prelude.Text.{Text}
use box_fraise_server.Errors.{Result-cases}
use box_fraise_server.Server.{Env, AuditEvent, Hashing}
use box_fraise_server.Table.{exists}
use box_fraise_server.Running.Types.{Runner, Running, Credentials, LogRun}
use box_fraise_server.Running.Repository.{
  Inserted, unique_violation, check_violation, inserted, is_username, is_distance, is_duration,
  is_speed, new_runner, new_session, new_run, clashes, insert_runner, insert_credentials,
  insert_session, insert_run, delete_session,
}
use box_fraise_server.Running.Service.{
  check_sign_up, write_credentials, conclude_credentials, conclude_sign_up, sign_up, check_log_in,
  conclude_log_in, log_in, log_out, check_log_run, conclude_log_run, log_run, Request, signing_up,
  logging_in, logging_out, logging_run, serve, run,
}

pub insert_runner-inserted :
    (r : Runner) (t : Running) {s : Running}
    → insert_runner r t ≡ inserted s
    → (is_username r.username ≡ true)
      × (exists (clashes r) t.runners ≡ false)
      × (s ≡ record t { runners = t.runners ++ r ∷ [] })
unfolding insert_runner
insert_runner-inserted r t h = ground arith

pub insert_credentials-some :
    (runner : ℕ) (hash : Text) (t : Running) {s : Running}
    → insert_credentials runner hash t ≡ some s
    → (exists (λ c. c.runner_id == runner) t.runner_credentials ≡ false)
      × (s ≡ record t {
        runner_credentials =
            t.runner_credentials ++ (record { runner_id = runner; password_hash = hash }) ∷ [];
      })
unfolding insert_credentials
insert_credentials-some runner hash t h = ground arith

pub insert_session-some :
    (now : ℕ) (token_hash : Text) (runner : ℕ) (t : Running) {s : Running}
    → insert_session now token_hash runner t ≡ some s
    → (exists (λ r. r.id == runner) t.runners ≡ true)
      × (s ≡ record t {
        runner_sessions = t.runner_sessions ++ new_session now token_hash runner ∷ [];
      })
unfolding insert_session
insert_session-some now token_hash runner t h = ground arith

pub insert_run-some :
    (now id runner : ℕ) (d s : ℤ) (t : Running) {u : Running}
    → insert_run now id runner d s t ≡ some u
    → (is_distance d ≡ true)
      × (is_duration s ≡ true)
      × (is_speed (magnitude d) (magnitude s) ≡ true)
      × (u ≡ record t {
        logged_runs = t.logged_runs ++ new_run now id runner (magnitude d) (magnitude s) ∷ [];
      })
unfolding insert_run
insert_run-some now id runner d s t h = ground arith

-- A predicate on the tables that no INSERT, sign-out or audit event takes away.
module _ (P : Running → Type 0)
    (audited : (events : List AuditEvent) (t : Running)
      → P t
      → P (record t { audit_events = events }))
    (runner_added : (r : Runner) (t s : Running) → insert_runner r t ≡ inserted s → P t → P s)
    (credentials_added : (runner : ℕ) (hash : Text) (t s : Running)
      → insert_credentials runner hash t ≡ some s
      → P t
      → P s)
    (session_added : (now : ℕ) (token_hash : Text) (runner : ℕ) (t s : Running)
      → insert_session now token_hash runner t ≡ some s
      → P t
      → P s)
    (run_added : (now id runner : ℕ) (d s : ℤ) (t u : Running)
      → insert_run now id runner d s t ≡ some u
      → P t
      → P u)
    (session_ended : (runner : ℕ) (token_hash : Text) (t : Running)
      → P t
      → P (record t { runner_sessions = delete_session runner token_hash t.runner_sessions })) where
  write_credentials-cases :
      (now runner : ℕ) (hash token_hash : Text) (t s : Running)
      → write_credentials now runner hash token_hash t ≡ some s
      → P t
      → P s
  unfolding write_credentials
  write_credentials-cases now runner hash token_hash t s h p =
      elim (Option-cases (insert_credentials runner hash t)) [
        | inl e ↦ cc (rw e at h)
        | inr (u, e) ↦
            session_added now token_hash runner u s (rw e at h)
              (credentials_added runner hash t u e p)
      ]

  conclude_credentials-cases :
      (env : Env) (name : Text) (o : Option Running) (t : Running)
      → ((s : Running) → o ≡ some s → P s)
      → P t
      → P (conclude_credentials env name o t).1
  unfolding conclude_credentials
  conclude_credentials-cases env name none t k p = p
  conclude_credentials-cases env name (some s) t k p = audited _ s (k s refl)

  conclude_sign_up-cases :
      (env : Env) (name hash token_hash : Text) (o : Inserted) (t : Running)
      → ((s : Running) → o ≡ inserted s → P s)
      → P t
      → P (conclude_sign_up env name hash token_hash o t).1
  unfolding conclude_sign_up
  conclude_sign_up-cases env name hash token_hash unique_violation t k p = p
  conclude_sign_up-cases env name hash token_hash check_violation t k p = p
  conclude_sign_up-cases env name hash token_hash (inserted s) t k p =
      conclude_credentials-cases env name _ t
        (λ u h. write_credentials-cases env.db_now env.uuid hash token_hash s u h (k s refl)) p

  sign_up-cases :
      (env : Env) (h : Hashing) (unicode : ℕ → Text) (salt : Text) (req : Credentials) (t : Running)
      → P t
      → P (sign_up env h unicode salt req t).1
  unfolding sign_up
  sign_up-cases env h unicode salt req t p =
      elim (Result-cases (check_sign_up h unicode salt req)) [
        | inr (x, e) ↦ rw (e, sign_up) p
        | inl ((name, hash), e) ↦
            let r = new_runner env.db_now env.uuid name in
            rw (e, sign_up)
              (conclude_sign_up-cases env name hash (h.sha256_hex env.nonce) (insert_runner r t) t
                (λ s made. runner_added r t s made p) p)
      ]

  conclude_log_in-cases :
      (env : Env) (name : Text) (o : Option Running) (t : Running)
      → ((s : Running) → o ≡ some s → P s)
      → P t
      → P (conclude_log_in env name o t).1
  unfolding conclude_log_in
  conclude_log_in-cases env name none t k p = p
  conclude_log_in-cases env name (some s) t k p = k s refl

  log_in-cases :
      (env : Env) (h : Hashing) (unicode : ℕ → Text) (req : Credentials) (t : Running)
      → P t
      → P (log_in env h unicode req t).1
  unfolding log_in
  log_in-cases env h unicode req t p = elim (Result-cases (check_log_in h unicode req t)) [
    | inr (x, e) ↦ rw (e, log_in) p
    | inl ((name, runner), e) ↦
        rw (e, log_in)
          (conclude_log_in-cases env name _ t
            (λ s made. session_added env.db_now (h.sha256_hex env.nonce) runner t s made p) p)
  ]

  conclude_log_run-cases :
      (o : Option Running) (t : Running)
      → ((s : Running) → o ≡ some s → P s)
      → P t
      → P (conclude_log_run o t).1
  unfolding conclude_log_run
  conclude_log_run-cases none t k p = p
  conclude_log_run-cases (some s) t k p = k s refl

  log_run-cases :
      (env : Env) (runner : ℕ) (req : LogRun) (t : Running) → P t → P (log_run env runner req t).1
  unfolding log_run
  log_run-cases env runner req t p = elim (Result-cases (check_log_run req)) [
    | inr (x, e) ↦ rw (e, log_run) p
    | inl (_, e) ↦
        rw (e, log_run)
          (conclude_log_run-cases _ t
            (λ s made.
              run_added env.db_now env.uuid runner req.distance_m req.duration_s t s made p)
            p)
  ]

  serve-cases :
      (h : Hashing) (unicode : ℕ → Text) (env : Env) (req : Request) (t : Running)
      → P t
      → P (serve h unicode env req t)
  unfolding serve log_out
  serve-cases h unicode env (signing_up salt req) t p = sign_up-cases env h unicode salt req t p
  serve-cases h unicode env (logging_in req) t p = log_in-cases env h unicode req t p
  serve-cases h unicode env (logging_out runner token_hash) t p =
      session_ended runner token_hash t p
  serve-cases h unicode env (logging_run runner req) t p = log_run-cases env runner req t p

  pub run-cases :
      (h : Hashing) (unicode : ℕ → Text) (requests : List (Env × Request)) (t : Running)
      → P t
      → P (run h unicode requests t)
  unfolding run
  run-cases h unicode [] t p = p
  run-cases h unicode ((env, req) ∷ rest) t p =
      run-cases h unicode rest (serve h unicode env req t) (serve-cases h unicode env req t p)
