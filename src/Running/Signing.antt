-- ===== src/Running/Signing.antt =====
-- Signing up for src/domain/running, and signing in later.
use box_fraise_server.Prelude.{
  ℕ, ◌≡◌, refl, ap, ◌∙◌, inl, inr, true, false, Option, some, none, arith, List, [], ◌∷◌, ◌++◌,
  ◌==◌, length, ltb, Bool-cases, Option-cases,
}
use box_fraise_server.Prelude.Text.{Text, text_eq, text_eq_refl}
use box_fraise_server.Errors.{ok, Result-cases}
use box_fraise_server.Server.{Env, Hashing}
use box_fraise_server.Table.{find, exists}
use box_fraise_server.Table.Search.{find-append}
use box_fraise_server.Table.Counting.{exists-append}
use box_fraise_server.Running.Types.{Runner, RunnerCredentials, Running, Credentials, SignedIn}
use box_fraise_server.Running.Repository.{
  Inserted, unique_violation, check_violation, inserted, clashes, new_runner, insert_runner,
  insert_credentials, insert_session, hash_of, credentials_of, credentials_for, new_session,
}
use box_fraise_server.Running.Service.{
  min_password, clean_username, check_sign_up, write_credentials, conclude_credentials,
  conclude_sign_up, sign_up, check_log_in, conclude_log_in, log_in, Request, run,
}
use box_fraise_server.Running.Cases.{
  insert_runner-inserted, insert_credentials-some, insert_session-some, insert_run-some, run-cases,
}

-- A name, with the id and the hash that a sign-in with it will read.
record Knows (name : Text) (id : ℕ) (hash : Text) (t : Running) : Type 0 where
  pub named : (r : Runner) × (find (λ x. text_eq x.username name) t.runners ≡ some r) × (r.id ≡ id)
  pub present : exists (λ x. x.id == id) t.runners ≡ true
  pub hashed :
      (c : RunnerCredentials) × (find (λ x. x.runner_id == id) t.runner_credentials ≡ some c)
      × (c.password_hash ≡ hash)

run-Knows :
    (name : Text) (id : ℕ) (hash : Text) (h : Hashing) (unicode : ℕ → Text)
    (requests : List (Env × Request)) (t : Running)
    → Knows name id hash t
    → Knows name id hash (run h unicode requests t)
run-Knows name id hash =
    run-cases (Knows name id hash)
      (λ events t k. record { named = k.named; present = k.present; hashed = k.hashed })
      (λ r t s made k.
        let (_, _, rows) = insert_runner-inserted r t made in
        let (q, found, own) = k.named in
        rw rows (record {
          named = (q, find-append (λ x. text_eq x.username name) t.runners (r ∷ []) found, own);
          present = rw (exists-append (λ x. x.id == id) t.runners (r ∷ []), k.present) refl;
          hashed = k.hashed;
        }))
      (λ runner hash' t s made k.
        let (_, rows) = insert_credentials-some runner hash' t made in
        let (c, found, own) = k.hashed in
        rw rows (record {
          named = k.named;
          present = k.present;
          hashed =
              (c, find-append (λ x. x.runner_id == id) t.runner_credentials (_ ∷ []) found, own);
        }))
      (λ now token_hash runner t s made k.
        rw (insert_session-some now token_hash runner t made).1
          (record { named = k.named; present = k.present; hashed = k.hashed }))
      (λ now rid runner d s t u made k.
        rw (insert_run-some now rid runner d s t made).3
          (record { named = k.named; present = k.present; hashed = k.hashed }))
      (λ runner token_hash t k. record { named = k.named; present = k.present; hashed = k.hashed })

find-fresh_name :
    (r : Runner) (runners : List Runner)
    → exists (clashes r) runners ≡ false
    → find (λ x. text_eq x.username r.username) (runners ++ r ∷ []) ≡ some r
unfolding find exists
find-fresh_name r [] h = rw (text_eq_refl r.username)
find-fresh_name r (x ∷ runners) h = let rest = find-fresh_name r runners in ground (arith, rest)

find-fresh_owner :
    (c : RunnerCredentials) (credentials : List RunnerCredentials)
    → exists (λ x. x.runner_id == c.runner_id) credentials ≡ false
    → find (λ x. x.runner_id == c.runner_id) (credentials ++ c ∷ []) ≡ some c
unfolding find exists
find-fresh_owner c [] h = ground arith
find-fresh_owner c (x ∷ credentials) h =
    let rest = find-fresh_owner c credentials in ground (arith, rest)

exists_last :
    (r : Runner) (runners : List Runner) → exists (λ x. x.id == r.id) (runners ++ r ∷ []) ≡ true
unfolding exists
exists_last r [] = ground arith
exists_last r (x ∷ runners) = let rest = exists_last r runners in ground (arith, rest)

check_sign_up-ok :
    (h : Hashing) (unicode : ℕ → Text) (salt : Text) (req : Credentials) {p : Text × Text}
    → check_sign_up h unicode salt req ≡ ok p
    → (clean_username unicode req.username ≡ ok p.0) × (h.argon2_hash salt req.password ≡ some p.1)
unfolding check_sign_up
check_sign_up-ok h unicode salt req {p} e =
    elim (Result-cases (clean_username unicode req.username)) [
      | inr (x, f) ↦ cc (rw f at e)
      | inl (name, f) ↦ elim (Bool-cases (ltb (length req.password) min_password)) [
        | inl g ↦ cc (rw (f, g) at e)
        | inr g ↦ elim (Option-cases (h.argon2_hash salt req.password)) [
          | inl k ↦ cc (rw (f, g, k) at e)
          | inr (hash, k) ↦
              let same : (name, hash) ≡ p = cc (rw (f, g, k) at e) in
              (f ∙ ap (λ x. ok x.0) same, k ∙ ap (λ x. some x.1) same)
        ]
      ]
    ]

conclude_credentials-ok :
    (env : Env) (name : Text) (o : Option Running) (t : Running) {s : SignedIn}
    → (conclude_credentials env name o t).0 ≡ ok s
    → (u : Running) × (o ≡ some u)
      × (s.username ≡ name)
      × ((conclude_credentials env name o t).1.runners ≡ u.runners)
      × ((conclude_credentials env name o t).1.runner_credentials ≡ u.runner_credentials)
unfolding conclude_credentials
conclude_credentials-ok env name none t h = cc h
conclude_credentials-ok env name (some u) t {s} h =
    let same : record { username = name; token = env.nonce } ≡ s = cc h in
    (u, refl, rw (← same) refl, refl, refl)

write_credentials-some :
    (now runner : ℕ) (hash token_hash : Text) (t : Running) {u : Running}
    → write_credentials now runner hash token_hash t ≡ some u
    → let c : RunnerCredentials = record { runner_id = runner; password_hash = hash } in
      (exists (λ x. x.runner_id == runner) t.runner_credentials ≡ false)
      × (u.runners ≡ t.runners)
      × (u.runner_credentials ≡ t.runner_credentials ++ c ∷ [])
unfolding write_credentials
write_credentials-some now runner hash token_hash t h =
    elim (Option-cases (insert_credentials runner hash t)) [
      | inl e ↦ cc (rw e at h)
      | inr (s, e) ↦
          let (fresh, made) = insert_credentials-some runner hash t e in
          let more = (insert_session-some now token_hash runner s (rw e at h)).1 in
          (
            fresh,
            ap (λ x. x.runners) more ∙ ap (λ x. x.runners) made,
            ap (λ x. x.runner_credentials) more ∙ ap (λ x. x.runner_credentials) made,
          )
    ]

-- What a sign-up leaves behind.
conclude_sign_up-Knows :
    (env : Env) (name hash token_hash : Text) (o : Inserted) (t : Running) {s : SignedIn}
    → insert_runner (new_runner env.db_now env.uuid name) t ≡ o
    → (conclude_sign_up env name hash token_hash o t).0 ≡ ok s
    → (s.username ≡ name)
      × Knows name env.uuid hash (conclude_sign_up env name hash token_hash o t).1
unfolding conclude_sign_up
conclude_sign_up-Knows env name hash token_hash unique_violation t e h = cc h
conclude_sign_up-Knows env name hash token_hash check_violation t e h = cc h
conclude_sign_up-Knows env name hash token_hash (inserted s) t e h =
    let r = new_runner env.db_now env.uuid name in
    let c : RunnerCredentials = record { runner_id = env.uuid; password_hash = hash } in
    let (_, free, rows) = insert_runner-inserted r t e in
    let made = write_credentials env.db_now env.uuid hash token_hash s in
    let (u, f, named, runners, credentials) = conclude_credentials-ok env name made t h in
    let (fresh, same, more) = write_credentials-some env.db_now env.uuid hash token_hash s f in
    let all_runners = runners ∙ same ∙ ap (λ x. x.runners) rows in
    let all_credentials = credentials ∙ more in
    (
      named,
      record {
        named = (r, rw all_runners (find-fresh_name r t.runners free), refl);
        present = rw all_runners (exists_last r t.runners);
        hashed = (c, rw all_credentials (find-fresh_owner c s.runner_credentials fresh), refl);
      },
    )

Knows-credentials_for :
    (name : Text) (id : ℕ) (hash : Text) (t : Running)
    → Knows name id hash t
    → credentials_for name t ≡ some (id, hash)
unfolding credentials_for
Knows-credentials_for name id hash t k =
    let (r, found, own) = k.named in
    let (c, there, same) = k.hashed in
    ap (λ o. credentials_of o t.runner_credentials) found
    ∙ ap (λ n. hash_of n (find (λ x. x.runner_id == n) t.runner_credentials)) own
    ∙ ap (hash_of id) there
    ∙ ap (λ x. some (id, x)) same

check_log_in-ok :
    (h : Hashing) (unicode : ℕ → Text) (req : Credentials) (t : Running) (name : Text) (id : ℕ)
    (hash : Text)
    → clean_username unicode req.username ≡ ok name
    → credentials_for name t ≡ some (id, hash)
    → h.argon2_verify req.password hash ≡ true
    → check_log_in h unicode req t ≡ ok (name, id)
unfolding check_log_in
check_log_in-ok h unicode req t name id hash e f g = rw (e, f, g)

insert_session-fresh :
    (now : ℕ) (token_hash : Text) (runner : ℕ) (t : Running)
    → exists (λ s. text_eq s.token_hash token_hash) t.runner_sessions ≡ false
    → exists (λ r. r.id == runner) t.runners ≡ true
    → (s : Running) × (insert_session now token_hash runner t ≡ some s)
unfolding insert_session
insert_session-fresh now token_hash runner t fresh here = (
  record t { runner_sessions = t.runner_sessions ++ new_session now token_hash runner ∷ [] },
  rw (fresh, here) refl,
)

sign_up-Knows :
    (env : Env) (h : Hashing) (unicode : ℕ → Text) (salt : Text) (req : Credentials) (t : Running)
    {s : SignedIn}
    → (sign_up env h unicode salt req t).0 ≡ ok s
    → (hash : Text) × (clean_username unicode req.username ≡ ok s.username)
      × (h.argon2_hash salt req.password ≡ some hash)
      × Knows s.username env.uuid hash (sign_up env h unicode salt req t).1
unfolding sign_up
sign_up-Knows env h unicode salt req t e = elim (Result-cases (check_sign_up h unicode salt req)) [
  | inr (x, f) ↦ cc (rw (f, sign_up) at e)
  | inl ((name, hash), f) ↦
      let (clean, hashed) = check_sign_up-ok h unicode salt req f in
      let r = new_runner env.db_now env.uuid name in
      let (named, knows) =
        conclude_sign_up-Knows env name hash (h.sha256_hex env.nonce) (insert_runner r t) t refl
          (rw (f, sign_up) at e) in
      (hash, rw named clean, hashed, rw (f, sign_up, named) knows)
]

conclude_log_in-some :
    (env : Env) (name : Text) (s t : Running)
    → (conclude_log_in env name (some s) t).0 ≡ ok (record { username = name; token = env.nonce })
unfolding conclude_log_in
conclude_log_in-some env name s t = refl

-- Whoever has signed up can sign in: with the same name and password, whatever requests came in
-- between, a sign-in is accepted under the name of the sign-up and hands out its own token, if
-- Argon2 verifies what it has hashed and the new token is not already that of a session.
pub sign_up-log_in :
    (h : Hashing) (unicode : ℕ → Text) (env env' : Env) (salt : Text) (req : Credentials)
    (rest : List (Env × Request)) (t : Running) {s : SignedIn}
    → ((salt' password hash : Text)
        → h.argon2_hash salt' password ≡ some hash
        → h.argon2_verify password hash ≡ true)
    → (sign_up env h unicode salt req t).0 ≡ ok s
    → let u = run h unicode rest (sign_up env h unicode salt req t).1 in
      exists (λ x. text_eq x.token_hash (h.sha256_hex env'.nonce)) u.runner_sessions ≡ false
      → (log_in env' h unicode req u).0 ≡ ok (record { username = s.username; token = env'.nonce })
unfolding log_in
sign_up-log_in h unicode env env' salt req rest t {s} verifies e fresh =
    let (hash, clean, hashed, now) = sign_up-Knows env h unicode salt req t e in
    let u = run h unicode rest (sign_up env h unicode salt req t).1 in
    let later = run-Knows s.username env.uuid hash h unicode rest _ now in
    let found = Knows-credentials_for s.username env.uuid hash u later in
    let checked =
      check_log_in-ok h unicode req u s.username env.uuid hash clean found
        (verifies salt req.password hash hashed) in
    let (v, made) =
      insert_session-fresh env'.db_now (h.sha256_hex env'.nonce) env.uuid u fresh later.present in
    rw (checked, log_in, made) (conclude_log_in-some env' s.username v u)
