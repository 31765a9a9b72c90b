-- ===== src/Running/Sound.antt =====
-- The tables of src/domain/running, whatever is asked of it.
use box_fraise_server.Prelude.{
  ℕ, ◌*◌, ◌≤◌, ◌<◌, ◌≡◌, refl, ap₂, Bool, ◌&&◌, ◌||◌, true, some, arith, List, [], ◌∷◌, ◌++◌, All,
  All-append, ◌==◌,
}
use box_fraise_server.Prelude.Integers.{ℤ, magnitude}
use box_fraise_server.Prelude.Text.{Text, text_eq, text_eq_sym}
use box_fraise_server.Server.{Env, Hashing}
use box_fraise_server.Table.{exists}
use box_fraise_server.Table.Counting.{exists-append}
use box_fraise_server.Table.Distinct.{All-of_exists, All-map, Distinct, Distinct-insert}
use box_fraise_server.Table.Removal.{All-delete}
use box_fraise_server.Running.Types.{Runner, RunnerCredentials, RunnerSession, LoggedRun, Running}
use box_fraise_server.Running.Repository.{
  inserted, is_username, is_distance, is_duration, is_speed, clashes, new_session, new_run,
  insert_runner, insert_credentials, insert_session, insert_run, delete_session,
}
use box_fraise_server.Running.Service.{Request, run}
use box_fraise_server.Running.Cases.{
  insert_runner-inserted, insert_credentials-some, insert_session-some, insert_run-some, run-cases,
}

abbrev pub same_runner : Runner → Runner → Bool
same_runner a b = a.id == b.id || text_eq a.username b.username

same_runner_sym : (a b : Runner) → same_runner a b ≡ same_runner b a
same_runner_sym a b = ap₂ ◌||◌ (ground arith) (text_eq_sym a.username b.username)

abbrev pub same_owner : RunnerCredentials → RunnerCredentials → Bool
same_owner a b = a.runner_id == b.runner_id

-- Between 100 m and 200 km, in between a minute and a day, at 0.5 to 8 m/s.
pub record IsSane (r : LoggedRun) : Type 0 where
  pub far : (100 < r.distance_m) × (r.distance_m ≤ 200000)
  pub long : (60 ≤ r.duration_s) × (r.duration_s ≤ 86400)
  pub fast : (r.duration_s ≤ 2 * r.distance_m) × (r.distance_m ≤ 8 * r.duration_s)

pub record IsSound (t : Running) : Type 0 where
  pub distinct : Distinct same_runner t.runners
  pub shaped : All (λ r. is_username r.username ≡ true) t.runners
  pub one_password : Distinct same_owner t.runner_credentials
  pub signed_in : All (λ s. exists (λ r. r.id == s.runner_id) t.runners ≡ true) t.runner_sessions
  pub sane : All IsSane t.logged_runs

runner-IsSound :
    (r : Runner) (t s : Running) → insert_runner r t ≡ inserted s → IsSound t → IsSound s
runner-IsSound r t s h w =
    let (shape, fresh, made) = insert_runner-inserted r t h in
    rw made (record {
      distinct =
          Distinct-insert same_runner t.runners r (λ q. same_runner_sym q r) w.distinct
            (All-of_exists (clashes r) t.runners fresh);
      shaped =
          All-append (λ q. is_username q.username ≡ true) t.runners (r ∷ []) w.shaped (shape, tt);
      one_password = w.one_password;
      signed_in =
          All-map (λ q. exists (λ x. x.id == q.runner_id) t.runners ≡ true)
            (λ q. exists (λ x. x.id == q.runner_id) (t.runners ++ r ∷ []) ≡ true) t.runner_sessions
            (λ q here. rw (exists-append (λ x. x.id == q.runner_id) t.runners (r ∷ []), here) refl)
            w.signed_in;
      sane = w.sane;
    })

credentials-IsSound :
    (runner : ℕ) (hash : Text) (t s : Running)
    → insert_credentials runner hash t ≡ some s
    → IsSound t
    → IsSound s
credentials-IsSound runner hash t s h w =
    let (fresh, made) = insert_credentials-some runner hash t h in
    rw made (record {
      distinct = w.distinct;
      shaped = w.shaped;
      one_password =
          Distinct-insert same_owner t.runner_credentials
            (record { runner_id = runner; password_hash = hash }) (λ q. ground arith) w.one_password
            (All-of_exists (λ c. c.runner_id == runner) t.runner_credentials fresh);
      signed_in = w.signed_in;
      sane = w.sane;
    })

session-IsSound :
    (now : ℕ) (token_hash : Text) (runner : ℕ) (t s : Running)
    → insert_session now token_hash runner t ≡ some s
    → IsSound t
    → IsSound s
session-IsSound now token_hash runner t s h w =
    let (here, made) = insert_session-some now token_hash runner t h in
    rw made (record {
      distinct = w.distinct;
      shaped = w.shaped;
      one_password = w.one_password;
      signed_in =
          All-append (λ q. exists (λ r. r.id == q.runner_id) t.runners ≡ true) t.runner_sessions
            (new_session now token_hash runner ∷ []) w.signed_in (here, tt);
      sane = w.sane;
    })

new_run-IsSane :
    (now id runner : ℕ) (d s : ℤ)
    → is_distance d ≡ true
    → is_duration s ≡ true
    → is_speed (magnitude d) (magnitude s) ≡ true
    → IsSane (new_run now id runner (magnitude d) (magnitude s))
new_run-IsSane now id runner d s far long fast = record {
  far = ground arith;
  long = ground arith;
  fast = ground arith;
}

run-IsSane :
    (now id runner : ℕ) (d s : ℤ) (t u : Running)
    → insert_run now id runner d s t ≡ some u
    → IsSound t
    → IsSound u
run-IsSane now id runner d s t u h w =
    let (far, long, fast, made) = insert_run-some now id runner d s t h in
    rw made (record {
      distinct = w.distinct;
      shaped = w.shaped;
      one_password = w.one_password;
      signed_in = w.signed_in;
      sane =
          All-append IsSane t.logged_runs (_ ∷ []) w.sane
            (new_run-IsSane now id runner d s far long fast, tt);
    })

delete_session-All :
    (P : RunnerSession → Type 0) (runner : ℕ) (token_hash : Text) (sessions : List RunnerSession)
    → All P sessions
    → All P (delete_session runner token_hash sessions)
unfolding delete_session
delete_session-All P runner token_hash =
    All-delete P (λ s. text_eq s.token_hash token_hash && (s.runner_id == runner))

-- Whatever sequence of sign-ups, sign-ins, sign-outs and runs: if the ids and the names of the
-- runners of a table are distinct and the names of the right shape, nobody has two passwords,
-- every session is a runner's, and every run is of a distance, a duration and a speed that a
-- person can have, then so it is afterwards.
pub run-IsSound :
    (h : Hashing) (unicode : ℕ → Text) (requests : List (Env × Request)) (t : Running)
    → IsSound t
    → IsSound (run h unicode requests t)
run-IsSound =
    run-cases IsSound
      (λ events t w. record {
        distinct = w.distinct;
        shaped = w.shaped;
        one_password = w.one_password;
        signed_in = w.signed_in;
        sane = w.sane;
      })
      runner-IsSound credentials-IsSound session-IsSound run-IsSane
      (λ runner token_hash t w. record {
        distinct = w.distinct;
        shaped = w.shaped;
        one_password = w.one_password;
        signed_in = delete_session-All _ runner token_hash t.runner_sessions w.signed_in;
        sane = w.sane;
      })
