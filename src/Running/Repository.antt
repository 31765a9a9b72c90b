-- ===== src/Running/Repository.antt =====
-- The statements of src/domain/running/repository.rs.
use box_fraise_server.Prelude.{
  ℕ, zero, suc, ◌+◌, ◌-◌, ◌*◌, Bool, true, not, ◌&&◌, ◌||◌, Option, none, some, List, [], ◌∷◌, ◌++◌,
  map, length, leb, ◌==◌, if◌then◌else◌,
}
use box_fraise_server.Prelude.Integers.{ℤ, pos, lessb, magnitude}
use box_fraise_server.Prelude.Text.{Text, text_eq}
use box_fraise_server.Server.{seconds}
use box_fraise_server.Table.{find, select, exists, sum, delete, order_desc, limit}
use box_fraise_server.Running.Board.{Fraction, zero_fraction, below, run_score, total, divided}
use box_fraise_server.Running.Types.{
  Runner, RunnerCredentials, RunnerSession, LoggedRun, Running, Run, BoardRow,
}

-- [a-z0-9_]
abbrev pub is_name_char : ℕ → Bool
is_name_char c = leb 97 c && leb c 122 || leb 48 c && leb c 57 || c == 95

unfoldable pub all_name_chars : Text → Bool
all_name_chars [] = true
all_name_chars (c ∷ s) = is_name_char c && all_name_chars s

-- `runners_username_shape`
abbrev pub is_username : Text → Bool
is_username s = leb 3 (length s) && leb (length s) 20 && all_name_chars s

abbrev pub new_runner : ℕ → ℕ → Text → Runner
new_runner now id username = record { id = id; username = username; created_at = now }

-- What an INSERT into `runners` comes to: code 23505, another refusal, or the table.
pub data Inserted : Type 0 where
  unique_violation check_violation : Inserted
  inserted : Running → Inserted

abbrev pub clashes : Runner → Runner → Bool
clashes r s = s.id == r.id || text_eq s.username r.username

unfoldable pub insert_runner : Runner → Running → Inserted
insert_runner r t =
    if not (is_username r.username)
    then check_violation
    else if exists (clashes r) t.runners
    then unique_violation
    else inserted (record t { runners = t.runners ++ r ∷ [] })

-- `none` is a refusal by the primary key or by the foreign key.
unfoldable pub insert_credentials : ℕ → Text → Running → Option Running
insert_credentials runner hash t =
    if exists (λ c. c.runner_id == runner) t.runner_credentials
      || not (exists (λ r. r.id == runner) t.runners)
    then none
    else some (record t {
      runner_credentials =
          t.runner_credentials ++ (record { runner_id = runner; password_hash = hash }) ∷ [];
    })

-- The two columns of the JOIN of `runners` with `runner_credentials`.
abbrev pub hash_of : ℕ → Option RunnerCredentials → Option (ℕ × Text)
hash_of id none = none
hash_of id (some c) = some (id, c.password_hash)

abbrev pub credentials_of : Option Runner → List RunnerCredentials → Option (ℕ × Text)
credentials_of none credentials = none
credentials_of (some r) credentials = hash_of r.id (find (λ c. c.runner_id == r.id) credentials)

unfoldable pub credentials_for : Text → Running → Option (ℕ × Text)
credentials_for username t =
    credentials_of (find (λ r. text_eq r.username username) t.runners) t.runner_credentials

-- Ninety days, the default of `expires_at`.
abbrev pub session_seconds : ℕ
session_seconds = 7776000

abbrev pub new_session : ℕ → Text → ℕ → RunnerSession
new_session now token_hash runner = record {
  token_hash = token_hash;
  runner_id = runner;
  created_at = now;
  expires_at = now + seconds session_seconds;
}

unfoldable pub insert_session : ℕ → Text → ℕ → Running → Option Running
insert_session now token_hash runner t =
    if exists (λ s. text_eq s.token_hash token_hash) t.runner_sessions
      || not (exists (λ r. r.id == runner) t.runners)
    then none
    else some
        (record t { runner_sessions = t.runner_sessions ++ new_session now token_hash runner ∷ [] })

-- Under the policy `runner_sessions_own_delete`.
unfoldable pub delete_session : ℕ → Text → List RunnerSession → List RunnerSession
delete_session runner token_hash sessions =
    delete (λ s. text_eq s.token_hash token_hash && (s.runner_id == runner)) sessions

abbrev username_in : Option Runner → Option Text
username_in none = none
username_in (some r) = some r.username

unfoldable pub username_of : ℕ → List Runner → Option Text
username_of runner runners = username_in (find (λ r. r.id == runner) runners)

-- The three CHECK constraints of `logged_runs`. The last one compares a quotient of integers with
-- 0.5 and 8.0; so does the `f64` test of the service, which no rounding can change here, since a
-- quotient other than 0.5 and 8.0 is farther from them than the rounding is.
abbrev pub is_distance : ℤ → Bool
is_distance d = lessb (pos 100) d && not (lessb (pos 200000) d)

abbrev pub is_duration : ℤ → Bool
is_duration s = not (lessb s (pos 60)) && not (lessb (pos 86400) s)

abbrev pub is_speed : ℕ → ℕ → Bool
is_speed d s = leb s (2 * d) && leb d (8 * s)

abbrev pub new_run : ℕ → ℕ → ℕ → ℕ → ℕ → LoggedRun
new_run now id runner distance duration = record {
  id = id;
  runner_id = runner;
  distance_m = distance;
  duration_s = duration;
  started_at = now - seconds duration;
  created_at = now;
}

unfoldable pub insert_run : ℕ → ℕ → ℕ → ℤ → ℤ → Running → Option Running
insert_run now id runner distance duration t =
    if not (
        is_distance distance
        && is_duration duration
        && is_speed (magnitude distance) (magnitude duration))
      || exists (λ r. r.id == id) t.logged_runs
      || not (exists (λ r. r.id == runner) t.runners)
    then none
    else some (record t {
      logged_runs =
          t.logged_runs ++ new_run now id runner (magnitude distance) (magnitude duration) ∷ [];
    })

unfoldable pub runs_for : ℕ → List LoggedRun → List Run
runs_for runner runs = limit 50 (
    map
      (λ r. record {
        id = r.id;
        distance_m = r.distance_m;
        duration_s = r.duration_s;
        started_at = r.started_at;
      })
      (order_desc (λ r. r.started_at) (select (λ r. r.runner_id == runner) runs)))

-- AVG over no rows is NULL, which COALESCE makes 0.
abbrev pub averaged : ℕ → Fraction → Fraction
averaged zero a = zero_fraction
averaged (suc n) a = divided (suc n) a

unfoldable pub score : List LoggedRun → Fraction
score runs = averaged (length runs) (total (map (λ r. run_score r.distance_m r.duration_s) runs))

unfoldable pub standing : ℕ → List LoggedRun → Fraction × ℕ
standing runner runs = (
  score (select (λ r. r.runner_id == runner) runs),
  sum (λ r. r.runner_id == runner) (λ r. r.distance_m) runs,
)

abbrev row_of : Text → List LoggedRun → List BoardRow
row_of username [] = []
row_of username (r ∷ runs) =
    record {
      username = username;
      score = score (r ∷ runs);
      runs = length (r ∷ runs);
      total_m = sum (λ x. true) (λ x. x.distance_m) (r ∷ runs);
    }
    ∷ []

-- GROUP BY the username, which is unique: one row for each runner with a run.
unfoldable pub rows : List Runner → List LoggedRun → List BoardRow
rows [] runs = []
rows (r ∷ runners) runs =
    row_of r.username (select (λ x. x.runner_id == r.id) runs) ++ rows runners runs

insert_row : BoardRow → List BoardRow → List BoardRow
insert_row b [] = b ∷ []
insert_row b (c ∷ cs) = if below b.score c.score then c ∷ insert_row b cs else b ∷ c ∷ cs

-- ORDER BY score DESC
unfoldable pub order_rows : List BoardRow → List BoardRow
unfolding insert_row
order_rows [] = []
order_rows (b ∷ bs) = insert_row b (order_rows bs)

unfoldable pub board : Running → List BoardRow
board t = limit 100 (order_rows (rows t.runners t.logged_runs))
