-- ===== src/Http/Middleware.antt =====
-- src/http/middleware.rs: from the tokens of a request to the markers that the extractors of
-- src/http/extractors.rs look for.
use box_fraise_server.Prelude.{
  ℕ, zero, suc, ◌&&◌, Option, none, some, List, [], ◌∷◌, ltb, length, if◌then◌else◌,
}
use box_fraise_server.Prelude.Text.{Text, codes, text_eq, trim}
use box_fraise_server.Errors.{Result, unauthorized, ok_or}
use box_fraise_server.Server.{Hashing}
use box_fraise_server.Table.{find}
use box_fraise_server.Members.Types.{UserSession}
use box_fraise_server.Running.Types.{RunnerSession}
use box_fraise_server.Http.Cookies.{Headers, eq_ignore_case, get, session, runner}

-- A row of `admin_sessions`.
pub record AdminSession : Type 0 where
  pub token_hash : Text
  pub admin_id : ℕ
  pub expires_at : ℕ

-- The three tables of sessions.
pub record Sessions : Type 0 where
  pub user_sessions : List UserSession
  pub admin_sessions : List AdminSession
  pub runner_sessions : List RunnerSession

-- The extensions of a request.
pub record Extensions : Type 0 where
  pub authed_user : Option ℕ
  pub session_hash : Option Text
  pub session_token : Option Text
  pub authed_admin : Option ℕ
  pub authed_runner : Option ℕ
  pub runner_session_hash : Option Text

abbrev pub no_markers : Extensions
no_markers = record {
  authed_user = none;
  session_hash = none;
  session_token = none;
  authed_admin = none;
  authed_runner = none;
  runner_session_hash = none;
}

-- The first `n` characters, and what follows them.
unfoldable pub take : ℕ → Text → Text
take zero s = []
take (suc n) [] = []
take (suc n) (c ∷ s) = c ∷ take n s

unfoldable pub drop : ℕ → Text → Text
drop zero s = s
drop (suc n) [] = []
drop (suc n) (c ∷ s) = drop n s

abbrev pub prefix : Text
prefix = codes "Bearer "

-- On a header that `to_str` accepts, whose characters are single bytes.
unfoldable pub bearer_in : Text → Option Text
bearer_in value =
    if ltb 7 (length value) && eq_ignore_case (take 7 value) prefix
    then some (trim (drop 7 value))
    else none

abbrev pub bearer_of : Option (Option Text) → Option Text
bearer_of none = none
bearer_of (some none) = none
bearer_of (some (some value)) = bearer_in value

unfoldable pub bearer_from : Headers → Option Text
bearer_from headers = bearer_of headers.authorization

abbrev pub or_else : Option Text → Option Text → Option Text
or_else none o = o
or_else (some s) o = some s

unfoldable pub token_from : Headers → Option Text
token_from headers = or_else (bearer_from headers) (get headers session)

-- The marker of an admin, where the token is not a member's.
abbrev pub mark_admin : Option AdminSession → Extensions → Extensions
mark_admin none x = x
mark_admin (some s) x = record x { authed_admin = some s.admin_id }

abbrev pub mark_user :
    Text → Text → Option UserSession → Option AdminSession → Extensions → Extensions
mark_user token token_hash none admin x = mark_admin admin x
mark_user token token_hash (some s) admin x = record x {
  authed_user = some s.user_id;
  session_hash = some token_hash;
  session_token = some token;
}

unfoldable pub resolve_token : Hashing → ℕ → Option Text → Sessions → Extensions → Extensions
resolve_token h now none t x = x
resolve_token h now (some token) t x =
    let token_hash = h.sha256_hex token in
    mark_user token token_hash (find (λ s. text_eq s.token_hash token_hash) t.user_sessions)
      (find (λ s. text_eq s.token_hash token_hash && ltb now s.expires_at) t.admin_sessions) x

abbrev pub mark_runner : Text → Option RunnerSession → Extensions → Extensions
mark_runner token_hash none x = x
mark_runner token_hash (some s) x = record x {
  authed_runner = some s.runner_id;
  runner_session_hash = some token_hash;
}

unfoldable pub resolve_runner : Hashing → ℕ → Option Text → Sessions → Extensions → Extensions
resolve_runner h now none t x = x
resolve_runner h now (some token) t x =
    let token_hash = h.sha256_hex token in
    mark_runner token_hash
      (find (λ s. text_eq s.token_hash token_hash && ltb now s.expires_at) t.runner_sessions) x

-- `now` is the clock of the database.
unfoldable pub resolve_bearer : Hashing → ℕ → Headers → Sessions → Extensions
resolve_bearer h now headers t =
    resolve_runner h now (get headers runner) t
      (resolve_token h now (token_from headers) t no_markers)

-- The extractors: 401 without the marker.
unfoldable pub authed_user : Extensions → Result ℕ
authed_user x = ok_or x.authed_user unauthorized

unfoldable pub authed_admin : Extensions → Result ℕ
authed_admin x = ok_or x.authed_admin unauthorized

unfoldable pub authed_runner : Extensions → Result ℕ
authed_runner x = ok_or x.authed_runner unauthorized
