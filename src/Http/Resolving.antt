-- ===== src/Http/Resolving.antt =====
-- Which member the middleware of src/http/middleware.rs takes a request for.
use box_fraise_server.Prelude.{ℕ, ◌≡◌, refl, ◌∙◌, Option, none, some, List}
use box_fraise_server.Prelude.Text.{Text, text_eq}
use box_fraise_server.Server.{Hashing}
use box_fraise_server.Table.{find}
use box_fraise_server.Members.Types.{UserSession}
use box_fraise_server.Running.Types.{RunnerSession}
use box_fraise_server.Http.Cookies.{Headers, get, runner}
use box_fraise_server.Http.Middleware.{
  AdminSession, Sessions, Extensions, no_markers, mark_user, mark_runner, resolve_token,
  resolve_runner, token_from, resolve_bearer,
}

-- The member whose session has this hash.
abbrev pub user_of : Option UserSession → Option ℕ
user_of none = none
user_of (some s) = some s.user_id

abbrev pub session_of : Text → List UserSession → Option UserSession
session_of token_hash sessions = find (λ s. text_eq s.token_hash token_hash) sessions

mark_runner-user :
    (token_hash : Text) (o : Option RunnerSession) (x : Extensions)
    → (mark_runner token_hash o x).authed_user ≡ x.authed_user
mark_runner-user token_hash none x = refl
mark_runner-user token_hash (some s) x = refl

resolve_runner-user :
    (h : Hashing) (now : ℕ) (o : Option Text) (t : Sessions) (x : Extensions)
    → (resolve_runner h now o t x).authed_user ≡ x.authed_user
unfolding resolve_runner
resolve_runner-user h now none t x = refl
resolve_runner-user h now (some token) t x = mark_runner-user (h.sha256_hex token) _ x

mark_user-user :
    (token token_hash : Text) (o : Option UserSession) (a : Option AdminSession)
    → (mark_user token token_hash o a no_markers).authed_user ≡ user_of o
mark_user-user token token_hash none none = refl
mark_user-user token token_hash none (some a) = refl
mark_user-user token token_hash (some s) a = refl

resolve_token-user :
    (h : Hashing) (now : ℕ) (token : Text) (t : Sessions)
    → (resolve_token h now (some token) t no_markers).authed_user
      ≡ user_of (session_of (h.sha256_hex token) t.user_sessions)
unfolding resolve_token
resolve_token-user h now token t = mark_user-user token (h.sha256_hex token) _ _

-- A member is found by the hash of the token, and by nothing else in the request.
pub resolve_bearer-user :
    (h : Hashing) (now : ℕ) (headers : Headers) (t : Sessions) (token : Text)
    → token_from headers ≡ some token
    → (resolve_bearer h now headers t).authed_user
      ≡ user_of (session_of (h.sha256_hex token) t.user_sessions)
unfolding resolve_bearer
resolve_bearer-user h now headers t token e =
    resolve_runner-user h now (get headers runner) t
      (resolve_token h now (token_from headers) t no_markers)
    ∙ rw e (resolve_token-user h now token t)
