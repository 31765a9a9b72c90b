-- ===== src/Pairings/Trace.antt =====
-- Requests to src/domain/pairings/routes.rs one after another: each commits before the next begins.
use box_fraise_server.Prelude.{ℕ, List, [], ◌∷◌, ◌==◌, if◌then◌else◌, ◌++◌}
use box_fraise_server.Errors.{Result}
use box_fraise_server.Server.{Env, Crypto}
use box_fraise_server.Pairings.Types.{
  PairingView, PairingNonceResponse, ClaimRequest, ClaimInPersonRequest, ClaimResponse,
  DecisionRequest, AuthorizedResponse, SetDisplayNameRequest,
}
use box_fraise_server.Pairings.Repository.{Db}
use box_fraise_server.Pairings.Service.{
  issue_nonce, claim, claim_in_person, list, decide, block, authorized, set_display_name,
}

-- The routes.
pub data Request : Type 0 where
  issuing listing : Request
  claiming : ClaimRequest → Request
  claiming_in_person : ClaimInPersonRequest → Request
  authorizing blocking : ℕ → Request
  decision : ℕ → DecisionRequest → Request
  display_name : SetDisplayNameRequest → Request

pub data Reply : Type 0 where
  nonce_reply : Result PairingNonceResponse → Reply
  list_reply : Result (List PairingView) → Reply
  claim_reply : Result ClaimResponse → Reply
  authorized_reply : Result AuthorizedResponse → Reply
  view_reply : Result PairingView → Reply
  empty_reply : Result (Unit {0}) → Reply

-- What `AppState` hands the handlers: `cfg.pairing_cooling` and `cfg.pairing_window`.
pub record Config : Type 0 where
  pub pairing_cooling : ℕ
  pub pairing_window : ℕ

module _ (c : Crypto) (cfg : Config) where
  unfoldable pub serve : Env → ℕ → Request → Db → Reply × Db
  serve env me issuing db = let (r, t) = issue_nonce env me db in (nonce_reply r, t)
  serve env me listing db = (list_reply (list env me db), db)
  serve env me (claiming req) db =
      let (r, t) = claim c env me cfg.pairing_cooling cfg.pairing_window req db in
      (claim_reply r, t)
  serve env me (claiming_in_person req) db =
      let (r, t) = claim_in_person c env me cfg.pairing_cooling cfg.pairing_window req db in
      (claim_reply r, t)
  serve env me (authorizing peer) db = (authorized_reply (authorized me peer db), db)
  serve env me (blocking id) db = let (r, t) = block env me id db in (empty_reply r, t)
  serve env me (decision id req) db = let (r, t) = decide env me id req db in (view_reply r, t)
  serve env me (display_name req) db = let (r, t) = set_display_name me req db in (empty_reply r, t)

  unfoldable pub run : List (Env × ℕ × Request) → Db → Db
  run [] db = db
  run ((env, u, req) ∷ rest) db = run rest (serve env u req db).1

  -- The replies that `me` receives.
  unfoldable pub observe : ℕ → List (Env × ℕ × Request) → Db → List Reply
  observe me [] db = []
  observe me ((env, u, req) ∷ rest) db =
      (if u == me then (serve env u req db).0 ∷ [] else [])
      ++ observe me rest (serve env u req db).1
