-- ===== src/Adverts/Trace.antt =====
-- Requests to src/domain/adverts/routes.rs one after another: each commits before the next begins.
use box_fraise_server.Prelude.{ℕ, List, [], ◌∷◌}
use box_fraise_server.Server.{Env}
use box_fraise_server.Adverts.Types.{NewAdvert, NewRequest, PayRequest, Db}
use box_fraise_server.Adverts.Repository.{Locale}
use box_fraise_server.Adverts.Service.{
  open_advert, decline, create, request, accept_request, delete_request, close, pay,
}

-- The routes that write; a runner or an admin comes first, where the route has one.
pub data Request : Type 0 where
  opening declining : ℕ → ℕ → Request
  creating : ℕ → NewAdvert → Request
  requesting : NewRequest → Request
  accepting deleting closing : ℕ → ℕ → Request
  paying : ℕ → PayRequest → Request

module _ (locale : Locale) where
  unfoldable pub serve : Env → Request → Db → Db
  serve env (opening runner advert) db = (open_advert locale env runner advert db).1
  serve env (declining runner advert) db = (decline env runner advert db).1
  serve env (creating admin req) db = (create locale env admin req db).1
  serve env (requesting req) db = (request env req db).1
  serve env (accepting admin id) db = (accept_request locale env admin id db).1
  serve env (deleting admin id) db = (delete_request env admin id db).1
  serve env (closing admin id) db = (close env admin id db).1
  serve env (paying admin req) db = (pay locale env admin req db).1

  unfoldable pub run : List (Env × Request) → Db → Db
  run [] db = db
  run ((env, req) ∷ rest) db = run rest (serve env req db)
