-- ===== src/Adverts/Books/Balance.antt =====
-- The books of src/domain/adverts under sequences of requests.
use box_fraise_server.Prelude.{List, [], ◌∷◌}
use box_fraise_server.Server.{Env}
use box_fraise_server.Adverts.Types.{Db}
use box_fraise_server.Adverts.Repository.{Locale, is_due}
use box_fraise_server.Adverts.Trace.{Request, serve, run}
use box_fraise_server.Adverts.Cases.{serve-cases}
use box_fraise_server.Adverts.Books.{IsBalanced}
use box_fraise_server.Adverts.Books.Charge.{charged-IsBalanced}
use box_fraise_server.Adverts.Books.Change.{inserted-IsBalanced, closed-IsBalanced, paid-IsBalanced}

pub serve-IsBalanced :
    (locale : Locale) (env : Env) (req : Request) (db : Db)
    → IsBalanced db.adverts db.ad_opens
    → let t = serve locale env req db in IsBalanced t.adverts t.ad_opens
serve-IsBalanced locale env req db h =
    serve-cases locale env db (λ adverts opens _. IsBalanced adverts opens) h
      (λ runner advert a can.
        charged-IsBalanced locale env.db_now runner advert env.uuid db a can h)
      (λ _. h) (λ t made. inserted-IsBalanced env.db_now env.uuid db t made h)
      (λ id. closed-IsBalanced id db.adverts db.ad_opens h)
      (λ username. paid-IsBalanced (is_due username db.runners) env.db_now db.adverts db.ad_opens h)
      req

-- Any sequence of requests, from runners, businesses and admins, takes balanced books to
-- balanced books: ids of adverts are unique, no advert is opened more often than was paid for,
-- its counter is the number of its receipts, their sum is that number times what it pays a
-- reader, which is at most its price, every receipt is of a known advert, and no runner has two
-- receipts for one.
pub run-IsBalanced :
    (locale : Locale) (requests : List (Env × Request)) (db : Db)
    → IsBalanced db.adverts db.ad_opens
    → let t = run locale requests db in IsBalanced t.adverts t.ad_opens
unfolding run
run-IsBalanced locale [] db h = h
run-IsBalanced locale ((env, req) ∷ rest) db h =
    run-IsBalanced locale rest (serve locale env req db) (serve-IsBalanced locale env req db h)
