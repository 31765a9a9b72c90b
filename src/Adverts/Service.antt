-- ===== src/Adverts/Service.antt =====
-- src/domain/adverts/service.rs. A handler returns its reply with the tables as committed.
use box_fraise_server.Prelude.{
  ℕ, ◌*◌, String, Bool, true, false, not, ◌||◌, Option, none, some, List, [], ◌∷◌, ltb, ◌==◌,
  if◌then◌else◌, length,
}
use box_fraise_server.Prelude.Integers.{ℤ, pos, is_positive, lessb, magnitude}
use box_fraise_server.Prelude.Text.{Text, is_empty, trim}
use box_fraise_server.Errors.{Result, ok, err, not_found, bad_request, db, ◌>>◌, fail_if}
use box_fraise_server.Server.{Env, Json, write_audit}
use box_fraise_server.Table.{sum}
use box_fraise_server.Adverts.Types.{
  Advert, AdminRequest, Db, Inbox, Opened, NewAdvert, NewRequest, AdminAdvert, Owed, PayRequest,
  Paid, LedgerRow, Ledger,
}
use box_fraise_server.Adverts.Repository.{
  Locale, unopened_for, balances, allowance, contents, opened, is_due,
}
use box_fraise_server.Adverts.Repository
use box_fraise_server.Adverts.Requests.{non_empty, advertiser_for, insert, take_request}
use box_fraise_server.Adverts.Requests

abbrev pub max_pays_cents : ℕ
max_pays_cents = 10000

abbrev pub max_opens : ℕ
max_opens = 100000

abbrev pub price_cents : ℕ
price_cents = 300

abbrev pub pays_cents : ℕ
pays_cents = 100

abbrev pub audited : Env → String → Option ℕ → String → Json → List (String × Json) → Db → Db
audited env actor_type actor_id action target metadata tables = record tables {
  audit_events =
      write_audit env
        (record {
          actor_type = actor_type;
          actor_id = actor_id;
          action = action;
          target = some target;
          metadata = metadata;
        })
        tables.audit_events;
}

unfoldable pub inbox : Locale → Env → ℕ → Db → Result Inbox
inbox locale env runner tables =
    let (owed, paid) = balances runner tables in
    let (left, limit) = allowance locale env.db_now runner tables in
    ok (record {
      adverts = unopened_for runner tables;
      owed_cents = owed;
      paid_cents = paid;
      opens_left = left;
      daily_limit = limit;
    })

unfoldable pub decline : Env → ℕ → ℕ → Db → Result (Unit {0}) × Db
decline env runner advert tables =
    elim (Repository.decline env.db_now env.uuid advert runner tables) [
      | none ↦ (err db, tables)
      | some t ↦ (ok tt, t)
    ]

-- The contents and the reply, after an open that took `amount`; a failed read rolls it back.
unfoldable pub conclude_open : Env → ℕ → ℕ → ℕ → Option Advert → Db → Db → Result Opened × Db
conclude_open env runner advert amount none t tables = (err db, tables)
conclude_open env runner advert amount (some a) t tables = (
  ok (opened a amount (balances runner t).0),
  audited env "public" none "advert.opened" (Json.num advert)
      (("amount_cents", Json.num amount) ∷ []) t,
)

unfoldable pub after_open : Env → ℕ → ℕ → Option ℕ × Db → Db → Result Opened × Db
unfolding conclude_open
after_open env runner advert (none, t) tables = (err (bad_request "that one is no longer open"), t)
after_open env runner advert (some cents, t) tables =
    conclude_open env runner advert cents (contents advert t) t tables

unfoldable pub open_advert : Locale → Env → ℕ → ℕ → Db → Result Opened × Db
open_advert locale env runner advert tables =
    after_open env runner advert
      (Repository.bf_open_advert locale env.db_now runner advert env.uuid tables) tables

unfoldable pub list_all : Db → Result (List AdminAdvert)
list_all tables = ok (Repository.list_all tables)

-- `Option::unwrap_or`
abbrev unwrap_or : Option ℤ → ℤ → ℤ
unwrap_or none z = z
unwrap_or (some z) z' = z

abbrev given_link : Option Text → Option Text
given_link none = none
given_link (some l) = non_empty (trim l)

abbrev pub price_of : NewAdvert → ℤ
price_of req = unwrap_or req.price_cents (pos price_cents)

abbrev pub pays_of : NewAdvert → ℤ
pays_of req = unwrap_or req.pays_cents (pos pays_cents)

-- The early returns of `create`, in order.
unfoldable pub check_create : NewAdvert → Result (Unit {0})
check_create req = do
  fail_if (is_empty (trim req.advertiser) || is_empty (trim req.teaser) || is_empty (trim req.body))
      (bad_request "a name, a line, and something inside it")
  fail_if (ltb 140 (length (trim req.teaser))) (bad_request "that line is too long for an inbox")
  fail_if (ltb 4000 (length (trim req.body))) (bad_request "that is too much to put inside one")
  fail_if (not (is_positive (pays_of req)) || lessb (pos max_pays_cents) (pays_of req))
      (bad_request "the amount is outside what an advert may pay")
  fail_if (lessb (price_of req) (pays_of req))
      (bad_request "an advert cannot pay out more than it charges")
  fail_if (not (is_positive req.opens_paid) || lessb (pos max_opens) req.opens_paid)
      (bad_request "that is not a number of opens")
  ok tt

-- `advertiser_for` and `insert` in one transaction; `none` is an error of the database.
unfoldable pub put_up :
    Locale → Env → Text → Text → Text → Text → Option Text → ℤ → ℤ → ℤ → Db → Option Db
put_up locale env name contact teaser body link price pays opens tables =
    elim (advertiser_for locale env.db_now env.other_uuid name contact tables) [
      | none ↦ none
      | some (advertiser, t) ↦
          insert env.db_now env.uuid advertiser name teaser body link price pays opens t
    ]

unfoldable pub conclude_create : Env → ℕ → NewAdvert → Option Db → Db → Result ℕ × Db
conclude_create env admin req none tables = (err db, tables)
conclude_create env admin req (some t) tables = (
  ok env.uuid,
  audited env "admin" (some admin) "advert.created" (Json.num env.uuid)
      (("price_cents", Json.num (magnitude (price_of req)))
        ∷ ("pays_cents", Json.num (magnitude (pays_of req)))
        ∷ ("opens_paid", Json.num (magnitude req.opens_paid))
        ∷ [])
      t,
)

unfoldable pub create : Locale → Env → ℕ → NewAdvert → Db → Result ℕ × Db
create locale env admin req tables = elim (check_create req) [
  | err e ↦ (err e, tables)
  | ok _ ↦
      conclude_create env admin req
        (put_up locale env (trim req.advertiser) [] (trim req.teaser) (trim req.body)
          (given_link req.link) (price_of req) (pays_of req) req.opens_paid tables)
        tables
]

-- The early returns of `request`, in order.
unfoldable pub check_request : NewRequest → Result (Unit {0})
check_request req = do
  fail_if
      (is_empty (trim req.advertiser)
        || is_empty (trim req.contact)
        || is_empty (trim req.teaser)
        || is_empty (trim req.body))
      (bad_request "a name, a way to reach you, a line, and something inside it")
  fail_if (ltb (length (trim req.contact)) 3 || ltb 200 (length (trim req.contact)))
      (bad_request "an email or a telephone number")
  fail_if (ltb 140 (length (trim req.teaser))) (bad_request "that line is too long for an inbox")
  fail_if (ltb 4000 (length (trim req.body))) (bad_request "that is too much to put inside one")
  fail_if (not (is_positive req.opens_wanted) || lessb (pos max_opens) req.opens_wanted)
      (bad_request "that is not a number of opens")
  ok tt

unfoldable pub conclude_request : Env → NewRequest → Option Db → Db → Result (Unit {0}) × Db
conclude_request env req none tables = (err db, tables)
conclude_request env req (some t) tables = (
  ok tt,
  audited env "public" none "advert.requested" (Json.num env.uuid)
      (("opens_wanted", Json.num (magnitude req.opens_wanted)) ∷ []) t,
)

unfoldable pub request : Env → NewRequest → Db → Result (Unit {0}) × Db
request env req tables = elim (check_request req) [
  | err e ↦ (err e, tables)
  | ok _ ↦
      conclude_request env req
        (Requests.insert_request env.db_now env.uuid (trim req.advertiser) (trim req.contact)
          (trim req.teaser) (trim req.body) (given_link req.link) req.opens_wanted tables)
        tables
]

abbrev pub total : (LedgerRow → ℕ) → List LedgerRow → ℕ
total f = sum (λ _. true) f

-- `adverts[0]` is there because the list has been seen not to be empty.
unfoldable pub ledger : ℕ → Db → Result Ledger
ledger advertiser tables = elim (Requests.ledger advertiser tables) [
  | [] ↦ err not_found
  | r ∷ rs ↦ ok (record {
    name = r.name;
    spent_cents = total (λ a. a.price_cents * a.opens_paid) (r ∷ rs);
    opens_bought = total (λ a. a.opens_paid) (r ∷ rs);
    opens_taken = total (λ a. a.opens_taken) (r ∷ rs);
    to_readers_cents = total (λ a. a.pays_cents * a.opens_taken) (r ∷ rs);
    adverts = r ∷ rs;
  })
]

unfoldable pub list_requests : Db → Result (List AdminRequest)
list_requests tables = ok (Requests.list_requests tables)

unfoldable pub put_up_request : Locale → Env → AdminRequest → Db → Option Db
put_up_request locale env r t =
    put_up locale env r.advertiser r.contact r.teaser r.body r.link (pos price_cents)
      (pos pays_cents) (pos r.opens_wanted) t

unfoldable pub conclude_put_up : Env → ℕ → AdminRequest → Option Db → Db → Result ℕ × Db
conclude_put_up env admin r none tables = (err db, tables)
conclude_put_up env admin r (some t) tables = (
  ok env.uuid,
  audited env "admin" (some admin) "advert.request_accepted" (Json.num env.uuid)
      (("request_id", Json.num r.id) ∷ ("opens_paid", Json.num r.opens_wanted) ∷ []) t,
)

unfoldable pub conclude_accept : Locale → Env → ℕ → Option AdminRequest → Db → Db → Result ℕ × Db
conclude_accept locale env admin none t tables = (err not_found, t)
conclude_accept locale env admin (some r) t tables =
    conclude_put_up env admin r (put_up_request locale env r t) tables

unfoldable pub accept_request : Locale → Env → ℕ → ℕ → Db → Result ℕ × Db
accept_request locale env admin id tables =
    let (r, t) = take_request id tables in conclude_accept locale env admin r t tables

-- The reply to an update of one row by an admin, from whether there was such a row.
unfoldable pub conclude_admin : Env → ℕ → String → ℕ → Bool × Db → Result (Unit {0}) × Db
conclude_admin env admin action id (true, t) =
    (ok tt, audited env "admin" (some admin) action (Json.num id) [] t)
conclude_admin env admin action id (false, t) = (err not_found, t)

unfoldable pub delete_request : Env → ℕ → ℕ → Db → Result (Unit {0}) × Db
unfolding conclude_admin
delete_request env admin id tables =
    conclude_admin env admin "advert.request_rejected" id (Requests.delete_request id tables)

unfoldable pub close : Env → ℕ → ℕ → Db → Result (Unit {0}) × Db
unfolding conclude_admin
close env admin id tables = conclude_admin env admin "advert.closed" id (Repository.close id tables)

unfoldable pub owed : Db → Result (List Owed)
owed tables = ok (Repository.owed tables)

unfoldable pub conclude_pay : Env → ℕ → Text → (ℕ × ℕ) × Db → Result Paid × Db
conclude_pay env admin username ((amount, opens), t) =
    if opens == 0 then (err (bad_request "nothing is owed to that name"), t) else (
      ok (record { username = username; amount_cents = amount; opens = opens }),
      audited env "admin" (some admin) "advert.paid" (Json.text username)
          (("amount_cents", Json.num amount) ∷ ("opens", Json.num opens) ∷ []) t,
    )

unfoldable pub pay : Locale → Env → ℕ → PayRequest → Db → Result Paid × Db
unfolding conclude_pay
pay locale env admin req tables =
    let username = locale.to_lowercase (trim req.username) in
    conclude_pay env admin username (Repository.pay env.db_now username tables)
