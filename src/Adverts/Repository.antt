-- ===== src/Adverts/Repository.antt =====
-- src/domain/adverts/repository.rs on the runner's side, with the functions of migrations 0040, 0043
-- and 0044 that it calls. `runner` is the `app.runner_id` of the transaction, `now` its `now()`.
use box_fraise_server.Prelude.{
  ℕ, ◌+◌, ◌-◌, Bool, not, ◌&&◌, ◌||◌, Option, none, some, List, [], ◌∷◌, ◌++◌, map, is_some,
  is_none, leb, ltb, ◌==◌, if◌then◌else◌,
}
use box_fraise_server.Prelude.Text.{Text, text_eq}
use box_fraise_server.Table.{find, select, exists, count, sum, update, order_desc, order_asc}
use box_fraise_server.Adverts.Types.{
  Advert, closed_status, is_open, AdOpen, AdDecline, Runner, Db, Unopened, Opened, AdminAdvert,
  Owed,
}

-- What Postgres and Rust know of the world: the date in America/Edmonton of a time, and the case
-- tables of Unicode behind `lower(text)` and `str::to_lowercase`.
pub record Locale : Type 0 where
  pub date : ℕ → ℕ
  pub lower : Text → Text
  pub to_lowercase : Text → Text

abbrev pub is_receipt : ℕ → ℕ → AdOpen → Bool
is_receipt advert runner o = o.advert_id == advert && o.runner_id == runner

abbrev pub is_refusal : ℕ → ℕ → AdDecline → Bool
is_refusal advert runner d = d.advert_id == advert && d.runner_id == runner

abbrev pub has_budget : Advert → Bool
has_budget a = is_open a.status && ltb a.opens_taken a.opens_paid

unfoldable pub is_unopened : ℕ → Db → Advert → Bool
is_unopened runner db a =
    has_budget a
    && not (exists (is_receipt a.id runner) db.ad_opens)
    && not (exists (is_refusal a.id runner) db.ad_declines)

abbrev unopened : Advert → Unopened
unopened a = record {
  id = a.id;
  advertiser = a.advertiser;
  teaser = a.teaser;
  pays_cents = a.pays_cents;
}

unfoldable pub unopened_for : ℕ → Db → List Unopened
unopened_for runner db =
    map unopened (order_asc (λ a. a.created_at) (select (is_unopened runner db) db.adverts))

abbrev pub is_owed : ℕ → AdOpen → Bool
is_owed runner o = o.runner_id == runner && is_none o.paid_at

abbrev pub is_collected : ℕ → AdOpen → Bool
is_collected runner o = o.runner_id == runner && is_some o.paid_at

-- What is owed, and what is paid.
unfoldable pub balances : ℕ → Db → ℕ × ℕ
balances runner db = (
  sum (is_owed runner) (λ o. o.amount_cents) db.ad_opens,
  sum (is_collected runner) (λ o. o.amount_cents) db.ad_opens,
)

abbrev pub bf_daily_open_limit : ℕ
bf_daily_open_limit = 5

abbrev pub on_day : Locale → ℕ → ℕ → AdOpen → Bool
on_day locale runner day o = o.runner_id == runner && locale.date o.opened_at == day

unfoldable pub bf_opens_today : Locale → ℕ → ℕ → Db → ℕ
bf_opens_today locale now runner db = count (on_day locale runner (locale.date now)) db.ad_opens

-- Subtraction on ℕ stops at 0, as GREATEST makes the difference do.
unfoldable pub allowance : Locale → ℕ → ℕ → Db → ℕ × ℕ
unfolding bf_opens_today
allowance locale now runner db =
    (bf_daily_open_limit - bf_opens_today locale now runner db, bf_daily_open_limit)

-- `none` is a violation of the primary key, which ON CONFLICT does not name, or of the foreign key.
unfoldable pub decline : ℕ → ℕ → ℕ → ℕ → Db → Option Db
decline now id advert runner db =
    if exists (λ d. d.id == id) db.ad_declines
    then none
    else if exists (is_refusal advert runner) db.ad_declines
    then some db
    else if exists (λ a. a.id == advert) db.adverts
    then some (record db {
      ad_declines =
          db.ad_declines
          ++ record { id = id; advert_id = advert; runner_id = runner; declined_at = now } ∷ [];
    })
    else none

abbrev pub can_take : ℕ → Advert → Bool
can_take advert a = a.id == advert && has_budget a

abbrev pub new_open : ℕ → ℕ → ℕ → ℕ → ℕ → AdOpen
new_open now id advert runner amount = record {
  id = id;
  advert_id = advert;
  runner_id = runner;
  amount_cents = amount;
  opened_at = now;
  paid_at = none;
}

-- The INSERT, after the UPDATE has found an advert to charge. A unique violation ends in the
-- exception handler, which rolls the UPDATE back.
unfoldable pub write_receipt : ℕ → ℕ → ℕ → ℕ → Option Advert → Db → Option ℕ × Db
write_receipt now runner advert id none db = (none, db)
write_receipt now runner advert id (some a) db =
    if exists (λ o. o.id == id || is_receipt advert runner o) db.ad_opens then (none, db) else (
      some a.pays_cents,
      record db {
        adverts =
            update (can_take advert) (λ b. record b { opens_taken = b.opens_taken + 1 }) db.adverts;
        ad_opens = db.ad_opens ++ new_open now id advert runner a.pays_cents ∷ [];
      },
    )

-- `bf_open_advert`, as migration 0044 leaves it.
unfoldable pub bf_open_advert : Locale → ℕ → ℕ → ℕ → ℕ → Db → Option ℕ × Db
unfolding write_receipt bf_opens_today
bf_open_advert locale now runner advert id db =
    if exists (is_refusal advert runner) db.ad_declines
    then (none, db)
    else if leb bf_daily_open_limit (bf_opens_today locale now runner db)
    then (none, db)
    else write_receipt now runner advert id (find (can_take advert) db.adverts) db

-- Under the policy `adverts_runner_select`; `none` is `RowNotFound`.
unfoldable pub contents : ℕ → Db → Option Advert
contents advert db = find (λ a. a.id == advert && is_open a.status) db.adverts

unfoldable pub opened : Advert → ℕ → ℕ → Opened
opened a amount_cents owed_cents = record {
  advertiser = a.advertiser;
  body = a.body;
  link = a.link;
  amount_cents = amount_cents;
  owed_cents = owed_cents;
}

abbrev admin_advert : Advert → AdminAdvert
admin_advert a = record {
  id = a.id;
  advertiser_id = a.advertiser_id;
  advertiser = a.advertiser;
  teaser = a.teaser;
  price_cents = a.price_cents;
  pays_cents = a.pays_cents;
  opens_paid = a.opens_paid;
  opens_taken = a.opens_taken;
  status = a.status;
}

unfoldable pub list_all : Db → List AdminAdvert
list_all db = map admin_advert (order_desc (λ a. a.created_at) db.adverts)

-- `close`; `true` if a row was updated.
unfoldable pub close : ℕ → Db → Bool × Db
close id db = (
  exists (λ a. a.id == id) db.adverts,
  record db {
    adverts = update (λ a. a.id == id) (λ a. record a { status = closed_status }) db.adverts;
  },
)

-- `runners.username` is unique, so that GROUP BY makes a group of each runner with a receipt to pay.
unfoldable pub owed : Db → List Owed
owed db =
    order_desc (λ g. g.owed_cents)
      (map
        (λ r. record {
          username = r.username;
          owed_cents = sum (is_owed r.id) (λ o. o.amount_cents) db.ad_opens;
          opens = count (is_owed r.id) db.ad_opens;
        })
        (select (λ r. exists (is_owed r.id) db.ad_opens) db.runners))

-- The join of the UPDATE: an unpaid receipt of the runner of that name.
unfoldable pub is_due : Text → List Runner → AdOpen → Bool
is_due username runners o =
    is_none o.paid_at && exists (λ r. r.id == o.runner_id && text_eq r.username username) runners

unfoldable pub pay : ℕ → Text → Db → (ℕ × ℕ) × Db
unfolding is_due
pay now username db = (
  (
    sum (is_due username db.runners) (λ o. o.amount_cents) db.ad_opens,
    count (is_due username db.runners) db.ad_opens,
  ),
  record db {
    ad_opens =
        update (is_due username db.runners) (λ o. record o { paid_at = some now }) db.ad_opens;
  },
)
