-- ===== src/Adverts/Tests.antt =====
-- Requests to src/domain/adverts on concrete tables: one business, one advert, two runners.
use box_fraise_server.Prelude.{
  ℕ, ◌+◌, ◌*◌, ◌≡◌, ◌≢◌, ◌≤◌, ◌<◌, refl, true, false, none, some, arith, [], ◌∷◌, ◌==◌,
}
use box_fraise_server.Prelude.Text.{text_eq}
use box_fraise_server.Errors.{ok, err, bad_request}
use box_fraise_server.Server.{Env}
use box_fraise_server.Table.{find, select, exists, count, sum, update, order_desc}
use box_fraise_server.Adverts.Types.{
  Advert, AdOpen, AdminRequest, Db, Opened, Ledger, open_status, pending,
}
use box_fraise_server.Adverts.Repository.{
  Locale, is_unopened, allowance, bf_opens_today, balances, bf_open_advert, write_receipt, contents,
  opened, pay,
}
use box_fraise_server.Adverts.Repository
use box_fraise_server.Adverts.Requests.{
  take_request, insert, insert_advertiser, advertiser_for, advert_sane, sql_trim,
}
use box_fraise_server.Adverts.Requests
use box_fraise_server.Adverts.Service.{
  open_advert, after_open, conclude_open, decline, ledger, accept_request, conclude_accept,
  conclude_put_up, put_up_request, put_up,
}
use box_fraise_server.Adverts.Trace.{opening, declining, run}
use box_fraise_server.Adverts.Books.{IsBalanced, IsSane, IsBacked}
use box_fraise_server.Adverts.Books.Balance.{run-IsBalanced}
use box_fraise_server.Adverts.Attention.{WithinLimit, run-WithinLimit}
use box_fraise_server.Adverts.Refusals.{decline-final, open_advert-once}
use box_fraise_server.Adverts.Settling.{IsNamed, pay-settles}
use box_fraise_server.Adverts.Listing.{listed-opens}
use box_fraise_server.Adverts.Ledgers.{ledger-receipts}
use box_fraise_server.Adverts.Receipts.{of_business, business_receipt}

-- One long day, and texts without capitals.
abbrev locale : Locale
locale = record { date = λ t. 0; lower = λ t. t; to_lowercase = λ t. t }

abbrev at_time : ℕ → Env
at_time t = record {
  now = t;
  later = t;
  db_now = t;
  uuid = 50 + t;
  other_uuid = 51 + t;
  nonce = [];
  audit_up = true;
}

abbrev advert : Advert
advert = record {
  id = 3;
  advertiser_id = 8;
  advertiser = 66 ∷ [];
  teaser = 84 ∷ [];
  body = 67 ∷ [];
  link = none;
  price_cents = 300;
  pays_cents = 100;
  opens_paid = 2;
  opens_taken = 0;
  status = open_status;
  paid_at = some 1;
  created_at = 1;
}

abbrev asked : AdminRequest
asked = record {
  id = 4;
  advertiser = 66 ∷ [];
  contact = 97 ∷ 98 ∷ 99 ∷ [];
  teaser = 84 ∷ [];
  body = 67 ∷ [];
  link = none;
  opens_wanted = 5;
  status = pending;
  created_at = 2;
}

abbrev tables : Db
tables = record {
  adverts = advert ∷ [];
  ad_opens = [];
  ad_declines = [];
  advertisers = record { id = 8; name = 66 ∷ []; contact = none; created_at = 1 } ∷ [];
  advert_requests = asked ∷ [];
  runners = record { id = 1; username = 114 ∷ [] } ∷ record { id = 2; username = 115 ∷ [] } ∷ [];
  audit_events = [];
}

advert-IsSane : IsSane advert
advert-IsSane = ground arith

advert-IsBacked : IsBacked [] advert
unfolding count sum
advert-IsBacked = record { counted = refl; summed = refl }

tables-IsBalanced : IsBalanced tables.adverts tables.ad_opens
tables-IsBalanced = record {
  distinct = (tt, tt);
  sane = (advert-IsSane, tt);
  backed = (advert-IsBacked, tt);
  known = tt;
  once = tt;
}

run-IsBalanced_example :
    let t =
      run locale
        ((at_time 5, opening 1 3) ∷ (at_time 6, opening 2 3) ∷ (at_time 7, opening 1 3) ∷ [])
        tables in
    IsBalanced t.adverts t.ad_opens
run-IsBalanced_example =
    run-IsBalanced locale
      ((at_time 5, opening 1 3) ∷ (at_time 6, opening 2 3) ∷ (at_time 7, opening 1 3) ∷ []) tables
      tables-IsBalanced

nothing-WithinLimit : WithinLimit locale []
unfolding count
nothing-WithinLimit runner day = omega arith

run-WithinLimit_example :
    WithinLimit locale
      (run locale ((at_time 5, opening 1 3) ∷ (at_time 6, opening 2 3) ∷ []) tables).ad_opens
run-WithinLimit_example =
    run-WithinLimit locale ((at_time 5, opening 1 3) ∷ (at_time 6, opening 2 3) ∷ []) tables
      nothing-WithinLimit

declined : (decline (at_time 5) 1 3 tables).0 ≡ ok tt
unfolding decline Repository.decline exists
declined = refl

decline-final_example :
    let t = run locale ((at_time 6, opening 2 3) ∷ []) (decline (at_time 5) 1 3 tables).1 in
    open_advert locale (at_time 9) 1 3 t ≡ (err (bad_request "that one is no longer open"), t)
decline-final_example =
    decline-final locale (at_time 5) 1 3 tables declined ((at_time 6, opening 2 3) ∷ []) (at_time 9)

abbrev reply : Opened
reply = record {
  advertiser = 66 ∷ [];
  body = 67 ∷ [];
  link = none;
  amount_cents = 100;
  owed_cents = 100;
}

first_open : (open_advert locale (at_time 5) 1 3 tables).0 ≡ ok reply
unfolding open_advert after_open conclude_open opened contents balances bf_open_advert write_receipt
    bf_opens_today find exists count sum update
first_open = refl

open_advert-once_example :
    let t =
      run locale ((at_time 6, declining 2 3) ∷ []) (open_advert locale (at_time 5) 1 3 tables).1 in
    open_advert locale (at_time 9) 1 3 t ≡ (err (bad_request "that one is no longer open"), t)
open_advert-once_example =
    open_advert-once locale (at_time 5) 1 3 tables first_open ((at_time 6, declining 2 3) ∷ [])
      (at_time 9)

first_name : IsNamed (114 ∷ []) 1 tables.runners
unfolding exists text_eq
first_name o = ground arith

abbrev receipt : AdOpen
receipt = record {
  id = 60;
  advert_id = 3;
  runner_id = 1;
  amount_cents = 100;
  opened_at = 5;
  paid_at = none;
}

abbrev owing : Db
owing = record tables { ad_opens = receipt ∷ [] }

pay-settles_example :
    let ((amount, _), t) = pay 9 (114 ∷ []) owing in
    (amount ≡ (balances 1 owing).0)
    × (balances 1 t ≡ (0, (balances 1 owing).0 + (balances 1 owing).1))
    × ((x : ℕ) → x ≢ 1 → balances x t ≡ balances x owing)
pay-settles_example = pay-settles 9 (114 ∷ []) 1 owing first_name

listed : is_unopened 1 tables advert ≡ true
unfolding is_unopened exists
listed = refl

stored : find (λ b. b.id == 3) tables.adverts ≡ some advert
unfolding find
stored = refl

fresh : exists (λ o. o.id == 55) tables.ad_opens ≡ false
unfolding exists
fresh = refl

left : 0 < (allowance locale 5 1 tables).0
unfolding allowance bf_opens_today count
left = omega arith

listed-opens_example :
    (open_advert locale (at_time 5) 1 3 tables).0
    ≡ ok (record {
      advertiser = 66 ∷ [];
      body = 67 ∷ [];
      link = none;
      amount_cents = 100;
      owed_cents = (balances 1 tables).0 + 100;
    })
listed-opens_example = listed-opens locale (at_time 5) 1 tables advert listed stored fresh left

-- Runner 1 has opened the advert.
abbrev first_receipt : AdOpen
first_receipt = record {
  id = 55;
  advert_id = 3;
  runner_id = 1;
  amount_cents = 100;
  opened_at = 5;
  paid_at = none;
}

abbrev read_once : Advert
read_once = record advert { opens_taken = 1 }

abbrev sold : Db
sold = record tables { adverts = read_once ∷ []; ad_opens = first_receipt ∷ [] }

read_once-IsSane : IsSane read_once
read_once-IsSane = ground arith

sold-IsBalanced : IsBalanced sold.adverts sold.ad_opens
unfolding count sum exists
sold-IsBalanced = record {
  distinct = (tt, tt);
  sane = (read_once-IsSane, tt);
  backed = (record { counted = refl; summed = refl }, tt);
  known = (refl, tt);
  once = (tt, tt);
}

abbrev books : Ledger
books = record {
  name = 66 ∷ [];
  spent_cents = 600;
  opens_bought = 2;
  opens_taken = 1;
  to_readers_cents = 100;
  adverts =
      record {
        name = 66 ∷ [];
        advert_id = 3;
        teaser = 84 ∷ [];
        price_cents = 300;
        pays_cents = 100;
        opens_paid = 2;
        opens_taken = 1;
        status = open_status;
        paid_at = some 1;
        created_at = 1;
      }
      ∷ [];
}

shown : ledger 8 sold ≡ ok books
unfolding ledger Requests.ledger find select order_desc sum
shown = refl

ledger-receipts_example :
    (books.opens_bought ≡ sum (of_business 8) (λ a. a.opens_paid) sold.adverts)
    × (books.spent_cents ≡ sum (of_business 8) (λ a. a.price_cents * a.opens_paid) sold.adverts)
    × (books.opens_taken ≡ count (business_receipt 8 sold.adverts) sold.ad_opens)
    × (books.to_readers_cents
        ≡ sum (business_receipt 8 sold.adverts) (λ o. o.amount_cents) sold.ad_opens)
    × (books.opens_taken ≤ books.opens_bought)
    × (books.to_readers_cents ≤ books.spent_cents)
ledger-receipts_example = ledger-receipts 8 sold sold-IsBalanced shown

accepted_once : (accept_request locale (at_time 5) 0 4 tables).0 ≡ ok 55
unfolding accept_request conclude_accept conclude_put_up put_up_request put_up take_request insert
    insert_advertiser advertiser_for advert_sane sql_trim text_eq find exists update
accepted_once = refl
