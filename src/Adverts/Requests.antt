-- ===== src/Adverts/Requests.antt =====
-- src/domain/adverts/repository.rs on the side of the business and of the admin, with the functions
-- of migration 0042: who advertises, what they asked for, and what they have spent.
use box_fraise_server.Prelude.{
  ℕ, Bool, true, false, not, ◌&&◌, ◌||◌, Option, none, some, List, [], ◌∷◌, ◌++◌, map, leb, ◌==◌,
  if◌then◌else◌, length,
}
use box_fraise_server.Prelude.Integers.{ℤ, pos, is_positive, lessb, magnitude}
use box_fraise_server.Prelude.Text.{Text, text_eq}
use mathlib.Core.List.{reverse}
use box_fraise_server.Table.{find, select, exists, update, delete, order_desc, order_asc}
use box_fraise_server.Adverts.Types.{
  Advert, open_status, AdminRequest, RequestStatus, pending, accepted, Db, LedgerRow,
}
use box_fraise_server.Adverts.Repository.{Locale}

-- `trim(text)` of Postgres removes spaces only.
abbrev drop_spaces : Text → Text
drop_spaces [] = []
drop_spaces (c ∷ s) = if c == 32 then drop_spaces s else c ∷ s

unfoldable pub sql_trim : Text → Text
sql_trim s = reverse (drop_spaces (reverse (drop_spaces s)))

-- `NULLIF(t, '')`
abbrev pub non_empty : Text → Option Text
non_empty [] = none
non_empty (c ∷ s) = some (c ∷ s)

-- `COALESCE`
abbrev or_kept : Option Text → Option Text → Option Text
or_kept none kept = kept
or_kept (some t) kept = some t

abbrev pub within : ℕ → ℕ → Text → Bool
within low high t = leb low (length t) && leb (length t) high

-- The INSERT of a business that is not there yet; `none` is a CHECK or a key that refuses it.
unfoldable pub insert_advertiser : ℕ → ℕ → Text → Text → Db → Option (ℕ × Db)
unfolding sql_trim
insert_advertiser now id name contact db =
    if exists (λ v. v.id == id) db.advertisers || not (within 1 80 (sql_trim name))
    then none
    else some (
      id,
      record db {
        advertisers =
            db.advertisers
            ++ record {
              id = id;
              name = sql_trim name;
              contact = non_empty (sql_trim contact);
              created_at = now;
            }
              ∷ [];
      },
    )

-- `bf_advertiser_for`
unfoldable pub advertiser_for : Locale → ℕ → ℕ → Text → Text → Db → Option (ℕ × Db)
unfolding sql_trim insert_advertiser
advertiser_for locale now id name contact db =
    elim (find (λ v. text_eq (locale.lower v.name) (locale.lower (sql_trim name))) db.advertisers) [
      | none ↦ insert_advertiser now id name contact db
      | some v ↦ some (
        v.id,
        record db {
          advertisers =
              update (λ w. w.id == v.id)
                (λ w. record w { contact = or_kept (non_empty (sql_trim contact)) w.contact })
                db.advertisers;
        },
      )
    ]

-- What the CHECK constraints of `adverts` admit.
unfoldable pub advert_sane : Text → Text → Text → ℤ → ℤ → ℤ → Bool
advert_sane advertiser teaser body price_cents pays_cents opens_paid =
    is_positive pays_cents
    && not (lessb (pos 10000) pays_cents)
    && is_positive opens_paid
    && is_positive price_cents
    && not (lessb (pos 100000) price_cents)
    && not (lessb price_cents pays_cents)
    && within 1 80 advertiser
    && within 1 140 teaser
    && within 1 4000 body

abbrev pub new_advert : ℕ → ℕ → ℕ → Text → Text → Text → Option Text → ℤ → ℤ → ℤ → Advert
new_advert now id advertiser_id advertiser teaser body link price_cents pays_cents opens_paid =
    record {
      id = id;
      advertiser_id = advertiser_id;
      advertiser = advertiser;
      teaser = teaser;
      body = body;
      link = link;
      price_cents = magnitude price_cents;
      pays_cents = magnitude pays_cents;
      opens_paid = magnitude opens_paid;
      opens_taken = 0;
      status = open_status;
      paid_at = some now;
      created_at = now;
    }

-- `id` is what `gen_random_uuid()` hands out.
unfoldable pub insert : ℕ → ℕ → ℕ → Text → Text → Text → Option Text → ℤ → ℤ → ℤ → Db → Option Db
insert now id advertiser_id advertiser teaser body link price_cents pays_cents opens_paid db =
    if exists (λ a. a.id == id) db.adverts
      || not (advert_sane advertiser teaser body price_cents pays_cents opens_paid)
    then none
    else some (record db {
      adverts =
          db.adverts
          ++ new_advert now id advertiser_id advertiser teaser body link price_cents pays_cents
              opens_paid
            ∷ [];
    })

abbrev pub ledger_row : Text → Advert → LedgerRow
ledger_row name a = record {
  name = name;
  advert_id = a.id;
  teaser = a.teaser;
  price_cents = a.price_cents;
  pays_cents = a.pays_cents;
  opens_paid = a.opens_paid;
  opens_taken = a.opens_taken;
  status = a.status;
  paid_at = a.paid_at;
  created_at = a.created_at;
}

-- `bf_advertiser_ledger`: an inner join, empty where there is no such business.
unfoldable pub ledger : ℕ → Db → List LedgerRow
ledger advertiser db = elim (find (λ v. v.id == advertiser) db.advertisers) [
  | none ↦ []
  | some v ↦
      map (ledger_row v.name)
        (order_desc (λ a. a.created_at) (select (λ a. a.advertiser_id == advertiser) db.adverts))
]

unfoldable pub insert_request : ℕ → ℕ → Text → Text → Text → Text → Option Text → ℤ → Db → Option Db
insert_request now id advertiser contact teaser body link opens_wanted db =
    if exists (λ r. r.id == id) db.advert_requests
      || not (
          is_positive opens_wanted
          && not (lessb (pos 100000) opens_wanted)
          && within 1 80 advertiser
          && within 3 200 contact
          && within 1 140 teaser
          && within 1 4000 body)
    then none
    else some (record db {
      advert_requests =
          db.advert_requests
          ++ record {
            id = id;
            advertiser = advertiser;
            contact = contact;
            teaser = teaser;
            body = body;
            link = link;
            opens_wanted = magnitude opens_wanted;
            status = pending;
            created_at = now;
          }
            ∷ [];
    })

abbrev pub is_pending : RequestStatus → Bool
is_pending pending = true
is_pending accepted = false

abbrev rank : AdminRequest → ℕ
rank r = if is_pending r.status then 1 else 0

-- 'pending' comes before 'accepted' in descending order.
unfoldable pub list_requests : Db → List AdminRequest
list_requests db = order_desc rank (order_asc (λ r. r.created_at) db.advert_requests)

abbrev pub is_takeable : ℕ → AdminRequest → Bool
is_takeable id r = r.id == id && is_pending r.status

-- RETURNING reads the row as it is written.
abbrev accepted_row : Option AdminRequest → Option AdminRequest
accepted_row none = none
accepted_row (some r) = some (record r { status = accepted })

unfoldable pub take_request : ℕ → Db → Option AdminRequest × Db
take_request id db = (
  accepted_row (find (is_takeable id) db.advert_requests),
  record db {
    advert_requests =
        update (is_takeable id) (λ r. record r { status = accepted }) db.advert_requests;
  },
)

unfoldable pub delete_request : ℕ → Db → Bool × Db
delete_request id db = (
  exists (λ r. r.id == id) db.advert_requests,
  record db { advert_requests = delete (λ r. r.id == id) db.advert_requests },
)
