-- ===== src/Adverts/Ledgers.antt =====
-- The ledger of a business.
use native.Mathlib.Nat.{mul-le-mul}
use mathlib.Core.Path.{fun_ext}
use box_fraise_server.Prelude.Text.{Text}
use box_fraise_server.Prelude.{
  ℕ, ◌*◌, ◌≡◌, ◌≤◌, refl, sym, subst, ap, ◌∙◌, inl, inr, arith, List, [], ◌∷◌, map, All, ◌==◌,
  Option-cases,
}
use box_fraise_server.Errors.{ok, ok-injective}
use box_fraise_server.Table.{find, count, select, sum, order_desc}
use box_fraise_server.Table.Totals.{whole, sum-map, sum-select, sum-order_desc}
use box_fraise_server.Table.Keeping.{All-select, All-order_desc}
use box_fraise_server.Adverts.Types.{Advert, Db, LedgerRow, Ledger}
use box_fraise_server.Adverts.Requests
use box_fraise_server.Adverts.Requests.{ledger_row}
use box_fraise_server.Adverts.Service.{ledger, total}
use box_fraise_server.Adverts.Receipts.{
  of_business, business_receipt, receipts-count, receipts-amount,
}
use box_fraise_server.Adverts.Books.{IsSane, IsBalanced}

-- What the books say of one line of a ledger.
record IsCovered (r : LedgerRow) : Type 0 where
  taken : r.opens_taken ≤ r.opens_paid
  price : r.pays_cents ≤ r.price_cents

total-le :
    (f g : LedgerRow → ℕ) (rs : List LedgerRow)
    → ((r : LedgerRow) → IsCovered r → f r ≤ g r)
    → All IsCovered rs
    → total f rs ≤ total g rs
unfolding sum
total-le f g [] k a = omega arith
total-le f g (r ∷ rs) k a = omega (arith, k r a.0, total-le f g rs k a.1)

row-IsCovered : (name : Text) (a : Advert) → IsSane a → IsCovered (ledger_row name a)
row-IsCovered name a h = record { taken = h.budget; price = h.price }

All-ledger_row :
    (name : Text) (adverts : List Advert)
    → All IsSane adverts
    → All IsCovered (map (ledger_row name) adverts)
All-ledger_row name [] a = tt
All-ledger_row name (x ∷ adverts) a = (row-IsCovered name x a.0, All-ledger_row name adverts a.1)

ledger-IsCovered :
    (advertiser : ℕ) (db : Db)
    → All IsSane db.adverts
    → All IsCovered (Requests.ledger advertiser db)
unfolding Requests.ledger
ledger-IsCovered advertiser db a =
    elim (Option-cases (find (λ v. v.id == advertiser) db.advertisers)) [
      | inl e ↦ rw (e, Requests.ledger) tt
      | inr (v, e) ↦
          rw (e, Requests.ledger)
            (All-ledger_row v.name _ (
              All-order_desc IsSane (λ x. x.created_at)
                (select (λ x. x.advertiser_id == advertiser) db.adverts)
                (All-select IsSane (λ x. x.advertiser_id == advertiser) db.adverts a)))
    ]

-- The totals of the rows.
totals-le :
    (rs : List LedgerRow)
    → All IsCovered rs
    → (total (λ r. r.opens_taken) rs ≤ total (λ r. r.opens_paid) rs)
      × (total (λ r. r.pays_cents * r.opens_taken) rs
          ≤ total (λ r. r.price_cents * r.opens_paid) rs)
totals-le rs a = (
  total-le (λ r. r.opens_taken) (λ r. r.opens_paid) rs (λ r k. k.taken) a,
  total-le (λ r. r.pays_cents * r.opens_taken) (λ r. r.price_cents * r.opens_paid) rs
      (λ r k. mul-le-mul k.price k.taken) a,
)

-- A column of the rows of a ledger adds up over the adverts of the business.
rows-sum :
    (advertiser : ℕ) (db : Db) (f : LedgerRow → ℕ) (g : Advert → ℕ)
    → ((name : Text) (a : Advert) → f (ledger_row name a) ≡ g a)
    → {r : LedgerRow} {rs : List LedgerRow} → Requests.ledger advertiser db ≡ r ∷ rs
    → total f (r ∷ rs) ≡ sum (of_business advertiser) g db.adverts
unfolding Requests.ledger
rows-sum advertiser db f g k {r} {rs} h =
    elim (Option-cases (find (λ v. v.id == advertiser) db.advertisers)) [
      | inl e ↦ cc (rw (e, Requests.ledger) at h)
      | inr (v, e) ↦
          let listed =
            order_desc (λ a. a.created_at) (select (of_business advertiser) db.adverts) in
          ap (whole f) (sym (rw (e, Requests.ledger) at h))
          ∙ sum-map f (ledger_row v.name) listed
          ∙ ap (λ (q : Advert → ℕ). whole q listed) (fun_ext (k v.name))
          ∙ sum-order_desc (λ a. a.created_at) g (select (of_business advertiser) db.adverts)
          ∙ sum-select (of_business advertiser) g db.adverts
    ]

-- What a ledger says, in terms of the tables.
abbrev Told : ℕ → Db → Ledger → Type 0
Told advertiser db l =
    (l.opens_bought ≡ sum (of_business advertiser) (λ a. a.opens_paid) db.adverts)
    × (l.spent_cents ≡ sum (of_business advertiser) (λ a. a.price_cents * a.opens_paid) db.adverts)
    × (l.opens_taken ≡ count (business_receipt advertiser db.adverts) db.ad_opens)
    × (l.to_readers_cents
        ≡ sum (business_receipt advertiser db.adverts) (λ o. o.amount_cents) db.ad_opens)
    × (l.opens_taken ≤ l.opens_bought)
    × (l.to_readers_cents ≤ l.spent_cents)

-- On books that balance, a ledger tells what the tables say: the opens bought are those of the
-- adverts of the business and the money spent is their price; the opens taken are the receipts
-- for its adverts, and the money to readers is what those receipts paid them; and it never shows
-- more opens taken than were bought, nor more money to readers than the business has spent.
pub ledger-receipts :
    (advertiser : ℕ) (db : Db) {l : Ledger}
    → IsBalanced db.adverts db.ad_opens
    → ledger advertiser db ≡ ok l
    → (l.opens_bought ≡ sum (of_business advertiser) (λ a. a.opens_paid) db.adverts)
      × (l.spent_cents
          ≡ sum (of_business advertiser) (λ a. a.price_cents * a.opens_paid) db.adverts)
      × (l.opens_taken ≡ count (business_receipt advertiser db.adverts) db.ad_opens)
      × (l.to_readers_cents
          ≡ sum (business_receipt advertiser db.adverts) (λ o. o.amount_cents) db.ad_opens)
      × (l.opens_taken ≤ l.opens_bought)
      × (l.to_readers_cents ≤ l.spent_cents)
unfolding ledger
ledger-receipts advertiser db {l} balanced h = shown (Requests.ledger advertiser db) refl
  where
    told : LedgerRow → List LedgerRow → Ledger
    told r rs = record {
      name = r.name;
      spent_cents = total (λ a. a.price_cents * a.opens_paid) (r ∷ rs);
      opens_bought = total (λ a. a.opens_paid) (r ∷ rs);
      opens_taken = total (λ a. a.opens_taken) (r ∷ rs);
      to_readers_cents = total (λ a. a.pays_cents * a.opens_taken) (r ∷ rs);
      adverts = r ∷ rs;
    }

    shown : (rs : List LedgerRow) → Requests.ledger advertiser db ≡ rs → Told advertiser db l
    shown [] e = cc (rw (e, ledger) at h)
    shown (r ∷ rs) e =
        let same = ok-injective (told r rs) l (rw (e, ledger) at h) in
        let covered = subst (All IsCovered) e (ledger-IsCovered advertiser db balanced.sane) in
        let (taken, money) = totals-le (r ∷ rs) covered in
        rw (← same) (
          rows-sum advertiser db (λ a. a.opens_paid) (λ a. a.opens_paid) (λ n a. refl) e,
          rows-sum advertiser db (λ a. a.price_cents * a.opens_paid)
              (λ a. a.price_cents * a.opens_paid) (λ n a. refl) e,
          rows-sum advertiser db (λ a. a.opens_taken) (λ a. a.opens_taken) (λ n a. refl) e
              ∙ sym (receipts-count advertiser db balanced),
          rows-sum advertiser db (λ a. a.pays_cents * a.opens_taken)
                (λ a. a.pays_cents * a.opens_taken) (λ n a. refl) e
              ∙ sym (receipts-amount advertiser db balanced),
          taken,
          money,
        )
