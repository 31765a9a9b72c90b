-- ===== src/Adverts/Opening.antt =====
-- The ways in which `bf_open_advert`, `open_advert` and `put_up` end.
use mathlib.Core.Option
use box_fraise_server.Prelude.{
  ℕ, ◌+◌, ◌≡◌, ◌≤◌, ◌<◌, refl, sym, ap, ◌∙◌, ◌⊎◌, inl, inr, true, false, ◌||◌, Option, none, some,
  arith, [], ◌∷◌, ◌++◌, leb, ◌==◌, Bool-cases, Option-cases,
}
use box_fraise_server.Prelude.Integers.{ℤ, pos, negsuc}
use box_fraise_server.Prelude.Text.{Text}
use box_fraise_server.Server.{Env}
use box_fraise_server.Table.{find, exists, update}
use box_fraise_server.Adverts.Types.{Advert, Db, open_status}
use box_fraise_server.Adverts.Repository.{
  Locale, is_receipt, is_refusal, can_take, new_open, write_receipt, bf_open_advert, bf_opens_today,
  bf_daily_open_limit,
}
use box_fraise_server.Adverts.Requests.{
  insert, insert_advertiser, advertiser_for, advert_sane, new_advert,
}
use box_fraise_server.Adverts.Service.{put_up}

-- The tables after an open that is charged to the advert `a`.
abbrev pub charged : ℕ → ℕ → ℕ → ℕ → Advert → Db → Db
charged now runner advert id a db = record db {
  adverts = update (can_take advert) (λ b. record b { opens_taken = b.opens_taken + 1 }) db.adverts;
  ad_opens = db.ad_opens ++ new_open now id advert runner a.pays_cents ∷ [];
}

-- What an open requires of the tables.
pub record CanOpen (locale : Locale) (now runner advert id : ℕ) (db : Db) (a : Advert)
    : Type 0 where
  pub undeclined : exists (is_refusal advert runner) db.ad_declines ≡ false
  pub below : bf_opens_today locale now runner db < bf_daily_open_limit
  pub found : find (can_take advert) db.adverts ≡ some a
  pub first : exists (λ o. o.id == id || is_receipt advert runner o) db.ad_opens ≡ false

module _ (locale : Locale) (now runner advert id : ℕ) (db : Db) where
  write_receipt-cases :
      (o : Option Advert)
      → (write_receipt now runner advert id o db ≡ (none, db))
        ⊎ ((a : Advert) × (o ≡ some a)
            × (exists (λ o. o.id == id || is_receipt advert runner o) db.ad_opens ≡ false)
            × (write_receipt now runner advert id o db
                ≡ (some a.pays_cents, charged now runner advert id a db)))
  unfolding write_receipt
  write_receipt-cases none = inl refl
  write_receipt-cases (some a) =
      elim (Bool-cases (exists (λ o. o.id == id || is_receipt advert runner o) db.ad_opens)) [
        | inl e ↦ inl (rw e)
        | inr e ↦ inr (a, refl, e, rw e)
      ]

  pub bf_open_advert-cases :
      (bf_open_advert locale now runner advert id db ≡ (none, db))
      ⊎ ((a : Advert) × CanOpen locale now runner advert id db a
          × (bf_open_advert locale now runner advert id db
              ≡ (some a.pays_cents, charged now runner advert id a db)))
  unfolding bf_open_advert
  bf_open_advert-cases = elim (Bool-cases (exists (is_refusal advert runner) db.ad_declines)) [
    | inl e ↦ inl (rw (e, bf_open_advert))
    | inr e ↦ elim (Bool-cases (leb bf_daily_open_limit (bf_opens_today locale now runner db))) [
      | inl k ↦ inl (rw (e, k, bf_open_advert))
      | inr k ↦ elim (write_receipt-cases (find (can_take advert) db.adverts)) [
        | inl w ↦ inl (rw (e, k, bf_open_advert) w)
        | inr (a, found, first, w) ↦ inr (
          a,
          record { undeclined = e; below = ground (arith, k); found = found; first = first },
          rw (e, k, bf_open_advert) w,
        )
      ]
    ]
  ]

  -- An open succeeds where it can.
  pub bf_open_advert-CanOpen :
      {a : Advert}
      → CanOpen locale now runner advert id db a
      → bf_open_advert locale now runner advert id db
        ≡ (some a.pays_cents, charged now runner advert id a db)
  unfolding bf_open_advert write_receipt
  bf_open_advert-CanOpen can =
      let below = can.below in
      let k : leb bf_daily_open_limit (bf_opens_today locale now runner db) ≡ false =
        ground arith in
      rw (can.undeclined, k, can.found, can.first, bf_open_advert, write_receipt)

-- What a new advert looks like.
pub record IsFresh (now : ℕ) (a : Advert) : Type 0 where
  pub sane : (0 < a.pays_cents) × (a.pays_cents ≤ 10000) × (a.pays_cents ≤ a.price_cents)
  pub unspent : (a.opens_taken ≡ 0) × (0 < a.opens_paid)
  pub shown : a.status ≡ open_status

-- An INSERT into `adverts` adds one fresh advert, and changes no other table.
pub record IsInserted (now id : ℕ) (db t : Db) : Type 0 where
  pub advert : Advert
  pub has_id : advert.id ≡ id
  pub free : exists (λ a. a.id == id) db.adverts ≡ false
  pub fresh : IsFresh now advert
  pub adverts : t.adverts ≡ db.adverts ++ advert ∷ []
  pub ad_opens : t.ad_opens ≡ db.ad_opens
  pub ad_declines : t.ad_declines ≡ db.ad_declines

sane-IsFresh :
    (now id advertiser_id : ℕ) (name teaser body : Text) (link : Option Text) (price pays opens : ℤ)
    → advert_sane name teaser body price pays opens ≡ true
    → IsFresh now (new_advert now id advertiser_id name teaser body link price pays opens)
unfolding advert_sane
sane-IsFresh now id advertiser_id name teaser body link (pos m) (pos n) (pos k) h = ground arith
sane-IsFresh now id advertiser_id name teaser body link (negsuc m) (pos n) (pos k) h = ground arith
sane-IsFresh now id advertiser_id name teaser body link price (negsuc n) opens h = cc
sane-IsFresh now id advertiser_id name teaser body link price (pos n) (negsuc k) h = ground arith

insert-IsInserted :
    (now id advertiser_id : ℕ) (name teaser body : Text) (link : Option Text) (price pays opens : ℤ)
    (db : Db) {t : Db}
    → insert now id advertiser_id name teaser body link price pays opens db ≡ some t
    → IsInserted now id db t
unfolding insert
insert-IsInserted now id advertiser_id name teaser body link price pays opens db {t} h =
    elim (Bool-cases (exists (λ a. a.id == id) db.adverts)) [
      | inl taken ↦ cc (rw (taken, insert) at h)
      | inr free ↦ elim (Bool-cases (advert_sane name teaser body price pays opens)) [
        | inr insane ↦ cc (rw (free, insane, insert) at h)
        | inl sane ↦
            let made = Option.some-injective _ t (rw (free, sane, insert) at h) in
            record {
              advert = new_advert now id advertiser_id name teaser body link price pays opens;
              has_id = refl;
              free = free;
              fresh = sane-IsFresh now id advertiser_id name teaser body link price pays opens sane;
              adverts = ap (λ d. d.adverts) (sym made);
              ad_opens = ap (λ d. d.ad_opens) (sym made);
              ad_declines = ap (λ d. d.ad_declines) (sym made);
            }
      ]
    ]

-- The business is found or made in a table of its own.
advertiser_for-kept :
    (locale : Locale) (now id : ℕ) (name contact : Text) (db : Db) {v : ℕ} {t : Db}
    → advertiser_for locale now id name contact db ≡ some (v, t)
    → (t.adverts ≡ db.adverts) × (t.ad_opens ≡ db.ad_opens) × (t.ad_declines ≡ db.ad_declines)
unfolding advertiser_for insert_advertiser
advertiser_for-kept locale now id name contact db h = ground arith

pub put_up-IsInserted :
    (locale : Locale) (env : Env) (name contact teaser body : Text) (link : Option Text)
    (price pays opens : ℤ) (db : Db) {t : Db}
    → put_up locale env name contact teaser body link price pays opens db ≡ some t
    → IsInserted env.db_now env.uuid db t
unfolding put_up
put_up-IsInserted locale env name contact teaser body link price pays opens db {t} h =
    elim (Option-cases (advertiser_for locale env.db_now env.other_uuid name contact db)) [
      | inl e ↦ cc (rw (e, put_up) at h)
      | inr ((v, s), e) ↦
          let (adverts, ad_opens, ad_declines) =
            advertiser_for-kept locale env.db_now env.other_uuid name contact db e in
          let made =
            insert-IsInserted env.db_now env.uuid v name teaser body link price pays opens s
              (rw (e, put_up) at h) in
          record {
            advert = made.advert;
            has_id = made.has_id;
            free = rw adverts at made.free;
            fresh = made.fresh;
            adverts = made.adverts ∙ ap (λ l. l ++ made.advert ∷ []) adverts;
            ad_opens = made.ad_opens ∙ ad_opens;
            ad_declines = made.ad_declines ∙ ad_declines;
          }
    ]
