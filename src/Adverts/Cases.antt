-- ===== src/Adverts/Cases.antt =====
-- The ways in which a request to src/domain/adverts can change the adverts, receipts and refusals.
use box_fraise_server.Prelude.Integers.{ℤ}
use box_fraise_server.Prelude.{
  ℕ, String, ◌≡◌, refl, inl, inr, Bool, true, false, Option, none, some, arith, List, [], ◌∷◌, ◌++◌,
  ◌==◌, Bool-cases,
}
use box_fraise_server.Prelude.Text.{Text}
use box_fraise_server.Server.{Env}
use box_fraise_server.Errors.{Result-cases}
use box_fraise_server.Table.{exists, update}
use box_fraise_server.Adverts.Types.{
  Advert, AdOpen, AdDecline, AdminRequest, Db, NewAdvert, NewRequest, closed_status,
}
use box_fraise_server.Adverts.Repository.{
  Locale, is_refusal, can_take, new_open, bf_open_advert, is_due, contents,
}
use box_fraise_server.Adverts.Repository
use box_fraise_server.Adverts.Requests.{take_request, insert_request}
use box_fraise_server.Adverts.Requests
use box_fraise_server.Adverts.Service.{
  open_advert, after_open, conclude_open, conclude_create, conclude_request, conclude_put_up,
  conclude_admin, conclude_pay, decline, create, check_create, request, check_request,
  put_up_request, conclude_accept, accept_request, delete_request, close, pay,
}
use box_fraise_server.Adverts.Trace.{
  Request, opening, declining, creating, requesting, accepting, deleting, closing, paying, serve,
}
use box_fraise_server.Adverts.Opening.{
  CanOpen, charged, bf_open_advert-cases, IsInserted, put_up-IsInserted,
}

module _ {ℓ} (locale : Locale) (env : Env) (db : Db)
    (P : List Advert → List AdOpen → List AdDecline → Type ℓ)
    (kept : P db.adverts db.ad_opens db.ad_declines)
    (opened : (runner advert : ℕ) (a : Advert)
      → CanOpen locale env.db_now runner advert env.uuid db a
      → let t = charged env.db_now runner advert env.uuid a db in
        P t.adverts t.ad_opens db.ad_declines)
    (declined : (d : AdDecline) → P db.adverts db.ad_opens (db.ad_declines ++ d ∷ []))
    (inserted : (t : Db)
      → (made : IsInserted env.db_now env.uuid db t)
      → P (db.adverts ++ made.advert ∷ []) db.ad_opens db.ad_declines)
    (closed : (id : ℕ)
      → P
          (update (λ a. a.id == id) (λ a. record a { status = closed_status }) db.adverts)
          db.ad_opens
          db.ad_declines)
    (paid : (username : Text)
      → P db.adverts
          (update
            (is_due username db.runners)
            (λ o. record o { paid_at = some env.db_now })
            db.ad_opens)
          db.ad_declines) where
  abbrev After : Db → Type ℓ
  After t = P t.adverts t.ad_opens t.ad_declines

  conclude_open-cases :
      (runner advert amount : ℕ) (o : Option Advert) (t : Db)
      → After t
      → After (conclude_open env runner advert amount o t db).1
  unfolding conclude_open
  conclude_open-cases runner advert amount none t h = kept
  conclude_open-cases runner advert amount (some a) t h = h

  open_advert-cases : (runner advert : ℕ) → After (open_advert locale env runner advert db).1
  unfolding open_advert after_open
  open_advert-cases runner advert =
      elim (bf_open_advert-cases locale env.db_now runner advert env.uuid db) [
        | inl e ↦ rw (e, open_advert) kept
        | inr (a, can, e) ↦
            rw (e, open_advert)
              (conclude_open-cases runner advert a.pays_cents _ _ (opened runner advert a can))
      ]

  decline-cases : (runner advert : ℕ) → After (decline env runner advert db).1
  unfolding decline Repository.decline
  decline-cases runner advert = elim (Bool-cases (exists (λ d. d.id == env.uuid) db.ad_declines)) [
    | inl e ↦ rw (e, decline, Repository.decline) kept
    | inr e ↦ elim (Bool-cases (exists (is_refusal advert runner) db.ad_declines)) [
      | inl k ↦ rw (e, k, decline, Repository.decline) kept
      | inr k ↦ elim (Bool-cases (exists (λ a. a.id == advert) db.adverts)) [
        | inl m ↦ rw (e, k, m, decline, Repository.decline) (declined _)
        | inr m ↦ rw (e, k, m, decline, Repository.decline) kept
      ]
    ]
  ]

  -- What an insertion does to the three tables.
  inserted-After : (t : Db) → IsInserted env.db_now env.uuid db t → After t
  inserted-After t made = rw (made.adverts, made.ad_opens, made.ad_declines) (inserted t made)

  conclude_create-cases :
      (admin : ℕ) (req : NewAdvert) (o : Option Db)
      → ((t : Db) → o ≡ some t → After t)
      → After (conclude_create env admin req o db).1
  unfolding conclude_create
  conclude_create-cases admin req none h = kept
  conclude_create-cases admin req (some t) h = h t refl

  create-cases : (admin : ℕ) (req : NewAdvert) → After (create locale env admin req db).1
  unfolding create
  create-cases admin req = elim (Result-cases (check_create req)) [
    | inr (x, e) ↦ rw (e, create) kept
    | inl (_, e) ↦
        rw (e, create)
          (conclude_create-cases admin req _
            (λ t made. inserted-After t (put_up-IsInserted locale env _ _ _ _ _ _ _ _ db made)))
  ]

  conclude_request-cases :
      (req : NewRequest) (o : Option Db)
      → ((t : Db) → o ≡ some t → After t)
      → After (conclude_request env req o db).1
  unfolding conclude_request
  conclude_request-cases req none h = kept
  conclude_request-cases req (some t) h = h t refl

  -- A new request for an advert is in a table of its own.
  insert_request-After :
      (id : ℕ) (advertiser contact teaser body : Text) (link : Option Text) (opens : ℤ) (t : Db)
      → insert_request env.db_now id advertiser contact teaser body link opens db ≡ some t
      → After t
  unfolding insert_request
  insert_request-After id advertiser contact teaser body link opens t h =
      let (adverts, ad_opens, ad_declines) = same t h in rw (adverts, ad_opens, ad_declines) kept
    where
      same :
          (t : Db)
          → insert_request env.db_now id advertiser contact teaser body link opens db ≡ some t
          → (t.adverts ≡ db.adverts) × (t.ad_opens ≡ db.ad_opens) × (t.ad_declines ≡ db.ad_declines)
      same t h = ground arith

  request-cases : (req : NewRequest) → After (request env req db).1
  unfolding request
  request-cases req = elim (Result-cases (check_request req)) [
    | inr (x, e) ↦ rw (e, request) kept
    | inl (_, e) ↦
        rw (e, request)
          (conclude_request-cases req _ (λ t made. insert_request-After _ _ _ _ _ _ _ t made))
  ]

  conclude_put_up-cases :
      (admin : ℕ) (r : AdminRequest) (o : Option Db)
      → ((t : Db) → o ≡ some t → After t)
      → After (conclude_put_up env admin r o db).1
  unfolding conclude_put_up
  conclude_put_up-cases admin r none h = kept
  conclude_put_up-cases admin r (some t) h = h t refl

  -- A request that is taken changes its own table only, so that an insertion after it is one after
  -- what was there before.
  conclude_accept-cases :
      (admin : ℕ) (o : Option AdminRequest) (rs : List AdminRequest)
      → After (conclude_accept locale env admin o (record db { advert_requests = rs }) db).1
  unfolding conclude_accept put_up_request
  conclude_accept-cases admin none rs = kept
  conclude_accept-cases admin (some r) rs = conclude_put_up-cases admin r _ (λ t made.
      let m =
        put_up-IsInserted locale env _ _ _ _ _ _ _ _ (record db { advert_requests = rs }) made in
      inserted-After t (record {
        advert = m.advert;
        has_id = m.has_id;
        free = m.free;
        fresh = m.fresh;
        adverts = m.adverts;
        ad_opens = m.ad_opens;
        ad_declines = m.ad_declines;
      }))

  accept_request-cases : (admin id : ℕ) → After (accept_request locale env admin id db).1
  unfolding accept_request take_request
  accept_request-cases admin id = conclude_accept-cases admin _ _

  conclude_admin-cases :
      (admin id : ℕ) (action : String) (b : Bool) (t : Db)
      → After t
      → After (conclude_admin env admin action id (b, t)).1
  unfolding conclude_admin
  conclude_admin-cases admin id action true t h = h
  conclude_admin-cases admin id action false t h = h

  conclude_pay-cases :
      (admin : ℕ) (username : Text) (amount opens : ℕ) (t : Db)
      → After t
      → After (conclude_pay env admin username ((amount, opens), t)).1
  unfolding conclude_pay
  conclude_pay-cases admin username amount opens t h = elim (Bool-cases (opens == 0)) [
    | inl e ↦ rw e h
    | inr e ↦ rw e h
  ]

  pub serve-cases : (req : Request) → After (serve locale env req db)
  unfolding serve delete_request Requests.delete_request close Repository.close pay Repository.pay
  serve-cases (opening runner advert) = open_advert-cases runner advert
  serve-cases (declining runner advert) = decline-cases runner advert
  serve-cases (creating admin req) = create-cases admin req
  serve-cases (requesting req) = request-cases req
  serve-cases (accepting admin id) = accept_request-cases admin id
  serve-cases (deleting admin id) = conclude_admin-cases admin id _ _ _ kept
  serve-cases (closing admin id) = conclude_admin-cases admin id _ _ _ (closed id)
  serve-cases (paying admin req) = conclude_pay-cases admin _ _ _ _ (paid _)
