-- ===== src/Adverts/Attention.antt =====
-- A runner's attention: the daily limit of `bf_open_advert`, and adverts that are over for a
-- runner.
use box_fraise_server.Prelude.{
  ℕ, ◌≡◌, ◌≤◌, ◌<◌, refl, sym, subst, inl, inr, Bool, true, false, ◌&&◌, ◌||◌, some, arith, List,
  [], ◌∷◌, ◌++◌, ◌==◌, Bool-cases,
}
use box_fraise_server.Errors.{err, bad_request}
use box_fraise_server.Server.{Env}
use box_fraise_server.Table.{exists, count}
use box_fraise_server.Table.Laws.{changed}
use box_fraise_server.Table.Counting.{exists-append, exists-update, count-append, count-update}
use box_fraise_server.Adverts.Types.{AdOpen, AdDecline, Db}
use box_fraise_server.Adverts.Repository.{
  Locale, is_receipt, is_refusal, on_day, bf_opens_today, bf_daily_open_limit, new_open, is_due,
}
use box_fraise_server.Adverts.Service.{open_advert, after_open}
use box_fraise_server.Adverts.Trace.{Request, serve, run}
use box_fraise_server.Adverts.Opening.{bf_open_advert-cases}
use box_fraise_server.Adverts.Cases.{serve-cases}

-- No runner has more receipts of one day than the limit.
abbrev pub WithinLimit : Locale → List AdOpen → Type 0
WithinLimit locale opens =
    (runner day : ℕ) → count (on_day locale runner day) opens ≤ bf_daily_open_limit

charged-WithinLimit :
    (locale : Locale) (now runner advert id amount : ℕ) (opens : List AdOpen)
    → count (on_day locale runner (locale.date now)) opens < bf_daily_open_limit
    → WithinLimit locale opens
    → WithinLimit locale (opens ++ new_open now id advert runner amount ∷ [])
unfolding count
charged-WithinLimit locale now runner advert id amount opens below h r day =
    let before = h r day in
    let split =
      count-append (on_day locale r day) opens (new_open now id advert runner amount ∷ []) in
    elim (Bool-cases (runner == r && locale.date now == day)) [
      | inr e ↦ ground (arith, split, before)
      | inl e ↦
          let same : (runner ≡ r) × (locale.date now ≡ day) = ground arith in
          let today =
            subst (λ d. count (on_day locale r d) opens < bf_daily_open_limit) same.1
              (subst (λ x. count (on_day locale x (locale.date now)) opens < bf_daily_open_limit)
                same.0 below) in
          ground (arith, split, today)
    ]

settle_day :
    (locale : Locale) (runner day now : ℕ) (w : AdOpen → Bool) (o : AdOpen)
    → on_day locale runner day (changed w (λ x. record x { paid_at = some now }) o)
      ≡ on_day locale runner day o
settle_day locale runner day now w o = elim (Bool-cases (w o)) [ inl e ↦ rw e | inr e ↦ rw e ]

serve-WithinLimit :
    (locale : Locale) (env : Env) (req : Request) (db : Db)
    → WithinLimit locale db.ad_opens
    → WithinLimit locale (serve locale env req db).ad_opens
unfolding bf_opens_today
serve-WithinLimit locale env req db h =
    serve-cases locale env db (λ _ opens _. WithinLimit locale opens) h
      (λ runner advert a can.
        charged-WithinLimit locale env.db_now runner advert env.uuid a.pays_cents db.ad_opens
          can.below h)
      (λ _. h) (λ _ _. h) (λ _. h)
      (λ username runner day.
        subst (λ n. n ≤ bf_daily_open_limit)
          (sym (
            count-update (on_day locale runner day) (is_due username db.runners)
              (λ o. record o { paid_at = some env.db_now })
              (settle_day locale runner day env.db_now (is_due username db.runners)) db.ad_opens))
          (h runner day))
      req

-- If no runner has more than five receipts of one calendar day, then none has after any sequence
-- of requests, however the clock runs.
pub run-WithinLimit :
    (locale : Locale) (requests : List (Env × Request)) (db : Db)
    → WithinLimit locale db.ad_opens
    → WithinLimit locale (run locale requests db).ad_opens
unfolding run
run-WithinLimit locale [] db h = h
run-WithinLimit locale ((env, req) ∷ rest) db h =
    run-WithinLimit locale rest (serve locale env req db) (serve-WithinLimit locale env req db h)

module _ (locale : Locale) (runner advert : ℕ) where
  -- The runner has opened the advert, or has said no to it.
  abbrev pub IsOver : List AdOpen → List AdDecline → Type 0
  IsOver opens declines =
      (exists (is_receipt advert runner) opens || exists (is_refusal advert runner) declines) ≡ true

  settle_receipt :
      (now : ℕ) (w : AdOpen → Bool) (o : AdOpen)
      → is_receipt advert runner (changed w (λ x. record x { paid_at = some now }) o)
        ≡ is_receipt advert runner o
  settle_receipt now w o = elim (Bool-cases (w o)) [ inl e ↦ rw e | inr e ↦ rw e ]

  serve-IsOver :
      (env : Env) (req : Request) (db : Db)
      → IsOver db.ad_opens db.ad_declines
      → let t = serve locale env req db in IsOver t.ad_opens t.ad_declines
  serve-IsOver env req db h =
      serve-cases locale env db (λ _ opens declines. IsOver opens declines) h
        (λ u a row can.
          let more =
            exists-append (is_receipt advert runner) db.ad_opens
              (new_open env.db_now env.uuid a u row.pays_cents ∷ []) in
          ground (arith, more, h))
        (λ d.
          let more = exists-append (is_refusal advert runner) db.ad_declines (d ∷ []) in
          ground (arith, more, h))
        (λ _ _. h) (λ _. h)
        (λ username.
          let same =
            exists-update (is_receipt advert runner) (is_due username db.runners)
              (λ o. record o { paid_at = some env.db_now })
              (settle_receipt env.db_now (is_due username db.runners)) db.ad_opens in
          rw same h)
        req

  pub run-IsOver :
      (later : List (Env × Request)) (db : Db)
      → IsOver db.ad_opens db.ad_declines
      → let t = run locale later db in IsOver t.ad_opens t.ad_declines
  unfolding run
  run-IsOver [] db h = h
  run-IsOver ((env, req) ∷ rest) db h =
      run-IsOver rest (serve locale env req db) (serve-IsOver env req db h)

  or-receipt :
      (id : ℕ) (opens : List AdOpen)
      → exists (λ o. o.id == id || is_receipt advert runner o) opens ≡ false
      → exists (is_receipt advert runner) opens ≡ false
  unfolding exists
  or-receipt id [] h = refl
  or-receipt id (o ∷ opens) h = ground (arith, or-receipt id opens)

  pub over-refused :
      (env : Env) (db : Db)
      → IsOver db.ad_opens db.ad_declines
      → open_advert locale env runner advert db
        ≡ (err (bad_request "that one is no longer open"), db)
  unfolding open_advert after_open
  over-refused env db h = elim (bf_open_advert-cases locale env.db_now runner advert env.uuid db) [
    | inl e ↦ rw (e, open_advert)
    | inr (a, can, e) ↦ cc (rw (can.undeclined, or-receipt env.uuid db.ad_opens can.first) at h)
  ]
