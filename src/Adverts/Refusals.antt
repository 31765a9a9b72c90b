-- ===== src/Adverts/Refusals.antt =====
-- Opening an advert that the runner has declined, or has opened before.
use box_fraise_server.Prelude.{
  ℕ, ◌≡◌, refl, sym, ap, inl, inr, Bool, true, false, ◌&&◌, ◌||◌, Option, none, some, arith, List,
  [], ◌∷◌, ◌++◌, ◌==◌, Bool-cases,
}
use box_fraise_server.Errors.{Result, ok, err, bad_request}
use box_fraise_server.Server.{Env}
use box_fraise_server.Table.{exists}
use box_fraise_server.Table.Counting.{exists-append}
use box_fraise_server.Adverts.Types.{Advert, Db, Opened}
use box_fraise_server.Adverts.Repository.{
  Locale, is_receipt, is_refusal, new_open, bf_open_advert, can_take, opened,
}
use box_fraise_server.Adverts.Repository
use box_fraise_server.Adverts.Service.{open_advert, after_open, conclude_open, decline}
use box_fraise_server.Adverts.Trace.{Request, run}
use box_fraise_server.Adverts.Opening.{CanOpen, charged, bf_open_advert-cases}
use box_fraise_server.Adverts.Attention.{IsOver, run-IsOver, over-refused}

module _ (locale : Locale) (env : Env) (runner advert : ℕ) (db : Db) where
  or_true : (a : Bool) → (a || true) ≡ true
  or_true a = ground arith

  own_refusal : (r a : ℕ) → ((a == a && r == r) || false) ≡ true
  own_refusal r a = ground arith

  decline-IsOver :
      (decline env runner advert db).0 ≡ ok tt
      → let t = (decline env runner advert db).1 in
        IsOver locale runner advert t.ad_opens t.ad_declines
  unfolding decline Repository.decline exists
  decline-IsOver h = elim (Bool-cases (exists (λ d. d.id == env.uuid) db.ad_declines)) [
    | inl e ↦ cc (rw (e, decline, Repository.decline) at h)
    | inr e ↦ elim (Bool-cases (exists (is_refusal advert runner) db.ad_declines)) [
      | inl k ↦ rw (e, k, decline, Repository.decline) (rw k (or_true _))
      | inr k ↦ elim (Bool-cases (exists (λ a. a.id == advert) db.adverts)) [
        | inr m ↦ cc (rw (e, k, m, decline, Repository.decline) at h)
        | inl m ↦
            rw (e, k, m, decline, Repository.decline)
              (rw
                (
                  exists-append (is_refusal advert runner) db.ad_declines _,
                  k,
                  own_refusal runner advert,
                )
                (or_true _))
      ]
    ]
  ]

  conclude_open-ok :
      (amount : ℕ) (o : Option Advert) (t : Db) {r : Opened}
      → (conclude_open env runner advert amount o t db).0 ≡ ok r
      → (r.amount_cents ≡ amount)
        × ((conclude_open env runner advert amount o t db).1.ad_opens ≡ t.ad_opens)
        × ((conclude_open env runner advert amount o t db).1.ad_declines ≡ t.ad_declines)
  unfolding conclude_open opened
  conclude_open-ok amount none t h = cc
  conclude_open-ok amount (some a) t h = (sym (ap paid h), refl, refl)
    where
      paid : Result Opened → ℕ
      paid (ok r) = r.amount_cents
      paid (err e) = amount

  -- An open that succeeds has been charged to the advert.
  pub open_advert-ok :
      {r : Opened}
      → (open_advert locale env runner advert db).0 ≡ ok r
      → (a : Advert) × CanOpen locale env.db_now runner advert env.uuid db a
        × (r.amount_cents ≡ a.pays_cents)
        × ((open_advert locale env runner advert db).1.ad_opens
            ≡ db.ad_opens ++ new_open env.db_now env.uuid advert runner a.pays_cents ∷ [])
        × ((open_advert locale env runner advert db).1.ad_declines ≡ db.ad_declines)
  unfolding open_advert after_open
  open_advert-ok h = elim (bf_open_advert-cases locale env.db_now runner advert env.uuid db) [
    | inl e ↦ cc (rw (e, open_advert) at h)
    | inr (a, can, e) ↦
        let (amount, opens, declines) =
          conclude_open-ok a.pays_cents _ (charged env.db_now runner advert env.uuid a db)
            (rw (e, open_advert) at h) in
        rw (e, open_advert) (a, can, amount, opens, declines)
  ]

  open-IsOver :
      {r : Opened}
      → (open_advert locale env runner advert db).0 ≡ ok r
      → let t = (open_advert locale env runner advert db).1 in
        IsOver locale runner advert t.ad_opens t.ad_declines
  unfolding exists
  open-IsOver h =
      let (a, can, amount, opens, declines) = open_advert-ok h in
      let new = new_open env.db_now env.uuid advert runner a.pays_cents in
      rw
        (
          opens,
          declines,
          exists-append (is_receipt advert runner) db.ad_opens (new ∷ []),
          own_refusal runner advert,
        )
        (ground arith)

  -- A no is final: after a decline that was accepted, whatever requests follow, by anybody, an
  -- attempt of the runner to open the advert is refused and changes nothing.
  pub decline-final :
      (decline env runner advert db).0 ≡ ok tt
      → (later : List (Env × Request)) (env' : Env)
      → let t = run locale later (decline env runner advert db).1 in
        open_advert locale env' runner advert t
        ≡ (err (bad_request "that one is no longer open"), t)
  decline-final h later env' =
      over-refused locale runner advert env' (run locale later (decline env runner advert db).1)
        (run-IsOver locale runner advert later (decline env runner advert db).1 (decline-IsOver h))

  -- An advert pays a runner once: after an open that succeeded, whatever requests follow,
  -- another open of it by the runner is refused and changes nothing.
  pub open_advert-once :
      {r : Opened}
      → (open_advert locale env runner advert db).0 ≡ ok r
      → (later : List (Env × Request)) (env' : Env)
      → let t = run locale later (open_advert locale env runner advert db).1 in
        open_advert locale env' runner advert t
        ≡ (err (bad_request "that one is no longer open"), t)
  open_advert-once h later env' =
      let t = (open_advert locale env runner advert db).1 in
      over-refused locale runner advert env' (run locale later t)
        (run-IsOver locale runner advert later t (open-IsOver h))
