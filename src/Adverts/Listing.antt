-- ===== src/Adverts/Listing.antt =====
-- The inbox against `bf_open_advert`: what is listed, and what opens.
use mathlib.Core.Option
use box_fraise_server.Prelude.{
  ℕ, ◌+◌, ◌≡◌, ◌<◌, refl, ap, ◌∙◌, Bool, true, false, ◌&&◌, ◌||◌, Option, some, arith, List, [],
  ◌∷◌, ◌==◌, if◌then◌else◌,
}
use box_fraise_server.Errors.{ok}
use box_fraise_server.Server.{Env}
use box_fraise_server.Table.{find, exists, sum}
use box_fraise_server.Table.Laws.{changed}
use box_fraise_server.Table.Search.{find-update, find-narrow}
use box_fraise_server.Table.Counting.{sum-append}
use box_fraise_server.Adverts.Types.{Advert, is_open, AdOpen, Db}
use box_fraise_server.Adverts.Repository.{
  Locale, is_receipt, is_refusal, is_unopened, has_budget, can_take, new_open, is_owed, balances,
  allowance, bf_opens_today, contents, opened,
}
use box_fraise_server.Adverts.Service.{open_advert, after_open, conclude_open}
use box_fraise_server.Adverts.Opening.{CanOpen, charged, bf_open_advert-CanOpen}

module _ (locale : Locale) (env : Env) (runner : ℕ) (db : Db) (a : Advert)
    (listed : is_unopened runner db a ≡ true)
    (stored : find (λ b. b.id == a.id) db.adverts ≡ some a)
    (fresh : exists (λ o. o.id == env.uuid) db.ad_opens ≡ false) where
  first_open :
      (opens : List AdOpen)
      → exists (λ o. o.id == env.uuid) opens ≡ false
      → exists (is_receipt a.id runner) opens ≡ false
      → exists (λ o. o.id == env.uuid || is_receipt a.id runner o) opens ≡ false
  unfolding exists
  first_open [] h k = refl
  first_open (o ∷ opens) h k = ground (arith, first_open opens)

  listed-parts :
      (has_budget a ≡ true)
      × (exists (is_receipt a.id runner) db.ad_opens ≡ false)
      × (exists (is_refusal a.id runner) db.ad_declines ≡ false)
  unfolding is_unopened
  listed-parts = ground (arith, listed)

  listed-CanOpen :
      0 < (allowance locale env.db_now runner db).0
      → CanOpen locale env.db_now runner a.id env.uuid db a
  unfolding allowance bf_opens_today
  listed-CanOpen left =
      let (budget, no_receipt, no_refusal) = listed-parts in
      record {
        undeclined = no_refusal;
        below = ground (arith, left);
        found =
            find-narrow (can_take a.id) (λ b. b.id == a.id) db.adverts (λ b h. ground arith) stored
              (ground (arith, budget));
        first = first_open db.ad_opens fresh no_receipt;
      }

  -- The contents that are read back are those of the advert.
  contents-charged :
      contents a.id (charged env.db_now runner a.id env.uuid a db)
      ≡ some (changed (can_take a.id) (λ b. record b { opens_taken = b.opens_taken + 1 }) a)
  unfolding contents
  contents-charged =
      let (budget, _, _) = listed-parts in
      find-update (λ b. b.id == a.id && is_open b.status) (can_take a.id)
        (λ b. record b { opens_taken = b.opens_taken + 1 }) db.adverts (λ b. ground arith)
      ∙ ap
          (Option.map (changed (can_take a.id) (λ b. record b { opens_taken = b.opens_taken + 1 })))
          (find-narrow (λ b. b.id == a.id && is_open b.status) (λ b. b.id == a.id) db.adverts
            (λ b h. ground arith) stored (ground (arith, budget)))

  owed-charged :
      (balances runner (charged env.db_now runner a.id env.uuid a db)).0
      ≡ (balances runner db).0 + a.pays_cents
  unfolding balances sum
  owed-charged =
      let more =
        sum-append (is_owed runner) (λ o. o.amount_cents) db.ad_opens
          (new_open env.db_now env.uuid a.id runner a.pays_cents ∷ []) in
      ground (arith, more)

  conclude_open-charged :
      (o : Option Advert) (b : Advert) (t : Db)
      → o ≡ some b
      → (conclude_open env runner a.id a.pays_cents o t db).0
        ≡ ok (opened b a.pays_cents (balances runner t).0)
  unfolding conclude_open
  conclude_open-charged o b t e = rw e

  -- An advert that the inbox lists, and that its id finds, opens as long as an open is left for
  -- the day and the new receipt's id is fresh: the reply reveals its contents, pays what the
  -- list promised, and the balance owed has grown by that.
  pub listed-opens :
      0 < (allowance locale env.db_now runner db).0
      → (open_advert locale env runner a.id db).0
        ≡ ok (record {
          advertiser = a.advertiser;
          body = a.body;
          link = a.link;
          amount_cents = a.pays_cents;
          owed_cents = (balances runner db).0 + a.pays_cents;
        })
  unfolding open_advert after_open opened
  listed-opens left =
      let t = charged env.db_now runner a.id env.uuid a db in
      let b = changed (can_take a.id) (λ b. record b { opens_taken = b.opens_taken + 1 }) a in
      rw
        (
          bf_open_advert-CanOpen locale env.db_now runner a.id env.uuid db (listed-CanOpen left),
          open_advert,
        )
        (conclude_open-charged (contents a.id t) b t contents-charged
          ∙ rw owed-charged (ap ok (kept_text (can_take a.id a))))
    where
      kept_text :
          (hit : Bool)
          → let b = if hit then record a { opens_taken = a.opens_taken + 1 } else a in
            opened b a.pays_cents ((balances runner db).0 + a.pays_cents)
            ≡ opened a a.pays_cents ((balances runner db).0 + a.pays_cents)
      kept_text true = refl
      kept_text false = refl
