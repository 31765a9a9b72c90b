-- ===== src/Adverts/Books/Change.antt =====
-- The books of src/domain/adverts under new adverts, closed adverts and payments.
use box_fraise_server.Prelude.{
  ℕ, ◌≡◌, refl, sym, ap, ◌∙◌, inl, inr, Bool, false, some, arith, List, [], ◌∷◌, ◌++◌, All,
  All-append, ◌==◌, Bool-cases, ==_iff,
}
use box_fraise_server.Table.{update}
use box_fraise_server.Table.Laws.{changed}
use box_fraise_server.Table.Distinct.{
  Distinct-insert, Distinct-update, All-of_exists, All-update, All-map,
}
use box_fraise_server.Table.Counting.{exists-append, count-update, sum-update, count-none, sum-none}
use box_fraise_server.Adverts.Types.{Advert, AdOpen, Db, closed_status}
use box_fraise_server.Adverts.Opening.{IsInserted, IsFresh}
use box_fraise_server.Adverts.Books.{
  IsSane, of_advert, IsBacked, same_id, same_receipt, IsKnown, IsBalanced, same_id_symm,
  update-IsKnown, update-Distinct,
}

-- A new advert keeps the books balanced: nobody can have opened it.
pub inserted-IsBalanced :
    (now id : ℕ) (db t : Db) (made : IsInserted now id db t)
    → IsBalanced db.adverts db.ad_opens
    → IsBalanced (db.adverts ++ made.advert ∷ []) db.ad_opens
inserted-IsBalanced now id db t made h =
    let a = made.advert in
    record {
      distinct =
          Distinct-insert same_id db.adverts a (λ b. same_id_symm b a) h.distinct
            (rw made.has_id (All-of_exists (λ b. b.id == id) db.adverts made.free));
      sane = All-append IsSane db.adverts (a ∷ []) h.sane (fresh-IsSane a made.fresh, tt);
      backed = All-append (IsBacked db.ad_opens) db.adverts (a ∷ []) h.backed (
        fresh-IsBacked a made.fresh (
            rw made.has_id (
              All-map (IsKnown db.adverts) (λ o. of_advert id o ≡ false) db.ad_opens unknown
                h.known)),
        tt,
      );
      known =
          All-map (IsKnown db.adverts) (IsKnown (db.adverts ++ a ∷ [])) db.ad_opens
            (λ o k. rw (exists-append (λ b. b.id == o.advert_id) db.adverts (a ∷ []), k)) h.known;
      once = h.once;
    }
  where
    fresh-IsSane : (a : Advert) → IsFresh now a → IsSane a
    fresh-IsSane a f = ground arith

    unknown : (o : AdOpen) → IsKnown db.adverts o → of_advert id o ≡ false
    unknown o k = elim (Bool-cases (of_advert id o)) [
      | inr e ↦ e
      | inl e ↦ cc (made.free, rw ((==_iff o.advert_id id).0 e) at k)
    ]

    fresh-IsBacked :
        (a : Advert)
        → IsFresh now a
        → All (λ o. of_advert a.id o ≡ false) db.ad_opens
        → IsBacked db.ad_opens a
    fresh-IsBacked a f none_of = record {
      counted = count-none (of_advert a.id) db.ad_opens none_of ∙ sym f.unspent.0;
      summed =
          sum-none (of_advert a.id) (λ o. o.amount_cents) db.ad_opens none_of
          ∙ rw f.unspent.0 (omega arith);
    }

-- Closing an advert and paying receipts leave all that the books are about.
pub closed-IsBalanced :
    (id : ℕ) (adverts : List Advert) (opens : List AdOpen)
    → IsBalanced adverts opens
    → IsBalanced (update (λ a. a.id == id) (λ a. record a { status = closed_status }) adverts) opens
closed-IsBalanced id adverts opens h =
    let w = λ (a : Advert). a.id == id in
    let shut = λ (a : Advert). record a { status = closed_status } in
    record {
      distinct = update-Distinct w shut keeps adverts h.distinct;
      sane = All-update IsSane IsSane w shut adverts still_sane h.sane;
      backed = All-update (IsBacked opens) (IsBacked opens) w shut adverts still_backed h.backed;
      known = update-IsKnown w shut keeps adverts opens h.known;
      once = h.once;
    }
  where
    keeps :
        (a : Advert)
        → (changed (λ b. b.id == id) (λ b. record b { status = closed_status }) a).id ≡ a.id
    keeps a = ground arith

    still_sane :
        (a : Advert)
        → IsSane a
        → IsSane (changed (λ b. b.id == id) (λ b. record b { status = closed_status }) a)
    still_sane a k = ground arith

    still_backed :
        (a : Advert)
        → IsBacked opens a
        → IsBacked opens (changed (λ b. b.id == id) (λ b. record b { status = closed_status }) a)
    still_backed a k = elim (Bool-cases (a.id == id)) [
      | inl e ↦ rw e (record { counted = k.counted; summed = k.summed })
      | inr e ↦ rw e k
    ]

module _ (w : AdOpen → Bool) (now : ℕ) where
  abbrev settle : AdOpen → AdOpen
  settle o = record o { paid_at = some now }

  settled-key :
      (o : AdOpen)
      → ((changed w settle o).id ≡ o.id)
        × ((changed w settle o).advert_id ≡ o.advert_id)
        × ((changed w settle o).runner_id ≡ o.runner_id)
        × ((changed w settle o).amount_cents ≡ o.amount_cents)
  settled-key o = elim (Bool-cases (w o)) [
    | inl e ↦ rw e (refl, refl, refl, refl)
    | inr e ↦ rw e (refl, refl, refl, refl)
  ]

  settled-receipt :
      (o r : AdOpen) → same_receipt (changed w settle o) (changed w settle r) ≡ same_receipt o r
  settled-receipt o r =
      let (i, a, u, _) = settled-key o in let (j, b, v, _) = settled-key r in rw (i, a, u, j, b, v)

  pub paid-IsBalanced :
      (adverts : List Advert) (opens : List AdOpen)
      → IsBalanced adverts opens
      → IsBalanced adverts (update w settle opens)
  paid-IsBalanced adverts opens h = record {
    distinct = h.distinct;
    sane = h.sane;
    backed =
        All-map (IsBacked opens) (IsBacked (update w settle opens)) adverts still_backed h.backed;
    known = All-update (IsKnown adverts) (IsKnown adverts) w settle opens still_known h.known;
    once = Distinct-update same_receipt w settle opens settled-receipt h.once;
  }
    where
      still_known : (o : AdOpen) → IsKnown adverts o → IsKnown adverts (changed w settle o)
      still_known o k = rw (settled-key o).1 k

      still_backed : (a : Advert) → IsBacked opens a → IsBacked (update w settle opens) a
      still_backed a k = record {
        counted =
            count-update (of_advert a.id) w settle (λ o. ap (λ i. i == a.id) (settled-key o).1)
              opens
            ∙ k.counted;
        summed =
            sum-update (of_advert a.id) (λ o. o.amount_cents) w settle
              (λ o. ap (λ i. i == a.id) (settled-key o).1) (λ o. (settled-key o).3) opens
            ∙ k.summed;
      }
