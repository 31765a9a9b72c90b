-- ===== src/Adverts/Books/Charge.antt =====
-- The books of src/domain/adverts under an open that is charged.
use box_fraise_server.Prelude.{
  ℕ, ◌+◌, ◌≡◌, sym, ap, subst, ◌∙◌, inl, inr, true, false, ◌||◌, arith, List, [], ◌∷◌, ◌++◌,
  All-append, ◌==◌, Bool-cases, if◌then◌else◌,
}
use box_fraise_server.Table.{count, sum, update}
use box_fraise_server.Table.Laws.{changed}
use box_fraise_server.Table.Distinct.{
  Distinct-insert, All-of_exists, All-update, All-both, All-same_of_find,
}
use box_fraise_server.Table.Search.{exists-update_of_find, find-accepts}
use box_fraise_server.Table.Counting.{count-append, sum-append}
use box_fraise_server.Adverts.Types.{Advert, AdOpen, Db}
use box_fraise_server.Adverts.Repository.{Locale, can_take, new_open, is_receipt}
use box_fraise_server.Adverts.Opening.{CanOpen, charged}
use box_fraise_server.Adverts.Books.{
  IsSane, of_advert, IsBacked, same_id, same_receipt, IsKnown, IsBalanced, same_id_symm,
  same_receipt_symm, update-IsKnown, update-Distinct,
}

module _ (now runner advert id : ℕ) (a : Advert) (found : can_take advert a ≡ true) where
  abbrev take : Advert → Advert
  take b = changed (can_take advert) (λ x. record x { opens_taken = x.opens_taken + 1 }) b

  abbrev receipt : AdOpen
  receipt = new_open now id advert runner a.pays_cents

  take-id : (b : Advert) → (take b).id ≡ b.id
  take-id b = ground arith

  take-IsSane : (b : Advert) → IsSane b → IsSane (take b)
  take-IsSane b h = ground arith

  -- The receipt is counted for its advert, and for no other.
  count-receipt :
      (i : ℕ) (opens : List AdOpen)
      → count (of_advert i) (opens ++ receipt ∷ [])
        ≡ count (of_advert i) opens + (if advert == i then 1 else 0)
  unfolding count
  count-receipt i opens = omega (arith, count-append (of_advert i) opens (receipt ∷ []))

  sum-receipt :
      (i : ℕ) (opens : List AdOpen)
      → sum (of_advert i) (λ o. o.amount_cents) (opens ++ receipt ∷ [])
        ≡ sum (of_advert i) (λ o. o.amount_cents) opens + (if advert == i then a.pays_cents else 0)
  unfolding sum
  sum-receipt i opens =
      omega (arith, sum-append (of_advert i) (λ o. o.amount_cents) opens (receipt ∷ []))

  take-other : (b : Advert) → (advert == b.id) ≡ false → take b ≡ b
  take-other b h = ground arith

  take-IsBacked_this :
      (opens : List AdOpen) → IsBacked opens a → IsBacked (opens ++ receipt ∷ []) (take a)
  take-IsBacked_this opens h =
      let this : (advert == a.id) ≡ true = ground arith in
      let counted = h.counted in
      let summed = h.summed in
      rw found (record {
        counted = rw this at (count-receipt a.id opens) ∙ ap (λ n. n + 1) counted;
        summed =
            rw this at (sum-receipt a.id opens) ∙ ap (λ n. n + a.pays_cents) summed ∙ omega arith;
      })

  take-IsBacked :
      (opens : List AdOpen) (b : Advert)
      → IsBacked opens b × (same_id b a ≡ true → b ≡ a)
      → IsBacked (opens ++ receipt ∷ []) (take b)
  take-IsBacked opens b (h, only) = elim (Bool-cases (advert == b.id)) [
    | inl e ↦
        let same = only (ground arith) in
        subst (λ x. IsBacked (opens ++ receipt ∷ []) (take x)) (sym same)
          (take-IsBacked_this opens (subst (IsBacked opens) same h))
    | inr e ↦ rw (take-other b e) (record {
      counted = (rw e at (count-receipt b.id opens)) ∙ omega arith ∙ h.counted;
      summed = (rw e at (sum-receipt b.id opens)) ∙ omega arith ∙ h.summed;
    })
  ]

pub charged-IsBalanced :
    (locale : Locale) (now runner advert id : ℕ) (db : Db) (a : Advert)
    → CanOpen locale now runner advert id db a
    → IsBalanced db.adverts db.ad_opens
    → let t = charged now runner advert id a db in IsBalanced t.adverts t.ad_opens
charged-IsBalanced locale now runner advert id db a can h =
    let hit = find-accepts (can_take advert) db.adverts can.found in
    let new = new_open now id advert runner a.pays_cents in
    let up = λ (b : Advert). record b { opens_taken = b.opens_taken + 1 } in
    let keeps = take-id now runner advert id a hit in
    record {
      distinct = update-Distinct (can_take advert) up keeps db.adverts h.distinct;
      sane =
          All-update IsSane IsSane (can_take advert) up db.adverts
            (take-IsSane now runner advert id a hit) h.sane;
      backed =
          All-update (λ b. IsBacked db.ad_opens b × (same_id b a ≡ true → b ≡ a))
            (IsBacked (db.ad_opens ++ new ∷ [])) (can_take advert) up db.adverts
            (take-IsBacked now runner advert id a hit db.ad_opens)
            (All-both _ _ db.adverts h.backed (
              All-same_of_find same_id (can_take advert) db.adverts same_id_symm h.distinct
                can.found));
      known =
          All-append (IsKnown (update (can_take advert) up db.adverts)) db.ad_opens (new ∷ [])
            (update-IsKnown (can_take advert) up keeps db.adverts db.ad_opens h.known)
            (
              exists-update_of_find (can_take advert) (λ b. b.id == advert) (can_take advert) up
                  db.adverts can.found (taken_id hit),
              tt,
            );
      once =
          Distinct-insert same_receipt db.ad_opens new (λ o. same_receipt_symm o new) h.once
            (All-of_exists (λ o. o.id == id || is_receipt advert runner o) db.ad_opens can.first);
    }
  where
    taken_id :
        can_take advert a ≡ true
        → ((changed (can_take advert) (λ b. record b { opens_taken = b.opens_taken + 1 }) a).id
            == advert)
          ≡ true
    taken_id hit = ground arith
