-- ===== src/Adverts/Receipts.antt =====
-- The receipts of src/domain/adverts by business.
use box_fraise_server.Prelude.{
  ℕ, ◌*◌, ◌+◌, ◌≡◌, refl, sym, ap₂, ◌∙◌, Bool, true, false, ◌&&◌, if◌then◌else◌, Bool-cases, inl,
  inr, arith, List, [], ◌∷◌, All, ◌==◌,
}
use box_fraise_server.Table.{exists, count, sum}
use box_fraise_server.Table.Totals.{sum-or, count-sum, sum-never}
use box_fraise_server.Table.Distinct.{Distinct, All-map}
use box_fraise_server.Adverts.Types.{Advert, AdOpen, Db}
use box_fraise_server.Adverts.Books.{IsBacked, IsBalanced, of_advert, same_id}

-- The adverts of a business, and the receipts for them.
abbrev pub of_business : ℕ → Advert → Bool
of_business advertiser a = a.advertiser_id == advertiser

abbrev pub business_receipt : ℕ → List Advert → AdOpen → Bool
business_receipt advertiser adverts o =
    exists (λ a. of_business advertiser a && (o.advert_id == a.id)) adverts

-- No other advert has the id of a receipt's.
elsewhere :
    (advertiser : ℕ) (a : Advert) (adverts : List Advert) (o : AdOpen)
    → All (λ b. same_id b a ≡ false) adverts
    → (of_business advertiser a && (o.advert_id == a.id)) ≡ true
    → business_receipt advertiser adverts o ≡ false
unfolding exists
elsewhere advertiser a [] o d h = refl
elsewhere advertiser a (b ∷ adverts) o d h =
    let rest = elsewhere advertiser a adverts o d.1 h in ground (arith, rest, d.0, h)

-- What each advert's receipts add up to, over the adverts of a business.
module _ (advertiser : ℕ) (f : AdOpen → ℕ) (g : Advert → ℕ) (opens : List AdOpen) where
  receipts-one :
      (a : Advert)
      → sum (of_advert a.id) f opens ≡ g a
      → sum (λ o. of_business advertiser a && (o.advert_id == a.id)) f opens
        ≡ (if of_business advertiser a then g a else 0)
  receipts-one a h = elim (Bool-cases (of_business advertiser a)) [
    | inl e ↦ rw e h
    | inr e ↦ rw e (sum-never f opens)
  ]

  receipts-sum :
      (adverts : List Advert)
      → Distinct same_id adverts
      → All (λ a. sum (of_advert a.id) f opens ≡ g a) adverts
      → sum (business_receipt advertiser adverts) f opens ≡ sum (of_business advertiser) g adverts
  unfolding sum exists
  receipts-sum [] d k = sum-never f opens
  receipts-sum (a ∷ adverts) d k =
      sum-or (λ o. of_business advertiser a && (o.advert_id == a.id))
        (business_receipt advertiser adverts) f opens (λ o. elsewhere advertiser a adverts o d.0)
      ∙ ap₂ ◌+◌ (receipts-one a k.0) (receipts-sum adverts d.1 k.1)

pub receipts-count :
    (advertiser : ℕ) (db : Db)
    → IsBalanced db.adverts db.ad_opens
    → count (business_receipt advertiser db.adverts) db.ad_opens
      ≡ sum (of_business advertiser) (λ a. a.opens_taken) db.adverts
receipts-count advertiser db w =
    count-sum (business_receipt advertiser db.adverts) db.ad_opens
    ∙ receipts-sum advertiser (λ _. 1) (λ a. a.opens_taken) db.ad_opens db.adverts w.distinct
        (All-map (IsBacked db.ad_opens)
          (λ a. sum (of_advert a.id) (λ _. 1) db.ad_opens ≡ a.opens_taken) db.adverts
          (λ a b. sym (count-sum (of_advert a.id) db.ad_opens) ∙ b.counted) w.backed)

pub receipts-amount :
    (advertiser : ℕ) (db : Db)
    → IsBalanced db.adverts db.ad_opens
    → sum (business_receipt advertiser db.adverts) (λ o. o.amount_cents) db.ad_opens
      ≡ sum (of_business advertiser) (λ a. a.pays_cents * a.opens_taken) db.adverts
receipts-amount advertiser db w =
    receipts-sum advertiser (λ o. o.amount_cents) (λ a. a.pays_cents * a.opens_taken) db.ad_opens
      db.adverts w.distinct
      (All-map (IsBacked db.ad_opens)
        (λ a. sum (of_advert a.id) (λ o. o.amount_cents) db.ad_opens ≡ a.pays_cents * a.opens_taken)
        db.adverts (λ a b. b.summed) w.backed)
