-- ===== src/Adverts/Books.antt =====
-- The books of src/domain/adverts: the counters, prices and budgets of adverts against receipts.
pub mod Charge
pub mod Change
pub mod Balance
use box_fraise_server.Prelude.{
  ℕ, ◌+◌, ◌*◌, ◌≡◌, ◌≤◌, ◌<◌, refl, sym, ap, subst, ◌∙◌, inl, inr, Bool, true, false, ◌&&◌, ◌||◌,
  Option, none, some, arith, List, [], ◌∷◌, ◌++◌, All, All-append, ◌==◌, Bool-cases, if◌then◌else◌,
  ==_iff,
}
use box_fraise_server.Prelude.Text.{Text}
use box_fraise_server.Server.{Env}
use box_fraise_server.Table.{exists, count, sum, update}
use box_fraise_server.Table.Laws.{changed, All-find}
use box_fraise_server.Table.Distinct.{
  Distinct, Distinct-insert, Distinct-update, All-of_exists, All-update, All-map, All-same_of_find,
}
use box_fraise_server.Table.Search.{exists-update_of_find, find-accepts}
use box_fraise_server.Table.Counting.{
  exists-append, count-append, sum-append, exists-update, count-update, sum-update, count-none,
  sum-none,
}
use box_fraise_server.Adverts.Types.{Advert, AdOpen, Db, closed_status}
use box_fraise_server.Adverts.Repository.{
  Locale, can_take, has_budget, new_open, is_receipt, is_due,
}
use box_fraise_server.Adverts.Trace.{Request, serve, run}
use box_fraise_server.Adverts.Opening.{CanOpen, charged, IsInserted, IsFresh}
use box_fraise_server.Adverts.Cases.{serve-cases}

-- The CHECK constraints of `adverts` on numbers.
pub record IsSane (a : Advert) : Type 0 where
  pub pays : (0 < a.pays_cents) × (a.pays_cents ≤ 10000)
  pub price : a.pays_cents ≤ a.price_cents
  pub budget : a.opens_taken ≤ a.opens_paid

abbrev pub of_advert : ℕ → AdOpen → Bool
of_advert id o = o.advert_id == id

pub record IsBacked (opens : List AdOpen) (a : Advert) : Type 0 where
  pub counted : count (of_advert a.id) opens ≡ a.opens_taken
  pub summed : sum (of_advert a.id) (λ o. o.amount_cents) opens ≡ a.pays_cents * a.opens_taken

abbrev pub same_id : Advert → Advert → Bool
same_id a b = a.id == b.id

-- Receipts that the primary key or `ad_opens_once` would refuse side by side.
abbrev pub same_receipt : AdOpen → AdOpen → Bool
same_receipt o r = o.id == r.id || is_receipt r.advert_id r.runner_id o

abbrev pub IsKnown : List Advert → AdOpen → Type 0
IsKnown adverts o = exists (λ a. a.id == o.advert_id) adverts ≡ true

pub record IsBalanced (adverts : List Advert) (opens : List AdOpen) : Type 0 where
  pub distinct : Distinct same_id adverts
  pub sane : All IsSane adverts
  pub backed : All (IsBacked opens) adverts
  pub known : All (IsKnown adverts) opens
  pub once : Distinct same_receipt opens

pub same_id_symm : (a b : Advert) → same_id a b ≡ same_id b a
same_id_symm a b = ground arith

pub same_receipt_symm : (o r : AdOpen) → same_receipt o r ≡ same_receipt r o
same_receipt_symm o r = ground arith

-- An update of `adverts` that keeps ids keeps the keys and the foreign keys.
module _ (w : Advert → Bool) (f : Advert → Advert)
    (keeps : (a : Advert) → (changed w f a).id ≡ a.id) where
  pub update-IsKnown :
      (adverts : List Advert) (opens : List AdOpen)
      → All (IsKnown adverts) opens
      → All (IsKnown (update w f adverts)) opens
  update-IsKnown adverts opens =
      All-map (IsKnown adverts) (IsKnown (update w f adverts)) opens (λ o h.
        exists-update (λ a. a.id == o.advert_id) w f (λ a. ap (λ i. i == o.advert_id) (keeps a))
          adverts
        ∙ h)

  pub update-Distinct :
      (adverts : List Advert) → Distinct same_id adverts → Distinct same_id (update w f adverts)
  update-Distinct adverts = Distinct-update same_id w f adverts (λ a b. rw (keeps a, keeps b))
