-- ===== src/Table/Holding.antt =====
-- A row that a table holds is held by what WHERE, ORDER BY and a SELECT list make of the table.
use box_fraise_server.Prelude.{
  ℕ, ◌≡◌, refl, ap, Bool, true, List, [], ◌∷◌, ◌++◌, map, ltb, inl, inr, Bool-cases,
}
use box_fraise_server.Table.{select, order_asc, insert_asc}

module _ {ℓ} {R : Type ℓ} where
  -- The row stands somewhere in the table.
  abbrev pub Holds : R → List R → Type ℓ
  Holds r rs = (before : List R) × (after : List R) × (rs ≡ before ++ r ∷ after)

  pub Holds-last : (r : R) (rs : List R) → Holds r (rs ++ r ∷ [])
  Holds-last r rs = (rs, [], refl)

  Holds-cons : (r x : R) (rs : List R) → Holds r rs → Holds r (x ∷ rs)
  Holds-cons r x rs (before, after, e) = (x ∷ before, after, ap (λ l. x ∷ l) e)

  pub select-Holds :
      (p : R → Bool) (r : R) (before after : List R)
      → p r ≡ true
      → Holds r (select p (before ++ r ∷ after))
  unfolding select
  select-Holds p r [] after h = rw h ([], select p after, refl)
  select-Holds p r (x ∷ before) after h = elim (Bool-cases (p x)) [
    | inl e ↦ rw e (Holds-cons r x _ (select-Holds p r before after h))
    | inr e ↦ rw e (select-Holds p r before after h)
  ]

  insert_asc-Holds_new : (key : R → ℕ) (r : R) (rs : List R) → Holds r (insert_asc key r rs)
  unfolding insert_asc
  insert_asc-Holds_new key r [] = ([], [], refl)
  insert_asc-Holds_new key r (x ∷ rs) = elim (Bool-cases (ltb (key x) (key r))) [
    | inl e ↦ rw e (Holds-cons r x _ (insert_asc-Holds_new key r rs))
    | inr e ↦ rw e ([], x ∷ rs, refl)
  ]

  insert_asc-Holds :
      (key : R → ℕ) (r y : R) (before after : List R)
      → Holds r (insert_asc key y (before ++ r ∷ after))
  unfolding insert_asc
  insert_asc-Holds key r y [] after = elim (Bool-cases (ltb (key r) (key y))) [
    | inl e ↦ rw e ([], insert_asc key y after, refl)
    | inr e ↦ rw e (y ∷ [], after, refl)
  ]
  insert_asc-Holds key r y (x ∷ before) after = elim (Bool-cases (ltb (key x) (key y))) [
    | inl e ↦ rw e (Holds-cons r x _ (insert_asc-Holds key r y before after))
    | inr e ↦ rw e (y ∷ x ∷ before, after, refl)
  ]

  pub order_asc-Holds :
      (key : R → ℕ) (r : R) (before after : List R) → Holds r (order_asc key (before ++ r ∷ after))
  unfolding order_asc
  order_asc-Holds key r [] after = insert_asc-Holds_new key r (order_asc key after)
  order_asc-Holds key r (x ∷ before) after =
      let (front, back, e) = order_asc-Holds key r before after in
      rw e (insert_asc-Holds key r x front back)

pub map-Holds :
    {R S : Type 0} (f : R → S) (r : R) (before after : List R)
    → Holds (f r) (map f (before ++ r ∷ after))
map-Holds f r [] after = ([], map f after, refl)
map-Holds f r (x ∷ before) after =
    let (front, back, e) = map-Holds f r before after in (f x ∷ front, back, ap (λ l. f x ∷ l) e)
