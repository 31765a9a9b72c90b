-- ===== src/Table/Laws.antt =====
-- What the statements of a table do to rows of which every row has been changed by a function `f`
-- that the WHERE clause does not see.
use mathlib.Core.Option
use box_fraise_server.Prelude.{
  ℕ, ◌≡◌, refl, ap₂, subst, Bool, true, List, [], ◌∷◌, ◌++◌, map, arith, All, inl, inr, some,
  Bool-cases, if◌then◌else◌,
}
use box_fraise_server.Table.{find, select, exists, count, update, order_desc, insert_desc}

module _ {ℓ} {R : Type ℓ} (p : R → Bool) (f : R → R) (blind : (r : R) → p (f r) ≡ p r) where
  pub find-map : (rs : List R) → find p (map f rs) ≡ Option.map f (find p rs)
  unfolding find
  find-map [] = refl
  find-map (r ∷ rs) = ground (arith, blind r, find-map rs)

  pub exists-map : (rs : List R) → exists p (map f rs) ≡ exists p rs
  unfolding exists
  exists-map [] = refl
  exists-map (r ∷ rs) = ground (arith, blind r, exists-map rs)

  pub count-map : (rs : List R) → count p (map f rs) ≡ count p rs
  unfolding count
  count-map [] = refl
  count-map (r ∷ rs) = ground (arith, blind r, count-map rs)

  pub select-map : (rs : List R) → select p (map f rs) ≡ map f (select p rs)
  unfolding select
  select-map [] = refl
  select-map (r ∷ rs) = ground (arith, blind r, select-map rs)

  -- An update that writes what `f` hides anyway.
  pub update-map :
      (g : R → R)
      → ((r : R) → f (f r) ≡ f r)
      → ((r : R) → f (g (f r)) ≡ f (g r))
      → (rs : List R) → map f (update p g (map f rs)) ≡ map f (update p g rs)
  unfolding update
  update-map g idem hides [] = refl
  update-map g idem hides (r ∷ rs) =
      ground (arith, blind r, idem r, hides r, update-map g idem hides rs)

module _ {ℓ} {R : Type ℓ} (key : R → ℕ) (f : R → R) (blind : (r : R) → key (f r) ≡ key r) where
  insert_desc-map :
      (r : R) (rs : List R) → insert_desc key (f r) (map f rs) ≡ map f (insert_desc key r rs)
  unfolding insert_desc
  insert_desc-map r [] = refl
  insert_desc-map r (s ∷ rs) = ground (arith, blind r, blind s, insert_desc-map r rs)

  pub order_desc-map : (rs : List R) → order_desc key (map f rs) ≡ map f (order_desc key rs)
  unfolding order_desc
  order_desc-map [] = refl
  order_desc-map (r ∷ rs) = rw (order_desc-map rs) (insert_desc-map r (order_desc key rs))

module _ {ℓ} {R : Type ℓ} (f : R → R) (idem : (r : R) → f (f r) ≡ f r) where
  pub map_idem : (rs : List R) → map f (map f rs) ≡ map f rs
  map_idem [] = refl
  map_idem (r ∷ rs) = ground (arith, idem r, map_idem rs)

  pub map-append_masked : (rs ss : List R) → map f (map f rs ++ ss) ≡ map f (rs ++ ss)
  map-append_masked [] ss = refl
  map-append_masked (r ∷ rs) ss = ground (arith, idem r, map-append_masked rs ss)

module _ {ℓ} {R : Type ℓ} where
  -- What one UPDATE does to a row.
  abbrev pub changed : (R → Bool) → (R → R) → R → R
  changed p f r = if p r then f r else r

  -- Two updates in turn of which an observer `f` sees nothing.
  pub update-update_hidden :
      {S : Type ℓ} (f : R → S) (p q : R → Bool) (g h : R → R) (rs : List R)
      → All (λ r. f (changed q h (changed p g r)) ≡ f r) rs
      → map f (update q h (update p g rs)) ≡ map f rs
  unfolding update
  update-update_hidden f p q g h [] a = refl
  update-update_hidden f p q g h (r ∷ rs) a = ap₂ ◌∷◌ a.0 (update-update_hidden f p q g h rs a.1)

  pub All-find {κ} :
      (P : R → Type κ) (p : R → Bool) (rs : List R) {r : R}
      → All P rs
      → find p rs ≡ some r
      → P r × (p r ≡ true)
  unfolding find
  All-find P p [] a e = cc
  All-find P p (x ∷ rs) {r} a e = elim (Bool-cases (p x)) [
    | inl hit ↦
        let same : x ≡ r = Option.some-injective x r (rw hit at e) in
        (subst P same a.0, subst (λ y. p y ≡ true) same hit)
    | inr miss ↦ All-find P p rs a.1 (rw miss at e)
  ]
