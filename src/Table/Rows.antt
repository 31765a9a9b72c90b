-- ===== src/Table/Rows.antt =====
-- A row that stands in a table, and what the statements see of it.
use mathlib.Core.List.{Memᴰ}
use mathlib.Core.List.Memᴰ
use box_fraise_server.Prelude.{
  ◌≡◌, refl, subst, sym, inl, inr, Bool, true, arith, List, [], ◌∷◌, All, Bool-cases,
}
use box_fraise_server.Table.{exists, select}

module _ {ℓ} {R : Type ℓ} where
  pub exists_of_row :
      (p : R → Bool) (rs : List R) {r : R} → Memᴰ r rs → p r ≡ true → exists p rs ≡ true
  unfolding exists
  exists_of_row p [] m h = absurd (Memᴰ.not-nil m)
  exists_of_row p (x ∷ rs) {r} (Memᴰ.head e) h =
      let here : p x ≡ true = subst (λ y. p y ≡ true) e h in ground (arith, here)
  exists_of_row p (x ∷ rs) (Memᴰ.tail m) h =
      let rest = exists_of_row p rs m h in ground (arith, rest)

  pub row_of_exists :
      (p : R → Bool) (rs : List R) → exists p rs ≡ true → (r : R) × Memᴰ r rs × (p r ≡ true)
  unfolding exists
  row_of_exists p [] h = cc h
  row_of_exists p (x ∷ rs) h = elim (Bool-cases (p x)) [
    | inl e ↦ (x, Memᴰ.head refl, e)
    | inr e ↦ let (r, m, k) = row_of_exists p rs (ground (arith, e, h)) in (r, Memᴰ.tail m, k)
  ]

  pub All-row {κ} : (P : R → Type κ) (rs : List R) {r : R} → All P rs → Memᴰ r rs → P r
  All-row P [] a m = absurd (Memᴰ.not-nil m)
  All-row P (x ∷ rs) a (Memᴰ.head e) = subst P (sym e) a.0
  All-row P (x ∷ rs) a (Memᴰ.tail m) = All-row P rs a.1 m

  -- What a SELECT returns has stood in the table, and its WHERE clause accepts it.
  pub row_of_select :
      (p : R → Bool) (rs : List R) {r : R} → Memᴰ r (select p rs) → Memᴰ r rs × (p r ≡ true)
  unfolding select
  row_of_select p [] m = absurd (Memᴰ.not-nil m)
  row_of_select p (x ∷ rs) {r} m = elim (Bool-cases (p x)) [
    | inl e ↦ elim (Memᴰ.cases_cons (rw e at m)) [
      | inl same ↦ (Memᴰ.head same, subst (λ y. p y ≡ true) (sym same) e)
      | inr more ↦ let (k, h) = row_of_select p rs more in (Memᴰ.tail k, h)
    ]
    | inr e ↦ let (k, h) = row_of_select p rs (rw e at m) in (Memᴰ.tail k, h)
  ]
