-- ===== src/Table/Totals.antt =====
-- SUM over the rows of a SELECT, in whatever order, and over two WHERE clauses.
use box_fraise_server.Prelude.{
  ℕ, ◌+◌, ◌≡◌, refl, ap, ◌∙◌, Bool, true, false, ◌||◌, List, [], ◌∷◌, map, arith, ltb, inl, inr,
  Bool-cases,
}
use box_fraise_server.Table.{select, count, sum, order_desc, insert_desc}

-- The sum over all rows.
abbrev pub whole {ℓ} : {R : Type ℓ} → (R → ℕ) → List R → ℕ
whole f = sum (λ _. true) f

module _ {ℓ} {R : Type ℓ} where
  pub sum-map :
      {S : Type 0} (f : S → ℕ) (g : R → S) (rs : List R)
      → whole f (map g rs) ≡ whole (λ r. f (g r)) rs
  unfolding sum
  sum-map f g [] = refl
  sum-map f g (r ∷ rs) = ap (λ n. f (g r) + n) (sum-map f g rs)

  pub sum-select : (p : R → Bool) (f : R → ℕ) (rs : List R) → whole f (select p rs) ≡ sum p f rs
  unfolding sum select
  sum-select p f [] = refl
  sum-select p f (r ∷ rs) =
      let rest = sum-select p f rs in
      elim (Bool-cases (p r)) [
        | inl e ↦ rw e (ap (λ n. f r + n) rest)
        | inr e ↦ rw e (omega (arith, rest))
      ]

  sum-insert_desc :
      (key f : R → ℕ) (r : R) (rs : List R) → whole f (insert_desc key r rs) ≡ f r + whole f rs
  unfolding sum insert_desc
  sum-insert_desc key f r [] = refl
  sum-insert_desc key f r (s ∷ rs) = elim (Bool-cases (ltb (key r) (key s))) [
    | inl e ↦ rw e (omega (arith, sum-insert_desc key f r rs))
    | inr e ↦ rw e refl
  ]

  pub sum-order_desc : (key f : R → ℕ) (rs : List R) → whole f (order_desc key rs) ≡ whole f rs
  unfolding sum order_desc
  sum-order_desc key f [] = refl
  sum-order_desc key f (r ∷ rs) =
      sum-insert_desc key f r (order_desc key rs) ∙ ap (λ n. f r + n) (sum-order_desc key f rs)

  pub sum-or :
      (p q : R → Bool) (f : R → ℕ) (rs : List R)
      → ((r : R) → p r ≡ true → q r ≡ false)
      → sum (λ r. p r || q r) f rs ≡ sum p f rs + sum q f rs
  unfolding sum
  sum-or p q f [] k = refl
  sum-or p q f (r ∷ rs) k =
      let rest = sum-or p q f rs k in
      elim (Bool-cases (p r)) [
        | inl e ↦ rw (e, k r e) (omega (arith, rest))
        | inr e ↦ rw e (omega (arith, rest))
      ]

  pub count-sum : (p : R → Bool) (rs : List R) → count p rs ≡ sum p (λ _. 1) rs
  unfolding sum count
  count-sum p [] = refl
  count-sum p (r ∷ rs) = rw (count-sum p rs)

  pub sum-never : (f : R → ℕ) (rs : List R) → sum (λ _. false) f rs ≡ 0
  unfolding sum
  sum-never f [] = refl
  sum-never f (r ∷ rs) = omega (arith, sum-never f rs)
