-- ===== src/Table/Counting.antt =====
-- COUNT, SUM and EXISTS after an INSERT at the end, or after an UPDATE.
use box_fraise_server.Prelude.{
  ℕ, ◌+◌, ◌≡◌, refl, Bool, false, ◌||◌, List, [], ◌∷◌, ◌++◌, arith, All,
}
use box_fraise_server.Table.{exists, count, sum, update}
use box_fraise_server.Table.Laws.{changed}

module _ {ℓ} {R : Type ℓ} (p : R → Bool) where
  pub exists-append : (rs ss : List R) → exists p (rs ++ ss) ≡ (exists p rs || exists p ss)
  unfolding exists
  exists-append [] ss = refl
  exists-append (r ∷ rs) ss = ground (arith, exists-append rs ss)

  pub count-append : (rs ss : List R) → count p (rs ++ ss) ≡ count p rs + count p ss
  unfolding count
  count-append [] ss = omega arith
  count-append (r ∷ rs) ss = omega (arith, count-append rs ss)

  pub sum-append : (f : R → ℕ) (rs ss : List R) → sum p f (rs ++ ss) ≡ sum p f rs + sum p f ss
  unfolding sum
  sum-append f [] ss = omega arith
  sum-append f (r ∷ rs) ss = omega (arith, sum-append f rs ss)

  pub exists-update :
      (w : R → Bool) (g : R → R)
      → ((r : R) → p (changed w g r) ≡ p r)
      → (rs : List R) → exists p (update w g rs) ≡ exists p rs
  unfolding exists update
  exists-update w g k [] = refl
  exists-update w g k (r ∷ rs) = rw (k r, exists-update w g k rs)

  pub count-update :
      (w : R → Bool) (g : R → R)
      → ((r : R) → p (changed w g r) ≡ p r)
      → (rs : List R) → count p (update w g rs) ≡ count p rs
  unfolding count update
  count-update w g k [] = refl
  count-update w g k (r ∷ rs) = rw (k r, count-update w g k rs)

  pub sum-update :
      (f : R → ℕ) (w : R → Bool) (g : R → R)
      → ((r : R) → p (changed w g r) ≡ p r)
      → ((r : R) → f (changed w g r) ≡ f r)
      → (rs : List R) → sum p f (update w g rs) ≡ sum p f rs
  unfolding sum update
  sum-update f w g k l [] = refl
  sum-update f w g k l (r ∷ rs) = rw (k r, l r, sum-update f w g k l rs)

  pub count-none : (rs : List R) → All (λ r. p r ≡ false) rs → count p rs ≡ 0
  unfolding count
  count-none [] a = refl
  count-none (r ∷ rs) a = rw (a.0, count-none rs a.1)

  pub sum-none : (f : R → ℕ) (rs : List R) → All (λ r. p r ≡ false) rs → sum p f rs ≡ 0
  unfolding sum
  sum-none f [] a = refl
  sum-none f (r ∷ rs) a = rw (a.0, sum-none f rs a.1)
