-- ===== src/Table/Keeping.antt =====
-- A predicate on the rows of a table, kept by WHERE and by ORDER BY.
use box_fraise_server.Prelude.{ℕ, Bool, List, [], ◌∷◌, All, ltb, inl, inr, Bool-cases}
use box_fraise_server.Table.{select, order_desc, insert_desc}

module _ {ℓ κ} {R : Type ℓ} (P : R → Type κ) where
  pub All-select : (p : R → Bool) (rs : List R) → All P rs → All P (select p rs)
  unfolding select
  All-select p [] a = tt
  All-select p (r ∷ rs) a = elim (Bool-cases (p r)) [
    | inl e ↦ rw e (a.0, All-select p rs a.1)
    | inr e ↦ rw e (All-select p rs a.1)
  ]

  All-insert_desc :
      (key : R → ℕ) (r : R) (rs : List R) → P r → All P rs → All P (insert_desc key r rs)
  unfolding insert_desc
  All-insert_desc key r [] h a = (h, tt)
  All-insert_desc key r (s ∷ rs) h a = elim (Bool-cases (ltb (key r) (key s))) [
    | inl e ↦ rw e (a.0, All-insert_desc key r rs h a.1)
    | inr e ↦ rw e (h, a)
  ]

  pub All-order_desc : (key : R → ℕ) (rs : List R) → All P rs → All P (order_desc key rs)
  unfolding order_desc
  All-order_desc key [] a = tt
  All-order_desc key (r ∷ rs) a =
      All-insert_desc key r (order_desc key rs) a.0 (All-order_desc key rs a.1)
