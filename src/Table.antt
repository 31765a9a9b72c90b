-- ===== src/Table.antt =====
-- SQL tables as lists of rows in order of insertion, and the statements that the repositories are
-- made of: a SELECT by key, a filtered SELECT, COUNT, SUM, UPDATE and DELETE with a WHERE clause,
-- and ORDER BY on a numeric column.
pub mod Laws
pub mod Distinct
pub mod Search
pub mod Counting
pub mod Keeping
pub mod Holding
pub mod Removal
pub mod Rows
pub mod Totals
use box_fraise_server.Prelude.{
  ℕ, zero, suc, ◌+◌, Bool, true, false, ◌||◌, Option, none, some, List, [], ◌∷◌, ltb, if◌then◌else◌,
}

module _ {ℓ} {R : Type ℓ} where
  -- `fetch_optional`: the first row that the WHERE clause accepts.
  unfoldable pub find : (R → Bool) → List R → Option R
  find p [] = none
  find p (r ∷ rs) = if p r then some r else find p rs

  unfoldable pub select : (R → Bool) → List R → List R
  select p [] = []
  select p (r ∷ rs) = if p r then r ∷ select p rs else select p rs

  unfoldable pub exists : (R → Bool) → List R → Bool
  exists p [] = false
  exists p (r ∷ rs) = p r || exists p rs

  unfoldable pub count : (R → Bool) → List R → ℕ
  count p [] = 0
  count p (r ∷ rs) = (if p r then 1 else 0) + count p rs

  -- SUM of a column over the rows that the FILTER accepts.
  unfoldable pub sum : (R → Bool) → (R → ℕ) → List R → ℕ
  sum p f [] = 0
  sum p f (r ∷ rs) = (if p r then f r else 0) + sum p f rs

  unfoldable pub update : (R → Bool) → (R → R) → List R → List R
  update p f [] = []
  update p f (r ∷ rs) = (if p r then f r else r) ∷ update p f rs

  unfoldable pub delete : (R → Bool) → List R → List R
  delete p [] = []
  delete p (r ∷ rs) = if p r then delete p rs else r ∷ delete p rs

  insert_desc : (R → ℕ) → R → List R → List R
  insert_desc key r [] = r ∷ []
  insert_desc key r (s ∷ rs) = if ltb (key r) (key s) then s ∷ insert_desc key r rs else r ∷ s ∷ rs

  -- ORDER BY key DESC; rows with equal keys, whose order SQL leaves open, stay in order.
  unfoldable pub order_desc : (R → ℕ) → List R → List R
  unfolding insert_desc
  order_desc key [] = []
  order_desc key (r ∷ rs) = insert_desc key r (order_desc key rs)

  insert_asc : (R → ℕ) → R → List R → List R
  insert_asc key r [] = r ∷ []
  insert_asc key r (s ∷ rs) = if ltb (key s) (key r) then s ∷ insert_asc key r rs else r ∷ s ∷ rs

  -- ORDER BY key ASC; rows with equal keys stay in order.
  unfoldable pub order_asc : (R → ℕ) → List R → List R
  unfolding insert_asc
  order_asc key [] = []
  order_asc key (r ∷ rs) = insert_asc key r (order_asc key rs)

  -- LIMIT
  abbrev pub limit : ℕ → List R → List R
  limit n [] = []
  limit zero (r ∷ rs) = []
  limit (suc n) (r ∷ rs) = r ∷ limit n rs

  -- LIMIT 1, fetched by `fetch_optional`.
  abbrev pub first : List R → Option R
  first [] = none
  first (r ∷ rs) = some r
