-- ===== src/Table/Distinct.antt =====
-- A PRIMARY KEY or a UNIQUE index: no two rows of a table agree in `same`.
use box_fraise_server.Prelude.{
  ◌≡◌, sym, ◌∙◌, Bool, true, false, some, List, [], ◌∷◌, ◌++◌, arith, All, All-append, inl, inr,
  Bool-cases,
}
use mathlib.Core.Option
use box_fraise_server.Table.{find, exists, update}
use box_fraise_server.Table.Laws.{changed, All-find}

module _ {ℓ} {R : Type ℓ} where
  pub All-of_exists : (p : R → Bool) (rs : List R) → exists p rs ≡ false → All (λ r. p r ≡ false) rs
  unfolding exists
  All-of_exists p [] h = tt
  All-of_exists p (r ∷ rs) h = (ground arith, All-of_exists p rs (ground arith))

  pub All-update {κ} :
      (P Q : R → Type κ) (p : R → Bool) (f : R → R) (rs : List R)
      → ((r : R) → P r → Q (changed p f r))
      → All P rs
      → All Q (update p f rs)
  unfolding update
  All-update P Q p f [] k a = tt
  All-update P Q p f (r ∷ rs) k a = (k r a.0, All-update P Q p f rs k a.1)

  pub All-map {κ μ} :
      (P : R → Type κ) (Q : R → Type μ) (rs : List R) → ((r : R) → P r → Q r) → All P rs → All Q rs
  All-map P Q [] k a = tt
  All-map P Q (r ∷ rs) k a = (k r a.0, All-map P Q rs k a.1)

  pub All-both {κ μ} :
      (P : R → Type κ) (Q : R → Type μ) (rs : List R)
      → All P rs
      → All Q rs
      → All (λ r. P r × Q r) rs
  All-both P Q [] a b = tt
  All-both P Q (r ∷ rs) a b = ((a.0, b.0), All-both P Q rs a.1 b.1)

module _ {ℓ} {R : Type ℓ} (same : R → R → Bool) where
  abbrev pub Distinct : List R → Type ℓ
  Distinct [] = Unit
  Distinct (r ∷ rs) = All (λ q. same q r ≡ false) rs × Distinct rs

  -- An INSERT that finds no conflict.
  pub Distinct-insert :
      (rs : List R) (r : R)
      → ((q : R) → same q r ≡ same r q)
      → Distinct rs
      → All (λ q. same q r ≡ false) rs
      → Distinct (rs ++ r ∷ [])
  Distinct-insert [] r symmetric d a = (tt, tt)
  Distinct-insert (q ∷ rs) r symmetric d a = (
    All-append (λ x. same x q ≡ false) rs (r ∷ []) d.0 (sym (symmetric q) ∙ a.0, tt),
    Distinct-insert rs r symmetric d.1 a.1,
  )

  -- An UPDATE that leaves the key alone.
  pub Distinct-update :
      (p : R → Bool) (f : R → R) (rs : List R)
      → ((a b : R) → same (changed p f a) (changed p f b) ≡ same a b)
      → Distinct rs
      → Distinct (update p f rs)
  unfolding update
  Distinct-update p f [] k d = tt
  Distinct-update p f (r ∷ rs) k d = (
    All-update (λ q. same q r ≡ false) (λ q. same q (changed p f r) ≡ false) p f rs
        (λ q h. k q r ∙ h) d.0,
    Distinct-update p f rs k d.1,
  )

  -- The row that a SELECT by key finds is the only one that its WHERE clause accepts.
  pub All-of_find :
      (p : R → Bool) (rs : List R) {r : R}
      → ((a b : R) → p a ≡ true → p b ≡ true → same a b ≡ true)
      → Distinct rs
      → find p rs ≡ some r
      → All (λ q. p q ≡ true → q ≡ r) rs
  unfolding find
  All-of_find p [] key d e = tt
  All-of_find p (x ∷ rs) {r} key d e = elim (Bool-cases (p x)) [
    | inl hit ↦ (
      λ _. Option.some-injective x r (rw hit at e),
      All-map (λ q. same q x ≡ false) (λ q. p q ≡ true → q ≡ r) rs
          (λ q apart found. cc (apart, key q x found hit)) d.0,
    )
    | inr miss ↦ (λ found. cc (miss, found), All-of_find p rs key d.1 (rw miss at e))
  ]

  -- The row that a SELECT finds is the only one with its key.
  pub All-same_of_find :
      (p : R → Bool) (rs : List R) {r : R}
      → ((a b : R) → same a b ≡ same b a)
      → Distinct rs
      → find p rs ≡ some r
      → All (λ q. same q r ≡ true → q ≡ r) rs
  unfolding find
  All-same_of_find p [] symmetric d e = tt
  All-same_of_find p (x ∷ rs) {r} symmetric d e = elim (Bool-cases (p x)) [
    | inl hit ↦
        let here : x ≡ r = Option.some-injective x r (rw hit at e) in
        (
          λ _. here,
          All-map (λ q. same q x ≡ false) (λ q. same q r ≡ true → q ≡ r) rs
              (λ q apart k. cc (apart, here, k)) d.0,
        )
    | inr miss ↦
        let there = rw miss at e in
        let apart = (All-find (λ q. same q x ≡ false) p rs d.0 there).0 in
        (λ k. cc (k, symmetric x r, apart), All-same_of_find p rs symmetric d.1 there)
  ]
