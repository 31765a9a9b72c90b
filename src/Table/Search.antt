-- ===== src/Table/Search.antt =====
-- What a SELECT by key finds after the other statements.
use mathlib.Core.Option
use box_fraise_server.Prelude.{
  ◌≡◌, refl, ap, subst, ◌∙◌, Bool, true, false, ◌||◌, some, List, [], ◌∷◌, ◌++◌, arith, inl, inr,
  Bool-cases,
}
use box_fraise_server.Table.{find, exists, update}
use box_fraise_server.Table.Laws.{changed}

module _ {ℓ} {R : Type ℓ} where
  pub find-update :
      (p w : R → Bool) (f : R → R) (rs : List R)
      → ((r : R) → p (changed w f r) ≡ p r)
      → find p (update w f rs) ≡ Option.map (changed w f) (find p rs)
  unfolding find update
  find-update p w f [] k = refl
  find-update p w f (r ∷ rs) k = elim (Bool-cases (p r)) [
    | inl e ↦ rw (k r, e)
    | inr e ↦ rw (k r, e) (find-update p w f rs k)
  ]

  pub find-append :
      (p : R → Bool) (rs ss : List R) {r : R} → find p rs ≡ some r → find p (rs ++ ss) ≡ some r
  unfolding find
  find-append p [] ss e = cc
  find-append p (x ∷ rs) ss {r} e = elim (Bool-cases (p x)) [
    | inl hit ↦ rw hit (rw hit at e)
    | inr miss ↦ rw miss (find-append p rs ss (rw miss at e))
  ]

  pub exists_of_find :
      (p : R → Bool) (rs : List R) {r : R} → find p rs ≡ some r → exists p rs ≡ true
  unfolding find exists
  exists_of_find p [] e = cc
  exists_of_find p (x ∷ rs) e = elim (Bool-cases (p x)) [
    | inl hit ↦ rw hit
    | inr miss ↦ rw miss (exists_of_find p rs (rw miss at e))
  ]

  -- The row that was found is still among the rows after an update, as the update leaves it.
  pub exists-update_of_find :
      (p q w : R → Bool) (f : R → R) (rs : List R) {r : R}
      → find p rs ≡ some r
      → q (changed w f r) ≡ true
      → exists q (update w f rs) ≡ true
  unfolding find exists update
  exists-update_of_find p q w f [] e h = cc
  exists-update_of_find p q w f (x ∷ rs) {r} e h = elim (Bool-cases (p x)) [
    | inl hit ↦ let same : x ≡ r = Option.some-injective x r (rw hit at e) in rw (same, h)
    | inr miss ↦
        rw (exists-update_of_find p q w f rs (rw miss at e) h) (or_true (q (changed w f x)))
  ]
    where
      or_true : (b : Bool) → (b || true) ≡ true
      or_true b = ground arith

  -- An UPDATE that finds nothing changes nothing.
  pub update-none :
      (w : R → Bool) (f : R → R) (rs : List R) → exists w rs ≡ false → update w f rs ≡ rs
  unfolding exists update
  update-none w f [] h = refl
  update-none w f (r ∷ rs) h = ground (arith, update-none w f rs)

  -- What a SELECT finds is a row that its WHERE clause accepts.
  pub find-accepts : (p : R → Bool) (rs : List R) {r : R} → find p rs ≡ some r → p r ≡ true
  unfolding find
  find-accepts p [] e = cc
  find-accepts p (x ∷ rs) {r} e = elim (Bool-cases (p x)) [
    | inl hit ↦ subst (λ y. p y ≡ true) (Option.some-injective x r (rw hit at e)) hit
    | inr miss ↦ find-accepts p rs (rw miss at e)
  ]

  -- A narrower WHERE clause that the row satisfies finds the same row.
  pub find-narrow :
      (p w : R → Bool) (rs : List R) {r : R}
      → ((q : R) → p q ≡ true → w q ≡ true)
      → find w rs ≡ some r
      → p r ≡ true
      → find p rs ≡ some r
  unfolding find
  find-narrow p w [] k e h = cc
  find-narrow p w (x ∷ rs) {r} k e h = elim (Bool-cases (w x)) [
    | inl hit ↦
        let same : x ≡ r = Option.some-injective x r (rw hit at e) in
        rw (ap p same ∙ h) (ap some same)
    | inr miss ↦ elim (Bool-cases (p x)) [
      | inl accepted ↦ cc (k x accepted, miss)
      | inr refused ↦ rw refused (find-narrow p w rs k (rw miss at e) h)
    ]
  ]
