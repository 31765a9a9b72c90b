-- ===== src/Table/Removal.antt =====
-- What a SELECT by key finds after a DELETE and after an INSERT of a new key, and what a DELETE or
-- an UPDATE can only make less.
use mathlib.Core.Option
use box_fraise_server.Prelude.{
  ◌≡◌, ap, subst, ◌⊎◌, Bool, true, false, some, List, [], ◌∷◌, ◌++◌, arith, inl, inr, Bool-cases,
  All, ◌≤◌,
}
use box_fraise_server.Table.{find, select, exists, count, update, delete}

module _ {ℓ} {R : Type ℓ} where
  -- A row that the DELETE spares is found as before.
  pub find-delete :
      (p q : R → Bool) (rs : List R) {r : R}
      → find p rs ≡ some r
      → q r ≡ false
      → find p (delete q rs) ≡ some r
  unfolding find delete
  find-delete p q [] e spared = cc
  find-delete p q (x ∷ rs) {r} e spared = elim (Bool-cases (p x)) [
    | inl hit ↦
        let same : x ≡ r = Option.some-injective x r (rw hit at e) in
        let kept : q x ≡ false = rw same spared in rw kept (rw hit (ap some same))
    | inr miss ↦
        let rest = find-delete p q rs (rw miss at e) spared in
        elim (Bool-cases (q x)) [ inl gone ↦ rw gone rest | inr here ↦ rw here (rw miss rest) ]
  ]

  -- What is found after the DELETE was not deleted.
  pub find-delete_spares :
      (p q : R → Bool) (rs : List R) {r : R} → find p (delete q rs) ≡ some r → q r ≡ false
  unfolding find delete
  find-delete_spares p q [] e = cc
  find-delete_spares p q (x ∷ rs) {r} e = elim (Bool-cases (q x)) [
    | inl gone ↦ find-delete_spares p q rs (rw gone at e)
    | inr here ↦
        let kept = rw here at e in
        elim (Bool-cases (p x)) [
          | inl hit ↦ subst (λ y. q y ≡ false) (Option.some-injective x r (rw hit at kept)) here
          | inr miss ↦ find-delete_spares p q rs (rw miss at kept)
        ]
  ]

  -- The last row is found where no earlier one is accepted.
  pub find-last :
      (p : R → Bool) (rs : List R) (r : R)
      → exists p rs ≡ false
      → p r ≡ true
      → find p (rs ++ r ∷ []) ≡ some r
  unfolding find exists
  find-last p [] r h hit = rw hit
  find-last p (x ∷ rs) r h hit = let rest = find-last p rs r in ground (arith, rest, hit)

  -- What is found after an INSERT was there before, or is the new row.
  pub find-append_cases :
      (p : R → Bool) (rs : List R) (r : R) {q : R}
      → find p (rs ++ r ∷ []) ≡ some q
      → (find p rs ≡ some q) ⊎ ((r ≡ q) × (p r ≡ true))
  unfolding find
  find-append_cases p [] r {q} e = elim (Bool-cases (p r)) [
    | inl hit ↦ inr (Option.some-injective r q (rw hit at e), hit)
    | inr miss ↦ cc (rw miss at e)
  ]
  find-append_cases p (x ∷ rs) r e = elim (Bool-cases (p x)) [
    | inl hit ↦ inl (rw hit (rw hit at e))
    | inr miss ↦ rw miss (find-append_cases p rs r (rw miss at e))
  ]

  -- What holds of every row holds of those that a DELETE leaves.
  pub All-delete {κ} :
      (P : R → Type κ) (w : R → Bool) (rs : List R) → All P rs → All P (delete w rs)
  unfolding delete
  All-delete P w [] a = tt
  All-delete P w (r ∷ rs) a = elim (Bool-cases (w r)) [
    | inl e ↦ rw e (All-delete P w rs a.1)
    | inr e ↦ rw e (a.0, All-delete P w rs a.1)
  ]

  pub count-delete_le : (p w : R → Bool) (rs : List R) → count p (delete w rs) ≤ count p rs
  unfolding count delete
  count-delete_le p w [] = omega arith
  count-delete_le p w (r ∷ rs) = let rest = count-delete_le p w rs in ground (arith, rest)

  -- An UPDATE after which a row counts only if it counted before.
  pub count-update_le :
      (p w : R → Bool) (f : R → R) (rs : List R)
      → ((r : R) → w r ≡ true → p (f r) ≡ true → p r ≡ true)
      → count p (update w f rs) ≤ count p rs
  unfolding count update
  count-update_le p w f [] k = omega arith
  count-update_le p w f (r ∷ rs) k =
      let rest = count-update_le p w f rs k in let here = k r in ground (arith, rest, here)

  -- An INSERT of a row that a filter refuses is not seen through it.
  pub select-append_refused :
      (p : R → Bool) (rs : List R) (r : R) → p r ≡ false → select p (rs ++ r ∷ []) ≡ select p rs
  unfolding select
  select-append_refused p [] r h = rw h
  select-append_refused p (x ∷ rs) r h =
      let rest = select-append_refused p rs r h in ground (arith, rest)
