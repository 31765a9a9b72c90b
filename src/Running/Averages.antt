-- ===== src/Running/Averages.antt =====
-- Why logging easy runs does not climb the board of src/domain/running.
use box_fraise_server.Prelude.{
  ℕ, suc, ◌+◌, ◌*◌, ◌≤◌, ◌≡◌, refl, arith, ap, List, [], ◌∷◌, ◌++◌, map, length,
}
use native.Mathlib.Nat.{mul-le-mul_right}
use box_fraise_server.Running.Board.{Fraction, plus, AtMost, run_score, total}
use box_fraise_server.Running.Types.{LoggedRun}
use box_fraise_server.Running.Repository.{score}

-- The mean of `n` numbers with the sum N / D, and a further number c / d that is no more.
mean_falls :
    (N D n c d : ℕ) → c * (D * n) ≤ N * d → (c * D + N * d) * (D * n) ≤ N * (d * D * (n + 1))
mean_falls N D n c d h = let more = mul-le-mul_right D h in omega (arith, more)

mean_rises :
    (N D n c d : ℕ) → N * d ≤ c * (D * n) → N * (d * D * (n + 1)) ≤ (c * D + N * d) * (D * n)
mean_rises N D n c d h = let more = mul-le-mul_right D h in omega (arith, more)

-- The sum does not depend on where the last number stands.
total-append :
    (fractions : List Fraction) (a : Fraction)
    → let s = total (fractions ++ a ∷ []) in
      (s.numerator ≡ (plus a (total fractions)).numerator)
      × (s.denominator ≡ (plus a (total fractions)).denominator)
unfolding total
total-append [] a = (refl, refl)
total-append (b ∷ fractions) a =
    let (up, down) = total-append fractions a in
    (rw (up, down) (omega arith), rw down (omega arith))

abbrev score_of : LoggedRun → Fraction
score_of r = run_score r.distance_m r.duration_s

map-append_one :
    (runs : List LoggedRun) (r : LoggedRun)
    → map score_of (runs ++ r ∷ []) ≡ map score_of runs ++ score_of r ∷ []
map-append_one [] r = refl
map-append_one (x ∷ runs) r = ap (λ l. score_of x ∷ l) (map-append_one runs r)

length-append_one :
    (runs : List LoggedRun) (r : LoggedRun) → length (runs ++ r ∷ []) ≡ suc (length runs)
length-append_one [] r = refl
length-append_one (x ∷ runs) r = ap suc (length-append_one runs r)

-- One more run: the numerator and the denominator of the new score.
score-append :
    (runs : List LoggedRun) (r : LoggedRun)
    → let a = score_of r in
      let s = total (map score_of runs) in
      ((score (runs ++ r ∷ [])).numerator
        ≡ a.numerator * s.denominator + s.numerator * a.denominator)
      × ((score (runs ++ r ∷ [])).denominator ≡ a.denominator * s.denominator * (length runs + 1))
unfolding score
score-append runs r =
    let (up, down) = total-append (map score_of runs) (score_of r) in
    rw (length-append_one runs r, map-append_one runs r) (up, rw down (omega arith))

score-cons :
    (x : LoggedRun) (runs : List LoggedRun)
    → let s = total (map score_of (x ∷ runs)) in
      ((score (x ∷ runs)).numerator ≡ s.numerator)
      × ((score (x ∷ runs)).denominator ≡ s.denominator * length (x ∷ runs))
unfolding score
score-cons x runs = (refl, refl)

score_none : ((score []).numerator ≡ 0) × ((score []).denominator ≡ 1)
unfolding score
score_none = (refl, refl)

total_none : ((total []).numerator ≡ 0) × ((total []).denominator ≡ 1)
unfolding total
total_none = (refl, refl)

-- A run that scores no more than the score so far.
pub score-falls :
    (runs : List LoggedRun) (r : LoggedRun)
    → AtMost (score_of r) (score runs)
    → AtMost (score (runs ++ r ∷ [])) (score runs)
score-falls [] r h =
    let (up, down) = score-append [] r in
    let (n, d) = score_none in
    let (m, e) = total_none in rw (up, down, n, d, m, e) (omega (arith, rw (n, d) at h))
score-falls (x ∷ runs) r h =
    let (up, down) = score-append (x ∷ runs) r in
    let (n, d) = score-cons x runs in rw (up, down, n, d) (mean_falls _ _ _ _ _ (rw (n, d) at h))

-- A run that scores no less.
pub score-rises :
    (runs : List LoggedRun) (r : LoggedRun)
    → AtMost (score runs) (score_of r)
    → AtMost (score runs) (score (runs ++ r ∷ []))
score-rises [] r h = let (n, d) = score_none in rw (n, d) (omega arith)
score-rises (x ∷ runs) r h =
    let (up, down) = score-append (x ∷ runs) r in
    let (n, d) = score-cons x runs in rw (up, down, n, d) (mean_rises _ _ _ _ _ (rw (n, d) at h))
