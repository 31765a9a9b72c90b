-- ===== src/Running/Board.antt =====
-- The arithmetic of the score in src/domain/running/repository.rs, on exact fractions.
use box_fraise_server.Prelude.{ℕ, ◌+◌, ◌*◌, ◌≤◌, Bool, List, [], ◌∷◌, ltb}

-- A fraction of natural numbers, with the denominator written out.
pub record Fraction : Type 0 where
  pub numerator : ℕ
  pub denominator : ℕ

abbrev pub zero_fraction : Fraction
zero_fraction = record { numerator = 0; denominator = 1 }

abbrev pub plus : Fraction → Fraction → Fraction
plus a b = record {
  numerator = a.numerator * b.denominator + b.numerator * a.denominator;
  denominator = a.denominator * b.denominator;
}

abbrev pub below : Fraction → Fraction → Bool
below a b = ltb (a.numerator * b.denominator) (b.numerator * a.denominator)

abbrev pub AtMost : Fraction → Fraction → Type 0
AtMost a b = a.numerator * b.denominator ≤ b.numerator * a.denominator

-- (distance_m / 1000) * ((distance_m / 1000) / (duration_s / 3600)), for one run.
abbrev pub run_score : ℕ → ℕ → Fraction
run_score distance_m duration_s = record {
  numerator = distance_m * distance_m * 3600;
  denominator = 1000000 * duration_s;
}

-- SUM, and AVG, which divides by the count; `n` is the count.
unfoldable pub total : List Fraction → Fraction
total [] = zero_fraction
total (a ∷ fractions) = plus a (total fractions)

abbrev pub divided : ℕ → Fraction → Fraction
divided n a = record { numerator = a.numerator; denominator = a.denominator * n }
