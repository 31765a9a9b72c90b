-- ===== src/Http/Plain.antt =====
-- The parts of src/http/cookies.rs on texts without separators.
use Prim.Native.Nat.{◌/◌, ◌%◌}
use mathlib.Core.List.{reverse, reverse-cons, reverse-reverse}
use box_fraise_server.Prelude.{
  ℕ, zero, suc, ◌+◌, ◌≡◌, refl, false, arith, [], ◌∷◌, ◌++◌, All, All-append, ltb, ◌==◌, inl, inr,
  Bool-cases,
}
use box_fraise_server.Prelude.Text.{Text, trim, trim_start, is_whitespace, is_empty}
use box_fraise_server.Http.Cookies.{semicolon, split, digits, to_string}

-- A character that neither separates cookies nor is white space.
abbrev pub IsPlain : ℕ → Type 0
IsPlain c = ((c == semicolon) ≡ false) × (is_whitespace c ≡ false)

pub split-plain :
    (s rest : Text)
    → All IsPlain s
    → split semicolon (s ++ semicolon ∷ rest) ≡ s ∷ split semicolon rest
unfolding split
split-plain [] rest p = refl
split-plain (c ∷ s) rest p = rw (p.0.0, split-plain s rest p.1)

pub split-whole : (s : Text) → All IsPlain s → split semicolon s ≡ s ∷ []
unfolding split
split-whole [] p = refl
split-whole (c ∷ s) p = rw (p.0.0, split-whole s p.1)

-- White space separates nothing.
pub split-space : (s : Text) → All IsPlain s → split semicolon (32 ∷ s) ≡ (32 ∷ s) ∷ []
unfolding split
split-space s p = rw (split-whole s p) refl

trim_start-plain : (s : Text) → All IsPlain s → trim_start s ≡ s
unfolding trim_start
trim_start-plain [] p = refl
trim_start-plain (c ∷ s) p = rw p.0.1

All-reverse : (s : Text) → All IsPlain s → All IsPlain (reverse s)
All-reverse [] p = tt
All-reverse (c ∷ s) p =
    rw (reverse-cons c s) (All-append IsPlain (reverse s) (c ∷ []) (All-reverse s p.1) (p.0, tt))

pub trim-plain : (s : Text) → All IsPlain s → trim s ≡ s
unfolding trim
trim-plain s p =
    rw (trim_start-plain s p, trim_start-plain (reverse s) (All-reverse s p)) (reverse-reverse s)

digits-IsPlain : (rounds n : ℕ) (s : Text) → All IsPlain s → All IsPlain (digits rounds n s)
unfolding digits is_whitespace
digits-IsPlain zero n s p = p
digits-IsPlain (suc rounds) n s p = elim (Bool-cases (ltb n 10)) [
  | inl e ↦ rw e ((ground arith, ground arith), p)
  | inr e ↦
      rw e (digits-IsPlain rounds (n / 10) ((48 + n % 10) ∷ s) ((ground arith, ground arith), p))
]

digits-cons : (rounds n c : ℕ) (s : Text) → is_empty (digits rounds n (c ∷ s)) ≡ false
unfolding digits
digits-cons zero n c s = refl
digits-cons (suc rounds) n c s = elim (Bool-cases (ltb n 10)) [
  | inl e ↦ rw e refl
  | inr e ↦ rw e (digits-cons rounds (n / 10) (48 + n % 10) (c ∷ s))
]

-- A number in decimal is a plain text, and not the empty one.
pub to_string-IsPlain : (n : ℕ) → All IsPlain (to_string n) × (is_empty (to_string n) ≡ false)
unfolding digits
to_string-IsPlain n = (digits-IsPlain (suc n) n [] tt, some_digit)
  where
    some_digit : is_empty (digits (suc n) n []) ≡ false
    some_digit = elim (Bool-cases (ltb n 10)) [
      | inl e ↦ rw e refl
      | inr e ↦ rw e (digits-cons n (n / 10) (48 + n % 10) [])
    ]
