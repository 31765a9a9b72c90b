-- ===== src/Prelude/Integers.antt =====
-- The signed integers of requests, and the comparisons that validate them.
use Prim.Native.Nat.{ℕ, zero, suc}
use mathlib.Core.Bool.{Bool, true, false}
use box_fraise_server.Prelude.Tests.{ltb}

pub data ℤ : Type 0 where
  pos negsuc : ℕ → ℤ

-- `0 < z`
abbrev pub is_positive : ℤ → Bool
is_positive (pos zero) = false
is_positive (pos (suc n)) = true
is_positive (negsuc n) = false

-- `z < w`
abbrev pub lessb : ℤ → ℤ → Bool
lessb (pos m) (pos n) = ltb m n
lessb (pos m) (negsuc n) = false
lessb (negsuc m) (pos n) = true
lessb (negsuc m) (negsuc n) = ltb n m

-- The value of an integer that is not negative.
abbrev pub magnitude : ℤ → ℕ
magnitude (pos n) = n
magnitude (negsuc n) = 0
