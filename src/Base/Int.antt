-- ===== src/Base/Int.antt =====
-- Signed integers: the `long` and `int` values that the sources compute with.
use Prim.Native.Nat.{ℕ, suc, ◌-◌, ◌%◌, ◌/◌, ◌^◌, ◌≤◌, ◌<◌}
use mathlib.Core.Path.{◌≡◌}
use native.Mathlib.Omega.{arith}
use the_foundation.Base.Tests.{ltb, leb, if◌then◌else◌}

-- `negsuc n` is -(n + 1).
pub data ℤ : Type 0 where
  pos : ℕ → ℤ
  negsuc : ℕ → ℤ

-- a - b, as an integer.
abbrev pub sub_ℕ : ℕ → ℕ → ℤ
sub_ℕ a b = if leb b a then pos (a - b) else negsuc (b - a - 1)

-- -n for a number `n`.
abbrev pub neg : ℕ → ℤ
neg n = if leb n 0 then pos 0 else negsuc (n - 1)

pub neg-suc : (n : ℕ) → neg (suc n) ≡ negsuc n
neg-suc n = ground arith

abbrev pub negate : ℤ → ℤ
negate (pos n) = neg n
negate (negsuc n) = pos (suc n)

-- The conversion `(int) n` of a `size_t`.
abbrev pub to_int : ℕ → ℤ
to_int n = if ltb (n % 2 ^ 32) (2 ^ 31) then pos (n % 2 ^ 32) else negsuc (2 ^ 32 - n % 2 ^ 32 - 1)

-- Below 2 ^ 31 the conversion keeps the value.
pub to_int-eq_of_lt : (n : ℕ) → n < 2 ^ 31 → to_int n ≡ pos n
to_int-eq_of_lt n h = ground arith

-- `(a - b) / 2` of two `long` values, which C rounds toward zero.
abbrev pub half_diff : ℕ → ℕ → ℤ
half_diff a b = if leb b a then pos ((a - b) / 2) else neg ((b - a) / 2)

-- A difference below zero.
pub sub_ℕ-eq-neg : (a b : ℕ) → a ≤ b → sub_ℕ a b ≡ neg (b - a)
sub_ℕ-eq-neg a b h = ground arith
