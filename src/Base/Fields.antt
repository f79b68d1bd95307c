-- ===== src/Base/Fields.antt =====
-- Fields of machine words that are put together by `|`.
use Prim.Native.Nat.{
  ℕ, zero, suc, ◌+◌, ◌*◌, ◌/◌, ◌%◌, ◌^◌, ◌<◌, max, bit_and, bit_or, bit_or-bitwise,
}
use mathlib.Core.Path.{◌≡◌, refl, ap}
use native.Mathlib.Nat.{pow-suc, div-one}
use native.Mathlib.Omega.{arith}
use the_foundation.Base.Bits.{next_digit, and-lowest, div-pow-suc}

zero_or : (b : ℕ) → bit_or 0 b ≡ b
zero_or b = bit_or-bitwise 0 b

pub or-lowest : (a b : ℕ) → bit_or a b ≡ bit_or (a / 2) (b / 2) * 2 + max (a % 2) (b % 2)
or-lowest zero b = omega (arith, zero_or b, zero_or (b / 2))
or-lowest (suc a) b = simp bit_or-bitwise (next_digit (λ y. y) max a b)

double-pow : (hi k : ℕ) → hi * 2 ^ suc k ≡ 2 * (hi * 2 ^ k)
double-pow hi k = omega (arith, ap (λ (t : ℕ). hi * t) (pow-suc 2 k))

half-double : (a b : ℕ) → a ≡ 2 * b → a / 2 ≡ b
half-double a b e = omega arith

or_comm_fuel : (n a b : ℕ) → a + b < suc n → bit_or a b ≡ bit_or b a
or_comm_fuel zero zero zero h = refl
or_comm_fuel zero zero (suc b) h = absurd (omega arith)
or_comm_fuel zero (suc a) b h = absurd (omega arith)
or_comm_fuel (suc n) zero zero h = refl
or_comm_fuel (suc n) zero (suc b) h = omega (
  arith,
  or-lowest zero (suc b),
  or-lowest (suc b) zero,
  or_comm_fuel n zero (suc b / 2) (omega arith),
)
or_comm_fuel (suc n) (suc a) b h = omega (
  arith,
  or-lowest (suc a) b,
  or-lowest b (suc a),
  or_comm_fuel n (suc a / 2) (b / 2) (omega arith),
)

pub or_comm : (a b : ℕ) → bit_or a b ≡ bit_or b a
or_comm a b = or_comm_fuel (a + b) a b (omega arith)

-- A low field of `k` digits below a high one.
pub or-fields : (k lo hi : ℕ) → lo < 2 ^ k → bit_or lo (hi * 2 ^ k) ≡ lo + hi * 2 ^ k
or-fields zero zero hi h = omega (arith, zero_or (hi * 2 ^ 0))
or-fields zero (suc lo) hi h = absurd (omega arith)
or-fields (suc k) lo hi h =
    let e = double-pow hi k in
    omega (
      arith,
      or-lowest lo (hi * 2 ^ suc k),
      e,
      ap (λ t. bit_or (lo / 2) t) (half-double (hi * 2 ^ suc k) (hi * 2 ^ k) e),
      or-fields k (lo / 2) hi (omega (arith, pow-suc 2 k)),
    )

-- The high field in front, where it is known to be a multiple.
pub or-joined : (k hi lo : ℕ) → lo < 2 ^ k → bit_or (hi * 2 ^ k) lo ≡ hi * 2 ^ k + lo
or-joined k hi lo h = omega (arith, or_comm (hi * 2 ^ k) lo, or-fields k lo hi h)

-- A mask of a field is one of the digits above its place.
pub mask-field : (k a m : ℕ) → bit_and a (m * 2 ^ k) ≡ bit_and (a / 2 ^ k) m * 2 ^ k
mask-field zero a m = rw (div-one a, mul-one) (omega (arith, ap (bit_and a) mul-one))
  where
    mul-one : m * 2 ^ 0 ≡ m
    mul-one = omega arith
mask-field (suc k) a m =
    let e = double-pow m k in
    omega (
      arith,
      and-lowest a (m * 2 ^ suc k),
      e,
      ap (λ t. bit_and (a / 2) t) (half-double (m * 2 ^ suc k) (m * 2 ^ k) e),
      mask-field k (a / 2) m,
      double-pow (bit_and (a / 2 ^ suc k) m) k,
      ap (λ t. bit_and t m * 2 ^ k) (div-pow-suc a k),
    )
