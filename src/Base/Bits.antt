-- ===== src/Base/Bits.antt =====
-- Laws of `^` and `&` on machine words, for every width, from the lowest digit upwards.
use Prim.Native.Nat.{
  ℕ, zero, suc, ◌+◌, ◌-◌, ◌*◌, ◌/◌, ◌%◌, ◌^◌, ◌≤◌, ◌<◌, min, bit_and, bit_xor, digits,
  bit_and-bitwise, bit_xor-bitwise, differ,
}
use Prim.Native.Nat.add
use mathlib.Core.Path.{◌≡◌, refl, sym, ap, ap₂, ◌∙◌}
use native.Mathlib.Nat.{
  pow-suc, mul_comm, mod-one, div-one, mod-eq-sub-div-mul, div-div-eq-div-mul, div-add-mod',
}
use native.Mathlib.Omega.{arith}

digits_of_zero : (z : ℕ → ℕ) (f : ℕ → ℕ → ℕ) (rounds b : ℕ) → digits z f rounds 0 b ≡ z b
digits_of_zero z f zero b = refl
digits_of_zero z f (suc r) b = refl

-- More rounds than the first operand has digits change nothing.
spare_rounds :
    (z : ℕ → ℕ) (f : ℕ → ℕ → ℕ) (a rounds extra b : ℕ)
    → a ≤ rounds
    → digits z f (rounds + extra) a b ≡ digits z f rounds a b
spare_rounds z f zero rounds extra b h =
    digits_of_zero z f (rounds + extra) b ∙ sym (digits_of_zero z f rounds b)
spare_rounds z f (suc a) zero extra b h = absurd (omega arith)
spare_rounds z f (suc a) (suc r) extra b h = rw (add.suc r extra) (
    ap (λ t. t * 2 + f (suc a % 2) (b % 2))
      (spare_rounds z f (suc a / 2) r extra (b / 2) (omega arith)))

-- One digit at a time.
pub next_digit :
    (z : ℕ → ℕ) (f : ℕ → ℕ → ℕ) (a b : ℕ)
    → digits z f (suc a) (suc a) b
      ≡ digits z f (suc a / 2) (suc a / 2) (b / 2) * 2 + f (suc a % 2) (b % 2)
next_digit z f a b =
    let e : suc a / 2 + (a - suc a / 2) ≡ a = omega arith in
    ap (λ t. t * 2 + f (suc a % 2) (b % 2))
      (rw e at (spare_rounds z f (suc a / 2) (suc a / 2) (a - suc a / 2) (b / 2) (omega arith)))

differ_of_digits : (x y : ℕ) → x < 2 → y < 2 → differ x y ≡ (x + y) % 2
differ_of_digits zero y h k = omega arith
differ_of_digits (suc zero) zero h k = refl
differ_of_digits (suc zero) (suc zero) h k = refl
differ_of_digits (suc zero) (suc (suc y)) h k = absurd (omega arith)
differ_of_digits (suc (suc x)) y h k = absurd (omega arith)

-- The lowest digit of a conjunction, and the digits above it.
pub and-lowest : (x y : ℕ) → bit_and x y ≡ min (x % 2) (y % 2) + 2 * bit_and (x / 2) (y / 2)
and-lowest zero y = simp bit_and-bitwise (omega arith)
and-lowest (suc x) y =
    let shifted : bit_and (suc x) y ≡ bit_and (suc x / 2) (y / 2) * 2 + min (suc x % 2) (y % 2) =
      simp bit_and-bitwise (next_digit (λ d. 0) min x y) in
    omega (arith, shifted)

zero_xor : (b : ℕ) → bit_xor 0 b ≡ b
zero_xor b = bit_xor-bitwise 0 b

pub xor-lowest : (a b : ℕ) → bit_xor a b ≡ bit_xor (a / 2) (b / 2) * 2 + (a % 2 + b % 2) % 2
xor-lowest zero b = omega (arith, zero_xor b, zero_xor (b / 2))
xor-lowest (suc a) b =
    rw (← differ_of_digits (suc a % 2) (b % 2) (omega arith) (omega arith))
      (simp bit_xor-bitwise (next_digit (λ y. y) differ a b))

-- A shift and the lowest digit of an exclusive or.
pub half-xor : (a b : ℕ) → bit_xor a b / 2 ≡ bit_xor (a / 2) (b / 2)
half-xor a b = omega (arith, xor-lowest a b)

pub parity-xor : (a b : ℕ) → bit_xor a b % 2 ≡ (a % 2 + b % 2) % 2
parity-xor a b = omega (arith, xor-lowest a b)

-- Words of at most `n` digits are equal if their digits are.
xor_comm_fuel : (n a b : ℕ) → a ≤ n → b ≤ n → bit_xor a b ≡ bit_xor b a
xor_comm_fuel zero zero zero h k = refl
xor_comm_fuel zero zero (suc b) h k = absurd (omega arith)
xor_comm_fuel zero (suc a) b h k = absurd (omega arith)
xor_comm_fuel (suc n) a b h k = omega (
  arith,
  xor-lowest a b,
  xor-lowest b a,
  xor_comm_fuel n (a / 2) (b / 2) (omega arith) (omega arith),
)

pub xor_comm : (a b : ℕ) → bit_xor a b ≡ bit_xor b a
xor_comm a b = xor_comm_fuel (a + b) a b (omega arith) (omega arith)

xor_assoc_fuel :
    (n a b c : ℕ) → a ≤ n → b ≤ n → c ≤ n → bit_xor (bit_xor a b) c ≡ bit_xor a (bit_xor b c)
xor_assoc_fuel zero zero b c h k l = rw (zero_xor b, zero_xor (bit_xor b c))
xor_assoc_fuel zero (suc a) b c h k l = absurd (omega arith)
xor_assoc_fuel (suc n) a b c h k l = omega (
  arith,
  xor-lowest (bit_xor a b) c,
  xor-lowest a (bit_xor b c),
  parity-xor a b,
  parity-xor b c,
  ap (λ t. bit_xor t (c / 2)) (half-xor a b),
  ap (λ t. bit_xor (a / 2) t) (half-xor b c),
  xor_assoc_fuel n (a / 2) (b / 2) (c / 2) (omega arith) (omega arith) (omega arith),
)

pub xor_assoc : (a b c : ℕ) → bit_xor (bit_xor a b) c ≡ bit_xor a (bit_xor b c)
xor_assoc a b c = xor_assoc_fuel (a + b + c) a b c (omega arith) (omega arith) (omega arith)

xor_self_fuel : (n a : ℕ) → a ≤ n → bit_xor a a ≡ 0
xor_self_fuel zero zero h = refl
xor_self_fuel zero (suc a) h = absurd (omega arith)
xor_self_fuel (suc n) a h = omega (arith, xor-lowest a a, xor_self_fuel n (a / 2) (omega arith))

pub xor_self : (a : ℕ) → bit_xor a a ≡ 0
xor_self a = xor_self_fuel a a (omega arith)

pub xor-zero : (a : ℕ) → bit_xor a 0 ≡ a
xor-zero a = xor_comm a 0 ∙ zero_xor a

-- The low and the high part of a word of `k` low digits.
pub xor-fields : (k lo hi : ℕ) → lo < 2 ^ k → bit_xor lo (hi * 2 ^ k) ≡ lo + hi * 2 ^ k
xor-fields zero zero hi h = omega (arith, zero_xor (hi * 2 ^ 0))
xor-fields zero (suc lo) hi h = absurd (omega arith)
xor-fields (suc k) lo hi h =
    let e : hi * 2 ^ suc k ≡ 2 * (hi * 2 ^ k) =
      omega (arith, ap (λ (t : ℕ). hi * t) (pow-suc 2 k)) in
    omega (
      arith,
      xor-lowest lo (hi * 2 ^ suc k),
      e,
      ap (λ t. bit_xor (lo / 2) t) (half-eq (hi * 2 ^ suc k) (hi * 2 ^ k) e),
      xor-fields k (lo / 2) hi (omega (arith, pow-suc 2 k)),
    )
  where
    half-eq : (a b : ℕ) → a ≡ 2 * b → a / 2 ≡ b
    half-eq a b e = omega arith

-- A mask of eight ones is the remainder by 256.
and-zero_fuel : (n a : ℕ) → a ≤ n → bit_and a 0 ≡ 0
and-zero_fuel zero zero h = refl
and-zero_fuel zero (suc a) h = absurd (omega arith)
and-zero_fuel (suc n) a h = omega (arith, and-lowest a 0, and-zero_fuel n (a / 2) (omega arith))

-- One more digit of a remainder.
mod-double : (a k : ℕ) → a % (2 * k) ≡ a / 2 % k * 2 + a % 2
mod-double a k = omega (
  arith,
  mod-eq-sub-div-mul a (2 * k),
  ap (λ t. t * k) (div-div-eq-div-mul a 2 k),
  div-add-mod' (a / 2) k,
)

mod-pow-suc : (a k : ℕ) → a % 2 ^ suc k ≡ a / 2 % 2 ^ k * 2 + a % 2
mod-pow-suc a k = ap (λ m. a % m) (pow-suc 2 k ∙ mul_comm (2 ^ k) 2) ∙ mod-double a (2 ^ k)

pub mask-low_of : (k a m : ℕ) → m + 1 ≡ 2 ^ k → bit_and a m ≡ a % 2 ^ k
mask-low_of zero a zero e = omega (arith, and-zero_fuel a a (omega arith), mod-one a)
mask-low_of zero a (suc m) e = absurd (omega arith)
mask-low_of (suc k) a m e =
    let half : m / 2 + 1 ≡ 2 ^ k = omega (arith, pow-suc 2 k) in
    omega (arith, pow-suc 2 k, and-lowest a m, mod-pow-suc a k, mask-low_of k (a / 2) (m / 2) half)

pub mask-low : (a : ℕ) → bit_and a 0xff ≡ a % 256
mask-low a = mask-low_of 8 a 255 refl

pub mod-xor : (k a b : ℕ) → bit_xor a b % 2 ^ k ≡ bit_xor (a % 2 ^ k) (b % 2 ^ k)
mod-xor zero a b =
    omega (arith, mod-one (bit_xor a b), mod-one a, mod-one b, ap₂ bit_xor (mod-one a) (mod-one b))
mod-xor (suc k) a b =
    let low = mod-pow-suc a k in
    let low' = mod-pow-suc b k in
    omega (
      arith,
      mod-pow-suc (bit_xor a b) k,
      xor-lowest (a % 2 ^ suc k) (b % 2 ^ suc k),
      parity-xor a b,
      ap (λ t. t % 2 ^ k) (half-xor a b),
      mod-xor k (a / 2) (b / 2),
      low,
      low',
      ap₂ bit_xor (half-low (a % 2 ^ suc k) (a / 2 % 2 ^ k) a low)
          (half-low (b % 2 ^ suc k) (b / 2 % 2 ^ k) b low'),
    )
  where
    half-low : (m q r : ℕ) → m ≡ q * 2 + r % 2 → m / 2 ≡ q
    half-low m q r e = omega arith

pub div-pow-suc : (a k : ℕ) → a / 2 ^ suc k ≡ a / 2 / 2 ^ k
div-pow-suc a k =
    ap (λ m. a / m) (pow-suc 2 k ∙ mul_comm (2 ^ k) 2) ∙ sym (div-div-eq-div-mul a 2 (2 ^ k))

pub div-xor : (k a b : ℕ) → bit_xor a b / 2 ^ k ≡ bit_xor (a / 2 ^ k) (b / 2 ^ k)
div-xor zero a b = div-one (bit_xor a b) ∙ sym (ap₂ bit_xor (div-one a) (div-one b))
div-xor (suc k) a b =
    div-pow-suc (bit_xor a b) k
    ∙ ap (λ t. t / 2 ^ k) (half-xor a b)
    ∙ div-xor k (a / 2) (b / 2)
    ∙ sym (ap₂ bit_xor (div-pow-suc a k) (div-pow-suc b k))
