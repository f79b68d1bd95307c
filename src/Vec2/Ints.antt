-- ===== src/Vec2/Ints.antt =====
-- The values of `int`: words below 2 ^ 32 in two's complement. Arithmetic wraps around, where C leaves
-- an overflow undefined.
use the_foundation.Base.{
  ℕ, ◌+◌, ◌-◌, ◌*◌, ◌/◌, ◌%◌, ◌^◌, ◌≤◌, ◌<◌, min, max, ltb, leb, if◌then◌else◌, Bool, ◌≡◌, arith,
}

-- The order of the integers is the one of the words after half a turn.
abbrev pub offset : ℕ → ℕ
offset a = (a + 2 ^ 31) % 2 ^ 32

abbrev pub lt_int : ℕ → ℕ → Bool
lt_int a b = ltb (offset a) (offset b)

abbrev pub le_int : ℕ → ℕ → Bool
le_int a b = leb (offset a) (offset b)

abbrev pub add_int : ℕ → ℕ → ℕ
add_int a b = (a + b) % 2 ^ 32

abbrev pub sub_int : ℕ → ℕ → ℕ
sub_int a b = (a + (2 ^ 32 - b)) % 2 ^ 32

abbrev pub neg_int : ℕ → ℕ
neg_int a = (2 ^ 32 - a) % 2 ^ 32

abbrev pub mul_int : ℕ → ℕ → ℕ
mul_int a b = a * b % 2 ^ 32

-- A half, rounded toward zero.
abbrev pub half_int : ℕ → ℕ
half_int a = if ltb a (2 ^ 31) then a / 2 else neg_int (neg_int a / 2)

-- `iMin`, `iMax` and `iAbs`
abbrev pub min_int : ℕ → ℕ → ℕ
min_int a b = if lt_int a b then a else b

abbrev pub max_int : ℕ → ℕ → ℕ
max_int a b = if lt_int b a then a else b

abbrev pub abs_int : ℕ → ℕ
abs_int a = if lt_int 0 a then a else neg_int a

pub offset-add_int :
    (a n : ℕ)
    → a < 2 ^ 32
    → n < 2 ^ 31
    → offset a + n < 2 ^ 32
    → offset (add_int a n) ≡ offset a + n
offset-add_int a n ha hn h = omega (arith, ha, hn, h)

pub sub_int-eq :
    (a b : ℕ) → a < 2 ^ 32 → b < 2 ^ 32 → offset b ≤ offset a → sub_int a b ≡ offset a - offset b
sub_int-eq a b ha hb h = omega (arith, ha, hb, h)

pub offset-min_int : (a b : ℕ) → offset (min_int a b) ≡ min (offset a) (offset b)
offset-min_int a b = ground arith

pub offset-max_int : (a b : ℕ) → offset (max_int a b) ≡ max (offset a) (offset b)
offset-max_int a b = ground arith

pub offset-injective : (a b : ℕ) → a < 2 ^ 32 → b < 2 ^ 32 → offset a ≡ offset b → a ≡ b
offset-injective a b ha hb h = omega (arith, ha, hb, h)

pub offset-sub_int :
    (a n : ℕ) → a < 2 ^ 32 → n < 2 ^ 31 → n ≤ offset a → offset (sub_int a n) ≡ offset a - n
offset-sub_int a n ha hn h = omega (arith, ha, hn, h)

-- Below 2 ^ 31 the order and the difference are those of the numbers.
pub lt_int-small : (a b : ℕ) → a < 2 ^ 31 → b < 2 ^ 31 → lt_int a b ≡ ltb a b
lt_int-small a b ha hb = ground (arith, ha, hb)

pub sub_int-small : (a b : ℕ) → a < 2 ^ 31 → b ≤ a → sub_int a b ≡ a - b
sub_int-small a b ha h = omega (arith, ha, h)
