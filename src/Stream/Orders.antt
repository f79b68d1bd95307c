-- ===== src/Stream/Orders.antt =====
-- The byte orders: words are swapped byte by byte, and twice is not at all.
use Prim.Native.Nat.{bit_and, bit_or}
use the_foundation.Base.{
  ℕ, ◌+◌, ◌-◌, ◌*◌, ◌/◌, ◌%◌, ◌^◌, ◌<◌, Bool, true, false, ◌≡◌, refl, sym, ap, ◌∙◌, arith,
  Bool-cases, inl, inr,
}
use mathlib.Core.Path.{ap₂}
use the_foundation.Base.Bits.{mask-low_of, mask-low, and-lowest}
use the_foundation.Base.Fields.{or-fields, or-lowest, mask-field}
use the_foundation.Stream.{
  Stream, swap16, swap32, swap64, order16, order32, order64, is_big_endian, set_byte_order,
}

-- Bytes of a word in the opposite order.
pub swap16-bytes : (a b : ℕ) → a < 256 → b < 256 → swap16 (a + b * 256) ≡ b + a * 256
unfolding swap16
swap16-bytes a b ha hb = rw (mask-low (a + b * 256), low, high, or-fields 8 b a hb) (small ha hb)
  where
    low : (a + b * 256) % 256 ≡ a
    low = omega arith

    high : (a + b * 256) / 2 ^ 8 ≡ b
    high = omega arith

    small : a < 256 → b < 256 → (b + a * 2 ^ 8) % 2 ^ 16 ≡ b + a * 256
    small h k = omega arith

pub swap32-bytes :
    (a b c d : ℕ)
    → a < 256
    → b < 256
    → c < 256
    → d < 256
    → swap32 (a + b * 256 + c * 65536 + d * 16777216) ≡ d + c * 256 + b * 65536 + a * 16777216
unfolding swap32
swap32-bytes a b c d ha hb hc hd =
    rw
      (
        top,
        third,
        second,
        first,
        or-fields 8 d c hd,
        or-fields 16 (d + c * 2 ^ 8) b (omega arith),
        or-fields 24 (d + c * 2 ^ 8 + b * 2 ^ 16) a (omega arith),
      )
      refl
  where
    v : ℕ
    v = a + b * 256 + c * 65536 + d * 16777216

    top : v / 2 ^ 24 ≡ d
    top = omega arith

    third : bit_and v 0xff_0000 / 2 ^ 8 ≡ c * 2 ^ 8
    third = omega (arith, mask-field 16 v 255, mask-low (v / 2 ^ 16))

    second : bit_and v 0xff00 * 2 ^ 8 % 2 ^ 32 ≡ b * 2 ^ 16
    second = omega (arith, mask-field 8 v 255, mask-low (v / 2 ^ 8))

    first : bit_and v 0xff * 2 ^ 24 % 2 ^ 32 ≡ a * 2 ^ 24
    first = omega (arith, mask-low v)

-- The bytes of a word of 32 digits.
pub record Bytes (v : ℕ) : Type 0 where
  pub a : ℕ
  pub b : ℕ
  pub c : ℕ
  pub d : ℕ
  pub a-small : a < 256
  pub b-small : b < 256
  pub c-small : c < 256
  pub d-small : d < 256
  pub value : v ≡ a + b * 256 + c * 65536 + d * 16777216

pub word-Bytes : (v : ℕ) → v < 2 ^ 32 → Bytes v
word-Bytes v h = record {
  a = v % 256;
  b = v / 256 % 256;
  c = v / 256 / 256 % 256;
  d = v / 256 / 256 / 256;
  a-small = omega arith;
  b-small = omega arith;
  c-small = omega arith;
  d-small = omega arith;
  value = omega arith;
}

swap16-swap16 : (v : ℕ) → v < 2 ^ 16 → swap16 (swap16 v) ≡ v
swap16-swap16 v h =
    ap swap16 (ap swap16 split ∙ swap16-bytes (v % 256) (v / 256) (omega arith) (omega arith))
    ∙ swap16-bytes (v / 256) (v % 256) (omega arith) (omega arith)
    ∙ sym split
  where
    split : v ≡ v % 256 + v / 256 * 256
    split = omega arith

pub swap32-eq : (v : ℕ) (s : Bytes v) → swap32 v ≡ s.d + s.c * 256 + s.b * 65536 + s.a * 16777216
swap32-eq v s =
    ap swap32 s.value ∙ swap32-bytes s.a s.b s.c s.d s.a-small s.b-small s.c-small s.d-small

swap32-swap32 : (v : ℕ) → v < 2 ^ 32 → swap32 (swap32 v) ≡ v
swap32-swap32 v h =
    let s = word-Bytes v h in
    ap swap32 (swap32-eq v s)
    ∙ swap32-bytes s.d s.c s.b s.a s.d-small s.c-small s.b-small s.a-small
    ∙ sym s.value

pub swap32-lt : (v : ℕ) → v < 2 ^ 32 → swap32 v < 2 ^ 32
swap32-lt v h =
    let s = word-Bytes v h in
    omega (arith, swap32-eq v s, s.a-small, s.b-small, s.c-small, s.d-small)

-- The halves of a word of 64 digits change places.
pub swap64-halves :
    (lo hi : ℕ)
    → lo < 2 ^ 32
    → hi < 2 ^ 32
    → swap64 (lo + hi * 2 ^ 32) ≡ swap32 hi + swap32 lo * 2 ^ 32
unfolding swap64
swap64-halves lo hi hl hh =
    rw
      (
        mask-low_of 32 (lo + hi * 2 ^ 32) 0xffff_ffff refl,
        low,
        high,
        small,
        or-fields 32 (swap32 hi) (swap32 lo) (swap32-lt hi hh),
      )
      refl
  where
    low : (lo + hi * 2 ^ 32) % 2 ^ 32 ≡ lo
    low = omega arith

    high : (lo + hi * 2 ^ 32) / 2 ^ 32 % 2 ^ 32 ≡ hi
    high = omega arith

    small : swap32 lo * 2 ^ 32 % 2 ^ 64 ≡ swap32 lo * 2 ^ 32
    small = omega (arith, swap32-lt lo hl)

swap64-swap64 : (v : ℕ) → v < 2 ^ 64 → swap64 (swap64 v) ≡ v
swap64-swap64 v h =
    ap swap64 (ap swap64 split ∙ swap64-halves lo hi (omega arith) (omega arith))
    ∙ swap64-halves (swap32 hi) (swap32 lo) (swap32-lt hi (omega arith))
        (swap32-lt lo (omega arith))
    ∙ ap₂ (λ x y. x + y * 2 ^ 32) (swap32-swap32 lo (omega arith)) (swap32-swap32 hi (omega arith))
    ∙ sym split
  where
    lo : ℕ
    lo = v % 2 ^ 32

    hi : ℕ
    hi = v / 2 ^ 32

    split : v ≡ lo + hi * 2 ^ 32
    split = omega arith

swap16-lt : (v : ℕ) → swap16 v < 2 ^ 16
unfolding swap16
swap16-lt v = omega arith

swap64-lt : (v : ℕ) → v < 2 ^ 64 → swap64 v < 2 ^ 64
swap64-lt v h =
    let lo = v % 2 ^ 32 in
    let hi = v / 2 ^ 32 in
    let split : v ≡ v % 2 ^ 32 + v / 2 ^ 32 * 2 ^ 32 = omega arith in
    omega (
      arith,
      ap swap64 split ∙ swap64-halves (v % 2 ^ 32) (v / 2 ^ 32) (omega arith) (omega arith),
      swap32-lt (v % 2 ^ 32) (omega arith),
      swap32-lt (v / 2 ^ 32) (omega arith),
    )

-- In either order what is written is a word of its width, and what is read is the value.
pub order16-order16 :
    (d e : Stream) (v : ℕ)
    → is_big_endian d ≡ is_big_endian e
    → v < 2 ^ 16
    → (order16 d v < 2 ^ 16) × (order16 e (order16 d v) ≡ v)
unfolding order16
order16-order16 d e v same h = elim (Bool-cases (is_big_endian d)) [
  | inl big ↦ (rw big (swap16-lt v), rw (← same, big) (swap16-swap16 v h))
  | inr little ↦ (rw little h, rw (← same, little) refl)
]

pub order32-order32 :
    (d e : Stream) (v : ℕ)
    → is_big_endian d ≡ is_big_endian e
    → v < 2 ^ 32
    → (order32 d v < 2 ^ 32) × (order32 e (order32 d v) ≡ v)
unfolding order32
order32-order32 d e v same h = elim (Bool-cases (is_big_endian d)) [
  | inl big ↦ (rw big (swap32-lt v h), rw (← same, big) (swap32-swap32 v h))
  | inr little ↦ (rw little h, rw (← same, little) refl)
]

pub order64-order64 :
    (d e : Stream) (v : ℕ)
    → is_big_endian d ≡ is_big_endian e
    → v < 2 ^ 64
    → (order64 d v < 2 ^ 64) × (order64 e (order64 d v) ≡ v)
unfolding order64
order64-order64 d e v same h = elim (Bool-cases (is_big_endian d)) [
  | inl big ↦ (rw big (swap64-lt v h), rw (← same, big) (swap64-swap64 v h))
  | inr little ↦ (rw little h, rw (← same, little) refl)
]

-- The byte order that is set is the one used.
pub is_big_endian-set_byte_order :
    (d : Stream) (big : Bool) → is_big_endian (set_byte_order d big) ≡ big
unfolding is_big_endian set_byte_order
is_big_endian-set_byte_order d true =
    let e : bit_and (bit_or d.flags 1) 1 ≡ 1 =
      omega (arith, mask-low_of 1 (bit_or d.flags 1) 1 refl, or-lowest d.flags 1) in
    rw e refl
is_big_endian-set_byte_order d false =
    let e : bit_and (bit_and d.flags (2 ^ 32 - 2)) 1 ≡ 0 = omega (
      arith,
      mask-low_of 1 (bit_and d.flags (2 ^ 32 - 2)) 1 refl,
      and-lowest d.flags (2 ^ 32 - 2),
    ) in
    rw e refl
