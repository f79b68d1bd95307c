-- ===== src/Stream/Bytes.antt =====
-- The bytes of a word in either byte order.
use the_foundation.Base.{
  ℕ, zero, suc, ◌+◌, ◌-◌, ◌*◌, ◌/◌, ◌%◌, ◌^◌, ◌<◌, Bool, if◌then◌else◌, ◌≡◌, refl, sym, ap, ◌∙◌,
  arith, Bool-cases, inl, inr, ltb,
}
use the_foundation.Stream.{Stream, byte_of, swap32, swap64, order64, is_big_endian}
use the_foundation.Stream.Orders.{Bytes, word-Bytes, swap32-eq, swap32-lt, swap64-halves}

-- The byte at the address `p` of a word of `k` bytes: the least significant one is at the first address,
-- or at the last one where the order is big-endian.
abbrev pub ordered : (big : Bool) → (k v p : ℕ) → ℕ
ordered big k v p = byte_of v (if big then k - 1 - p else p)

swap32-byte_of : (v p : ℕ) → v < 2 ^ 32 → p < 4 → byte_of (swap32 v) p ≡ byte_of v (3 - p)
unfolding byte_of
swap32-byte_of v p h less = go p less (word-Bytes v h)
  where
    go : (p : ℕ) → p < 4 → (s : Bytes v) → byte_of (swap32 v) p ≡ byte_of v (3 - p)
    go zero less s =
        omega (arith, swap32-eq v s, s.value, s.a-small, s.b-small, s.c-small, s.d-small)
    go (suc zero) less s =
        omega (arith, swap32-eq v s, s.value, s.a-small, s.b-small, s.c-small, s.d-small)
    go (suc (suc zero)) less s =
        omega (arith, swap32-eq v s, s.value, s.a-small, s.b-small, s.c-small, s.d-small)
    go (suc (suc (suc zero))) less s =
        omega (arith, swap32-eq v s, s.value, s.a-small, s.b-small, s.c-small, s.d-small)
    go (suc (suc (suc (suc p)))) less s = absurd (omega (arith, less))

-- The bytes of a word of 64 digits are those of its halves.
byte_of-low : (x y p : ℕ) → x < 2 ^ 32 → p < 4 → byte_of (x + y * 2 ^ 32) p ≡ byte_of x p
unfolding byte_of
byte_of-low x y zero h less = omega arith
byte_of-low x y (suc zero) h less = omega arith
byte_of-low x y (suc (suc zero)) h less = omega arith
byte_of-low x y (suc (suc (suc zero))) h less = omega arith
byte_of-low x y (suc (suc (suc (suc p)))) h less = absurd (omega (arith, less))

byte_of-high :
    (x y p : ℕ) → x < 2 ^ 32 → byte_of (x + y * 2 ^ 32) (suc (suc (suc (suc p)))) ≡ byte_of y p
unfolding byte_of
byte_of-high x y p h = ap (λ z. byte_of z p) (omega arith)

swap64-byte_of : (v p : ℕ) → v < 2 ^ 64 → p < 8 → byte_of (swap64 v) p ≡ byte_of v (7 - p)
swap64-byte_of v p h less = elim (Bool-cases (ltb p 4)) [
  | inl small ↦
      let near : p < 4 = ground (arith, small) in
      ap (λ x. byte_of x p) swapped
      ∙ byte_of-low (swap32 hi) (swap32 lo) p (swap32-lt hi hi-lt) near
      ∙ swap32-byte_of hi p hi-lt near
      ∙ sym (byte_of-high lo hi (3 - p) lo-lt)
      ∙ ap (λ q. byte_of (lo + hi * 2 ^ 32) q) {x = suc (suc (suc (suc (3 - p))))} {y = 7 - p}
          (omega arith)
      ∙ ap (λ x. byte_of x (7 - p)) (sym split)
  | inr large ↦
      let r = p - 4 in
      let far : p ≡ suc (suc (suc (suc r))) = ground (arith, large) in
      let near : r < 4 = omega (arith, less) in
      ap (λ q. byte_of (swap64 v) q) far
      ∙ ap (λ x. byte_of x (suc (suc (suc (suc r))))) swapped
      ∙ byte_of-high (swap32 hi) (swap32 lo) r (swap32-lt hi hi-lt)
      ∙ swap32-byte_of lo r lo-lt near
      ∙ sym (byte_of-low lo hi (3 - r) lo-lt (omega arith))
      ∙ ap (λ q. byte_of (lo + hi * 2 ^ 32) q) {x = 3 - r} {y = 7 - p} (omega (arith, far))
      ∙ ap (λ x. byte_of x (7 - p)) (sym split)
]
  where
    lo : ℕ
    lo = v % 2 ^ 32

    hi : ℕ
    hi = v / 2 ^ 32

    lo-lt : lo < 2 ^ 32
    lo-lt = omega arith

    hi-lt : hi < 2 ^ 32
    hi-lt = omega (arith, h)

    split : v ≡ lo + hi * 2 ^ 32
    split = omega arith

    swapped : swap64 v ≡ swap32 hi + swap32 lo * 2 ^ 32
    swapped = ap swap64 split ∙ swap64-halves lo hi lo-lt hi-lt

-- The bytes of a value in the byte order of a stream.
pub order64-ordered :
    (d : Stream) (v p : ℕ)
    → v < 2 ^ 64
    → p < 8
    → byte_of (order64 d v) p ≡ ordered (is_big_endian d) 8 v p
unfolding order64
order64-ordered d v p h less = elim (Bool-cases (is_big_endian d)) [
  | inl big ↦
      let place : 7 - p ≡ 8 - 1 - p = omega arith in
      rw big (swap64-byte_of v p h less ∙ ap (byte_of v) place)
  | inr little ↦ rw little refl
]
