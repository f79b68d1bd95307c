-- ===== src/Encoding/Hex.antt =====
-- Hexadecimal text: what is encoded is decoded, and which texts are decoded.
use Prim.Native.Nat.{bit_and}
use the_foundation.Base.{
  ℕ, ◌+◌, ◌*◌, ◌/◌, ◌%◌, ◌^◌, ◌<◌, ◌≤◌, none, some, List, [], ◌∷◌, get_or, length, ltb, lt→ltb, ◌≡◌,
  refl, arith, holds_below, holds_below→eq, All, ◌==◌, Bool-cases, inl, inr, ◌↔◌,
}
use the_foundation.Base.Bits.{mask-low_of}
use the_foundation.Base.Fields.{or-joined}
use the_foundation.Encoding.{
  hex_values, hex_encode, from_hex, hex_value, hex_decode_from, hex_decode,
}

from_hex-get_or : (d : ℕ) → d < 16 → from_hex (get_or hex_values d 0) ≡ d
unfolding holds_below from_hex
from_hex-get_or = holds_below→eq (λ d. from_hex (get_or hex_values d 0)) (λ d. d) 16 refl

-- The two digits of a byte.
hex_value-digits :
    (v : ℕ)
    → v < 256
    → hex_value (get_or hex_values (v / 2 ^ 4) 0) (get_or hex_values (bit_and v 15) 0) ≡ v
unfolding hex_value
hex_value-digits v h =
    rw
      (
        mask-low_of 4 v 15 refl,
        from_hex-get_or (v / 2 ^ 4) (omega arith),
        from_hex-get_or (v % 2 ^ 4) (omega arith),
        small,
        or-joined 4 (v / 2 ^ 4) (v % 2 ^ 4) (omega arith),
      )
      (omega arith)
  where
    small : v / 2 ^ 4 * 2 ^ 4 % 2 ^ 32 ≡ v / 2 ^ 4 * 2 ^ 4
    small = omega arith

length-hex_encode : (bytes : List ℕ) → length (hex_encode bytes) ≡ 2 * length bytes
unfolding hex_encode
length-hex_encode [] = refl
length-hex_encode (v ∷ bytes) = omega (arith, length-hex_encode bytes)

hex_decode_from-hex_encode :
    (past size pos : ℕ) (bytes : List ℕ)
    → All (λ b. b < 256) bytes
    → pos + length bytes ≤ size
    → hex_decode_from past size pos (hex_encode bytes) ≡ some bytes
unfolding hex_encode hex_decode_from
hex_decode_from-hex_encode past size pos [] small h = refl
hex_decode_from-hex_encode past size pos (v ∷ bytes) (low, small) h = rw (
  lt→ltb pos size (omega arith),
  hex_decode_from-hex_encode past size (pos + 1) bytes small (omega arith),
  hex_value-digits v low,
)

-- Bytes that are encoded as hexadecimal text are decoded from it.
pub hex_decode-hex_encode :
    (past : ℕ) (bytes : List ℕ)
    → All (λ b. b < 256) bytes
    → hex_decode past (hex_encode bytes) ≡ some bytes
unfolding hex_decode
hex_decode-hex_encode past bytes small =
    hex_decode_from-hex_encode past (length (hex_encode bytes) / 2) 0 bytes small
      (omega (arith, length-hex_encode bytes))

hex_decode_from-even :
    (past size pos : ℕ) (chars : List ℕ)
    → length chars % 2 ≡ 0
    → pos + length chars / 2 ≤ size
    → (bytes : List ℕ) × (hex_decode_from past size pos chars ≡ some bytes)
      × (length bytes ≡ length chars / 2)
      × All (λ b. b < 256) bytes
unfolding hex_decode_from hex_value
hex_decode_from-even past size pos [] even h = ([], refl, refl, tt)
hex_decode_from-even past size pos (a ∷ []) even h = absurd (omega arith)
hex_decode_from-even past size pos (a ∷ b ∷ chars) even h =
    let (bytes, run, count, small) =
      hex_decode_from-even past size (pos + 1) chars (omega arith) (omega arith) in
    (
      hex_value a b ∷ bytes,
      rw (lt→ltb pos size (omega arith), run) refl,
      omega (arith, count),
      (omega arith, small),
    )

hex_decode_from-odd :
    (past size pos : ℕ) (chars : List ℕ)
    → length chars % 2 ≡ 1
    → size ≤ pos + length chars / 2
    → hex_decode_from past size pos chars ≡ none
unfolding hex_decode_from
hex_decode_from-odd past size pos [] odd h = absurd (omega arith)
hex_decode_from-odd past size pos (a ∷ []) odd h = elim (Bool-cases (ltb pos size)) [
  | inl e ↦ absurd (ground (arith, e, h))
  | inr e ↦ rw e refl
]
hex_decode_from-odd past size pos (a ∷ b ∷ chars) odd h = elim (Bool-cases (ltb pos size)) [
  | inl e ↦
      rw (e, hex_decode_from-odd past size (pos + 1) chars (omega arith) (omega (arith, h))) refl
  | inr e ↦ rw e refl
]

-- The decoder faults on a text exactly if its length is odd, whatever its characters are and whatever is
-- read behind them: then the assertion on the position of the last byte fails.
pub hex_decode_iff :
    (past : ℕ) (chars : List ℕ) → (hex_decode past chars ≡ none) ↔ (length chars % 2 ≡ 1)
unfolding hex_decode
hex_decode_iff past chars = (to, from)
  where
    to : hex_decode past chars ≡ none → length chars % 2 ≡ 1
    to e = elim (Bool-cases (length chars % 2 == 0)) [
      | inl even ↦
          let (bytes, run, count, small) =
            hex_decode_from-even past (length chars / 2) 0 chars (ground arith) (omega arith) in
          cc
      | inr odd ↦ ground arith
    ]

    from : length chars % 2 ≡ 1 → hex_decode past chars ≡ none
    from odd = hex_decode_from-odd past (length chars / 2) 0 chars odd (omega arith)
