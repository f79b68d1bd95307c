-- ===== src/Crc32/Laws.antt =====
-- The table does eight digits of the shift register at once.
use Prim.Native.Nat.{bit_and, bit_xor}
use native.Mathlib.Nat.{pow-suc, mul_assoc}
use the_foundation.Base.{
  ℕ, zero, suc, ◌+◌, ◌*◌, ◌/◌, ◌%◌, ◌^◌, ◌<◌, List, [], ◌∷◌, get_or, ◌==◌, if◌then◌else◌, ◌≡◌, refl,
  sym, ap, ◌∙◌, arith, Bool-cases, inl, inr, holds_below, holds_below→eq,
}
use the_foundation.Base.Bits.{
  xor_assoc, xor_comm, xor-zero, half-xor, parity-xor, xor-fields, mask-low, mod-xor, div-xor,
}
use the_foundation.Crc32.{table, promoted, update, update_all, crc32}
use the_foundation.Crc32.Bitwise.{polynomial, shift_one, shift_by, feed, checksum}

-- Each entry of the table is its index after eight shifts.
table-shift_by : (i : ℕ) → i < 256 → get_or table i 0 ≡ shift_by 8 i
unfolding holds_below shift_by
table-shift_by = holds_below→eq (λ i. get_or table i 0) (shift_by 8) 256 refl

-- The register is linear.
swap_middle :
    (a b c d : ℕ) → bit_xor (bit_xor a b) (bit_xor c d) ≡ bit_xor (bit_xor a c) (bit_xor b d)
swap_middle a b c d =
    xor_assoc a b (bit_xor c d)
    ∙ ap (bit_xor a)
        (sym (xor_assoc b c d) ∙ ap (λ t. bit_xor t d) (xor_comm b c) ∙ xor_assoc c b d)
    ∙ sym (xor_assoc a c (bit_xor b d))

feedback : ℕ → ℕ
feedback c = if c % 2 == 1 then polynomial else 0

shift_one-feedback : (c : ℕ) → shift_one c ≡ bit_xor (c / 2) (feedback c)
unfolding shift_one feedback
shift_one-feedback c = elim (Bool-cases (c % 2 == 1)) [
  | inl odd ↦ rw odd
  | inr even ↦ rw (even, xor-zero)
]

feedback-xor : (a b : ℕ) → feedback (bit_xor a b) ≡ bit_xor (feedback a) (feedback b)
unfolding feedback
feedback-xor a b = rw parity-xor (by_digits (a % 2) (b % 2) (omega arith) (omega arith))
  where
    by_digits :
        (x y : ℕ)
        → x < 2
        → y < 2
        → (if (x + y) % 2 == 1 then polynomial else 0)
          ≡ bit_xor (if x == 1 then polynomial else 0) (if y == 1 then polynomial else 0)
    by_digits zero zero h k = refl
    by_digits zero (suc zero) h k = refl
    by_digits (suc zero) zero h k = refl
    by_digits (suc zero) (suc zero) h k = refl
    by_digits zero (suc (suc y)) h k = absurd (omega arith)
    by_digits (suc zero) (suc (suc y)) h k = absurd (omega arith)
    by_digits (suc (suc x)) y h k = absurd (omega arith)

shift_one-xor : (a b : ℕ) → shift_one (bit_xor a b) ≡ bit_xor (shift_one a) (shift_one b)
shift_one-xor a b =
    rw
      (
        shift_one-feedback (bit_xor a b),
        shift_one-feedback a,
        shift_one-feedback b,
        feedback-xor a b,
        half-xor a b,
      )
      (swap_middle (a / 2) (b / 2) (feedback a) (feedback b))

shift_by-xor : (n a b : ℕ) → shift_by n (bit_xor a b) ≡ bit_xor (shift_by n a) (shift_by n b)
unfolding shift_by
shift_by-xor zero a b = refl
shift_by-xor (suc n) a b = rw (shift_one-xor a b) (shift_by-xor n (shift_one a) (shift_one b))

-- What lies above the shifted digits is not fed back.
shift_one-even : (h : ℕ) → shift_one (h * 2) ≡ h
unfolding shift_one
shift_one-even h = ground arith

shift_by-high : (n h : ℕ) → shift_by n (h * 2 ^ n) ≡ h
unfolding shift_by
shift_by-high zero h = omega arith
shift_by-high (suc n) h = rw (pow-suc, ← mul_assoc, shift_one-even (h * 2 ^ n)) (shift_by-high n h)

-- The low byte of the operand decides the entry of the table, whatever the sign of a `char`.
index-low :
    (crc byte : ℕ)
    → byte < 256
    → bit_and (bit_xor crc (promoted byte)) 0xff ≡ bit_xor crc byte % 256
index-low crc byte h =
    mask-low (bit_xor crc (promoted byte))
    ∙ mod-xor 8 crc (promoted byte)
    ∙ ap (bit_xor (crc % 256)) (ground arith)
    ∙ sym (mod-xor 8 crc byte)

-- A byte leaves the higher digits alone.
high-xor : (crc byte : ℕ) → byte < 256 → bit_xor crc byte / 256 ≡ crc / 256
high-xor crc byte h =
    div-xor 8 crc byte ∙ ap (bit_xor (crc / 256)) (omega arith) ∙ xor-zero (crc / 256)

-- A round of the loop feeds one byte to the shift register.
pub update-shift_by : (crc byte : ℕ) → byte < 256 → update crc byte ≡ shift_by 8 (bit_xor crc byte)
unfolding update
update-shift_by crc byte h =
    let c = bit_xor crc byte in
    let split : bit_xor (c % 256) (c / 256 * 2 ^ 8) ≡ c =
      xor-fields 8 (c % 256) (c / 256) (omega arith) ∙ omega arith in
    rw (index-low crc byte h, table-shift_by (c % 256) (omega arith), ← high-xor crc byte h)
      (ap (bit_xor (shift_by 8 (c % 256))) (sym (shift_by-high 8 (c / 256)))
        ∙ sym (shift_by-xor 8 (c % 256) (c / 256 * 2 ^ 8))
        ∙ ap (shift_by 8) split)

-- A list of bytes.
abbrev pub AllBytes : List ℕ → Type 0
AllBytes [] = Unit {0}
AllBytes (b ∷ bs) = (b < 256) × AllBytes bs

update_all-feed :
    (crc : ℕ) (bytes : List ℕ) → AllBytes bytes → update_all crc bytes ≡ feed crc bytes
unfolding update_all feed
update_all-feed crc [] h = refl
update_all-feed crc (b ∷ bs) h =
    rw (update-shift_by crc b h.0) (update_all-feed (shift_by 8 (bit_xor crc b)) bs h.1)

-- For a list of bytes the checksum from the table is the one that the shift register computes digit
-- by digit.
pub crc32-checksum : (bytes : List ℕ) → AllBytes bytes → crc32 bytes ≡ checksum bytes
unfolding crc32 checksum
crc32-checksum bytes h = rw (update_all-feed 0xffff_ffff bytes h)
