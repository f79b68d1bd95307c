-- ===== src/Encoding/Base64.antt =====
-- Base64 text: what is encoded is decoded, with a zero byte for each character of padding.
use Prim.Native.Nat.{bit_and, bit_or}
use the_foundation.Base.{
  ℕ, zero, suc, ◌+◌, ◌-◌, ◌*◌, ◌/◌, ◌%◌, ◌^◌, ◌<◌, some, List, [], ◌∷◌, ◌++◌, replicate, length,
  length-append, length-replicate, append-nil, ltb, leb, le→leb, ==-true, true, false, ◌≡◌, refl,
  ap, ◌∙◌, arith, holds_below, holds_below→eq, All,
}
use the_foundation.Base.Bits.{mask-low_of}
use the_foundation.Base.Fields.{or-joined}
use the_foundation.Encoding.{
  base64_char, base64_chars, base64_encode, base64_index, base64_bytes, base64_decode,
}

base64_index-base64_char : (d : ℕ) → d < 64 → base64_index (base64_char d) ≡ d
unfolding holds_below base64_index base64_char
base64_index-base64_char = holds_below→eq (λ d. base64_index (base64_char d)) (λ d. d) 64 refl

-- One round whose digits join to `joined`: without a byte that is full, and with one.
partial_round :
    (comp shift c : ℕ) (chars : List ℕ) (joined comp' shift' : ℕ)
    → bit_or comp (base64_index c * 2 ^ shift) % 2 ^ 16 ≡ joined
    → leb shift 8 ≡ false
    → joined ≡ comp'
    → shift - 6 ≡ shift'
    → base64_bytes comp shift (c ∷ chars) ≡ base64_bytes comp' shift' chars
unfolding base64_bytes
partial_round comp shift c chars joined comp' shift' e more e' e'' = rw (e, more, e', e'') refl

full_round :
    (comp shift c : ℕ) (chars : List ℕ) (joined byte comp' shift' : ℕ)
    → bit_or comp (base64_index c * 2 ^ shift) % 2 ^ 16 ≡ joined
    → leb shift 8 ≡ true
    → joined / 2 ^ 8 ≡ byte
    → joined * 2 ^ 8 % 2 ^ 16 ≡ comp'
    → shift + 8 - 6 ≡ shift'
    → base64_bytes comp shift (c ∷ chars) ≡ byte ∷ base64_bytes comp' shift' chars
unfolding base64_bytes
full_round comp shift c chars joined byte comp' shift' e less eb e' e'' =
    rw (e, less, eb, e', e'') refl

-- The digits below the high ones that are there.
joined-eq :
    (k hi i shift a lo : ℕ)
    → base64_index i ≡ a
    → a * 2 ^ shift ≡ lo
    → lo < 2 ^ k
    → hi * 2 ^ k + lo < 2 ^ 16
    → bit_or (hi * 2 ^ k) (base64_index i * 2 ^ shift) % 2 ^ 16 ≡ hi * 2 ^ k + lo
joined-eq k hi i shift a lo ei e low fits =
    rw (ei, e, or-joined k hi lo low) (small (hi * 2 ^ k + lo) fits)
  where
    small : (x : ℕ) → x < 2 ^ 16 → x % 2 ^ 16 ≡ x
    small x h = omega arith

-- Four digits of six bits are three bytes.
quad :
    (i j k l : ℕ) (chars : List ℕ) {a b c d : ℕ}
    → base64_index i ≡ a
    → base64_index j ≡ b
    → base64_index k ≡ c
    → base64_index l ≡ d
    → a < 64
    → b < 64
    → c < 64
    → d < 64
    → base64_bytes 0 10 (i ∷ j ∷ k ∷ l ∷ chars)
      ≡ (a * 4 + b / 16) ∷ (b % 16 * 16 + c / 4) ∷ (c % 4 * 64 + d) ∷ base64_bytes 0 10 chars
quad i j k l chars {a} {b} {c} {d} ei ej ek el ha hb hc hd =
    partial_round 0 10 i (j ∷ k ∷ l ∷ chars) (0 * 2 ^ 16 + a * 1024) (a * 2 ^ 10) 4
      (joined-eq 16 0 i 10 a (a * 1024) ei refl (omega arith) (omega arith)) refl (omega arith) refl
    ∙ full_round (a * 2 ^ 10) 4 j (k ∷ l ∷ chars) (a * 2 ^ 10 + b * 16) (a * 4 + b / 16)
        (b % 16 * 2 ^ 12) 6 (joined-eq 10 a j 4 b (b * 16) ej refl (omega arith) (omega arith)) refl
        (omega arith) (omega arith) refl
    ∙ ap (λ t. (a * 4 + b / 16) ∷ t)
        (full_round (b % 16 * 2 ^ 12) 6 k (l ∷ chars) (b % 16 * 2 ^ 12 + c * 64)
            (b % 16 * 16 + c / 4) (c % 4 * 2 ^ 14) 8
            (joined-eq 12 (b % 16) k 6 c (c * 64) ek refl (omega arith) (omega arith)) refl
            (omega arith) (omega arith) refl
          ∙ ap (λ t. (b % 16 * 16 + c / 4) ∷ t)
              (full_round (c % 4 * 2 ^ 14) 8 l chars (c % 4 * 2 ^ 14 + d * 256) (c % 4 * 64 + d) 0
                10 (joined-eq 14 (c % 4) l 8 d (d * 256) el refl (omega arith) (omega arith)) refl
                (omega arith) (omega arith) refl))

-- The digits of bytes.
first_digit : (x : ℕ) → x < 256 → base64_index (base64_char (x / 2 ^ 2)) ≡ x / 4
first_digit x h = base64_index-base64_char (x / 4) (omega arith)

second_digit :
    (x y : ℕ)
    → y < 256
    → base64_index (base64_char (bit_or (bit_and x 0x03 * 2 ^ 4) (y / 2 ^ 4))) ≡ x % 4 * 16 + y / 16
second_digit x y h =
    rw (mask-low_of 2 x 3 refl, or-joined 4 (x % 2 ^ 2) (y / 2 ^ 4) (omega arith))
      (base64_index-base64_char (x % 4 * 16 + y / 16) (omega arith))

third_digit :
    (y z : ℕ)
    → z < 256
    → base64_index (base64_char (bit_or (bit_and y 0x0f * 2 ^ 2) (z / 2 ^ 6))) ≡ y % 16 * 4 + z / 64
third_digit y z h =
    rw (mask-low_of 4 y 15 refl, or-joined 2 (y % 2 ^ 4) (z / 2 ^ 6) (omega arith))
      (base64_index-base64_char (y % 16 * 4 + z / 64) (omega arith))

second_alone : (x : ℕ) → base64_index (base64_char (bit_and x 0x03 * 2 ^ 4)) ≡ x % 4 * 16
second_alone x = rw (mask-low_of 2 x 3 refl) (base64_index-base64_char (x % 4 * 16) (omega arith))

third_alone : (y : ℕ) → base64_index (base64_char (bit_and y 0x0f * 2 ^ 2)) ≡ y % 16 * 4
third_alone y = rw (mask-low_of 4 y 15 refl) (base64_index-base64_char (y % 16 * 4) (omega arith))

fourth_digit : (z : ℕ) → base64_index (base64_char (bit_and z 0x3f)) ≡ z % 64
fourth_digit z = rw (mask-low_of 6 z 63 refl) (base64_index-base64_char (z % 64) (omega arith))

zero_eq : base64_index 0x3d ≡ 0
unfolding base64_index
zero_eq = refl

triple-eq :
    {x y z x' y' z' : ℕ} {r r' : List ℕ}
    → x ≡ x'
    → y ≡ y'
    → z ≡ z'
    → r ≡ r'
    → (x ∷ y ∷ z ∷ r) ≡ (x' ∷ y' ∷ z' ∷ r')
triple-eq ex ey ez er = cc

length-base64_chars : (bytes : List ℕ) → length (base64_chars bytes) ≡ 4 * ((length bytes + 2) / 3)
unfolding base64_chars
length-base64_chars [] = refl
length-base64_chars (a ∷ []) = refl
length-base64_chars (a ∷ b ∷ []) = refl
length-base64_chars (a ∷ b ∷ c ∷ bytes) = omega (arith, length-base64_chars bytes)

base64_bytes-base64_chars :
    (bytes : List ℕ)
    → All (λ b. b < 256) bytes
    → base64_bytes 0 10 (base64_chars bytes) ≡ bytes ++ replicate ((3 - length bytes % 3) % 3) 0
unfolding base64_chars base64_bytes
base64_bytes-base64_chars [] small = refl
base64_bytes-base64_chars (x ∷ []) (hx, small) =
    quad (base64_char (x / 2 ^ 2)) (base64_char (bit_and x 0x03 * 2 ^ 4)) 0x3d 0x3d []
      (first_digit x hx) (second_alone x) zero_eq zero_eq (omega arith) (omega arith) (omega arith)
      (omega arith)
    ∙ triple-eq (omega arith) (omega arith) (omega arith) refl
base64_bytes-base64_chars (x ∷ y ∷ []) (hx, (hy, small)) =
    quad (base64_char (x / 2 ^ 2)) (base64_char (bit_or (bit_and x 0x03 * 2 ^ 4) (y / 2 ^ 4)))
      (base64_char (bit_and y 0x0f * 2 ^ 2)) 0x3d [] (first_digit x hx) (second_digit x y hy)
      (third_alone y) zero_eq (omega arith) (omega arith) (omega arith) (omega arith)
    ∙ triple-eq (omega arith) (omega arith) (omega arith) refl
base64_bytes-base64_chars (x ∷ y ∷ z ∷ bytes) (hx, (hy, (hz, small))) =
    quad (base64_char (x / 2 ^ 2)) (base64_char (bit_or (bit_and x 0x03 * 2 ^ 4) (y / 2 ^ 4)))
      (base64_char (bit_or (bit_and y 0x0f * 2 ^ 2) (z / 2 ^ 6))) (base64_char (bit_and z 0x3f))
      (base64_chars bytes) (first_digit x hx) (second_digit x y hy) (third_digit y z hz)
      (fourth_digit z) (omega arith) (omega arith) (omega arith) (omega arith)
    ∙ triple-eq (omega arith) (omega arith) (omega arith) (
        base64_bytes-base64_chars bytes small
        ∙ ap (λ n. bytes ++ replicate n 0) (count-eq (length bytes)))
  where
    count-eq : (n : ℕ) → (3 - n % 3) % 3 ≡ (3 - suc (suc (suc n)) % 3) % 3
    count-eq n = omega arith

-- Fewer than 2 ^ 60 bytes are encoded without a fault as a multiple of four characters, which are
-- decoded without a fault to these bytes and, for each character of padding, a zero byte.
pub base64_decode-base64_encode :
    (bytes : List ℕ)
    → All (λ b. b < 256) bytes
    → length bytes < 2 ^ 60
    → (chars : List ℕ) × (base64_encode bytes ≡ some chars)
      × (length chars ≡ 4 * ((length bytes + 2) / 3))
      × (base64_decode chars ≡ some (bytes ++ replicate ((3 - length bytes % 3) % 3) 0))
unfolding base64_encode base64_decode
base64_decode-base64_encode bytes small short = (
  base64_chars bytes,
  rw (olen-eq, less, le→leb (length (base64_chars bytes)) olen (omega (arith, count)), none_left)
      (ap some (append-nil (base64_chars bytes))),
  count,
  rw (decoded, ==-true (length out) (6 * length (base64_chars bytes) % 2 ^ 64 / 8) out-eq) refl,
)
  where
    olen : ℕ
    olen = 4 * ((length bytes + 2) / 3)

    out : List ℕ
    out = bytes ++ replicate ((3 - length bytes % 3) % 3) 0

    count : length (base64_chars bytes) ≡ olen
    count = length-base64_chars bytes

    olen-eq : 4 * ((length bytes + 2) % 2 ^ 64 / 3) % 2 ^ 64 ≡ olen
    olen-eq = omega arith

    less : ltb olen (length bytes) ≡ false
    less = ground arith

    none_left : replicate (olen - length (base64_chars bytes)) zero ≡ []
    none_left =
        ap (λ n. replicate n zero) {x = olen - length (base64_chars bytes)} {y = 0}
          (omega (arith, count))

    decoded : base64_bytes 0 10 (base64_chars bytes) ≡ out
    decoded = base64_bytes-base64_chars bytes small

    out-eq : length out ≡ 6 * length (base64_chars bytes) % 2 ^ 64 / 8
    out-eq = omega (
      arith,
      count,
      length-append bytes (replicate ((3 - length bytes % 3) % 3) 0),
      length-replicate {A = ℕ} ((3 - length bytes % 3) % 3) 0,
    )
