-- ===== src/Punycode/RoundTrip.antt =====
-- What the encoder writes for an integer is what the decoder reads.
use native.Mathlib.Nat.{
  le-div_iff_mul-le, mul-pos, mod-add-div', mod-lt, le-mul_of_pos_right, mul-le-mul_left,
  mul-le-mul_right, add-mul, mul_assoc, mul_comm,
}
use the_foundation.Base.{
  ℕ, zero, suc, ◌+◌, ◌-◌, ◌*◌, ◌/◌, ◌%◌, ◌^◌, ◌≤◌, ◌<◌, false, some, ltb, leb, Bool-cases, inl, inr,
  ◌≡◌, refl, sym, ap, ◌∙◌, arith, lt→ltb, ltb→lt, ==-false, List, [], ◌∷◌, ◌++◌,
}
use the_foundation.Punycode.{done, encode_digit, threshold, read_integer, write_integer, uint32_max}
use the_foundation.Punycode.Integers.{
  decode_digit-encode_digit, threshold-pos, threshold-le, threshold-divisor, weight-eq,
}

leb-false : (a b : ℕ) → b < a → leb a b ≡ false
leb-false a b h = ground arith

ltb-false : (a b : ℕ) → b ≤ a → ltb a b ≡ false
ltb-false a b h = ground arith

-- No overflow is found where there is none.
sum-fits : (i d w : ℕ) → 0 < w → i + d * w ≤ uint32_max → d ≤ (uint32_max - i) / w
sum-fits i d w p h = (le-div_iff_mul-le {k = w} {x = d} {y = uint32_max - i} p).1 (omega arith)

read_last :
    (d i w k bias : ℕ) (cs : List ℕ)
    → d < 36
    → d < threshold k bias
    → 0 < w
    → i + d * w ≤ uint32_max
    → read_integer (encode_digit d ∷ cs) i w k bias ≡ some (done (i + d * w) cs)
unfolding read_integer
read_last d i w k bias cs small last p fits =
    let sum-eq : (i + d * w) % 2 ^ 32 ≡ i + d * w = omega arith in
    rw
      (
        decode_digit-encode_digit d small,
        leb-false 36 d small,
        lt→ltb 0 w p,
        ltb-false ((uint32_max - i) / w) d (sum-fits i d w p fits),
        lt→ltb d (threshold k bias) last,
        sum-eq,
      )
      refl

read_next :
    (d i w k bias : ℕ) (cs : List ℕ)
    → bias < 2 ^ 31
    → d < 36
    → threshold k bias ≤ d
    → 0 < w
    → i + d * w ≤ uint32_max
    → w * (36 - threshold k bias) ≤ uint32_max
    → read_integer (encode_digit d ∷ cs) i w k bias
      ≡ read_integer cs (i + d * w) (w * (36 - threshold k bias)) ((k + 36) % 2 ^ 32) bias
unfolding read_integer
read_next d i w k bias cs b small next p fits room =
    let sum-eq : (i + d * w) % 2 ^ 32 ≡ i + d * w = omega arith in
    let s-pos : 0 < 36 - threshold k bias = omega (arith, threshold-le k bias b) in
    let w-fits : w ≤ uint32_max / (36 - threshold k bias) =
      (le-div_iff_mul-le {k = 36 - threshold k bias} {x = w} {y = uint32_max} s-pos).1 room in
    rw
      (
        decode_digit-encode_digit d small,
        leb-false 36 d small,
        lt→ltb 0 w p,
        ltb-false ((uint32_max - i) / w) d (sum-fits i d w p fits),
        ltb-false d (threshold k bias) next,
        threshold-divisor k bias b,
        ltb-false (uint32_max / (36 - threshold k bias)) w w-fits,
        sum-eq,
        weight-eq w (36 - threshold k bias) s-pos w-fits,
      )
      refl

digit-quotient : (q t s : ℕ) → t ≤ q → t + (q - t) % s + (q - t) / s * s ≡ q
digit-quotient q t s h = omega (arith, mod-add-div' (q - t) s)

-- The value of a digit and of the digits behind it.
weighted : (q t s w : ℕ) → t ≤ q → (t + (q - t) % s) * w + (q - t) / s * (w * s) ≡ q * w
weighted q t s w h =
    ap (λ x. (t + (q - t) % s) * w + x) {x = (q - t) / s * (w * s)} {y = (q - t) / s * s * w}
      (ap (λ x. (q - t) / s * x) (mul_comm w s) ∙ sym (mul_assoc ((q - t) / s) s w))
    ∙ sym (add-mul (t + (q - t) % s) ((q - t) / s * s) w)
    ∙ ap (λ x. x * w) (digit-quotient q t s h)

-- An integer below the fuel and the room is written. A reader with a positive weight reads it back, and
-- stops before the characters behind it, where the integer times the weight is below 2 ^ 26 and the sum
-- has room for it; the bias is below 2 ^ 31.
pub read_integer-write_integer :
    (fuel room q i w k bias : ℕ)
    → q < fuel
    → q < room
    → 0 < w
    → q * w < 2 ^ 26
    → i + q * w ≤ uint32_max
    → bias < 2 ^ 31
    → (cs : List ℕ) × (write_integer fuel room q k bias ≡ some (some cs))
      × ((tail : List ℕ) → read_integer (cs ++ tail) i w k bias ≡ some (done (i + q * w) tail))
unfolding write_integer
read_integer-write_integer zero room q i w k bias f r p small fits b = absurd (omega arith)
read_integer-write_integer (suc fuel) room q i w k bias f r p small fits b =
    let t = threshold k bias in
    let t-pos = threshold-pos k bias b in
    let t-le = threshold-le k bias b in
    elim (Bool-cases (ltb q t)) [
      | inl e ↦ (
        encode_digit q ∷ [],
        rw (==-false room 0 (ground arith), e) refl,
        λ tail. read_last q i w k bias tail (ground arith) (ltb→lt q t e) p fits,
      )
      | inr e ↦
          let le : t ≤ q = ground arith in
          let s = 36 - t in
          let d = t + (q - t) % s in
          let rest = (q - t) / s in
          let sum-eq : d * w + rest * (w * s) ≡ q * w = weighted q t s w le in
          let parts : d + rest * s ≡ q = digit-quotient q t s le in
          let below : (q - t) % s < s = mod-lt (q - t) {m = s} (omega arith) in
          let w-le : 1 * w ≤ q * w = mul-le-mul_right w (omega arith) in
          let w-room : w * s ≤ w * 36 = mul-le-mul_left w (omega arith) in
          let rest-le : rest ≤ rest * s = le-mul_of_pos_right rest (omega arith) in
          let (cs, eq, back) =
            read_integer-write_integer fuel (room - 1) rest (i + d * w) (w * s) ((k + 36) % 2 ^ 32)
              bias (omega arith) (omega arith) (mul-pos p (omega arith)) (omega arith) (omega arith)
              b in
          (
            encode_digit d ∷ cs,
            rw (==-false room 0 (ground arith), e, threshold-divisor k bias b, eq) refl,
            λ tail.
                read_next d i w k bias (cs ++ tail) b (omega arith) (omega arith) p (omega arith)
                  (omega arith)
                ∙ back tail
                ∙ ap (λ x. some (done x tail)) {x = i + d * w + rest * (w * s)} {y = i + q * w}
                    (omega arith),
          )
    ]
