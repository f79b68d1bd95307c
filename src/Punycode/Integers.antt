-- ===== src/Punycode/Integers.antt =====
-- Integers of variable length: what reading one ends with, and that it reads what was written.
use native.Mathlib.Nat.{le-div_iff_mul-le, mul-pos}
use the_foundation.Base.{
  ℕ, ◌+◌, ◌-◌, ◌*◌, ◌/◌, ◌%◌, ◌^◌, ◌≤◌, ◌<◌, some, ltb, leb, Bool-cases, inl, inr, ◌≡◌, refl, arith,
  lt→ltb, ◌==◌, ==-false, false, List, [], ◌∷◌, length, holds_below, holds_below→eq,
}
use the_foundation.Punycode.{
  Read, done, failed, decode_digit, encode_digit, char_word, threshold, read_integer, uint32_max,
  Status, bad_input, overflow,
}

pub decode_digit-encode_digit : (d : ℕ) → d < 36 → decode_digit (char_word (encode_digit d)) ≡ d
unfolding holds_below decode_digit encode_digit
decode_digit-encode_digit =
    holds_below→eq (λ d. decode_digit (char_word (encode_digit d))) (λ d. d) 36 refl

pub threshold-pos : (k bias : ℕ) → bias < 2 ^ 31 → 0 < threshold k bias
threshold-pos k bias h = ground arith

pub threshold-le : (k bias : ℕ) → bias < 2 ^ 31 → threshold k bias ≤ 26
threshold-le k bias h = ground arith

pub threshold-divisor : (k bias : ℕ) → bias < 2 ^ 31 → (threshold k bias == 36) ≡ false
threshold-divisor k bias h =
    ==-false (threshold k bias) 36 (λ e. omega (arith, e, threshold-le k bias h))

-- Reading never faults, and takes at least one character for a sum.
pub data Ended (input : List ℕ) : Read → Type 0 where
  stopped : (s : Status) → Ended input (failed s)
  taken : (sum : ℕ) (rest : List ℕ) → length rest < length input → Ended input (done sum rest)

-- The weight of the next digit, after the test for overflow.
pub weight-eq : (w s : ℕ) → 0 < s → w ≤ uint32_max / s → w * s % 2 ^ 32 ≡ w * s
weight-eq w s p h =
    let fits : w * s ≤ uint32_max = (le-div_iff_mul-le {k = s} {x = w} {y = uint32_max} p).0 h in
    omega arith

weight-pos : (w s : ℕ) → 0 < w → 0 < s → w ≤ uint32_max / s → 0 < w * s % 2 ^ 32
weight-pos w s p q h = omega (arith, weight-eq w s q h, mul-pos p q)

pub read_integer-Ended :
    (cs : List ℕ) (i w k bias : ℕ)
    → 0 < w
    → bias < 2 ^ 31
    → (r : Read) × (read_integer cs i w k bias ≡ some r) × Ended cs r
unfolding read_integer
read_integer-Ended [] i w k bias p b = (failed bad_input, refl, stopped bad_input)
read_integer-Ended (c ∷ cs) i w k bias p b =
    let digit = decode_digit (char_word c) in
    let t = threshold k bias in
    let s-pos : 0 < 36 - t = omega (arith, threshold-le k bias b) in
    elim (Bool-cases (leb 36 digit)) [
      | inl e ↦ (failed bad_input, rw e refl, stopped bad_input)
      | inr e ↦ elim (Bool-cases (ltb ((uint32_max - i) / w) digit)) [
        | inl o ↦ (failed overflow, rw (e, lt→ltb 0 w p, o) refl, stopped overflow)
        | inr o ↦ elim (Bool-cases (ltb digit t)) [
          | inl l ↦ (
            done ((i + digit * w) % 2 ^ 32) cs,
            rw (e, lt→ltb 0 w p, o, l) refl,
            taken ((i + digit * w) % 2 ^ 32) cs (omega arith),
          )
          | inr l ↦ elim (Bool-cases (ltb (uint32_max / (36 - t)) w)) [
            | inl v ↦ (
              failed overflow,
              rw (e, lt→ltb 0 w p, o, l, threshold-divisor k bias b, v) refl,
              stopped overflow,
            )
            | inr v ↦
                let (r, eq, ended) =
                  read_integer-Ended cs ((i + digit * w) % 2 ^ 32) (w * (36 - t) % 2 ^ 32)
                    ((k + 36) % 2 ^ 32) bias (weight-pos w (36 - t) p s-pos (ground arith)) b in
                (
                  r,
                  rw (e, lt→ltb 0 w p, o, l, threshold-divisor k bias b, v) eq,
                  longer {r = r} ended,
                )
          ]
        ]
      ]
    ]
  where
    longer : {r : Read} → Ended cs r → Ended (c ∷ cs) r
    longer (stopped s) = stopped s
    longer (taken sum rest h) = taken sum rest (omega arith)
