-- ===== src/Punycode.antt =====
-- The decoder of src/punycode.c, and how its encoder writes an integer. `caseFlags` is NULL, as in
-- both calls of the file. A character is a byte, which stands as a `char` that is negative from 128 on.
-- `none` is a write outside of the output, a division by zero, or a loop that runs out of fuel.
pub mod Adapt
pub mod Integers
pub mod Decoding
pub mod RoundTrip
mod Tests
use the_foundation.Base.{
  ℕ, zero, suc, ◌+◌, ◌-◌, ◌*◌, ◌/◌, ◌%◌, ◌^◌, Bool, true, not, ◌&&◌, Option, none, some, List, [],
  ◌∷◌, ◌++◌, length, take, drop, ltb, leb, ◌==◌, if◌then◌else◌, check, ◌>>=◌, ◌>>◌,
}

-- `iPunyStatus`
pub data Status : Type 0 where
  success : Status
  bad_input : Status
  big_output : Status
  overflow : Status

abbrev pub uint32_max : ℕ
uint32_max = 2 ^ 32 - 1

-- `a - b` of two `uint32_t`.
abbrev pub sub_word : ℕ → ℕ → ℕ
sub_word a b = (a + 2 ^ 32 - b) % 2 ^ 32

-- The `uint32_t` of a `char`.
abbrev pub char_word : ℕ → ℕ
char_word c = if ltb c 128 then c else 2 ^ 32 - 256 + c

abbrev pub is_basic : ℕ → Bool
is_basic cp = ltb cp 0x80

abbrev pub is_delim : ℕ → Bool
is_delim cp = cp == 0x2d

pub decode_digit : ℕ → ℕ
decode_digit cp =
    if ltb (sub_word cp 48) 10
    then sub_word cp 22
    else if ltb (sub_word cp 65) 26
    then sub_word cp 65
    else if ltb (sub_word cp 97) 26
    then sub_word cp 97
    else 36

-- `encodeDigit_` without the flag for upper case.
pub encode_digit : ℕ → ℕ
encode_digit d = (d + 22 + 75 * (if ltb d 26 then 1 else 0)) % 2 ^ 32 % 256

-- The loop of `adapt_`, on fuel: what is left of `delta`, and `k`.
pub adapt_loop : ℕ → (delta k : ℕ) → Option (ℕ × ℕ)
adapt_loop zero delta k = none
adapt_loop (suc fuel) delta k =
    let rest = adapt_loop fuel (delta / 35) (k + 36) in
    if ltb (35 * 26 / 2) delta then rest else some (delta, k)

pub adapt : (delta num_points : ℕ) → (first : Bool) → Option ℕ
unfolding adapt_loop
adapt delta num_points first =
    let scaled = if first then delta / 700 else delta / 2 in
    do
      check (ltb 0 num_points)
      (rest, k) ← adapt_loop 7 ((scaled + scaled / num_points) % 2 ^ 32) 0
      some (k + 36 * rest / (rest + 38))

-- The threshold of a digit, where the bias leaves room for `tmax`.
abbrev pub threshold : (k bias : ℕ) → ℕ
threshold k bias = if leb k bias then 1 else if leb ((bias + 26) % 2 ^ 32) k then 26 else k - bias

-- What reading an integer ends with: an error, or the sum and the input left.
pub data Read : Type 0 where
  failed : Status → Read
  done : ℕ → List ℕ → Read

-- The inner loop of `decode_`. The divisor `36 - t` is zero where `t` is 36.
pub read_integer : List ℕ → (i w k bias : ℕ) → Option Read
unfolding decode_digit
read_integer [] i w k bias = some (failed bad_input)
read_integer (c ∷ cs) i w k bias =
    let digit = decode_digit (char_word c) in
    let t = threshold k bias in
    let sum = (i + digit * w) % 2 ^ 32 in
    let rest = read_integer cs sum (w * (36 - t) % 2 ^ 32) ((k + 36) % 2 ^ 32) bias in
    if leb 36 digit then some (failed bad_input) else (do
      check (ltb 0 w)
      if ltb ((uint32_max - i) / w) digit
          then some (failed overflow)
          else if ltb digit t
          then some (done sum cs)
          else (do
            check (not (t == 36))
            if ltb (uint32_max / (36 - t)) w then some (failed overflow) else rest))

-- The inner loop of `encode_`, on fuel, with room for `room` characters: the characters, or none of
-- them where the output is too small.
pub write_integer : ℕ → (room q k bias : ℕ) → Option (Option (List ℕ))
unfolding encode_digit
write_integer zero room q k bias = none
write_integer (suc fuel) room q k bias =
    let t = threshold k bias in
    let digit = t + (q - t) % (36 - t) in
    let rest = write_integer fuel (room - 1) ((q - t) / (36 - t)) ((k + 36) % 2 ^ 32) bias in
    if room == 0 then some none else if ltb q t then some (some (encode_digit q ∷ [])) else (do
      check (not (t == 36))
      written ← rest
      some (elim written [ none ↦ none | some cs ↦ some (encode_digit digit ∷ cs) ]))

-- The position of the last delimiter, and 0 where there is none.
pub last_delim : (j b : ℕ) → List ℕ → ℕ
last_delim j b [] = b
last_delim j b (c ∷ cs) = last_delim (j + 1) (if is_delim (char_word c) then j else b) cs

abbrev pub all_basic : List ℕ → Bool
all_basic [] = true
all_basic (c ∷ cs) = is_basic (char_word c) && all_basic cs

-- The outer loop of `decode_`, on fuel. The code points put out so far are `output`.
pub decode_loop : ℕ → (out_max n bias i : ℕ) → (output input : List ℕ) → Option (Status × List ℕ)
unfolding read_integer adapt
decode_loop fuel out_max n bias i output [] = some (success, output)
decode_loop zero out_max n bias i output (c ∷ cs) = none
decode_loop (suc fuel) out_max n bias i output (c ∷ cs) = do
  r ← read_integer (c ∷ cs) i 1 36 bias
  elim r [
    | failed s ↦ some (s, output)
    | done sum rest ↦
        let points = (length output + 1) % 2 ^ 32 in
        do
          bias' ← adapt (sub_word sum i) points (i == 0)
          if ltb (uint32_max - n) (sum / points)
              then some (overflow, output)
              else if leb out_max (length output)
              then some (big_output, output)
              else (do
                check (leb (sum % points) (length output))
                decode_loop fuel out_max (n + sum / points) bias' ((sum % points + 1) % 2 ^ 32)
                    (take (sum % points) output
                      ++ ((n + sum / points) ∷ drop (sum % points) output))
                    rest)
  ]

-- `decode_`, with room for `out_max` code points.
pub decode : (out_max : ℕ) → List ℕ → Option (Status × List ℕ)
unfolding decode_loop last_delim
decode out_max input =
    let b = last_delim 0 0 input in
    if ltb out_max b
    then some (big_output, [])
    else if all_basic (take b input)
    then decode_loop (length input) out_max 0x80 72 0 (take b input)
        (drop (if ltb 0 b then b + 1 else 0) input)
    else some (bad_input, [])
