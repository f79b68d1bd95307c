-- ===== src/Punycode/Decoding.antt =====
-- The decoder ends and stays inside of its output.
use the_foundation.Base.{
  ℕ, zero, suc, ◌+◌, ◌-◌, ◌/◌, ◌%◌, ◌^◌, ◌≤◌, ◌<◌, Option, some, ltb, leb, ◌==◌, Bool-cases, inl,
  inr, ◌≡◌, refl, arith, le→leb, List, [], ◌∷◌, ◌++◌, length, length-append, length-take,
  length-drop, take, drop, if◌then◌else◌,
}
use the_foundation.Punycode.{
  Status, success, overflow, big_output, bad_input, Read, sub_word, read_integer, decode_loop,
  decode, last_delim, all_basic, uint32_max,
}
use the_foundation.Punycode.Adapt.{adapt-ends}
use the_foundation.Punycode.Integers.{Ended, stopped, taken, read_integer-Ended}

-- A run that ends, with no more code points than there is room for.
abbrev Bounded : ℕ → Option (Status × List ℕ) → Type 0
Bounded out_max run =
    (s : Status) × (output : List ℕ) × (run ≡ some (s, output)) × (length output ≤ out_max)

length-insert :
    (p v : ℕ) (output : List ℕ)
    → p ≤ length output
    → length (take p output ++ (v ∷ drop p output)) ≡ length output + 1
length-insert p v output h = omega (
  arith,
  length-append (take p output) (v ∷ drop p output),
  length-take p output,
  length-drop p output,
)

decode_loop-Bounded :
    (fuel out_max n bias i : ℕ) (output input : List ℕ)
    → out_max < uint32_max
    → length output ≤ out_max
    → length input ≤ fuel
    → bias < 2 ^ 31
    → Bounded out_max (decode_loop fuel out_max n bias i output input)
unfolding decode_loop
decode_loop-Bounded zero out_max n bias i output [] m o f b = (success, output, refl, o)
decode_loop-Bounded (suc fuel) out_max n bias i output [] m o f b = (success, output, refl, o)
decode_loop-Bounded zero out_max n bias i output (c ∷ cs) m o f b = absurd (omega arith)
decode_loop-Bounded (suc fuel) out_max n bias i output (c ∷ cs) m o f b =
    let (r, eq, ended) = read_integer-Ended (c ∷ cs) i 1 36 bias (omega arith) b in
    read_done {r = r} eq ended (decode_loop-Bounded fuel out_max)
  where
    read_done :
        {r : Read}
        → read_integer (c ∷ cs) i 1 36 bias ≡ some r
        → Ended (c ∷ cs) r
        → ((n bias i : ℕ) (output input : List ℕ)
            → out_max < uint32_max
            → length output ≤ out_max
            → length input ≤ fuel
            → bias < 2 ^ 31
            → Bounded out_max (decode_loop fuel out_max n bias i output input))
        → Bounded out_max (decode_loop (suc fuel) out_max n bias i output (c ∷ cs))
    read_done eq (stopped s) go = (s, output, rw eq refl, o)
    read_done eq (taken sum rest less) go =
        let points = (length output + 1) % 2 ^ 32 in
        let (bias', eq', b') = adapt-ends (sub_word sum i) points (i == 0) (omega arith) in
        elim (Bool-cases (ltb (uint32_max - n) (sum / points))) [
          | inl v ↦ (overflow, output, rw (eq, eq', v) refl, o)
          | inr v ↦ elim (Bool-cases (leb out_max (length output))) [
            | inl u ↦ (big_output, output, rw (eq, eq', v, u) refl, o)
            | inr u ↦
                let inside : sum % points ≤ length output = omega arith in
                let longer = length-insert (sum % points) (n + sum / points) output inside in
                let (s, result, eq'', fits) =
                  go (n + sum / points) bias' ((sum % points + 1) % 2 ^ 32)
                    (take (sum % points) output
                      ++ ((n + sum / points) ∷ drop (sum % points) output))
                    rest m (ground (arith, longer)) (omega arith) b' in
                (
                  s,
                  result,
                  rw (eq, eq', v, u, le→leb (sum % points) (length output) inside) eq'',
                  fits,
                )
          ]
        ]

-- For any input and room for fewer than 2 ^ 32 - 1 code points the decoder ends with a status: no write
-- leaves the output, no divisor is zero, every loop ends, and the output fits into its room.
pub decode-Bounded :
    (out_max : ℕ) (input : List ℕ)
    → out_max < uint32_max
    → (s : Status) × (output : List ℕ) × (decode out_max input ≡ some (s, output))
      × (length output ≤ out_max)
unfolding decode
decode-Bounded out_max input m =
    let b = last_delim 0 0 input in
    elim (Bool-cases (ltb out_max b)) [
      | inl e ↦ (big_output, [], rw e refl, omega arith)
      | inr e ↦ elim (Bool-cases (all_basic (take b input))) [
        | inl a ↦
            let (s, output, eq, fits) =
              decode_loop-Bounded (length input) out_max 0x80 72 0 (take b input)
                (drop (if ltb 0 b then b + 1 else 0) input) m (ground (arith, length-take b input))
                (omega (arith, length-drop (if ltb 0 b then b + 1 else 0) input)) (omega arith) in
            (s, output, rw (e, a) eq, fits)
        | inr a ↦ (bad_input, [], rw (e, a) refl, omega arith)
      ]
    ]
