-- ===== src/Punycode/Adapt.antt =====
-- The adaptation of the bias ends and gives a small number.
use native.Mathlib.Nat.{pow-suc, div-lt_iff_lt-mul}
use the_foundation.Base.{
  ℕ, zero, suc, ◌+◌, ◌*◌, ◌/◌, ◌%◌, ◌^◌, ◌≤◌, ◌<◌, Bool, some, ltb, Bool-cases, inl, inr, ◌≡◌, refl,
  arith, lt→ltb, if◌then◌else◌,
}
use the_foundation.Punycode.{adapt_loop, adapt}

adapt_loop-ends :
    (fuel delta k : ℕ)
    → delta < 456 * 35 ^ fuel
    → (rest : ℕ) × (k' : ℕ) × (adapt_loop (suc fuel) delta k ≡ some (rest, k'))
      × (k' ≤ k + 36 * fuel)
unfolding adapt_loop
adapt_loop-ends zero delta k h = (delta, k, ground arith, omega arith)
adapt_loop-ends (suc fuel) delta k h = elim (Bool-cases (ltb 455 delta)) [
  | inl e ↦
      let (rest, k', eq, bound) =
        adapt_loop-ends fuel (delta / 35) (k + 36) (omega (arith, pow-suc 35 fuel)) in
      (rest, k', rw e eq, omega arith)
  | inr e ↦ (delta, k, rw e refl, omega arith)
]

-- A quotient by more than the factor's part stays below the factor.
quotient-le : (r : ℕ) → 36 * r / (r + 38) ≤ 36
quotient-le r =
    omega
      (arith, (div-lt_iff_lt-mul {k = r + 38} {x = 36 * r} {y = 37} (omega arith)).1 (omega arith))

pub adapt-ends :
    (delta points : ℕ) (first : Bool)
    → 0 < points
    → (bias : ℕ) × (adapt delta points first ≡ some bias) × (bias < 2 ^ 31)
unfolding adapt
adapt-ends delta points first h =
    let scaled = if first then delta / 700 else delta / 2 in
    let (rest, k, eq, bound) =
      adapt_loop-ends 6 ((scaled + scaled / points) % 2 ^ 32) 0 (omega arith) in
    (k + 36 * rest / (rest + 38), rw (lt→ltb 0 points h, eq) refl, omega (arith, quotient-le rest))
