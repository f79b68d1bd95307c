-- ===== src/Array/Growth.antt =====
-- `reserve_Array`: the doubling loop ends, and the elements stay where they are.
use the_foundation.Base.{
  ℕ, zero, suc, ◌*◌, ◌%◌, ◌^◌, ◌≤◌, some, ltb, ◌==◌, if◌then◌else◌, ◌≡◌, refl, arith, max, false,
  Bool-cases, inl, inr, ltb→lt,
}
use native.Mathlib.Nat.{pow-zero, pow-suc, mul_assoc, mul_comm}
use the_foundation.Array.{Array, grow, reserve, min_alloc}
use the_foundation.Array.Shape.{IsValid}

double : (n fuel m : ℕ) → m ≤ n * 2 ^ suc fuel → m ≤ n * 2 * 2 ^ fuel
double n fuel m h = rw (mul_assoc, mul_comm 2 (2 ^ fuel), ← pow-suc) h

-- With enough rounds for the doublings left, the loop gives a size that is large enough, and
-- less than twice what is needed unless it was so at the start.
pub grow-some :
    (fuel n reserved : ℕ)
    → reserved ≤ n * 2 ^ fuel
    → reserved ≤ 2 ^ 62
    → (m : ℕ) × (grow (suc fuel) n reserved ≡ some m)
      × (reserved ≤ m)
      × (n ≤ m)
      × (m ≤ max n (2 * reserved))
unfolding grow
grow-some zero n reserved h small =
    (n, ground (arith, pow-zero 2), ground (arith, pow-zero 2), omega arith, omega arith)
grow-some (suc fuel) n reserved h small = elim (Bool-cases (ltb n reserved)) [
  | inl more ↦
      let n' : n * 2 % 2 ^ 64 ≡ n * 2 = omega (arith, ltb→lt n reserved more) in
      let (m, e, enough, above, below) =
        grow-some fuel (n * 2) reserved (double n fuel reserved h) small in
      (m, rw (more, n') e, enough, omega arith, omega (arith, ltb→lt n reserved more))
  | inr done ↦ (n, rw done, ground arith, omega arith, omega arith)
]

enough_of_not_ltb : (m a reserved : ℕ) → reserved ≤ m → ltb a m ≡ false → reserved ≤ a
enough_of_not_ltb m a reserved h e = ground arith

-- The size that the doubling starts from.
first_bounds :
    (a : ℕ)
    → let first = if a == 0 then min_alloc else a in (a ≤ first) × (1 ≤ first) × (first ≤ max a 4)
first_bounds a = ground arith

module _ {A : Type 0} where
  -- The allocation is large enough for what was asked for, and at most doubles it; the elements
  -- stay where they are.
  pub record Reserved (d d' : Array A) (reserved : ℕ) : Type 0 where
    pub valid : IsValid d'
    pub enough : reserved ≤ d'.alloc_size
    pub kept : d.alloc_size ≤ d'.alloc_size
    pub start_eq : d'.start ≡ d.start
    pub end_eq : d'.end ≡ d.end
    pub cells_eq : (i : ℕ) → d'.cells i ≡ d.cells i

  -- Reserving a size of at most 2 ^ 61 in a well-formed array ends. The allocation is then large
  -- enough and no smaller than before, the array is well formed, and its elements stay where they
  -- are.
  pub reserve-Reserved :
      {d : Array A} (reserved : ℕ)
      → IsValid d
      → reserved ≤ 2 ^ 61
      → (d' : Array A) × (reserve d reserved ≡ some d') × Reserved d d' reserved
  unfolding reserve
  reserve-Reserved {d} reserved v h =
      let first = if d.alloc_size == 0 then min_alloc else d.alloc_size in
      let (above_alloc, above_zero, below_max) = first_bounds d.alloc_size in
      let (m, e, enough, above, below) = grow-some 64 first reserved (omega arith) (omega arith) in
      elim (Bool-cases (ltb d.alloc_size m)) [
        | inl more ↦ (
          record { cells = d.cells; start = d.start; end = d.end; alloc_size = m },
          rw (e, more),
          record {
            valid = omega (arith, v.ordered, v.fits, v.small);
            enough = enough;
            kept = omega (arith, ltb→lt d.alloc_size m more);
            start_eq = refl;
            end_eq = refl;
            cells_eq = λ i. refl;
          },
        )
        | inr fits ↦ (
          d,
          rw (e, fits),
          record {
            valid = v;
            enough = enough_of_not_ltb m d.alloc_size reserved enough fits;
            kept = omega arith;
            start_eq = refl;
            end_eq = refl;
            cells_eq = λ i. refl;
          },
        )
      ]
