-- ===== src/Array/Removal/Laws.antt =====
-- `removeN_Array` and its callers: they never fault, and they cut out a run of elements.
use the_foundation.Base.{
  ℕ, ◌+◌, ◌-◌, ◌^◌, ◌≤◌, ◌<◌, true, false, some, ltb, le→leb, lt→ltb, ◌≡◌, refl, ap, arith, ◌==◌,
  Bool-cases, inl, inr, ==-false, to_int-eq_of_lt,
}
use the_foundation.Array.{Array, size, invalid_size}
use the_foundation.Array.Shape.{IsValid, at}
use the_foundation.Array.Moves.{move_up, move_down}
use the_foundation.Array.Removal.{remove_at, remove_n}

module _ {A : Type 0} where
  -- `d'` is `d` without the `count` elements from the position `p` on.
  pub record Removed (d : Array A) (p count : ℕ) (d' : Array A) : Type 0 where
    pub valid : IsValid d'
    pub size_eq : size d' + count ≡ size d
    pub before : (i : ℕ) → i < p → i < size d' → at d' i ≡ at d i
    pub after : (i : ℕ) → p ≤ i → i < size d' → at d' i ≡ at d (i + count)

  remove_at-Removed :
      {d : Array A} (p count : ℕ)
      → IsValid d
      → p + count ≤ size d
      → 0 < count
      → count < 2 ^ 31
      → (d' : Array A) × (remove_at d (p + d.start) count ≡ some d') × Removed d p count d'
  unfolding remove_at
  remove_at-Removed {d} p count v h some_removed small =
      elim (Bool-cases (p + d.start == d.end - count)) [
        | inl last ↦ (
          record d { end = d.end - count },
          rw last,
          record {
            valid = omega (arith, v);
            size_eq = omega (arith, v);
            before = λ i q r. refl;
            after = λ i q r. absurd (ground (arith, v));
          },
        )
        | inr inner ↦ elim (Bool-cases (p + d.start == d.start)) [
          | inl front ↦ (
            record d { start = d.start + count },
            rw (inner, front),
            record {
              valid = omega (arith, v);
              size_eq = omega (arith, v);
              before = λ i q r. absurd (ground arith);
              after = λ i q r. ap d.cells (omega arith);
            },
          )
          | inr middle ↦ elim (Bool-cases (ltb (d.end - (p + d.start)) (p + d.start - d.start))) [
            | inl near_end ↦ down inner middle near_end
            | inr near_start ↦ up inner middle near_start
          ]
        ]
      ]
    where
      place : ℕ
      place = p + d.start

      Result : Type 0
      Result = (d' : Array A) × (remove_at d (p + d.start) count ≡ some d') × Removed d p count d'

      down :
          (place == d.end - count) ≡ false
          → (place == d.start) ≡ false
          → ltb (d.end - place) (place - d.start) ≡ true
          → Result
      down inner middle near_end =
          let (m, e, moved) =
            move_down d {lo = place + count} {hi = d.end} count (omega (arith, v)) v.fits
              (omega arith) in
          (
            record m { end = d.end - count },
            rw (inner, middle, near_end, to_int-eq_of_lt count small, e),
            record {
              valid = omega (arith, v, moved.start_eq, moved.alloc_eq);
              size_eq = omega (arith, v, moved.start_eq);
              before = λ i q r. ground (arith, moved.below (d.start + i), moved.start_eq);
              after = λ i q r. ground (arith, moved.block (d.start + i + count), moved.start_eq);
            },
          )

      up :
          (place == d.end - count) ≡ false
          → (place == d.start) ≡ false
          → ltb (d.end - place) (place - d.start) ≡ false
          → Result
      up inner middle near_start =
          let (m, e, moved) =
            move_up d {lo = d.start} {hi = place} count (omega arith) (omega (arith, v)) in
          (
            record m { start = d.start + count },
            rw (inner, middle, near_start, e),
            record {
              valid = omega (arith, v, moved.end_eq, moved.alloc_eq);
              size_eq = omega (arith, v, moved.end_eq);
              before = λ i q r. ground (arith, moved.block (d.start + i));
              after = λ i q r. ground (arith, moved.above (d.start + count + i));
            },
          )

  -- A removal of a run that lies inside of the array, of a count that fits into an `int`, succeeds:
  -- no assertion fails and no access leaves the allocation. The elements around the run remain, in
  -- order, and the array is well formed.
  pub remove_n-Removed :
      {d : Array A} (p count : ℕ)
      → IsValid d
      → p < size d
      → p + count ≤ size d
      → count < 2 ^ 31
      → (d' : Array A) × (remove_n d p count ≡ some d') × Removed d p count d'
  unfolding remove_n
  remove_n-Removed {d} p count v inside h small = elim (Bool-cases (count == 0)) [
    | inl nothing ↦ (
      d,
      rw nothing,
      record {
        valid = v;
        size_eq = ground arith;
        before = λ i q r. refl;
        after = λ i q r. ground arith;
      },
    )
    | inr something ↦
        let (d', e, removed) = remove_at-Removed p count v h (ground arith) small in
        (
          d',
          rw
              (
                something,
                ==-false count invalid_size (omega arith),
                lt→ltb p (size d) inside,
                le→leb (p + count) (size d) h,
              )
              e,
          removed,
        )
  ]
