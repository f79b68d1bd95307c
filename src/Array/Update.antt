-- ===== src/Array/Update.antt =====
-- `setN_Array` and `resize_Array`: overwriting elements, and changing their number.
use the_foundation.Base.{
  ℕ, ◌+◌, ◌-◌, ◌/◌, ◌^◌, ◌≤◌, ◌<◌, false, some, ltb, le→leb, lt→ltb, ltb→lt, ◌==◌, ◌≡◌, refl, arith,
  Bool-cases, inl, inr, ◌∙◌, ap, to_int-eq_of_lt, ==_iff, sub_ℕ-eq-neg,
}
use the_foundation.Array.{Array, size, write, copied, set_n, resize}
use the_foundation.Array.Shape.{IsValid, at, shift_down}
use the_foundation.Array.Growth.{reserve-Reserved}

module _ {A : Type 0} where
  -- `d'` is `d` with `count` elements from `p` on overwritten.
  pub record Updated (d : Array A) (p : ℕ) (value : ℕ → A) (count : ℕ) (d' : Array A) : Type 0 where
    pub valid : IsValid d'
    pub size_eq : size d' ≡ size d
    pub inside : (i : ℕ) → i < count → at d' (p + i) ≡ value i
    pub before : (i : ℕ) → i < p → at d' i ≡ at d i
    pub after : (i : ℕ) → p + count ≤ i → at d' i ≡ at d i

  -- A run that starts inside of a well-formed array and does not leave it is overwritten without a
  -- fault; nothing else changes.
  pub set_n-Updated :
      {d : Array A} (p : ℕ) (value : ℕ → A) (count : ℕ)
      → IsValid d
      → p < size d
      → p + count ≤ size d
      → (d' : Array A) × (set_n d p value count ≡ some d') × Updated d p value count d'
  unfolding set_n write
  set_n-Updated {d} p value count v inside h = (
    record d { cells = copied d.cells (d.start + p) value count },
    rw (
      le→leb (p + count) (size d) h,
      lt→ltb p (size d) inside,
      le→leb (d.start + p + count) d.alloc_size (omega (arith, v)),
    ),
    record {
      valid = omega (arith, v);
      size_eq = refl;
      inside = λ i q. ground arith;
      before = λ i q. ground arith;
      after = λ i q. ground arith;
    },
  )

  -- `d'` has `count` elements: those of `d` as far as both go, and zeroed ones behind.
  pub record Resized (zeroed : A) (d : Array A) (count : ℕ) (d' : Array A) : Type 0 where
    pub valid : IsValid d'
    pub size_eq : size d' ≡ count
    pub kept : (i : ℕ) → i < size d → i < count → at d' i ≡ at d i
    pub fresh : (i : ℕ) → size d ≤ i → i < count → at d' i ≡ zeroed

  -- Growing in place, behind elements that already stand where there is room.
  grow_at :
      (zeroed : A) (d s : Array A) (count : ℕ)
      → IsValid s
      → size s ≡ size d
      → ((i : ℕ) → i < size d → at s i ≡ at d i)
      → size d ≤ count
      → s.start + count ≤ s.alloc_size
      → (d' : Array A) × (write
            (record s { end = s.start + count })
            (s.start + size d)
            (λ _. zeroed)
            (count - size d)
          ≡ some d')
        × Resized zeroed d count d'
  unfolding write
  grow_at zeroed d s count v size_eq at_eq more room = (
    record s {
      cells = copied s.cells (s.start + size d) (λ _. zeroed) (count - size d);
      end = s.start + count;
    },
    rw (le→leb (s.start + size d + (count - size d)) s.alloc_size (omega arith)),
    record {
      valid = omega (arith, v);
      size_eq = omega arith;
      kept = λ i p q. ground (arith, at_eq i);
      fresh = λ i p q. ground arith;
    },
  )

  -- A resize of a well-formed array to a size that a machine has succeeds where the `int`
  -- conversion of the start keeps its value: it keeps the elements that remain, zeroes the new
  -- ones, and leaves the array well formed with the size asked for.
  pub resize-Resized :
      (zeroed : A) {d : Array A} (count : ℕ)
      → IsValid d
      → count ≤ 2 ^ 61
      → d.start < 2 ^ 31
      → (d' : Array A) × (resize zeroed d count ≡ some d') × Resized zeroed d count d'
  unfolding resize
  resize-Resized zeroed {d} count v bounded small = elim (Bool-cases (count == size d)) [
    | inl same ↦
        let e : count ≡ size d = (==_iff count (size d)).0 same in
        (
          d,
          rw same,
          record {
            valid = v;
            size_eq = omega arith;
            kept = λ i p q. refl;
            fresh = λ i p q. absurd (omega arith);
          },
        )
    | inr other ↦ elim (Bool-cases (ltb count (size d))) [
      | inl less ↦ (
        record d { end = d.start + count },
        rw (other, less),
        record {
          valid = omega (arith, v, ltb→lt count (size d) less);
          size_eq = omega arith;
          kept = λ i p q. refl;
          fresh = λ i p q. absurd (omega (arith, ltb→lt count (size d) less));
        },
      )
      | inr more ↦ larger other more
    ]
  ]
    where
      Result : Type 0
      Result = (d' : Array A) × (resize zeroed d count ≡ some d') × Resized zeroed d count d'

      larger : (count == size d) ≡ false → ltb count (size d) ≡ false → Result
      larger other more =
          let enough : size d ≤ count = ground arith in
          let (r, reserved, same) = reserve-Reserved count v bounded in
          let kept : (i : ℕ) → at r i ≡ at d i =
            λ i. same.cells_eq (r.start + i) ∙ ap d.cells (omega (arith, same.start_eq)) in
          elim (Bool-cases (ltb r.alloc_size (r.start + count))) [
            | inl over ↦
                let left = (r.alloc_size - count) / 2 in
                let over' = ltb→lt r.alloc_size (r.start + count) over in
                let k = r.start - left in
                let (s, shifted, view, at_start) = shift_down k same.valid (omega arith) in
                let (d', e, resized) =
                  grow_at zeroed d s count view.valid (omega (arith, view.size_eq, same))
                    (λ i h. view.at_eq i (omega (arith, same)) ∙ kept i) enough
                    (omega (arith, view.alloc_eq, at_start, same.enough)) in
                (
                  d',
                  rw
                      (
                        other,
                        more,
                        reserved,
                        over,
                        to_int-eq_of_lt r.start (omega (arith, same.start_eq)),
                        sub_ℕ-eq-neg left r.start (omega (arith, same.enough)),
                        shifted,
                      )
                      e,
                  resized,
                )
            | inr fits ↦
                let (d', e, resized) =
                  grow_at zeroed d r count same.valid (omega (arith, same)) (λ i h. kept i) enough
                    (ground arith) in
                (d', rw (other, more, reserved, fits) e, resized)
          ]
