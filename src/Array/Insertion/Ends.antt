-- ===== src/Array/Insertion/Ends.antt =====
-- Insertion at an end of the array: a shift makes room, and the elements stay in order.
use the_foundation.Base.{
  ℕ, ◌+◌, ◌-◌, ◌^◌, ◌≤◌, ◌<◌, true, some, ltb, ltb→lt, le→leb, pos, neg, to_int-eq_of_lt, ◌>>=◌,
  ◌≡◌, ◌∙◌, refl, arith, Bool-cases, inl, inr,
}
use the_foundation.Array.{Array, size, shift, write, copied}
use the_foundation.Array.Shape.{IsValid, SameView, at, shift_up, shift_down}
use the_foundation.Array.Insertion.{insert_back, insert_front}

module _ {A : Type 0} where
  -- `d'` is `d` with `count` elements of `value` put in before the position `p`.
  pub record Inserted (d : Array A) (p : ℕ) (value : ℕ → A) (count : ℕ) (d' : Array A)
      : Type 0 where
    pub valid : IsValid d'
    pub size_eq : size d' ≡ size d + count
    pub before : (i : ℕ) → i < p → at d' i ≡ at d i
    pub inside : (i : ℕ) → i < count → at d' (p + i) ≡ value i
    pub after : (i : ℕ) → p ≤ i → i < size d → at d' (i + count) ≡ at d i

  pub Inserted-SameView :
      {d s d' : Array A} {p count : ℕ} {value : ℕ → A}
      → p ≤ size d
      → SameView d s
      → Inserted s p value count d'
      → Inserted d p value count d'
  Inserted-SameView h same ins = record {
    valid = ins.valid;
    size_eq = omega (arith, ins.size_eq, same.size_eq);
    before = λ i p. ins.before i p ∙ same.at_eq i (omega arith);
    inside = ins.inside;
    after = λ i p q. ins.after i p (omega (arith, same.size_eq)) ∙ same.at_eq i q;
  }

  pub SameView-Inserted :
      {d s d' : Array A} {p count : ℕ} {value : ℕ → A}
      → p ≤ size d
      → Inserted d p value count s
      → SameView s d'
      → Inserted d p value count d'
  SameView-Inserted h ins same = record {
    valid = same.valid;
    size_eq = omega (arith, ins.size_eq, same.size_eq);
    before = λ i p. same.at_eq i (omega (arith, ins.size_eq)) ∙ ins.before i p;
    inside = λ i p. same.at_eq _ (omega (arith, ins.size_eq)) ∙ ins.inside i p;
    after = λ i p q. same.at_eq _ (omega (arith, ins.size_eq)) ∙ ins.after i p q;
  }

  -- Writing behind the last element.
  append_at :
      (d : Array A) (p : ℕ) (value : ℕ → A) (count : ℕ)
      → IsValid d
      → size d ≡ p
      → d.end + count ≤ d.alloc_size
      → (d' : Array A) × ((do
        w ← write d d.end value count
        some (record w { end = w.end + count }))
          ≡ some d')
        × Inserted d p value count d'
  unfolding write
  append_at d p value count v at_end h = (
    record d { cells = copied d.cells d.end value count; end = d.end + count },
    ground arith,
    record {
      valid = omega (arith, v);
      size_eq = omega (arith, v.ordered);
      before = λ i p. ground arith;
      inside = λ i p. ground arith;
      after = λ i p q. absurd (omega arith);
    },
  )

  pub insert_back-Inserted :
      (d : Array A) (value : ℕ → A) (count : ℕ)
      → IsValid d
      → size d + count ≤ d.alloc_size
      → count < 2 ^ 31
      → (d' : Array A) × (insert_back d value count ≡ some d') × Inserted d (size d) value count d'
  unfolding insert_back
  insert_back-Inserted d value count v room small =
      elim (Bool-cases (ltb d.alloc_size (d.end + count))) [
        | inl over ↦
            let (s, shifted, same, at_start) =
              shift_down (d.end + count - d.alloc_size) v (omega (arith, v.ordered)) in
            moved over s shifted same at_start
        | inr fits ↦
            let (d', e, ins) = append_at d (size d) value count v refl (ground arith) in
            (d', rw fits e, ins)
      ]
    where
      k : ℕ
      k = d.end + count - d.alloc_size

      moved :
          ltb d.alloc_size (d.end + count) ≡ true
          → (s : Array A) → shift d (neg k) ≡ some s
          → SameView d s
          → s.start ≡ d.start - k
          → (d' : Array A) × (insert_back d value count ≡ some d')
            × Inserted d (size d) value count d'
      moved over s shifted same at_start =
          let (d', e, ins) =
            append_at s (size d) value count same.valid same.size_eq
              (omega (arith, ltb→lt _ _ over, v, same, at_start)) in
          (
            d',
            rw (over, to_int-eq_of_lt k (omega (arith, v)), shifted) e,
            Inserted-SameView (omega arith) same ins,
          )

  -- Writing before the first element.
  prepend_at :
      (d : Array A) (value : ℕ → A) (count : ℕ)
      → IsValid d
      → count ≤ d.start
      → (d' : Array A) × (write (record d { start = d.start - count }) (d.start - count) value count
          ≡ some d')
        × Inserted d 0 value count d'
  unfolding write
  prepend_at d value count v h = (
    record d { cells = copied d.cells (d.start - count) value count; start = d.start - count },
    ground arith,
    record {
      valid = omega (arith, v);
      size_eq = omega (arith, v.ordered);
      before = λ i p. absurd (omega arith);
      inside = λ i p. ground arith;
      after = λ i p q. ground arith;
    },
  )

  pub insert_front-Inserted :
      (d : Array A) (value : ℕ → A) (count : ℕ)
      → IsValid d
      → size d + count ≤ d.alloc_size
      → (d' : Array A) × (insert_front d value count ≡ some d') × Inserted d 0 value count d'
  unfolding insert_front
  insert_front-Inserted d value count v room = elim (Bool-cases (ltb d.start count)) [
    | inl over ↦
        let (s, shifted, same, at_start) = shift_up (count - d.start) v (omega (arith, v)) in
        moved over s shifted same at_start
    | inr fits ↦
        let (d', e, ins) = prepend_at d value count v (ground arith) in
        (d', rw (fits, le→leb count d.start (ground arith)) e, ins)
  ]
    where
      moved :
          ltb d.start count ≡ true
          → (s : Array A) → shift d (pos (count - d.start)) ≡ some s
          → SameView d s
          → s.start ≡ d.start + (count - d.start)
          → (d' : Array A) × (insert_front d value count ≡ some d') × Inserted d 0 value count d'
      moved over s shifted same at_start =
          let fits : count ≤ s.start = omega (arith, at_start) in
          let (d', e, ins) = prepend_at s value count same.valid fits in
          (
            d',
            rw (over, shifted, le→leb count s.start fits) e,
            Inserted-SameView (omega arith) same ins,
          )
