-- ===== src/SortedArray/Range.antt =====
-- `locateRange_SortedArray`: the range that it gives holds exactly the matching elements.
use the_foundation.Base.{
  ℕ, zero, suc, ◌+◌, ◌-◌, ◌≤◌, ◌<◌, Bool, true, false, not, Option, some, ltb, ltb→lt, ◌==◌, ==_iff,
  ◌≡◌, refl, sym, ◌∙◌, arith, inl, inr, Bool-cases, ℤ,
}
use the_foundation.Array.{size}
use the_foundation.Array.Shape.{IsValid, at, at?-some}
use the_foundation.SortedArray.{SortedArray, is_pos, is_neg, locate_bounds, locate_range, chosen}
use the_foundation.SortedArray.Order.{
  IsOrder, IsMonotone, Lt, Eqv, Lt_of_pos, Lt_asymm, Eqv-not_lt, Eqv-not_gt, Eqv-intro,
}
use the_foundation.SortedArray.Halving.{bound_loop-split}

module _ {A : Type 0} where
  -- What the positions of a range have in common: they hold what is equal to the value.
  pub record Matching (cmp : A → A → ℤ) (d : SortedArray A) (value : A) (start end : ℕ)
      : Type 0 where
    pub ordered : start ≤ end
    pub inside : end ≤ size d.values
    pub equal : (i : ℕ) → start ≤ i → i < end → Eqv cmp (at d.values i) value
    pub only : (i : ℕ) → i < size d.values → Eqv cmp (at d.values i) value → (start ≤ i) × (i < end)

  module _ {cmp : A → A → ℤ} (o : IsOrder cmp) (d : SortedArray A) (m : IsMonotone cmp d.values)
      (value : A) where
    not_smaller : A → Bool
    not_smaller x = not (is_neg (cmp x value))

    greater : A → Bool
    greater x = is_pos (cmp x value)

    not_smaller-onwards :
        (i j : ℕ)
        → i < j
        → j < size d.values
        → not_smaller (at d.values i) ≡ true
        → not_smaller (at d.values j) ≡ true
    unfolding not_smaller
    not_smaller-onwards i j h k e = elim (Bool-cases (is_neg (cmp (at d.values j) value))) [
      | inl lt ↦ cc (e, o.le_lt (at d.values i) (at d.values j) value (m i j h k) lt)
      | inr ge ↦ rw ge
    ]

    greater-onwards :
        (i j : ℕ)
        → i < j
        → j < size d.values
        → greater (at d.values i) ≡ true
        → greater (at d.values j) ≡ true
    unfolding greater
    greater-onwards i j h k e =
        o.flip (at d.values j) value
        ∙ o.lt_le value (at d.values i) (at d.values j) (Lt_of_pos o (at d.values i) value e)
            (m i j h k)

    not-false : {b : Bool} → not b ≡ false → b ≡ true
    not-false {b = true} e = refl
    not-false {b = false} e = cc

    not-true : {b : Bool} → not b ≡ true → b ≡ false
    not-true {b = true} e = cc
    not-true {b = false} e = refl

    bounds-Matching :
        (a b : ℕ)
        → a ≤ size d.values
        → b ≤ size d.values
        → ((i : ℕ) → i < a → Lt cmp (at d.values i) value)
        → ((i : ℕ) → a ≤ i → i < size d.values → is_neg (cmp (at d.values i) value) ≡ false)
        → ((i : ℕ) → i < b → is_pos (cmp (at d.values i) value) ≡ false)
        → ((i : ℕ) → b ≤ i → i < size d.values → is_pos (cmp (at d.values i) value) ≡ true)
        → Matching cmp d value a b
    bounds-Matching a b a_in b_in less not_less not_more more = record {
      ordered = elim (Bool-cases (ltb b a)) [
        | inl crossed ↦
            let before : b < a = ltb→lt b a crossed in
            let asymm = Lt_asymm o (at d.values b) value (less b before) in
            cc (o.flip (at d.values b) value, asymm, more b (omega arith) (omega arith))
        | inr fine ↦ ground arith
      ];
      inside = b_in;
      equal = λ i h k.
          Eqv-intro o (at d.values i) value (not_less i h (omega arith))
            (sym (o.flip (at d.values i) value) ∙ not_more i k);
      only = λ i h e. (
        elim (Bool-cases (ltb i a)) [
          | inl before ↦ absurd (Eqv-not_lt o (at d.values i) value e (less i (ltb→lt i a before)))
          | inr fine ↦ ground arith
        ],
        elim (Bool-cases (ltb i b)) [
          | inl before ↦ ltb→lt i b before
          | inr behind ↦ absurd (
              Eqv-not_gt o (at d.values i) value e
                (Lt_of_pos o (at d.values i) value (more i (ground arith) h)))
        ],
      );
    }

    locate_bounds-Matching :
        (a : ℕ) × (b : ℕ) × (locate_bounds d value cmp ≡ some (a, b)) × Matching cmp d value a b
    unfolding locate_bounds not_smaller greater
    locate_bounds-Matching =
        let n = size d.values in
        let (a, a_eq, a_in, a_left, a_right) =
          bound_loop-split d not_smaller not_smaller-onwards (n + 1) 0 n (omega arith) (omega arith)
            (omega arith) (λ i h. absurd (omega arith)) (λ i h k. absurd (omega arith)) in
        let (b, b_eq, b_in, b_left, b_right) =
          bound_loop-split d greater greater-onwards (n + 1) 0 n (omega arith) (omega arith)
            (omega arith) (λ i h. absurd (omega arith)) (λ i h k. absurd (omega arith)) in
        (
          a,
          b,
          rw (a_eq, b_eq),
          bounds-Matching a b a_in b_in (λ i h. not-false (a_left i h))
              (λ i h k. not-true (a_right i h k)) b_left b_right,
        )

    -- Where the value is smaller than the first element, or greater than the last, nothing matches.
    before_all : 0 < size d.values → Lt cmp value (at d.values 0) → Matching cmp d value 0 0
    before_all h lt =
        bounds-Matching 0 0 (omega arith) (omega arith) (λ i k. absurd (omega arith))
          (λ i k b. Lt_asymm o value (at d.values i) (all i b)) (λ i k. absurd (omega arith))
          (λ i k b. o.flip (at d.values i) value ∙ all i b)
      where
        all : (i : ℕ) → i < size d.values → Lt cmp value (at d.values i)
        all zero b = lt
        all (suc i) b =
            o.lt_le value (at d.values 0) (at d.values (suc i)) lt (m 0 (suc i) (omega arith) b)

    behind_all :
        0 < size d.values
        → is_pos (cmp value (at d.values (size d.values - 1))) ≡ true
        → Matching cmp d value (size d.values) (size d.values)
    behind_all h gt =
        bounds-Matching (size d.values) (size d.values) (omega arith) (omega arith) all
          (λ i k b. absurd (omega arith))
          (λ i b. o.flip (at d.values i) value ∙ Lt_asymm o (at d.values i) value (all i b))
          (λ i k b. absurd (omega arith))
      where
        last : ℕ
        last = size d.values - 1

        all : (i : ℕ) → i < size d.values → Lt cmp (at d.values i) value
        all i b = elim (Bool-cases (i == last)) [
          | inl same ↦ rw ((==_iff i last).0 same) (Lt_of_pos o value (at d.values last) gt)
          | inr other ↦
              o.le_lt (at d.values i) (at d.values last) value
                (m i last (ground arith) (omega arith)) (Lt_of_pos o value (at d.values last) gt)
        ]

  -- The search for a range ends without a fault in a well-formed array that is in order by the
  -- comparison that it uses, and the range that it gives holds exactly the elements that are equal
  -- to the value.
  pub locate_range-Matching :
      (d : SortedArray A) (value : A) (relaxed : Option (A → A → ℤ))
      → IsValid d.values
      → IsOrder (chosen d relaxed)
      → IsMonotone (chosen d relaxed) d.values
      → (a : ℕ) × (b : ℕ) × (locate_range d value relaxed ≡ some (a, b))
        × Matching (chosen d relaxed) d value a b
  unfolding locate_range
  locate_range-Matching d value relaxed v o m = elim (Bool-cases (d.values.end == d.values.start)) [
    | inl empty ↦
        let nothing : size d.values ≡ 0 = ground arith in
        (
          0,
          0,
          rw empty,
          record {
            ordered = omega arith;
            inside = omega arith;
            equal = λ i h k. absurd (omega arith);
            only = λ i h e. absurd (omega arith);
          },
        )
    | inr filled ↦ with_elements filled (ground (arith, v.ordered))
  ]
    where
      Result : Type 0
      Result =
          (a : ℕ) × (b : ℕ) × (locate_range d value relaxed ≡ some (a, b))
          × Matching (chosen d relaxed) d value a b

      with_elements : (d.values.end == d.values.start) ≡ false → 0 < size d.values → Result
      with_elements filled h =
          let front = at?-some d.values 0 h in
          let back = at?-some d.values (size d.values - 1) (omega arith) in
          elim (Bool-cases (is_neg (chosen d relaxed value (at d.values 0)))) [
            | inl lt ↦ (0, 0, rw (filled, front, lt), before_all o d m value h lt)
            | inr ge ↦
                elim (Bool-cases
                  (is_pos (chosen d relaxed value (at d.values (size d.values - 1))))) [
                    | inl gt ↦ (
                      size d.values,
                      size d.values,
                      rw (filled, front, ge, back, gt),
                      behind_all o d m value h gt,
                    )
                    | inr le ↦
                        let (a, b, e, matching) = locate_bounds-Matching o d m value in
                        (a, b, rw (filled, front, ge, back, le) e, matching)
                  ]
          ]
