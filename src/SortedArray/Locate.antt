-- ===== src/SortedArray/Locate.antt =====
-- `locate_SortedArray`: the halving search ends, and finds the place of a value.
use the_foundation.Base.{
  ℕ, zero, suc, ◌+◌, ◌-◌, ◌/◌, ◌≤◌, ◌<◌, Bool, true, false, some, ltb, ◌==◌, ◌≡◌, refl, arith, inl,
  inr, Bool-cases, ==_iff, ltb→lt, ◌≢◌, ◌↔◌,
}
use the_foundation.Array.{size}
use the_foundation.Array.Shape.{at, at?-some}
use the_foundation.SortedArray.{SortedArray, is_pos, locate_loop, locate, contains}
use the_foundation.SortedArray.Order.{
  IsSorted, Lt, Eqv, sign-cases, Lt_of_pos, Lt_trans, Eqv-not_lt, Eqv-not_gt,
}

module _ {A : Type 0} where
  -- The answers that a search for `value` may give.
  pub data Located (d : SortedArray A) (value : A) : Bool → ℕ → Type 0 where
    found : {p : ℕ} → p < size d.values → Eqv d.cmp value (at d.values p) → Located d value true p
    missing :
        {p : ℕ}
        → p ≤ size d.values
        → ((i : ℕ) → i < p → Lt d.cmp (at d.values i) value)
        → ((i : ℕ) → p ≤ i → i < size d.values → Lt d.cmp value (at d.values i))
        → Located d value false p

  module _ {d : SortedArray A} (s : IsSorted d) (value : A) where
    -- What is left of the middle is smaller than a value that is greater than the middle.
    left_of :
        (mid : ℕ)
        → mid < size d.values
        → is_pos (d.cmp value (at d.values mid)) ≡ true
        → (i : ℕ) → i < mid + 1
        → Lt d.cmp (at d.values i) value
    left_of mid h gt i before =
        let mid_lt = Lt_of_pos s.order value (at d.values mid) gt in
        elim (Bool-cases (i == mid)) [
          | inl same ↦ rw ((==_iff i mid).0 same) mid_lt
          | inr other ↦
              Lt_trans s.order (at d.values i) (at d.values mid) value
                (s.rising i mid (ground arith) h) mid_lt
        ]

    -- What is right of the middle is greater than a value that is smaller than the middle.
    right_of :
        (mid : ℕ)
        → Lt d.cmp value (at d.values mid)
        → (i : ℕ) → mid ≤ i
        → i < size d.values
        → Lt d.cmp value (at d.values i)
    right_of mid lt i behind h = elim (Bool-cases (i == mid)) [
      | inl same ↦ rw ((==_iff i mid).0 same) lt
      | inr other ↦
          Lt_trans s.order value (at d.values mid) (at d.values i) lt
            (s.rising mid i (ground arith) h)
    ]

    locate_loop-Located :
        (fuel start end : ℕ)
        → end - start < fuel
        → start ≤ end
        → end ≤ size d.values
        → ((i : ℕ) → i < start → Lt d.cmp (at d.values i) value)
        → ((i : ℕ) → end ≤ i → i < size d.values → Lt d.cmp value (at d.values i))
        → (b : Bool) × (p : ℕ) × (locate_loop fuel d value start end ≡ some (b, p))
          × Located d value b p
    unfolding locate_loop
    locate_loop-Located zero start end enough h below left right = absurd (omega arith)
    locate_loop-Located (suc fuel) start end enough h below left right =
        elim (Bool-cases (end == start)) [
          | inl empty ↦
              let same : end ≡ start = (==_iff end start).0 empty in
              (false, start, rw empty, missing (omega arith) left (rw (← same) right))
          | inr more ↦
              let mid = (start + end) / 2 in
              let ends : end ≢ start = ground (arith, more) in
              let inside : mid < size d.values = omega arith in
              elim (sign-cases (d.cmp value (at d.values mid))) [
                | inl (eqv, _, _) ↦
                    (true, mid, rw (more, at?-some d.values mid inside, eqv), found inside eqv)
                | inr (inl (ne, gt, _)) ↦
                    let (b, p, e, l) =
                      locate_loop-Located fuel (mid + 1) end (omega arith) (omega arith) below
                        (left_of mid inside gt) right in
                    (b, p, rw (more, at?-some d.values mid inside, ne, gt) e, l)
                | inr (inr (ne, le, lt)) ↦
                    let (b, p, e, l) =
                      locate_loop-Located fuel start mid (omega arith) (omega arith) (omega arith)
                        left (right_of mid lt) in
                    (b, p, rw (more, at?-some d.values mid inside, ne, le) e, l)
              ]
        ]

    -- A search of a sorted array ends without a fault. It gives the position of an element that is
    -- equal to the value, or that there is none and the position before which all elements are
    -- smaller than the value, and from which on all are greater.
    pub locate-Located : (b : Bool) × (p : ℕ) × (locate d value ≡ some (b, p)) × Located d value b p
    unfolding locate
    locate-Located =
        locate_loop-Located (size d.values + 1) 0 (size d.values) (omega arith) (omega arith)
          (omega arith) (λ i h. absurd (omega arith)) (λ i h k. absurd (omega arith))

    -- A value that has its place between elements is equal to none.
    pub elsewhere :
        {p : ℕ}
        → ((i : ℕ) → i < p → Lt d.cmp (at d.values i) value)
        → ((i : ℕ) → p ≤ i → i < size d.values → Lt d.cmp value (at d.values i))
        → (i : ℕ) → i < size d.values
        → ¬ Eqv d.cmp value (at d.values i)
    elsewhere {p} left right i h eqv = elim (Bool-cases (ltb i p)) [
      | inl before ↦ Eqv-not_gt s.order value (at d.values i) eqv (left i (ltb→lt i p before))
      | inr behind ↦ Eqv-not_lt s.order value (at d.values i) eqv (right i (ground arith) h)
    ]

    -- In a sorted array the test for a value ends, and answers exactly whether some element is
    -- equal to it.
    pub contains_iff :
        (b : Bool) × (contains d value ≡ some b)
        × ((b ≡ true) ↔ ((i : ℕ) × (i < size d.values) × Eqv d.cmp value (at d.values i)))
    unfolding contains
    contains_iff = let (b, p, e, l) = locate-Located in (b, rw e, answer l)
      where
        answer :
            {b : Bool} {p : ℕ}
            → Located d value b p
            → (b ≡ true) ↔ ((i : ℕ) × (i < size d.values) × Eqv d.cmp value (at d.values i))
        answer (found {p} inside eqv) = (λ _. (p, inside, eqv), λ _. refl)
        answer (missing {p} inside left right) =
            (λ e. absurd (cc), λ (i, h, eqv). absurd (elsewhere left right i h eqv))
