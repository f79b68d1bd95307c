-- ===== src/SortedArray/Halving.antt =====
-- The halving loop of `locateRange_SortedArray` finds the first element that passes a test.
use the_foundation.Base.{
  ℕ, zero, suc, ◌+◌, ◌-◌, ◌/◌, ◌≤◌, ◌<◌, Bool, true, false, some, ◌==◌, ==_iff, ◌≡◌, ◌≢◌, arith,
  inl, inr, Bool-cases,
}
use the_foundation.Array.{size}
use the_foundation.Array.Shape.{at, at?-some}
use the_foundation.SortedArray.{SortedArray, bound_loop}

module _ {A : Type 0} where
  -- A search by a test that holds from some element on, and fails before it, ends at that element.
  module _ (d : SortedArray A) (narrow : A → Bool)
      (onwards : (i j : ℕ)
        → i < j
        → j < size d.values
        → narrow (at d.values i) ≡ true
        → narrow (at d.values j) ≡ true) where
    backwards :
        (i j : ℕ)
        → i < j
        → j < size d.values
        → narrow (at d.values j) ≡ false
        → narrow (at d.values i) ≡ false
    backwards i j h k e = elim (Bool-cases (narrow (at d.values i))) [
      | inl t ↦ cc (onwards i j h k t)
      | inr f ↦ f
    ]

    pub bound_loop-split :
        (fuel start end : ℕ)
        → end - start < fuel
        → start ≤ end
        → end ≤ size d.values
        → ((i : ℕ) → i < start → narrow (at d.values i) ≡ false)
        → ((i : ℕ) → end ≤ i → i < size d.values → narrow (at d.values i) ≡ true)
        → (p : ℕ) × (bound_loop fuel d narrow start end ≡ some p)
          × (p ≤ size d.values)
          × ((i : ℕ) → i < p → narrow (at d.values i) ≡ false)
          × ((i : ℕ) → p ≤ i → i < size d.values → narrow (at d.values i) ≡ true)
    unfolding bound_loop
    bound_loop-split zero start end enough h below left right = absurd (omega arith)
    bound_loop-split (suc fuel) start end enough h below left right =
        elim (Bool-cases (end == start)) [
          | inl empty ↦
              let same : end ≡ start = (==_iff end start).0 empty in
              (start, rw empty, omega arith, left, rw (← same) right)
          | inr more ↦
              let mid = (start + end) / 2 in
              let ends : end ≢ start = ground (arith, more) in
              let inside : mid < size d.values = omega arith in
              elim (Bool-cases (narrow (at d.values mid))) [
                | inl t ↦
                    let (p, e, p_in, p_left, p_right) =
                      bound_loop-split fuel start mid (omega arith) (omega arith) (omega arith) left
                        (λ i k b. from_mid mid t i k b) in
                    (p, rw (more, at?-some d.values mid inside, t) e, p_in, p_left, p_right)
                | inr f ↦
                    let (p, e, p_in, p_left, p_right) =
                      bound_loop-split fuel (mid + 1) end (omega arith) (omega arith) below
                        (λ i k. to_mid mid inside f i k) right in
                    (p, rw (more, at?-some d.values mid inside, f) e, p_in, p_left, p_right)
              ]
        ]
      where
        from_mid :
            (mid : ℕ)
            → narrow (at d.values mid) ≡ true
            → (i : ℕ) → mid ≤ i
            → i < size d.values
            → narrow (at d.values i) ≡ true
        from_mid mid t i k b = elim (Bool-cases (i == mid)) [
          | inl same ↦ rw ((==_iff i mid).0 same) t
          | inr other ↦ onwards mid i (ground arith) b t
        ]

        to_mid :
            (mid : ℕ)
            → mid < size d.values
            → narrow (at d.values mid) ≡ false
            → (i : ℕ) → i < mid + 1
            → narrow (at d.values i) ≡ false
        to_mid mid inside f i k = elim (Bool-cases (i == mid)) [
          | inl same ↦ rw ((==_iff i mid).0 same) f
          | inr other ↦ backwards i mid (ground arith) inside f
        ]
