-- ===== src/SortedArray/Adding.antt =====
-- The elements of a sorted array with one more.
use the_foundation.Base.{
  ℕ, ◌+◌, ◌-◌, ◌^◌, ◌≤◌, ◌<◌, true, some, ltb, ltb→lt, ◌==◌, ==_iff, ◌≡◌, refl, sym, ap, ◌∙◌, arith,
  ◌⊎◌, inl, inr, Bool-cases,
}
use the_foundation.Array.{Array, size}
use the_foundation.Array.Shape.{at}
use the_foundation.Array.Insertion.Ends.{Inserted}
use the_foundation.Array.Insertion.Laws.{insert_n-Inserted}
use the_foundation.SortedArray.{SortedArray, insert_at}
use the_foundation.SortedArray.Order.{IsSorted, Lt, Eqv, Eqv-refl, Eqv-not_lt, Eqv-not_gt}

module _ {A : Type 0} where
  -- Some element is equal to `y`.
  abbrev pub Has : SortedArray A → A → Type 0
  Has d y = (i : ℕ) × (i < size d.values) × Eqv d.cmp y (at d.values i)

  -- `y` itself is an element.
  abbrev pub Element : SortedArray A → A → Type 0
  Element d y = (i : ℕ) × (i < size d.values) × (at d.values i ≡ y)

  -- The elements of `d'` are `value` and those of `d` that are not equal to it by the comparison. So
  -- the values, up to this equality, are those of `d` and `value`.
  pub record Added (d : SortedArray A) (value : A) (d' : SortedArray A) : Type 0 where
    pub sorted : IsSorted d'
    pub cmp_eq : d'.cmp ≡ d.cmp
    pub grows : size d'.values ≤ size d.values + 1
    pub has_new : Has d' value
    pub has_old : (y : A) → Has d y → Has d' y
    pub only : (y : A) → Has d' y → (Eqv d.cmp y value) ⊎ Has d y
    pub placed : Element d' value
    pub kept : (y : A) → ¬ Eqv d.cmp value y → Element d y → Element d' y
    pub exact : (y : A) → Element d' y → (y ≡ value) ⊎ ((¬ Eqv d.cmp value y) × Element d y)

  -- What an inserted element does to the positions.
  module _ {u v : Array A} {p : ℕ} {value : A} (ins : Inserted u p (λ i. value) 1 v) where
    at_place : at v p ≡ value
    at_place = ap (λ k. at v k) (omega arith) ∙ ins.inside 0 (omega arith)

    at_behind : (i : ℕ) → p < i → i < size v → at v i ≡ at u (i - 1)
    at_behind i h k =
        ap (λ k. at v k) (omega arith)
        ∙ ins.after (i - 1) (omega arith) (omega (arith, ins.size_eq))

  pub insert_at-Added :
      {d : SortedArray A} {p : ℕ} {value : A}
      → IsSorted d
      → size d.values + 1 ≤ 2 ^ 61
      → p ≤ size d.values
      → ((i : ℕ) → i < p → Lt d.cmp (at d.values i) value)
      → ((i : ℕ) → p ≤ i → i < size d.values → Lt d.cmp value (at d.values i))
      → (d' : SortedArray A) × (insert_at d value p ≡ some (true, d')) × Added d value d'
  unfolding insert_at
  insert_at-Added {d} {p} {value} s bounded h left right =
      let (v, e, ins) = insert_n-Inserted p (λ i. value) 1 s.valid h (omega arith) bounded in
      (
        record { values = v; cmp = d.cmp },
        rw e,
        record {
          sorted = record { valid = ins.valid; order = s.order; rising = rising v ins };
          cmp_eq = refl;
          grows = omega (arith, ins.size_eq);
          has_new = (p, omega (arith, ins.size_eq), rw (at_place ins) (Eqv-refl s.order value));
          has_old = λ y (i, k, eqv). has_old v ins y i k eqv;
          only = λ y (i, k, eqv). only v ins y i k eqv;
          placed = (p, omega (arith, ins.size_eq), at_place ins);
          kept = λ y apart (i, k, e). kept v ins y i k e;
          exact = λ y (i, k, e). exact v ins y i k e;
        },
      )
    where
      rising :
          (v : Array A)
          → Inserted d.values p (λ i. value) 1 v
          → (i j : ℕ) → i < j
          → j < size v
          → Lt d.cmp (at v i) (at v j)
      rising v ins i j k b = elim (Bool-cases (ltb j p)) [
        | inl j_before ↦
            rw
              (
                ins.before i (omega (arith, ltb→lt j p j_before)),
                ins.before j (ltb→lt j p j_before),
              )
              (s.rising i j k (omega (arith, ltb→lt j p j_before)))
        | inr j_not ↦ elim (Bool-cases (j == p)) [
          | inl j_at ↦
              let e : j ≡ p = (==_iff j p).0 j_at in
              rw (e, at_place ins, ins.before i (omega arith)) (left i (omega arith))
          | inr j_behind ↦
              let far : p < j = ground arith in
              let j_old = at_behind ins j far b in
              let j_in : j - 1 < size d.values = omega (arith, ins.size_eq) in
              elim (Bool-cases (ltb i p)) [
                | inl i_before ↦
                    rw (ins.before i (ltb→lt i p i_before), j_old)
                      (s.rising i (j - 1) (omega (arith, ltb→lt i p i_before)) j_in)
                | inr i_not ↦ elim (Bool-cases (i == p)) [
                  | inl i_at ↦
                      let e : i ≡ p = (==_iff i p).0 i_at in
                      rw (e, at_place ins, j_old) (right (j - 1) (omega arith) j_in)
                  | inr i_behind ↦
                      rw (at_behind ins i (ground arith) (omega arith), j_old)
                        (s.rising (i - 1) (j - 1) (ground arith) j_in)
                ]
              ]
        ]
      ]

      has_old :
          (v : Array A)
          → Inserted d.values p (λ i. value) 1 v
          → (y : A) (i : ℕ) → i < size d.values
          → Eqv d.cmp y (at d.values i)
          → (j : ℕ) × (j < size v) × Eqv d.cmp y (at v j)
      has_old v ins y i k eqv = elim (Bool-cases (ltb i p)) [
        | inl before ↦ (i, omega (arith, ins.size_eq), rw (ins.before i (ltb→lt i p before)) eqv)
        | inr behind ↦ (i + 1, omega (arith, ins.size_eq), rw (ins.after i (ground arith) k) eqv)
      ]

      only :
          (v : Array A)
          → Inserted d.values p (λ i. value) 1 v
          → (y : A) (i : ℕ) → i < size v
          → Eqv d.cmp y (at v i)
          → (Eqv d.cmp y value) ⊎ Has d y
      only v ins y i k eqv = elim (Bool-cases (ltb i p)) [
        | inl before ↦
            inr (i, omega (arith, ltb→lt i p before), rw (ins.before i (ltb→lt i p before)) at eqv)
        | inr not_before ↦ elim (Bool-cases (i == p)) [
          | inl at_p ↦ inl (rw ((==_iff i p).0 at_p, at_place ins) at eqv)
          | inr behind ↦
              let far : p < i = ground arith in
              inr (i - 1, omega (arith, ins.size_eq), rw (at_behind ins i far k) at eqv)
        ]
      ]

      kept :
          (v : Array A)
          → Inserted d.values p (λ i. value) 1 v
          → (y : A) (i : ℕ) → i < size d.values
          → at d.values i ≡ y
          → (j : ℕ) × (j < size v) × (at v j ≡ y)
      kept v ins y i k e = elim (Bool-cases (ltb i p)) [
        | inl before ↦ (i, omega (arith, ins.size_eq), ins.before i (ltb→lt i p before) ∙ e)
        | inr behind ↦ (i + 1, omega (arith, ins.size_eq), ins.after i (ground arith) k ∙ e)
      ]

      exact :
          (v : Array A)
          → Inserted d.values p (λ i. value) 1 v
          → (y : A) (i : ℕ) → i < size v
          → at v i ≡ y
          → (y ≡ value) ⊎ ((¬ Eqv d.cmp value y) × Element d y)
      exact v ins y i k e = elim (Bool-cases (ltb i p)) [
        | inl before ↦
            let old : at d.values i ≡ y = sym (ins.before i (ltb→lt i p before)) ∙ e in
            inr (
              λ q. Eqv-not_gt s.order value y q (rw (← old) (left i (ltb→lt i p before))),
              (i, omega (arith, ltb→lt i p before), old),
            )
        | inr not_before ↦ elim (Bool-cases (i == p)) [
          | inl at_p ↦ inl (sym e ∙ ap (λ k. at v k) ((==_iff i p).0 at_p) ∙ at_place ins)
          | inr behind ↦
              let far : p < i = ground arith in
              let inside : i - 1 < size d.values = omega (arith, ins.size_eq) in
              let old : at d.values (i - 1) ≡ y = sym (at_behind ins i far k) ∙ e in
              inr (
                λ q. Eqv-not_lt s.order value y q (rw (← old) (right (i - 1) (omega arith) inside)),
                (i - 1, inside, old),
              )
        ]
      ]
