-- ===== src/SortedArray/Replacing.antt =====
-- The elements of a sorted array with one in place of an equal one.
use the_foundation.Base.{
  ℕ, ◌<◌, true, some, ltb, ltb→lt, ◌==◌, ==_iff, ◌≡◌, ◌≢◌, refl, sym, ap, ◌∙◌, arith, ◌⊎◌, inl, inr,
  Bool-cases,
}
use the_foundation.Array.{Array, size}
use the_foundation.Array.Shape.{at}
use the_foundation.Array.Update.{Updated, set_n-Updated}
use native.Mathlib.Nat.{add-zero}
use the_foundation.SortedArray.{SortedArray, set_at}
use the_foundation.SortedArray.Order.{
  IsSorted, Eqv, Eqv-trans, Eqv-sym, Lt-Eqv, Eqv-Lt, Eqv-refl, Eqv-not_lt, Eqv-not_gt,
}
use the_foundation.SortedArray.Adding.{Element, Added}

module _ {A : Type 0} where
  -- An overwritten element is equal to the old one, so it stands in the same order to the others.
  pub set_at-Added :
      {d : SortedArray A} {p : ℕ} {value : A}
      → IsSorted d
      → p < size d.values
      → Eqv d.cmp value (at d.values p)
      → (d' : SortedArray A) × (set_at d value p ≡ some (true, d')) × Added d value d'
  unfolding set_at
  set_at-Added {d} {p} {value} s h eqv =
      let (v, e, upd) = set_n-Updated p (λ i. value) 1 s.valid h (omega arith) in
      (
        record { values = v; cmp = d.cmp },
        rw e,
        record {
          sorted = record {
            valid = upd.valid;
            order = s.order;
            rising = λ i j k b. Eqv-Lt s.order (at v i) (at d.values i) (at v j) (same v upd i) (
                Lt-Eqv s.order (at d.values i) (at d.values j) (at v j)
                  (s.rising i j k (omega (arith, upd.size_eq)))
                  (Eqv-sym s.order (at v j) (at d.values j) (same v upd j)));
          };
          cmp_eq = refl;
          grows = omega (arith, upd.size_eq);
          has_new = (
            p,
            omega (arith, upd.size_eq),
            Eqv-trans s.order value (at d.values p) (at v p) eqv
                (Eqv-sym s.order (at v p) (at d.values p) (same v upd p)),
          );
          has_old = λ y (i, k, q). (
            i,
            omega (arith, upd.size_eq),
            Eqv-trans s.order y (at d.values i) (at v i) q
                (Eqv-sym s.order (at v i) (at d.values i) (same v upd i)),
          );
          only = λ y (i, k, q). inr (
            i,
            omega (arith, upd.size_eq),
            Eqv-trans s.order y (at v i) (at d.values i) q (same v upd i),
          );
          placed = (p, omega (arith, upd.size_eq), new_at v upd);
          kept = λ y apart (i, k, e).
              (i, omega (arith, upd.size_eq), other_at v upd i (other_place y apart i e) ∙ e);
          exact = λ y (i, k, e). exact v upd y i k e;
        },
      )
    where
      new_at : (v : Array A) → Updated d.values p (λ i. value) 1 v → at v p ≡ value
      new_at v upd = ap (λ k. at v k) (sym (add-zero p)) ∙ upd.inside 0 (omega arith)

      other_at :
          (v : Array A)
          → Updated d.values p (λ i. value) 1 v
          → (i : ℕ) → i ≢ p
          → at v i ≡ at d.values i
      other_at v upd i ne = elim (Bool-cases (ltb i p)) [
        | inl before ↦ upd.before i (ltb→lt i p before)
        | inr behind ↦ upd.after i (ground (arith, ne, behind))
      ]

      other_place : (y : A) → ¬ Eqv d.cmp value y → (i : ℕ) → at d.values i ≡ y → i ≢ p
      other_place y apart i e at_p = apart (rw (← e, at_p) eqv)

      -- Elements at other positions stand in a strict order to the one that is equal to the value.
      strict : (i : ℕ) → i ≢ p → i < size d.values → ¬ Eqv d.cmp value (at d.values i)
      strict i ne k q =
          let twice =
            Eqv-trans s.order (at d.values p) value (at d.values i)
              (Eqv-sym s.order value (at d.values p) eqv) q in
          elim (Bool-cases (ltb i p)) [
            | inl before ↦
                Eqv-not_gt s.order (at d.values p) (at d.values i) twice
                  (s.rising i p (ltb→lt i p before) h)
            | inr behind ↦
                Eqv-not_lt s.order (at d.values p) (at d.values i) twice
                  (s.rising p i (ground (arith, ne, behind)) k)
          ]

      exact :
          (v : Array A)
          → Updated d.values p (λ i. value) 1 v
          → (y : A) (i : ℕ) → i < size v
          → at v i ≡ y
          → (y ≡ value) ⊎ ((¬ Eqv d.cmp value y) × Element d y)
      exact v upd y i k e = elim (Bool-cases (i == p)) [
        | inl at_p ↦ inl (sym e ∙ ap (λ k. at v k) ((==_iff i p).0 at_p) ∙ new_at v upd)
        | inr other ↦
            let ne : i ≢ p = ground (arith, other) in
            let inside : i < size d.values = omega (arith, upd.size_eq) in
            let old : at d.values i ≡ y = sym (other_at v upd i ne) ∙ e in
            inr (rw (← old) (strict i ne inside), (i, inside, old))
      ]

      same :
          (v : Array A)
          → Updated d.values p (λ i. value) 1 v
          → (i : ℕ) → Eqv d.cmp (at v i) (at d.values i)
      same v upd i = elim (Bool-cases (i == p)) [
        | inl at_p ↦
            let e : i ≡ p = (==_iff i p).0 at_p in
            rw (e, ap (λ k. at v k) (sym (add-zero p)) ∙ upd.inside 0 (omega arith)) eqv
        | inr other ↦ elim (Bool-cases (ltb i p)) [
          | inl before ↦ rw (upd.before i (ltb→lt i p before)) (Eqv-refl s.order (at d.values i))
          | inr behind ↦ rw (upd.after i (ground arith)) (Eqv-refl s.order (at d.values i))
        ]
      ]
