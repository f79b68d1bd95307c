-- ===== src/SortedArray/Remove.antt =====
-- `remove_SortedArray` keeps the order, and takes one value out of the set.
use the_foundation.Base.{
  ℕ, ◌+◌, ◌-◌, ◌<◌, Bool, true, false, some, ltb, ltb→lt, if◌then◌else◌, ◌≡◌, ◌≢◌, ◌↔◌, refl, sym,
  arith, inl, inr, Bool-cases,
}
use the_foundation.Array.{Array, size}
use the_foundation.Array.Shape.{at}
use the_foundation.Array.Removal.Laws.{Removed, remove_n-Removed}
use the_foundation.SortedArray.{SortedArray, locate, remove}
use the_foundation.SortedArray.Order.{IsSorted, Eqv, Eqv-not_lt, Eqv-not_gt, Eqv-trans, Eqv-sym}
use the_foundation.SortedArray.Locate.{Located, found, missing, locate-Located, elsewhere}
use the_foundation.SortedArray.Adding.{Has}

-- The old position of an element that remains.
old_place : ℕ → ℕ → ℕ
old_place p i = if ltb i p then i else i + 1

old_place-lt : (p i n : ℕ) → i + 1 < n → old_place p i < n
unfolding old_place
old_place-lt p i n h = ground arith

old_place_mono : (p i j : ℕ) → i < j → old_place p i < old_place p j
unfolding old_place
old_place_mono p i j h = ground arith

old_place_ne : (p i : ℕ) → old_place p i ≢ p
unfolding old_place
old_place_ne p i = ground arith

-- The new position of an element that remains.
new_place : ℕ → ℕ → ℕ
new_place p i = if ltb i p then i else i - 1

new_place-lt : (p i n : ℕ) → i < n + 1 → p < n + 1 → i ≢ p → new_place p i < n
unfolding new_place
new_place-lt p i n h k ne = ground arith

old-new : (p i : ℕ) → i ≢ p → old_place p (new_place p i) ≡ i
unfolding old_place new_place
old-new p i ne = ground arith

module _ {A : Type 0} where
  -- The values of `d'` are those of `d` that are not equal to `value`.
  pub record Dropped (d : SortedArray A) (value : A) (d' : SortedArray A) : Type 0 where
    pub sorted : IsSorted d'
    pub cmp_eq : d'.cmp ≡ d.cmp
    pub gone : ¬ Has d' value
    pub has_old : (y : A) → Has d y → ¬ Eqv d.cmp y value → Has d' y
    pub only : (y : A) → Has d' y → Has d y

  at_old :
      {u v : Array A} {p : ℕ} (i : ℕ) → Removed u p 1 v → i < size v → at v i ≡ at u (old_place p i)
  unfolding old_place
  at_old {p = p} i rem h = elim (Bool-cases (ltb i p)) [
    | inl before ↦ rw before (rem.before i (ltb→lt i p before) h)
    | inr behind ↦ rw behind (rem.after i (ground arith) h)
  ]

  -- Elements at two positions are not equal.
  distinct :
      {d : SortedArray A} {i j : ℕ}
      → IsSorted d
      → i < size d.values
      → j < size d.values
      → i ≢ j
      → ¬ Eqv d.cmp (at d.values i) (at d.values j)
  distinct {d} {i} {j} s h k ne q = elim (Bool-cases (ltb i j)) [
    | inl before ↦
        Eqv-not_lt s.order (at d.values i) (at d.values j) q (s.rising i j (ltb→lt i j before) k)
    | inr behind ↦
        Eqv-not_gt s.order (at d.values i) (at d.values j) q (s.rising j i (ground arith) h)
  ]

  dropped :
      {d : SortedArray A} {p : ℕ} {value : A} {v : Array A}
      → IsSorted d
      → p < size d.values
      → Eqv d.cmp value (at d.values p)
      → Removed d.values p 1 v
      → Dropped d value (record d { values = v })
  dropped {d} {p} {value} {v} s h eqv rem = record {
    sorted = record {
      valid = rem.valid;
      order = s.order;
      rising = λ i j k b.
          rw (at_old i rem (omega arith), at_old j rem b)
            (s.rising (old_place p i) (old_place p j) (old_place_mono p i j k)
              (old_place-lt p j (size d.values) (omega (arith, rem.size_eq))));
    };
    cmp_eq = refl;
    gone = λ (i, k, q). unequal i k (
        Eqv-trans s.order (at d.values p) value (at v i) (Eqv-sym s.order value (at d.values p) eqv)
          q);
    has_old = λ y (i, k, q) ne.
        let apart : i ≢ p = λ e. ne (
          Eqv-trans s.order y (at d.values p) value (rw e at q)
            (Eqv-sym s.order value (at d.values p) eqv)) in
        let place : new_place p i < size v =
          new_place-lt p i (size v) (omega (arith, rem.size_eq)) (omega (arith, rem.size_eq))
            apart in
        (new_place p i, place, rw (at_old (new_place p i) rem place, old-new p i apart) q);
    only = λ y (i, k, q). (
      old_place p i,
      old_place-lt p i (size d.values) (omega (arith, rem.size_eq)),
      rw (at_old i rem k) at q,
    );
  }
    where
      unequal : (i : ℕ) → i < size v → ¬ Eqv d.cmp (at d.values p) (at v i)
      unequal i k q =
          distinct s h (old_place-lt p i (size d.values) (omega (arith, rem.size_eq)))
            (λ e. old_place_ne p i (sym e)) (rw (at_old i rem k) at q)

  -- A removal from a sorted array succeeds, and answers whether it held an equal element. The array
  -- stays sorted and well formed, and keeps exactly the values that are not equal to the given one.
  pub remove-Dropped :
      {d : SortedArray A} (value : A)
      → IsSorted d
      → (b : Bool) × (d' : SortedArray A) × (remove d value ≡ some (b, d'))
        × ((b ≡ true) ↔ Has d value)
        × Dropped d value d'
  unfolding remove
  remove-Dropped {d} value s = let (b, p, e, l) = locate-Located s value in at_located b p e l
    where
      at_located :
          (b : Bool) (p : ℕ)
          → locate d value ≡ some (b, p)
          → Located d value b p
          → (b : Bool) × (d' : SortedArray A) × (remove d value ≡ some (b, d'))
            × ((b ≡ true) ↔ Has d value)
            × Dropped d value d'
      at_located true p e (found h eqv) =
          let (v, removed, rem) = remove_n-Removed p 1 s.valid h (omega arith) (omega arith) in
          (
            true,
            record d { values = v },
            rw (e, removed),
            (λ _. (p, h, eqv), λ _. refl),
            dropped s h eqv rem,
          )
      at_located false p e (missing h left right) =
          let none_equal : ¬ Has d value = λ (i, k, q). elsewhere s value left right i k q in
          (
            false,
            d,
            rw e,
            (λ q. absurd (cc), λ q. absurd (none_equal q)),
            record {
              sorted = s;
              cmp_eq = refl;
              gone = none_equal;
              has_old = λ y q ne. q;
              only = λ y q. q;
            },
          )
