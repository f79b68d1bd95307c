-- ===== src/SortedArray/Insert.antt =====
-- `insert_SortedArray` keeps the order, and adds to the set of values.
use the_foundation.Base.{ℕ, ◌+◌, ◌^◌, ◌≤◌, Bool, true, false, some, ◌≡◌}
use the_foundation.Array.{size}
use the_foundation.Array.Shape.{at, at?-some}
use the_foundation.SortedArray.{SortedArray, locate, insert_if, insert}
use the_foundation.SortedArray.Order.{IsSorted}
use the_foundation.SortedArray.Locate.{Located, found, missing, locate-Located, elsewhere}
use the_foundation.SortedArray.Adding.{Has, Added, insert_at-Added}
use the_foundation.SortedArray.Replacing.{set_at-Added}

module _ {A : Type 0} where
  -- An insertion into a sorted array of a size that a machine has succeeds and answers true. The
  -- array stays sorted and well formed and keeps its comparison, and its elements are then the
  -- inserted value itself and the old ones that are not equal to it by the comparison.
  pub insert-Added :
      {d : SortedArray A} (value : A)
      → IsSorted d
      → size d.values + 1 ≤ 2 ^ 61
      → (d' : SortedArray A) × (insert d value ≡ some (true, d')) × Added d value d'
  unfolding insert insert_if
  insert-Added {d} value s bounded = let (b, p, e, l) = locate-Located s value in at_located b p e l
    where
      at_located :
          (b : Bool) (p : ℕ)
          → locate d value ≡ some (b, p)
          → Located d value b p
          → (d' : SortedArray A) × (insert d value ≡ some (true, d')) × Added d value d'
      at_located true p e (found h eqv) =
          let (d', set_eq, added) = set_at-Added s h eqv in
          (d', rw (e, at?-some d.values p h) set_eq, added)
      at_located false p e (missing h left right) =
          let (d', insert_eq, added) = insert_at-Added s bounded h left right in
          (d', rw e insert_eq, added)

  -- With a predicate that refuses the value, an insertion into a sorted array that has an equal
  -- element answers false and changes nothing.
  pub insert_if-refused :
      {d : SortedArray A} (value : A) (pred : A → A → Bool)
      → IsSorted d
      → Has d value
      → ((x : A) → pred value x ≡ false)
      → insert_if d value (some pred) ≡ some (false, d)
  unfolding insert_if
  insert_if-refused {d} value pred s (i, h, eqv) refuses =
      let (b, p, e, l) = locate-Located s value in at_located b p e l
    where
      at_located :
          (b : Bool) (p : ℕ)
          → locate d value ≡ some (b, p)
          → Located d value b p
          → insert_if d value (some pred) ≡ some (false, d)
      at_located true p e (found k eqv') = rw (e, at?-some d.values p k, refuses (at d.values p))
      at_located false p e (missing k left right) = absurd (elsewhere s value left right i h eqv)
