-- ===== src/IntSet/Members.antt =====
-- The members of a set of integers, and what the operations do to them.
use the_foundation.Base.{
  ℕ, ◌+◌, ◌^◌, ◌≤◌, ◌<◌, Bool, true, some, ◌≡◌, ◌≢◌, sym, ◌∙◌, ◌⊎◌, ◌↔◌, inl, inr, ℤ,
}
use the_foundation.Array
use the_foundation.Array.{Array}
use the_foundation.Array.Shape
use the_foundation.SortedArray.Order.{IsSorted, Eqv-refl}
use the_foundation.SortedArray.Adding.{Has, Added}
use the_foundation.SortedArray.Insert.{insert-Added}
use the_foundation.SortedArray.Remove.{Dropped, remove-Dropped}
use the_foundation.SortedArray.Locate.{contains_iff}
use the_foundation.IntSet.{IntSet, cmp_int, contains, insert, remove}
use the_foundation.IntSet.Order.{cmp_int-IsOrder, eq_of_Eqv}

-- A sorted array of integers by value.
pub record IsIntSet (d : IntSet) : Type 0 where
  pub sorted : IsSorted d
  pub by_value : d.cmp ≡ cmp_int

abbrev pub Member : IntSet → ℤ → Type 0
Member d y = (i : ℕ) × (i < Array.size d.values) × (Shape.at d.values i ≡ y)

-- Members are the values that an element is equal to.
Member-Has : (d : IntSet) (y : ℤ) → d.cmp ≡ cmp_int → Member d y ↔ Has d y
Member-Has d y e = (
  λ (i, h, q). (i, h, rw (e, q) (Eqv-refl cmp_int-IsOrder y)),
  λ (i, h, q). (i, h, sym (eq_of_Eqv y (Shape.at d.values i) (rw e at q))),
)

-- In a set the test for a value ends, and answers whether it is a member.
pub contains-Member :
    (d : IntSet) (value : ℤ)
    → IsIntSet d
    → (b : Bool) × (contains (some d) value ≡ some b) × ((b ≡ true) ↔ Member d value)
unfolding contains
contains-Member d value s =
    let (b, e, iff) = contains_iff s.sorted value in
    let same = Member-Has d value s.by_value in
    (b, e, (λ h. same.1 (iff.0 h), λ m. iff.1 (same.0 m)))

-- An insertion into a set with room for one element more succeeds and answers true; the result is a
-- set with the old members and the value, and at most one element larger.
pub insert-Member :
    (d : IntSet) (value : ℤ)
    → IsIntSet d
    → Array.size d.values + 1 ≤ 2 ^ 61
    → (d' : IntSet) × (insert d value ≡ some (true, d'))
      × IsIntSet d'
      × (Array.size d'.values ≤ Array.size d.values + 1)
      × ((y : ℤ) → Member d' y ↔ ((y ≡ value) ⊎ Member d y))
unfolding insert
insert-Member d value s room =
    let (d', e, added) = insert-Added value s.sorted room in inserted d' e added
  where
    inserted :
        (d' : IntSet)
        → insert d value ≡ some (true, d')
        → Added d value d'
        → (d' : IntSet) × (insert d value ≡ some (true, d'))
          × IsIntSet d'
          × (Array.size d'.values ≤ Array.size d.values + 1)
          × ((y : ℤ) → Member d' y ↔ ((y ≡ value) ⊎ Member d y))
    inserted d' e added = (
      d',
      e,
      record { sorted = added.sorted; by_value = by_value },
      added.grows,
      λ y. (λ m. only y m, λ m. kept y m),
    )
      where
        by_value : d'.cmp ≡ cmp_int
        by_value = added.cmp_eq ∙ s.by_value

        only : (y : ℤ) → Member d' y → (y ≡ value) ⊎ Member d y
        only y m = elim (added.only y ((Member-Has d' y by_value).0 m)) [
          | inl q ↦ inl (eq_of_Eqv y value (rw s.by_value at q))
          | inr h ↦ inr ((Member-Has d y s.by_value).1 h)
        ]

        kept : (y : ℤ) → (y ≡ value) ⊎ Member d y → Member d' y
        kept y (inl e) = (Member-Has d' y by_value).1 (rw e added.has_new)
        kept y (inr m) =
            (Member-Has d' y by_value).1 (added.has_old y ((Member-Has d y s.by_value).0 m))

-- A removal from a set succeeds and answers whether the value was a member; the result is a set with
-- the other members.
pub remove-Member :
    (d : IntSet) (value : ℤ)
    → IsIntSet d
    → (b : Bool) × (d' : IntSet) × (remove d value ≡ some (b, d'))
      × ((b ≡ true) ↔ Member d value)
      × IsIntSet d'
      × ((y : ℤ) → Member d' y ↔ ((y ≢ value) × Member d y))
unfolding remove
remove-Member d value s =
    let (b, d', e, iff, dropped) = remove-Dropped value s.sorted in
    let same = Member-Has d value s.by_value in
    let (set, members) = removed d' dropped in
    (b, d', e, (λ h. same.1 (iff.0 h), λ m. iff.1 (same.0 m)), set, members)
  where
    removed :
        (d' : IntSet)
        → Dropped d value d'
        → IsIntSet d' × ((y : ℤ) → Member d' y ↔ ((y ≢ value) × Member d y))
    removed d' dropped = (
      record { sorted = dropped.sorted; by_value = by_value },
      λ y. (λ m. only y m, λ m. kept y m),
    )
      where
        by_value : d'.cmp ≡ cmp_int
        by_value = dropped.cmp_eq ∙ s.by_value

        only : (y : ℤ) → Member d' y → (y ≢ value) × Member d y
        only y m =
            let h = (Member-Has d' y by_value).0 m in
            (λ e. dropped.gone (rw e at h), (Member-Has d y s.by_value).1 (dropped.only y h))

        kept : (y : ℤ) → (y ≢ value) × Member d y → Member d' y
        kept y (ne, m) = (Member-Has d' y by_value).1 (
            dropped.has_old y ((Member-Has d y s.by_value).0 m)
              (λ q. ne (eq_of_Eqv y value (rw s.by_value at q))))
