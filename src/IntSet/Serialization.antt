-- ===== src/IntSet/Serialization.antt =====
-- A set written to a stream and read again.
use the_foundation.Base.{
  ℕ, zero, suc, ◌+◌, ◌%◌, ◌^◌, ◌≤◌, ◌<◌, true, some, List, [], ◌∷◌, ◌≡◌, refl, sym, ap, ◌∙◌, ◌⊎◌,
  ◌↔◌, inl, inr, ℤ, pos, negsuc, to_int, arith, Bool-cases, ◌==◌, ==_iff,
}
use the_foundation.Array
use the_foundation.Array.Shape
use the_foundation.Array.Shape.{IsValid, at?-some}
use the_foundation.IntSet.{
  IntSet, at, clear, insert, to_word, write_values, serialize, read_values, deserialize,
}
use the_foundation.IntSet.Members.{IsIntSet, Member, insert-Member}

-- The values that an `int` of 32 bits has.
abbrev pub IsInt : ℤ → Type 0
IsInt (pos n) = n < 2 ^ 31
IsInt (negsuc n) = n < 2 ^ 31

to_int-to_word : (z : ℤ) → IsInt z → to_int (to_word z) ≡ z
to_int-to_word (pos n) h = ground arith
to_int-to_word (negsuc n) h = ground arith

-- The words of `n` elements from the position `p`.
element_words : (n p : ℕ) → IntSet → List ℕ
element_words zero p d = []
element_words (suc n) p d = to_word (Shape.at d.values p) ∷ element_words n (p + 1) d

write_values-eq :
    (n p : ℕ) (d : IntSet)
    → p + n ≤ Array.size d.values
    → write_values n p d ≡ some (element_words n p d)
unfolding write_values at element_words
write_values-eq zero p d h = refl
write_values-eq (suc n) p d h =
    rw (at?-some d.values p (omega arith), write_values-eq n (p + 1) d (omega arith)) refl

clear-IsIntSet : (d : IntSet) → IsIntSet d → IsIntSet (clear d) × (Array.size (clear d).values ≡ 0)
unfolding clear the_foundation.SortedArray.clear the_foundation.Array.clear
clear-IsIntSet d s = (
  record {
    sorted = record {
      valid = record { ordered = omega arith; fits = omega arith; small = s.sorted.valid.small };
      order = s.sorted.order;
      rising = λ i j h k. absurd (omega arith);
    };
    by_value = s.by_value;
  },
  omega arith,
)

-- Some of the elements of `d` from the position `p`.
abbrev Among : (n p : ℕ) → IntSet → ℤ → Type 0
Among n p d y = (i : ℕ) × (p ≤ i) × (i < p + n) × (Shape.at d.values i ≡ y)

-- Reading the words of `n` elements into `e`.
record ReadBack (n p : ℕ) (d e : IntSet) : Type 0 where
  result : IntSet
  read : read_values n e (element_words n p d) ≡ some result
  set : IsIntSet result
  members : (y : ℤ) → Member result y ↔ (Member e y ⊎ Among n p d y)

read_one :
    (n p : ℕ) (d e e' : IntSet)
    → IsInt (Shape.at d.values p)
    → insert e (Shape.at d.values p) ≡ some (true, e')
    → ((y : ℤ) → Member e' y ↔ ((y ≡ Shape.at d.values p) ⊎ Member e y))
    → ReadBack n (p + 1) d e'
    → ReadBack (suc n) p d e
unfolding read_values element_words
read_one n p d e e' int eq members r = record {
  result = r.result;
  read = rw (to_int-to_word (Shape.at d.values p) int, eq, r.read) refl;
  set = r.set;
  members = λ y. (λ m. first y ((r.members y).0 m), λ c. second y c);
}
  where
    first : (y : ℤ) → Member e' y ⊎ Among n (p + 1) d y → Member e y ⊎ Among (suc n) p d y
    first y (inl m) = elim ((members y).0 m) [
      | inl q ↦ inr (p, omega arith, omega arith, sym q)
      | inr m' ↦ inl m'
    ]
    first y (inr (i, h, k, q)) = inr (i, omega arith, omega arith, q)

    second : (y : ℤ) → Member e y ⊎ Among (suc n) p d y → Member r.result y
    second y (inl m) = (r.members y).1 (inl ((members y).1 (inr m)))
    second y (inr (i, h, k, q)) = elim (Bool-cases (i == p)) [
      | inl at_p ↦
          (r.members y).1 (
            inl ((members y).1 (inl (sym q ∙ ap (λ j. Shape.at d.values j) ((==_iff i p).0 at_p)))))
      | inr behind ↦ (r.members y).1 (inr (i, ground arith, omega arith, q))
    ]

read_values-ReadBack :
    (n p : ℕ) (d e : IntSet)
    → ((i : ℕ) → p ≤ i → i < p + n → IsInt (Shape.at d.values i))
    → IsIntSet e
    → Array.size e.values + n ≤ 2 ^ 61
    → ReadBack n p d e
unfolding read_values element_words
read_values-ReadBack zero p d e ints s room = record {
  result = e;
  read = refl;
  set = s;
  members = λ y. (λ m. inl m, λ c. elim c [ inl m ↦ m | inr (i, h, k, q) ↦ absurd (omega arith) ]);
}
read_values-ReadBack (suc n) p d e ints s room =
    let (e', eq, s', grows, members) = insert-Member e (Shape.at d.values p) s (omega arith) in
    read_one n p d e e' (ints p (omega arith) (omega arith)) eq members (
      read_values-ReadBack n (p + 1) d e' (λ i h k. ints i (omega arith) (omega arith)) s'
        (omega arith))

-- A set of fewer than 2 ^ 32 integers of 32 bits is written without a fault; what was written is read
-- into any set without a fault, and the result is a set with the members of the one written.
pub deserialize-serialize :
    (d e : IntSet)
    → IsIntSet d
    → IsIntSet e
    → ((y : ℤ) → Member d y → IsInt y)
    → Array.size d.values < 2 ^ 32
    → (words : List ℕ) × (e' : IntSet) × (serialize d ≡ some words)
      × (deserialize e words ≡ some e')
      × IsIntSet e'
      × ((y : ℤ) → Member e' y ↔ Member d y)
unfolding serialize deserialize
deserialize-serialize d e s t ints small =
    let (cleared, empty) = clear-IsIntSet e t in
    let r =
      read_values-ReadBack (Array.size d.values) 0 d (clear e)
        (λ i h k. ints (Shape.at d.values i) (i, omega arith, refl)) cleared (omega arith) in
    (
      Array.size d.values % 2 ^ 32 ∷ element_words (Array.size d.values) 0 d,
      r.result,
      rw (write_values-eq (Array.size d.values) 0 d (omega arith)) refl,
      ap (λ n. read_values n (clear e) (element_words (Array.size d.values) 0 d))
            {x = Array.size d.values % 2 ^ 32} {y = Array.size d.values} (omega arith)
          ∙ r.read,
      r.set,
      λ y. (
        λ m. only y empty ((r.members y).0 m),
        λ (i, h, q). (r.members y).1 (inr (i, omega arith, omega arith, q)),
      ),
    )
  where
    only :
        (y : ℤ)
        → Array.size (clear e).values ≡ 0
        → Member (clear e) y ⊎ Among (Array.size d.values) 0 d y
        → Member d y
    only y empty (inl (i, h, q)) = absurd (omega arith)
    only y empty (inr (i, h, k, q)) = (i, omega arith, q)
