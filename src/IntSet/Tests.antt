-- ===== src/IntSet/Tests.antt =====
-- The theorems on sets of integers at the set -5, 1, 2, and a run.
use the_foundation.Base.{
  ℕ, ◌<◌, ◌==◌, if◌then◌else◌, some, List, [], ◌∷◌, ◌≡◌, ◌↔◌, refl, sym, ℤ, pos, negsuc, arith,
}
use the_foundation.Array
use the_foundation.IntSet.{IntSet, cmp_int, serialize, deserialize}
use the_foundation.IntSet.Order.{cmp_int-IsOrder}
use the_foundation.IntSet.Members.{IsIntSet, Member}
use the_foundation.IntSet.Serialization.{IsInt, deserialize-serialize}

abbrev sample : IntSet
sample = record {
  values = record {
    cells = λ i. if i == 0 then negsuc 4 else pos i;
    start = 0;
    end = 3;
    alloc_size = 4;
  };
  cmp = cmp_int;
}

sample-IsIntSet : IsIntSet sample
sample-IsIntSet = record {
  sorted = record {
    valid = omega arith;
    order = cmp_int-IsOrder;
    rising = λ i j h k. ground arith;
  };
  by_value = refl;
}

sample-IsInt : (y : ℤ) → Member sample y → IsInt y
sample-IsInt y (i, h, q) = rw (sym q) (element i h)
  where
    element : (i : ℕ) → i < 3 → IsInt (Array.Shape.at sample.values i)
    element i h = ground arith

serialize_run : serialize sample ≡ some (3 ∷ 0xffff_fffb ∷ 1 ∷ 2 ∷ [])
unfolding serialize the_foundation.Array.at?
serialize_run = refl

deserialize-serialize_example :
    (words : List ℕ) × (e' : IntSet) × (serialize sample ≡ some words)
    × (deserialize sample words ≡ some e')
    × IsIntSet e'
    × ((y : ℤ) → Member e' y ↔ Member sample y)
deserialize-serialize_example =
    deserialize-serialize sample sample sample-IsIntSet sample-IsIntSet sample-IsInt (omega arith)
