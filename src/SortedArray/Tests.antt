-- ===== src/SortedArray/Tests.antt =====
-- The theorems on sorted arrays at an array of numbers.
use the_foundation.Base.{◌/◌}
use the_foundation.Base.{ℕ, ◌*◌, Bool, true, some, ◌≡◌, ◌↔◌, arith, ℤ, sub_ℕ}
use the_foundation.SortedArray.{SortedArray, locate, locate_range, insert, remove}
use the_foundation.SortedArray.Order.{IsOrder, IsSorted, IsMonotone}
use the_foundation.SortedArray.Locate.{Located, locate-Located}
use the_foundation.SortedArray.Range.{Matching, locate_range-Matching}
use the_foundation.SortedArray.Adding.{Added, Has}
use the_foundation.SortedArray.Insert.{insert-Added}
use the_foundation.SortedArray.Remove.{Dropped, remove-Dropped}

-- The elements 0, 10, 20, 30.
abbrev sample : SortedArray ℕ
sample = record {
  values = record { cells = λ i. i * 10; start = 0; end = 4; alloc_size = 4 };
  cmp = sub_ℕ;
}

sub_ℕ-IsOrder : IsOrder sub_ℕ
sub_ℕ-IsOrder = record {
  flip = λ x y. ground arith;
  le_lt = λ x y z h k. ground arith;
  lt_le = λ x y z h k. ground arith;
}

sample-IsSorted : IsSorted sample
sample-IsSorted = record {
  valid = omega arith;
  order = sub_ℕ-IsOrder;
  rising = λ i j h k. ground arith;
}

-- A coarser comparison, by the digit of the twenties.
abbrev by_twenties : ℕ → ℕ → ℤ
by_twenties x y = sub_ℕ (x / 20) (y / 20)

by_twenties-IsOrder : IsOrder by_twenties
by_twenties-IsOrder = record {
  flip = λ x y. sub_ℕ-IsOrder.flip (x / 20) (y / 20);
  le_lt = λ x y z h k. sub_ℕ-IsOrder.le_lt (x / 20) (y / 20) (z / 20) h k;
  lt_le = λ x y z h k. sub_ℕ-IsOrder.lt_le (x / 20) (y / 20) (z / 20) h k;
}

sample-IsMonotone : IsMonotone by_twenties sample.values
sample-IsMonotone i j h k = ground arith

locate-Located_example :
    (b : Bool) × (p : ℕ) × (locate sample 15 ≡ some (b, p)) × Located sample 15 b p
locate-Located_example = locate-Located sample-IsSorted 15

locate_range-Matching_example :
    (a : ℕ) × (b : ℕ) × (locate_range sample 25 (some by_twenties) ≡ some (a, b))
    × Matching by_twenties sample 25 a b
locate_range-Matching_example =
    locate_range-Matching sample 25 (some by_twenties) (omega arith) by_twenties-IsOrder
      sample-IsMonotone

insert-Added_example :
    (d' : SortedArray ℕ) × (insert sample 15 ≡ some (true, d')) × Added sample 15 d'
insert-Added_example = insert-Added 15 sample-IsSorted (omega arith)

remove-Dropped_example :
    (b : Bool) × (d' : SortedArray ℕ) × (remove sample 20 ≡ some (b, d'))
    × ((b ≡ true) ↔ Has sample 20)
    × Dropped sample 20 d'
remove-Dropped_example = remove-Dropped 20 sample-IsSorted
