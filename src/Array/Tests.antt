-- ===== src/Array/Tests.antt =====
-- Runs of the array's operations, and its theorems at concrete arrays.
use the_foundation.Base.{ℕ, ◌+◌, some, List, [], ◌∷◌, ◌≡◌, refl, arith, ◌>>=◌, zero, suc}
use the_foundation.Array.{Array, size}
use the_foundation.Array.Shape.{IsValid, at}
use the_foundation.Array.Insertion.{insert_n}
use the_foundation.Array.Insertion.Ends.{Inserted}
use the_foundation.Array.Insertion.Laws.{insert_n-Inserted}
use the_foundation.Array.Removal.{remove_n}
use the_foundation.Array.Removal.Laws.{Removed, remove_n-Removed}

-- Five elements, 10, 11, 12, 13, 14, in a buffer of eight, touching its end.
abbrev sample : Array ℕ
sample = record { cells = λ i. i + 7; start = 3; end = 8; alloc_size = 8 }

abbrev two : ℕ → ℕ
two i = 100 + i

sample-IsValid : IsValid sample
sample-IsValid = omega arith

elements_from : ℕ → ℕ → Array ℕ → List ℕ
elements_from zero i d = []
elements_from (suc n) i d = at d i ∷ elements_from n (i + 1) d

elements : Array ℕ → List ℕ
unfolding elements_from
elements d = elements_from (size d) 0 d

insert_middle_run :
    (do d ← insert_n sample 2 two 2; some (elements d))
    ≡ some (10 ∷ 11 ∷ 100 ∷ 101 ∷ 12 ∷ 13 ∷ 14 ∷ [])
unfolding insert_n elements
insert_middle_run = refl

insert_growing_run :
    (do d ← insert_n sample 5 two 4; some (d.alloc_size ∷ elements d))
    ≡ some (16 ∷ 10 ∷ 11 ∷ 12 ∷ 13 ∷ 14 ∷ 100 ∷ 101 ∷ 102 ∷ 103 ∷ [])
unfolding insert_n elements
insert_growing_run = refl

remove_run : (do d ← remove_n sample 1 2; some (elements d)) ≡ some (10 ∷ 13 ∷ 14 ∷ [])
unfolding remove_n elements
remove_run = refl

insert_n-Inserted_example :
    (d' : Array ℕ) × (insert_n sample 2 two 2 ≡ some d') × Inserted sample 2 two 2 d'
insert_n-Inserted_example =
    insert_n-Inserted 2 two 2 sample-IsValid (omega arith) (omega arith) (omega arith)

remove_n-Removed_example : (d' : Array ℕ) × (remove_n sample 1 2 ≡ some d') × Removed sample 1 2 d'
remove_n-Removed_example =
    remove_n-Removed 1 2 sample-IsValid (omega arith) (omega arith) (omega arith)
