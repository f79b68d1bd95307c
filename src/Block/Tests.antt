-- ===== src/Block/Tests.antt =====
-- The theorems at two blocks that share the bytes 5, 6, 7, and runs.
use the_foundation.Base.{
  ℕ, ◌+◌, ◌-◌, ◌<◌, ◌==◌, if◌then◌else◌, [], ◌∷◌, some, none, ◌≡◌, refl, arith, ltb, Bool-cases,
  inl, inr,
}
use the_foundation.Block.{World, BlockData}
use the_foundation.Block.Edit.{append, insert_data, remove, deinit}
use the_foundation.Block.Changes.{Edited}
use the_foundation.Block.Laws.{inserted, without, insert_data-Edited, remove-Edited}
use the_foundation.Block.Copies.{append-Edited}
use the_foundation.Block.Lifetimes.{Released, deinit-Keeps}
use the_foundation.Block.Sharing.{IsWorld, Reads, Keeps, count}

abbrev nothing : ℕ → ℕ
nothing p = 205

abbrev pair : World
pair = record {
  datas = λ i.
      if i == 0
      then some (record { ref_count = 1; bytes = λ p. 0; size = 0; alloc_size = 1 })
      else if i == 1
      then some (record { ref_count = 2; bytes = λ p. p + 5; size = 3; alloc_size = 4 })
      else none;
  next = 2;
  blocks = some 1 ∷ some 1 ∷ [];
}

pair-IsWorld : IsWorld pair
unfolding count
pair-IsWorld = record {
  counted = λ i d e. ground arith;
  live = λ i h. live i h;
  empty = λ d e. ground arith;
  fresh = λ i h. ground arith;
  rooted = (record { ref_count = 1; bytes = λ p. 0; size = 0; alloc_size = 1 }, refl);
}
  where
    live :
        (i : ℕ)
        → 0 < count i pair.blocks + (if i == 0 then 1 else 0)
        → (d : BlockData) × (pair.datas i ≡ some d)
    live i h = elim (Bool-cases (i == 0)) [
      | inl at ↦ (record { ref_count = 1; bytes = λ p. 0; size = 0; alloc_size = 1 }, rw at refl)
      | inr other ↦ elim (Bool-cases (i == 1)) [
        | inl one ↦ (
          record { ref_count = 2; bytes = λ p. p + 5; size = 3; alloc_size = 4 },
          rw (other, one) refl,
        )
        | inr more ↦ ground arith
      ]
    ]

first-Reads : Reads pair 0 3 (λ p. p + 5)
first-Reads = record {
  id = 1;
  contents = record { ref_count = 2; bytes = λ p. p + 5; size = 3; alloc_size = 4 };
  on = refl;
  found = refl;
  size_eq = refl;
  bytes_eq = λ p h. refl;
}

second-Reads : Reads pair 1 3 (λ p. p + 5)
second-Reads = record {
  id = 1;
  contents = record { ref_count = 2; bytes = λ p. p + 5; size = 3; alloc_size = 4 };
  on = refl;
  found = refl;
  size_eq = refl;
  bytes_eq = λ p h. refl;
}

-- The block appended to itself: its data move, and the old ones are read.
abbrev alone_world : World
alone_world = record {
  datas = λ i.
      if i == 0
      then some (record { ref_count = 1; bytes = λ p. 0; size = 0; alloc_size = 1 })
      else if i == 1
      then some (record { ref_count = 1; bytes = λ p. p + 5; size = 3; alloc_size = 4 })
      else none;
  next = 2;
  blocks = some 1 ∷ [];
}

self_append_run : append nothing alone_world 0 0 ≡ none
unfolding append
self_append_run = refl

append-Edited_example :
    (w' : World) × (append nothing pair 0 1 ≡ some w')
    × Edited pair 0 w' 6 (λ p. if ltb p 3 then p + 5 else p - 3 + 5)
append-Edited_example =
    append-Edited nothing pair-IsWorld first-Reads second-Reads (λ e. ground arith) (omega arith)

insert_data-Edited_example :
    (w' : World) × (insert_data nothing pair 0 1 (λ q. 9) 2 ≡ some w')
    × Edited pair 0 w' 5 (inserted (λ p. p + 5) 1 (λ q. 9) 2)
insert_data-Edited_example =
    insert_data-Edited nothing pair-IsWorld first-Reads 1 (λ q. 9) 2 (omega arith) (omega arith)

remove-Edited_example :
    (w' : World) × (remove nothing pair 0 1 1 ≡ some w')
    × Edited pair 0 w' 2 (without (λ p. p + 5) 1 1)
remove-Edited_example =
    remove-Edited nothing pair-IsWorld first-Reads 1 1 (omega arith) (omega arith)

deinit-Keeps_example :
    (w' : World) × (deinit pair 0 ≡ some w')
    × IsWorld w'
    × Keeps pair w' 0
    × Released pair 0 (first-Reads).id (first-Reads).contents w'
deinit-Keeps_example = deinit-Keeps pair-IsWorld first-Reads
