-- ===== src/Array.antt =====
-- The dynamic array of src/array.c and include/the_Foundation/array.h. A buffer is read by
-- element, not by byte, so `elementSize` is the type of elements; what `cells` holds outside of
-- `alloc_size` stands for no memory. Every access checks its bounds: `none` is an access outside
-- of the allocation, or an assertion of the source that fails. Index arithmetic inside of an
-- allocation is written without a modulus: `Array.Shape.IsValid` keeps it below 2 ^ 64.
pub mod Insertion
pub mod Removal
pub mod Shape
pub mod Growth
pub mod Moves
pub mod Update
mod Tests
use the_foundation.Base.{
  ℕ, zero, suc, ◌+◌, ◌-◌, ◌*◌, ◌/◌, ◌%◌, ◌^◌, ◌≤◌, ◌<◌, min, Bool, true, false, ◌&&◌, ◌||◌, not,
  Option, none, some, ltb, leb, ◌==◌, if◌then◌else◌, ℤ, pos, negsuc, neg, negate, to_int, half_diff,
  check, ◌>>=◌, ◌>>◌, sub_ℕ, List, [], ◌∷◌,
}

pub record Array (A : Type 0) : Type 0 where
  pub cells : ℕ → A
  pub start : ℕ
  pub end : ℕ
  pub alloc_size : ℕ

abbrev pub min_alloc : ℕ
min_alloc = 4

-- `iInvalidSize` and `iInvalidPos`, the largest `size_t`.
abbrev pub invalid_size : ℕ
invalid_size = 2 ^ 64 - 1

-- `while (newSize < reservedSize) newSize *= 2;`, `none` where the rounds run out.
pub grow : ℕ → ℕ → ℕ → Option ℕ
grow zero new_size reserved = none
grow (suc fuel) new_size reserved =
    let rest = grow fuel (new_size * 2 % 2 ^ 64) reserved in
    if ltb new_size reserved then rest else some new_size

-- `a - b` of a `long` and an `int`.
abbrev long_diff : ℕ → ℤ → ℤ
long_diff a (pos b) = sub_ℕ a b
long_diff a (negsuc b) = pos (a + b + 1)

module _ {A : Type 0} where
  abbrev pub size : Array A → ℕ
  size d = d.end - d.start

  abbrev pub is_empty : Array A → Bool
  is_empty d = d.end == d.start

  -- `memmove` of the elements `lo` to `hi` by `k` places up or down.
  abbrev pub moved_up : (ℕ → A) → (lo hi k : ℕ) → ℕ → A
  moved_up c lo hi k i = if leb (lo + k) i && ltb i (hi + k) then c (i - k) else c i

  abbrev pub moved_down : (ℕ → A) → (lo hi k : ℕ) → ℕ → A
  moved_down c lo hi k i = if leb lo (i + k) && ltb (i + k) hi then c (i + k) else c i

  -- `memcpy` of `count` elements of `value` to the place `p`.
  abbrev pub copied : (ℕ → A) → ℕ → (ℕ → A) → ℕ → ℕ → A
  copied c p value count i = if leb p i && ltb i (p + count) then value (i - p) else c i

  pub move_elements : Array A → (lo hi : ℕ) → ℤ → Option (Array A)
  move_elements d lo hi (pos k) = do
    check (leb lo hi && leb (hi + k) d.alloc_size)
    some (record d { cells = moved_up d.cells lo hi k })
  move_elements d lo hi (negsuc k) = do
    check (leb lo hi && leb hi d.alloc_size && leb (k + 1) lo)
    some (record d { cells = moved_down d.cells lo hi (k + 1) })

  abbrev pub shift_range : Array A → ℤ → Array A
  shift_range d (pos k) = record d { start = d.start + k; end = d.end + k }
  shift_range d (negsuc k) = record d { start = d.start - (k + 1); end = d.end - (k + 1) }

  pub shift : Array A → ℤ → Option (Array A)
  unfolding move_elements
  shift d delta = do d' ← move_elements d d.start d.end delta; some (shift_range d' delta)

  pub imbalance : Array A → ℤ
  imbalance d =
      let left = d.start in
      let right = d.alloc_size - d.end in
      if leb left min_alloc && leb right min_alloc
      then pos 0
      else if ltb (2 * right) left || ltb (2 * left) right
      then half_diff right left
      else pos 0

  pub rebalance : Array A → Option (Array A)
  unfolding shift imbalance
  rebalance d =
      if not (is_empty d) && (d.end == d.alloc_size || d.start == 0)
      then shift d (imbalance d)
      else some d

  -- A size grows 64 times at most.
  pub reserve : Array A → ℕ → Option (Array A)
  unfolding grow
  reserve d reserved = do
    new_size ← grow 65 (if d.alloc_size == 0 then min_alloc else d.alloc_size) reserved
    some (if ltb d.alloc_size new_size then record d { alloc_size = new_size } else d)

  pub write : Array A → ℕ → (ℕ → A) → ℕ → Option (Array A)
  write d p value count = do
    check (leb (p + count) d.alloc_size)
    some (record d { cells = copied d.cells p value count })

-- The operations that edit an array.
module _ {A : Type 0} where
  -- `init_Array`: the fields are zeroed, and nothing is allocated.
  pub init : (ℕ → A) → Array A
  init garbage = record { cells = garbage; start = 0; end = 0; alloc_size = 0 }

  -- `initCopy_Array`, whose fresh allocation first holds `garbage`.
  pub init_copy : (garbage : ℕ → A) → Array A → Option (Array A)
  unfolding write
  init_copy garbage other =
      write (record { cells = garbage; start = 0; end = size other; alloc_size = size other + 1 }) 0
        (λ i. other.cells (other.start + i)) (size other)

  -- What `at_Array` and `constAt_Array` point to.
  unfoldable pub at? : Array A → ℕ → Option A
  at? d p = if ltb p (size d) then some (d.cells (d.start + p)) else none

  unfoldable pub clear : Array A → Array A
  clear d = record d { start = d.alloc_size / 2; end = d.alloc_size / 2 }

  -- The elements that `memset` clears are `zeroed`.
  pub resize : (zeroed : A) → Array A → ℕ → Option (Array A)
  unfolding reserve shift write
  resize zeroed d new_size =
      if new_size == size d
      then some d
      else if ltb new_size (size d)
      then some (record d { end = d.start + new_size })
      else do
        r ← reserve d new_size
        s ←
            if ltb r.alloc_size (r.start + new_size)
            then shift r (long_diff ((r.alloc_size - new_size) / 2) (to_int r.start))
            else some r
        write (record s { end = s.start + new_size }) (s.start + size d) (λ _. zeroed)
            (new_size - size d)

  pub set_n : Array A → ℕ → (ℕ → A) → ℕ → Option (Array A)
  unfolding write
  set_n d p value count = do
    check (leb (p + count) (size d))
    check (ltb p (size d))
    write d (d.start + p) value count
