-- ===== src/Array/Removal.antt =====
-- Removal from an array, `removeN_Array` and what calls it (src/array.c, array.h).
pub mod Laws
use the_foundation.Base.{
  ℕ, zero, suc, ◌+◌, ◌-◌, ◌*◌, ◌/◌, ◌%◌, ◌^◌, ◌≤◌, ◌<◌, min, Bool, true, false, ◌&&◌, ◌||◌, not,
  Option, none, some, ltb, leb, ◌==◌, if◌then◌else◌, ℤ, pos, negsuc, neg, negate, to_int, half_diff,
  check, ◌>>=◌, ◌>>◌, sub_ℕ, List, [], ◌∷◌,
}
use the_foundation.Array.{Array, size, move_elements, invalid_size}

-- A `size_t` difference, which wraps.
abbrev sub_size : ℕ → ℕ → ℕ
sub_size a b = (a + 2 ^ 64 - b) % 2 ^ 64

module _ {A : Type 0} where
  -- The removal of `count` elements at the place `p` of the buffer: the shorter rest moves.
  pub remove_at : Array A → (p count : ℕ) → Option (Array A)
  unfolding move_elements
  remove_at d p count =
      if p == d.end - count
      then some (record d { end = d.end - count })
      else if p == d.start
      then some (record d { start = d.start + count })
      else if ltb (d.end - p) (p - d.start)
      then (do
        m ← move_elements d (p + count) d.end (negate (to_int count))
        some (record m { end = d.end - count }))
      else (do
        m ← move_elements d d.start p (pos count)
        some (record m { start = d.start + count }))

  unfoldable pub remove_n : Array A → (p count : ℕ) → Option (Array A)
  unfolding remove_at
  remove_n d p count =
      let n = (if count == invalid_size then sub_size (size d) p else count) in
      if count == 0
      then some d
      else do check (ltb p (size d)); check (leb (p + n) (size d)); remove_at d (p + d.start) n

  -- The number of elements removed stands beside the array.
  pub pop_back_n : Array A → ℕ → Option (ℕ × Array A)
  unfolding remove_n
  pop_back_n d count = let n = min count (size d) in do d' ← remove_n d (size d - n) n; some (n, d')

  pub pop_front_n : Array A → ℕ → Option (ℕ × Array A)
  unfolding remove_n
  pop_front_n d count = let n = min count (size d) in do d' ← remove_n d 0 n; some (n, d')

  -- The elements copied to `value_out` are those that the function gives below the count.
  pub take_n : Array A → (p count : ℕ) → Option (ℕ × (ℕ → A) × Array A)
  unfolding remove_n
  take_n d p count =
      let n = min count (sub_size (size d) p) in
      if p == invalid_size then some (0, d.cells, d) else do
        check (ltb p (size d))
        d' ← remove_n d p n
        some (n, (λ i. d.cells (d.start + p + i)), d')
