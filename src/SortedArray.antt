-- ===== src/SortedArray.antt =====
-- The sorted array of src/sortedarray.c and include/the_Foundation/sortedarray.h: an array without
-- equal elements, searched by halving. A comparison gives an `int`, and its sign alone matters.
pub mod Order
pub mod Locate
pub mod Halving
pub mod Range
pub mod Adding
pub mod Replacing
pub mod Insert
pub mod Remove
mod Tests
use the_foundation.Base.{
  ℕ, zero, suc, ◌+◌, ◌-◌, ◌/◌, ◌<◌, Bool, true, false, ◌||◌, not, Option, none, some, ltb, leb,
  ◌==◌, if◌then◌else◌, ℤ, pos, negsuc, check, ◌>>=◌, ◌>>◌, ◌≡◌,
}
use the_foundation.Array
use the_foundation.Array.{Array, size, is_empty, at?, set_n}
use the_foundation.Array.Insertion.{insert_n}
use the_foundation.Array.Removal.{remove_n}

-- The tests `cmp == 0`, `cmp > 0` and `cmp < 0`.
abbrev pub is_zero : ℤ → Bool
is_zero (pos n) = n == 0
is_zero (negsuc n) = false

abbrev pub is_pos : ℤ → Bool
is_pos (pos n) = ltb 0 n
is_pos (negsuc n) = false

abbrev pub is_neg : ℤ → Bool
is_neg (pos n) = false
is_neg (negsuc n) = true

pub record SortedArray (A : Type 0) : Type 0 where
  pub values : Array A
  pub cmp : A → A → ℤ

module _ {A : Type 0} where
  pub init : (ℕ → A) → (A → A → ℤ) → SortedArray A
  init garbage cmp = record { values = Array.init garbage; cmp = cmp }

  pub copy : (ℕ → A) → SortedArray A → Option (SortedArray A)
  copy garbage other = do
    values ← Array.init_copy garbage other.values
    some (record { values = values; cmp = other.cmp })

  -- The halving loop of `locate_SortedArray`, on fuel; the position stands beside the answer.
  pub locate_loop : ℕ → SortedArray A → A → (start end : ℕ) → Option (Bool × ℕ)
  locate_loop zero d value start end = none
  locate_loop (suc fuel) d value start end =
      let mid = (start + end) / 2 in
      let upper = locate_loop fuel d value (mid + 1) end in
      let lower = locate_loop fuel d value start mid in
      if end == start then some (false, start) else (do
        x ← at? d.values mid
        if is_zero (d.cmp value x)
            then some (true, mid)
            else if is_pos (d.cmp value x)
            then upper
            else lower)

  -- A round shortens the span, so the size bounds their number.
  pub locate : SortedArray A → A → Option (Bool × ℕ)
  unfolding locate_loop
  locate d value = locate_loop (size d.values + 1) d value 0 (size d.values)

  pub contains : SortedArray A → A → Option Bool
  unfolding locate
  contains d value = do (found, p) ← locate d value; some found

  -- The two searches of `locateRange_SortedArray`: `narrow x` says that the span ends at `x`.
  pub bound_loop : ℕ → SortedArray A → (narrow : A → Bool) → (start end : ℕ) → Option ℕ
  bound_loop zero d narrow start end = none
  bound_loop (suc fuel) d narrow start end =
      let mid = (start + end) / 2 in
      let lower = bound_loop fuel d narrow start mid in
      let upper = bound_loop fuel d narrow (mid + 1) end in
      if end == start
      then some start
      else (do x ← at? d.values mid; if narrow x then lower else upper)

  -- The two searches, below the returns for a value outside of the elements.
  pub locate_bounds : SortedArray A → A → (A → A → ℤ) → Option (ℕ × ℕ)
  unfolding bound_loop
  locate_bounds d value cmp =
      let n = size d.values in
      do
        start ← bound_loop (n + 1) d (λ x. not (is_neg (cmp x value))) 0 n
        end ← bound_loop (n + 1) d (λ x. is_pos (cmp x value)) 0 n
        some (start, end)

  -- The comparison that a search uses.
  abbrev pub chosen : SortedArray A → Option (A → A → ℤ) → A → A → ℤ
  chosen d none = d.cmp
  chosen d (some f) = f

  -- The start and the end of the range of what is equal to `value` by `relaxed`, or by the array's
  -- own comparison where that is absent.
  pub locate_range : SortedArray A → A → Option (A → A → ℤ) → Option (ℕ × ℕ)
  unfolding locate_bounds
  locate_range d value relaxed =
      let cmp = chosen d relaxed in
      if is_empty d.values then some (0, 0) else (do
        front ← at? d.values 0
        if is_neg (cmp value front) then some (0, 0) else (do
          back ← at? d.values (size d.values - 1)
          if is_pos (cmp value back)
              then some (size d.values, size d.values)
              else locate_bounds d value cmp))

  unfoldable pub clear : SortedArray A → SortedArray A
  clear d = record d { values = Array.clear d.values }

  -- `set_Array` and `insert_Array` of one element, with the answer `iTrue`.
  pub set_at : SortedArray A → A → ℕ → Option (Bool × SortedArray A)
  set_at d value p = do
    values ← set_n d.values p (λ i. value) 1
    some (true, record d { values = values })

  pub insert_at : SortedArray A → A → ℕ → Option (Bool × SortedArray A)
  insert_at d value p = do
    values ← insert_n d.values p (λ i. value) 1
    some (true, record d { values = values })

  -- `insertIf_SortedArray`: an equal element is replaced where `pred` is absent or allows it.
  pub insert_if : SortedArray A → A → Option (A → A → Bool) → Option (Bool × SortedArray A)
  unfolding locate set_at insert_at
  insert_if d value pred = do
    (found, p) ← locate d value
    if found
        then (do
          old ← at? d.values p
          if elim pred [ none ↦ true | some f ↦ f value old ]
              then set_at d value p
              else some (false, d))
        else insert_at d value p

  pub insert : SortedArray A → A → Option (Bool × SortedArray A)
  unfolding insert_if
  insert d value = insert_if d value none

  pub remove : SortedArray A → A → Option (Bool × SortedArray A)
  unfolding locate
  remove d value = do
    (found, p) ← locate d value
    if found
        then (do values ← remove_n d.values p 1; some (true, record d { values = values }))
        else some (false, d)
