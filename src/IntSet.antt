-- ===== src/IntSet.antt =====
-- The set of integers of src/intset.c and include/the_Foundation/intset.h: a sorted array of `int`
-- values, compared by value. A set that may be NULL is an option.
pub mod Order
pub mod Members
pub mod Serialization
mod Tests
use the_foundation.Base.{
  ℕ, zero, suc, ◌+◌, ◌-◌, ◌%◌, ◌^◌, Bool, true, false, Option, none, some, List, [], ◌∷◌, ltb,
  if◌then◌else◌, ℤ, pos, negsuc, to_int, ◌>>=◌,
}
use the_foundation.Array
use the_foundation.SortedArray
use the_foundation.SortedArray.{SortedArray}

abbrev pub IntSet : Type 0
IntSet = SortedArray ℤ

-- `a < b` of two integers.
abbrev pub lt_int : ℤ → ℤ → Bool
lt_int (pos a) (pos b) = ltb a b
lt_int (pos a) (negsuc b) = false
lt_int (negsuc a) (pos b) = true
lt_int (negsuc a) (negsuc b) = ltb b a

-- `cmp_IntSet_`
abbrev pub cmp_int : ℤ → ℤ → ℤ
cmp_int a b = if lt_int b a then pos 1 else if lt_int a b then negsuc 0 else pos 0

-- The comparison given, or the one of integers.
abbrev pub chosen_cmp : Option (ℤ → ℤ → ℤ) → ℤ → ℤ → ℤ
chosen_cmp none = cmp_int
chosen_cmp (some f) = f

pub init : (ℕ → ℤ) → IntSet
init garbage = SortedArray.init garbage cmp_int

pub init_cmp : (ℕ → ℤ) → Option (ℤ → ℤ → ℤ) → IntSet
init_cmp garbage f = SortedArray.init garbage (chosen_cmp f)

pub new_cmp : (ℕ → ℤ) → Option (ℤ → ℤ → ℤ) → IntSet
unfolding init
new_cmp garbage f = record (init garbage) { cmp = chosen_cmp f }

pub copy : (ℕ → ℤ) → Option IntSet → Option (Option IntSet)
copy garbage none = some none
copy garbage (some d) = do d' ← SortedArray.copy garbage d; some (some d')

pub contains : Option IntSet → ℤ → Option Bool
contains none value = some false
contains (some d) value = SortedArray.contains d value

pub locate : IntSet → ℤ → Option (Bool × ℕ)
locate d value = SortedArray.locate d value

pub insert : IntSet → ℤ → Option (Bool × IntSet)
insert d value = SortedArray.insert d value

pub remove : IntSet → ℤ → Option (Bool × IntSet)
remove d value = SortedArray.remove d value

-- `at_IntSet`: a read outside of the elements is a fault.
pub at : IntSet → ℕ → Option ℤ
at d p = Array.at? d.values p

pub front : IntSet → Option ℤ
unfolding at
front d = at d 0

-- The position wraps for an empty set.
pub back : IntSet → Option ℤ
unfolding at
back d = at d (if ltb 0 (Array.size d.values) then Array.size d.values - 1 else 2 ^ 64 - 1)

pub clear : IntSet → IntSet
clear d = SortedArray.clear d

-- The `uint32_t` of an `int`.
abbrev pub to_word : ℤ → ℕ
to_word (pos n) = n % 2 ^ 32
to_word (negsuc n) = 2 ^ 32 - 1 - n % 2 ^ 32

-- The loop of `serialize_IntSet`: the 32-bit words written, from the position `p`.
pub write_values : (count p : ℕ) → IntSet → Option (List ℕ)
unfolding at
write_values zero p d = some []
write_values (suc n) p d = do v ← at d p; words ← write_values n (p + 1) d; some (to_word v ∷ words)

pub serialize : IntSet → Option (List ℕ)
unfolding write_values
serialize d = do
  words ← write_values (Array.size d.values) 0 d
  some (Array.size d.values % 2 ^ 32 ∷ words)

-- `read32_Stream`: 0 at the end of a stream.
abbrev pub next_word : List ℕ → ℕ × List ℕ
next_word [] = (0, [])
next_word (w ∷ words) = (w, words)

-- The loop of `deserialize_IntSet`.
pub read_values : ℕ → IntSet → List ℕ → Option IntSet
unfolding insert
read_values zero d words = some d
read_values (suc n) d words =
    let (w, rest) = next_word words in
    do (inserted, d') ← insert d (to_int w); read_values n d' rest

pub deserialize : IntSet → List ℕ → Option IntSet
unfolding read_values clear
deserialize d words = let (count, rest) = next_word words in read_values count (clear d) rest
