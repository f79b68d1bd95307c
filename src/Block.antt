-- ===== src/Block.antt =====
-- The byte blocks of src/block.c and include/the_Foundation/block.h, which share their data until
-- one of them is changed. A `World` holds all data and all blocks: a block is a position of `blocks`,
-- where `none` is a block that was deinitialised, and data a number, 0 for `emptyBlockData`. What
-- fresh memory contains is `garbage`. `none` is an access outside of an allocation or to freed data,
-- or an assertion that fails.
pub mod Edit
pub mod Sharing
pub mod References
pub mod Dropping
pub mod Placing
pub mod Owning
pub mod Changes
pub mod Laws
pub mod Resizing
pub mod Copies
pub mod Lifetimes
pub mod Creation
pub mod Bytes
mod Tests
use the_foundation.Base.{
  ℕ, zero, suc, ◌+◌, ◌-◌, Bool, not, ◌&&◌, Option, none, some, List, [], ◌∷◌, ltb, leb, ◌==◌, min,
  max, if◌then◌else◌, get_elem?, set, check, ◌>>=◌, ◌>>◌,
}
use the_foundation.Array.{grow}

-- `iBlockData`. The source counts references in an atomic `int`; the count is not bounded here.
pub record BlockData : Type 0 where
  pub ref_count : ℕ
  pub bytes : ℕ → ℕ
  pub size : ℕ
  pub alloc_size : ℕ

pub record World : Type 0 where
  pub datas : ℕ → Option BlockData
  pub next : ℕ
  pub blocks : List (Option ℕ)

-- The data of a block.
abbrev pub block : World → ℕ → Option ℕ
block w h = get_elem? w.blocks h >>= λ o. o

abbrev pub put : World → ℕ → Option BlockData → World
put w i d = record w { datas = λ j. if j == i then d else w.datas j }

abbrev pub assign : World → ℕ → ℕ → World
assign w h i = record w { blocks = set w.blocks h (some i) }

-- `new_BlockData_`, with the bytes that are copied into it.
abbrev pub new_data : World → (ℕ → ℕ) → (size alloc_size : ℕ) → World
new_data w bytes size alloc_size = record w {
  datas = λ j.
      if j == w.next
      then some (record {
        ref_count = 1;
        bytes = bytes;
        size = size;
        alloc_size = max (size + 1) alloc_size;
      })
      else w.datas j;
  next = w.next + 1;
}

-- `addRelaxed_Atomic(&i->refCount, 1)`
pub reref : World → ℕ → Option World
reref w i = do d ← w.datas i; some (put w i (some (record d { ref_count = d.ref_count + 1 })))

-- `deref_BlockData_`
pub deref : World → ℕ → Option World
deref w i = do
  d ← w.datas i
  if d.ref_count == 1
      then (do check (not (i == 0)); some (put w i none))
      else some (put w i (some (record d { ref_count = d.ref_count - 1 })))

-- `allocSize_`
pub alloc_size_for : ℕ → Option ℕ
alloc_size_for content_size = grow 62 8 (content_size + 1)

-- What the first `n` bytes of fresh memory are, after a copy of `bytes`.
abbrev pub filled : (garbage bytes : ℕ → ℕ) → ℕ → ℕ → ℕ
filled garbage bytes n p = if ltb p n then bytes p else garbage p

-- `detach_Block_`, with `duplicate_BlockData_`.
pub detach : (garbage : ℕ → ℕ) → World → (h alloc_size : ℕ) → Option World
detach garbage w h alloc_size = do
  i ← block w h
  d ← w.datas i
  if ltb 1 d.ref_count
      then (do
        let copy = filled garbage d.bytes (min d.alloc_size (d.size + 1))
        w' ← deref (new_data w copy d.size alloc_size) i
        some (assign w' h w.next))
      else (do check (d.ref_count == 1); some w)

-- `reserve_BlockData_` of the data of a block.
pub reserve_data : (garbage : ℕ → ℕ) → World → (h size : ℕ) → Option World
reserve_data garbage w h size = do
  i ← block w h
  d ← w.datas i
  if leb (size + 1) d.alloc_size then some w else (do
    check (d.ref_count == 1 && ltb 0 d.alloc_size)
    alloc_size ← alloc_size_for size
    some (
        put w i (
          some
            (record d { bytes = filled garbage d.bytes d.alloc_size; alloc_size = alloc_size }))))

-- `reserve_Block`
pub reserve : (garbage : ℕ → ℕ) → World → (h size : ℕ) → Option World
reserve garbage w h size = do
  alloc_size ← alloc_size_for size
  w' ← detach garbage w h alloc_size
  reserve_data garbage w' h size

-- A change of the data of a block in place.
pub edit : World → ℕ → (BlockData → Option BlockData) → Option World
edit w h f = do i ← block w h; d ← w.datas i; d' ← f d; some (put w i (some d'))

-- The bytes from `p` on replaced by `n` others, and the size set with a null behind it.
abbrev pub written : BlockData → (p : ℕ) → (ℕ → ℕ) → (n : ℕ) → BlockData
written d p source n = record d {
  bytes = λ q. if leb p q && ltb q (p + n) then source (q - p) else d.bytes q;
}

abbrev pub closed : BlockData → ℕ → BlockData
closed d size = record d { bytes = λ q. if q == size then 0 else d.bytes q; size = size }

-- `memcpy` and `memmove` to the data, and the null that ends them.
abbrev pub copy_in : BlockData → (p : ℕ) → (ℕ → ℕ) → (n : ℕ) → Option BlockData
copy_in d p source n = do check (leb (p + n) d.alloc_size); some (written d p source n)

abbrev pub close_at : BlockData → ℕ → Option BlockData
close_at d size = do check (ltb size d.alloc_size); some (closed d size)
