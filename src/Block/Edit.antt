-- ===== src/Block/Edit.antt =====
-- The operations on blocks.
use the_foundation.Base.{
  ℕ, zero, suc, ◌+◌, ◌-◌, ◌%◌, ◌^◌, not, ◌&&◌, Option, none, some, [], ◌∷◌, ◌++◌, ltb, leb, ◌==◌,
  min, max, if◌then◌else◌, set, check, ◌>>=◌, ◌>>◌,
}
use the_foundation.Array.{invalid_size}
use the_foundation.Block.{
  World, BlockData, block, assign, new_data, reref, deref, detach, reserve, edit, copy_in, close_at,
}

-- The data that a block reads.
abbrev pub data_of : World → ℕ → Option BlockData
data_of w h = block w h >>= w.datas

-- A new block on some data, which stands behind the others.
abbrev pub push_block : World → ℕ → World
push_block w i = record w { blocks = w.blocks ++ (some i ∷ []) }

-- `size_Block`
abbrev pub size : World → ℕ → Option ℕ
size w h = do d ← data_of w h; some d.size

-- `at_Block`, with the assertion on the position.
abbrev pub at : World → (h p : ℕ) → Option ℕ
at w h p = do d ← data_of w h; check (ltb p d.size); some (d.bytes p)

-- The count of `remove_Block`, cut at the end.
abbrev pub removed_count : (size start count : ℕ) → ℕ
removed_count n start count =
    if count == invalid_size
    then n - start
    else if ltb n ((start + count) % 2 ^ 64)
    then n - start
    else count

-- The count of `replace_Block`.
unfoldable pub replaced : ℕ → (ℕ → ℕ) → (n : ℕ) → ℕ
replaced old bytes zero = 0
replaced old bytes (suc n) = replaced old bytes n + (if bytes n == old then 1 else 0)

-- `initCopy_Block` of a block that is not NULL.
unfoldable pub init_copy : World → ℕ → Option World
init_copy w other = do i ← block w other; w' ← reref w i; some (push_block w' i)

unfoldable pub deinit : World → ℕ → Option World
deinit w h = do i ← block w h; w' ← deref w i; some (record w' { blocks = set w'.blocks h none })

unfoldable pub clear : World → ℕ → Option World
clear w h = do i ← block w h; w' ← deref w i; reref (assign w' h 0) 0

-- `set_Block`
unfoldable pub set_block : World → (h other : ℕ) → Option World
set_block w h other = do
  i ← block w h
  j ← block w other
  if i == j then some w else (do w' ← reref w j; w'' ← deref w' i; some (assign w'' h j))

module _ (garbage : ℕ → ℕ) where
  unfoldable pub init_block : World → ℕ → Option World
  init_block w n =
      if n == 0
      then (do w' ← reref w 0; some (push_block w' 0))
      else some (push_block (new_data w garbage n 0) w.next)

  unfoldable pub truncate : World → (h n : ℕ) → Option World
  truncate w h n = do
    d ← data_of w h
    if ltb n d.size
        then (do w' ← detach garbage w h 0; edit w' h (λ e. close_at e (min e.size n)))
        else some w

  -- `resize_Block`: the new bytes are zero, with one behind them.
  unfoldable pub resize : World → (h n : ℕ) → Option World
  resize w h n = do
    d ← data_of w h
    if ltb n d.size then truncate w h n else (do
      w' ← reserve garbage w h n
      edit w' h (λ e. copy_in (record e { size = n }) e.size (λ q. 0) (n - e.size + 1)))

  unfoldable pub remove : World → (h start count : ℕ) → Option World
  remove w h start count = do
    w' ← detach garbage w h 0
    edit w' h (λ e. do
      check (leb start e.size)
      let c = removed_count e.size start count
      e' ← copy_in e start (λ q. e.bytes (start + c + q)) (e.size - start - c)
      close_at e' (e.size - c))

  unfoldable pub fill : World → (h value : ℕ) → Option World
  fill w h value = do
    w' ← detach garbage w h 0
    edit w' h (λ e. do e' ← copy_in e 0 (λ q. value) e.size; close_at e' e.size)

  unfoldable pub push_back : World → (h value : ℕ) → Option World
  push_back w h value = do
    d ← data_of w h
    w' ← reserve garbage w h (d.size + 1)
    edit w' h (λ e. do e' ← copy_in e e.size (λ q. value) 1; close_at e' (e.size + 1))

  unfoldable pub pop_back : World → ℕ → Option World
  pop_back w h = do
    w' ← detach garbage w h 0
    edit w' h (λ e. if ltb 0 e.size then close_at e (e.size - 1) else some e)

  unfoldable pub set_byte : World → (h p value : ℕ) → Option World
  set_byte w h p value = do
    w' ← detach garbage w h 0
    edit w' h (λ e. do check (ltb p e.size); copy_in e p (λ q. value) 1)

  -- `setData_Block`: `source` lies outside of the data of the blocks.
  unfoldable pub set_data : World → (h : ℕ) → (ℕ → ℕ) → (n : ℕ) → Option World
  set_data w h source n = if n == 0 then clear w h else (do
    w' ← reserve garbage w h n
    edit w' h (λ e. do e' ← copy_in e 0 source n; close_at e' n))

  unfoldable pub set_sub_data : World → (h p : ℕ) → (ℕ → ℕ) → (n : ℕ) → Option World
  set_sub_data w h p source n = do
    w' ← reserve garbage w h (p + n)
    edit w' h (λ e. do
      check (leb p e.size)
      e' ← copy_in e p source n
      if max e.size (p + n) == p + n then close_at e' (p + n) else some e')

  unfoldable pub append_data : World → (h : ℕ) → (ℕ → ℕ) → (n : ℕ) → Option World
  append_data w h source n = do
    d ← data_of w h
    w' ← reserve garbage w h (d.size + n)
    edit w' h (λ e. do e' ← copy_in e e.size source n; close_at e' (e.size + n))

  -- `append_Block`. The bytes are those of the other block's data before the call, where they were:
  -- if the call reallocates these data they are read after they are freed.
  unfoldable pub append : World → (h other : ℕ) → Option World
  append w h other = do
    i ← block w h
    j ← block w other
    d ← w.datas i
    e ← w.datas j
    check (not (i == j && d.ref_count == 1 && ltb d.alloc_size (d.size + e.size + 1)))
    append_data w h e.bytes e.size

  unfoldable pub insert_data : World → (h p : ℕ) → (ℕ → ℕ) → (n : ℕ) → Option World
  insert_data w h p source n = do
    d ← data_of w h
    w' ← reserve garbage w h (d.size + n)
    edit w' h (λ e. do
      check (leb p e.size)
      moved ← copy_in e (p + n) (λ q. e.bytes (p + q)) (e.size - p)
      e' ← copy_in moved p source n
      close_at e' (e.size + n))

  unfoldable pub replace : World → (h old new : ℕ) → Option (ℕ × World)
  replace w h old new = do
    w' ← detach garbage w h 0
    d ← data_of w' h
    w'' ← edit w' h (λ e. copy_in e 0 (λ q. if e.bytes q == old then new else e.bytes q) e.size)
    some (replaced old d.bytes d.size, w'')
