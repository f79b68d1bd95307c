-- ===== src/Buffer.antt =====
-- The buffers of src/buffer.c and include/the_Foundation/buffer.h: streams in memory, on a block of
-- their own or on another one. `world` is the store of the blocks, and `block` and `data` are
-- blocks of it; the fields of the stream itself are kept apart, as the operations of a class get
-- them besides. `none` is a fault, as of blocks.
pub mod Store
pub mod Consuming
pub mod Opening
mod Tests
use the_foundation.Base.{
  ℕ, zero, suc, ◌+◌, ◌-◌, ◌%◌, ◌^◌, Bool, true, false, ◌&&◌, not, Option, none, some, length, ◌==◌,
  ltb, leb, min, max, if◌then◌else◌, check, ◌>>=◌, ◌>>◌,
}
use the_foundation.Block.{World}
use the_foundation.Block.Edit
use the_foundation.Block.Edit.{init_block, set_block, set_sub_data, remove, data_of}
use the_foundation.Stream.{Stream, StreamClass, init_stream, set_size, seek_stream, read_data}

-- `data` is none where the buffer is closed.
pub record Buffer : Type 0 where
  pub world : World
  pub block : ℕ
  pub data_block : Option ℕ
  pub read_only : Bool

abbrev pub is_open : Buffer → Bool
is_open b = elim b.data_block [ none ↦ false | some h ↦ true ]

-- `init_Buffer`
unfoldable pub init_buffer : (garbage : ℕ → ℕ) → World → Option (Buffer × Stream)
init_buffer garbage w = do
  w' ← init_block garbage w 0
  some (
    record { world = w'; block = length w.blocks; data_block = none; read_only = false },
    init_stream,
  )

-- `open_Buffer`, `openData_Buffer` and `openEmpty_Buffer` of data that are not NULL, with the answer.
unfoldable pub open_block : Buffer → Stream → ℕ → Option (Bool × Buffer × Stream)
open_block b d data_block = if is_open b then some (false, b, d) else (do
  w ← set_block b.world b.block data_block
  n ← Edit.size w data_block
  some (
    true,
    record { world = w; block = b.block; data_block = some b.block; read_only = true },
    set_size d n,
  ))

unfoldable pub open_data : Buffer → Stream → ℕ → Option (Bool × Buffer × Stream)
open_data b d data_block = if is_open b then some (false, b, d) else (do
  w ← Edit.clear b.world b.block
  n ← Edit.size w data_block
  some (
    true,
    record { world = w; block = b.block; data_block = some data_block; read_only = false },
    set_size d n,
  ))

unfoldable pub open_empty : Buffer → Stream → Option (Bool × Buffer × Stream)
open_empty b d = if is_open b then some (false, b, d) else (do
  w ← Edit.clear b.world b.block
  some (
    true,
    record { world = w; block = b.block; data_block = some b.block; read_only = false },
    set_size d 0,
  ))

-- `close_Buffer`
unfoldable pub close : Buffer → Option Buffer
close b =
    if is_open b
    then (do w ← Edit.clear b.world b.block; some (record b { world = w; data_block = none }))
    else some b

-- `clear_Buffer`
unfoldable pub clear : Buffer → Stream → Option (Buffer × Stream)
clear b d = do
  w ← Edit.clear b.world b.block
  elim b.data_block [
    | none ↦ some (record b { world = w }, d)
    | some h ↦ (do w' ← Edit.clear w h; some (record b { world = w' }, set_size d 0))
  ]

-- `seek_Buffer_`
unfoldable pub seek_buffer : Buffer → Stream → ℕ → Option ℕ
seek_buffer b d offset = elim b.data_block [
  | none ↦ some d.pos
  | some h ↦ (do n ← Edit.size b.world h; some (min offset n))
]

-- `read_Buffer_`
unfoldable pub read_buffer : Buffer → Stream → (size : ℕ) → (ℕ → ℕ) → Option (ℕ × (ℕ → ℕ))
read_buffer b d size out = elim b.data_block [
  | none ↦ some (0, out)
  | some h ↦ if d.pos == d.size then some (0, out) else (do
    e ← data_of b.world h
    let end = min ((d.pos + size) % 2 ^ 64) e.size
    check (leb d.pos end)
    some (end - d.pos, λ p. if ltb p (end - d.pos) then e.bytes (d.pos + p) else out p))
]

module _ (garbage : ℕ → ℕ) where
  -- `write_Buffer_`
  unfoldable pub write_buffer : Buffer → Stream → (ℕ → ℕ) → (size : ℕ) → Option (ℕ × Buffer)
  write_buffer b d source size = elim b.data_block [
    | none ↦ some (0, b)
    | some h ↦ if b.read_only then some (0, b) else (do
      w ← set_sub_data garbage b.world h d.pos source size
      some (size, record b { world = w }))
  ]

  -- `Class_Buffer`
  abbrev pub buffer_class : StreamClass Buffer
  buffer_class = record { seek = seek_buffer; read = read_buffer; write = write_buffer }

  -- `consume_Buffer`: what was read, its count, and the buffer without it.
  unfoldable pub consume :
      Buffer → Stream → (size : ℕ) → (ℕ → ℕ) → Option (ℕ × (ℕ → ℕ) × Buffer × Stream)
  consume b d size out = do
    check (not b.read_only)
    start ← seek_stream buffer_class b d 0
    r ← read_data buffer_class b start size out
    h ← b.data_block
    w ← remove garbage b.world h 0 (r.0)
    n ← Edit.size w h
    some (
      r.0,
      r.1,
      record b { world = w },
      record (set_size (r.2) n) { pos = (d.pos + 2 ^ 64 - r.0) % 2 ^ 64 },
    )
