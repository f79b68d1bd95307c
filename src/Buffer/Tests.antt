-- ===== src/Buffer/Tests.antt =====
-- A buffer on a block of four bytes, and the theorems at it.
use the_foundation.Base.{
  ℕ, ◌+◌, ◌<◌, false, Bool-cases, inl, inr, none, some, [], ◌∷◌, ◌==◌, if◌then◌else◌, ◌≡◌, refl,
  arith,
}
use the_foundation.Block.{World, BlockData}
use the_foundation.Block.Sharing.{count, IsWorld, Reads}
use the_foundation.Stream.{Stream, write64, read64, advance, overwritten, is_big_endian}
use the_foundation.Stream.Bytes.{ordered}
use the_foundation.Stream.Words.{ReadsBack, read64-write64}
use the_foundation.Buffer.{Buffer, consume, buffer_class}
use the_foundation.Buffer.Store.{IsBuffer, buffer_laws}
use the_foundation.Buffer.Consuming.{Consumed, consume-Consumed}

abbrev nothing : ℕ → ℕ
nothing p = 0

abbrev no_bytes : BlockData
no_bytes = record { ref_count = 2; bytes = λ p. 0; size = 0; alloc_size = 1 }

abbrev four_bytes : BlockData
four_bytes = record { ref_count = 1; bytes = λ p. p + 5; size = 4; alloc_size = 8 }

abbrev two : World
two = record {
  datas = λ i. if i == 0 then some no_bytes else if i == 1 then some four_bytes else none;
  next = 2;
  blocks = some 0 ∷ some 1 ∷ [];
}

two-IsWorld : IsWorld two
unfolding count
two-IsWorld = record {
  counted = λ i d e. ground arith;
  live = λ i h. live i h;
  empty = λ d e. ground arith;
  fresh = λ i h. ground arith;
  rooted = (no_bytes, refl);
}
  where
    live :
        (i : ℕ)
        → 0 < count i two.blocks + (if i == 0 then 1 else 0)
        → (d : BlockData) × (two.datas i ≡ some d)
    live i h = elim (Bool-cases (i == 0)) [
      | inl at ↦ (no_bytes, rw at refl)
      | inr other ↦ elim (Bool-cases (i == 1)) [
        | inl one ↦ (four_bytes, rw (other, one) refl)
        | inr more ↦ ground arith
      ]
    ]

own-Reads : Reads two 0 0 nothing
own-Reads = record {
  id = 0;
  contents = no_bytes;
  on = refl;
  found = refl;
  size_eq = refl;
  bytes_eq = λ p h. refl;
}

four-Reads : Reads two 1 4 (λ p. p + 5)
four-Reads = record {
  id = 1;
  contents = four_bytes;
  on = refl;
  found = refl;
  size_eq = refl;
  bytes_eq = λ p h. refl;
}

abbrev closed_buffer : Buffer
closed_buffer = record { world = two; block = 0; data_block = none; read_only = false }

abbrev open_buffer : Buffer
open_buffer = record { world = two; block = 0; data_block = some 1; read_only = false }

open_buffer-IsBuffer : IsBuffer open_buffer 4 (λ p. p + 5)
open_buffer-IsBuffer = record {
  handle = 1;
  opened = refl;
  writable = refl;
  valid = two-IsWorld;
  contents = four-Reads;
}

-- A stream at the end of four bytes, with the big-endian order.
abbrev at_end : Stream
at_end = record { size = 4; pos = 4; flags = 1 }

read64-write64_example :
    ((b : Buffer) × (write64 (buffer_class nothing) open_buffer at_end 0x0102_0304_0506_0708
        ≡ some (b, advance at_end 8))
      × (buffer_laws nothing).Holds b 12
          (overwritten (λ p. p + 5) 4 (ordered (is_big_endian at_end) 8 0x0102_0304_0506_0708) 8))
    × ReadsBack
        (buffer_class nothing)
        open_buffer
        at_end
        (write64 (buffer_class nothing))
        (read64 (buffer_class nothing))
        0x0102_0304_0506_0708
read64-write64_example =
    read64-write64 (buffer_class nothing) (buffer_laws nothing) at_end 0x0102_0304_0506_0708
      open_buffer-IsBuffer refl (omega arith) (omega arith) (omega arith)

consume-Consumed_example :
    (out' : ℕ → ℕ) × (b' : Buffer) × (d' : Stream) × (consume nothing open_buffer at_end 3 nothing
      ≡ some (3, out', b', d'))
    × Consumed open_buffer at_end 4 (λ p. p + 5) 3 out' b' d'
consume-Consumed_example =
    consume-Consumed nothing at_end 3 nothing open_buffer-IsBuffer refl (omega arith) (omega arith)
      (omega arith) (omega arith)
