-- ===== src/Stream.antt =====
-- The streams of src/stream.c and include/the_Foundation/stream.h: a position in a sequence of bytes,
-- and integers that are written in a byte order. The operations of a class of streams are a record
-- that the others take. Data in memory are functions of the position; the machine is little-endian,
-- as where iBigEndian is not defined. The mutex of a stream is not modelled: each operation is one
-- step.
pub mod Orders
pub mod Bytes
pub mod Words
mod Tests
use Prim.Native.Nat.{bit_and, bit_or}
use the_foundation.Base.{
  ℕ, zero, suc, ◌+◌, ◌-◌, ◌*◌, ◌/◌, ◌%◌, ◌^◌, Bool, Option, none, some, ◌==◌, ◌&&◌, ltb, leb, ◌≡◌,
  ◌≤◌, ◌<◌, min, max, if◌then◌else◌, ◌>>=◌,
}

pub record Stream : Type 0 where
  pub size : ℕ
  pub pos : ℕ
  pub flags : ℕ

-- `iStreamClass` for streams that have a state `S` besides. `read` gives the count of the bytes read
-- and the memory they are read to, `write` the count of the bytes written.
pub record StreamClass (S : Type 0) : Type 1 where
  pub seek : S → Stream → ℕ → Option ℕ
  pub read : S → Stream → (size : ℕ) → (ℕ → ℕ) → Option (ℕ × (ℕ → ℕ))
  pub write : S → Stream → (ℕ → ℕ) → (size : ℕ) → Option (ℕ × S)

-- `swap16_`, `swap32_` and `swap64_`
unfoldable pub swap16 : ℕ → ℕ
swap16 v = bit_or (v / 2 ^ 8) (bit_and v 0xff * 2 ^ 8) % 2 ^ 16

unfoldable pub swap32 : ℕ → ℕ
swap32 v =
    bit_or
      (bit_or (bit_or (v / 2 ^ 24) (bit_and v 0xff_0000 / 2 ^ 8))
        (bit_and v 0xff00 * 2 ^ 8 % 2 ^ 32))
      (bit_and v 0xff * 2 ^ 24 % 2 ^ 32)

unfoldable pub swap64 : ℕ → ℕ
swap64 v = bit_or (swap32 (v / 2 ^ 32 % 2 ^ 32)) (swap32 (bit_and v 0xffff_ffff) * 2 ^ 32 % 2 ^ 64)

-- `init_Stream`, with the little-endian order.
abbrev pub init_stream : Stream
init_stream = record { size = 0; pos = 0; flags = 0 }

-- `byteOrder_Stream`: whether the order is big-endian.
unfoldable pub is_big_endian : Stream → Bool
is_big_endian d = bit_and d.flags 1 == 1

-- `setByteOrder_Stream`
unfoldable pub set_byte_order : Stream → Bool → Stream
set_byte_order d big = record d {
  flags = if big then bit_or d.flags 1 else bit_and d.flags (2 ^ 32 - 2);
}

-- `ord_Stream(d).order16`, `order32` and `order64`
unfoldable pub order16 : Stream → ℕ → ℕ
order16 d v = if is_big_endian d then swap16 v else v

unfoldable pub order32 : Stream → ℕ → ℕ
order32 d v = if is_big_endian d then swap32 v else v

unfoldable pub order64 : Stream → ℕ → ℕ
order64 d v = if is_big_endian d then swap64 v else v

-- `setSize_Stream`
abbrev pub set_size : Stream → ℕ → Stream
set_size d size = record d { size = size; pos = min d.pos size }

-- The bytes of a word in memory, and the word that some bytes are.
unfoldable pub byte_of : ℕ → ℕ → ℕ
byte_of v zero = v % 2 ^ 8
byte_of v (suc p) = byte_of (v / 2 ^ 8) p

unfoldable pub word_at : (size : ℕ) → (ℕ → ℕ) → ℕ
word_at zero bytes = 0
word_at (suc n) bytes = bytes 0 + 2 ^ 8 * word_at n (λ p. bytes (suc p))

-- The position and the size after `count` bytes were read or written.
abbrev pub advance : Stream → ℕ → Stream
advance d count = record d { size = max d.size (d.pos + count); pos = d.pos + count }

module _ {S : Type 0} (class : StreamClass S) where
  unfoldable pub seek_stream : S → Stream → ℕ → Option Stream
  seek_stream s d offset = do p ← class.seek s d offset; some (record d { pos = p })

  -- `readData_Stream`
  unfoldable pub read_data : S → Stream → (size : ℕ) → (ℕ → ℕ) → Option (ℕ × (ℕ → ℕ) × Stream)
  read_data s d size out = do r ← class.read s d size out; some (r.0, r.1, advance d (r.0))

  -- `writeData_Stream`
  unfoldable pub write_data : S → Stream → (ℕ → ℕ) → (size : ℕ) → Option (ℕ × S × Stream)
  write_data s d source size = do r ← class.write s d source size; some (r.0, r.1, advance d (r.0))

  -- The words written and read: values of an unsigned type of their width.
  unfoldable pub write_word : S → Stream → (v size : ℕ) → Option (S × Stream)
  write_word s d v size = do r ← write_data s d (byte_of v) size; some (r.1, r.2)

  unfoldable pub read_word : S → Stream → (size : ℕ) → Option (ℕ × Stream)
  read_word s d size = do r ← read_data s d size (λ p. 0); some (word_at size (r.1), r.2)

  unfoldable pub write16 : S → Stream → ℕ → Option (S × Stream)
  write16 s d v = write_word s d (order16 d v) 2

  unfoldable pub write32 : S → Stream → ℕ → Option (S × Stream)
  write32 s d v = write_word s d (order32 d v) 4

  unfoldable pub write64 : S → Stream → ℕ → Option (S × Stream)
  write64 s d v = write_word s d (order64 d v) 8

  unfoldable pub read16 : S → Stream → Option (ℕ × Stream)
  read16 s d = do r ← read_word s d 2; some (order16 d (r.0), r.1)

  unfoldable pub read32 : S → Stream → Option (ℕ × Stream)
  read32 s d = do r ← read_word s d 4; some (order32 d (r.0), r.1)

  unfoldable pub read64 : S → Stream → Option (ℕ × Stream)
  read64 s d = do r ← read_word s d 8; some (order64 d (r.0), r.1)

-- The bytes `f` with `m` bytes at the position `p` replaced.
abbrev pub overwritten : (ℕ → ℕ) → (p : ℕ) → (ℕ → ℕ) → (m : ℕ) → ℕ → ℕ
overwritten f p source m q = if leb p q && ltb q (p + m) then source (q - p) else f q

-- What a class of streams promises of its states, where `Holds s n f` says that `s` is a sequence of
-- `n` bytes `f`: reads stop at the end, and writes below `limit` replace bytes and add others.
pub record IsStore {S : Type 0} (class : StreamClass S) (limit : ℕ) : Type 1 where
  pub Holds : S → ℕ → (ℕ → ℕ) → Type 0
  pub seek_law :
      {s : S} {n : ℕ} {f : ℕ → ℕ} (d : Stream) (p : ℕ)
      → Holds s n f
      → class.seek s d p ≡ some (min p n)
  pub read_law :
      {s : S} {n : ℕ} {f : ℕ → ℕ} (d : Stream) (m : ℕ) (out : ℕ → ℕ)
      → Holds s n f
      → d.size ≡ n
      → d.pos ≤ n
      → d.pos + m < limit
      → (out' : ℕ → ℕ) × (class.read s d m out ≡ some (min m (n - d.pos), out'))
        × ((p : ℕ) → p < min m (n - d.pos) → out' p ≡ f (d.pos + p))
  pub write_law :
      {s : S} {n : ℕ} {f : ℕ → ℕ} (d : Stream) (source : ℕ → ℕ) (m : ℕ)
      → Holds s n f
      → d.size ≡ n
      → d.pos ≤ n
      → d.pos + m < limit
      → (s' : S) × (class.write s d source m ≡ some (m, s'))
        × Holds s' (max n (d.pos + m)) (overwritten f d.pos source m)
