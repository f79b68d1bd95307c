-- ===== src/Md5.antt =====
-- `iMd5Hash` of src/md5.c: a context that takes its input in pieces, and blocks of 64 bytes that are
-- added to its state. A 32-bit word is a number below 2 ^ 32, the buffer a list of bytes; `none` is a
-- copy that leaves the buffer.
pub mod Transform
pub mod Digest
pub mod Blocks
pub mod Streaming
pub mod Laws
mod Tests
use the_foundation.Base.{
  ℕ, zero, suc, ◌+◌, ◌-◌, ◌*◌, ◌/◌, ◌%◌, ◌^◌, Option, none, some, List, [], ◌∷◌, ◌++◌, length, take,
  drop, replicate, ltb, leb, if◌then◌else◌, check, ◌>>=◌, ◌>>◌,
}
use the_foundation.Md5.Transform.{State, encode, transform}

-- `iMd5Context`, with the two words of `count`.
pub record Context : Type 0 where
  pub state : State
  pub low : ℕ
  pub high : ℕ
  pub buffer : List ℕ

-- `padding_`
abbrev pub padding : List ℕ
padding = 0x80 ∷ replicate 63 0

-- The copies into the buffer: `memcpy(d->buffer + index, bytes, ...)`.
pub copy_at : List ℕ → (index : ℕ) → List ℕ → Option (List ℕ)
copy_at buffer index bytes = do
  check (leb (index + length bytes) (length buffer))
  some (take index buffer ++ bytes ++ drop (index + length bytes) buffer)

-- The loop over whole blocks of the input, on fuel, and the input that it leaves.
pub transform_blocks : ℕ → State → List ℕ → Option (State × List ℕ)
transform_blocks zero state input = none
transform_blocks (suc fuel) state input =
    let rest = transform_blocks fuel (transform state (take 64 input)) (drop 64 input) in
    if leb 64 (length input) then rest else some (state, input)

-- The bytes in the buffer: `(count[0] >> 3) & 0x3f`.
abbrev pub buffered : Context → ℕ
buffered d = d.low / 2 ^ 3 % 64

-- The count of bits after `n` more bytes, with the carry into the high word.
abbrev pub count_low : Context → ℕ → ℕ
count_low d n = (d.low + n % 2 ^ 32 * 2 ^ 3 % 2 ^ 32) % 2 ^ 32

abbrev pub count_high : Context → ℕ → ℕ
count_high d n =
    ((if ltb (count_low d n) (n % 2 ^ 32 * 2 ^ 3 % 2 ^ 32) then (d.high + 1) % 2 ^ 32 else d.high)
      + n % 2 ^ 32 / 2 ^ 29)
    % 2 ^ 32

pub update : Context → List ℕ → Option Context
unfolding copy_at transform_blocks
update d input =
    let n = length input in
    let part_len = 64 - buffered d in
    if leb part_len n
    then (do
      full ← copy_at d.buffer (buffered d) (take part_len input)
      (state, rest) ← transform_blocks (n / 64 + 1) (transform d.state full) (drop part_len input)
      buffer ← copy_at full 0 rest
      some (record { state = state; low = count_low d n; high = count_high d n; buffer = buffer }))
    else (do
      buffer ← copy_at d.buffer (buffered d) input
      some
          (record { state = d.state; low = count_low d n; high = count_high d n; buffer = buffer }))

abbrev pub initial : State
initial = record { a = 0x6745_2301; b = 0xefcd_ab89; c = 0x98ba_dcfe; d = 0x1032_5476 }

abbrev pub start : Context
start = record { state = initial; low = 0; high = 0; buffer = replicate 64 0 }

abbrev pub pad_len : ℕ → ℕ
pad_len index = if ltb index 56 then 56 - index else 120 - index

-- `iMd5Hash`
pub md5_hash : List ℕ → Option (List ℕ)
unfolding update
md5_hash message = do
  d ← update start message
  padded ← update d (take (pad_len (buffered d)) padding)
  done ← update padded (encode (d.low ∷ d.high ∷ []))
  some (encode (done.state.a ∷ done.state.b ∷ done.state.c ∷ done.state.d ∷ []))
