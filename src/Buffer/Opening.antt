-- ===== src/Buffer/Opening.antt =====
-- What opening a buffer leads to.
use the_foundation.Base.{ℕ, ◌≤◌, ◌≢◌, true, false, none, some, ◌≡◌, refl, arith}
use the_foundation.Block.Sharing.{IsWorld, Reads, Keeps}
use the_foundation.Block.Copies.{set_block-Changed, clear-Changed}
use the_foundation.Stream.{Stream, set_size}
use the_foundation.Buffer.{Buffer, open_empty, open_block, write_buffer}
use the_foundation.Buffer.Store.{IsBuffer}

-- A closed buffer is opened empty: it is then a store of no bytes, with the position at its start, and
-- other blocks keep their bytes.
pub open_empty-IsBuffer :
    (b : Buffer) {n : ℕ} {g : ℕ → ℕ} (d : Stream) (f : ℕ → ℕ)
    → b.data_block ≡ none
    → IsWorld b.world
    → Reads b.world b.block n g
    → (b' : Buffer) × (d' : Stream) × (open_empty b d ≡ some (true, b', d'))
      × IsBuffer b' 0 f
      × (d'.size ≡ 0)
      × (d'.pos ≡ 0)
      × Keeps b.world b'.world b.block
unfolding open_empty
open_empty-IsBuffer b d f closed valid own =
    let (w, e, c) = clear-Changed valid own f in
    (
      record { world = w; block = b.block; data_block = some b.block; read_only = false },
      set_size d 0,
      rw (closed, e) refl,
      record {
        handle = b.block;
        opened = refl;
        writable = refl;
        valid = c.valid;
        contents = c.reads;
      },
      refl,
      omega arith,
      c.keeps,
    )

-- Reading some bytes that no write changes.
pub record IsFrozen (garbage : ℕ → ℕ) (b : Buffer) (n : ℕ) (f : ℕ → ℕ) : Type 0 where
  pub handle : ℕ
  pub opened : b.data_block ≡ some handle
  pub valid : IsWorld b.world
  pub contents : Reads b.world handle n f
  pub refuses :
      (d : Stream) (source : ℕ → ℕ) (m : ℕ) → write_buffer garbage b d source m ≡ some (0, b)

-- In a well-formed world a closed buffer is opened without a fault on a block other than its own: it
-- then holds a copy of its bytes on which no write has an effect, the size of the stream is theirs,
-- and blocks other than its own keep their bytes.
pub open_block-IsFrozen :
    (garbage : ℕ → ℕ) (b : Buffer) {h n m : ℕ} {f g : ℕ → ℕ} (d : Stream)
    → b.data_block ≡ none
    → IsWorld b.world
    → Reads b.world b.block m g
    → Reads b.world h n f
    → h ≢ b.block
    → (b' : Buffer) × (d' : Stream) × (open_block b d h ≡ some (true, b', d'))
      × IsFrozen garbage b' n f
      × (d'.size ≡ n)
      × (d'.pos ≤ n)
      × Keeps b.world b'.world b.block
unfolding open_block write_buffer
open_block-IsFrozen garbage b {h} {n} {m} {f} {g} d closed valid own given other =
    let (w, e, c) = set_block-Changed valid own given in
    let kept = c.keeps h n f other given in
    (
      record { world = w; block = b.block; data_block = some b.block; read_only = true },
      set_size d n,
      rw (closed, e, kept.on, kept.found, kept.size_eq) refl,
      record {
        handle = b.block;
        opened = refl;
        valid = c.valid;
        contents = c.reads;
        refuses = λ d source m. refl;
      },
      refl,
      omega arith,
      c.keeps,
    )
