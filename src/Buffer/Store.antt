-- ===== src/Buffer/Store.antt =====
-- An open buffer that is not read-only is a store of bytes: it keeps the laws of its class of streams.
use the_foundation.Base.{
  ℕ, ◌+◌, ◌-◌, ◌%◌, ◌^◌, ◌<◌, ◌≤◌, false, some, ◌==◌, ltb, min, max, if◌then◌else◌, ◌≡◌, refl,
  arith, Bool-cases, inl, inr, le→leb,
}
use the_foundation.Block.Sharing.{IsWorld, Reads}
use the_foundation.Block.Resizing.{set_sub_data-Changed}
use the_foundation.Stream.{Stream, IsStore, overwritten}
use the_foundation.Buffer.{Buffer, seek_buffer, read_buffer, write_buffer, buffer_class}

-- The buffer is open for writing and its data are `n` bytes `f`.
pub record IsBuffer (b : Buffer) (n : ℕ) (f : ℕ → ℕ) : Type 0 where
  pub handle : ℕ
  pub opened : b.data_block ≡ some handle
  pub writable : b.read_only ≡ false
  pub valid : IsWorld b.world
  pub contents : Reads b.world handle n f

pub seek_buffer-min :
    {b : Buffer} {n : ℕ} {f : ℕ → ℕ} (d : Stream) (p : ℕ)
    → IsBuffer b n f
    → seek_buffer b d p ≡ some (min p n)
unfolding seek_buffer
seek_buffer-min d p v = rw (v.opened, v.contents.on, v.contents.found, v.contents.size_eq) refl

pub read_buffer-bytes :
    {b : Buffer} {n : ℕ} {f : ℕ → ℕ} (d : Stream) (m : ℕ) (out : ℕ → ℕ)
    → IsBuffer b n f
    → d.size ≡ n
    → d.pos ≤ n
    → d.pos + m < 2 ^ 62
    → (out' : ℕ → ℕ) × (read_buffer b d m out ≡ some (min m (n - d.pos), out'))
      × ((p : ℕ) → p < min m (n - d.pos) → out' p ≡ f (d.pos + p))
unfolding read_buffer
read_buffer-bytes {b} {n} {f} d m out v size inside small = elim (Bool-cases (d.pos == d.size)) [
  | inl at_end ↦
      (out, rw (v.opened, at_end, none_left (ground arith)) refl, λ p h. absurd (ground arith))
  | inr before ↦ (
    λ p. if ltb p count then v.contents.contents.bytes (d.pos + p) else out p,
    rw
        (
          v.opened,
          before,
          v.contents.on,
          v.contents.found,
          v.contents.size_eq,
          le→leb d.pos end (omega arith),
          end-eq,
        )
        refl,
    λ p h. ground (arith, v.contents.bytes_eq (d.pos + p)),
  )
]
  where
    count : ℕ
    count = min m (n - d.pos)

    end : ℕ
    end = min ((d.pos + m) % 2 ^ 64) n

    end-eq : end - d.pos ≡ count
    end-eq = omega arith

    none_left : d.pos ≡ n → count ≡ 0
    none_left e = omega arith

pub write_buffer-overwritten :
    (garbage : ℕ → ℕ) {b : Buffer} {n : ℕ} {f : ℕ → ℕ} (d : Stream) (source : ℕ → ℕ) (m : ℕ)
    → IsBuffer b n f
    → d.size ≡ n
    → d.pos ≤ n
    → d.pos + m < 2 ^ 62
    → (b' : Buffer) × (write_buffer garbage b d source m ≡ some (m, b'))
      × IsBuffer b' (max n (d.pos + m)) (overwritten f d.pos source m)
unfolding write_buffer
write_buffer-overwritten garbage {b} {n} {f} d source m v size inside small =
    let (w, e, c) = set_sub_data-Changed garbage v.valid v.contents d.pos source m inside small in
    (
      record b { world = w },
      rw (v.opened, v.writable, e) refl,
      record {
        handle = v.handle;
        opened = v.opened;
        writable = v.writable;
        valid = c.valid;
        contents = c.reads;
      },
    )

-- What a buffer promises as a stream, below 2 ^ 62 bytes.
abbrev pub buffer_laws : (garbage : ℕ → ℕ) → IsStore (buffer_class garbage) (2 ^ 62)
buffer_laws garbage = record {
  Holds = IsBuffer;
  seek_law = seek_buffer-min;
  read_law = read_buffer-bytes;
  write_law = write_buffer-overwritten garbage;
}
