-- ===== src/Buffer/Consuming.antt =====
-- A buffer as a queue of bytes: what is consumed was in front.
use the_foundation.Base.{ℕ, ◌+◌, ◌-◌, ◌%◌, ◌^◌, ◌<◌, ◌≤◌, some, min, ◌≡◌, refl, ap, ◌∙◌, arith}
use the_foundation.Block.{World}
use the_foundation.Block.Changes.{Edited}
use the_foundation.Block.Laws.{remove-Edited, without}
use the_foundation.Block.Edit.{remove}
use the_foundation.Stream.{Stream, advance, seek_stream, read_data}
use the_foundation.Buffer.{Buffer, consume, read_buffer}
use the_foundation.Buffer.Store.{IsBuffer, seek_buffer-min, read_buffer-bytes}

-- What was read of `n` bytes `f`, and what remains.
pub record Consumed (b : Buffer) (d : Stream) (n : ℕ) (f : ℕ → ℕ) (k : ℕ) (out : ℕ → ℕ)
    (b' : Buffer) (d' : Stream) : Type 0 where
  pub front : (p : ℕ) → p < k → out p ≡ f p
  pub rest : IsBuffer b' (n - k) (λ p. f (p + k))
  pub size_eq : d'.size ≡ n - k
  pub pos_eq : d'.pos + k ≡ d.pos

-- In a well-formed world, from an open buffer that is not read-only and whose position is not below
-- the count of the bytes consumed, the bytes in front are consumed without a fault, as many as are
-- asked for, fewer than 2 ^ 62, or all that there are. The others remain, and the position stays at
-- the byte where it was.
pub consume-Consumed :
    (garbage : ℕ → ℕ) {b : Buffer} {n : ℕ} {f : ℕ → ℕ} (d : Stream) (m : ℕ) (out : ℕ → ℕ)
    → IsBuffer b n f
    → d.size ≡ n
    → d.pos ≤ n
    → n < 2 ^ 62
    → m < 2 ^ 62
    → min m n ≤ d.pos
    → (out' : ℕ → ℕ) × (b' : Buffer) × (d' : Stream) × (consume garbage b d m out
        ≡ some (min m n, out', b', d'))
      × Consumed b d n f (min m n) out' b' d'
unfolding consume seek_stream read_data
consume-Consumed garbage {b} {n} {f} d m out v size inside bounded small behind =
    taken (read_buffer-bytes (record d { pos = 0 }) m out v size (omega arith) (omega arith))
      (remove-Edited garbage v.valid v.contents 0 k (omega arith) (omega arith))
  where
    k : ℕ
    k = min m n

    taken :
        (out' : ℕ → ℕ) × (read_buffer b (record d { pos = 0 }) m out ≡ some (min m (n - 0), out'))
          × ((p : ℕ) → p < min m (n - 0) → out' p ≡ f (0 + p))
        → (w' : World) × (remove garbage b.world v.handle 0 k ≡ some w')
          × Edited b.world v.handle w' (n - min k (n - 0)) (without f 0 (min k (n - 0)))
        → (out' : ℕ → ℕ) × (b' : Buffer) × (d' : Stream) × (consume garbage b d m out
            ≡ some (k, out', b', d'))
          × Consumed b d n f k out' b' d'
    taken (out', run, same) (w', removed, e) = (
      out',
      record b { world = w' },
      record (advance (record d { pos = 0 }) k) { size = n - k; pos = d.pos - k },
      simp
          (
            v.writable,
            seek_buffer-min d 0 v,
            start,
            run,
            count,
            v.opened,
            removed,
            e.reads.on,
            e.reads.found,
            e.reads.size_eq,
            left,
            position,
          )
          refl,
      record {
        front = λ p h. same p (omega arith) ∙ ap f (omega arith);
        rest = record {
          handle = v.handle;
          opened = v.opened;
          writable = v.writable;
          valid = e.valid;
          contents = record {
            id = e.reads.id;
            contents = e.reads.contents;
            on = e.reads.on;
            found = e.reads.found;
            size_eq = e.reads.size_eq ∙ left;
            bytes_eq = λ p h. e.reads.bytes_eq p (omega arith) ∙ moved p;
          };
        };
        size_eq = refl;
        pos_eq = omega arith;
      },
    )
      where
        start : min 0 n ≡ 0
        start = omega arith

        count : min m (n - 0) ≡ k
        count = omega arith

        left : n - min k (n - 0) ≡ n - k
        left = omega arith

        position : (d.pos + 2 ^ 64 - k) % 2 ^ 64 ≡ d.pos - k
        position = omega (arith, size)

        moved : (p : ℕ) → without f 0 (min k (n - 0)) p ≡ f (p + k)
        moved p = let e' : p + min k (n - 0) ≡ p + k = omega arith in ground (arith, ap f e')
