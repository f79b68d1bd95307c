-- ===== src/Stream/Words.antt =====
-- Integers written to a stream are read back, whatever the class of streams and the byte order.
use the_foundation.Base.{
  ℕ, zero, suc, ◌+◌, ◌-◌, ◌/◌, ◌^◌, ◌<◌, ◌≤◌, Option, some, min, max, leb, ltb, ◌&&◌, Bool-cases,
  inl, inr, ◌≡◌, refl, ap, ◌∙◌, arith,
}
use mathlib.Core.Path.{fun_ext}
use native.Mathlib.Nat.{pow-suc}
use the_foundation.Stream.{
  Stream, StreamClass, IsStore, overwritten, advance, byte_of, word_at, seek_stream, read_data,
  write_data, write_word, read_word, order16, order32, order64, write16, write32, write64, read16,
  read32, read64, is_big_endian,
}
use the_foundation.Stream.Bytes.{ordered, order64-ordered}
use the_foundation.Stream.Orders.{order16-order16, order32-order32, order64-order64}

word_at-byte_of : (k v : ℕ) → v < 256 ^ k → word_at k (byte_of v) ≡ v
unfolding word_at byte_of
word_at-byte_of zero v h = omega arith
word_at-byte_of (suc k) v h =
    omega (arith, word_at-byte_of k (v / 2 ^ 8) (omega (arith, pow-suc 256 k)))

word_at-same : (k : ℕ) (f g : ℕ → ℕ) → ((p : ℕ) → p < k → f p ≡ g p) → word_at k f ≡ word_at k g
unfolding word_at
word_at-same zero f g h = refl
word_at-same (suc k) f g h = omega (
  arith,
  h 0 (omega arith),
  word_at-same k (λ p. f (suc p)) (λ p. g (suc p)) (λ p q. h (suc p) (omega arith)),
)

-- Bytes that agree where they are written make the same sequence.
overwritten-same :
    (f : ℕ → ℕ) (p m : ℕ) (g g' : ℕ → ℕ)
    → ((q : ℕ) → q < m → g q ≡ g' q)
    → overwritten f p g m ≡ overwritten f p g' m
overwritten-same f p m g g' same = fun_ext at
  where
    at : (q : ℕ) → overwritten f p g m q ≡ overwritten f p g' m q
    at q = elim (Bool-cases (leb p q && ltb q (p + m))) [
      | inl h ↦ rw h (same (q - p) (ground (arith, h)))
      | inr h ↦ rw h refl
    ]

-- After `write` of the value `v` at the position of `d`, a `read` from there gives `v` and ends where
-- the write ended.
pub ReadsBack :
    {S : Type 0} (class : StreamClass S)
    → S
    → Stream
    → (write : S → Stream → ℕ → Option (S × Stream)) → (read : S → Stream → Option (ℕ × Stream)) → ℕ
    → Type 0
ReadsBack {S} class s d write read v =
    (s' : S) × (d' : Stream) × (d'' : Stream) × (e : Stream) × (write s d v ≡ some (s', d'))
    × (seek_stream class s' d' d.pos ≡ some d'')
    × (read s' d'' ≡ some (v, e))
    × (e.pos ≡ d'.pos)

module _ {S : Type 0} (class : StreamClass S) {limit : ℕ} (laws : IsStore class limit) where
  -- The stream at the place that was written.
  back_at : Stream → ℕ → Stream
  back_at d k = record (advance d k) { pos = d.pos }

  -- Bytes that were written are read back.
  read_word-write_word :
      {s : S} {n : ℕ} {f : ℕ → ℕ} (d : Stream) (v k : ℕ)
      → laws.Holds s n f
      → d.size ≡ n
      → d.pos ≤ n
      → d.pos + k < limit
      → v < 256 ^ k
      → (s' : S) × (write_word class s d v k ≡ some (s', advance d k))
        × laws.Holds s' (max n (d.pos + k)) (overwritten f d.pos (byte_of v) k)
        × (seek_stream class s' (advance d k) d.pos ≡ some (back_at d k))
        × (read_word class s' (back_at d k) k ≡ some (v, advance (back_at d k) k))
  unfolding write_word read_word write_data read_data seek_stream back_at
  read_word-write_word {s} {n} {f} d v k holds size inside fits small =
      let (s', written, holds') = laws.write_law d (byte_of v) k holds size inside fits in
      back s' written holds'
        (laws.read_law (back_at d k) k (λ p. 0) holds' (omega (arith, size)) (omega arith) fits)
    where
      back :
          (s' : S)
          → class.write s d (byte_of v) k ≡ some (k, s')
          → laws.Holds s' (max n (d.pos + k)) (overwritten f d.pos (byte_of v) k)
          → (out' : ℕ → ℕ) × (class.read s' (back_at d k) k (λ p. 0)
              ≡ some (min k (max n (d.pos + k) - d.pos), out'))
            × ((p : ℕ)
                → p < min k (max n (d.pos + k) - d.pos)
                → out' p ≡ overwritten f d.pos (byte_of v) k (d.pos + p))
          → (s' : S) × (write_word class s d v k ≡ some (s', advance d k))
            × laws.Holds s' (max n (d.pos + k)) (overwritten f d.pos (byte_of v) k)
            × (seek_stream class s' (advance d k) d.pos ≡ some (back_at d k))
            × (read_word class s' (back_at d k) k ≡ some (v, advance (back_at d k) k))
      back s' written holds' (out', run, same) = (
        s',
        rw written refl,
        holds',
        rw (laws.seek_law (advance d k) d.pos holds', start) refl,
        rw (run, count, value) refl,
      )
        where
          start : min d.pos (max n (d.pos + k)) ≡ d.pos
          start = omega arith

          count : min k (max n (d.pos + k) - d.pos) ≡ k
          count = omega arith

          place : (p : ℕ) → p < k → d.pos + p - d.pos ≡ p
          place p h = omega arith

          value : word_at k out' ≡ v
          value =
              word_at-same k out' (byte_of v)
                (λ p h. same p (omega arith) ∙ ground (arith, ap (byte_of v) (place p h)))
              ∙ word_at-byte_of k v small

  module _ {s : S} {n : ℕ} {f : ℕ → ℕ} (d : Stream) (v : ℕ) (holds : laws.Holds s n f)
      (size : d.size ≡ n) (inside : d.pos ≤ n) where
    -- In a class of streams that keeps the laws of a store, an integer of 16 digits that is written at
    -- a position inside of the stream or at its end, below the limit, is read back from there,
    -- whatever the byte order, and reading ends where writing ended.
    pub read16-write16 :
        d.pos + 2 < limit → v < 2 ^ 16 → ReadsBack class s d (write16 class) (read16 class) v
    unfolding ReadsBack write16 read16 back_at is_big_endian
    read16-write16 fits small =
        let (low, twice) = order16-order16 d (back_at d 2) v refl small in
        let (s', e, holds', e', e'') =
          read_word-write_word d (order16 d v) 2 holds size inside fits low in
        (s', advance d 2, back_at d 2, advance (back_at d 2) 2, e, e', rw (e'', twice) refl, refl)

    -- In a class of streams that keeps the laws of a store, an integer of 32 digits that is written at
    -- a position inside of the stream or at its end, below the limit, is read back from there,
    -- whatever the byte order, and reading ends where writing ended.
    pub read32-write32 :
        d.pos + 4 < limit → v < 2 ^ 32 → ReadsBack class s d (write32 class) (read32 class) v
    unfolding ReadsBack write32 read32 back_at is_big_endian
    read32-write32 fits small =
        let (low, twice) = order32-order32 d (back_at d 4) v refl small in
        let (s', e, holds', e', e'') =
          read_word-write_word d (order32 d v) 4 holds size inside fits low in
        (s', advance d 4, back_at d 4, advance (back_at d 4) 4, e, e', rw (e'', twice) refl, refl)

    -- In a class of streams that keeps the laws of a store, an integer of 64 digits is written at a
    -- position inside of the stream or at its end, below the limit: the stream then has its eight
    -- bytes there, the most significant one first where the order is big-endian and last where it
    -- is not, and all others as before. The integer is read back from there, and reading ends where
    -- writing ended.
    pub read64-write64 :
        d.pos + 8 < limit
        → v < 2 ^ 64
        → ((s' : S) × (write64 class s d v ≡ some (s', advance d 8))
            × laws.Holds s'
                (max n (d.pos + 8))
                (overwritten f d.pos (ordered (is_big_endian d) 8 v) 8))
          × ReadsBack class s d (write64 class) (read64 class) v
    unfolding ReadsBack write64 read64 back_at is_big_endian
    read64-write64 fits small =
        let (low, twice) = order64-order64 d (back_at d 8) v refl small in
        let (s', e, holds', e', e'') =
          read_word-write_word d (order64 d v) 8 holds size inside fits low in
        let same =
          overwritten-same f d.pos 8 (byte_of (order64 d v)) (ordered (is_big_endian d) 8 v)
            (λ p h. order64-ordered d v p small h) in
        (
          (s', e, rw (← same) holds'),
          (
            s',
            advance d 8,
            back_at d 8,
            advance (back_at d 8) 8,
            e,
            e',
            rw (e'', twice) refl,
            refl,
          ),
        )
