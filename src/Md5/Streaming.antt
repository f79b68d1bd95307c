-- ===== src/Md5/Streaming.antt =====
-- What a context holds of the input so far, piece by piece.
use the_foundation.Base.{
  ℕ, ◌+◌, ◌-◌, ◌*◌, ◌/◌, ◌%◌, ◌^◌, ◌≤◌, ◌<◌, ◌≡◌, refl, ap, ◌∙◌, sym, arith, some, inl, inr, List,
  false, ◌++◌, length, length-append, length-take, length-drop, take, drop, take-append_le,
  take-append_ge, drop-append_ge, take-all, leb, Bool-cases, le→leb, leb→le,
}
use the_foundation.Md5.{
  Context, copy_at, transform_blocks, buffered, count_low, count_high, update, initial,
}
use the_foundation.Md5.Transform.{State, transform}
use the_foundation.Md5.Digest.{absorb, absorb_all}
use the_foundation.Md5.Blocks.{
  length-absorb, absorb-count, absorb-step, absorb_all-append, transform_blocks-absorb,
}

-- The context after the message `m`: the state of its whole blocks, the count of its bits, and the
-- rest of it in the buffer.
pub record Represents (d : Context) (m : List ℕ) : Type 0 where
  pub state : d.state ≡ (absorb_all initial m).0
  pub rest : take (length m % 64) d.buffer ≡ (absorb_all initial m).1
  pub low : d.low ≡ length m * 8 % 2 ^ 32
  pub high : d.high ≡ length m * 8 / 2 ^ 32 % 2 ^ 32
  pub full : length d.buffer ≡ 64

-- A copy that fits.
copy_at-fit :
    (buffer : List ℕ) (index : ℕ) (bytes : List ℕ)
    → length buffer ≡ 64
    → index + length bytes ≤ 64
    → (b : List ℕ) × (copy_at buffer index bytes ≡ some b)
      × (length b ≡ 64)
      × (take (index + length bytes) b ≡ take index buffer ++ bytes)
unfolding copy_at
copy_at-fit buffer index bytes full fits = (
  front ++ back,
  rw (le→leb (index + length bytes) (length buffer) (omega arith)) refl,
  omega (arith, size, length-append front back, length-drop (index + length bytes) buffer),
  take-append_le (index + length bytes) front back (omega (arith, size))
      ∙ take-all (index + length bytes) front (omega (arith, size)),
)
  where
    front : List ℕ
    front = take index buffer ++ bytes

    back : List ℕ
    back = drop (index + length bytes) buffer

    size : length front ≡ index + length bytes
    size = omega (arith, length-append (take index buffer) bytes, length-take index buffer)

-- The two words of the count.
count_low-lem :
    (d : Context) (l n : ℕ)
    → d.low ≡ l * 8 % 2 ^ 32
    → n < 2 ^ 32
    → count_low d n ≡ (l + n) * 8 % 2 ^ 32
count_low-lem d l n low small = omega arith

count_high-lem :
    (d : Context) (l n : ℕ)
    → d.low ≡ l * 8 % 2 ^ 32
    → d.high ≡ l * 8 / 2 ^ 32 % 2 ^ 32
    → n < 2 ^ 32
    → count_high d n ≡ (l + n) * 8 / 2 ^ 32 % 2 ^ 32
count_high-lem d l n low high small = ground arith

-- The context after a piece of `n` bytes, with the state and the buffer that it leaves.
abbrev after : Context → ℕ → State → List ℕ → Context
after d n s b = record { state = s; low = count_low d n; high = count_high d n; buffer = b }

lt→leb-false : (a b : ℕ) → b < a → leb a b ≡ false
lt→leb-false a b h = ground arith

module _ (d : Context) (m input : List ℕ) (r : Represents d m) (small : length input < 2 ^ 32) where
  index-eq : buffered d ≡ length m % 64
  index-eq = omega (arith, r.low)

  held : take (buffered d) d.buffer ≡ (absorb_all initial m).1
  held = ap (λ i. take i d.buffer) index-eq ∙ r.rest

  length-held : length (take (buffered d) d.buffer) ≡ buffered d
  length-held = omega (arith, length-take (buffered d) d.buffer, r.full)

  -- The blocks of the whole input are those of what is held and the new piece.
  resumed :
      absorb_all initial (m ++ input) ≡ absorb_all d.state (take (buffered d) d.buffer ++ input)
  resumed = absorb_all-append initial m input ∙ rw (sym r.state, sym held) refl

  after-Represents :
      (s : State) (rest b : List ℕ)
      → absorb_all initial (m ++ input) ≡ (s, rest)
      → length b ≡ 64
      → take (length rest) b ≡ rest
      → Represents (after d (length input) s b) (m ++ input)
  after-Represents s rest b whole full held_rest = record {
    state = ap (λ p. p.0) (sym whole);
    rest = ap (λ i. take i b) length-rest ∙ held_rest ∙ ap (λ p. p.1) (sym whole);
    low =
        count_low-lem d (length m) (length input) r.low small
        ∙ ap (λ n. n * 8 % 2 ^ 32) (sym (length-append m input));
    high =
        count_high-lem d (length m) (length input) r.low r.high small
        ∙ ap (λ n. n * 8 / 2 ^ 32 % 2 ^ 32) (sym (length-append m input));
    full = full;
  }
    where
      length-rest : length (m ++ input) % 64 ≡ length rest
      length-rest =
          let same_length : length rest ≡ length (absorb_all initial (m ++ input)).1 =
            ap (λ p. length p.1) (sym whole) in
          omega (arith, same_length, length-absorb (length (m ++ input) / 64) initial (m ++ input))

  -- A short piece goes into the buffer.
  update-short :
      length input < 64 - buffered d
      → (d' : Context) × (update d input ≡ some d') × Represents d' (m ++ input)
  unfolding update absorb
  update-short h = filled (copy_at-fit d.buffer (buffered d) input r.full (omega arith))
    where
      joined : length (take (buffered d) d.buffer ++ input) ≡ buffered d + length input
      joined = omega (arith, length-append (take (buffered d) d.buffer) input, length-held)

      filled :
          (b : List ℕ) × (copy_at d.buffer (buffered d) input ≡ some b)
            × (length b ≡ 64)
            × (take (buffered d + length input) b ≡ take (buffered d) d.buffer ++ input)
          → (d' : Context) × (update d input ≡ some d') × Represents d' (m ++ input)
      filled (b, copied, size, rest) = (
        after d (length input) d.state b,
        rw (lt→leb-false (64 - buffered d) (length input) (omega arith), copied) refl,
        after-Represents d.state (take (buffered d) d.buffer ++ input) b
            (resumed
              ∙ absorb-count (length (take (buffered d) d.buffer ++ input) / 64) 0 d.state
                  (take (buffered d) d.buffer ++ input) (omega (arith, joined)))
            size (ap (λ i. take i b) joined ∙ rest),
      )

  -- A longer one completes a block, and more blocks follow it.
  update-long :
      64 - buffered d ≤ length input
      → (d' : Context) × (update d input ≡ some d') × Represents d' (m ++ input)
  unfolding update
  update-long h = completed (
      copy_at-fit d.buffer (buffered d) (take (64 - buffered d) input) r.full
        (omega (arith, length-take (64 - buffered d) input)))
    where
      completed :
          (b : List ℕ) × (copy_at d.buffer (buffered d) (take (64 - buffered d) input) ≡ some b)
            × (length b ≡ 64)
            × (take (buffered d + length (take (64 - buffered d) input)) b
                ≡ take (buffered d) d.buffer ++ take (64 - buffered d) input)
          → (d' : Context) × (update d input ≡ some d') × Represents d' (m ++ input)
      completed (b, copied, size, block) = stored (
          copy_at-fit b 0 left.1 size
            (omega (arith, length-absorb (length tail / 64) (transform d.state b) tail)))
        where
          tail : List ℕ
          tail = drop (64 - buffered d) input

          left : State × List ℕ
          left = absorb_all (transform d.state b) tail

          block-eq : take 64 (take (buffered d) d.buffer ++ input) ≡ b
          block-eq =
              take-append_ge 64 (64 - buffered d) (take (buffered d) d.buffer) input
                (omega (arith, length-held))
              ∙ sym block
              ∙ take-all (buffered d + length (take (64 - buffered d) input)) b
                  (omega (arith, size, length-take (64 - buffered d) input))

          tail-eq : drop 64 (take (buffered d) d.buffer ++ input) ≡ tail
          tail-eq =
              drop-append_ge 64 (64 - buffered d) (take (buffered d) d.buffer) input
                (omega (arith, length-held))

          whole : absorb_all initial (m ++ input) ≡ left
          whole =
              resumed
              ∙ absorb-step d.state (take (buffered d) d.buffer ++ input)
                  (omega (arith, length-append (take (buffered d) d.buffer) input, length-held))
              ∙ rw (block-eq, tail-eq) refl

          looped : transform_blocks (length input / 64 + 1) (transform d.state b) tail ≡ some left
          looped =
              transform_blocks-absorb (length input / 64 + 1) (transform d.state b) tail
                (omega (arith, length-drop (64 - buffered d) input))

          stored :
              (b' : List ℕ) × (copy_at b 0 left.1 ≡ some b')
                × (length b' ≡ 64)
                × (take (0 + length left.1) b' ≡ take 0 b ++ left.1)
              → (d' : Context) × (update d input ≡ some d') × Represents d' (m ++ input)
          stored (b', copied', size', rest) = (
            after d (length input) left.0 b',
            rw (le→leb (64 - buffered d) (length input) h, copied, looped, copied') refl,
            after-Represents left.0 left.1 b' whole size' (
                ap (λ i. take i b') {x = length left.1} {y = 0 + length left.1} (omega arith)
                ∙ rest),
          )

  -- The context takes in a piece of fewer than 2 ^ 32 bytes: no copy leaves the buffer, the loop ends,
  -- and the context then represents the message with the piece appended.
  pub update-Represents : (d' : Context) × (update d input ≡ some d') × Represents d' (m ++ input)
  update-Represents = elim (Bool-cases (leb (64 - buffered d) (length input))) [
    | inl e ↦ update-long (leb→le (64 - buffered d) (length input) e)
    | inr e ↦ update-short (ground arith)
  ]
