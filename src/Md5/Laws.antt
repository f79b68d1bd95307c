-- ===== src/Md5/Laws.antt =====
-- The hash of a message is its digest.
use the_foundation.Base.{
  ℕ, zero, suc, ◌-◌, ◌*◌, ◌/◌, ◌%◌, ◌^◌, ◌≤◌, ◌<◌, ◌≡◌, refl, ap, ◌∙◌, arith, some, List, [], ◌∷◌,
  ◌++◌, length, length-replicate, take, replicate,
}
use the_foundation.Base.Bits.{mask-low}
use the_foundation.Md5.{Context, padding, buffered, pad_len, start, update, md5_hash}
use the_foundation.Md5.Transform.{encode}
use the_foundation.Md5.Digest.{absorb, length_bytes, padded, digest}
use the_foundation.Md5.Streaming.{Represents, update-Represents}

encode-word :
    (w : ℕ) (ws : List ℕ)
    → encode (w ∷ ws) ≡ w % 256 ∷ w / 2 ^ 8 % 256 ∷ w / 2 ^ 16 % 256 ∷ w / 2 ^ 24 % 256 ∷ encode ws
unfolding encode
encode-word w ws =
    rw (mask-low w, mask-low (w / 2 ^ 8), mask-low (w / 2 ^ 16), mask-low (w / 2 ^ 24)) refl

-- The two words of a count below 2 ^ 64 are its eight bytes.
encode-count : (n : ℕ) → encode (n % 2 ^ 32 ∷ n / 2 ^ 32 % 2 ^ 32 ∷ []) ≡ length_bytes n
unfolding encode
encode-count n =
    let low = n % 2 ^ 32 in
    let high = n / 2 ^ 32 % 2 ^ 32 in
    let b0 : low % 256 ≡ n % 256 = omega arith in
    let b1 : low / 2 ^ 8 % 256 ≡ n / 2 ^ 8 % 256 = omega arith in
    let b2 : low / 2 ^ 16 % 256 ≡ n / 2 ^ 16 % 256 = omega arith in
    let b3 : low / 2 ^ 24 % 256 ≡ n / 2 ^ 24 % 256 = omega arith in
    let b4 : high % 256 ≡ n / 2 ^ 32 % 256 = omega arith in
    let b5 : high / 2 ^ 8 % 256 ≡ n / 2 ^ 40 % 256 = omega arith in
    let b6 : high / 2 ^ 16 % 256 ≡ n / 2 ^ 48 % 256 = omega arith in
    let b7 : high / 2 ^ 24 % 256 ≡ n / 2 ^ 56 % 256 = omega arith in
    encode-word low (high ∷ [])
    ∙ rw (encode-word high []) (rw (b0, b1, b2, b3, b4, b5, b6, b7) refl)

take-replicate : (k n : ℕ) (a : ℕ) → k ≤ n → take k (replicate n a) ≡ replicate k a
take-replicate zero n a h = refl
take-replicate (suc k) zero a h = absurd (omega arith)
take-replicate (suc k) (suc n) a h = ap (λ t. a ∷ t) (take-replicate k n a (omega arith))

-- The padding by the place in the buffer is the one by the length of the message.
take-padding : (i : ℕ) → i < 64 → take (pad_len i) padding ≡ 0x80 ∷ replicate ((119 - i) % 64) 0
take-padding i h =
    ap (λ k. take k padding) {x = pad_len i} {y = suc ((119 - i) % 64)} (ground arith)
    ∙ ap (λ t. 0x80 ∷ t) (take-replicate ((119 - i) % 64) 63 0 (omega arith))

pub start-Represents : Represents start []
unfolding absorb
start-Represents = record { state = refl; rest = refl; low = refl; high = refl; full = refl }

-- For a message of fewer than 2 ^ 32 bytes the hash succeeds, with no copy outside of the buffer, and is
-- the digest of the message with its padding as a whole.
pub md5_hash-digest : (m : List ℕ) → length m < 2 ^ 32 → md5_hash m ≡ some (digest m)
unfolding md5_hash digest
md5_hash-digest m small = begun (update-Represents start [] m start-Represents small)
  where
    pad : List ℕ
    pad = 0x80 ∷ replicate ((119 - length m % 64) % 64) 0

    length-pad : length pad < 65
    length-pad = omega (arith, length-replicate {A = ℕ} ((119 - length m % 64) % 64) 0)

    begun :
        (d : Context) × (update start m ≡ some d) × Represents d m → md5_hash m ≡ some (digest m)
    begun (d, first, r) = filled (update-Represents d m pad r (omega (arith, length-pad)))
      where
        piece : take (pad_len (buffered d)) padding ≡ pad
        piece =
            ap (λ i. take (pad_len i) padding) {x = buffered d} {y = length m % 64}
              (omega (arith, r.low))
            ∙ take-padding (length m % 64) (omega arith)

        count : encode (d.low ∷ d.high ∷ []) ≡ length_bytes (length m * 8)
        count = rw (r.low, r.high) (encode-count (length m * 8))

        filled :
            (p : Context) × (update d pad ≡ some p) × Represents p (m ++ pad)
            → md5_hash m ≡ some (digest m)
        filled (p, second, r') =
            finished (update-Represents p (m ++ pad) (length_bytes (length m * 8)) r' (omega arith))
          where
            finished :
                (q : Context) × (update p (length_bytes (length m * 8)) ≡ some q)
                  × Represents q (padded m)
                → md5_hash m ≡ some (digest m)
            finished (q, third, r'') = rw (first, piece, second, count, third, r''.state) refl
