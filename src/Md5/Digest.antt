-- ===== src/Md5/Digest.antt =====
-- The digest of a message as a whole: the message with its padding and its length in bits, cut into
-- blocks of 64 bytes that are added to the state one after the other.
use the_foundation.Base.{
  ℕ, zero, suc, ◌-◌, ◌*◌, ◌/◌, ◌%◌, ◌^◌, List, [], ◌∷◌, ◌++◌, length, take, drop, replicate,
}
use the_foundation.Md5.Transform.{State, transform, encode}
use the_foundation.Md5.{initial}

-- `n` blocks of a message added to the state, and what is left of the message.
unfoldable pub absorb : ℕ → State → List ℕ → State × List ℕ
absorb zero s xs = (s, xs)
absorb (suc n) s xs = absorb n (transform s (take 64 xs)) (drop 64 xs)

-- All the whole blocks of a message.
abbrev pub absorb_all : State → List ℕ → State × List ℕ
absorb_all s xs = absorb (length xs / 64) s xs

-- The eight bytes of a number, the lowest first.
abbrev pub length_bytes : ℕ → List ℕ
length_bytes n =
    n % 256
    ∷ n / 2 ^ 8 % 256
    ∷ n / 2 ^ 16 % 256
    ∷ n / 2 ^ 24 % 256
    ∷ n / 2 ^ 32 % 256
    ∷ n / 2 ^ 40 % 256
    ∷ n / 2 ^ 48 % 256
    ∷ n / 2 ^ 56 % 256
    ∷ []

-- One bit, and zeros up to 8 bytes below a whole number of blocks; then the length in bits.
abbrev pub padded : List ℕ → List ℕ
padded m = (m ++ (0x80 ∷ replicate ((119 - length m % 64) % 64) 0)) ++ length_bytes (length m * 8)

unfoldable pub digest : List ℕ → List ℕ
digest m = let s = (absorb_all initial (padded m)).0 in encode (s.a ∷ s.b ∷ s.c ∷ s.d ∷ [])
