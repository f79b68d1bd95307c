-- ===== src/Crc32/Bitwise.antt =====
-- The checksum one digit at a time, as the comment above `iCrc32` describes it: a shift register
-- that is fed back by the polynomial.
use Prim.Native.Nat.{bit_xor}
use the_foundation.Base.{ℕ, zero, suc, ◌-◌, ◌/◌, ◌%◌, List, [], ◌∷◌, ◌==◌, if◌then◌else◌}

abbrev pub polynomial : ℕ
polynomial = 0xedb8_8320

unfoldable pub shift_one : ℕ → ℕ
shift_one c = if c % 2 == 1 then bit_xor (c / 2) polynomial else c / 2

unfoldable pub shift_by : ℕ → ℕ → ℕ
unfolding shift_one
shift_by zero c = c
shift_by (suc n) c = shift_by n (shift_one c)

unfoldable pub feed : ℕ → List ℕ → ℕ
unfolding shift_by
feed c [] = c
feed c (byte ∷ bytes) = feed (shift_by 8 (bit_xor c byte)) bytes

unfoldable pub checksum : List ℕ → ℕ
unfolding feed
checksum bytes = 0xffff_ffff - feed 0xffff_ffff bytes
