-- ===== src/Crc32/Tests.antt =====
-- The check value of the checksum, and the theorem at its input.
use the_foundation.Base.{ℕ, List, [], ◌∷◌, ◌≡◌, refl, arith}
use the_foundation.Crc32.{crc32}
use the_foundation.Crc32.Bitwise.{checksum}
use the_foundation.Crc32.Laws.{crc32-checksum}

-- The text `123456789`, whose checksum is the published check value.
abbrev digits : List ℕ
digits = 0x31 ∷ 0x32 ∷ 0x33 ∷ 0x34 ∷ 0x35 ∷ 0x36 ∷ 0x37 ∷ 0x38 ∷ 0x39 ∷ []

check_value : crc32 digits ≡ 0xcbf4_3926
unfolding crc32
check_value = refl

crc32-checksum_example : crc32 (0x41 ∷ 0xff ∷ []) ≡ checksum (0x41 ∷ 0xff ∷ [])
crc32-checksum_example = crc32-checksum (0x41 ∷ 0xff ∷ []) (omega arith)
