-- ===== src/Punycode/Tests.antt =====
-- Runs of the decoder, and the theorems at short inputs.
use the_foundation.Base.{ℕ, ◌≤◌, List, [], ◌∷◌, ◌++◌, some, ◌≡◌, refl, arith, length}
use the_foundation.Punycode.{Status, success, bad_input, decode, done, read_integer, write_integer}
use the_foundation.Punycode.Decoding.{decode-Bounded}
use the_foundation.Punycode.RoundTrip.{read_integer-write_integer}

-- The text `bcher-kva` stands for `bücher`.
abbrev bucher : List ℕ
bucher = 0x62 ∷ 0x63 ∷ 0x68 ∷ 0x65 ∷ 0x72 ∷ 0x2d ∷ 0x6b ∷ 0x76 ∷ 0x61 ∷ []

bucher_run : decode 9 bucher ≡ some (success, 0x62 ∷ 0xfc ∷ 0x63 ∷ 0x68 ∷ 0x65 ∷ 0x72 ∷ [])
unfolding decode
bucher_run = refl

-- Digits that do not end.
open_run : decode 9 (0x6b ∷ []) ≡ some (bad_input, [])
unfolding decode
open_run = refl

written_run : write_integer 746 1000 745 36 72 ≡ some (some (0x6b ∷ 0x76 ∷ 0x61 ∷ []))
unfolding write_integer
written_run = refl

decode-Bounded_example :
    (s : Status) × (output : List ℕ) × (decode 9 bucher ≡ some (s, output)) × (length output ≤ 9)
decode-Bounded_example = decode-Bounded 9 bucher (omega arith)

read_integer-write_integer_example :
    (cs : List ℕ) × (write_integer 746 1000 745 36 72 ≡ some (some cs))
    × ((tail : List ℕ) → read_integer (cs ++ tail) 3 1 36 72 ≡ some (done 748 tail))
read_integer-write_integer_example =
    read_integer-write_integer 746 1000 745 3 1 36 72 (omega arith) (omega arith) (omega arith)
      (omega arith) (omega arith) (omega arith)
