-- ===== src/Md5/Tests.antt =====
-- Runs of the hash with published values, and the theorems at a short input.
use the_foundation.Base.{ℕ, List, [], ◌∷◌, some, ◌≡◌, refl, arith}
use the_foundation.Md5.{Context, start, update, md5_hash}
use the_foundation.Md5.Digest.{digest}
use the_foundation.Md5.Laws.{md5_hash-digest}

abbrev letters : List ℕ
letters = 0x61 ∷ 0x62 ∷ 0x63 ∷ []

empty_run :
    md5_hash []
    ≡ some (
        0xd4 ∷ 0x1d ∷ 0x8c ∷ 0xd9 ∷ 0x8f ∷ 0x00 ∷ 0xb2 ∷ 0x04 ∷ 0xe9 ∷ 0x80 ∷ 0x09 ∷ 0x98 ∷ 0xec
        ∷ 0xf8 ∷ 0x42 ∷ 0x7e ∷ [])
unfolding md5_hash the_foundation.Md5.Transform.transform the_foundation.Md5.Transform.encode
empty_run = refl

letters_run :
    md5_hash letters
    ≡ some (
        0x90 ∷ 0x01 ∷ 0x50 ∷ 0x98 ∷ 0x3c ∷ 0xd2 ∷ 0x4f ∷ 0xb0 ∷ 0xd6 ∷ 0x96 ∷ 0x3f ∷ 0x7d ∷ 0x28
        ∷ 0xe1 ∷ 0x7f ∷ 0x72 ∷ [])
unfolding md5_hash the_foundation.Md5.Transform.transform the_foundation.Md5.Transform.encode
letters_run = refl

md5_hash-digest_example : md5_hash letters ≡ some (digest letters)
md5_hash-digest_example = md5_hash-digest letters (omega arith)
