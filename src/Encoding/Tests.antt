-- ===== src/Encoding/Tests.antt =====
-- The codecs at small inputs.
use the_foundation.Base.{ℕ, ◌%◌, none, some, List, [], ◌∷◌, length, ◌≡◌, refl, ◌↔◌, arith}
use the_foundation.Encoding.{
  hex_encode, hex_decode, hex_decode_from, hex_value, from_hex, base64_encode, base64_chars,
  base64_char, base64_decode,
}
use the_foundation.Encoding.Hex.{hex_decode-hex_encode, hex_decode_iff}
use the_foundation.Encoding.Base64.{base64_decode-base64_encode}

-- "Man" and "Ma" in Base64.
man_text : base64_encode (0x4d ∷ 0x61 ∷ 0x6e ∷ []) ≡ some (0x54 ∷ 0x57 ∷ 0x46 ∷ 0x75 ∷ [])
unfolding base64_encode base64_chars base64_char
man_text = refl

ma_text : base64_encode (0x4d ∷ 0x61 ∷ []) ≡ some (0x54 ∷ 0x57 ∷ 0x45 ∷ 0x3d ∷ [])
unfolding base64_encode base64_chars base64_char
ma_text = refl

hex_text : hex_encode (0xa7 ∷ 0x0f ∷ []) ≡ 0x61 ∷ 0x37 ∷ 0x30 ∷ 0x66 ∷ []
unfolding hex_encode
hex_text = refl

-- Capital letters are read like small ones.
capital_run : hex_decode 0 (0x41 ∷ 0x37 ∷ []) ≡ some (0xa7 ∷ [])
unfolding hex_decode hex_decode_from hex_value from_hex
capital_run = refl

hex_decode-hex_encode_example :
    hex_decode 0 (hex_encode (0xa7 ∷ 0x0f ∷ [])) ≡ some (0xa7 ∷ 0x0f ∷ [])
hex_decode-hex_encode_example =
    hex_decode-hex_encode 0 (0xa7 ∷ 0x0f ∷ []) (omega arith, (omega arith, tt))

hex_decode_iff_example :
    (hex_decode 0 (0x61 ∷ 0x37 ∷ 0x30 ∷ []) ≡ none)
    ↔ (length {A = ℕ} (0x61 ∷ 0x37 ∷ 0x30 ∷ []) % 2 ≡ 1)
hex_decode_iff_example = hex_decode_iff 0 (0x61 ∷ 0x37 ∷ 0x30 ∷ [])

base64_decode-base64_encode_example :
    (chars : List ℕ) × (base64_encode (0x4d ∷ 0x61 ∷ []) ≡ some chars)
    × (length chars ≡ 4)
    × (base64_decode chars ≡ some (0x4d ∷ 0x61 ∷ 0 ∷ []))
base64_decode-base64_encode_example =
    base64_decode-base64_encode (0x4d ∷ 0x61 ∷ []) (omega arith, (omega arith, tt)) (omega arith)
