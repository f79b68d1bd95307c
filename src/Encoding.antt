-- ===== src/Encoding.antt =====
-- The codecs of src/block.c for hexadecimal and Base64. Bytes and characters are numbers below 256,
-- and a text is the list of its characters. A `char` is signed: one of 128 or more is negative, and
-- its sign is extended in arithmetic on `int`, which is modelled as a word of 32 digits.
pub mod Hex
pub mod Base64
mod Tests
use Prim.Native.Nat.{bit_and, bit_or}
use the_foundation.Base.{
  ℕ, zero, suc, ◌+◌, ◌-◌, ◌*◌, ◌/◌, ◌%◌, ◌^◌, Option, none, some, List, [], ◌∷◌, get_or, length,
  ltb, leb, ◌==◌, if◌then◌else◌, check, ◌>>=◌, ◌>>◌, Bool, ◌&&◌, ◌++◌, replicate,
}

-- A `char` as an `int`.
abbrev pub char_word : ℕ → ℕ
char_word c = if ltb c 128 then c else c + 0xffff_ff00

-- `char_word c - d` as an `int`.
abbrev pub char_diff : ℕ → ℕ → ℕ
char_diff c d = (char_word c + 2 ^ 32 - d) % 2 ^ 32

-- `ch >= limit`, where `limit` is a character of ASCII.
abbrev pub char_ge : ℕ → ℕ → Bool
char_ge c limit = ltb c 128 && leb limit c

-- `hexValues`
abbrev pub hex_values : List ℕ
hex_values =
    0x30 ∷ 0x31 ∷ 0x32 ∷ 0x33 ∷ 0x34 ∷ 0x35 ∷ 0x36 ∷ 0x37 ∷ 0x38 ∷ 0x39 ∷ 0x61 ∷ 0x62 ∷ 0x63 ∷ 0x64
    ∷ 0x65 ∷ 0x66 ∷ []

-- `hexEncode_Block`
unfoldable pub hex_encode : List ℕ → List ℕ
hex_encode [] = []
hex_encode (val ∷ bytes) =
    get_or hex_values (val / 2 ^ 4) 0 ∷ get_or hex_values (bit_and val 15) 0 ∷ hex_encode bytes

-- `fromHex_`
unfoldable pub from_hex : ℕ → ℕ
from_hex c =
    if char_ge c 0x61
    then (char_diff c 0x61 + 10) % 2 ^ 32
    else if char_ge c 0x41
    then (char_diff c 0x41 + 10) % 2 ^ 32
    else char_diff c 0x30

-- The `uint8_t` that two characters stand for.
unfoldable pub hex_value : ℕ → ℕ → ℕ
hex_value a b = bit_or (from_hex a * 2 ^ 4 % 2 ^ 32) (from_hex b) % 2 ^ 8

-- The loop of `hexDecode_Rangecc` into a block of `size` bytes: the bytes from `pos` on. `past` is what
-- is read behind the end of the range, and `setByte_Block` asserts the position.
unfoldable pub hex_decode_from : (past size pos : ℕ) → List ℕ → Option (List ℕ)
hex_decode_from past size pos [] = some []
hex_decode_from past size pos (a ∷ []) = do check (ltb pos size); some (hex_value a past ∷ [])
hex_decode_from past size pos (a ∷ b ∷ chars) = do
  check (ltb pos size)
  rest ← hex_decode_from past size (pos + 1) chars
  some (hex_value a b ∷ rest)

unfoldable pub hex_decode : (past : ℕ) → List ℕ → Option (List ℕ)
hex_decode past chars = hex_decode_from past (length chars / 2) 0 chars

-- `base64Table_`
abbrev pub base64_table : List ℕ
base64_table =
    0x41 ∷ 0x42 ∷ 0x43 ∷ 0x44 ∷ 0x45 ∷ 0x46 ∷ 0x47 ∷ 0x48 ∷ 0x49 ∷ 0x4a ∷ 0x4b ∷ 0x4c ∷ 0x4d ∷ 0x4e
    ∷ 0x4f ∷ 0x50 ∷ 0x51 ∷ 0x52 ∷ 0x53 ∷ 0x54 ∷ 0x55 ∷ 0x56 ∷ 0x57 ∷ 0x58 ∷ 0x59 ∷ 0x5a ∷ 0x61
    ∷ 0x62 ∷ 0x63 ∷ 0x64 ∷ 0x65 ∷ 0x66 ∷ 0x67 ∷ 0x68 ∷ 0x69 ∷ 0x6a ∷ 0x6b ∷ 0x6c ∷ 0x6d ∷ 0x6e
    ∷ 0x6f ∷ 0x70 ∷ 0x71 ∷ 0x72 ∷ 0x73 ∷ 0x74 ∷ 0x75 ∷ 0x76 ∷ 0x77 ∷ 0x78 ∷ 0x79 ∷ 0x7a ∷ 0x30
    ∷ 0x31 ∷ 0x32 ∷ 0x33 ∷ 0x34 ∷ 0x35 ∷ 0x36 ∷ 0x37 ∷ 0x38 ∷ 0x39 ∷ 0x2b ∷ 0x2f ∷ []

unfoldable pub base64_char : ℕ → ℕ
base64_char i = get_or base64_table i 0

-- The characters after the loop of `base64Encode_Block`, and those of its rounds.
unfoldable pub base64_chars : List ℕ → List ℕ
base64_chars [] = []
base64_chars (a ∷ []) =
    base64_char (a / 2 ^ 2) ∷ base64_char (bit_and a 0x03 * 2 ^ 4) ∷ 0x3d ∷ 0x3d ∷ []
base64_chars (a ∷ b ∷ []) =
    base64_char (a / 2 ^ 2)
    ∷ base64_char (bit_or (bit_and a 0x03 * 2 ^ 4) (b / 2 ^ 4))
    ∷ base64_char (bit_and b 0x0f * 2 ^ 2)
    ∷ 0x3d
    ∷ []
base64_chars (a ∷ b ∷ c ∷ bytes) =
    base64_char (a / 2 ^ 2)
    ∷ base64_char (bit_or (bit_and a 0x03 * 2 ^ 4) (b / 2 ^ 4))
    ∷ base64_char (bit_or (bit_and b 0x0f * 2 ^ 2) (c / 2 ^ 6))
    ∷ base64_char (bit_and c 0x3f)
    ∷ base64_chars bytes

-- `base64Encode_Block`: the characters are written to a text resized to their number before, so
-- that more of them would leave it, and fewer would leave zeros in it.
unfoldable pub base64_encode : List ℕ → Option (List ℕ)
base64_encode bytes =
    let olen = 4 * ((length bytes + 2) % 2 ^ 64 / 3) % 2 ^ 64 in
    if ltb olen (length bytes) then some [] else (do
      check (leb (length (base64_chars bytes)) olen)
      some (base64_chars bytes ++ replicate (olen - length (base64_chars bytes)) 0))

-- `base64Index_`
unfoldable pub base64_index : ℕ → ℕ
base64_index c =
    if c == 0x3d
    then 0
    else if c == 0x2f
    then 63
    else if c == 0x2b
    then 62
    else if char_ge c 0x61
    then (char_diff c 0x61 + 26) % 2 ^ 8
    else if char_ge c 0x41
    then char_diff c 0x41 % 2 ^ 8
    else (char_diff c 0x30 + 52) % 2 ^ 8

-- The loop of `base64Decode_Block`: `comp` has 16 digits, and the next six go to `shift`.
unfoldable pub base64_bytes : (comp shift : ℕ) → List ℕ → List ℕ
base64_bytes comp shift [] = []
base64_bytes comp shift (c ∷ chars) =
    let joined = bit_or comp (base64_index c * 2 ^ shift) % 2 ^ 16 in
    let full = leb shift 8 in
    let rest =
      base64_bytes (if full then joined * 2 ^ 8 % 2 ^ 16 else joined)
        ((if full then shift + 8 else shift) - 6) chars in
    if full then joined / 2 ^ 8 ∷ rest else rest

-- `base64Decode_Block`, with the assertion that all bytes are written.
unfoldable pub base64_decode : List ℕ → Option (List ℕ)
base64_decode chars = do
  check (length (base64_bytes 0 10 chars) == 6 * length chars % 2 ^ 64 / 8)
  some (base64_bytes 0 10 chars)
