-- ===== src/Lexer/Utf8.antt =====
-- `utf8` of src/lexer/input.c: the bytes of a character. A `char` is its eight bits.
pub mod Laws
mod Tests
use neoast.Common.{
  ℕ, ◌/◌, ◌%◌, ◌^◌, List, [], ◌∷◌, ◌++◌, ℤ, pos, negsuc, to_u32, ltb, if◌then◌else◌,
}
use neoast.Common.{bit_and, bit_or}

-- `REFLEX_NONCHAR_UTF8`.
abbrev pub nonchar : List ℕ
nonchar = 0xf8 ∷ 0x88 ∷ 0x80 ∷ 0x80 ∷ 0x80 ∷ []

-- `(char) (0x80 | (x & 0x3F))`.
abbrev pub tail_byte : ℕ → ℕ
tail_byte x = bit_or 0x80 (bit_and x 0x3F)

-- The bytes before the last two, for a character of three bytes or four.
unfoldable pub head_bytes : ℕ → List ℕ
head_bytes c =
    if ltb c 0x010000
    then bit_or 0xE0 (bit_and (c / 2 ^ 12) 0x0F) ∷ []
    else bit_or 0xF0 (bit_and (c / 2 ^ 18) 0x07) ∷ tail_byte (c / 2 ^ 12) ∷ []

-- The bytes before the last.
unfoldable pub lead_bytes : ℕ → List ℕ
lead_bytes c =
    if ltb c 0x0800
    then bit_or 0xC0 (bit_and (c / 2 ^ 6) 0x1F) ∷ []
    else head_bytes c ++ tail_byte (c / 2 ^ 6) ∷ []

-- The code is an `int`: a negative one passes the first test, and its low byte is kept.
unfoldable pub utf8 : ℤ → List ℕ
utf8 (negsuc n) = to_u32 (negsuc n) % 2 ^ 8 ∷ []
utf8 (pos c) =
    if ltb c 0x80
    then c ∷ []
    else if ltb 0x10FFFF c
    then nonchar
    else lead_bytes c ++ tail_byte c ∷ []
