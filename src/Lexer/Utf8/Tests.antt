-- ===== src/Lexer/Utf8/Tests.antt =====
-- Characters of one byte to four.
use neoast.Common.{[], ◌∷◌, ◌++◌, ◌≡◌, refl, some, pos, arith}
use neoast.Lexer.Utf8.{utf8, lead_bytes, head_bytes, nonchar}
use neoast.Lexer.Utf8.Laws.{decode, decode-utf8}

euro : utf8 (pos 0x20AC) ≡ 0xE2 ∷ 0x82 ∷ 0xAC ∷ []
unfolding utf8 lead_bytes head_bytes
euro = refl

too_large : utf8 (pos 0x110000) ≡ nonchar
unfolding utf8
too_large = refl

decode-utf8_example : decode (utf8 (pos 0x1F600) ++ 0x41 ∷ []) ≡ some (0x1F600, 0x41 ∷ [])
decode-utf8_example = decode-utf8 0x1F600 (0x41 ∷ []) (omega arith)
