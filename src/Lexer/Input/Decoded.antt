-- ===== src/Lexer/Input/Decoded.antt =====
-- About what `file_get` of src/lexer/input.c delivers of a file in an encoding.
use neoast.Common.{
  ℕ, ◌+◌, ◌≤◌, ◌≡◌, ◌≢◌, refl, ap, ◌∙◌, List, [], ◌∷◌, ◌++◌, length, none, some, ℤ, pos, done,
  arith, inl, inr, ltb, if◌then◌else◌, lt_or_le, length-append,
}
use neoast.Lexer.Utf8.{utf8}
use neoast.Lexer.Utf8.Laws.{decode, decode-utf8, utf8-two, utf8-three, utf8-four}
use neoast.Lexer.Input.Fetch.{
  Encoding, plain, utf_8, utf16be, utf16le, utf32be, utf32le, latin, code_page, fetch, fetch_utf16,
  fetch_utf32, fetch_byte, look_byte, fread, fread_unit, finish_first,
}
use neoast.Lexer.Input.{FileHandle, file_get}
use neoast.Lexer.Input.Text.{Characters, ends, more, text, file_get-text}
use neoast.Lexer.Input.Encoded.{Encodes, one_unit, pair, word, in_latin, in_page, fetch-Encodes}

-- A file of these characters, and their text: bytes that decode to them, one after the other.
pub data IsEncoded (e : Encoding) (page : List ℕ) : List ℕ → List ℕ → Type 0 where
  nothing : IsEncoded e page [] []
  then_char :
      {c : ℕ} {bytes rest cs : List ℕ}
      → Encodes e page c bytes
      → IsEncoded e page rest cs
      → IsEncoded e page (bytes ++ rest) (c ∷ cs)

pub data Decodes : List ℕ → List ℕ → Type 0 where
  at_end : Decodes [] []
  next_char :
      {out rest cs : List ℕ} {c : ℕ}
      → decode out ≡ some (c, rest)
      → Decodes rest cs
      → Decodes out (c ∷ cs)

-- The number of bytes of a character in UTF-8, and of a text.
abbrev pub utf8_size : ℕ → ℕ
utf8_size c = if ltb c 0x80 then 1 else if ltb c 0x800 then 2 else if ltb c 0x10000 then 3 else 4

abbrev pub text_size : List ℕ → ℕ
text_size [] = 0
text_size (c ∷ cs) = utf8_size c + text_size cs

abbrev codes_of : List ℕ → List ℤ
codes_of [] = []
codes_of (c ∷ cs) = pos c ∷ codes_of cs

length-utf8 : (c : ℕ) → c ≤ 0x10FFFF → length (utf8 (pos c)) ≡ utf8_size c
unfolding utf8
length-utf8 c most = elim (lt_or_le c 0x80) [
  | inl one ↦ ground (arith, one)
  | inr more_ ↦ elim (lt_or_le c 0x800) [
    | inl two ↦ ap length (utf8-two c more_ two) ∙ ground (arith, more_, two)
    | inr wide ↦ elim (lt_or_le c 0x10000) [
      | inl three ↦ ap length (utf8-three c wide three) ∙ ground (arith, wide, three)
      | inr four ↦ ap length (utf8-four c four most) ∙ ground (arith, four)
    ]
  ]
]

Encodes-range :
    (e : Encoding) (page : List ℕ) (c : ℕ) (bytes : List ℕ) → Encodes e page c bytes → c ≤ 0x10FFFF
Encodes-range e page c bytes (one_unit big is (inl low)) = omega (arith, low)
Encodes-range e page c bytes (one_unit big is (inr (high, small))) = omega (arith, small)
Encodes-range e page c bytes (pair big is least most) = most
Encodes-range e page c bytes (word big is most) = most
Encodes-range e page c bytes (in_latin is small) = omega (arith, small)
Encodes-range e page c bytes (in_page number b is at most) = most

fetch-nothing : (e : Encoding) (page : List ℕ) → fetch e page [] ≡ done (none, [])
unfolding fetch fetch_utf16 fetch_utf32 fetch_byte fread_unit fread finish_first look_byte
fetch-nothing plain page = refl
fetch-nothing utf_8 page = refl
fetch-nothing utf16be page = refl
fetch-nothing utf16le page = refl
fetch-nothing utf32be page = refl
fetch-nothing utf32le page = refl
fetch-nothing latin page = refl
fetch-nothing (code_page number) page = refl

IsEncoded-Characters :
    (e : Encoding) (page file cs : List ℕ)
    → IsEncoded e page file cs
    → Characters e page file (codes_of cs)
IsEncoded-Characters e page file cs nothing = ends (fetch-nothing e page)
IsEncoded-Characters e page file cs (then_char {c} {bytes} {rest} {cs = cs₁} char others) =
    more (fetch-Encodes e page c bytes rest char) (IsEncoded-Characters e page rest cs₁ others)

length-text :
    (e : Encoding) (page file cs : List ℕ)
    → IsEncoded e page file cs
    → length (text (codes_of cs)) ≡ text_size cs
unfolding text
length-text e page file cs nothing = refl
length-text e page file cs (then_char {c} {bytes} {rest} {cs = cs₁} char others) = omega (
  arith,
  length-append (utf8 (pos c)) (text (codes_of cs₁)),
  length-utf8 c (Encodes-range e page c bytes char),
  length-text e page rest cs₁ others,
)

text-Decodes :
    (e : Encoding) (page file cs : List ℕ)
    → IsEncoded e page file cs
    → Decodes (text (codes_of cs)) cs
unfolding text
text-Decodes e page file cs nothing = at_end
text-Decodes e page file cs (then_char {c} {bytes} {rest} {cs = cs₁} char others) =
    next_char (decode-utf8 c (text (codes_of cs₁)) (Encodes-range e page c bytes char))
      (text-Decodes e page rest cs₁ others)

-- Of a file that holds characters in UTF-16 or UTF-32 of either byte order, in Latin-1 or in a code page,
-- with nothing held before it, a request that has room for their UTF-8 delivers bytes of that number,
-- which decode by the standard table of UTF-8 to the same characters in the same order.
pub file_get-Decodes :
    (h : FileHandle) (n : ℕ) (cs : List ℕ)
    → h.encoding ≢ plain
    → h.encoding ≢ utf_8
    → h.ulen ≡ 0
    → IsEncoded h.encoding h.page h.file cs
    → text_size cs ≤ n
    → (out : List ℕ) × (h' : FileHandle) × (file_get h n ≡ done (out, h'))
      × (length out ≡ text_size cs)
      × Decodes out cs
file_get-Decodes h n cs not_plain not_utf_8 none_held at fits =
    let long = length-text h.encoding h.page h.file cs at in
    let (h', e) =
      file_get-text h n (codes_of cs) not_plain not_utf_8 none_held
        (IsEncoded-Characters h.encoding h.page h.file cs at) (omega (arith, long, fits)) in
    (text (codes_of cs), h', e, long, text-Decodes h.encoding h.page h.file cs at)
