-- ===== src/Lexer/Input/Encoded.antt =====
-- About the encodings of a file: the bytes of a character, and `fetch` of src/lexer/input.c.
use neoast.Common.{
  ℕ, suc, ◌+◌, ◌-◌, ◌*◌, ◌/◌, ◌%◌, ◌^◌, ◌≤◌, ◌<◌, ◌≡◌, refl, ap, ◌∙◌, List, [], ◌∷◌, ◌++◌, length,
  get_elem?, Bool, true, false, Option, some, pos, Outcome, done, arith, ◌⊎◌, inl, inr, ltb, leb,
  ◌&&◌, ◌==◌, bit_and, bit_or, or_two, two_or, or_four, four_or, each_index, each_index_at, read,
}
use mathlib.Core.List.{append_assoc}
use neoast.Lexer.Input.Fetch.{
  Encoding, utf16be, utf16le, utf32be, utf32le, latin, code_page, fetch, fetch_utf16, fetch_utf32,
  fetch_byte, look_byte, fread, fread_unit, unit_of, finish_first, finish_unit, join_pair, to_int,
  word_of,
}

-- The bytes of 16 bits and of 32 bits, the most significant one first or last.
abbrev pub unit_bytes : Bool → ℕ → List ℕ
unit_bytes true u = u / 256 ∷ u % 256 ∷ []
unit_bytes false u = u % 256 ∷ u / 256 ∷ []

abbrev pub word_bytes : Bool → ℕ → List ℕ
word_bytes true c = c / 16777216 ∷ c / 65536 % 256 ∷ c / 256 % 256 ∷ c % 256 ∷ []
word_bytes false c = c % 256 ∷ c / 256 % 256 ∷ c / 65536 % 256 ∷ c / 16777216 ∷ []

abbrev pub utf16 : Bool → Encoding
utf16 true = utf16be
utf16 false = utf16le

abbrev pub utf32 : Bool → Encoding
utf32 true = utf32be
utf32 false = utf32le

-- The bytes of a character, by the standards: a character of UTF-16 is a unit, which is no surrogate, or
-- a pair of surrogates; one of Latin-1 is its byte, and one of a code page is in the page.
pub data Encodes (e : Encoding) (page : List ℕ) (c : ℕ) : List ℕ → Type 0 where
  one_unit :
      (big : Bool)
      → e ≡ utf16 big
      → (c < 0xD800) ⊎ ((0xE000 ≤ c) × (c < 0x10000))
      → Encodes e page c (unit_bytes big c)
  pair :
      (big : Bool)
      → e ≡ utf16 big
      → 0x10000 ≤ c
      → c ≤ 0x10FFFF
      → Encodes e page c (
          unit_bytes big (0xD800 + (c - 0x10000) / 1024)
          ++ unit_bytes big (0xDC00 + (c - 0x10000) % 1024))
  word : (big : Bool) → e ≡ utf32 big → c ≤ 0x10FFFF → Encodes e page c (word_bytes big c)
  in_latin : e ≡ latin → c < 256 → Encodes e page c (c ∷ [])
  in_page :
      (number b : ℕ)
      → e ≡ code_page number
      → get_elem? page b ≡ some c
      → c ≤ 0x10FFFF
      → Encodes e page c (b ∷ [])

unit_of-unit_bytes :
    (big : Bool) (u : ℕ) → u < 65536 → unit_of big (unit_bytes big u) ≡ (u / 256, u)
unfolding unit_of
unit_of-unit_bytes true u small =
    ap (λ n. (u / 256, n)) (or_two (u / 256) (u % 256) (omega arith) ∙ omega arith)
unit_of-unit_bytes false u small =
    ap (λ n. (u / 256, n)) (two_or (u % 256) (u / 256) (omega arith) ∙ omega arith)

fread_unit_lem :
    (big : Bool) (u : ℕ) (rest : List ℕ)
    → u < 65536
    → fread_unit big (unit_bytes big u ++ rest) ≡ (some (u / 256, u), rest)
unfolding fread_unit fread
fread_unit_lem true u rest small =
    let room : leb 2 (suc (suc (length rest))) ≡ true = ground arith in
    rw room (ap (λ n. (some n, rest)) (unit_of-unit_bytes true u small))
fread_unit_lem false u rest small =
    let room : leb 2 (suc (suc (length rest))) ≡ true = ground arith in
    rw room (ap (λ n. (some n, rest)) (unit_of-unit_bytes false u small))

fetch_utf16_first :
    (big : Bool) (high c : ℕ) (file rest rest' : List ℕ) (code : ℕ)
    → fread_unit big file ≡ (some (high, c), rest)
    → finish_unit big c rest ≡ (code, rest')
    → fetch_utf16 big file ≡ (some (pos code), rest')
unfolding fetch_utf16 finish_first
fetch_utf16_first big high c file rest rest' code e e' =
    ap (λ r. finish_first big (r.0) (r.1)) e ∙ ap (λ r. (some (pos (r.0)), r.1)) e'

finish_unit_one :
    (big : Bool) (c : ℕ) (rest : List ℕ)
    → (leb 0xD800 c && ltb c 0xE000) ≡ false
    → finish_unit big c rest ≡ (c, rest)
unfolding finish_unit
finish_unit_one big c rest test = rw test refl

finish_unit_pair :
    (big : Bool) (c : ℕ) (file rest : List ℕ) (unit : Option (ℕ × ℕ))
    → (leb 0xD800 c && ltb c 0xE000) ≡ true
    → ltb c 0xDC00 ≡ true
    → fread_unit big file ≡ (unit, rest)
    → finish_unit big c file ≡ (join_pair c unit, rest)
unfolding finish_unit
finish_unit_pair big c file rest unit test test' e =
    rw (test, test') (ap (λ r. (join_pair c (r.0), r.1)) e)

fetch_utf16-one :
    (big : Bool) (c : ℕ) (rest : List ℕ)
    → (c < 0xD800) ⊎ ((0xE000 ≤ c) × (c < 0x10000))
    → fetch_utf16 big (unit_bytes big c ++ rest) ≡ (some (pos c), rest)
fetch_utf16-one big c rest (inl low) =
    fetch_utf16_first big (c / 256) c (unit_bytes big c ++ rest) rest rest c
      (fread_unit_lem big c rest (omega (arith, low)))
      (finish_unit_one big c rest (ground (arith, low)))
fetch_utf16-one big c rest (inr (high, small)) =
    fetch_utf16_first big (c / 256) c (unit_bytes big c ++ rest) rest rest c
      (fread_unit_lem big c rest (omega (arith, small)))
      (finish_unit_one big c rest (ground (arith, high)))

-- The high byte of a second surrogate.
second_byte_is : (k : ℕ) → k < 4 → (bit_and (0xDC + k) 0xFC == 0xDC) ≡ true
unfolding each_index
second_byte_is k below = each_index_at (λ j. bit_and (0xDC + j) 0xFC == 0xDC) k 4 below refl

join_pair_lem :
    (c : ℕ)
    → 0x10000 ≤ c
    → c ≤ 0x10FFFF
    → (u : ℕ) → u ≡ 0xDC00 + (c - 0x10000) % 1024
    → join_pair (0xD800 + (c - 0x10000) / 1024) (some (u / 256, u)) ≡ c
unfolding join_pair
join_pair_lem c least most u is =
    let k = (c - 0x10000) % 1024 / 256 in
    let high : u / 256 ≡ 0xDC + k = omega (arith, is) in
    let test : (bit_and (u / 256) 0xFC == 0xDC) ≡ true =
      ap (λ n. bit_and n 0xFC == 0xDC) high ∙ second_byte_is k (omega arith) in
    rw test (omega (arith, is, least, most))

fetch_utf16-pair :
    (big : Bool) (c : ℕ) (rest : List ℕ)
    → 0x10000 ≤ c
    → c ≤ 0x10FFFF
    → fetch_utf16 big (
        (unit_bytes big (0xD800 + (c - 0x10000) / 1024)
          ++ unit_bytes big (0xDC00 + (c - 0x10000) % 1024))
        ++ rest)
      ≡ (some (pos c), rest)
fetch_utf16-pair big c rest least most =
    let hi = 0xD800 + (c - 0x10000) / 1024 in
    let lo = 0xDC00 + (c - 0x10000) % 1024 in
    let file = unit_bytes big lo ++ rest in
    ap (fetch_utf16 big) (append_assoc (unit_bytes big hi) (unit_bytes big lo) rest)
    ∙ fetch_utf16_first big (hi / 256) hi (unit_bytes big hi ++ file) file rest c
        (fread_unit_lem big hi file (omega (arith, least, most)))
        (finish_unit_pair big hi file rest (some (lo / 256, lo)) (ground (arith, least, most))
            (ground (arith, least, most)) (fread_unit_lem big lo rest (omega arith))
          ∙ ap (λ n. (n, rest)) (join_pair_lem c least most lo refl))

fetch_utf32_lem :
    (big : Bool) (c : ℕ) (rest : List ℕ)
    → c ≤ 0x10FFFF
    → fetch_utf32 big (word_bytes big c ++ rest) ≡ (some (pos c), rest)
unfolding fetch_utf32 fread word_of to_int
fetch_utf32_lem true c rest most =
    let room : leb 4 (suc (suc (suc (suc (length rest))))) ≡ true = ground arith in
    let whole : bit_or
          (bit_or (bit_or (c / 16777216 * 16777216) (c / 65536 % 256 * 65536))
            (c / 256 % 256 * 256))
          (c % 256)
        ≡ c =
      or_four (c / 16777216) (c / 65536 % 256) (c / 256 % 256) (c % 256) (omega arith) (omega arith)
        (omega arith)
      ∙ omega arith in
    let test : ltb c (2 ^ 31) ≡ true = ground (arith, most) in rw (room, whole, test) refl
fetch_utf32_lem false c rest most =
    let room : leb 4 (suc (suc (suc (suc (length rest))))) ≡ true = ground arith in
    let whole : bit_or (bit_or (bit_or (c % 256) (c / 256 % 256 * 256)) (c / 65536 % 256 * 65536))
          (c / 16777216 * 16777216)
        ≡ c =
      four_or (c % 256) (c / 256 % 256) (c / 65536 % 256) (c / 16777216) (omega arith) (omega arith)
        (omega arith)
      ∙ omega arith in
    let test : ltb c (2 ^ 31) ≡ true = ground (arith, most) in rw (room, whole, test) refl

fetch_utf16_is :
    (big : Bool) (page file : List ℕ) → fetch (utf16 big) page file ≡ done (fetch_utf16 big file)
unfolding fetch
fetch_utf16_is true page file = refl
fetch_utf16_is false page file = refl

fetch_utf32_is :
    (big : Bool) (page file : List ℕ) → fetch (utf32 big) page file ≡ done (fetch_utf32 big file)
unfolding fetch
fetch_utf32_is true page file = refl
fetch_utf32_is false page file = refl

fetch_byte_lem :
    (look_up : ℕ → Outcome ℕ) (b c : ℕ) (rest : List ℕ)
    → look_up b ≡ done c
    → fetch_byte look_up (b ∷ rest) ≡ done (some (pos c), rest)
unfolding fetch_byte fread look_byte
fetch_byte_lem look_up b c rest e =
    let room : leb 1 (suc (length rest)) ≡ true = ground arith in rw (room, e) refl

fetch_latin :
    (page : List ℕ) (c : ℕ) (rest : List ℕ)
    → fetch latin page (c ∷ rest) ≡ done (some (pos c), rest)
unfolding fetch
fetch_latin page c rest = fetch_byte_lem (λ b. done b) c c rest refl

fetch_page :
    (number b c : ℕ) (page rest : List ℕ)
    → get_elem? page b ≡ some c
    → fetch (code_page number) page (b ∷ rest) ≡ done (some (pos c), rest)
unfolding fetch
fetch_page number b c page rest at = fetch_byte_lem (λ j. read page j) b c rest (rw at refl)

-- The next character of a file that begins with its bytes.
pub fetch-Encodes :
    (e : Encoding) (page : List ℕ) (c : ℕ) (bytes rest : List ℕ)
    → Encodes e page c bytes
    → fetch e page (bytes ++ rest) ≡ done (some (pos c), rest)
fetch-Encodes e page c bytes rest (one_unit big is range) =
    ap (λ k. fetch k page (unit_bytes big c ++ rest)) is
    ∙ fetch_utf16_is big page (unit_bytes big c ++ rest)
    ∙ ap (λ r. done r) (fetch_utf16-one big c rest range)
fetch-Encodes e page c bytes rest (pair big is least most) =
    ap (λ k. fetch k page (bytes ++ rest)) is
    ∙ fetch_utf16_is big page (bytes ++ rest)
    ∙ ap (λ r. done r) (fetch_utf16-pair big c rest least most)
fetch-Encodes e page c bytes rest (word big is most) =
    ap (λ k. fetch k page (word_bytes big c ++ rest)) is
    ∙ fetch_utf32_is big page (word_bytes big c ++ rest)
    ∙ ap (λ r. done r) (fetch_utf32_lem big c rest most)
fetch-Encodes e page c bytes rest (in_latin is small) =
    ap (λ k. fetch k page (c ∷ rest)) is ∙ fetch_latin page c rest
fetch-Encodes e page c bytes rest (in_page number b is at most) =
    ap (λ k. fetch k page (b ∷ rest)) is ∙ fetch_page number b c page rest at
