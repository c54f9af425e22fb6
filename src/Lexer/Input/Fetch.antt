-- ===== src/Lexer/Input/Fetch.antt =====
-- How `file_get` of src/lexer/input.c reads the next character of each encoding.
use mathlib.Core.Option
use neoast.Common.{ℕ, ◌+◌, ◌-◌, ◌*◌, ◌%◌, ◌^◌, List, [], length, take, drop, ltb, leb, ◌==◌, get_or}
use neoast.Common.{
  if◌then◌else◌, ℤ, pos, negsuc, to_u32, Outcome, done, ◌>>=◌, read, Option, none, some, Bool,
}
use neoast.Common.{true, false, ◌&&◌, bit_and, bit_or}

-- `file_encoding_type_t`. The code pages, `ENCODING_cp437` to `ENCODING_custom`, go by their number.
pub data Encoding : Type 0 where
  plain utf_8 utf16be utf16le utf32be utf32le latin : Encoding
  code_page : ℕ → Encoding

-- `REFLEX_NONCHAR`.
abbrev pub nonchar_code : ℕ
nonchar_code = 0x200000

-- `fread(buf, k, 1, file)`: a whole element, or none; a part of one at the end of the file is gone.
unfoldable pub fread : ℕ → List ℕ → Option (List ℕ) × List ℕ
fread k file = if leb k (length file) then (some (take k file), drop k file) else (none, [])

-- `c < 0x80` of an `int`, and `(char) c`.
unfoldable pub is_ascii : ℤ → Bool
is_ascii (negsuc n) = true
is_ascii (pos c) = ltb c 0x80

unfoldable pub low_byte : ℤ → ℕ
low_byte c = to_u32 c % 2 ^ 8

-- The second half of a surrogate pair, of which `high` and `whole` are the first byte and the unit.
unfoldable pub join_pair : ℕ → Option (ℕ × ℕ) → ℕ
join_pair c none = nonchar_code
join_pair c (some (high, whole)) =
    if bit_and high 0xFC == 0xDC
    then 0x010000 - 0xDC00 + (c - 0xD800) * 2 ^ 10 + whole
    else nonchar_code

-- A 16-bit unit from its bytes: the high byte, and the unit.
unfoldable pub unit_of : Bool → List ℕ → ℕ × ℕ
unit_of big bytes =
    let a = get_or bytes 0 0 in
    let b = get_or bytes 1 0 in if big then (a, bit_or (a * 2 ^ 8) b) else (b, bit_or a (b * 2 ^ 8))

unfoldable pub fread_unit : Bool → List ℕ → Option (ℕ × ℕ) × List ℕ
unfolding fread unit_of
fread_unit big file = let (got, rest) = fread 2 file in (Option.map (unit_of big) got, rest)

-- A first unit that is half of a pair reads the second, if it is the first half.
unfoldable pub finish_unit : Bool → ℕ → List ℕ → ℕ × List ℕ
unfolding fread_unit join_pair
finish_unit big c file =
    if leb 0xD800 c && ltb c 0xE000
    then if ltb c 0xDC00
      then (let (unit, rest) = fread_unit big file in (join_pair c unit, rest))
      else (nonchar_code, file)
    else (c, file)

unfoldable pub finish_first : Bool → Option (ℕ × ℕ) → List ℕ → Option ℤ × List ℕ
unfolding finish_unit
finish_first big none rest = (none, rest)
finish_first big (some (high, c)) rest =
    let (code, after) = finish_unit big c rest in (some (pos code), after)

unfoldable pub fetch_utf16 : Bool → List ℕ → Option ℤ × List ℕ
unfolding fread_unit finish_first
fetch_utf16 big file = let (got, rest) = fread_unit big file in finish_first big got rest

-- 32 bits as an `int`.
unfoldable pub to_int : ℕ → ℤ
to_int u = if ltb u (2 ^ 31) then pos u else negsuc (2 ^ 32 - 1 - u)

unfoldable pub word_of : Bool → List ℕ → ℕ
word_of big bytes =
    let a = get_or bytes 0 0 in
    let b = get_or bytes 1 0 in
    let c = get_or bytes 2 0 in
    let d = get_or bytes 3 0 in
    if big
    then bit_or (bit_or (bit_or (a * 2 ^ 24) (b * 2 ^ 16)) (c * 2 ^ 8)) d
    else bit_or (bit_or (bit_or a (b * 2 ^ 8)) (c * 2 ^ 16)) (d * 2 ^ 24)

unfoldable pub fetch_utf32 : Bool → List ℕ → Option ℤ × List ℕ
unfolding fread to_int word_of
fetch_utf32 big file =
    let (got, rest) = fread 4 file in (Option.map (λ bytes. to_int (word_of big bytes)) got, rest)

-- A byte, looked up in the page if there is one.
unfoldable pub look_byte : (ℕ → Outcome ℕ) → Option (List ℕ) → List ℕ → Outcome (Option ℤ × List ℕ)
look_byte look_up none rest = done (none, rest)
look_byte look_up (some bytes) rest = look_up (get_or bytes 0 0) >>= λ c. done (some (pos c), rest)

unfoldable pub fetch_byte : (ℕ → Outcome ℕ) → List ℕ → Outcome (Option ℤ × List ℕ)
unfolding fread look_byte
fetch_byte look_up file = let (got, rest) = fread 1 file in look_byte look_up got rest

-- The next character of the file. `plain` and `utf_8` are copied, not read by characters.
unfoldable pub fetch : Encoding → List ℕ → List ℕ → Outcome (Option ℤ × List ℕ)
unfolding fetch_utf16 fetch_utf32 fetch_byte
fetch plain page file = done (none, file)
fetch utf_8 page file = done (none, file)
fetch utf16be page file = done (fetch_utf16 true file)
fetch utf16le page file = done (fetch_utf16 false file)
fetch utf32be page file = done (fetch_utf32 true file)
fetch utf32le page file = done (fetch_utf32 false file)
fetch latin page file = fetch_byte (λ b. done b) file
fetch (code_page number) page file = fetch_byte (λ b. read page b) file
