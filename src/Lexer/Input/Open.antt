-- ===== src/Lexer/Input/Open.antt =====
-- `input_new_from_file_and_encoding` and `input_file_init` of src/lexer/input.c: the byte order mark
-- at the start of a file decides the encoding, and bytes that are no mark stay in `utf8_`.
use neoast.Common.{
  ℕ, ◌+◌, ◌-◌, ◌*◌, ◌^◌, List, [], ◌++◌, length, take, drop, get_or, replicate, ltb, leb, ◌==◌,
}
use neoast.Common.{
  if◌then◌else◌, Option, none, some, Bool, true, false, ◌&&◌, ◌||◌, bit_or, pos, not,
}
use neoast.Lexer.Utf8.{utf8}
use neoast.Lexer.Input.Fetch.{plain, utf_8, utf16be, utf16le, utf32be, utf32le, fread, finish_unit}
use neoast.Lexer.Input.{FileHandle, normalize}

-- `fread(utf8_ + at, k, 1, file_)`: whether the bytes were there, and the handle.
unfoldable pub store_read : ℕ → Option (List ℕ) → List ℕ → FileHandle → Bool × FileHandle
store_read at none rest h = (false, record h { file = rest })
store_read at (some bytes) rest h = (
  true,
  record h {
    file = rest;
    utf8_buf = take at h.utf8_buf ++ (bytes ++ drop (at + length bytes) h.utf8_buf);
  },
)

unfoldable pub fread_into : ℕ → ℕ → FileHandle → Bool × FileHandle
fread_into at k h = let (got, rest) = fread k h.file in store_read at got rest h

abbrev pub cell : FileHandle → ℕ → ℕ
cell h i = get_or h.utf8_buf i 0

-- After 00 00.
unfoldable pub mark_utf32be : FileHandle → FileHandle
mark_utf32be h =
    let (ok, h₁) = fread_into 2 2 h in
    if not ok
    then h₁
    else if cell h₁ 2 == 0xfe && cell h₁ 3 == 0xff
    then record h₁ { size = 0; ulen = 0; encoding = utf32be }
    else record h₁ { ulen = 4 }

-- After FF FE, the first unit. The second half of a pair is read into `utf8_`, where `utf8` then
-- writes four bytes or five over it.
unfoldable pub first_unit : ℕ → FileHandle → FileHandle
first_unit c h =
    if ltb c 0x80
    then record h { uidx = 2; ulen = 1 }
    else (let (code, rest) = finish_unit false c h.file in
        let bytes = utf8 (pos code) in
        record h { file = rest; utf8_buf = normalize h.utf8_buf bytes; ulen = length bytes })

unfoldable pub mark_le : FileHandle → FileHandle
mark_le h =
    let (ok, h₁) = fread_into 2 2 h in
    if not ok
    then h₁
    else if cell h₁ 2 == 0 && cell h₁ 3 == 0
    then record h₁ { size = 0; ulen = 0; encoding = utf32le }
    else record (first_unit (bit_or (cell h₁ 2) (cell h₁ 3 * 2 ^ 8)) (record h₁ { size = 0 })) {
      encoding = utf16le;
    }

-- After EF BB.
unfoldable pub mark_utf8 : FileHandle → FileHandle
mark_utf8 h =
    let (ok, h₁) = fread_into 2 1 h in
    if not ok
    then h₁
    else if cell h₁ 2 == 0xbf
    then record h₁ {
      size = if leb 3 h₁.size then h₁.size - 3 else h₁.size;
      ulen = 0;
      encoding = utf_8;
    }
    else record h₁ { ulen = 3 }

unfoldable pub second_byte : FileHandle → FileHandle
second_byte h =
    if cell h 0 == 0 && cell h 1 == 0
    then mark_utf32be h
    else if cell h 0 == 0xfe && cell h 1 == 0xff
    then record h { size = 0; ulen = 0; encoding = utf16be }
    else if cell h 0 == 0xff && cell h 1 == 0xfe
    then mark_le h
    else if cell h 0 == 0xef && cell h 1 == 0xbb
    then mark_utf8 h
    else h

-- The first bytes that a mark can have.
abbrev pub may_mark : ℕ → Bool
may_mark b = b == 0 || b == 0xef || b == 0xfe || b == 0xff

unfoldable pub first_byte : FileHandle → FileHandle
first_byte h =
    if may_mark (cell h 0)
    then (let (ok, h₁) = fread_into 1 1 h in
        if ok then second_byte (record h₁ { ulen = 2 }) else h₁)
    else h

-- `input_file_init`; the size is set if `fstat` gives that of a regular file.
unfoldable pub file_init : Option ℕ → FileHandle → FileHandle
file_init st_size h =
    let size : ℕ = elim st_size [ none ↦ h.size | some size ↦ size ] in
    let (ok, h₁) = fread_into 0 1 (record h { size = size; encoding = plain }) in
    if ok then first_byte (record h₁ { ulen = 1 }) else h₁

-- `input_new_from_file_and_encoding`; `garbage` is what `malloc` left in `size_`. The encoding that
-- the caller names has no effect.
unfoldable pub new_from_file : List ℕ → Option ℕ → ℕ → FileHandle
new_from_file file st_size garbage = file_init st_size (record {
  file = file;
  encoding = plain;
  size = garbage;
  utf8_buf = replicate 8 0;
  uidx = 0;
  ulen = 0;
  page = [];
})
