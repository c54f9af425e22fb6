-- ===== src/Lexer/Input.antt =====
-- `struct FileHandle` and `file_get` of src/lexer/input.c. A file is the list of its bytes that are
-- still to be read, and what `file_get` writes is the list of the bytes.
pub mod Fetch
pub mod Laws
pub mod Text
pub mod Encoded
pub mod Decoded
pub mod Open
pub mod Opened
pub mod Get
mod Tests
use neoast.Common.{
  ℕ, zero, suc, ◌+◌, ◌-◌, ◌%◌, ◌^◌, List, [], ◌∷◌, ◌++◌, length, take, drop, ltb, leb, ◌==◌,
}
use neoast.Common.{
  if◌then◌else◌, ℤ, pos, to_u32, Outcome, done, fault, bounds, ◌>>=◌, Option, none, some, Bool,
  true,
}
use neoast.Lexer.Utf8.{utf8}
use neoast.Lexer.Input.Fetch.{
  Encoding, plain, utf_8, utf16be, utf16le, utf32be, utf32le, latin, code_page,
}
use neoast.Lexer.Input.Fetch.{fread, fetch, is_ascii, low_byte}

-- `size` is the field `size_`, and so on; `page` is the array behind `page_`.
pub record FileHandle : Type 0 where
  pub file : List ℕ
  pub encoding : Encoding
  pub size : ℕ
  pub utf8_buf : List ℕ
  pub uidx : ℕ
  pub ulen : ℕ
  pub page : List ℕ

-- `if (size_ + s >= t) size_ -= t - s`, for so many bytes written.
unfoldable pub count_down : ℕ → ℕ → ℕ
count_down written size = if leb written size then size - written else size

-- `k` bytes of `utf8_` from index `i` on.
unfoldable pub slice : List ℕ → ℕ → ℕ → Outcome (List ℕ)
slice cells i k = if leb (i + k) (length cells) then done (take k (drop i cells)) else fault bounds

-- The bytes of `utf8` at the start of `utf8_`.
abbrev pub normalize : List ℕ → List ℕ → List ℕ
normalize cells bytes = bytes ++ drop (length bytes) cells

-- One character with room for `n` bytes: the bytes written, the room left, and the handle. What does
-- not fit stays in `utf8_`.
unfoldable pub put_bytes : List ℕ → ℕ → FileHandle → List ℕ × ℕ × FileHandle
put_bytes bytes n h =
    if ltb n (length bytes)
    then (
      take n bytes,
      0,
      record h { utf8_buf = normalize h.utf8_buf bytes; uidx = n; ulen = length bytes },
    )
    else (bytes, n - length bytes, record h { utf8_buf = normalize h.utf8_buf bytes })

unfoldable pub put : ℤ → ℕ → FileHandle → List ℕ × ℕ × FileHandle
unfolding put_bytes
put c n h = if is_ascii c then (low_byte c ∷ [], n - 1, h) else put_bytes (utf8 c) n h

-- `while (n > 0 && fread(...) == 1)`, with the iterations left: each writes a byte at least.
unfoldable pub put_all : ℕ → ℕ → FileHandle → Outcome (List ℕ × FileHandle)
put_all zero n h = done ([], h)
put_all (suc left) zero h = done ([], h)
put_all (suc left) (suc n) h = fetch h.encoding h.page h.file >>= λ got. elim (got.0) [
  | none ↦ done ([], record h { file = got.1 })
  | some c ↦
      let (bytes, room, h') = put c (suc n) (record h { file = got.1 }) in
      put_all left room h' >>= λ next. done (bytes ++ next.0, next.1)
]

-- `t += fread(t, 1, n, file_)`.
unfoldable pub copy_plain : ℕ → FileHandle → List ℕ × FileHandle
copy_plain n h = (take n h.file, record h { file = drop n h.file })

-- The switch on the encoding.
unfoldable pub read_by : Encoding → ℕ → FileHandle → Outcome (List ℕ × FileHandle)
unfolding copy_plain put_all
read_by plain n h = done (copy_plain n h)
read_by utf_8 n h = done (copy_plain n h)
read_by utf16be n h = put_all n n h
read_by utf16le n h = put_all n n h
read_by utf32be n h = put_all n n h
read_by utf32le n h = put_all n n h
read_by latin n h = put_all n n h
read_by (code_page number) n h = put_all n n h

-- The switch, and the count of the bytes that were flushed before it with those that it wrote.
unfoldable pub get_rest : List ℕ → ℕ → FileHandle → Outcome (List ℕ × FileHandle)
unfolding read_by
get_rest flushed n h = read_by h.encoding n h >>= λ got. done (
  flushed ++ got.0,
  record (got.1) { size = count_down (length flushed + length got.0) (got.1.size) },
)

-- What is left in `utf8_` goes first. If it fills the request, that is all.
unfoldable pub flush : ℕ → FileHandle → Outcome (List ℕ × FileHandle)
flush n h =
    let k = if ltb n h.ulen then n else h.ulen in
    slice h.utf8_buf h.uidx k >>= λ flushed.
    if n - k == 0
    then done (
      flushed,
      record h { uidx = (h.uidx + k) % 2 ^ 16; ulen = h.ulen - k; size = count_down k h.size },
    )
    else get_rest flushed (n - k) (record h { uidx = (h.uidx + k) % 2 ^ 16; ulen = 0 })

unfoldable pub file_get : FileHandle → ℕ → Outcome (List ℕ × FileHandle)
unfolding flush
file_get h n = if ltb 0 h.ulen then flush n h else get_rest [] n h
