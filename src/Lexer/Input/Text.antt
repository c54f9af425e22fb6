-- ===== src/Lexer/Input/Text.antt =====
-- `file_get` on a file whose characters are decoded and written in UTF-8.
use neoast.Common.{
  ℕ, zero, suc, ◌+◌, ◌-◌, ◌≤◌, ◌<◌, ◌≡◌, refl, List, [], ◌∷◌, ◌++◌, length, take, drop, ltb, arith,
}
use neoast.Common.{◌≢◌, done, ap, ◌∙◌, inl, inr, ◌%◌, ◌^◌, ℤ, pos, negsuc}
use neoast.Common.{
  take-append_ge, drop-append_le, length-append, length-drop, none, some, Bool-cases, true, ltb→lt,
}
use neoast.Lexer.Utf8.{utf8, tail_byte, lead_bytes}
use neoast.Lexer.Input.Fetch.{
  Encoding, plain, utf_8, utf16be, utf16le, utf32be, utf32le, latin, code_page, fetch, is_ascii,
  low_byte,
}
use neoast.Lexer.Input.{
  FileHandle, put_bytes, put, put_all, normalize, read_by, get_rest, file_get, count_down,
}
use neoast.Lexer.Input.Laws.{held, file_get-none}

-- The characters of a file, up to where the next one cannot be read.
pub data Characters (e : Encoding) (page : List ℕ) : List ℕ → List ℤ → Type 0 where
  ends : {file rest : List ℕ} → fetch e page file ≡ done (none, rest) → Characters e page file []
  more :
      {file rest : List ℕ} {c : ℤ} {cs : List ℤ}
      → fetch e page file ≡ done (some c, rest)
      → Characters e page rest cs
      → Characters e page file (c ∷ cs)

unfoldable pub text : List ℤ → List ℕ
text [] = []
text (c ∷ cs) = utf8 c ++ text cs

utf8-ascii : (c : ℤ) → is_ascii c ≡ true → utf8 c ≡ low_byte c ∷ []
unfolding utf8 is_ascii low_byte
utf8-ascii (negsuc n) h = refl
utf8-ascii (pos c) h =
    let kept : c ≡ c % 2 ^ 32 % 2 ^ 8 = omega (arith, ltb→lt c 0x80 h) in
    rw h (ap (λ b. b ∷ []) kept)

utf8-some : (c : ℤ) → 0 < length (utf8 c)
unfolding utf8
utf8-some (negsuc n) = omega arith
utf8-some (pos c) = elim (Bool-cases (ltb c 0x80)) [
  | inl one ↦ rw one (omega arith)
  | inr wide ↦ elim (Bool-cases (ltb 0x10FFFF c)) [
    | inl large ↦ rw (wide, large) (omega arith)
    | inr small ↦ rw (wide, small) (omega (arith, length-append (lead_bytes c) (tail_byte c ∷ [])))
  ]
]

put-fits :
    (c : ℤ) (n : ℕ) (h : FileHandle)
    → length (utf8 c) ≤ n
    → (cells : List ℕ) × (put c n h ≡ (utf8 c, n - length (utf8 c), record h { utf8_buf = cells }))
unfolding put put_bytes
put-fits c n h fits = elim (Bool-cases (is_ascii c)) [
  | inl ascii ↦ (h.utf8_buf, rw (ascii, utf8-ascii c ascii) refl)
  | inr wide ↦ (normalize h.utf8_buf (utf8 c), rw wide (ground arith))
]

put_all_lem :
    (left n : ℕ) (h : FileHandle) (cs : List ℤ)
    → n ≤ left
    → Characters h.encoding h.page h.file cs
    → length (text cs) ≤ n
    → (h' : FileHandle) × (put_all left n h ≡ done (text cs, h'))
unfolding put_all text
put_all_lem zero n h [] within at fits = (h, refl)
put_all_lem zero n h (c ∷ cs) within at fits =
    absurd (omega (arith, length-append (utf8 c) (text cs), utf8-some c))
put_all_lem (suc left) zero h [] within at fits = (h, refl)
put_all_lem (suc left) zero h (c ∷ cs) within at fits =
    absurd (omega (arith, length-append (utf8 c) (text cs), utf8-some c))
put_all_lem (suc left) (suc n) h [] within (ends {rest} e) fits =
    (record h { file = rest }, rw e refl)
put_all_lem (suc left) (suc n) h (c ∷ cs) within (more {rest} e at) fits =
    let shape = length-append (utf8 c) (text cs) in
    let (cells, put_c) =
      put-fits c (suc n) (record h { file = rest }) (omega (arith, shape, fits)) in
    let (h', e') =
      put_all_lem left (suc n - length (utf8 c)) (record h { file = rest; utf8_buf = cells }) cs
        (omega (arith, utf8-some c, within)) at (omega (arith, shape, fits)) in
    (h', rw (e, put_c, e') refl)

read_by-decoded :
    (e : Encoding) (n : ℕ) (h : FileHandle) → e ≢ plain → e ≢ utf_8 → read_by e n h ≡ put_all n n h
unfolding read_by
read_by-decoded plain n h not_plain not_utf_8 = absurd (not_plain refl)
read_by-decoded utf_8 n h not_plain not_utf_8 = absurd (not_utf_8 refl)
read_by-decoded utf16be n h not_plain not_utf_8 = refl
read_by-decoded utf16le n h not_plain not_utf_8 = refl
read_by-decoded utf32be n h not_plain not_utf_8 = refl
read_by-decoded utf32le n h not_plain not_utf_8 = refl
read_by-decoded latin n h not_plain not_utf_8 = refl
read_by-decoded (code_page number) n h not_plain not_utf_8 = refl

get_rest-decoded :
    (h : FileHandle) (n : ℕ) (cs : List ℤ)
    → h.encoding ≢ plain
    → h.encoding ≢ utf_8
    → Characters h.encoding h.page h.file cs
    → length (text cs) ≤ n
    → (h' : FileHandle) × (get_rest [] n h ≡ done (text cs, h'))
unfolding get_rest
get_rest-decoded h n cs not_plain not_utf_8 at fits =
    let (h₁, e) = put_all_lem n n h cs (omega arith) at fits in
    (
      record h₁ { size = count_down (0 + length (text cs)) h₁.size },
      rw (read_by-decoded h.encoding n h not_plain not_utf_8, e) refl,
    )

-- A request that has room for all the text of a file with an encoding to undo, and nothing held
-- before it, delivers the UTF-8 of each of its characters, in order.
pub file_get-text :
    (h : FileHandle) (n : ℕ) (cs : List ℤ)
    → h.encoding ≢ plain
    → h.encoding ≢ utf_8
    → h.ulen ≡ 0
    → Characters h.encoding h.page h.file cs
    → length (text cs) ≤ n
    → (h' : FileHandle) × (file_get h n ≡ done (text cs, h'))
file_get-text h n cs not_plain not_utf_8 none_held at fits =
    let (h', e) = get_rest-decoded h n cs not_plain not_utf_8 at fits in
    (h', file_get-none h n none_held ∙ e)

-- A character that does not fit: after the bytes that were written `utf8_` counts as held not only
-- those that are missing, but behind them as many more as were written, which are no part of it.
pub put_bytes-stale :
    (bytes : List ℕ) (n : ℕ) (h : FileHandle)
    → n < length bytes
    → length bytes ≤ length h.utf8_buf
    → held ((put_bytes bytes n h).2) ≡ drop n bytes ++ take n (drop (length bytes) h.utf8_buf)
unfolding put_bytes
put_bytes-stale bytes n h short room =
    let after = drop (length bytes) h.utf8_buf in
    let kept : length (drop n bytes) ≤ length bytes = omega (arith, length-drop n bytes) in
    let rest : length bytes - length (drop n bytes) ≡ n =
      omega (arith, length-drop n bytes, short) in
    let cut : ltb n (length bytes) ≡ true = ground arith in
    rw cut (
      ap (λ t. take (length bytes) t) (drop-append_le n bytes after (omega arith))
      ∙ take-append_ge (length bytes) (drop n bytes) after kept
      ∙ ap (λ k. drop n bytes ++ take k after) rest)
