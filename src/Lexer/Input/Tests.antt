-- ===== src/Lexer/Input/Tests.antt =====
-- Files read in parts, with and without an encoding to undo.
use neoast.Common.{ℕ, List, ◌≡◌, refl, [], ◌∷◌, replicate, pos, done, some, none, inl, arith}
use neoast.Lexer.Input.Fetch.{
  plain, latin, utf16be, fetch, fetch_byte, look_byte, fread, fetch_utf16, finish_first,
  finish_unit,
}
use neoast.Lexer.Input.Fetch.{fread_unit, unit_of, join_pair}
use neoast.Lexer.Input.{FileHandle, file_get, put_bytes}
use neoast.Lexer.Utf8.{utf8, lead_bytes, head_bytes}
use neoast.Lexer.Input.Open.{
  new_from_file, file_init, first_byte, second_byte, mark_utf32be, mark_le, first_unit, fread_into,
  store_read,
}
use neoast.Lexer.Input.Opened.{marked, other_utf8, file_get-new_from_file}
use neoast.Lexer.Input.Get.{BufferHandle, buffer, sum, get_chunks, contents, get_chunks-buffer}
use neoast.Lexer.Input.Laws.{held, pending, file_get-IsPlain, IsPlain}
use neoast.Common.{length, false}
use neoast.Lexer.Input.Fetch.{utf16le}
use neoast.Lexer.Input.Encoded.{Encodes, one_unit}
use neoast.Lexer.Input.Decoded.{IsEncoded, then_char, nothing as no_more, Decodes, file_get-Decodes}
use neoast.Lexer.Input.Text.{Characters, ends, more, put_bytes-stale}

-- The first byte of a plain file is held after it has been tested for a mark.
abbrev opened : FileHandle
opened = record {
  file = 0x62 ∷ 0x63 ∷ 0x64 ∷ [];
  encoding = plain;
  size = 4;
  utf8_buf = 0x61 ∷ replicate 7 0;
  uidx = 0;
  ulen = 1;
  page = [];
}

file_get-IsPlain_example :
    (h' : FileHandle) × (file_get opened 2 ≡ done (0x61 ∷ 0x62 ∷ [], h'))
    × (pending h' ≡ 0x63 ∷ 0x64 ∷ [])
    × IsPlain h'
file_get-IsPlain_example =
    file_get-IsPlain opened 2
      (record { copied = inl refl; within = omega arith; small = omega arith })

abbrev in_latin : FileHandle
in_latin = record opened { file = 0x41 ∷ 0xE9 ∷ []; encoding = latin; ulen = 0 }

latin-Characters : Characters latin [] (0x41 ∷ 0xE9 ∷ []) (pos 0x41 ∷ pos 0xE9 ∷ [])
unfolding fetch fetch_byte look_byte fread
latin-Characters = more refl (more refl (ends refl))

-- The two bytes of é with room for one: 0xA9 is missing, and a 0 is held behind it.
put_bytes-stale_example : held ((put_bytes (0xC3 ∷ 0xA9 ∷ []) 1 in_latin).2) ≡ 0xA9 ∷ 0 ∷ []
put_bytes-stale_example = put_bytes-stale (0xC3 ∷ 0xA9 ∷ []) 1 in_latin (omega arith) (omega arith)

-- A surrogate pair of UTF-16.
pair :
    fetch utf16be [] (0xD8 ∷ 0x3D ∷ 0xDE ∷ 0x00 ∷ 0x41 ∷ []) ≡ done (some (pos 0x1F600), 0x41 ∷ [])
unfolding fetch fetch_utf16 finish_first finish_unit fread_unit fread unit_of join_pair
pair = refl

file_get-new_from_file_example :
    (h' : FileHandle) × (file_get
        (new_from_file (0xef ∷ 0xbb ∷ 0xbf ∷ 0x61 ∷ 0x62 ∷ []) (some 5) 0)
        1
      ≡ done (0x61 ∷ [], h'))
    × (pending h' ≡ 0x62 ∷ [])
    × IsPlain h'
file_get-new_from_file_example =
    file_get-new_from_file (some 5) 0 (0xef ∷ 0xbb ∷ 0xbf ∷ 0x61 ∷ 0x62 ∷ []) (0x61 ∷ 0x62 ∷ []) 1
      (marked (0x61 ∷ 0x62 ∷ []))

-- The mark of UTF-16, least significant byte first: the first unit is in `utf8_` already.
first_of_utf16 :
    held (new_from_file (0xff ∷ 0xfe ∷ 0xac ∷ 0x20 ∷ 0x41 ∷ 0 ∷ []) none 0)
    ≡ 0xe2 ∷ 0x82 ∷ 0xac ∷ []
unfolding new_from_file file_init first_byte second_byte mark_le first_unit fread_into store_read
    fread finish_unit utf8 lead_bytes head_bytes
first_of_utf16 = refl

abbrev abc : BufferHandle
abc = record { cstring = 0x61 ∷ 0x62 ∷ 0x63 ∷ 0 ∷ []; size = 3 }

abbrev nothing : ℕ → ℕ → List ℕ × ℕ
nothing e n = ([], e)

get_chunks-buffer_example :
    (b' : BufferHandle) × (get_chunks nothing (buffer abc) (1 ∷ 4 ∷ [])
      ≡ done (0x61 ∷ 0x62 ∷ 0x63 ∷ [], buffer b'))
    × (contents nothing b' ≡ [])
unfolding sum
get_chunks-buffer_example = get_chunks-buffer nothing abc (1 ∷ 4 ∷ []) (omega arith)

-- Behind two zeros a single byte is read, and lost.
lost_byte : pending (new_from_file (0 ∷ 0 ∷ 0x61 ∷ []) none 0) ≡ 0 ∷ 0 ∷ []
unfolding new_from_file file_init first_byte second_byte mark_utf32be fread_into store_read fread
lost_byte = refl

-- The first two bytes of the mark of UTF-8 alone are no mark.
cut_mark :
    (h' : FileHandle) × (file_get (new_from_file (0xef ∷ 0xbb ∷ 0x41 ∷ []) (some 3) 0) 5
      ≡ done (0xef ∷ 0xbb ∷ 0x41 ∷ [], h'))
    × (pending h' ≡ [])
    × IsPlain h'
cut_mark =
    file_get-new_from_file (some 3) 0 (0xef ∷ 0xbb ∷ 0x41 ∷ []) (0xef ∷ 0xbb ∷ 0x41 ∷ []) 5
      (other_utf8 0x41 [] refl)

-- A smile, which is a pair of surrogates, and an A, in UTF-16 with the least significant byte first.
abbrev in_utf16 : FileHandle
in_utf16 = record opened {
  file = 0x3D ∷ 0xD8 ∷ 0x00 ∷ 0xDE ∷ 0x41 ∷ 0x00 ∷ [];
  encoding = utf16le;
  ulen = 0;
}

in_utf16-IsEncoded :
    IsEncoded utf16le [] (0x3D ∷ 0xD8 ∷ 0x00 ∷ 0xDE ∷ 0x41 ∷ 0x00 ∷ []) (0x1F600 ∷ 0x41 ∷ [])
in_utf16-IsEncoded =
    then_char (Encodes.pair false refl (omega arith) (omega arith))
      (then_char (one_unit false refl (inl (omega arith))) no_more)

file_get-Decodes_example :
    (out : List ℕ) × (h' : FileHandle) × (file_get in_utf16 5 ≡ done (out, h'))
    × (length out ≡ 5)
    × Decodes out (0x1F600 ∷ 0x41 ∷ [])
file_get-Decodes_example =
    file_get-Decodes in_utf16 5 (0x1F600 ∷ 0x41 ∷ []) (λ e. cc) (λ e. cc) refl in_utf16-IsEncoded
      (omega arith)
