-- ===== src/Lexer/Input/Opened.antt =====
-- What a file has to deliver after it was opened.
use neoast.Common.{
  ℕ, ◌+◌, ◌≡◌, refl, List, [], ◌∷◌, ◌++◌, arith, Option, true, false, inl, inr, leb, suc, length,
  Bool, ◌==◌, ◌&&◌, ◌||◌,
}
use neoast.Common.{some, none, ◌-◌, if◌then◌else◌, ap, ◌∙◌, done, take, drop}
use neoast.Lexer.Input.Fetch.{plain, utf_8, utf16be, fread}
use neoast.Lexer.Input.{FileHandle, file_get}
use neoast.Lexer.Input.Open.{
  mark_utf32be, mark_le, cell, may_mark, fread_into, store_read, mark_utf8, second_byte, first_byte,
  file_init, new_from_file,
}
use neoast.Lexer.Input.Laws.{pending, IsPlain, file_get-IsPlain}

-- The first two bytes of a mark.
abbrev pub starts_mark : ℕ → ℕ → Bool
starts_mark b c =
    (b == 0 && c == 0)
    || ((b == 0xfe && c == 0xff) || ((b == 0xff && c == 0xfe) || (b == 0xef && c == 0xbb)))

-- A file that does not begin with the mark of UTF-16 or UTF-32, and what it has to deliver: without the
-- mark of UTF-8 all of it. The mark of UTF-8, EF BB BF, goes. Of files without a mark only those of the
-- three bytes 00 00 x are missing.
pub data Delivers : List ℕ → List ℕ → Type 0 where
  empty : Delivers [] []
  unmarked : (b : ℕ) (rest : List ℕ) → may_mark b ≡ false → Delivers (b ∷ rest) (b ∷ rest)
  one_byte : (b : ℕ) → may_mark b ≡ true → Delivers (b ∷ []) (b ∷ [])
  other_second :
      (b c : ℕ) (rest : List ℕ)
      → may_mark b ≡ true
      → starts_mark b c ≡ false
      → Delivers (b ∷ c ∷ rest) (b ∷ c ∷ rest)
  two_zeros : Delivers (0 ∷ 0 ∷ []) (0 ∷ 0 ∷ [])
  other_utf32 :
      (c d : ℕ) (rest : List ℕ)
      → (c == 0xfe && d == 0xff) ≡ false
      → Delivers (0 ∷ 0 ∷ c ∷ d ∷ rest) (0 ∷ 0 ∷ c ∷ d ∷ rest)
  cut_utf8 : Delivers (0xef ∷ 0xbb ∷ []) (0xef ∷ 0xbb ∷ [])
  other_utf8 :
      (c : ℕ) (rest : List ℕ)
      → (c == 0xbf) ≡ false
      → Delivers (0xef ∷ 0xbb ∷ c ∷ rest) (0xef ∷ 0xbb ∷ c ∷ rest)
  marked : (rest : List ℕ) → Delivers (0xef ∷ 0xbb ∷ 0xbf ∷ rest) rest

fread-one : (b : ℕ) (rest : List ℕ) → fread 1 (b ∷ rest) ≡ (some (b ∷ []), rest)
unfolding fread
fread-one b rest = ground arith

-- The handle of a file of which one byte is held, or none.
abbrev handle : ℕ → ℕ → List ℕ → List ℕ → FileHandle
handle size ulen cells file = record {
  file = file;
  encoding = plain;
  size = size;
  utf8_buf = cells;
  uidx = 0;
  ulen = ulen;
  page = [];
}

fread_into_one :
    (at b size ulen : ℕ) (cells rest : List ℕ)
    → fread_into at 1 (handle size ulen cells (b ∷ rest))
      ≡ (true, handle size ulen (take at cells ++ b ∷ drop (at + 1) cells) rest)
unfolding fread_into store_read
fread_into_one at b size ulen cells rest = rw (fread-one b rest) refl

fread_into_none :
    (at k size ulen : ℕ) (cells : List ℕ)
    → fread_into at (suc k) (handle size ulen cells []) ≡ (false, handle size ulen cells [])
unfolding fread_into store_read fread
fread_into_none at k size ulen cells =
    let test : leb (suc k) 0 ≡ false = ground arith in rw test refl

fread_into_two :
    (at b c size ulen : ℕ) (cells rest : List ℕ)
    → fread_into at 2 (handle size ulen cells (b ∷ c ∷ rest))
      ≡ (true, handle size ulen (take at cells ++ b ∷ c ∷ drop (at + 2) cells) rest)
unfolding fread_into store_read fread
fread_into_two at b c size ulen cells rest =
    let test : leb 2 (suc (suc (length rest))) ≡ true = ground arith in rw test refl

none_of :
    {A : Type 0} (p q r t : Bool) (u v w x z : A)
    → (p || (q || (r || t))) ≡ false
    → (if p then u else if q then v else if r then w else if t then x else z) ≡ z
none_of p q r t u v w x z h = ground arith

second_byte_none : (h : FileHandle) → starts_mark (cell h 0) (cell h 1) ≡ false → second_byte h ≡ h
unfolding second_byte
second_byte_none h none_there =
    none_of (cell h 0 == 0 && cell h 1 == 0) (cell h 0 == 0xfe && cell h 1 == 0xff)
      (cell h 0 == 0xff && cell h 1 == 0xfe) (cell h 0 == 0xef && cell h 1 == 0xbb) (mark_utf32be h)
      (record h { size = 0; ulen = 0; encoding = utf16be }) (mark_le h) (mark_utf8 h) h none_there

module _ (st_size : Option ℕ) (garbage : ℕ) where
  abbrev size_set : ℕ
  size_set = elim st_size [ none ↦ garbage | some size ↦ size ]

  open_unmarked :
      (b : ℕ) (rest : List ℕ)
      → may_mark b ≡ false
      → new_from_file (b ∷ rest) st_size garbage
        ≡ handle size_set 1 (b ∷ 0 ∷ 0 ∷ 0 ∷ 0 ∷ 0 ∷ 0 ∷ 0 ∷ []) rest
  unfolding new_from_file file_init first_byte
  open_unmarked b rest unlike =
      rw (fread_into_one 0 b size_set 0 (0 ∷ 0 ∷ 0 ∷ 0 ∷ 0 ∷ 0 ∷ 0 ∷ 0 ∷ []) rest, unlike) refl

  abbrev zeros : List ℕ
  zeros = 0 ∷ 0 ∷ 0 ∷ 0 ∷ 0 ∷ 0 ∷ 0 ∷ 0 ∷ []

  -- A byte that a mark may begin with, and the one behind it.
  open_one :
      (b : ℕ)
      → may_mark b ≡ true
      → new_from_file (b ∷ []) st_size garbage
        ≡ handle size_set 1 (b ∷ 0 ∷ 0 ∷ 0 ∷ 0 ∷ 0 ∷ 0 ∷ 0 ∷ []) []
  unfolding new_from_file file_init first_byte
  open_one b like =
      rw
        (
          fread_into_one 0 b size_set 0 zeros [],
          like,
          fread_into_none 1 0 size_set 1 (b ∷ 0 ∷ 0 ∷ 0 ∷ 0 ∷ 0 ∷ 0 ∷ 0 ∷ []),
        )
        refl

  open_two :
      (b c : ℕ) (rest : List ℕ)
      → may_mark b ≡ true
      → new_from_file (b ∷ c ∷ rest) st_size garbage
        ≡ second_byte (handle size_set 2 (b ∷ c ∷ 0 ∷ 0 ∷ 0 ∷ 0 ∷ 0 ∷ 0 ∷ []) rest)
  unfolding new_from_file file_init first_byte
  open_two b c rest like =
      rw
        (
          fread_into_one 0 b size_set 0 zeros (c ∷ rest),
          like,
          fread_into_one 1 c size_set 1 (b ∷ 0 ∷ 0 ∷ 0 ∷ 0 ∷ 0 ∷ 0 ∷ 0 ∷ []) rest,
        )
        refl

  open_zeros : new_from_file (0 ∷ 0 ∷ []) st_size garbage ≡ handle size_set 2 zeros []
  unfolding second_byte mark_utf32be
  open_zeros = open_two 0 0 [] refl ∙ rw (fread_into_none 2 1 size_set 2 zeros) refl

  open_no_utf32 :
      (c d : ℕ) (rest : List ℕ)
      → (c == 0xfe && d == 0xff) ≡ false
      → new_from_file (0 ∷ 0 ∷ c ∷ d ∷ rest) st_size garbage
        ≡ handle size_set 4 (0 ∷ 0 ∷ c ∷ d ∷ 0 ∷ 0 ∷ 0 ∷ 0 ∷ []) rest
  unfolding second_byte mark_utf32be
  open_no_utf32 c d rest other =
      open_two 0 0 (c ∷ d ∷ rest) refl ∙ rw (fread_into_two 2 c d size_set 2 zeros rest, other) refl

  open_cut_utf8 :
      new_from_file (0xef ∷ 0xbb ∷ []) st_size garbage
      ≡ handle size_set 2 (0xef ∷ 0xbb ∷ 0 ∷ 0 ∷ 0 ∷ 0 ∷ 0 ∷ 0 ∷ []) []
  unfolding second_byte mark_utf8
  open_cut_utf8 =
      open_two 0xef 0xbb [] refl
      ∙ rw (fread_into_none 2 0 size_set 2 (0xef ∷ 0xbb ∷ 0 ∷ 0 ∷ 0 ∷ 0 ∷ 0 ∷ 0 ∷ [])) refl

  open_no_utf8 :
      (c : ℕ) (rest : List ℕ)
      → (c == 0xbf) ≡ false
      → new_from_file (0xef ∷ 0xbb ∷ c ∷ rest) st_size garbage
        ≡ handle size_set 3 (0xef ∷ 0xbb ∷ c ∷ 0 ∷ 0 ∷ 0 ∷ 0 ∷ 0 ∷ []) rest
  unfolding second_byte mark_utf8
  open_no_utf8 c rest other =
      open_two 0xef 0xbb (c ∷ rest) refl
      ∙ rw (fread_into_one 2 c size_set 2 (0xef ∷ 0xbb ∷ 0 ∷ 0 ∷ 0 ∷ 0 ∷ 0 ∷ 0 ∷ []) rest, other)
          refl

  open_empty :
      new_from_file [] st_size garbage ≡ handle size_set 0 (0 ∷ 0 ∷ 0 ∷ 0 ∷ 0 ∷ 0 ∷ 0 ∷ 0 ∷ []) []
  unfolding new_from_file file_init fread_into store_read fread
  open_empty = refl

  abbrev size_less : ℕ
  size_less = if leb 3 size_set then size_set - 3 else size_set

  open_marked :
      (rest : List ℕ)
      → new_from_file (0xef ∷ 0xbb ∷ 0xbf ∷ rest) st_size garbage
        ≡ record (handle size_less 0 (0xef ∷ 0xbb ∷ 0xbf ∷ 0 ∷ 0 ∷ 0 ∷ 0 ∷ 0 ∷ []) rest) {
          encoding = utf_8;
        }
  unfolding new_from_file file_init first_byte second_byte mark_utf8
  open_marked rest =
      rw
        (
          fread_into_one 0 0xef size_set 0 (0 ∷ 0 ∷ 0 ∷ 0 ∷ 0 ∷ 0 ∷ 0 ∷ 0 ∷ [])
              (0xbb ∷ 0xbf ∷ rest),
          fread_into_one 1 0xbb size_set 1 (0xef ∷ 0 ∷ 0 ∷ 0 ∷ 0 ∷ 0 ∷ 0 ∷ 0 ∷ []) (0xbf ∷ rest),
          fread_into_one 2 0xbf size_set 2 (0xef ∷ 0xbb ∷ 0 ∷ 0 ∷ 0 ∷ 0 ∷ 0 ∷ 0 ∷ []) rest,
        )
        refl

  handle-IsPlain :
      (size : ℕ) (b : ℕ) (rest : List ℕ)
      → IsPlain (handle size 1 (b ∷ 0 ∷ 0 ∷ 0 ∷ 0 ∷ 0 ∷ 0 ∷ 0 ∷ []) rest)
  handle-IsPlain size b rest = record {
    copied = inl refl;
    within = omega arith;
    small = omega arith;
  }

  new_from_file-IsPlain :
      (file out : List ℕ)
      → Delivers file out
      → IsPlain (new_from_file file st_size garbage)
        × (pending (new_from_file file st_size garbage) ≡ out)
  new_from_file-IsPlain file out empty =
      rw open_empty (record { copied = inl refl; within = omega arith; small = omega arith }, refl)
  new_from_file-IsPlain file out (unmarked b rest unlike) =
      rw (open_unmarked b rest unlike) (handle-IsPlain size_set b rest, refl)
  new_from_file-IsPlain file out (one_byte b like) =
      rw (open_one b like) (handle-IsPlain size_set b [], refl)
  new_from_file-IsPlain file out (other_second b c rest like other) =
      rw
        (open_two b c rest like
          ∙ second_byte_none (handle size_set 2 (b ∷ c ∷ 0 ∷ 0 ∷ 0 ∷ 0 ∷ 0 ∷ 0 ∷ []) rest) other)
        (record { copied = inl refl; within = omega arith; small = omega arith }, refl)
  new_from_file-IsPlain file out two_zeros =
      rw open_zeros (record { copied = inl refl; within = omega arith; small = omega arith }, refl)
  new_from_file-IsPlain file out (other_utf32 c d rest other) =
      rw (open_no_utf32 c d rest other)
        (record { copied = inl refl; within = omega arith; small = omega arith }, refl)
  new_from_file-IsPlain file out cut_utf8 =
      rw open_cut_utf8
        (record { copied = inl refl; within = omega arith; small = omega arith }, refl)
  new_from_file-IsPlain file out (other_utf8 c rest other) =
      rw (open_no_utf8 c rest other)
        (record { copied = inl refl; within = omega arith; small = omega arith }, refl)
  new_from_file-IsPlain file out (marked rest) =
      rw (open_marked rest)
        (record { copied = inr refl; within = omega arith; small = omega arith }, refl)

  -- A file without a mark, of which the three bytes 00 00 x are left out, or with that of UTF-8, is
  -- opened and read as it is: the first request returns its first `n` bytes after the mark, and the
  -- others stay pending. Files that begin with only a part of a mark are read as they are, too.
  pub file_get-new_from_file :
      (file out : List ℕ) (n : ℕ)
      → Delivers file out
      → (h' : FileHandle) × (file_get (new_from_file file st_size garbage) n
          ≡ done (take n out, h'))
        × (pending h' ≡ drop n out)
        × IsPlain h'
  file_get-new_from_file file out n d =
      let (ok, all) = new_from_file-IsPlain file out d in
      let (h', e, left, ok') = file_get-IsPlain (new_from_file file st_size garbage) n ok in
      (h', e ∙ ap (λ t. done (take n t, h')) all, left ∙ ap (λ t. drop n t) all, ok')
