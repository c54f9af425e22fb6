-- ===== src/Lexer/Matcher/Buffer.antt =====
-- The buffer of the matcher: `matcher_grow`, `matcher_get_more` and `matcher_peek_more` of
-- src/lexer/matcher.c, and the functions of include/lexer/matcher_priv.h on top of them. What
-- `realloc` returns is a parameter.
use neoast.Common.{
  ℕ, zero, suc, ◌+◌, ◌-◌, ◌*◌, ◌%◌, ◌^◌, List, ◌++◌, length, take, drop, Bool, true, false,
}
use neoast.Common.{
  ◌==◌, ltb, leb, ◌&&◌, ◌||◌, if◌then◌else◌, sub64, ℤ, pos, negsuc, eqb_ℤ, Outcome, done, fault,
  bounds,
}
use neoast.Common.{◌>>=◌, read}
use neoast.Lexer.Input.Get.{input_get}
use neoast.Lexer.Matcher.{Matcher, const_block, const_bob}
use neoast.Lexer.Matcher.Lines.{matcher_lineno}

-- `EOF`.
abbrev pub eof_char : ℤ
eof_char = negsuc 0

-- A byte as a `char`, which is signed.
unfoldable pub as_char : ℕ → ℤ
as_char b = if ltb b 128 then pos b else negsuc (255 - b)

-- `while (max < newmax) max <<= 1`, in 64 bits: 64 rounds are enough, or the loop does not end.
unfoldable pub double_until : ℕ → ℕ → ℕ → ℕ
double_until zero newmax size = size
double_until (suc rounds) newmax size =
    let rest = double_until rounds newmax (size * 2 % 2 ^ 64) in
    if ltb size newmax then rest else size

-- `memmove(cells, cells + from, k)`.
unfoldable pub memmove : List ℕ → ℕ → ℕ → Outcome (List ℕ)
memmove cells from k =
    if leb (from + k) (length cells)
    then done (take k (drop from cells) ++ drop k cells)
    else fault bounds

-- A write of bytes into the cells from `at` on.
unfoldable pub fill : List ℕ → ℕ → List ℕ → Outcome (List ℕ)
fill cells at bytes =
    if leb (at + length bytes) (length cells)
    then done (take at cells ++ (bytes ++ drop (at + length bytes) cells))
    else fault bounds

module _ {E : Type 0} where
  -- The text moves to the start of the buffer; the indices follow it.
  unfoldable pub shift_text : Matcher E → Outcome (Matcher E)
  shift_text m = do
    let gap = m.txt
    let end' = sub64 m.end gap
    cells ← memmove m.buf m.txt end'
    done (record m {
      buf = cells;
      cur = sub64 m.cur gap;
      ind = sub64 m.ind gap;
      pos = sub64 m.pos gap;
      end = end';
      num = (m.num + gap) % 2 ^ 64;
      txt = 0;
      lpb = 0;
    })

  -- What follows the read: the character at `pos_`, if there is one, and how far `pos_` moves.
  unfoldable pub take_char : ℕ → Matcher E → Outcome (ℤ × Matcher E)
  take_char advance m =
      if ltb m.pos m.end
      then (do c ← read m.buf m.pos; done (pos c, record m { pos = m.pos + advance }))
      else done (eof_char, record m { eof = true })

  unfoldable pub matcher_at_bob : Matcher E → Bool
  matcher_at_bob m = m.got == const_bob

  unfoldable pub matcher_at_bol : Matcher E → Bool
  matcher_at_bol m = m.got == const_bob || m.got == b'\n'

  unfoldable pub matcher_hit_end : Matcher E → Bool
  matcher_hit_end m = leb m.end m.pos && m.eof

module _ {E : Type 0} (realloc : List ℕ → ℕ → List ℕ) where
  -- The second branch, where the text moves and the buffer grows.
  unfoldable pub expand : ℕ → Matcher E → Outcome (Matcher E)
  unfolding shift_text
  expand newmax m =
      if ltb m.max newmax
      then (do
        (_, m₁) ← matcher_lineno m
        m₂ ← shift_text m₁
        done (record m₂ { max = newmax; buf = realloc m₂.buf newmax }))
      else done (record m { max = newmax })

  -- `matcher_grow`: whether the buffer was shifted or enlarged.
  unfoldable pub matcher_grow : Matcher E → ℕ → Outcome (Bool × Matcher E)
  unfolding expand double_until
  matcher_grow m need =
      if leb (need + 1) (sub64 m.max m.end)
      then done (false, m)
      else if leb need (sub64 m.max m.end + m.txt)
      then (do (_, m₁) ← matcher_lineno m; m₂ ← shift_text m₁; done (true, m₂))
      else (do m' ← expand (double_until 64 (sub64 m.end m.txt + need) m.max) m; done (true, m'))

  -- The growth that `matcher_get_more` and `matcher_peek_more` share.
  unfoldable pub grow_if_full : Matcher E → Outcome (Matcher E)
  unfolding matcher_grow
  grow_if_full m =
      if leb m.max (m.end + m.blk + 1)
      then (do (_, m') ← matcher_grow m const_block; done m')
      else done m

module _ {E : Type 0} (get : E → ℕ → List ℕ × E) where
  -- `matcher_get_1(self, buf_ + end_, n)`, whose result is added to `end_`.
  unfoldable pub matcher_get_1 : Matcher E → ℕ → Outcome (Matcher E)
  matcher_get_1 m n = do
    (bytes, in_) ← input_get get m.input n
    cells ← fill m.buf m.end bytes
    done (record m { buf = cells; input = in_; end = m.end + length bytes })

module _ {E : Type 0} (get : E → ℕ → List ℕ × E) (realloc : List ℕ → ℕ → List ℕ) where
  unfoldable pub read_more : Matcher E → Outcome (Matcher E)
  unfolding grow_if_full matcher_get_1
  read_more m = do
    m' ← grow_if_full realloc m
    matcher_get_1 get m' (if ltb 0 m'.blk then m'.blk else sub64 (sub64 m'.max m'.end) 1)

  unfoldable pub more : ℕ → Matcher E → Outcome (ℤ × Matcher E)
  unfolding read_more take_char
  more advance m = if m.eof then done (eof_char, m) else (do m' ← read_more m; take_char advance m')

  unfoldable pub matcher_get_more : Matcher E → Outcome (ℤ × Matcher E)
  unfolding more
  matcher_get_more m = more 1 m

  unfoldable pub matcher_peek_more : Matcher E → Outcome (ℤ × Matcher E)
  unfolding more
  matcher_peek_more m = more 0 m

  -- `matcher_get`: a character of the buffer is read as a `char`.
  unfoldable pub matcher_get : Matcher E → Outcome (ℤ × Matcher E)
  unfolding matcher_get_more
  matcher_get m =
      if ltb m.pos m.end
      then (do c ← read m.buf m.pos; done (as_char c, record m { pos = m.pos + 1 }))
      else matcher_get_more m

  unfoldable pub matcher_peek : Matcher E → Outcome (ℤ × Matcher E)
  unfolding matcher_peek_more
  matcher_peek m =
      if ltb m.pos m.end then (do c ← read m.buf m.pos; done (pos c, m)) else matcher_peek_more m

  -- `matcher_at_end` peeks only if the buffer is used up and the end was not seen.
  unfoldable pub matcher_at_end : Matcher E → Outcome (Bool × Matcher E)
  matcher_at_end m =
      if ltb m.pos m.end
      then done (false, m)
      else if m.eof
      then done (true, m)
      else (do (c, m') ← matcher_peek m; done (eqb_ℤ c eof_char, m'))
