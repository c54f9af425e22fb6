-- ===== src/Lexer/Matcher/Fsm.antt =====
-- include/lexer/matcher_fsm.h: the operations of which the generated automata consist; and `isword`
-- of include/lexer/matcher_priv.h.
use neoast.Common.{
  ℕ, suc, ◌+◌, ◌-◌, ◌*◌, ◌%◌, ◌^◌, List, Bool, true, false, not, ◌==◌, ltb, leb, ◌&&◌, ◌||◌, bit_or,
}
use neoast.Common.{
  if◌then◌else◌, sub64, ℤ, pos, negsuc, to_u32, eqb_ℤ, Outcome, done, ◌>>=◌, read, write,
}
use neoast.Lexer.Vector.{size, resize}
use neoast.Lexer.Matcher.{Matcher, const_redo}
use neoast.Lexer.Matcher.Buffer.{eof_char, matcher_get, matcher_peek, matcher_at_bob}
use neoast.Lexer.Matcher.Indent.{matcher_indent, matcher_dedent, matcher_nodent}

-- `isword`, whose `int` is a number; `isalnum` of the C library is a parameter.
unfoldable pub isword : (ℕ → ℕ) → ℤ → ℕ
isword isalnum c =
    let alnum = isalnum (to_u32 c % 256) in if eqb_ℤ c (pos b'_') then bit_or alnum 1 else alnum

-- An `int` as a condition.
abbrev pub holds : ℕ → Bool
holds n = not (n == 0)

-- `cur_ = pos_`, less the character that was read ahead.
abbrev pub before_char : ℤ → ℕ → ℕ
before_char c1 at = if eqb_ℤ c1 eof_char then at else sub64 at 1

-- A position as an `int`.
abbrev pub as_int : ℕ → ℤ
as_int n = let u = n % 2 ^ 32 in if ltb u (2 ^ 31) then pos u else negsuc (2 ^ 32 - 1 - u)

abbrev pub fsm_meta_eob : ℤ → Bool
fsm_meta_eob c1 = eqb_ℤ c1 eof_char

module _ {E : Type 0} where
  abbrev pub fsm_init_char : Matcher E → ℤ
  fsm_init_char m = m.fsm.c1

  unfoldable pub fsm_find : Matcher E → Matcher E
  fsm_find m = if m.cap_index == 0 then record m { cur = m.pos } else m

  unfoldable pub fsm_halt : ℤ → Matcher E → Matcher E
  fsm_halt c1 m = record m { fsm = record (m.fsm) { c1 = c1 } }

  unfoldable pub fsm_take : ℕ → ℤ → Matcher E → Matcher E
  fsm_take cap c1 m = record m { cap_index = cap; cur = before_char c1 m.pos }

  unfoldable pub fsm_redo : ℤ → Matcher E → Matcher E
  fsm_redo c1 m = record m { cap_index = const_redo; cur = before_char c1 m.pos }

  unfoldable pub fsm_posn : Matcher E → ℕ
  fsm_posn m = sub64 m.pos m.txt

  unfoldable pub fsm_back : ℕ → Matcher E → Matcher E
  fsm_back at m = record m { cur = (m.txt + at) % 2 ^ 64 }

  unfoldable pub fsm_head : ℕ → Matcher E → Outcome (Matcher E)
  unfolding fsm_posn
  fsm_head la m = do
    lap ← (if leb (size m.lap) la then resize m.lap (la + 1) (negsuc 0) else done (m.lap))
    items ← write lap.items la (as_int (fsm_posn m))
    done (record m { lap = record lap { items = items } })

  -- `VECTOR_AT(lap_, la, size_t)` reads eight bytes at an item of four: the item is the low half, and
  -- the next one the high half, which is `beyond` if there is none.
  unfoldable pub lap_high : Matcher E → ℕ → ℕ → Outcome ℕ
  lap_high m beyond la =
      if ltb (suc la) (size m.lap)
      then (do next ← read m.lap.items (suc la); done (to_u32 next))
      else done beyond

  unfoldable pub lap_at : Matcher E → ℕ → ℕ → Outcome ℕ
  unfolding lap_high
  lap_at m beyond la = do
    low ← read m.lap.items la
    high ← lap_high m beyond la
    done (to_u32 low + 2 ^ 32 * high)

  -- The test that the position is not negative holds of every `size_t`.
  unfoldable pub fsm_tail : ℕ → ℕ → Matcher E → Outcome (Matcher E)
  unfolding lap_at
  fsm_tail beyond la m =
      if ltb la (size m.lap)
      then (do at ← lap_at m beyond la; done (record m { cur = (m.txt + at) % 2 ^ 64 }))
      else done m

  unfoldable pub fsm_dent : Matcher E → Bool × Matcher E
  fsm_dent m =
      if ltb 0 m.ded then (true, record m { fsm = record (m.fsm) { nul = true } }) else (false, m)

  unfoldable pub fsm_meta_ded : Matcher E → Outcome (Bool × Matcher E)
  unfolding matcher_dedent
  fsm_meta_ded m = if m.fsm.bol then matcher_dedent m else done (false, m)

  unfoldable pub fsm_meta_ind : Matcher E → Outcome (Bool × Matcher E)
  unfolding matcher_indent
  fsm_meta_ind m = if m.fsm.bol then matcher_indent m else done (false, m)

  unfoldable pub fsm_meta_und : Matcher E → Outcome (Bool × Matcher E)
  unfolding matcher_nodent
  fsm_meta_und m = do
    (same, m') ← (if m.mrk then matcher_nodent m else done (true, m))
    done (not same, record m' { mrk = false; ded = 0 })

  unfoldable pub fsm_meta_bob : Matcher E → Bool
  unfolding matcher_at_bob
  fsm_meta_bob m = matcher_at_bob m

  abbrev pub fsm_meta_bol : Matcher E → Bool
  fsm_meta_bol m = m.fsm.bol

  -- The character behind the text.
  abbrev pub text_end : Matcher E → Outcome ℕ
  text_end m = read m.buf (m.txt + m.len)

module _ (isalnum : ℕ → ℕ) where
  unfoldable pub fsm_meta_bwe : ℤ → ℤ → Bool
  unfolding isword
  fsm_meta_bwe c0 c1 = not (holds (isword isalnum c0)) && holds (isword isalnum c1)

  -- The two results are compared as `int`s.
  unfoldable pub fsm_meta_nwe : ℤ → ℤ → Bool
  unfolding isword
  fsm_meta_nwe c0 c1 = isword isalnum c0 == isword isalnum c1

  module _ {E : Type 0} where
    unfoldable pub fsm_meta_ewe : ℤ → ℤ → Matcher E → Bool
    unfolding isword
    fsm_meta_ewe c0 c1 m =
        (holds (isword isalnum c0) || m.opt.words) && not (holds (isword isalnum c1))

    unfoldable pub fsm_meta_ewb : Matcher E → Outcome Bool
    unfolding isword
    fsm_meta_ewb m =
        if holds (isword isalnum (pos m.got))
        then (do c ← text_end m; done (not (holds (isword isalnum (pos c)))))
        else done false

    unfoldable pub fsm_meta_bwb : Matcher E → Outcome Bool
    unfolding isword
    fsm_meta_bwb m =
        if holds (isword isalnum (pos m.got))
        then done false
        else if m.opt.words
        then done true
        else (do c ← text_end m; done (holds (isword isalnum (pos c))))

    unfoldable pub fsm_meta_nwb : Matcher E → Outcome Bool
    unfolding isword
    fsm_meta_nwb m = do c ← text_end m; done (isword isalnum (pos m.got) == isword isalnum (pos c))

module _ {E : Type 0} (get : E → ℕ → List ℕ × E) (realloc : List ℕ → ℕ → List ℕ) where
  abbrev pub fsm_char : Matcher E → Outcome (ℤ × Matcher E)
  fsm_char m = matcher_get get realloc m

  -- `c1 == EOF || c1 == '\n' || (c1 == '\r' && matcher_peek(m) == '\n')`.
  unfoldable pub fsm_meta_eol : ℤ → Matcher E → Outcome (Bool × Matcher E)
  unfolding matcher_peek
  fsm_meta_eol c1 m =
      if eqb_ℤ c1 eof_char || eqb_ℤ c1 (pos b'\n')
      then done (true, m)
      else if eqb_ℤ c1 (pos b'\r')
      then (do (c, m') ← matcher_peek get realloc m; done (eqb_ℤ c (pos b'\n'), m'))
      else done (false, m)
