-- ===== src/Lexer/Matcher/Tests.antt =====
-- A matcher on a short text, with an automaton that reads one character.
use neoast.Common.{
  ℕ, ◌+◌, ◌-◌, ◌*◌, ◌%◌, ◌^◌, ◌≤◌, ◌≡◌, refl, List, [], ◌∷◌, ◌++◌, length, replicate, Bool, true,
  false, ◌==◌, some, pos, negsuc, eqb_ℤ, inl, inr, if◌then◌else◌,
}
use neoast.Common.{◌⊎◌}
use neoast.Common.{Outcome, done, ◌>>=◌, ap, ◌∙◌, arith, Bool-cases, length-replicate}
use neoast.Runtime.Types.{allocate_stack}
use neoast.Lexer.Vector.{init}
use neoast.Lexer.Input.Get.{Input, buffer}
use neoast.Lexer.Matcher.{Matcher, const_block, matcher_new, option_init, fsm_init}
use neoast.Lexer.Matcher.Window.{IsRealloc, IsReader, IsMatcher, window}
use neoast.Lexer.Matcher.Sources.{source, IsSource, source-IsReader, matcher_new-IsMatcher}
use neoast.Lexer.Matcher.Words.{fsm_meta_nwe-underscore}
use neoast.Lexer.Matcher.Fsm.{fsm_meta_nwe, isword, holds, fsm_halt, fsm_take}
use neoast.Lexer.Matcher.Buffer.{matcher_get, matcher_grow, eof_char}
use neoast.Lexer.Matcher.Chars.{ReadsOk, got_char, matcher_get-Reads}
use neoast.Lexer.Matcher.Buffer.{as_char}
use neoast.Lexer.Matcher.Grow.{Valid, Same, matcher_grow-SamePlace}
use neoast.Lexer.Matcher.Lines.{count_chars}
use neoast.Lexer.Matcher.LineLaws.{column, count_chars-column}
use neoast.Lexer.Matcher.Scan.{matcher_scan, matcher_text}
use neoast.Common.{set}
use neoast.Lexer.Matcher.Scans.{IsSettled, IsAutomaton}
use neoast.Lexer.Matcher.Split.{Splits, matcher_scan-Splits}
use neoast.Lexer.Matcher.Bytes.{fsm_tail-fsm_head}
use neoast.Lexer.Matcher.Fsm.{fsm_head, fsm_tail}
use neoast.Lexer.Matcher.Scan.{update_stops}
use neoast.Lexer.Matcher.Stops.{IsMargin, update_stops-IsMargin}
use neoast.Lexer.Matcher.Doubling.{double_until_lem}
use neoast.Lexer.Matcher.Buffer.{double_until}

abbrev nothing : ℕ → ℕ → List ℕ × ℕ
nothing e n = ([], e)

-- `isalnum` as the tables of glibc have it.
abbrev alnum : ℕ → ℕ
alnum c = if c == b'_' then 0 else 8

fsm_meta_nwe-underscore_example :
    (holds (isword alnum (pos b'a')) ≡ true)
    × (holds (isword alnum (pos b'_')) ≡ true)
    × (fsm_meta_nwe alnum (pos b'a') (pos b'_') ≡ false)
fsm_meta_nwe-underscore_example =
    fsm_meta_nwe-underscore alnum b'a' (omega arith) refl (omega arith) refl

-- `realloc` with zeros behind the old cells.
abbrev enlarge : List ℕ → ℕ → List ℕ
enlarge cells n = cells ++ replicate (n - length cells) 0

enlarge-IsRealloc : IsRealloc enlarge
enlarge-IsRealloc = record {
  extends = λ cells n fits. (
    replicate (n - length cells) 0,
    refl,
    omega (arith, length-replicate {A = ℕ} (n - length cells) 0, fits),
  );
}

abbrev two_lines : Input ℕ
two_lines = buffer (record { cstring = 0x61 ∷ 10 ∷ 0x62 ∷ 0 ∷ []; size = 3 })

abbrev start : Matcher ℕ
start = record {
  input = two_lines;
  lexing_state = allocate_stack [];
  opt = option_init;
  buf = 0x61 ∷ replicate 7 0;
  txt = 0;
  len = 0;
  cap_index = 0;
  max = 8;
  cur = 0;
  pos = 0;
  end = 0;
  ind = 0;
  blk = 0;
  got = 257;
  chr = 0;
  lpb = 0;
  lno = 1;
  cno = 0;
  num = 0;
  eof = false;
  ded = 0;
  col = 0;
  tab = init 8;
  lap = init 4;
  fsm = fsm_init;
  mrk = false;
}

start-IsMatcher : IsMatcher (source nothing) (IsSource nothing) start
start-IsMatcher = record {
  allocated = refl;
  room = omega arith;
  small = omega arith;
  from_text = omega arith;
  read_text = omega arith;
  indent_text = omega arith;
  within = omega arith;
  reached = omega arith;
  margin = omega arith;
  counted = omega arith;
  unblocked = refl;
  plain_text = refl;
  ended = λ e. cc;
  short = omega arith;
  open_input = omega arith;
}

-- The memory of an allocation.
unfoldable zeros : ℕ → List ℕ
zeros n = replicate n 0

length-zeros : (n : ℕ) → length (zeros n) ≡ n
unfolding zeros
length-zeros n = length-replicate {A = ℕ} n 0

matcher_new-IsMatcher_example :
    IsMatcher
      (source nothing)
      (IsSource nothing)
      (matcher_new (zeros (2 * const_block)) (zeros 32) start two_lines)
    × (window
          (source nothing)
          (IsSource nothing)
          (matcher_new (zeros (2 * const_block)) (zeros 32) start two_lines)
        ≡ 0x61 ∷ 10 ∷ 0x62 ∷ [])
matcher_new-IsMatcher_example =
    matcher_new-IsMatcher (source nothing) (IsSource nothing) (zeros (2 * const_block)) (zeros 32)
      start two_lines (length-zeros (2 * const_block)) (omega arith) (omega arith)

abbrev from_two_lines : IsReader nothing (source nothing) (IsSource nothing)
from_two_lines = source-IsReader nothing

-- The byte 0xFF in the buffer.
abbrev on_last_byte : Matcher ℕ
on_last_byte = record start { buf = 0xFF ∷ 0x61 ∷ replicate 6 0; end = 2 }

last_byte_is_eof :
    matcher_get nothing enlarge on_last_byte ≡ done (eof_char, record on_last_byte { pos = 1 })
unfolding matcher_get as_char
last_byte_is_eof = refl

matcher_get-Reads_example :
    ReadsOk
      (source nothing)
      (IsSource nothing)
      1
      (got_char (source nothing) (IsSource nothing) start)
      start
      (matcher_get nothing enlarge start)
matcher_get-Reads_example =
    matcher_get-Reads (source nothing) (IsSource nothing) nothing enlarge from_two_lines
      enlarge-IsRealloc start start-IsMatcher

matcher_grow-SamePlace_example :
    (r : Bool × Matcher ℕ) × (matcher_grow enlarge start 20 ≡ done r)
    × Valid (source nothing) (IsSource nothing) (r.1)
    × Same (source nothing) (IsSource nothing) start (r.1)
    × (20 ≤ (r.1).max - (r.1).end)
matcher_grow-SamePlace_example =
    matcher_grow-SamePlace (source nothing) (IsSource nothing) enlarge enlarge-IsRealloc start 20
      start-IsMatcher (omega arith)

count_chars-column_example :
    (count_chars 8 (1, 0) (0xC3 ∷ 0xA9 ∷ 9 ∷ [])).1 ≡ column 0 (0xC3 ∷ 0xA9 ∷ 9 ∷ [])
count_chars-column_example = count_chars-column (1, 0) (0xC3 ∷ 0xA9 ∷ 9 ∷ []) refl (omega arith)

-- An automaton that accepts any character, with the index 1.
unfoldable take_one : Matcher ℕ → Outcome (Matcher ℕ)
take_one m = do
  (c, m') ← matcher_get nothing enlarge m
  done (if eqb_ℤ c eof_char then fsm_halt c m' else fsm_halt c (fsm_take 1 eof_char m'))

take_one-IsAutomaton : IsAutomaton (source nothing) (IsSource nothing) take_one
unfolding take_one fsm_halt fsm_take
take_one-IsAutomaton = record {
  runs = λ m ok marks dedents nul.
      let (c, m', e, ok', text, reads) =
        matcher_get-Reads (source nothing) (IsSource nothing) nothing enlarge from_two_lines
          enlarge-IsRealloc m ok in
      elim (Bool-cases (eqb_ℤ c eof_char)) [
        | inl at_end ↦ (
          fsm_halt c m',
          rw (e, at_end) refl,
          ok',
          text.same_window,
          text.same_mrk ∙ marks,
          text.same_ded ∙ dedents,
          ap (λ f. f.nul) text.same_fsm ∙ nul,
        )
        | inr some_char ↦ (
          fsm_halt c (fsm_take 1 eof_char m'),
          rw (e, some_char) refl,
          record {
            allocated = ok'.allocated;
            room = ok'.room;
            small = ok'.small;
            from_text = ok'.read_text;
            read_text = ok'.read_text;
            indent_text = ok'.indent_text;
            within = ok'.reached;
            reached = ok'.reached;
            margin = ok'.margin;
            counted = ok'.counted;
            unblocked = ok'.unblocked;
            plain_text = ok'.plain_text;
            ended = ok'.ended;
            short = ok'.short;
            open_input = ok'.open_input;
          },
          text.same_window,
          text.same_mrk ∙ marks,
          text.same_ded ∙ dedents,
          ap (λ f. f.nul) text.same_fsm ∙ nul,
        )
      ];
}

start-IsSettled : IsSettled (source nothing) (IsSource nothing) start
start-IsSettled = record { good = start-IsMatcher; settled = refl; no_dedents = refl }

-- The matcher after `matcher_text`.
abbrev start_ended : Matcher ℕ
start_ended = record start { buf = set start.buf 0 0; chr = 0x61 }

start_text : matcher_text start ≡ done (0, start_ended)
unfolding matcher_text
start_text = refl

matcher_scan-Splits_example :
    (m' : Matcher ℕ) × (matcher_scan nothing enlarge take_one 4 start_ended
      ≡ done (some (m'.cap_index, m')))
    × Splits
        (source nothing)
        (IsSource nothing)
        nothing
        enlarge
        from_two_lines
        enlarge-IsRealloc
        take_one
        take_one-IsAutomaton
        (record start { len = 0 })
        m'
matcher_scan-Splits_example =
    matcher_scan-Splits (source nothing) (IsSource nothing) nothing enlarge from_two_lines
      enlarge-IsRealloc take_one take_one-IsAutomaton 4 start start_ended start-IsSettled
      (inr (0, start_text)) (omega arith)

-- Room for two lookaheads, as -1 fills it.
abbrev looking : Matcher ℕ
looking = record start { pos = 3; lap = record (start.lap) { items = negsuc 0 ∷ negsuc 0 ∷ [] } }

fsm_tail-fsm_head_example :
    (m' : Matcher ℕ) × ((fsm_head 0 looking >>= fsm_tail 0 0) ≡ done m')
    × (m'.cur ≡ (3 + 2 ^ 32 * (2 ^ 32 - 1)) % 2 ^ 64)
fsm_tail-fsm_head_example =
    fsm_tail-fsm_head looking 0 0 (negsuc 0) (omega arith) (omega arith) refl

-- A margin in column 6 below stops in columns 4 and 8.
abbrev indented : Matcher ℕ
indented = record start { col = 6; mrk = true; tab = record (start.tab) { items = 4 ∷ 8 ∷ [] } }

update_stops-IsMargin_example :
    (m' : Matcher ℕ) × (update_stops indented ≡ done m') × IsMargin indented m'
unfolding init
update_stops-IsMargin_example =
    update_stops-IsMargin indented (omega arith, (omega arith, tt))
      (record {
        small = omega arith;
        some_room = omega arith;
        within = omega arith;
        allocated = omega arith;
      })
      (omega arith) (omega arith)

double_until_lem_example :
    (300 ≤ double_until 64 300 128)
    × (128 ≤ double_until 64 300 128)
    × ((double_until 64 300 128 ≡ 128) ⊎ (double_until 64 300 128 ≤ 2 * 300))
double_until_lem_example = double_until_lem 300 128 (omega arith) (omega arith) (omega arith)
