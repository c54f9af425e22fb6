-- ===== src/Lexer/Matcher/Chars.antt =====
-- `matcher_get` and `matcher_peek`: each delivers the character at `pos_` of the input.
use neoast.Common.{
  ℕ, ◌+◌, ◌-◌, ◌≤◌, ◌<◌, ◌≡◌, refl, List, [], Bool, true, false, get_elem?, get_elem?_total, some,
  none, ℤ, pos, inl, inr,
}
use neoast.Common.{
  subst, Outcome, done, ◌>>=◌, if◌then◌else◌, ap, ap₂, sym, ◌∙◌, arith, lt_or_le, Bool-cases, read,
  ltb,
}
use neoast.Lexer.Input.Get.{Input}
use neoast.Lexer.Matcher.{Matcher}
use neoast.Lexer.Matcher.Buffer.{
  take_char, more, read_more, matcher_get, matcher_peek, as_char, eof_char,
}
use neoast.Lexer.Matcher.Window.{IsReader, IsRealloc, offset, window}
use neoast.Lexer.Matcher.Grow.{Valid, Same}
use neoast.Lexer.Matcher.Reads.{next_char, next_char-buffered, next_char-end, read_more_lem}

module _ {E : Type 0} (left : Input E → List ℕ) (IsOpen : Input E → Type 0) where
  -- The character at `pos_` gives the result, by `result`, and `pos_` moves by `k`; at the end of the
  -- input the result is `EOF`, and `pos_` stays.
  pub data Reads (k : ℕ) (result : ℕ → ℤ) (m m' : Matcher E) (r : ℤ) : Type 0 where
    reads_char :
        (c : ℕ)
        → next_char left IsOpen m ≡ some c
        → r ≡ result c
        → offset m' ≡ offset m + k
        → Reads k result m m' r
    reads_end :
        next_char left IsOpen m ≡ none → r ≡ eof_char → offset m' ≡ offset m → Reads k result m m' r

  -- What `matcher_get` makes of a byte: a `char`, if the buffer held it, and otherwise the byte itself.
  abbrev pub got_char : Matcher E → ℕ → ℤ
  got_char m c = if ltb m.pos m.end then as_char c else pos c

  -- Two matchers on the same text of the same input.
  pub record SameText (m m' : Matcher E) : Type 0 where
    pub same_window : window left IsOpen m' ≡ window left IsOpen m
    pub same_cur : m'.cur - m'.txt ≡ m.cur - m.txt
    pub same_len : m'.len ≡ m.len
    pub same_ded : m'.ded ≡ m.ded
    pub same_mrk : m'.mrk ≡ m.mrk
    pub same_fsm : m'.fsm ≡ m.fsm

  -- A call that reads: it does not fault, the text stays, and the result is that of the character at
  -- `pos_`.
  abbrev pub ReadsOk : ℕ → (ℕ → ℤ) → Matcher E → Outcome (ℤ × Matcher E) → Type 0
  ReadsOk k result m o =
      (r : ℤ) × (m' : Matcher E) × (o ≡ done (r, m'))
      × Valid left IsOpen m'
      × SameText m m'
      × Reads k result m m' r

  abbrev advanced : ℕ → Matcher E → Matcher E
  advanced k m = record m { pos = m.pos + k }

  -- Only `pos_` or the sight of the end has changed.
  SameText-at : (m : Matcher E) (at : ℕ) (b : Bool) → SameText m (record m { pos = at; eof = b })
  SameText-at m at b = record {
    same_window = refl;
    same_cur = refl;
    same_len = refl;
    same_ded = refl;
    same_mrk = refl;
    same_fsm = refl;
  }

  pub SameText-refl : (m : Matcher E) → SameText m m
  SameText-refl m = SameText-at m m.pos m.eof

  advanced-IsMatcher :
      (k : ℕ) (m : Matcher E)
      → Valid left IsOpen m
      → m.pos + k ≤ m.end
      → Valid left IsOpen (advanced k m)
  advanced-IsMatcher k m ok inside = record {
    allocated = ok.allocated;
    room = ok.room;
    small = ok.small;
    from_text = ok.from_text;
    read_text = omega (arith, ok.read_text);
    indent_text = ok.indent_text;
    within = ok.within;
    reached = inside;
    margin = ok.margin;
    counted = ok.counted;
    unblocked = ok.unblocked;
    plain_text = ok.plain_text;
    ended = ok.ended;
    short = ok.short;
    open_input = ok.open_input;
  }

  abbrev at_eof : Matcher E → Matcher E
  at_eof m = record m { eof = true }

  at_eof-IsMatcher :
      (m : Matcher E) → Valid left IsOpen m → left m.input ≡ [] → Valid left IsOpen (at_eof m)
  at_eof-IsMatcher m ok empty = record {
    allocated = ok.allocated;
    room = ok.room;
    small = ok.small;
    from_text = ok.from_text;
    read_text = ok.read_text;
    indent_text = ok.indent_text;
    within = ok.within;
    reached = ok.reached;
    margin = ok.margin;
    counted = ok.counted;
    unblocked = ok.unblocked;
    plain_text = ok.plain_text;
    ended = λ _. empty;
    short = ok.short;
    open_input = ok.open_input;
  }

  -- The character in the buffer.
  in_buffer :
      (m : Matcher E)
      → Valid left IsOpen m
      → m.pos < m.end
      → (c : ℕ) × (read m.buf m.pos ≡ done c) × (next_char left IsOpen m ≡ some c)
  in_buffer m ok inside =
      let (c, e) = get_elem?_total m.buf m.pos (omega (arith, inside, ok.room, ok.allocated)) in
      (c, rw e refl, next_char-buffered left IsOpen m ok inside ∙ e)

  take_char_lem :
      (k : ℕ) (m : Matcher E)
      → k ≤ 1
      → Valid left IsOpen m
      → (m.end ≤ m.pos → left m.input ≡ [])
      → ReadsOk k (λ c. pos c) m (take_char k m)
  unfolding take_char
  take_char_lem k m one ok dry = elim (lt_or_le m.pos m.end) [
    | inl inside ↦
        let (c, got, next) = in_buffer m ok inside in
        let test : ltb m.pos m.end ≡ true = ground arith in
        (
          pos c,
          advanced k m,
          rw (test, got) refl,
          advanced-IsMatcher k m ok (omega (arith, inside, one)),
          SameText-at m (m.pos + k) m.eof,
          reads_char c next refl (omega (arith, ok.read_text)),
        )
    | inr behind ↦
        let test : ltb m.pos m.end ≡ false = ground arith in
        (
          eof_char,
          at_eof m,
          rw test refl,
          at_eof-IsMatcher m ok (dry behind),
          SameText-at m m.pos true,
          reads_end (next_char-end left IsOpen m ok behind (dry behind)) refl refl,
        )
  ]

  next_char-Same :
      (m m₁ : Matcher E)
      → Same left IsOpen m m₁
      → next_char left IsOpen m₁ ≡ next_char left IsOpen m
  next_char-Same m m₁ same = ap₂ get_elem? same.same_window same.same_pos

  -- A read after the buffer was filled is a read before.
  Reads-before :
      (k : ℕ) (result : ℕ → ℤ) (m m₁ m' : Matcher E) (r : ℤ)
      → Same left IsOpen m m₁
      → Reads k result m₁ m' r
      → Reads k result m m' r
  Reads-before k result m m₁ m' r same (reads_char c next is moved) =
      reads_char c (sym (next_char-Same m m₁ same) ∙ next) is (omega (arith, moved, same.same_pos))
  Reads-before k result m m₁ m' r same (reads_end next is stays) =
      reads_end (sym (next_char-Same m m₁ same) ∙ next) is (omega (arith, stays, same.same_pos))

  module _ (get : E → ℕ → List ℕ × E) (realloc : List ℕ → ℕ → List ℕ)
      (reader : IsReader get left IsOpen) (rl : IsRealloc realloc) where
    more_eof : (k : ℕ) (m : Matcher E) → m.eof ≡ true → more get realloc k m ≡ done (eof_char, m)
    unfolding more
    more_eof k m e =
        ap (λ b. if b then done (eof_char, m) else read_more get realloc m >>= take_char k) e

    more_reads :
        (k : ℕ) (m m₁ : Matcher E)
        → m.eof ≡ false
        → read_more get realloc m ≡ done m₁
        → more get realloc k m ≡ take_char k m₁
    unfolding more
    more_reads k m m₁ e read_ =
        ap (λ b. if b then done (eof_char, m) else read_more get realloc m >>= take_char k) e
        ∙ ap (λ o. o >>= take_char k) read_

    more_lem :
        (k : ℕ) (m : Matcher E)
        → k ≤ 1
        → Valid left IsOpen m
        → m.end ≤ m.pos
        → ReadsOk k (λ c. pos c) m (more get realloc k m)
    more_lem k m one ok behind = elim (Bool-cases m.eof) [
      | inl seen ↦ (
        eof_char,
        m,
        more_eof k m seen,
        ok,
        SameText-refl m,
        reads_end (next_char-end left IsOpen m ok behind (ok.ended seen)) refl refl,
      )
      | inr unseen ↦
          let (m₁, e₁, ok₁, same, dry) =
            read_more_lem left IsOpen get realloc reader rl m ok unseen in
          let (r, m', e', ok', text, reads) = take_char_lem k m₁ one ok₁ dry in
          (
            r,
            m',
            more_reads k m m₁ unseen e₁ ∙ e',
            ok',
            record {
              same_window = text.same_window ∙ same.same_window;
              same_cur = text.same_cur ∙ same.same_cur;
              same_len = text.same_len ∙ same.same_len;
              same_ded = text.same_ded ∙ same.same_ded;
              same_mrk = text.same_mrk ∙ same.same_mrk;
              same_fsm = text.same_fsm ∙ same.same_fsm;
            },
            Reads-before k (λ c. pos c) m m₁ m' r same reads,
          )
    ]

    -- On a well-formed matcher `matcher_get` does not fault, whatever part of the input the buffer
    -- holds, and leaves it well formed, and the text stays as it is. If the input has no more at `pos_`,
    -- the result is `EOF`. Otherwise `pos_` is then behind the byte of the input that was there, and the
    -- result is this byte if it had to be read first, but if it was in the buffer it is the byte as a
    -- signed `char`: from 128 on it is negative, and 255 gives -1, which is `EOF`.
    pub matcher_get-Reads :
        (m : Matcher E) → Valid left IsOpen m → ReadsOk 1 (got_char m) m (matcher_get get realloc m)
    unfolding matcher_get
    matcher_get-Reads m ok = elim (lt_or_le m.pos m.end) [
      | inl inside ↦
          let (c, got, next) = in_buffer m ok inside in
          let test : ltb m.pos m.end ≡ true = ground arith in
          (
            as_char c,
            advanced 1 m,
            rw (test, got) refl,
            advanced-IsMatcher 1 m ok (omega (arith, inside)),
            SameText-at m (m.pos + 1) m.eof,
            reads_char c next (rw test refl) (omega (arith, ok.read_text)),
          )
      | inr behind ↦
          let test : ltb m.pos m.end ≡ false = ground arith in
          subst (λ b. ReadsOk 1 (λ c. if b then as_char c else pos c) m (matcher_get get realloc m))
            (sym test) (rw (test, ReadsOk) (more_lem 1 m (omega arith) ok behind))
    ]

    -- On a well-formed matcher `matcher_peek` does not fault and leaves it well formed: the text stays as
    -- it is, and the result is the character at `pos_`, where `pos_` stays, or `EOF` if the input has no
    -- more.
    pub matcher_peek-Reads :
        (m : Matcher E)
        → Valid left IsOpen m
        → ReadsOk 0 (λ c. pos c) m (matcher_peek get realloc m)
    unfolding matcher_peek
    matcher_peek-Reads m ok = elim (lt_or_le m.pos m.end) [
      | inl inside ↦
          let (c, got, next) = in_buffer m ok inside in
          let test : ltb m.pos m.end ≡ true = ground arith in
          (pos c, m, rw (test, got) refl, ok, SameText-refl m, reads_char c next refl (omega arith))
      | inr behind ↦
          let test : ltb m.pos m.end ≡ false = ground arith in
          rw test (more_lem 0 m (omega arith) ok behind)
    ]
