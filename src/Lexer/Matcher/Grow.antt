-- ===== src/Lexer/Matcher/Grow.antt =====
-- `matcher_grow` moves the text and enlarges the buffer, and the window stays.
use neoast.Common.{
  ℕ, ◌+◌, ◌-◌, ◌%◌, ◌^◌, ◌≤◌, ◌<◌, ◌≡◌, refl, List, ◌++◌, length, take, drop, Bool, true, false,
}
use neoast.Common.{done, ap, ◌∙◌, arith, inl, inr, leb, sub64, sub64_le, Bool-cases}
use neoast.Common.{
  take-append_le, take-take_ge, length-take_le, length-drop, length-append, drop-append_le, leb→le,
  leb_false→lt,
}
use neoast.Lexer.Input.Laws.{slice_lem}
use neoast.Lexer.Input.Get.{Input}
use neoast.Lexer.Matcher.{Matcher}
use neoast.Lexer.Matcher.Lines.{matcher_lineno, count_chars}
use neoast.Lexer.Matcher.Buffer.{double_until, memmove, shift_text, expand, matcher_grow}
use neoast.Lexer.Matcher.Window.{IsRealloc, IsMatcher, SamePlace, held_length, buffered, window}
use neoast.Lexer.Matcher.Doubling.{double_until_bounds}

module _ {E : Type 0} (left : Input E → List ℕ) (IsOpen : Input E → Type 0) where
  abbrev pub Valid : Matcher E → Type 0
  Valid m = IsMatcher left IsOpen m

  abbrev pub Same : Matcher E → Matcher E → Type 0
  Same m m' = SamePlace left IsOpen m m'

  pub length-buffered : (m : Matcher E) → Valid m → length (buffered left IsOpen m) ≡ held_length m
  length-buffered m ok =
      length-take_le (held_length m) (drop m.txt m.buf)
        (omega (arith, length-drop m.txt m.buf, ok.allocated, ok.room))

  -- After the lines were counted.
  abbrev counted_lines : Matcher E → Matcher E
  counted_lines m =
      let at =
        count_chars m.opt.tab_size (m.lno, m.cno) (take (m.txt - m.lpb) (drop m.lpb m.buf)) in
      record m { lpb = m.txt; lno = at.0; cno = at.1 }

  pub matcher_lineno-counted :
      (m : Matcher E) → Valid m → matcher_lineno m ≡ done ((counted_lines m).lno, counted_lines m)
  unfolding matcher_lineno
  matcher_lineno-counted m ok =
      rw
        (slice_lem m.buf m.lpb (m.txt - m.lpb)
          (omega (arith, ok.counted, ok.from_text, ok.within, ok.room, ok.allocated)))
        refl

  counted_lines-IsMatcher : (m : Matcher E) → Valid m → Valid (counted_lines m)
  counted_lines-IsMatcher m ok = record {
    allocated = ok.allocated;
    room = ok.room;
    small = ok.small;
    from_text = ok.from_text;
    read_text = ok.read_text;
    indent_text = ok.indent_text;
    within = ok.within;
    reached = ok.reached;
    margin = ok.margin;
    counted = omega arith;
    unblocked = ok.unblocked;
    plain_text = ok.plain_text;
    ended = ok.ended;
    short = ok.short;
    open_input = ok.open_input;
  }

  -- After the text has moved to the start of the buffer.
  abbrev moved : Matcher E → Matcher E
  moved m = record m {
    buf = buffered left IsOpen m ++ drop (held_length m) m.buf;
    cur = m.cur - m.txt;
    ind = m.ind - m.txt;
    pos = m.pos - m.txt;
    end = held_length m;
    num = (m.num + m.txt) % 2 ^ 64;
    txt = 0;
    lpb = 0;
  }

  memmove_lem :
      (cells : List ℕ) (from k : ℕ)
      → from + k ≤ length cells
      → memmove cells from k ≡ done (take k (drop from cells) ++ drop k cells)
  unfolding memmove
  memmove_lem cells from k fits = ground arith

  shift_text-moved : (m : Matcher E) → Valid m → shift_text m ≡ done (moved m)
  unfolding shift_text
  shift_text-moved m ok =
      rw
        (
          sub64_le m.end m.txt (omega (arith, ok.from_text, ok.within))
              (omega (arith, ok.room, ok.small)),
          sub64_le m.cur m.txt ok.from_text (omega (arith, ok.within, ok.room, ok.small)),
          sub64_le m.ind m.txt ok.indent_text (omega (arith, ok.margin, ok.room, ok.small)),
          sub64_le m.pos m.txt ok.read_text (omega (arith, ok.reached, ok.room, ok.small)),
          memmove_lem m.buf m.txt (held_length m)
              (omega (arith, ok.allocated, ok.room, ok.from_text, ok.within)),
        )
        refl

  window-moved : (m : Matcher E) → Valid m → window left IsOpen (moved m) ≡ window left IsOpen m
  window-moved m ok =
      let k = held_length m in
      let whole : k - 0 ≡ k = omega arith in
      let all : length (buffered left IsOpen m) ≡ k = length-buffered m ok in
      ap (λ t. t ++ left m.input)
        (ap (λ n. take n (buffered left IsOpen m ++ drop k m.buf)) whole
          ∙ take-append_le k (buffered left IsOpen m) (drop k m.buf) (omega (arith, all))
          ∙ take-take_ge k k (drop m.txt m.buf) (omega arith))

  moved-SamePlace : (m : Matcher E) → Valid m → Same m (moved m)
  moved-SamePlace m ok = record {
    same_window = window-moved m ok;
    same_cur = omega arith;
    same_pos = omega arith;
    same_ind = omega arith;
    same_eof = refl;
    same_len = refl;
    same_ded = refl;
    same_mrk = refl;
    same_fsm = refl;
  }

  moved-IsMatcher : (m : Matcher E) → Valid m → Valid (moved m)
  moved-IsMatcher m ok = record {
    allocated = omega (
      arith,
      length-append (buffered left IsOpen m) (drop (held_length m) m.buf),
      length-buffered m ok,
      length-drop (held_length m) m.buf,
      ok.allocated,
      ok.room,
    );
    room = omega (arith, ok.room);
    small = ok.small;
    from_text = omega arith;
    read_text = omega arith;
    indent_text = omega arith;
    within = omega (arith, ok.within);
    reached = omega (arith, ok.reached);
    margin = omega (arith, ok.margin);
    counted = omega arith;
    unblocked = ok.unblocked;
    plain_text = ok.plain_text;
    ended = ok.ended;
    short = omega (arith, ok.short, ap length (window-moved m ok));
    open_input = ok.open_input;
  }

  -- More cells behind the buffer.
  abbrev widened : List ℕ → ℕ → Matcher E → Matcher E
  widened more_cells size m = record m { buf = m.buf ++ more_cells; max = size }

  module _ (m : Matcher E) (more_cells : List ℕ) (size : ℕ) (ok : Valid m)
      (exact : length m.buf + length more_cells ≡ size) where
    window-widened : window left IsOpen (widened more_cells size m) ≡ window left IsOpen m
    window-widened =
        ap (λ t. t ++ left m.input)
          (ap (λ t. take (held_length m) t)
              (drop-append_le m.txt m.buf more_cells
                (omega (arith, ok.from_text, ok.within, ok.room, ok.allocated)))
            ∙ take-append_le (held_length m) (drop m.txt m.buf) more_cells
                (omega (arith, length-drop m.txt m.buf, ok.room, ok.allocated)))

    widened-SamePlace : Same m (widened more_cells size m)
    widened-SamePlace = record {
      same_window = window-widened;
      same_cur = refl;
      same_pos = refl;
      same_ind = refl;
      same_eof = refl;
      same_len = refl;
      same_ded = refl;
      same_mrk = refl;
      same_fsm = refl;
    }

    widened-IsMatcher : size ≤ 2 ^ 62 → Valid (widened more_cells size m)
    widened-IsMatcher small = record {
      allocated = omega (arith, length-append m.buf more_cells, exact);
      room = omega (arith, ok.room, ok.allocated, exact);
      small = small;
      from_text = ok.from_text;
      read_text = ok.read_text;
      indent_text = ok.indent_text;
      within = ok.within;
      reached = ok.reached;
      margin = ok.margin;
      counted = ok.counted;
      unblocked = ok.unblocked;
      plain_text = ok.plain_text;
      ended = ok.ended;
      short = omega (arith, ok.short, ap length window-widened);
      open_input = ok.open_input;
    }

  pub SamePlace-trans : (m₁ m₂ m₃ : Matcher E) → Same m₁ m₂ → Same m₂ m₃ → Same m₁ m₃
  SamePlace-trans m₁ m₂ m₃ a b = record {
    same_window = b.same_window ∙ a.same_window;
    same_cur = b.same_cur ∙ a.same_cur;
    same_pos = b.same_pos ∙ a.same_pos;
    same_ind = b.same_ind ∙ a.same_ind;
    same_eof = b.same_eof ∙ a.same_eof;
    same_len = b.same_len ∙ a.same_len;
    same_ded = b.same_ded ∙ a.same_ded;
    same_mrk = b.same_mrk ∙ a.same_mrk;
    same_fsm = b.same_fsm ∙ a.same_fsm;
  }

  pub SamePlace-refl : (m : Matcher E) → Same m m
  SamePlace-refl m = record {
    same_window = refl;
    same_cur = refl;
    same_pos = refl;
    same_ind = refl;
    same_eof = refl;
    same_len = refl;
    same_ded = refl;
    same_mrk = refl;
    same_fsm = refl;
  }

  counted_lines-SamePlace : (m : Matcher E) → Same m (counted_lines m)
  counted_lines-SamePlace m = record {
    same_window = refl;
    same_cur = refl;
    same_pos = refl;
    same_ind = refl;
    same_eof = refl;
    same_len = refl;
    same_ded = refl;
    same_mrk = refl;
    same_fsm = refl;
  }

  -- After the lines were counted and the text has moved.
  abbrev shifted_text : Matcher E → Matcher E
  shifted_text m = moved (counted_lines m)

  shifted_text-SamePlace : (m : Matcher E) → Valid m → Same m (shifted_text m)
  shifted_text-SamePlace m ok =
      SamePlace-trans m (counted_lines m) (shifted_text m) (counted_lines-SamePlace m)
        (moved-SamePlace (counted_lines m) (counted_lines-IsMatcher m ok))

  shifted_text-IsMatcher : (m : Matcher E) → Valid m → Valid (shifted_text m)
  shifted_text-IsMatcher m ok = moved-IsMatcher (counted_lines m) (counted_lines-IsMatcher m ok)

  module _ (realloc : List ℕ → ℕ → List ℕ) (rl : IsRealloc realloc) where
    -- What the growth is for: the same place, and room behind the end.
    abbrev Roomy : Matcher E → ℕ → Bool × Matcher E → Type 0
    Roomy m need r = Valid (r.1) × Same m (r.1) × (need ≤ (r.1).max - (r.1).end)

    expand-Roomy :
        (m : Matcher E) (newmax need : ℕ)
        → Valid m
        → m.max < newmax
        → newmax ≤ 2 ^ 62
        → held_length m + need ≤ newmax
        → (m' : Matcher E) × (expand realloc newmax m ≡ done m') × Roomy m need (true, m')
    unfolding expand
    expand-Roomy m newmax need ok more fits roomy =
        let m₂ = shifted_text m in
        let ok₂ = shifted_text-IsMatcher m ok in
        let (cells, e, exact) = rl.extends m₂.buf newmax (omega (arith, ok₂.allocated, more)) in
        let m' = widened cells newmax m₂ in
        (
          m',
          rw
              (
                matcher_lineno-counted m ok,
                shift_text-moved (counted_lines m) (counted_lines-IsMatcher m ok),
                e,
              )
              (ground arith),
          (
            widened-IsMatcher m₂ cells newmax ok₂ exact fits,
            SamePlace-trans m m₂ m' (shifted_text-SamePlace m ok)
                (widened-SamePlace m₂ cells newmax ok₂ exact),
            omega (arith, roomy),
          ),
        )

    -- The branches of `matcher_grow`.
    grow_stays :
        (m : Matcher E) (need : ℕ)
        → leb (need + 1) (sub64 m.max m.end) ≡ true
        → matcher_grow realloc m need ≡ done (false, m)
    unfolding matcher_grow
    grow_stays m need roomy = rw roomy refl

    grow_shifts :
        (m : Matcher E) (need : ℕ)
        → leb (need + 1) (sub64 m.max m.end) ≡ false
        → leb need (sub64 m.max m.end + m.txt) ≡ true
        → Valid m
        → matcher_grow realloc m need ≡ done (true, shifted_text m)
    unfolding matcher_grow
    grow_shifts m need full gap ok =
        rw
          (
            full,
            gap,
            matcher_lineno-counted m ok,
            shift_text-moved (counted_lines m) (counted_lines-IsMatcher m ok),
          )
          refl

    grow_expands :
        (m m' : Matcher E) (need : ℕ)
        → leb (need + 1) (sub64 m.max m.end) ≡ false
        → leb need (sub64 m.max m.end + m.txt) ≡ false
        → expand realloc (double_until 64 (sub64 m.end m.txt + need) m.max) m ≡ done m'
        → matcher_grow realloc m need ≡ done (true, m')
    unfolding matcher_grow
    grow_expands m m' need full tight e = rw (full, tight, e) refl

    -- For a need of at most 2⁶⁰ bytes a well-formed buffer grows without a fault and stays well formed:
    -- the text, what is behind it and every position in it stay the same, and there is room for as many
    -- bytes as were needed.
    pub matcher_grow-SamePlace :
        (m : Matcher E) (need : ℕ)
        → Valid m
        → need ≤ 2 ^ 60
        → (r : Bool × Matcher E) × (matcher_grow realloc m need ≡ done r)
          × Valid (r.1)
          × Same m (r.1)
          × (need ≤ (r.1).max - (r.1).end)
    matcher_grow-SamePlace m need ok fits =
        let space : sub64 m.max m.end ≡ m.max - m.end =
          sub64_le m.max m.end (omega (arith, ok.room)) (omega (arith, ok.small)) in
        let text : sub64 m.end m.txt ≡ held_length m =
          sub64_le m.end m.txt (omega (arith, ok.from_text, ok.within))
            (omega (arith, ok.room, ok.small)) in
        let bound : held_length m ≤ 2 ^ 60 = omega (
          arith,
          ok.short,
          length-append (buffered left IsOpen m) (left m.input),
          length-buffered m ok,
        ) in
        elim (Bool-cases (leb (need + 1) (sub64 m.max m.end))) [
          | inl roomy ↦ (
            (false, m),
            grow_stays m need roomy,
            ok,
            SamePlace-refl m,
            omega (arith, leb→le (need + 1) (sub64 m.max m.end) roomy, space),
          )
          | inr full ↦ elim (Bool-cases (leb need (sub64 m.max m.end + m.txt))) [
            | inl gap ↦ (
              (true, shifted_text m),
              grow_shifts m need full gap ok,
              shifted_text-IsMatcher m ok,
              shifted_text-SamePlace m ok,
              omega (
                arith,
                leb→le need (sub64 m.max m.end + m.txt) gap,
                space,
                ok.from_text,
                ok.within,
                ok.room,
              ),
            )
            | inr tight ↦
                let newmax = double_until 64 (sub64 m.end m.txt + need) m.max in
                let b =
                  double_until_bounds 64 (sub64 m.end m.txt + need) m.max (2 ^ 62)
                    (omega (arith, ok.room)) (omega (arith, ok.small)) (omega (arith, text, bound))
                    (omega (arith, text, bound, ok.room)) ok.small (omega (arith, text, bound)) in
                let (m', e, roomy) =
                  expand-Roomy m newmax need ok
                    (omega (
                      arith,
                      leb_false→lt need (sub64 m.max m.end + m.txt) tight,
                      space,
                      text,
                      b.0,
                      ok.from_text,
                      ok.within,
                      ok.room,
                    ))
                    b.2 (omega (arith, b.0, text)) in
                ((true, m'), grow_expands m m' need full tight e, roomy.0, roomy.1, roomy.2)
          ]
        ]
