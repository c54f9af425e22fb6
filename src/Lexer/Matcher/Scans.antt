-- ===== src/Lexer/Matcher/Scans.antt =====
-- The steps of `matcher_scan` with an automaton that does not ask for indentation.
use neoast.Common.{
  ℕ, zero, suc, ◌+◌, ◌-◌, ◌≤◌, ◌<◌, ◌≡◌, refl, List, [], ◌++◌, length, take, drop, Bool, true,
  false, not, ◌&&◌, ◌==◌, ltb, ℤ, pos, inl, inr, sub64, sub64_le, eqb_ℤ, get_elem?_total,
}
use neoast.Common.{
  ltb→lt, ==_iff, Outcome, done, ◌>>=◌, ap, sym, ◌∙◌, arith, Bool-cases, if◌then◌else◌,
}
use neoast.Common.{drop-append_le, drop-take, drop-drop, length-drop}
use neoast.Lexer.Vector.{Vector, resize}
use neoast.Lexer.Input.Get.{Input}
use neoast.Lexer.Matcher.{Matcher, const_redo, const_unk}
use neoast.Lexer.Matcher.Buffer.{matcher_at_end, matcher_peek, eof_char}
use neoast.Lexer.Matcher.Scan.{
  begin_scan, begin_find, check_stops, check_dedents, attempt_once, attempt, measure_text,
  matcher_set_current, char_before, accept_text, update_stops, reject_text,
}
use neoast.Lexer.Matcher.Window.{IsReader, IsRealloc, IsMatcher, held_length, buffered, window}
use neoast.Lexer.Matcher.Grow.{length-buffered}
use neoast.Lexer.Matcher.Chars.{SameText, SameText-refl, matcher_peek-Reads}

resize-zero : {A : Type 0} (v : Vector A) (x : A) → resize v 0 x ≡ done (record v { items = [] })
unfolding resize
resize-zero v x = ground arith

module _ {E : Type 0} (left : Input E → List ℕ) (IsOpen : Input E → Type 0) where
  abbrev pub Good : Matcher E → Type 0
  Good m = IsMatcher left IsOpen m

  abbrev pub win : Matcher E → List ℕ
  win m = window left IsOpen m

  -- What the next scan has before it.
  abbrev pub unread : Matcher E → List ℕ
  unread m = drop (m.cur - m.txt) (win m)

  -- Between two scans.
  pub record IsSettled (m : Matcher E) : Type 0 where
    pub good : Good m
    pub settled : m.pos ≡ m.cur
    pub no_dedents : m.ded ≡ 0

  -- A generated automaton without indentation: it does not fault, keeps the matcher's indices in
  -- order and its window as it is, and leaves the marks of indentation alone.
  pub record IsAutomaton (fsm : Matcher E → Outcome (Matcher E)) : Type 0 where
    pub runs :
        (m : Matcher E)
        → Good m
        → m.mrk ≡ false
        → m.ded ≡ 0
        → m.fsm.nul ≡ false
        → (m' : Matcher E) × (fsm m ≡ done m')
          × Good m'
          × (win m' ≡ win m)
          × (m'.mrk ≡ false)
          × (m'.ded ≡ 0)
          × (m'.fsm.nul ≡ false)

  pub window-begin : (m : Matcher E) → Good m → win (begin_find (begin_scan m)) ≡ unread m
  unfolding begin_scan begin_find
  window-begin m ok =
      let k = m.cur - m.txt in
      let at : m.txt + k ≡ m.cur = omega (arith, ok.from_text) in
      let rest : held_length m - k ≡ m.end - m.cur = omega (arith, ok.from_text, ok.within) in
      ap (λ t. t ++ left m.input)
        (ap (λ n. take n (drop m.cur m.buf)) (sym rest)
          ∙ ap (λ n. take (held_length m - k) (drop n m.buf)) (sym at)
          ∙ ap (λ t. take (held_length m - k) t) (sym (drop-drop k m.txt m.buf))
          ∙ sym (drop-take k (held_length m) (drop m.txt m.buf)))
      ∙ sym (
          drop-append_le k (buffered left IsOpen m) (left m.input)
            (omega (arith, length-buffered left IsOpen m ok, ok.within)))

  pub begin-IsMatcher : (m : Matcher E) → IsSettled m → Good (begin_find (begin_scan m))
  unfolding begin_scan begin_find
  begin-IsMatcher m s =
      let ok = s.good in
      record {
        allocated = ok.allocated;
        room = ok.room;
        small = ok.small;
        from_text = omega arith;
        read_text = omega (arith, s.settled);
        indent_text = omega (arith, s.settled);
        within = ok.within;
        reached = ok.reached;
        margin = ok.reached;
        counted = omega (arith, ok.counted, ok.from_text);
        unblocked = ok.unblocked;
        plain_text = ok.plain_text;
        ended = ok.ended;
        short =
            omega
              (arith, ap length (window-begin m ok), length-drop (m.cur - m.txt) (win m), ok.short);
        open_input = ok.open_input;
      }

  -- The current position is set to an index of the text.
  char_before_total :
      (cells : List ℕ) (loc : ℕ)
      → loc ≤ length cells
      → (got : ℕ) × (char_before cells loc ≡ done got)
  unfolding char_before
  char_before_total cells zero inside = (const_unk, refl)
  char_before_total cells (suc loc) inside =
      let (got, e) = get_elem?_total cells loc (omega arith) in (got, rw e refl)

  abbrev placed_at : ℕ → ℕ → Matcher E → Matcher E
  placed_at loc got m = record m { pos = loc; cur = loc; got = got }

  placed_at-IsMatcher :
      (loc got : ℕ) (m : Matcher E)
      → Good m
      → m.txt ≤ loc
      → loc ≤ m.end
      → Good (placed_at loc got m)
  placed_at-IsMatcher loc got m ok from_ upto = record {
    allocated = ok.allocated;
    room = ok.room;
    small = ok.small;
    from_text = from_;
    read_text = from_;
    indent_text = ok.indent_text;
    within = upto;
    reached = upto;
    margin = ok.margin;
    counted = ok.counted;
    unblocked = ok.unblocked;
    plain_text = ok.plain_text;
    ended = ok.ended;
    short = ok.short;
    open_input = ok.open_input;
  }

  matcher_set_current_lem :
      (m : Matcher E)
      → Good m
      → (got : ℕ) × (matcher_set_current m.cur m ≡ done (placed_at m.cur got m))
        × Good (placed_at m.cur got m)
  unfolding matcher_set_current
  matcher_set_current_lem m ok =
      let (got, e) =
        char_before_total m.buf m.cur (omega (arith, ok.within, ok.room, ok.allocated)) in
      (got, rw e refl, placed_at-IsMatcher m.cur got m ok ok.from_text ok.within)

  -- The text of a match, or of none.
  pub measure_text-IsMatcher : (m : Matcher E) → Good m → Good (measure_text m)
  unfolding measure_text
  measure_text-IsMatcher m ok = record {
    allocated = ok.allocated;
    room = ok.room;
    small = ok.small;
    from_text = ground (arith, ok.from_text);
    read_text = ok.read_text;
    indent_text = ok.indent_text;
    within = ground (arith, ok.from_text, ok.within);
    reached = ok.reached;
    margin = ok.margin;
    counted = ok.counted;
    unblocked = ok.unblocked;
    plain_text = ok.plain_text;
    ended = ok.ended;
    short = ok.short;
    open_input = ok.open_input;
  }

  measure_text-sub64 :
      (m : Matcher E) → (measure_text m).len ≡ sub64 (measure_text m).cur (measure_text m).txt
  unfolding measure_text
  measure_text-sub64 m = refl

  pub measure_text-len :
      (m : Matcher E) → Good m → (measure_text m).len ≡ (measure_text m).cur - (measure_text m).txt
  measure_text-len m ok =
      let ok' = measure_text-IsMatcher m ok in
      measure_text-sub64 m
      ∙ sub64_le (measure_text m).cur (measure_text m).txt ok'.from_text
          (omega (arith, ok'.within, ok'.room, ok'.small))

  check_stops_none : (m : Matcher E) → m.mrk ≡ false → check_stops m ≡ done m
  unfolding check_stops
  check_stops_none m e =
      ap (λ b. if b && not (m.cap_index == const_redo) then update_stops m else done m) e

  check_dedents_none :
      (bol : Bool) (m : Matcher E) → m.ded ≡ 0 → check_dedents bol m ≡ done (false, m)
  unfolding check_dedents
  check_dedents_none bol m e = ground (arith, e)

  -- The matcher as the automaton gets it.
  abbrev pub given_to : Bool → Matcher E → Matcher E
  given_to bol m = record m {
    lap = record (m.lap) { items = [] };
    cap_index = 0;
    fsm = record (m.fsm) { bol = bol; nul = false };
  }

  -- A text that is accepted; or one that is ignored, which is not empty.
  pub accept_text_lem :
      (m : Matcher E)
      → Good m
      → m.ded ≡ 0
      → (again : Bool) × (m' : Matcher E) × (accept_text m ≡ done (again, m'))
        × IsSettled m'
        × (win m' ≡ win m)
        × (m'.cur ≡ m.cur)
        × (m'.txt ≡ m.txt)
        × (again ≡ true → (0 < m.len) × (m.cap_index ≡ const_redo) × (m.opt.any ≡ false))
        × (again ≡ false
            → (m'.len ≡ m.len)
              × (m'.cap_index ≡ m.cap_index)
              × (0 < m.len → m.cap_index ≡ const_redo → m.opt.any ≡ true))
  unfolding accept_text
  accept_text_lem m ok dedents =
      let (got, e, ok') = matcher_set_current_lem m ok in
      let m₁ = placed_at m.cur got m in
      elim (Bool-cases (ltb 0 m.len && m.cap_index == const_redo && not m.opt.any)) [
        | inl ignored ↦ (
          true,
          record m₁ { len = 0 },
          rw (e, ignored) refl,
          record { good = ok'; settled = refl; no_dedents = dedents },
          refl,
          refl,
          refl,
          λ _. redo (ltb 0 m.len) (m.cap_index == const_redo) m.opt.any refl refl ignored,
          λ f. cc,
        )
        | inr kept ↦ (
          false,
          m₁,
          rw (e, kept) refl,
          record { good = ok'; settled = refl; no_dedents = dedents },
          refl,
          refl,
          refl,
          λ t. cc,
          λ _. (refl, refl, λ some_text is_redo. any_text m.opt.any some_text is_redo kept),
        )
      ]
    where
      redo :
          (p q r : Bool)
          → ltb 0 m.len ≡ p
          → (m.cap_index == const_redo) ≡ q
          → (p && q && not r) ≡ true
          → (0 < m.len) × (m.cap_index ≡ const_redo) × (r ≡ false)
      redo p q r is_p is_q h = (
        ltb→lt 0 m.len (is_p ∙ first p q r h),
        (==_iff m.cap_index const_redo).0 (is_q ∙ second p q r h),
        third p q r h,
      )
        where
          first : (p q r : Bool) → (p && q && not r) ≡ true → p ≡ true
          first p q r h = ground arith

          second : (p q r : Bool) → (p && q && not r) ≡ true → q ≡ true
          second p q r h = ground arith

          third : (p q r : Bool) → (p && q && not r) ≡ true → r ≡ false
          third p q r h = ground arith

      any_text :
          (r : Bool)
          → 0 < m.len
          → m.cap_index ≡ const_redo
          → (ltb 0 m.len && m.cap_index == const_redo && not r) ≡ false
          → r ≡ true
      any_text r some_text is_redo h = ground (arith, some_text, is_redo, h)

  module _ (get : E → ℕ → List ℕ × E) (realloc : List ℕ → ℕ → List ℕ)
      (reader : IsReader get left IsOpen) (rl : IsRealloc realloc) where
    at_end_peeks :
        (m : Matcher E) (o : Outcome (ℤ × Matcher E))
        → ltb m.pos m.end ≡ false
        → m.eof ≡ false
        → matcher_peek get realloc m ≡ o
        → matcher_at_end get realloc m ≡ (o >>= λ r. done (eqb_ℤ (r.0) eof_char, r.1))
    unfolding matcher_at_end
    at_end_peeks m o behind unseen e = rw behind (
        ap
          (λ b.
            if b
            then done (true, m)
            else matcher_peek get realloc m >>= λ r. done (eqb_ℤ (r.0) eof_char, r.1))
          unseen
        ∙ ap (λ p. p >>= λ r. done (eqb_ℤ (r.0) eof_char, r.1)) e)

    at_end_seen :
        (m : Matcher E)
        → ltb m.pos m.end ≡ false
        → m.eof ≡ true
        → matcher_at_end get realloc m ≡ done (true, m)
    unfolding matcher_at_end
    at_end_seen m behind seen = rw behind (
        ap
          (λ b.
            if b
            then done (true, m)
            else matcher_peek get realloc m >>= λ r. done (eqb_ℤ (r.0) eof_char, r.1))
          seen)

    at_end_inside :
        (m : Matcher E) → ltb m.pos m.end ≡ true → matcher_at_end get realloc m ≡ done (false, m)
    unfolding matcher_at_end
    at_end_inside m inside = rw inside refl

    -- The test for the end may read more of the input, and keeps the text.
    matcher_at_end-SameText :
        (m : Matcher E)
        → Good m
        → (b : Bool) × (m' : Matcher E) × (matcher_at_end get realloc m ≡ done (b, m'))
          × Good m'
          × SameText left IsOpen m m'
    matcher_at_end-SameText m ok = elim (Bool-cases (ltb m.pos m.end)) [
      | inl inside ↦ (false, m, at_end_inside m inside, ok, SameText-refl left IsOpen m)
      | inr behind ↦ elim (Bool-cases m.eof) [
        | inl seen ↦ (true, m, at_end_seen m behind seen, ok, SameText-refl left IsOpen m)
        | inr unseen ↦
            let (r, m', e, ok', text, reads) =
              matcher_peek-Reads left IsOpen get realloc reader rl m ok in
            (eqb_ℤ r eof_char, m', at_end_peeks m (done (r, m')) behind unseen e, ok', text)
      ]
    ]

    pub reject_text_lem :
        (m : Matcher E)
        → Good m
        → m.cur ≡ m.txt
        → m.ded ≡ 0
        → (m' : Matcher E) × (reject_text get realloc m ≡ done (false, m'))
          × IsSettled m'
          × (win m' ≡ win m)
          × (m'.cur ≡ m'.txt)
          × (m'.len ≡ m.len)
          × (m'.cap_index ≡ 0)
    unfolding reject_text
    reject_text_lem m ok empty dedents =
        let start = placed_at-IsMatcher m.cur m.got m ok ok.from_text ok.within in
        let (b, m₁, e₁, ok₁, text) = matcher_at_end-SameText (record m { pos = m.cur }) start in
        let (got, e₂, ok₂) = matcher_set_current_lem m₁ ok₁ in
        (
          record (placed_at m₁.cur got m₁) { cap_index = 0 },
          rw (e₁, e₂) refl,
          record { good = ok₂; settled = refl; no_dedents = text.same_ded ∙ dedents },
          text.same_window,
          omega (arith, text.same_cur, empty, ok₁.from_text),
          text.same_len,
          refl,
        )

  module _ (get : E → ℕ → List ℕ × E) (realloc : List ℕ → ℕ → List ℕ)
      (fsm : Matcher E → Outcome (Matcher E)) where
    pub attempt_computes :
        (bol : Bool) (m m₁ : Matcher E)
        → fsm (given_to bol m) ≡ done m₁
        → m₁.mrk ≡ false
        → m₁.ded ≡ 0
        → attempt get realloc fsm bol m ≡ done m₁
    unfolding attempt attempt_once
    attempt_computes bol m m₁ run marks dedents =
        rw
          (
            resize-zero m.lap (pos 0),
            run,
            check_stops_none m₁ marks,
            check_dedents_none bol m₁ dedents,
          )
          refl
