-- ===== src/Lexer/Matcher/Reads.antt =====
-- `matcher_get` and `matcher_peek` deliver the characters of the input in order, through any growth
-- of the buffer.
use mathlib.Core.List.{append_assoc}
use neoast.Common.{
  ℕ, ◌+◌, ◌-◌, ◌≤◌, ◌<◌, ◌≡◌, refl, List, [], ◌∷◌, ◌++◌, length, take, drop, false, get_elem?,
  Option, none,
}
use neoast.Common.{
  done, ap, sym, ◌∙◌, arith, inl, inr, ltb, leb, if◌then◌else◌, sub64, sub64_le, Bool-cases,
}
use neoast.Common.{
  take-append_le, take-append_ge, length-take_le, length-drop, length-append, drop-append_le,
  drop-take, take-length,
}
use neoast.Common.{get_elem?-drop, get_elem?-take, get_elem?-append_lt, get_elem?-ge, leb_false→lt}
use neoast.Lexer.Input.Get.{Input, input_get}
use neoast.Lexer.Matcher.{Matcher, const_block}
use neoast.Lexer.Matcher.Buffer.{fill, matcher_get_1, grow_if_full, read_more}
use neoast.Lexer.Matcher.Window.{IsReader, IsRealloc, held_length, offset, buffered, window}
use neoast.Lexer.Matcher.Grow.{
  Valid, Same, length-buffered, SamePlace-refl, SamePlace-trans, matcher_grow-SamePlace,
}

fill_lem :
    (cells : List ℕ) (at : ℕ) (bytes : List ℕ)
    → at + length bytes ≤ length cells
    → fill cells at bytes ≡ done (take at cells ++ (bytes ++ drop (at + length bytes) cells))
unfolding fill
fill_lem cells at bytes fits = ground arith

append-eq-nil : (xs ys : List ℕ) → xs ++ ys ≡ [] → ys ≡ []
append-eq-nil [] ys e = e
append-eq-nil (x ∷ xs) ys e = cc

module _ {E : Type 0} (left : Input E → List ℕ) (IsOpen : Input E → Type 0) where
  -- The character at `pos_`.
  abbrev pub next_char : Matcher E → Option ℕ
  next_char m = get_elem? (window left IsOpen m) (offset m)

  pub next_char-buffered :
      (m : Matcher E) → Valid left IsOpen m → m.pos < m.end → next_char m ≡ get_elem? m.buf m.pos
  next_char-buffered m ok inside =
      let back : m.txt + (m.pos - m.txt) ≡ m.pos = omega (arith, ok.read_text) in
      get_elem?-append_lt (buffered left IsOpen m) (left m.input) (offset m)
        (omega (arith, length-buffered left IsOpen m ok, inside, ok.read_text))
      ∙ get_elem?-take (held_length m) (offset m) (drop m.txt m.buf)
          (omega (arith, inside, ok.read_text))
      ∙ get_elem?-drop m.txt (offset m) m.buf
      ∙ ap (λ i. get_elem? m.buf i) back

  pub next_char-end :
      (m : Matcher E) → Valid left IsOpen m → m.end ≤ m.pos → left m.input ≡ [] → next_char m ≡ none
  next_char-end m ok behind empty = get_elem?-ge (window left IsOpen m) (offset m) (
      omega (
        arith,
        length-append (buffered left IsOpen m) (left m.input),
        length-buffered left IsOpen m ok,
        ap length empty,
        behind,
        ok.read_text,
      ))

  -- After bytes were read behind the end.
  abbrev filled : List ℕ → Input E → Matcher E → Matcher E
  filled bytes next m = record m {
    buf = take m.end m.buf ++ (bytes ++ drop (m.end + length bytes) m.buf);
    input = next;
    end = m.end + length bytes;
  }

  module _ (m : Matcher E) (bytes : List ℕ) (next : Input E) (ok : Valid left IsOpen m)
      (inside : m.end + length bytes < m.max) (delivered : left m.input ≡ bytes ++ left next) where
    buffered-filled : buffered left IsOpen (filled bytes next m) ≡ buffered left IsOpen m ++ bytes
    buffered-filled =
        let behind = drop (m.end + length bytes) m.buf in
        let b = buffered left IsOpen m in
        let k = held_length m in
        let size : length b ≡ k = length-buffered left IsOpen m ok in
        let total : m.end + length bytes - m.txt ≡ k + length bytes =
          omega (arith, ok.from_text, ok.within) in
        let rest : k + length bytes - length b ≡ length bytes = omega (arith, size) in
        ap (λ n. take n (drop m.txt (take m.end m.buf ++ (bytes ++ behind)))) total
        ∙ ap (λ t. take (k + length bytes) t)
            (drop-append_le m.txt (take m.end m.buf) (bytes ++ behind) (
                omega (
                  arith,
                  length-take_le m.end m.buf,
                  ok.from_text,
                  ok.within,
                  ok.room,
                  ok.allocated,
                ))
              ∙ ap (λ t. t ++ (bytes ++ behind)) (drop-take m.txt m.end m.buf))
        ∙ take-append_ge (k + length bytes) b (bytes ++ behind) (omega (arith, size))
        ∙ ap (λ n. b ++ take n (bytes ++ behind)) rest
        ∙ ap (λ t. b ++ t)
            (take-append_le (length bytes) bytes behind (omega arith) ∙ take-length bytes)

    window-filled : window left IsOpen (filled bytes next m) ≡ window left IsOpen m
    window-filled =
        ap (λ t. t ++ left next) buffered-filled
        ∙ append_assoc (buffered left IsOpen m) bytes (left next)
        ∙ ap (λ t. buffered left IsOpen m ++ t) (sym delivered)

    filled-IsMatcher : IsOpen next → m.eof ≡ false → Valid left IsOpen (filled bytes next m)
    filled-IsMatcher opened more_left = record {
      allocated = omega (
        arith,
        length-append (take m.end m.buf) (bytes ++ drop (m.end + length bytes) m.buf),
        length-append bytes (drop (m.end + length bytes) m.buf),
        length-take_le m.end m.buf,
        length-drop (m.end + length bytes) m.buf,
        ok.allocated,
        ok.room,
        inside,
      );
      room = inside;
      small = ok.small;
      from_text = ok.from_text;
      read_text = ok.read_text;
      indent_text = ok.indent_text;
      within = omega (arith, ok.within);
      reached = omega (arith, ok.reached);
      margin = omega (arith, ok.margin);
      counted = ok.counted;
      unblocked = ok.unblocked;
      plain_text = ok.plain_text;
      ended = λ e. cc;
      short = omega (arith, ok.short, ap length window-filled);
      open_input = opened;
    }

    filled-SamePlace : Same left IsOpen m (filled bytes next m)
    filled-SamePlace = record {
      same_window = window-filled;
      same_cur = refl;
      same_pos = refl;
      same_ind = refl;
      same_eof = refl;
      same_len = refl;
      same_ded = refl;
      same_mrk = refl;
      same_fsm = refl;
    }

    matcher_get_1-filled :
        (get : E → ℕ → List ℕ × E) (n : ℕ)
        → input_get get m.input n ≡ done (bytes, next)
        → matcher_get_1 get m n ≡ done (filled bytes next m)
    unfolding matcher_get_1
    matcher_get_1-filled get n e =
        rw (e, fill_lem m.buf m.end bytes (omega (arith, inside, ok.allocated))) refl

  module _ (get : E → ℕ → List ℕ × E) (realloc : List ℕ → ℕ → List ℕ)
      (reader : IsReader get left IsOpen) (rl : IsRealloc realloc) where
    grow_if_full_lem :
        (m : Matcher E)
        → Valid left IsOpen m
        → (m' : Matcher E) × (grow_if_full realloc m ≡ done m')
          × Valid left IsOpen m'
          × Same left IsOpen m m'
          × (m'.end + 1 < m'.max)
    unfolding grow_if_full
    grow_if_full_lem m ok = elim (Bool-cases (leb m.max (m.end + m.blk + 1))) [
      | inl full ↦
          let (r, e, ok', same, room) =
            matcher_grow-SamePlace left IsOpen realloc rl m const_block ok (omega arith) in
          (r.1, rw (full, e) refl, ok', same, omega (arith, room))
      | inr roomy ↦ (
        m,
        rw roomy refl,
        ok,
        SamePlace-refl left IsOpen m,
        omega (arith, leb_false→lt m.max (m.end + m.blk + 1) roomy),
      )
    ]

    -- The size of the read.
    abbrev read_size : Matcher E → ℕ
    read_size m = if ltb 0 m.blk then m.blk else sub64 (sub64 m.max m.end) 1

    read_size_lem :
        (m : Matcher E) → Valid left IsOpen m → m.end + 1 < m.max → read_size m ≡ m.max - m.end - 1
    read_size_lem m ok room =
        ap (λ b. if ltb 0 b then b else sub64 (sub64 m.max m.end) 1) ok.unblocked
        ∙ ap (λ n. sub64 n 1) (sub64_le m.max m.end (omega (arith, room)) (omega (arith, ok.small)))
        ∙ sub64_le (m.max - m.end) 1 (omega (arith, room)) (omega (arith, ok.small))

    read_more_computes :
        (m m₁ m₂ : Matcher E)
        → grow_if_full realloc m ≡ done m₁
        → matcher_get_1 get m₁ (read_size m₁) ≡ done m₂
        → read_more get realloc m ≡ done m₂
    unfolding read_more
    read_more_computes m m₁ m₂ e₁ e₂ = rw (e₁, e₂) refl

    -- More input behind the end, if there is any.
    pub read_more_lem :
        (m : Matcher E)
        → Valid left IsOpen m
        → m.eof ≡ false
        → (m' : Matcher E) × (read_more get realloc m ≡ done m')
          × Valid left IsOpen m'
          × Same left IsOpen m m'
          × (m'.end ≤ m'.pos → left m'.input ≡ [])
    read_more_lem m ok more_left =
        let (m₁, e₁, ok₁, same₁, room) = grow_if_full_lem m ok in
        let size = read_size_lem m₁ ok₁ room in
        let (bytes, next, e₂, delivered, most, dry, opened) =
          reader.reads m₁.input (read_size m₁) ok₁.open_input in
        let inside : m₁.end + length bytes < m₁.max = omega (arith, most, size, room) in
        let m₂ = filled bytes next m₁ in
        (
          m₂,
          read_more_computes m m₁ m₂ e₁
              (matcher_get_1-filled m₁ bytes next ok₁ inside delivered get (read_size m₁) e₂),
          filled-IsMatcher m₁ bytes next ok₁ inside delivered opened (same₁.same_eof ∙ more_left),
          SamePlace-trans left IsOpen m m₁ m₂ same₁
              (filled-SamePlace m₁ bytes next ok₁ inside delivered),
          λ behind. append-eq-nil bytes (left next) (
              sym delivered ∙ dry (omega (arith, size, room)) (omega (arith, behind, ok₁.reached))),
        )
