-- ===== src/Lexer/Matcher/Split.antt =====
-- `matcher_scan` with an automaton that does not ask for indentation: it splits the input into what is
-- ignored, a text, and the rest.
use mathlib.Core.List.{append_assoc}
use neoast.Common.{
  ℕ, zero, suc, ◌-◌, ◌≤◌, ◌<◌, ◌≡◌, refl, List, [], ◌++◌, length, take, Bool, true, false, ◌==◌,
  some, inl, inr,
}
use neoast.Common.{
  if◌then◌else◌, subst, length-take_le, Outcome, done, ap, sym, ◌∙◌, arith, Bool-cases,
  length-append, length-drop, take-append-drop, ==_iff,
}
use neoast.Lexer.Input.Get.{Input}
use neoast.Lexer.Matcher.{Matcher, const_redo}
use neoast.Lexer.Matcher.TextBack.{IsLeft, reset_text-IsLeft}
use neoast.Lexer.Matcher.Buffer.{matcher_at_bol}
use neoast.Lexer.Matcher.Scan.{
  begin_scan, begin_find, attempt, measure_text, accept_text, reject_text, finish, scan_once,
  scan_from, matcher_scan,
}
use neoast.Lexer.Matcher.Window.{IsReader, IsRealloc, buffered}
use neoast.Lexer.Matcher.Grow.{length-buffered}
use neoast.Lexer.Matcher.Scans.{
  Good, win, unread, IsSettled, IsAutomaton, given_to, window-begin, begin-IsMatcher,
  measure_text-IsMatcher, measure_text-len, attempt_computes, reject_text_lem, accept_text_lem,
}

module _ {E : Type 0} (left : Input E → List ℕ) (IsOpen : Input E → Type 0)
    (get : E → ℕ → List ℕ × E) (realloc : List ℕ → ℕ → List ℕ) (reader : IsReader get left IsOpen)
    (rl : IsRealloc realloc) where
  -- What follows a run of the automaton that has left `m`, with the text measured: the text is ignored
  -- because the automaton says so, or it is the result, or there is none.
  pub record IsScanned (window : List ℕ) (again : Bool) (m m' : Matcher E) : Type 0 where
    pub state : IsSettled left IsOpen m'
    pub same_window : win left IsOpen m' ≡ window
    pub ignored :
        again ≡ true
        → (0 < m.len) × (m'.cur - m'.txt ≡ m.len) × (m.cap_index ≡ const_redo) × (m.opt.any ≡ false)
    pub measured : again ≡ false → (m'.len ≡ m'.cur - m'.txt) × (m'.len ≡ m.len)
    pub nothing : again ≡ false → m.len ≡ 0 → m'.cap_index ≡ 0
    pub found :
        again ≡ false
        → 0 < m.len
        → (m'.cap_index ≡ m.cap_index) × (m.cap_index ≡ const_redo → m.opt.any ≡ true)

  finish_rejects :
      (m : Matcher E)
      → (m.len == 0) ≡ true
      → m.fsm.nul ≡ false
      → finish get realloc m ≡ reject_text get realloc m
  unfolding finish
  finish_rejects m empty nul = ground (arith, empty, nul)

  finish_accepts : (m : Matcher E) → (m.len == 0) ≡ false → finish get realloc m ≡ accept_text m
  unfolding finish
  finish_accepts m some_text = ground (arith, some_text)

  finish-IsScanned :
      (m : Matcher E)
      → Good left IsOpen m
      → m.ded ≡ 0
      → m.fsm.nul ≡ false
      → m.len ≡ m.cur - m.txt
      → (again : Bool) × (m' : Matcher E) × (finish get realloc m ≡ done (again, m'))
        × IsScanned (win left IsOpen m) again m m'
  finish-IsScanned m ok dedents nul measured = elim (Bool-cases (m.len == 0)) [
    | inl empty ↦
        let zero_len : m.len ≡ 0 = (==_iff m.len 0).0 empty in
        let (m', e, settled, kept, at, same_len, none_matched) =
          reject_text_lem left IsOpen get realloc reader rl m ok
            (omega (arith, zero_len, measured, ok.from_text)) dedents in
        (
          false,
          m',
          finish_rejects m empty nul ∙ e,
          record {
            state = settled;
            same_window = kept;
            ignored = λ t. cc;
            measured = λ _. (omega (arith, at, same_len, zero_len), same_len);
            nothing = λ _ _. none_matched;
            found = λ _ some_len. absurd (omega (arith, some_len, zero_len));
          },
        )
    | inr some_text ↦
        let (again, m', e, settled, kept, at, from_, ignored, same_len) =
          accept_text_lem left IsOpen m ok dedents in
        let some_len : 0 < m.len = ground (arith, some_text) in
        let width : m'.cur - m'.txt ≡ m.len = omega (arith, at, from_, measured) in
        (
          again,
          m',
          finish_accepts m some_text ∙ e,
          record {
            state = settled;
            same_window = kept;
            ignored = λ t. let (long, redo, not_any) = ignored t in (long, width, redo, not_any);
            measured = λ f. ((same_len f).0 ∙ sym width, (same_len f).0);
            nothing = λ _ zero_len. absurd (omega (arith, some_len, zero_len));
            found = λ f long. ((same_len f).1, (same_len f).2 long);
          },
        )
  ]

  module _ (fsm : Matcher E → Outcome (Matcher E)) (automaton : IsAutomaton left IsOpen fsm) where
    scan_once_computes :
        (m m₁ : Matcher E)
        → attempt get realloc fsm
            (matcher_at_bol (begin_find (begin_scan m)))
            (begin_find (begin_scan m))
          ≡ done m₁
        → scan_once get realloc fsm m ≡ finish get realloc (measure_text m₁)
    unfolding scan_once
    scan_once_computes m m₁ e = rw e refl

    no_marks : (m : Matcher E) → (begin_find (begin_scan m)).mrk ≡ false
    unfolding begin_find begin_scan
    no_marks m = refl

    same_dedents : (m : Matcher E) → (begin_find (begin_scan m)).ded ≡ m.ded
    unfolding begin_find begin_scan
    same_dedents m = refl

    same_after :
        (m : Matcher E) → ((measure_text m).ded ≡ m.ded) × ((measure_text m).fsm.nul ≡ m.fsm.nul)
    unfolding measure_text
    same_after m = (refl, refl)

    -- The text of a run: what the automaton has moved over, if it has matched.
    same_match :
        (m : Matcher E)
        → ((measure_text m).cap_index ≡ m.cap_index) × ((measure_text m).opt ≡ m.opt)
    unfolding measure_text
    same_match m = (refl, refl)

    -- The length of the text that the automaton has matched, 0 for none.
    abbrev pub matched : Matcher E → ℕ
    matched m = if m.cap_index == 0 then 0 else m.cur - m.txt

    matched_cur : (m : Matcher E) → (measure_text m).cur - (measure_text m).txt ≡ matched m
    unfolding measure_text
    matched_cur m = ground arith

    window-measure : (m : Matcher E) → win left IsOpen (measure_text m) ≡ win left IsOpen m
    unfolding measure_text
    window-measure m = refl

    -- The matcher as the automaton gets it in a scan, and what the automaton makes of it.
    abbrev pub begun : Matcher E → Matcher E
    begun m = let m₀ = begin_find (begin_scan m) in given_to left IsOpen (matcher_at_bol m₀) m₀

    scan_once-IsScanned :
        (m : Matcher E)
        → IsSettled left IsOpen m
        → (a : Matcher E) × (again : Bool) × (m' : Matcher E) × (fsm (begun m) ≡ done a)
          × (scan_once get realloc fsm m ≡ done (again, m'))
          × ((measure_text a).len ≡ matched a)
          × IsScanned (unread left IsOpen m) again (measure_text a) m'
    scan_once-IsScanned m s =
        let m₀ = begin_find (begin_scan m) in
        let bol = matcher_at_bol m₀ in
        let (m₁, run, ok₁, kept, marks, dedents, nul) =
          automaton.runs (given_to left IsOpen bol m₀) (begin-IsMatcher left IsOpen m s)
            (no_marks m) (same_dedents m ∙ s.no_dedents) refl in
        let same = same_after m₁ in
        let (again, m', e, scanned) =
          finish-IsScanned (measure_text m₁) (measure_text-IsMatcher left IsOpen m₁ ok₁)
            (same.0 ∙ dedents) (same.1 ∙ nul) (measure_text-len left IsOpen m₁ ok₁) in
        (
          m₁,
          again,
          m',
          run,
          scan_once_computes m m₁
                (attempt_computes left IsOpen get realloc fsm bol m₀ m₁ run marks dedents)
              ∙ e,
          measure_text-len left IsOpen m₁ ok₁ ∙ matched_cur m₁,
          record {
            state = scanned.state;
            same_window =
                scanned.same_window ∙ window-measure m₁ ∙ kept ∙ window-begin left IsOpen m s.good;
            ignored = scanned.ignored;
            measured = scanned.measured;
            nothing = scanned.nothing;
            found = scanned.found;
          },
        )

    -- The text of a scan.
    abbrev pub text_of : Matcher E → List ℕ
    text_of m = take m.len (win left IsOpen m)

    -- The runs of the automaton in a scan that ends in `m'`, from `m` on, and what they have ignored: a
    -- text that is not empty is ignored if the automaton says `const_redo` and the option `any` is not
    -- set, and otherwise it is the text of the scan, with the automaton's index; after no text the index
    -- is 0.
    pub data Ignores (m' : Matcher E) : Matcher E → List ℕ → Type 0 where
      no_text :
          {m : Matcher E} (a : Matcher E)
          → fsm (begun m) ≡ done a
          → matched a ≡ 0
          → m'.len ≡ 0
          → m'.cap_index ≡ 0
          → Ignores m' m []
      some_text :
          {m : Matcher E} (a : Matcher E)
          → fsm (begun m) ≡ done a
          → 0 < matched a
          → m'.len ≡ matched a
          → m'.cap_index ≡ a.cap_index
          → (a.cap_index ≡ const_redo → a.opt.any ≡ true)
          → Ignores m' m []
      redo :
          {m m₁ : Matcher E} {rest : List ℕ} (a : Matcher E) (piece : List ℕ)
          → fsm (begun m) ≡ done a
          → 0 < matched a
          → length piece ≡ matched a
          → a.cap_index ≡ const_redo
          → a.opt.any ≡ false
          → unread left IsOpen m ≡ piece ++ unread left IsOpen m₁
          → Ignores m' m₁ rest
          → Ignores m' m (piece ++ rest)

    -- What a scan makes of the input before it: something ignored, the text, and the rest.
    pub record Splits (m m' : Matcher E) : Type 0 where
      pub state : IsSettled left IsOpen m'
      pub ignored : List ℕ
      pub runs : Ignores m' m ignored
      pub parts : unread left IsOpen m ≡ ignored ++ (text_of m' ++ unread left IsOpen m')

    again_from :
        (fuel : ℕ) (m m' : Matcher E)
        → scan_once get realloc fsm m ≡ done (true, m')
        → scan_from get realloc fsm (suc fuel) m ≡ scan_from get realloc fsm fuel m'
    unfolding scan_from
    again_from fuel m m' e = rw e refl

    ends_with :
        (fuel : ℕ) (m m' : Matcher E)
        → scan_once get realloc fsm m ≡ done (false, m')
        → scan_from get realloc fsm (suc fuel) m ≡ done (some (m'.cap_index, m'))
    unfolding scan_from
    ends_with fuel m m' e = rw e refl

    -- The text that the window begins with, and what is behind it.
    shorter :
        (m' : Matcher E) (k : ℕ)
        → IsSettled left IsOpen m'
        → k ≡ m'.cur - m'.txt
        → k ≤ length (win left IsOpen m')
    shorter m' k s e = omega (
      arith,
      e,
      length-append (buffered left IsOpen m') (left m'.input),
      length-buffered left IsOpen m' s.good,
      s.good.within,
    )

    -- The last run of a scan.
    last_run :
        (m a m' : Matcher E)
        → fsm (begun m) ≡ done a
        → (measure_text a).len ≡ matched a
        → IsScanned (unread left IsOpen m) false (measure_text a) m'
        → Ignores m' m []
    last_run m a m' run long scanned = by_length (matched a) refl
      where
        by_length : (n : ℕ) → matched a ≡ n → Ignores m' m []
        by_length zero e =
            let none_there : (measure_text a).len ≡ 0 = long ∙ e in
            no_text a run e ((scanned.measured refl).1 ∙ none_there)
              (scanned.nothing refl none_there)
        by_length (suc n) e =
            let some_there : 0 < matched a = omega (arith, e) in
            let result = scanned.found refl (omega (arith, long, some_there)) in
            some_text a run some_there ((scanned.measured refl).1 ∙ long)
              (result.0 ∙ (same_match a).0)
              (λ is_redo.
                ap (λ o. o.any) (sym (same_match a).1) ∙ result.1 ((same_match a).0 ∙ is_redo))

    scan_from-Splits :
        (fuel : ℕ) (m : Matcher E)
        → IsSettled left IsOpen m
        → length (unread left IsOpen m) < fuel
        → (m' : Matcher E) × (scan_from get realloc fsm fuel m ≡ done (some (m'.cap_index, m')))
          × Splits m m'
    scan_from-Splits zero m s enough = absurd (omega arith)
    scan_from-Splits (suc fuel) m s enough =
        let (a, again, m₁, run, e, long, scanned) = scan_once-IsScanned m s in
        let k = m₁.cur - m₁.txt in
        elim (Bool-cases again) [
          | inl yes_again ↦
              let fits = shorter m₁ k scanned.state refl in
              let (some_len, width, is_redo, not_any) = scanned.ignored yes_again in
              let piece = take k (win left IsOpen m₁) in
              let cut : unread left IsOpen m ≡ piece ++ unread left IsOpen m₁ =
                sym scanned.same_window ∙ sym (take-append-drop k (win left IsOpen m₁)) in
              let (m', e', split) = scan_from-Splits fuel m₁ scanned.state (
                omega (
                  arith,
                  enough,
                  ap length scanned.same_window,
                  length-drop k (win left IsOpen m₁),
                  some_len,
                  width,
                  fits,
                )) in
              (
                m',
                again_from fuel m m₁ (e ∙ ap (λ b. done (b, m₁)) yes_again) ∙ e',
                record {
                  state = split.state;
                  ignored = piece ++ split.ignored;
                  runs =
                      redo a piece run (omega (arith, some_len, long))
                        (length-take_le k (win left IsOpen m₁) fits ∙ width ∙ long)
                        (sym (same_match a).0 ∙ is_redo)
                        (ap (λ o. o.any) (sym (same_match a).1) ∙ not_any) cut split.runs;
                  parts =
                      cut
                      ∙ ap (λ t. piece ++ t) split.parts
                      ∙ sym
                          (append_assoc piece split.ignored (text_of m' ++ unread left IsOpen m'));
                },
              )
          | inr no_more ↦
              let scanned' : IsScanned (unread left IsOpen m) false (measure_text a) m₁ =
                subst (λ b. IsScanned (unread left IsOpen m) b (measure_text a) m₁) no_more
                  scanned in
              (
                m₁,
                ends_with fuel m m₁ (e ∙ ap (λ b. done (b, m₁)) no_more),
                record {
                  state = scanned.state;
                  ignored = [];
                  runs = last_run m a m₁ run long scanned';
                  parts =
                      sym scanned.same_window
                      ∙ sym (take-append-drop k (win left IsOpen m₁))
                      ∙ ap (λ n. take n (win left IsOpen m₁) ++ unread left IsOpen m₁)
                          (sym (scanned.measured no_more).0);
                },
              )
        ]

    -- From a matcher that was settled, and on which `matcher_text` may have been called since, with an
    -- automaton that keeps the matcher well formed and leaves the marks of indentation alone, and with
    -- fuel for more rounds than bytes are left, `matcher_scan` returns without a fault. What was left of
    -- the input is what the scan ignored, the text that it found, and what is left now: each ignored
    -- part is a match for which the automaton said CONST_REDO, without the option `any`, and the text is
    -- the first match for which that is not so, with the index of the automaton, or it is empty, with
    -- the index 0, where the automaton has matched nothing.
    pub matcher_scan-Splits :
        (fuel : ℕ) (m₀ m : Matcher E)
        → IsSettled left IsOpen m₀
        → IsLeft m₀ m
        → length (unread left IsOpen m₀) < fuel
        → (m' : Matcher E) × (matcher_scan get realloc fsm fuel m ≡ done (some (m'.cap_index, m')))
          × Splits (record m₀ { len = 0 }) m'
    unfolding matcher_scan
    matcher_scan-Splits fuel m₀ m s from_ enough =
        let started : IsSettled left IsOpen (record m₀ { len = 0 }) = record {
          good = s.good;
          settled = s.settled;
          no_dedents = s.no_dedents;
        } in
        rw (reset_text-IsLeft m₀ m s.good.plain_text from_)
          (scan_from-Splits fuel (record m₀ { len = 0 }) started enough)
