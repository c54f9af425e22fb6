-- ===== src/Lexer/Matcher/Indent.antt =====
-- The indentation of include/lexer/matcher_priv.h: `matcher_newline` and the tests of the tab stops.
use neoast.Common.{
  ℕ, zero, suc, ◌+◌, ◌-◌, ◌%◌, ◌^◌, Bool, true, false, ◌==◌, ltb, leb, ◌&&◌, ◌||◌, if◌then◌else◌,
}
use neoast.Common.{Outcome, done, ◌>>=◌, read}
use neoast.Lexer.Vector.{size}
use neoast.Lexer.Matcher.{Matcher}
use neoast.Lexer.Matcher.Lines.{tab_width}

module _ {E : Type 0} where
  -- `while (ind_ + 1 < pos_)`, with the rounds that are left.
  unfoldable pub count_indent : ℕ → Matcher E → Outcome (Matcher E)
  count_indent zero m = done m
  count_indent (suc rounds) m = do
    c ← read m.buf m.ind
    let width = if c == b'\t' then tab_width m.opt.tab_size m.col else 1
    count_indent rounds (record m { ind = m.ind + 1; col = (m.col + width) % 2 ^ 64 })

  unfoldable pub matcher_newline : Matcher E → Outcome (Matcher E)
  unfolding count_indent
  matcher_newline m = count_indent (m.pos - (m.ind + 1)) (record m { mrk = true })

  -- `VECTOR_AT(tab_, tab_.n - 1, size_t)`, read only where `tab_.n` is not 0.
  abbrev pub last_stop : Matcher E → Outcome ℕ
  last_stop m = read m.tab.items (size m.tab - 1)

  -- Whether there is a last stop and it passes the test.
  unfoldable pub with_stop : Matcher E → (ℕ → Bool) → Bool → Outcome Bool
  with_stop m test otherwise =
      if size m.tab == 0 then done otherwise else (do stop ← last_stop m; done (test stop))

  unfoldable pub matcher_indent : Matcher E → Outcome (Bool × Matcher E)
  unfolding matcher_newline with_stop
  matcher_indent m = do
    m' ← matcher_newline m
    deeper ← with_stop m' (λ stop. ltb stop m'.col) true
    done (ltb 0 m'.col && deeper, m')

  unfoldable pub matcher_dedent : Matcher E → Outcome (Bool × Matcher E)
  unfolding matcher_newline with_stop
  matcher_dedent m = do
    m' ← matcher_newline m
    shallower ← with_stop m' (λ stop. ltb m'.col stop) false
    done (shallower, m')

  unfoldable pub matcher_nodent : Matcher E → Outcome (Bool × Matcher E)
  unfolding matcher_newline with_stop
  matcher_nodent m = do
    m' ← matcher_newline m
    not_deeper ← with_stop m' (λ stop. leb m'.col stop) false
    not_shallower ← with_stop m' (λ stop. leb stop m'.col) true
    done ((leb m'.col 0 || not_deeper) && not_shallower, m')
