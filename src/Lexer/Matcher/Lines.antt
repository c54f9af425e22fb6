-- ===== src/Lexer/Matcher/Lines.antt =====
-- `matcher_lineno` and `matcher_columno` of src/lexer/matcher.c.
use neoast.Common.{ℕ, ◌+◌, ◌-◌, ◌%◌, ◌^◌, List, [], ◌∷◌, ◌==◌, if◌then◌else◌, bit_and, sub64}
use neoast.Common.{Outcome, done, ◌>>=◌}
use neoast.Lexer.Input.{slice}
use neoast.Lexer.Matcher.{Matcher}

-- `1 + (~k & (T - 1))`: the columns from `k` to the next tab stop.
unfoldable pub tab_width : ℕ → ℕ → ℕ
tab_width tab_size k = 1 + bit_and (2 ^ 64 - 1 - k) (sub64 tab_size 1)

-- One round of the loop, on the line and the column.
unfoldable pub count_char : ℕ → ℕ × ℕ → ℕ → ℕ × ℕ
unfolding tab_width
count_char tab_size (n, k) c =
    if c == b'\n'
    then ((n + 1) % 2 ^ 64, 0)
    else if c == b'\t'
    then (n, (k + tab_width tab_size k) % 2 ^ 64)
    else (n, (k + (if bit_and c 0xC0 == 0x80 then 0 else 1)) % 2 ^ 64)

unfoldable pub count_chars : ℕ → ℕ × ℕ → List ℕ → ℕ × ℕ
unfolding count_char
count_chars tab_size at [] = at
count_chars tab_size at (c ∷ cs) = count_chars tab_size (count_char tab_size at c) cs

module _ {E : Type 0} where
  -- The loop runs from `lpb_` to `txt_`, and not at all if that is behind.
  unfoldable pub matcher_lineno : Matcher E → Outcome (ℕ × Matcher E)
  unfolding count_chars
  matcher_lineno m = do
    passed ← slice m.buf m.lpb (m.txt - m.lpb)
    let (n, k) = count_chars m.opt.tab_size (m.lno, m.cno) passed
    done (n, record m { lpb = m.txt; lno = n; cno = k })

  unfoldable pub matcher_columno : Matcher E → Outcome (ℕ × Matcher E)
  unfolding matcher_lineno
  matcher_columno m = do (_, m') ← matcher_lineno m; done (m'.cno, m')
