-- ===== src/Lexer/Matcher/LineLaws.antt =====
-- The line and the column of a text.
use neoast.Common.{
  ℕ, suc, ◌+◌, ◌-◌, ◌*◌, ◌/◌, ◌%◌, ◌^◌, ◌≤◌, ◌<◌, ◌≡◌, refl, List, [], ◌∷◌, length, Bool, true,
  false, ◌==◌, if◌then◌else◌, ◌&&◌, ltb, leb, bit_and, bit_and-7, sub64, each_index, each_index_at,
  arith,
}
use neoast.Common.{ap, ◌∙◌, sym, all, Bool-cases, inl, inr, ltb→lt, not, &&-elim}
use neoast.Lexer.Matcher.Lines.{tab_width, count_char, count_chars}

-- The newlines of a text.
unfoldable pub newlines : List ℕ → ℕ
newlines [] = 0
newlines (c ∷ cs) = if c == b'\n' then suc (newlines cs) else newlines cs

-- The column behind a text that starts in column `k`: a tab goes to the next multiple of eight, and
-- a character of UTF-8 takes one column, whatever its bytes.
unfoldable pub column : ℕ → List ℕ → ℕ
column k [] = k
column k (c ∷ cs) =
    column
      (if c == b'\n'
        then 0
        else if c == b'\t'
        then (k / 8 + 1) * 8
        else if leb 128 c && ltb c 192
        then k
        else k + 1)
      cs

count_char-line :
    (tab_size c : ℕ) (at : ℕ × ℕ)
    → (count_char tab_size at c).0 ≡ (if c == b'\n' then (at.0 + 1) % 2 ^ 64 else at.0)
unfolding count_char
count_char-line tab_size c at = ground arith

-- The line number, from below 2⁶⁴, grows by the newlines that were passed, modulo 2⁶⁴.
count_chars-newlines :
    (tab_size : ℕ) (at : ℕ × ℕ) (cs : List ℕ)
    → at.0 < 2 ^ 64
    → (count_chars tab_size at cs).0 ≡ (at.0 + newlines cs) % 2 ^ 64
unfolding count_chars newlines
count_chars-newlines tab_size at [] small = omega arith
count_chars-newlines tab_size at (c ∷ cs) small =
    let step = count_char-line tab_size c at in
    let ih = count_chars-newlines tab_size (count_char tab_size at c) cs in
    elim (Bool-cases (c == b'\n')) [
      | inl new ↦
          let e : (count_char tab_size at c).0 ≡ (at.0 + 1) % 2 ^ 64 =
            step ∙ ap (λ b. if b then (at.0 + 1) % 2 ^ 64 else at.0) new in
          rw new (omega (arith, ih (omega (arith, e)), e))
      | inr same ↦
          let e : (count_char tab_size at c).0 ≡ at.0 =
            step ∙ ap (λ b. if b then (at.0 + 1) % 2 ^ 64 else at.0) same in
          rw same (omega (arith, ih (omega (arith, e)), e))
    ]

-- The bytes of the form 10xxxxxx.
is_tail : ℕ → Bool
is_tail c = leb 128 c && ltb c 192

tail_table :
    each_index (λ c. (if bit_and c 0xC0 == 0x80 then is_tail c else not (is_tail c))) 256 ≡ true
unfolding each_index is_tail
tail_table = refl

tail_test : (c : ℕ) → c < 256 → (bit_and c 0xC0 == 0x80) ≡ (leb 128 c && ltb c 192)
unfolding is_tail
tail_test c small = agree (bit_and c 0xC0 == 0x80) (leb 128 c && ltb c 192) (
    each_index_at (λ c. (if bit_and c 0xC0 == 0x80 then is_tail c else not (is_tail c))) c 256 small
      tail_table)
  where
    agree : (a b : Bool) → (if a then b else not b) ≡ true → a ≡ b
    agree true b h = sym h
    agree false true h = cc
    agree false false h = refl

tab_width_eight : (k : ℕ) → k + 8 < 2 ^ 64 → k + tab_width 8 k ≡ (k / 8 + 1) * 8
unfolding tab_width sub64
tab_width_eight k small = omega (arith, bit_and-7 (2 ^ 64 - 1 - k))

-- The column after one character.
abbrev next_column : ℕ → ℕ → ℕ
next_column k c =
    if c == b'\n'
    then 0
    else if c == b'\t'
    then (k / 8 + 1) * 8
    else if leb 128 c && ltb c 192
    then k
    else k + 1

count_char-column :
    (c : ℕ) (at : ℕ × ℕ)
    → c < 256
    → at.1 + 8 < 2 ^ 64
    → (count_char 8 at c).1 ≡ next_column (at.1) c
unfolding count_char
count_char-column c at small fits =
    rw (tail_test c small) (ground (arith, tab_width_eight (at.1) fits))

next_column_bound : (k c : ℕ) → next_column k c ≤ k + 8
next_column_bound k c = ground arith

-- With tab stops of eight and a text of bytes the column number is the column behind the text, as
-- long as the count does not wrap.
pub count_chars-column :
    (at : ℕ × ℕ) (cs : List ℕ)
    → all (λ c. ltb c 256) cs ≡ true
    → at.1 + 8 * length cs < 2 ^ 64
    → (count_chars 8 at cs).1 ≡ column (at.1) cs
unfolding count_chars column
count_chars-column at [] bytes fits = refl
count_chars-column at (c ∷ cs) bytes fits =
    let (byte, rest) = &&-elim (ltb c 256) (all (λ c. ltb c 256) cs) bytes in
    let step = count_char-column c at (ltb→lt c 256 byte) (omega (arith, fits)) in
    count_chars-column (count_char 8 at c) cs rest
      (omega (arith, step, next_column_bound (at.1) c, fits))
    ∙ ap (λ k. column k cs) step
