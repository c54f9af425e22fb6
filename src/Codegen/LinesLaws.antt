-- ===== src/Codegen/LinesLaws.antt =====
-- About `get_line` of src/codegen/input_file.cc, and the lines of a text.
use mathlib.Core.List.{append_assoc}
use neoast.Common.{
  ℕ, zero, suc, ◌+◌, ◌-◌, ◌≤◌, ◌≡◌, refl, ap, ap₂, sym, ◌∙◌, List, [], ◌∷◌, ◌++◌, length, take,
  drop, get_elem?, true, ◌==◌, leb, none, some, arith, ◌⊎◌, inl, inr, if◌then◌else◌, Bool-cases,
  length-append, take-append_le, drop-append_le, drop-append_ge,
}
use neoast.Parsergen.Items.{at_or_throw}
use neoast.Codegen.Lines.{scan_lines, index_file, get_line}

-- The lines that end in a newline, of a text behind the beginning `line` of one.
abbrev pub complete : List ℕ → List ℕ → List (List ℕ)
complete line [] = []
complete line (c ∷ cs) =
    let rest = complete (if c == 10 then [] else line ++ c ∷ []) cs in
    if c == 10 then line ∷ rest else rest

abbrev pub lines_of : List ℕ → List (List ℕ)
lines_of text = complete [] text

-- What the vectors of starts and sizes hold for the line `i`.
abbrev Finds : List ℕ → List ℕ → List ℕ → List (List ℕ) → ℕ → Type 0
Finds text starts sizes lines i =
    ((get_elem? lines i ≡ none) × (get_elem? sizes i ≡ none))
    ⊎ ((line : List ℕ) × (start : ℕ) × (get_elem? lines i ≡ some line)
        × (get_elem? sizes i ≡ some (length line))
        × (get_elem? starts i ≡ some start)
        × (start + length line ≤ length text)
        × (take (length line) (drop start text) ≡ line))

part :
    (before line after : List ℕ)
    → take (length line) (drop (length before) (before ++ (line ++ after))) ≡ line
part before line after =
    let nothing : length before - length before ≡ 0 = omega arith in
    ap (take (length line)) (
      drop-append_ge (length before) before (line ++ after) (omega arith)
      ∙ ap (λ k. drop k (line ++ after)) nothing)
    ∙ take-append_le (length line) line after (omega arith)
    ∙ whole line
  where
    whole : (xs : List ℕ) → take (length xs) xs ≡ xs
    whole [] = refl
    whole (x ∷ xs) = ap (λ ys. x ∷ ys) (whole xs)

scan_lines-Finds :
    (cs text before line : List ℕ) (pos line_start i : ℕ)
    → text ≡ before ++ (line ++ cs)
    → line_start ≡ length before
    → pos ≡ length before + length line
    → Finds text
        (scan_lines pos line_start cs).0
        (scan_lines pos line_start cs).1
        (complete line cs)
        i
unfolding scan_lines
scan_lines-Finds [] text before line pos line_start i e s p = inl (refl, refl)
scan_lines-Finds (c ∷ cs) text before line pos line_start i e s p = elim (Bool-cases (c == 10)) [
  | inr other ↦ rw other (
      scan_lines-Finds cs text before (line ++ c ∷ []) (pos + 1) line_start i
        (e ∙ ap (λ xs. before ++ xs) (sym (append_assoc line (c ∷ []) cs))) s
        (omega (arith, p, length-append line (c ∷ []))))
  | inl newline ↦ rw newline (
      first _ _ _ i (λ j.
        scan_lines-Finds cs text (before ++ (line ++ c ∷ [])) [] (pos + 1) (pos + 1) j
          (e
            ∙ ap (λ xs. before ++ xs) (sym (append_assoc line (c ∷ []) cs))
            ∙ sym (append_assoc before (line ++ c ∷ []) cs))
          (omega (arith, p, length-append line (c ∷ []), length-append before (line ++ c ∷ [])))
          (omega (arith, p, length-append line (c ∷ []), length-append before (line ++ c ∷ [])))))
]
  where
    first :
        (starts sizes : List ℕ) (lines : List (List ℕ)) (i : ℕ)
        → ((j : ℕ) → Finds text starts sizes lines j)
        → Finds text (line_start ∷ starts) ((pos - line_start) ∷ sizes) (line ∷ lines) i
    first starts sizes lines (suc i) rest = rest i
    first starts sizes lines zero rest = inr (
      line,
      line_start,
      refl,
      ap some (omega (arith, s, p)),
      refl,
      omega (
        arith,
        s,
        ap length e,
        length-append before (line ++ c ∷ cs),
        length-append line (c ∷ cs),
      ),
      ap₂ (λ k xs. take (length line) (drop k xs)) s e ∙ part before line (c ∷ cs),
    )

-- The line with an index is the line of the text that ends in the newline with that index; for any
-- other index, also that of a last line without a newline, `get_line` throws.
pub get_line-lines_of :
    (text : List ℕ) (i : ℕ)
    → get_line (index_file text) i ≡ at_or_throw (get_elem? (lines_of text) i)
unfolding get_line index_file
get_line-lines_of text i = elim (scan_lines-Finds text text [] [] 0 0 i refl refl refl) [
  | inl (no_line, no_size) ↦ rw (no_size, no_line) refl
  | inr (line, start, found, size, begin, inside, same) ↦
      let test : leb (start + length line) (length text) ≡ true = ground (arith, inside) in
      let cut : take (length line) (drop start (text ++ 0 ∷ [])) ≡ line =
        ap (take (length line)) (drop-append_le start text (0 ∷ []) (omega (arith, inside)))
        ∙ take-append_le (length line) (drop start text) (0 ∷ []) (enough text start line inside)
        ∙ same in
      rw (size, begin, test, cut, found) refl
]
  where
    enough :
        (xs : List ℕ) (start : ℕ) (line : List ℕ)
        → start + length line ≤ length xs
        → length line ≤ length (drop start xs)
    enough xs zero line h = omega (arith, h)
    enough [] (suc start) line h = omega (arith, h)
    enough (x ∷ xs) (suc start) line h = enough xs start line (omega (arith, h))
