-- ===== src/Lexer/Matcher/TextBack.antt =====
-- About `matcher_text`, which writes a 0 behind the text, and `matcher_reset_text`, which the next scan
-- begins with.
use neoast.Common.{
  ℕ, zero, suc, ◌+◌, ◌≡◌, refl, ap, ap₂, sym, ◌∙◌, List, [], ◌∷◌, set, get_elem?, Option, none,
  some, true, ◌==◌, ==_iff, done, Fault, fault, bounds, Bool-cases, ◌⊎◌, inl, inr, arith, write_lem,
  get_elem?-lt, length-set, length, ◌<◌,
}
use neoast.Lexer.Matcher.{Matcher}
use neoast.Lexer.Matcher.Scan.{matcher_text, matcher_reset_text}

set-set_get : (xs : List ℕ) (i v c : ℕ) → get_elem? xs i ≡ some c → set (set xs i v) i c ≡ xs
set-set_get [] i v c at = absurd (ground (arith, at))
set-set_get (x ∷ xs) zero v c at = ground (arith, at)
set-set_get (x ∷ xs) (suc i) v c at = ap (λ ys. x ∷ ys) (set-set_get xs i v c at)

set_get : (xs : List ℕ) (i c : ℕ) → get_elem? xs i ≡ some c → set xs i c ≡ xs
set_get [] i c at = absurd (ground (arith, at))
set_get (x ∷ xs) zero c at = ground (arith, at)
set_get (x ∷ xs) (suc i) c at = ap (λ ys. x ∷ ys) (set_get xs i c at)

module _ {E : Type 0} where
  -- A matcher between two scans as the caller leaves it: `matcher_text` may have been called.
  abbrev pub IsLeft : Matcher E → Matcher E → Type 0
  IsLeft m₀ m = (m ≡ m₀) ⊎ ((i : ℕ) × (matcher_text m₀ ≡ done (i, m)))

  abbrev ended : Matcher E → ℕ → Matcher E
  ended m c = record m { buf = set m.buf (m.txt + m.len) 0; chr = c }

  reset_none : (m : Matcher E) → m.chr ≡ 0 → matcher_reset_text m ≡ done m
  unfolding matcher_reset_text
  reset_none m e = ground (arith, e)

  reset_ended :
      (m : Matcher E) (c : ℕ)
      → m.chr ≡ 0
      → get_elem? m.buf (m.txt + m.len) ≡ some c
      → matcher_reset_text (ended m c) ≡ done m
  unfolding matcher_reset_text
  reset_ended m c plain at = elim (Bool-cases (c == 0)) [
    | inl nul ↦
        let zero_char : c ≡ 0 = (==_iff c 0).0 nul in
        let same : set m.buf (m.txt + m.len) 0 ≡ m.buf =
          set_get m.buf (m.txt + m.len) 0 (at ∙ ap (λ k. some k) zero_char) in
        rw nul
          (ap₂ (λ cells k. done (record m { buf = cells; chr = k })) same (zero_char ∙ sym plain))
    | inr some_char ↦
        let inside : m.txt + m.len < length (set m.buf (m.txt + m.len) 0) =
          omega
            (arith, get_elem?-lt m.buf (m.txt + m.len) at, length-set m.buf (m.txt + m.len) 0) in
        let back : set (set m.buf (m.txt + m.len) 0) (m.txt + m.len) c ≡ m.buf =
          set-set_get m.buf (m.txt + m.len) 0 c at in
        rw (some_char, write_lem (set m.buf (m.txt + m.len) 0) (m.txt + m.len) c inside)
          (ap₂ (λ cells k. done (record m { buf = cells; chr = k })) back (sym plain))
  ]

  text_computes :
      (m : Matcher E) (c : ℕ)
      → m.chr ≡ 0
      → get_elem? m.buf (m.txt + m.len) ≡ some c
      → matcher_text m ≡ done (m.txt, ended m c)
  unfolding matcher_text
  text_computes m c plain at =
      let test : (m.chr == 0) ≡ true = ground (arith, plain) in rw (test, at) refl

  text_faults :
      (m : Matcher E) (r : ℕ × Matcher E)
      → m.chr ≡ 0
      → get_elem? m.buf (m.txt + m.len) ≡ none
      → matcher_text m ≡ done r
      → ⊥
  unfolding matcher_text
  text_faults m r plain at e =
      let test : (m.chr == 0) ≡ true = ground (arith, plain) in
      let faults : matcher_text m ≡ fault bounds = rw (test, at) refl in fault_done (sym faults ∙ e)
    where
      fault_done : {x : Fault} → (fault x ≡ done r) → ⊥
      fault_done h = cc

  -- The next scan puts the character back.
  pub reset_text-IsLeft :
      (m₀ m : Matcher E) → m₀.chr ≡ 0 → IsLeft m₀ m → matcher_reset_text m ≡ done m₀
  reset_text-IsLeft m₀ m plain (inl same) = ap matcher_reset_text same ∙ reset_none m₀ plain
  reset_text-IsLeft m₀ m plain (inr (i, e)) = at_end (get_elem? m₀.buf (m₀.txt + m₀.len)) refl
    where
      done_eq : {x y : ℕ × Matcher E} → (done x ≡ done y) → x ≡ y
      done_eq h = cc

      at_end :
          (o : Option ℕ) → get_elem? m₀.buf (m₀.txt + m₀.len) ≡ o → matcher_reset_text m ≡ done m₀
      at_end none at = absurd (text_faults m₀ (i, m) plain at e)
      at_end (some c) at =
          let same : (m₀.txt, ended m₀ c) ≡ (i, m) =
            done_eq (sym (text_computes m₀ c plain at) ∙ e) in
          ap matcher_reset_text (sym (ap (λ r. r.1) same)) ∙ reset_ended m₀ c plain at
