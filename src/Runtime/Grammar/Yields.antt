-- ===== src/Runtime/Grammar/Yields.antt =====
-- The words that the frames of a stack derive: a shift adds a leaf, a reduction a node.
use neoast.Common.{
  ℕ, zero, suc, ◌≤◌, ◌<◌, ◌≡◌, refl, sym, ◌∙◌, ap, subst, List, [], ◌∷◌, ◌++◌, length,
}
use neoast.Common.{drop, arith, get_elem?, some}
use mathlib.Core.List.{append-nil, append_assoc}
use neoast.Runtime.Types.{GrammarRule, GrammarParser}
use neoast.Runtime.Automaton.{Frame}
use neoast.Runtime.Grammar.{Derives, DerivesAll, leaf, node, nil, cons, result, right_side}
use neoast.Runtime.Valid.Frames.{symbols}

module _ {U : Type 0} (parser : GrammarParser) where
  -- The frames derive the word, the bottom frame its first part.
  abbrev pub Yields : List (Frame U) → List ℕ → Type 0
  Yields [] w = w ≡ []
  Yields (f ∷ fs) w =
      (u : List ℕ) × (v : List ℕ) × Derives parser f.symbol v × Yields fs u × (w ≡ u ++ v)

  pub Yields-shift :
      (f : Frame U) (fs : List (Frame U)) (w : List ℕ)
      → f.symbol < parser.action_token_n
      → Yields fs w
      → Yields (f ∷ fs) (w ++ f.symbol ∷ [])
  Yields-shift f fs w small y = (w, f.symbol ∷ [], leaf f.symbol small, y, refl)

  -- The top `n` frames derive the end of the word.
  Yields-take :
      (n : ℕ) (fs : List (Frame U)) (acc w x : List ℕ)
      → n ≤ length fs
      → Yields fs w
      → DerivesAll parser acc x
      → (u : List ℕ) × (v : List ℕ) × Yields (drop n fs) u
        × DerivesAll parser (symbols n fs acc) v
        × (w ++ x ≡ u ++ v)
  Yields-take zero fs acc w x h y d = (w, x, y, d, refl)
  Yields-take (suc n) [] acc w x h y d = absurd (omega arith)
  Yields-take (suc n) (f ∷ fs) acc w x h (u, v, top, below, parts) d =
      let (u', v', y', d', e) =
        Yields-take n fs (f.symbol ∷ acc) u (v ++ x) (omega arith) below (cons top d) in
      (u', v', y', d', ap (λ z. z ++ x) parts ∙ append_assoc u v x ∙ e)

  pub Yields-reduce :
      (f : Frame U) (fs : List (Frame U)) (r : ℕ) (rule : GrammarRule) (w : List ℕ)
      → get_elem? parser.grammar_rules r ≡ some rule
      → f.symbol ≡ result parser rule
      → rule.tok_n ≤ length fs
      → symbols rule.tok_n fs [] ≡ right_side parser rule
      → Yields fs w
      → Yields (f ∷ drop rule.tok_n fs) w
  Yields-reduce f fs r rule w is_rule is_result enough matched y =
      let (u, v, below, parts, e) = Yields-take rule.tok_n fs [] w [] enough y nil in
      (
        u,
        v,
        subst (λ s. Derives parser s v) (sym is_result)
            (node r rule v is_rule (subst (λ xs. DerivesAll parser xs v) matched parts)),
        below,
        sym (append-nil w) ∙ e,
      )

  -- A single frame derives the whole word.
  pub Yields-single : (f : Frame U) (w : List ℕ) → Yields (f ∷ []) w → Derives parser f.symbol w
  Yields-single f w (u, v, d, empty, e) =
      subst (λ z. Derives parser f.symbol z) (sym (e ∙ ap (λ z. z ++ v) empty)) d
