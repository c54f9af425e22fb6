-- ===== src/Runtime/Valid/Frames.antt =====
-- What a checked table keeps true of the stack: each state stands over the layers that its
-- certificate names, so a reduction finds the right side of its rule on top.
use neoast.Common.{ℕ, zero, suc, ◌≤◌, ◌<◌, ◌≡◌, refl, List, [], ◌∷◌, length, drop}
use neoast.Common.{true, arith, ◌∙◌, ap}
use neoast.Runtime.Types.{GrammarRule, GrammarParser}
use neoast.Runtime.Grammar.{right_side}
use neoast.Runtime.Automaton.{Frame, top_state}
use neoast.Runtime.Valid.{Certificate, Layer, elem, states, layers_of, edge, layer_symbols}
use neoast.Runtime.Valid.{states_under, covers}
use neoast.Runtime.Valid.Checks.{all-elem, Shape, RuleIn}

module _ {U : Type 0} where
  -- The stack has these layers on top.
  abbrev pub Matches : List Layer → List (Frame U) → Type 0
  Matches [] fs = Unit
  Matches (l ∷ ls) [] = ⊥
  Matches (l ∷ ls) (f ∷ fs) =
      (f.symbol ≡ l.symbol) × (elem (top_state fs) l.under ≡ true) × Matches ls fs

  covers-Matches :
      (a b : List Layer) (fs : List (Frame U)) → covers a b ≡ true → Matches b fs → Matches a fs
  covers-Matches [] b fs h m = tt
  covers-Matches (l ∷ a) [] fs h m = cc
  covers-Matches (l ∷ a) (k ∷ b) [] h m = absurd m
  covers-Matches (l ∷ a) (k ∷ b) (f ∷ fs) h m = (
    ground arith,
    all-elem (λ q. elem q l.under) k.under (top_state fs) (ground arith) m.1,
    covers-Matches a b fs (ground arith) m.2,
  )

  -- The symbols of the top `n` frames, the lowest first, before `acc`.
  abbrev pub symbols : ℕ → List (Frame U) → List ℕ → List ℕ
  symbols zero fs acc = acc
  symbols (suc n) [] acc = acc
  symbols (suc n) (f ∷ fs) acc = symbols n fs (f.symbol ∷ acc)

  Matches-symbols :
      (n : ℕ) (ls : List Layer) (fs : List (Frame U)) (acc : List ℕ)
      → n ≤ length ls
      → Matches ls fs
      → symbols n fs acc ≡ layer_symbols n ls acc
  Matches-symbols zero ls fs acc h m = refl
  Matches-symbols (suc n) [] fs acc h m = absurd (omega arith)
  Matches-symbols (suc n) (l ∷ ls) [] acc h m = absurd m
  Matches-symbols (suc n) (l ∷ ls) (f ∷ fs) acc h m =
      ap (λ x. symbols n fs (x ∷ acc)) m.0
      ∙ Matches-symbols n ls fs (l.symbol ∷ acc) (omega arith) m.2

  Matches-deep : (ls : List Layer) (fs : List (Frame U)) → Matches ls fs → length ls ≤ length fs
  Matches-deep [] fs m = omega arith
  Matches-deep (l ∷ ls) [] m = absurd m
  Matches-deep (l ∷ ls) (f ∷ fs) m = omega (arith, Matches-deep ls fs m.2)

  Matches-under :
      (n : ℕ) (ls : List Layer) (fs : List (Frame U))
      → 1 ≤ n
      → n ≤ length ls
      → Matches ls fs
      → elem (top_state (drop n fs)) (states_under n ls) ≡ true
  Matches-under zero ls fs p h m = absurd (omega arith)
  Matches-under (suc n) [] fs p h m = absurd (omega arith)
  Matches-under (suc n) (l ∷ ls) [] p h m = absurd m
  Matches-under (suc zero) (l ∷ ls) (f ∷ fs) p h m = m.1
  Matches-under (suc (suc n)) (l ∷ ls) (f ∷ fs) p h m =
      Matches-under (suc n) ls fs (omega arith) (omega arith) m.2

module _ {U : Type 0} (parser : GrammarParser) (table : List ℕ) (cert : Certificate) where
  -- Every frame's state is one of the table, is not the first, and has its layers under it.
  abbrev pub Checked : List (Frame U) → Type 0
  Checked [] = Unit
  Checked (f ∷ fs) =
      (0 < f.state)
      × (f.state < states parser table cert)
      × Matches (layers_of parser table cert f.state) (f ∷ fs)
      × Checked fs

  pub Checked-top :
      Shape parser table cert
      → (fs : List (Frame U)) → Checked fs
      → (top_state fs < states parser table cert)
        × Matches (layers_of parser table cert (top_state fs)) fs
  Checked-top shape [] c =
      (shape.has_start, start (layers_of parser table cert 0) shape.start_empty)
    where
      start : (ls : List Layer) → length ls ≤ 0 → Matches {U = U} ls []
      start [] h = tt
      start (l ∷ ls) h = absurd (omega arith)
  Checked-top shape (f ∷ fs) c = (c.1, c.2)

  -- An edge of the table keeps the stack checked.
  pub Checked-edge :
      Shape parser table cert
      → (f : Frame U) (fs : List (Frame U))
      → edge parser table cert (top_state fs) f.symbol f.state ≡ true
      → Checked fs
      → Checked (f ∷ fs)
  unfolding edge
  Checked-edge shape f fs e c = (
    ground arith,
    ground arith,
    covers-Matches (layers_of parser table cert f.state)
        (record { symbol = f.symbol; under = top_state fs ∷ [] }
          ∷ layers_of parser table cert (top_state fs))
        (f ∷ fs) (ground arith) (refl, ground arith, (Checked-top shape fs c).1),
    c,
  )

  pub Checked-drop : (n : ℕ) (fs : List (Frame U)) → Checked fs → Checked (drop n fs)
  Checked-drop zero fs c = c
  Checked-drop (suc n) [] c = c
  Checked-drop (suc n) (f ∷ fs) c = Checked-drop n fs c.3

  -- A rule that the state may reduce by finds its right side on the stack, and a state under it
  -- that has been checked for the goto.
  pub Checked-rule :
      Shape parser table cert
      → (fs : List (Frame U)) (rule : GrammarRule) → RuleIn parser table cert (top_state fs) rule
      → Checked fs
      → (rule.tok_n ≤ length fs)
        × (symbols rule.tok_n fs [] ≡ right_side parser rule)
        × (elem
              (top_state (drop rule.tok_n fs))
              (states_under rule.tok_n (layers_of parser table cert (top_state fs)))
            ≡ true)
  Checked-rule shape fs rule r c =
      let m = (Checked-top shape fs c).1 in
      (
        omega (arith, Matches-deep _ fs m, r.deep),
        Matches-symbols rule.tok_n _ fs [] r.deep m ∙ r.ends_in,
        Matches-under rule.tok_n _ fs r.has_args r.deep m,
      )
