-- ===== src/Runtime/Correct/Branches.antt =====
-- One round from a machine that represents a configuration: each branch of `parser_parse_lr`.
use neoast.Common.{
  ℕ, zero, suc, ◌+◌, ◌-◌, ◌*◌, ◌≤◌, ◌<◌, ◌≡◌, refl, sym, ap, subst, ◌∙◌, true, List, [],
}
use neoast.Common.{
  ◌∷◌, ◌++◌, length, drop, ℤ, pos, negsuc, arith, Outcome, done, get_elem?, some, bit_and,
}
use neoast.Common.{inl, inr, ◌⊎◌}
use native.Mathlib.Decide.{dec_le}
use mathlib.Core.List.{append-nil}
use neoast.Runtime.Types.{Value, GrammarParser, GrammarRule}
use neoast.Runtime.Table.{Action, tok_mask}
use neoast.Runtime.Client.{Client, Machine}
use neoast.Runtime.Loop.{do_shift, do_reduce}
use neoast.Runtime.Automaton.{
  Frame, Config, top_state, shifted, reduced, args, ActionAt, Moves, Move,
}
use neoast.Runtime.Grammar.{result, right_side}
use neoast.Runtime.Grammar.Yields.{Yields, Yields-shift, Yields-reduce}
use neoast.Runtime.Valid.{Certificate, rank_of, edge, head_or}
use neoast.Runtime.Valid.Checks.{is_valid-Shape, RuleIn}
use neoast.Runtime.Valid.Frames.{Checked-edge, Checked-rule, Checked-drop, symbols}
use neoast.Runtime.Refine.Rel.{Represents}
use neoast.Runtime.Refine.Args.{length-drop}
use neoast.Runtime.Refine.Shift.{do_shift-Represents}
use neoast.Runtime.Refine.Reduce.{do_reduce-Represents, IsReducible}
use neoast.Runtime.Correct.Setup.{Laws, IsReady, Good, left, pending, measure, top_rank}

measure-lt : (a b r x y : ℕ) → a < b → x ≤ r → a * suc r + x < b * suc r + y
measure-lt a b r x y lt le = grind arith

measure-le : (a b r x y : ℕ) → a ≤ b → x < y → a * suc r + x < b * suc r + y
measure-le a b r x y le lt = grind arith

module _ {U E : Type 0} (client : Client U E) (parser : GrammarParser) (table : List ℕ)
    (cert : Certificate) (laws : Laws client parser) where
  pending_pos : (t : ℕ) → 0 < t → pending client parser table cert (pos t) ≡ 1
  pending_pos zero h = absurd (omega arith)
  pending_pos (suc t) h = refl

  -- A call of the lexer uses up what it returns.
  pub fetch-left :
      (cell : Value U) (env : E)
      → laws.remaining (client.ll_next cell env).2
          + pending client parser table cert (client.ll_next cell env).0
        ≤ laws.remaining env
  fetch-left cell env = go (client.ll_next cell env).0 refl
    where
      go :
          (t : ℤ)
          → (client.ll_next cell env).0 ≡ t
          → laws.remaining (client.ll_next cell env).2 + pending client parser table cert t
            ≤ laws.remaining env
      go (negsuc n) e = omega (arith, laws.no_growth cell env)
      go (pos zero) e = omega (arith, laws.no_growth cell env)
      go (pos (suc t)) e = omega (arith, laws.progress cell env t e)

  -- Of a rule with one symbol that symbol is the top frame's.
  top_rank_unit :
      (n : ℕ) (fs : List (Frame U)) (xs : List ℕ)
      → n ≡ 1
      → n ≤ length fs
      → symbols n fs [] ≡ xs
      → top_rank client parser table cert fs ≡ rank_of parser table cert (head_or xs 0)
  top_rank_unit zero fs xs one enough matched = absurd (omega arith)
  top_rank_unit (suc zero) [] xs one enough matched = absurd (omega arith)
  top_rank_unit (suc zero) (f ∷ fs) xs one enough matched =
      ap (λ ys. rank_of parser table cert (head_or ys 0)) matched
  top_rank_unit (suc (suc n)) fs xs one enough matched = absurd (omega arith)

  reduce_measure :
      (s : ℕ) (fs : List (Frame U)) (rule : GrammarRule) (l l' : ℕ)
      → RuleIn parser table cert s rule
      → rule.tok_n ≤ length fs
      → symbols rule.tok_n fs [] ≡ right_side parser rule
      → l' ≤ l
      → (2 * l' + suc (length (drop rule.tok_n fs))) * suc cert.max_rank
          + (cert.max_rank - rank_of parser table cert (result parser rule))
        < (2 * l + length fs) * suc cert.max_rank
          + (cert.max_rank - top_rank client parser table cert fs)
  reduce_measure s fs rule l l' ok enough matched le = elim (dec_le 2 rule.tok_n) [
    | yes two ↦
        measure-lt _ _ cert.max_rank _ _ (omega (arith, length-drop rule.tok_n fs enough))
          (omega arith)
    | no unit ↦
        let one : rule.tok_n ≡ 1 = omega (arith, ok.has_args) in
        let rises = ranked one ok.ranked in
        let top = top_rank_unit rule.tok_n fs (right_side parser rule) one enough matched in
        measure-le _ _ cert.max_rank _ _ (omega (arith, length-drop rule.tok_n fs enough))
          (omega (arith, rises, top, ok.rank_bounded))
  ]
    where
      ranked :
          rule.tok_n ≡ 1
          → ((2 ≤ rule.tok_n)
              ⊎ (rank_of parser table cert (head_or (right_side parser rule) 0)
                  < rank_of parser table cert (result parser rule)))
          → rank_of parser table cert (head_or (right_side parser rule) 0)
            < rank_of parser table cert (result parser rule)
      ranked one (inl two) = absurd (omega arith)
      ranked one (inr rises) = rises

  module _ {cells slots budget : ℕ} (ready : IsReady client parser table cert cells slots budget)
      (c₀ : Config U E) where
    -- The next machine, where it and its configuration stand after one more round.
    abbrev pub Advances : Outcome (Machine U E) → Config U E → Type 0
    Advances o c =
        (m' : Machine U E) × (c' : Config U E) × (w' : List ℕ) × (o ≡ done m')
        × Represents cells slots parser.action_token_n m' c'
        × Good client parser table cert laws budget c₀ c' w'
        × (measure client parser table cert laws c' < measure client parser table cert laws c)

    pub shift-Advances :
        {m : Machine U E} {c : Config U E} {w : List ℕ} (t state : ℕ)
        → c.tok ≡ pos t
        → ActionAt client parser table (top_state c.frames) t (Action.shift state)
        → 0 < t
        → edge parser table cert (top_state c.frames) t state ≡ true
        → Represents cells slots parser.action_token_n m c
        → Good client parser table cert laws budget c₀ c w
        → Advances (do_shift client parser table state t m) c
    shift-Advances {m} {c} {w} t state is_tok act nonzero is_edge rep good =
        let shape = is_valid-Shape parser table cert ready.valid in
        let one = ap (pending client parser table cert) is_tok ∙ pending_pos t nonzero in
        let small = good.in_columns t is_tok in
        let (m', cell, e, rep') =
          do_shift-Represents client parser table state t is_tok small
            (omega (arith, good.bounded, one, ready.enough_cells))
            (omega (arith, good.bounded, one, ready.enough_slots)) rep in
        let f : Frame U = record { state = state; symbol = t; value = c.look } in
        let used = fetch-left cell c.env in
        (
          m',
          shifted client c state t cell,
          w ++ t ∷ [],
          e,
          rep',
          record {
            checked = Checked-edge parser table cert shape f c.frames is_edge good.checked;
            trail = Moves.and_then good.trail (Move.shift c t state cell is_tok act);
            yields = Yields-shift parser f c.frames w small good.yields;
            bounded = omega (arith, good.bounded, one, used);
            in_columns = λ u is. laws.in_range cell c.env u is;
            previous = omega (arith, small, shape.actions);
          },
          measure-lt _ _ cert.max_rank _ _ (omega (arith, one, used)) (omega arith),
        )

    pub reduce-Advances :
        {m : Machine U E} {c : Config U E} {w : List ℕ} (t r : ℕ) (rule : GrammarRule)
        → c.tok ≡ pos t
        → ActionAt client parser table (top_state c.frames) t (Action.reduce r)
        → get_elem? parser.grammar_rules r ≡ some rule
        → RuleIn parser table cert (top_state c.frames) rule
        → Represents cells slots parser.action_token_n m c
        → Good client parser table cert laws budget c₀ c w
        → Advances (do_reduce client parser table r t m) c
    reduce-Advances {m} {c} {w} t r rule is_tok act is_rule ok rep good =
        let shape = is_valid-Shape parser table cert ready.valid in
        let (enough, matched, under) =
          Checked-rule parser table cert shape c.frames rule ok good.checked in
        let (g, goto, is_edge) = ok.gotos (top_state (drop rule.tok_n c.frames)) under in
        let reducible : IsReducible parser rule = record {
          has_args = ok.has_args;
          above_ascii = ok.above_ascii;
          fits_int = ok.fits_int;
          a_production = ok.a_production;
        } in
        let (m', e, rep') =
          do_reduce-Represents client parser table r t rule g (good.in_columns t is_tok) is_rule
            reducible enough goto rep in
        let (v, env) = client.parser_reduce r (args rule.tok_n c.frames []) c.env in
        let f : Frame U = record {
          state = bit_and g tok_mask;
          symbol = result parser rule;
          value = v;
        } in
        let kept = laws.reduce_keeps r (args rule.tok_n c.frames []) c.env in
        let shorter = length-drop rule.tok_n c.frames enough in
        (
          m',
          reduced client c r rule (bit_and g tok_mask),
          w ++ [],
          e,
          rep',
          record {
            checked =
                Checked-edge parser table cert shape f (drop rule.tok_n c.frames) is_edge
                  (Checked-drop parser table cert rule.tok_n c.frames good.checked);
            trail =
                Moves.and_then good.trail (Move.reduce c t r rule g is_tok act is_rule enough goto);
            yields =
                subst (λ z. Yields parser (f ∷ drop rule.tok_n c.frames) z) (sym (append-nil w))
                  (Yields-reduce parser f c.frames r rule w is_rule refl enough matched
                    good.yields);
            bounded = omega (arith, good.bounded, kept, shorter, ok.has_args);
            in_columns = good.in_columns;
            previous = ok.a_column;
          },
          reduce_measure (top_state c.frames) c.frames rule (left client parser table cert laws c) _
              ok enough matched (omega (arith, kept)),
        )
