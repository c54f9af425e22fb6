-- ===== src/Runtime/Refine/Reduce/Computes.antt =====
-- `g_lr_reduce` and the reduce branch run through when each of their steps does.
use neoast.Common.{ℕ, ◌+◌, ◌-◌, ◌*◌, ◌%◌, ◌^◌, ◌≡◌, List, [], true, not, ◌&&◌, ◌==◌, ltb, bit_and}
use neoast.Common.{ℤ, pos, done, get_elem?, set, some, eqb_ℤ}
use neoast.Runtime.Types.{Value, GrammarParser, GrammarRule, ParsingStack}
use neoast.Runtime.Stack.{push, peek}
use neoast.Runtime.Table.{ascii_max, tok_mask, table_from_matrix}
use neoast.Runtime.Client.{Client, Machine}
use neoast.Runtime.Reduce.{lr_reduce, pop_args}
use neoast.Runtime.Loop.{do_reduce}

module _ {U E : Type 0} (client : Client U E) (parser : GrammarParser) (table : List ℕ) where
  -- The machine that `g_lr_reduce` leaves.
  abbrev pub after_reduce :
      Machine U E → ℕ → ℕ → List (Value U) → GrammarRule → ParsingStack → ℕ → Machine U E
  after_reduce m r idx vs rule s state =
      let (dest, env) = client.parser_reduce r vs m.env in
      record m {
        parsing_stack = s;
        value_table = set m.value_table idx dest;
        token_table = set m.token_table idx (pos (rule.token - ascii_max));
        env = env;
        current_state = state;
        dest_idx = idx;
      }

  pub lr_reduce_computes :
      (m : Machine U E) (r idx : ℕ) (vs : List (Value U)) (rule : GrammarRule)
      (s s₁ s₂ : ParsingStack) (v : Value U) (t : ℤ) (top g : ℕ)
      → get_elem? parser.grammar_rules r ≡ some rule
      → (m.parsing_stack.pos % 2 == 1 && ltb (rule.tok_n * 2 % 2 ^ 32) (m.parsing_stack.pos)) ≡ true
      → pop_args m.value_table rule.tok_n m.parsing_stack m.dest_idx [] ≡ done (idx, vs, s)
      → (ltb ascii_max rule.token && ltb rule.token (2 ^ 31)) ≡ true
      → get_elem? m.value_table idx ≡ some v
      → get_elem? m.token_table idx ≡ some t
      → peek s ≡ done top
      → table_from_matrix table top (rule.token - ascii_max) parser.token_n ≡ done g
      → push s idx ≡ done s₁
      → push s₁ (bit_and g tok_mask) ≡ done s₂
      → lr_reduce client parser table m r
        ≡ done (after_reduce m r idx vs rule s₂ (bit_and g tok_mask))
  unfolding lr_reduce
  lr_reduce_computes m r idx vs rule s s₁ s₂ v t top g e₀ e₁ e₂ e₃ e₄ e₅ e₆ e₇ e₈ e₉ =
      rw (e₀, e₁, e₂, e₃, e₄, e₅, e₆, e₇, e₈, e₉)

  -- The reduce branch, where the result is below the lookahead.
  pub do_reduce_computes :
      (m m₁ : Machine U E) (r tok : ℕ) (rule : GrammarRule) (v v' : Value U) (t t' : ℤ)
      → ltb tok parser.action_token_n ≡ true
      → lr_reduce client parser table m r ≡ done m₁
      → not (m₁.i == m₁.dest_idx) ≡ true
      → get_elem? m₁.token_table m₁.i ≡ some t
      → eqb_ℤ t m₁.tok ≡ true
      → get_elem? m₁.value_table m₁.lex_val ≡ some v
      → get_elem? m₁.value_table (m₁.dest_idx + 1) ≡ some v'
      → get_elem? m₁.token_table (m₁.dest_idx + 1) ≡ some t'
      → get_elem? parser.grammar_rules r ≡ some rule
      → do_reduce client parser table r tok m
        ≡ done (record m₁ {
          value_table = set m₁.value_table (m₁.dest_idx + 1) v;
          token_table = set m₁.token_table (m₁.dest_idx + 1) t;
          lex_val = m₁.dest_idx + 1;
          i = m₁.dest_idx + 1;
          prev_tok = rule.token - ascii_max;
        })
  unfolding do_reduce
  do_reduce_computes m m₁ r tok rule v v' t t' e₀ e₁ e₂ e₃ e₄ e₅ e₆ e₇ e₈ =
      rw (e₀, e₁, e₂, e₃, e₄, e₅, e₆, e₇, e₈)
