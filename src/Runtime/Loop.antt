-- ===== src/Runtime/Loop.antt =====
-- `parser_parse_lr` of src/lr.c: one round of its loop as a function of the machine, and the loop.
use neoast.Common.{ℕ, zero, suc, ◌+◌, ◌-◌, List, Bool, true, false, ◌==◌, ltb, not, some, none}
use neoast.Common.{Outcome, done, ◌>>=◌, ◌>>◌, assert, read, write, ℤ, pos, negsuc, eqb_ℤ, set}
use neoast.Runtime.Types.{GrammarParser, ParserBuffers}
use neoast.Runtime.Stack.{push}
use neoast.Runtime.Table.{Action, syntax_error, accept, stuck, shift, reduce}
use neoast.Runtime.Table.{ascii_max, classify, table_from_matrix}
use neoast.Runtime.Client.{Client, Machine}
use neoast.Runtime.Reduce.{lr_reduce}
use neoast.Runtime.Errors.{parse_error, run_destructors}

-- What a round leads to: another round, or a return with its value.
pub data Step (M : Type 0) : Type 0 where
  next : M → Step M
  returned : ℤ → M → Step M

abbrev pub minus_one : ℤ
minus_one = negsuc 0

module _ {U E : Type 0} (client : Client U E) (parser : GrammarParser) (table : List ℕ) where
  -- `tok = ll_next(lexer, lex_val, context); token_table[i] = tok`.
  unfoldable pub next_token : Machine U E → Outcome (Machine U E)
  next_token m = do
    cell ← read m.value_table m.lex_val
    let (tok, v, env) = client.ll_next cell m.env
    tokens ← write m.token_table m.i tok
    done (record m {
      tok = tok;
      value_table = set m.value_table m.lex_val v;
      token_table = tokens;
      env = env;
    })

  unfoldable pub do_shift : ℕ → ℕ → Machine U E → Outcome (Machine U E)
  unfolding next_token
  do_shift state tok m = do
    s₁ ← push m.parsing_stack m.i
    s₂ ← push s₁ state
    next_token (record m {
      parsing_stack = s₂;
      current_state = state;
      prev_tok = tok;
      lex_val = m.lex_val + 1;
      i = m.i + 1;
    })

  -- After a reduction the lookahead moves to the cell behind the result, unless the result is in the
  -- lookahead's own cell (the test `i != dest_idx`).
  unfoldable pub move_lookahead : Bool → Machine U E → Outcome (Machine U E)
  move_lookahead false m = done m
  move_lookahead true m = do
    t ← read m.token_table m.i
    assert (eqb_ℤ t m.tok)
    v ← read m.value_table m.lex_val
    values ← write m.value_table (m.dest_idx + 1) v
    tokens ← write m.token_table (m.dest_idx + 1) t
    done (record m {
      value_table = values;
      token_table = tokens;
      lex_val = m.dest_idx + 1;
      i = m.dest_idx + 1;
    })

  unfoldable pub do_reduce : ℕ → ℕ → Machine U E → Outcome (Machine U E)
  unfolding move_lookahead
  do_reduce r tok m = do
    assert (ltb tok parser.action_token_n)
    m₁ ← lr_reduce client parser table m r
    m₂ ← move_lookahead (not (m₁.i == m₁.dest_idx)) m₁
    rule ← read parser.grammar_rules r
    done (record m₂ { prev_tok = rule.token - ascii_max })

  unfoldable pub do_syntax_error : ℕ → Machine U E → Outcome (Machine U E)
  do_syntax_error tok m = do
    v ← read m.value_table m.lex_val
    env ← parse_error client parser table v.position m.current_state tok m.prev_tok m.env
    run_destructors client parser (record m { env = env }) (some m.i)

  -- The branches of a round. `stuck` takes no branch: the next round is the same again.
  unfoldable pub dispatch : Action → ℕ → Machine U E → Outcome (Step (Machine U E))
  dispatch syntax_error tok m = do m' ← do_syntax_error tok m; done (returned minus_one m')
  dispatch (shift state) tok m = do m' ← do_shift state tok m; done (next m')
  dispatch (reduce r) tok m = do m' ← do_reduce r tok m; done (next m')
  dispatch accept tok m = done (returned (pos m.dest_idx) m)
  dispatch stuck tok m = done (next m)

  unfoldable pub round_at : ℤ → Machine U E → Outcome (Step (Machine U E))
  round_at (negsuc _) m = do m' ← run_destructors client parser m none; done (returned minus_one m')
  round_at (pos tok) m = do
    v ← table_from_matrix table m.current_state tok parser.token_n
    dispatch (classify v) tok m

  -- One round of `while (1)`.
  unfoldable pub round : Machine U E → Outcome (Step (Machine U E))
  unfolding round_at
  round m = round_at m.tok m

  -- The loop on fuel: `next` is what is left when the fuel runs out.
  unfoldable pub rounds : ℕ → Machine U E → Outcome (Step (Machine U E))
  rounds zero m = done (next m)
  rounds (suc fuel) m = round m >>= λ step. elim step [
    | next m' ↦ rounds fuel m'
    | returned r m' ↦ done (returned r m')
  ]

  -- What stands before the loop.
  unfoldable pub start : ParserBuffers U → E → Outcome (Machine U E)
  unfolding next_token
  start b env = do
    s ← push b.parsing_stack 0
    next_token (record {
      parsing_stack = s;
      token_table = b.token_table;
      value_table = b.value_table;
      current_state = 0;
      i = 0;
      lex_val = 0;
      prev_tok = 0;
      tok = pos 0;
      dest_idx = 0;
      env = env;
    })

  unfoldable pub parse_lr : ℕ → ParserBuffers U → E → Outcome (Step (Machine U E))
  unfolding start
  parse_lr fuel b env = do m ← start b env; rounds fuel m
