-- ===== src/Runtime/Errors.antt =====
-- The error paths of src/lr.c: `lr_parse_error`, `run_destructor`, `parser_run_destructors`.
use neoast.Common.{
  ℕ, zero, suc, ◌+◌, ◌*◌, ◌%◌, ◌^◌, List, [], ◌∷◌, Bool, true, false, ◌==◌, ltb, leb,
}
use neoast.Common.{Option, none, some, if◌then◌else◌, to_u32, set}
use neoast.Common.{Outcome, done, ◌>>=◌, ◌>>◌, assert, read}
use neoast.Runtime.Types.{TokenPosition, GrammarParser}
use neoast.Runtime.Stack.{pop}
use neoast.Runtime.Table.{tok_syntax_error}
use neoast.Runtime.Client.{Client, Machine, ErrorReport}

-- The loop that collects the columns of a row whose entry is not an error, from column `i` on, with
-- the columns left. The index is a `uint32_t`.
unfoldable pub expected_from : List ℕ → ℕ → ℕ → ℕ → Outcome (List ℕ)
expected_from table index_off i zero = done []
expected_from table index_off i (suc left) = do
  v ← read table ((index_off + i) % 2 ^ 32)
  rest ← expected_from table index_off (i + 1) left
  done (if v == tok_syntax_error then rest else i ∷ rest)

module _ {U E : Type 0} (client : Client U E) (parser : GrammarParser) where
  -- The call of the callback; a null callback means output on stderr, which is not modelled.
  unfoldable pub report_to : Option (ErrorReport → E → E) → ErrorReport → E → E
  report_to none report env = env
  report_to (some callback) report env = callback report env

  unfoldable pub parse_error : List ℕ → TokenPosition → ℕ → ℕ → ℕ → E → Outcome E
  unfolding report_to
  parse_error table p current_state error_tok prev_tok env = do
    _ ← read parser.token_names error_tok
    _ ← read parser.token_names prev_tok
    expected ← expected_from table (current_state * parser.token_n % 2 ^ 32) 0 parser.token_n
    done (
        report_to client.parser_error
          (record {
            token_names = parser.token_names;
            position = p;
            last_token = prev_tok;
            current_token = error_tok;
            expected_tokens = expected;
          })
          env)

  -- The destructor's call, and the `memset` behind it.
  unfoldable pub destroy_if : Bool → ℕ → ℕ → Machine U E → Outcome (Machine U E)
  destroy_if false current_token index m = done m
  destroy_if true current_token index m = do
    v ← read m.value_table index
    done (record m {
      env = client.destructor current_token v m.env;
      value_table = set m.value_table index client.zeroed;
    })

  -- A token past the table's columns has no destructor, and the array is not read for it.
  unfoldable pub has_destructor : List Bool → ℕ → Outcome Bool
  has_destructor ds current_token =
      if ltb current_token parser.token_n then read ds current_token else done false

  unfoldable pub run_destructor : List Bool → Machine U E → ℕ → Outcome (Machine U E)
  unfolding destroy_if has_destructor
  run_destructor ds m index = do
    t ← read m.token_table index
    defined ← has_destructor ds (to_u32 t)
    destroy_if defined (to_u32 t) index m

  -- The loop `while (pos > 1)`; two cells go in each round, so `pos` rounds are enough.
  unfoldable pub unwind : List Bool → ℕ → Machine U E → Outcome (Machine U E)
  unwind ds zero m = done m
  unwind ds (suc rounds) m = if leb m.parsing_stack.pos 1 then done m else do
    (_, s₁) ← pop m.parsing_stack
    (index, s₂) ← pop s₁
    m' ← run_destructor ds (record m { parsing_stack = s₂ }) index
    unwind ds rounds m'

  -- The invalid token goes first; `none` is the -1 of a lexing error.
  unfoldable pub destroy_invalid : List Bool → Machine U E → Option ℕ → Outcome (Machine U E)
  destroy_invalid ds m none = done m
  destroy_invalid ds m (some invalid_tok_i) = run_destructor ds m invalid_tok_i

  unfoldable pub run_all : Option (List Bool) → Machine U E → Option ℕ → Outcome (Machine U E)
  unfolding destroy_invalid
  run_all none m invalid = done m
  run_all (some ds) m invalid = do
    m' ← destroy_invalid ds m invalid
    assert (m'.parsing_stack.pos % 2 == 1)
    unwind ds m'.parsing_stack.pos m'

  unfoldable pub run_destructors : Machine U E → Option ℕ → Outcome (Machine U E)
  unfolding run_all
  run_destructors m invalid = run_all parser.destructors m invalid
