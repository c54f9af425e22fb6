-- ===== src/Runtime/Reduce.antt =====
-- `g_lr_reduce` of src/lr.c.
use neoast.Common.{ℕ, zero, suc, ◌-◌, ◌*◌, ◌%◌, ◌^◌, List, [], ◌∷◌, ◌&&◌, ltb, ◌==◌}
use neoast.Common.{Outcome, done, ◌>>=◌, ◌>>◌, assert, read, write, pos, bit_and}
use neoast.Runtime.Types.{Value, GrammarParser, ParsingStack}
use neoast.Runtime.Stack.{push, pop, peek}
use neoast.Runtime.Table.{ascii_max, tok_mask, table_from_matrix}
use neoast.Runtime.Client.{Client, Machine}

module _ {U : Type 0} where
  -- The loop over the arguments, with the rounds left: pop a state, then an index, and put the value
  -- at that index before the arguments so far. It returns the last index popped.
  unfoldable pub pop_args :
      List (Value U)
      → ℕ
      → ParsingStack
      → ℕ
      → List (Value U)
      → Outcome (ℕ × List (Value U) × ParsingStack)
  pop_args values zero s idx args = done (idx, args, s)
  pop_args values (suc left) s idx args = do
    (_, s₁) ← pop s
    (idx', s₂) ← pop s₁
    v ← read values idx'
    pop_args values left s₂ idx' (v ∷ args)

module _ {U E : Type 0} (client : Client U E) (parser : GrammarParser) (table : List ℕ) where
  -- After the reduction has been stored the source asserts that a value has room for its position,
  -- which a `Value` has, and copies a position into its local `dest`, which nothing reads again: this
  -- has no effect, and nothing stands for it here.
  unfoldable pub lr_reduce : Machine U E → ℕ → Outcome (Machine U E)
  lr_reduce m r = do
    rule ← read parser.grammar_rules r
    assert (m.parsing_stack.pos % 2 == 1 && ltb (rule.tok_n * 2 % 2 ^ 32) (m.parsing_stack.pos))
    (idx, args, s) ← pop_args m.value_table rule.tok_n m.parsing_stack m.dest_idx []
    assert (ltb ascii_max rule.token && ltb rule.token (2 ^ 31))
    let result_token = rule.token - ascii_max
    let (dest, env) = client.parser_reduce r args m.env
    values ← write m.value_table idx dest
    tokens ← write m.token_table idx (pos result_token)
    top ← peek s
    entry ← table_from_matrix table top result_token parser.token_n
    let next_state = bit_and entry tok_mask
    s₁ ← push s idx
    s₂ ← push s₁ next_state
    done (record m {
      parsing_stack = s₂;
      value_table = values;
      token_table = tokens;
      env = env;
      current_state = next_state;
      dest_idx = idx;
    })
