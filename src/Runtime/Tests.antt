-- ===== src/Runtime/Tests.antt =====
-- The grammar, the table and the input of test/lr_test.c, run by the model.
use neoast.Common.{ℕ, ◌+◌, List, [], ◌∷◌, none, ℤ, pos, negsuc, done, ◌≡◌, refl, replicate, bit_or}
use neoast.Common.{Outcome, ◌>>=◌, ltb, if◌then◌else◌}
use neoast.Runtime.Types.{TokenPosition, Value, GrammarRule, GrammarParser, ParserBuffers}
use neoast.Runtime.Types.{allocate_buffers}
use neoast.Runtime.Table.{tok_shift_mask, tok_reduce_mask, tok_accept_mask}
use neoast.Runtime.Table.{classify, table_from_matrix}
use neoast.Runtime.Client.{Client, Machine}
use neoast.Runtime.Stack.{push, pop, peek}
use neoast.Runtime.Reduce.{pop_args, lr_reduce}
use neoast.Runtime.Errors.{parse_error, expected_from, run_destructors}
use neoast.Runtime.Loop.{Step, parse_lr, next, returned, rounds, round, dispatch, do_shift}
use neoast.Runtime.Loop.{do_reduce, do_syntax_error}

abbrev pub nowhere : TokenPosition
nowhere = record { line = 0; col = 0; len = 0 }

abbrev pub num : ℕ → Value ℕ
num n = record { content = n; position = nowhere }

-- S' → S, S → A A, A → a A, A → b.
abbrev pub rules : List GrammarRule
rules =
    record { token = 261; tok_n = 1; grammar = 259 ∷ [] }
    ∷ record { token = 259; tok_n = 2; grammar = 260 ∷ 260 ∷ [] }
    ∷ record { token = 260; tok_n = 2; grammar = 257 ∷ 260 ∷ [] }
    ∷ record { token = 260; tok_n = 1; grammar = 258 ∷ [] }
    ∷ []

abbrev pub lr_parser : GrammarParser
lr_parser = record {
  ascii_mappings = [];
  grammar_rules = rules;
  token_names = "EOF" ∷ "a" ∷ "b" ∷ "S" ∷ "A" ∷ "augment" ∷ [];
  destructors = none;
  grammar_n = 4;
  token_n = 5;
  action_token_n = 3;
}

abbrev pub sh : ℕ → ℕ
sh n = bit_or n tok_shift_mask

abbrev pub re : ℕ → ℕ
re n = bit_or n tok_reduce_mask

abbrev pub lalr_table : List ℕ
lalr_table =
    0
    ∷ sh 3
    ∷ sh 4
    ∷ sh 1
    ∷ sh 2
    ∷ tok_accept_mask
    ∷ tok_accept_mask
    ∷ tok_accept_mask
    ∷ 0
    ∷ 0
    ∷ 0
    ∷ sh 3
    ∷ sh 4
    ∷ 0
    ∷ sh 5
    ∷ 0
    ∷ sh 3
    ∷ sh 4
    ∷ 0
    ∷ sh 6
    ∷ re 3
    ∷ re 3
    ∷ re 3
    ∷ 0
    ∷ 0
    ∷ re 1
    ∷ 0
    ∷ 0
    ∷ 0
    ∷ 0
    ∷ re 2
    ∷ re 2
    ∷ re 2
    ∷ 0
    ∷ 0
    ∷ []

-- The lexer is a list of tokens, then 0 for the end of input; a number that is no action token is
-- a lexing error. A reduction adds its arguments.
abbrev pub Feed : Type 0
Feed = List (ℕ × ℕ)

abbrev pub feed_next : Value ℕ → Feed → ℤ × Value ℕ × Feed
feed_next cell [] = (pos 0, cell, [])
feed_next cell ((t, v) ∷ rest) = ((if ltb t 3 then pos t else negsuc 0), num v, rest)

abbrev pub total : List (Value ℕ) → ℕ
total [] = 0
total (v ∷ vs) = v.content + total vs

abbrev pub adder : Client ℕ Feed
adder = record {
  ll_next = feed_next;
  parser_reduce = λ r vs env. (num (total vs), env);
  parser_error = none;
  destructor = λ t v env. env;
  zeroed = num 0;
}

abbrev pub buffers : ParserBuffers ℕ
buffers = allocate_buffers 8 (replicate 17 0) (replicate 8 (pos 0)) (replicate 8 (num 0))

abbrev pub returned_value : Outcome (Step (Machine ℕ Feed)) → Outcome ℤ
returned_value o = o >>= λ step. elim step [ next m ↦ done (negsuc 99) | returned r m ↦ done r ]

-- b a a a b, accepted with the result in cell 0.
accepts :
    returned_value (
      parse_lr adder lr_parser lalr_table 40 buffers
        ((2, 1) ∷ (1, 10) ∷ (1, 20) ∷ (1, 30) ∷ (2, 2) ∷ []))
    ≡ done (pos 0)
unfolding parse_lr allocate_buffers rounds round dispatch do_shift do_reduce lr_reduce pop_args push
    pop peek classify table_from_matrix
accepts = refl

-- b a is a syntax error at the end of input.
rejects :
    returned_value (parse_lr adder lr_parser lalr_table 40 buffers ((2, 1) ∷ (1, 10) ∷ []))
    ≡ done (negsuc 0)
unfolding parse_lr allocate_buffers rounds round dispatch do_shift do_reduce do_syntax_error
    parse_error expected_from run_destructors lr_reduce pop_args push pop peek classify
    table_from_matrix
rejects = refl
