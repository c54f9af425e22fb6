-- ===== src/Runtime/Refine/Tests.antt =====
-- The refinement of each branch at machines of the test grammar.
use neoast.Common.{ℕ, ◌≡◌, refl, List, [], ◌∷◌, ◌++◌, pos, done, some, none, arith, replicate}
use neoast.Common.{true, false, get_elem?}
use neoast.Runtime.Types.{TokenPosition, Value, GrammarRule, GrammarParser}
use neoast.Runtime.Stack.{IsStack}
use neoast.Runtime.Table.{table_from_matrix}
use neoast.Runtime.Client.{Client, Machine, ErrorReport}
use neoast.Runtime.Reduce.{lr_reduce}
use neoast.Runtime.Errors.{run_destructors, parse_error}
use neoast.Runtime.Loop.{do_shift, do_reduce}
use neoast.Runtime.Automaton.{Frame, Config, shifted, reduced}
use neoast.Runtime.Tests.{lr_parser, lalr_table, adder, num, Feed, rules, sh}
use neoast.Runtime.Refine.Rel.{Placed, Represents}
use neoast.Runtime.Refine.Shift.{do_shift-Represents}
use neoast.Runtime.Refine.Reduce.{IsReducible, do_reduce-Represents}
use neoast.Runtime.Refine.Errors.{run_destructors_lem, reported, parse_error_lem}
use neoast.Runtime.Empty.{lr_reduce-empty}

-- After the first `b` of the input: it is on the stack, in state 4, and `a` is the lookahead.
abbrev one_b : List (Frame ℕ)
one_b = record { state = 4; symbol = 2; value = num 1 } ∷ []

abbrev rest_of_input : Feed
rest_of_input = (1, 20) ∷ (2, 2) ∷ []

abbrev config : Config ℕ Feed
config = record { frames = one_b; tok = pos 1; look = num 10; prev = 2; env = rest_of_input }

abbrev machine : Machine ℕ Feed
machine = record {
  parsing_stack = record { pos = 3; slots = 0 ∷ 0 ∷ 4 ∷ replicate 14 0 };
  token_table = pos 2 ∷ pos 1 ∷ replicate 6 (pos 0);
  value_table = num 1 ∷ num 10 ∷ replicate 6 (num 0);
  current_state = 4;
  i = 1;
  lex_val = 1;
  prev_tok = 2;
  tok = pos 1;
  dest_idx = 0;
  env = rest_of_input;
}

machine-Represents : Represents 8 17 3 machine config
machine-Represents = record {
  placed = record {
    stack = record { height = refl; cells = (refl, (refl, (refl, tt))) };
    tables = (refl, refl, tt);
    state = refl;
    index = refl;
    lex = refl;
    previous = refl;
    heap = refl;
    last = λ big. refl;
    value_cells = refl;
    token_cells = refl;
    stack_slots = refl;
  };
  token = refl;
  look_token = refl;
  look_value = refl;
}

do_shift-Represents_example :
    (m' : Machine ℕ Feed) × (cell : Value ℕ) × (do_shift adder lr_parser lalr_table 3 1 machine
      ≡ done m')
    × Represents 8 17 3 m' (shifted adder config 3 1 cell)
do_shift-Represents_example =
    do_shift-Represents adder lr_parser lalr_table 3 1 refl (omega arith) (omega arith)
      (omega arith) machine-Represents

abbrev a_from_b : GrammarRule
a_from_b = record { token = 260; tok_n = 1; grammar = 258 ∷ [] }

a_from_b-IsReducible : IsReducible lr_parser a_from_b
a_from_b-IsReducible = omega arith

do_reduce-Represents_example :
    (m' : Machine ℕ Feed) × (do_reduce adder lr_parser lalr_table 3 1 machine ≡ done m')
    × Represents 8 17 3 m' (reduced adder config 3 a_from_b 2)
unfolding table_from_matrix
do_reduce-Represents_example =
    do_reduce-Represents adder lr_parser lalr_table 3 1 a_from_b (sh 2) (omega arith) refl
      a_from_b-IsReducible (omega arith) refl machine-Represents

-- A client that writes down what it destroys, and a parser that destroys `a` and `b`.
abbrev Log : Type 0
Log = List (ℕ × ℕ)

abbrev logger : Client ℕ Log
logger = record {
  ll_next = λ cell env. (pos 0, cell, env);
  parser_reduce = λ r vs env. (num 0, env);
  parser_error = none;
  destructor = λ t v env. (t, v.content) ∷ env;
  zeroed = num 0;
}

abbrev destroying : GrammarParser
destroying = record lr_parser { destructors = some (false ∷ true ∷ true ∷ false ∷ false ∷ []) }

abbrev log_machine : Machine ℕ Log
log_machine = record {
  parsing_stack = record { pos = 3; slots = 0 ∷ 0 ∷ 4 ∷ replicate 14 0 };
  token_table = pos 2 ∷ pos 1 ∷ replicate 6 (pos 0);
  value_table = num 1 ∷ num 10 ∷ replicate 6 (num 0);
  current_state = 4;
  i = 1;
  lex_val = 1;
  prev_tok = 2;
  tok = pos 1;
  dest_idx = 0;
  env = [];
}

one_b-IsStack : IsStack log_machine.parsing_stack (4 ∷ 0 ∷ 0 ∷ [])
one_b-IsStack = record { height = refl; cells = (refl, (refl, (refl, tt))) }

-- The lookahead `a` goes first, then the `b`.
run_destructors_lem_example :
    (m' : Machine ℕ Log) × (run_destructors logger destroying log_machine (some 1) ≡ done m')
    × (m'.env ≡ (2, 1) ∷ (1, 10) ∷ [])
run_destructors_lem_example =
    run_destructors_lem logger destroying log_machine one_b (some 1) (some (pos 1, num 10))
      (omega arith) one_b-IsStack (refl, refl, tt) (refl, refl, omega arith)

-- The grammar with a rule for the empty word, and a machine with a reduced frame on top.
abbrev with_empty : GrammarParser
with_empty = record lr_parser {
  grammar_rules = rules ++ record { token = 260; tok_n = 0; grammar = [] } ∷ [];
}

abbrev reduced_machine : Machine ℕ Feed
reduced_machine = record {
  parsing_stack = record { pos = 3; slots = 0 ∷ 0 ∷ 2 ∷ replicate 14 0 };
  token_table = pos 4 ∷ pos 1 ∷ replicate 6 (pos 0);
  value_table = num 1 ∷ num 10 ∷ replicate 6 (num 0);
  current_state = 2;
  i = 1;
  lex_val = 1;
  prev_tok = 4;
  tok = pos 1;
  dest_idx = 0;
  env = [];
}

abbrev reduced_frame : Frame ℕ
reduced_frame = record { state = 2; symbol = 4; value = num 1 }

reduced-Placed : Placed 8 17 3 reduced_machine (reduced_frame ∷ []) 4 []
reduced-Placed = record {
  stack = record { height = refl; cells = (refl, (refl, (refl, tt))) };
  tables = (refl, refl, tt);
  state = refl;
  index = refl;
  lex = refl;
  previous = refl;
  heap = refl;
  last = λ big. refl;
  value_cells = refl;
  token_cells = refl;
  stack_slots = refl;
}

-- The value 1 of the reduced frame is gone: its cell holds the empty rule's 0.
lr_reduce-empty_example :
    (m' : Machine ℕ Feed) × (lr_reduce adder with_empty lalr_table reduced_machine 4 ≡ done m')
    × (get_elem? m'.value_table 0 ≡ some (num 0))
    × IsStack m'.parsing_stack (5 ∷ 0 ∷ 2 ∷ 0 ∷ 0 ∷ [])
unfolding table_from_matrix
lr_reduce-empty_example =
    lr_reduce-empty adder with_empty lalr_table 4 (record { token = 260; tok_n = 0; grammar = [] })
      (sh 5) refl refl (omega arith) (omega arith) refl (omega arith) (omega arith) reduced-Placed

-- The row of state 0 of the grammar, on the token `$`: it reports `a` and `b` as expected.
abbrev reporter : Client ℕ (List ErrorReport)
reporter = record {
  ll_next = λ cell env. (pos 0, cell, env);
  parser_reduce = λ r vs env. (num 0, env);
  parser_error = some (λ report env. report ∷ env);
  destructor = λ t v env. env;
  zeroed = num 0;
}

abbrev nowhere : TokenPosition
nowhere = record { line = 1; col = 2; len = 3 }

parse_error_lem_example :
    parse_error reporter lr_parser lalr_table nowhere 0 0 2 []
    ≡ done (reported reporter lr_parser lalr_table nowhere 0 0 2 [])
parse_error_lem_example =
    parse_error_lem reporter lr_parser lalr_table nowhere 0 0 2 [] (omega arith) (omega arith)
      (omega arith) (omega arith)
