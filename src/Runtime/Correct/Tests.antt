-- ===== src/Runtime/Correct/Tests.antt =====
-- The theorems at the grammar of test/lr_test.c.
use neoast.Common.{ℕ, suc, ◌≤◌, ◌<◌, ◌≡◌, refl, true, List, [], ◌∷◌, length, pos, arith}
use native.Mathlib.Nat.{le_refl}
use neoast.Runtime.Types.{Value, allocate_buffers}
use neoast.Runtime.Table.{classify, table_from_matrix}
use neoast.Runtime.Loop.{parse_lr}
use neoast.Runtime.Automaton.{fetched}
use neoast.Runtime.Valid.{Certificate, Layer, is_valid}
use neoast.Runtime.Tests.{lr_parser, lalr_table, adder, buffers, Feed, feed_next}
use neoast.Runtime.Correct.Setup.{Laws, IsReady, Ends}
use neoast.Runtime.Correct.Parse.{IsReset, parse_lr-Ends}

abbrev layer : ℕ → List ℕ → Layer
layer x qs = record { symbol = x; under = qs }

abbrev below_a : List ℕ
below_a = 0 ∷ 2 ∷ 3 ∷ []

abbrev pub lr_cert : Certificate
lr_cert = record {
  layers =
      []
      ∷ (layer 3 (0 ∷ []) ∷ [])
      ∷ (layer 4 (0 ∷ []) ∷ [])
      ∷ (layer 1 below_a ∷ [])
      ∷ (layer 2 below_a ∷ [])
      ∷ (layer 4 (2 ∷ []) ∷ layer 4 (0 ∷ []) ∷ [])
      ∷ (layer 4 (3 ∷ []) ∷ layer 1 below_a ∷ [])
      ∷ [];
  ranks = 0 ∷ 0 ∷ 0 ∷ 1 ∷ 1 ∷ [];
  max_rank = 1;
}

-- The hand-written table of the test passes the check.
lr_table_valid : is_valid lr_parser lalr_table lr_cert ≡ true
unfolding is_valid classify table_from_matrix
lr_table_valid = refl

adder_range : (cell : Value ℕ) (env : Feed) (t : ℕ) → (feed_next cell env).0 ≡ pos t → t < 3
adder_range cell [] t e = ground arith
adder_range cell ((u, v) ∷ rest) t e = ground arith

adder_progress :
    (cell : Value ℕ) (env : Feed) (t : ℕ)
    → (feed_next cell env).0 ≡ pos (suc t)
    → length (feed_next cell env).2 < length env
adder_progress cell [] t e = ground arith
adder_progress cell ((u, v) ∷ rest) t e = omega arith

adder_no_growth : (cell : Value ℕ) (env : Feed) → length (feed_next cell env).2 ≤ length env
adder_no_growth cell [] = omega arith
adder_no_growth cell ((u, v) ∷ rest) = omega arith

abbrev adder_laws : Laws adder lr_parser
adder_laws = record {
  remaining = length;
  in_range = adder_range;
  progress = adder_progress;
  no_growth = adder_no_growth;
  reduce_keeps = λ r vs env. le_refl (length env);
}

abbrev input : Feed
input = (2, 1) ∷ (1, 10) ∷ (1, 20) ∷ (1, 30) ∷ (2, 2) ∷ []

adder-IsReady : IsReady adder lr_parser lalr_table lr_cert 8 17 5
adder-IsReady = record {
  valid = lr_table_valid;
  names = omega arith;
  sized = tt;
  small_table = omega arith;
  enough_cells = omega arith;
  enough_slots = omega arith;
}

buffers-IsReset : IsReset adder lr_parser lalr_table 8 17 buffers
unfolding allocate_buffers
buffers-IsReset = record {
  empty = refl;
  value_cells = refl;
  token_cells = refl;
  stack_slots = refl;
}

parse_lr-Ends_example :
    (cell : Value ℕ) × Ends adder lr_parser lalr_table lr_cert
      (fetched adder [] 0 input cell)
      (parse_lr adder lr_parser lalr_table 22 buffers input)
parse_lr-Ends_example =
    parse_lr-Ends adder lr_parser lalr_table lr_cert adder_laws buffers input 22 adder-IsReady
      buffers-IsReset (omega arith) (omega arith)
