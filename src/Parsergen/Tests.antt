-- ===== src/Parsergen/Tests.antt =====
-- The theorems at the grammar of test/lr_test.c, and the table that is generated for it.
use neoast.Common.{
  ℕ, zero, suc, List, [], ◌∷◌, length, Bool, true, false, none, ◌≡◌, ◌≤◌, ◌<◌, ◌*◌, ◌^◌, refl, ◌||◌,
  ◌⊎◌, ◌↔◌, inl, inr, Outcome, done, ◌>>=◌, ◌++◌, take, drop, arith,
}
use neoast.Runtime.Types.{GrammarRule, GrammarParser}
use neoast.Runtime.Table.{reduce, classify, table_from_matrix}
use neoast.Runtime.Valid.{is_valid}
use neoast.Runtime.Correct.Tests.{lr_cert}
use neoast.Runtime.Tests.{lr_parser, lalr_table, sh, re}
use neoast.Lexer.Input.{slice}
use neoast.Parsergen.BitVector.{
  BitVector, test_bit, grow, empty_of, contains, select, clear_at, merge_words, merge, indices_from,
  indices,
}
use neoast.Parsergen.BitVector.Laws.{IsBits, has_index, clears, merge_lem}
use neoast.Parsergen.Items.{
  Item, Production, to_index, is_action, is_final, curr, merge_first_of, merge_symbols,
  merge_next_lookaheads, Report,
}
use neoast.Parsergen.First.{
  Firsts, add_rules, join_first, first_of_rule, first_of_rules, lr_1_firstof_impl,
  lr_1_firstof_init, fill_firsts, initial,
}
use neoast.Parsergen.FirstLaws.{first_of_rule_rest}
use neoast.Parsergen.Closure.{
  expands, next_lookaheads, merge_all, add_items, expand_item, expand_items, expand_rounds, pass_on,
  propagate_item, propagate_from, propagate, apply_closure,
}
use neoast.Parsergen.Ready.{is_ready, symbol_ok, IsItem}
use neoast.Parsergen.Closed.{IsClosure, apply_closure-IsClosure}
use neoast.Parsergen.Collection.{
  GrammarState, Collection, build_cores, cores_within, lalr_equal, merge_core, merge_cores,
  lalr_merge, set_id, add_state, group_items, add_edges, resolve_state, merge_states, find_core,
  lalr_states, resolve, lalr_1,
}
use neoast.Parsergen.Cores.{has_core, lalr_equal_same}
use neoast.Parsergen.Table.{
  Row, conflict, fill_reduce, fill_reduces, reduce_entry, fill_items, fill_edges, fill_table,
  fill_rows, generate,
}
use neoast.Parsergen.Fill.{cell}
use neoast.Parsergen.Edges.{AllEdges}
use neoast.Parsergen.Reductions.{AllReady}
use neoast.Parsergen.Rows.{Fits, Does, reduces, fill_table-Kept}
use neoast.Parsergen.Generated.{IsNumbered, Reads, generate-Reads}

abbrev generated : Outcome (List ℕ × Bool × List Report)
generated = initial lr_parser 10 (261 ∷ 259 ∷ 260 ∷ []) >>= λ firsts.
    resolve lr_parser (firsts.0) 20 lalr_1 >>= λ c. generate lr_parser none c

-- The accept entry is in the column of the end of input alone; the table of the test has it in the
-- columns of the tokens too.
abbrev generated_table : List ℕ
generated_table = take 5 lalr_table ++ 536870912 ∷ 0 ∷ 0 ∷ drop 8 lalr_table

generates : generated ≡ done (generated_table, false, [])
unfolding test_bit grow empty_of contains select clear_at merge_words merge indices_from indices
    to_index is_action is_final curr merge_first_of merge_symbols merge_next_lookaheads add_rules
    join_first first_of_rule first_of_rules lr_1_firstof_impl lr_1_firstof_init fill_firsts initial
    expands next_lookaheads merge_all add_items expand_item expand_items expand_rounds pass_on
    propagate_item propagate_from propagate apply_closure build_cores cores_within lalr_equal
    merge_core merge_cores lalr_merge set_id add_state group_items add_edges resolve_state
    merge_states find_core lalr_states resolve conflict fill_reduce fill_reduces reduce_entry
    fill_items fill_edges fill_table fill_rows generate slice
generates = refl

-- The generated table passes the check that the correctness of the parser asks for.
generated_valid : is_valid lr_parser generated_table lr_cert ≡ true
unfolding is_valid classify table_from_matrix
generated_valid = refl

-- The sets {1, 3} and {0, 3} of five indices.
abbrev one_three : BitVector
one_three = record { len = 5; words = 10 ∷ [] }

abbrev zero_three : BitVector
zero_three = record { len = 5; words = 9 ∷ [] }

one_three-IsBits : IsBits 5 one_three
one_three-IsBits = record { sized = refl; fits = refl; small = (omega arith, tt) }

zero_three-IsBits : IsBits 5 zero_three
zero_three-IsBits = record { sized = refl; fits = refl; small = (omega arith, tt) }

merge_lem_example :
    (c : Bool) × (b : BitVector) × (merge one_three zero_three ≡ done (c, b))
    × IsBits 5 b
    × ((k : ℕ) → has_index b k ≡ (has_index one_three k || has_index zero_three k))
    × (((c ≡ false) × (b ≡ one_three)) ⊎ ((c ≡ true) × (clears b < clears one_three)))
merge_lem_example = merge_lem 5 one_three zero_three one_three-IsBits zero_three-IsBits

-- The productions of the grammar with their first sets.
abbrev item_bits : ℕ → BitVector
item_bits w = record { len = 3; words = w ∷ [] }

item_bits-IsBits : (w : ℕ) → w < 2 ^ 32 → IsBits 3 (item_bits w)
item_bits-IsBits w small = record { sized = refl; fits = refl; small = (small, tt) }

abbrev made : ℕ → List ℕ → ℕ → Production
made x rs w = record {
  token = x;
  rules = rs;
  first_of = item_bits w;
  initialized = true;
  has_empty = false;
}

abbrev lr_productions : List Production
lr_productions = made 261 (0 ∷ []) 6 ∷ made 259 (1 ∷ []) 6 ∷ made 260 (2 ∷ 3 ∷ []) 6 ∷ []

first_sets : initial lr_parser 10 (261 ∷ 259 ∷ 260 ∷ []) ≡ done (lr_productions, [])
unfolding test_bit grow empty_of contains select clear_at merge_words merge to_index is_action
    add_rules join_first first_of_rule first_of_rules lr_1_firstof_impl lr_1_firstof_init
    fill_firsts initial
first_sets = refl

lr_parser_ready : is_ready lr_parser lr_productions ≡ true
unfolding is_ready symbol_ok to_index
lr_parser_ready = refl

abbrev start_item : Item
start_item = record { derivation = 0; i = 0; look_ahead = item_bits 1 }

abbrev start_rule : GrammarRule
start_rule = record { token = 261; tok_n = 1; grammar = 259 ∷ [] }

start_item-IsItem : IsItem lr_parser lr_productions start_item
start_item-IsItem = record {
  rule = start_rule;
  found = refl;
  inside = omega arith;
  sized = item_bits-IsBits 1 (omega arith);
}

apply_closure-IsClosure_example :
    (enough : ℕ) × (items : List Item) × ((fuel : ℕ)
      → enough ≤ fuel
      → apply_closure lr_parser lr_productions fuel (start_item ∷ []) ≡ done items)
    × IsClosure lr_parser lr_productions items (start_item ∷ [])
apply_closure-IsClosure_example =
    apply_closure-IsClosure lr_parser lr_productions (start_item ∷ []) lr_parser_ready
      (start_item-IsItem, tt)

-- The states behind `S → A A .` and behind `A → a . A` have the same cores as themselves with other
-- lookaheads, and differ from each other.
abbrev moved : ℕ → ℕ → ℕ → Item
moved r i w = record { derivation = r; i = i; look_ahead = item_bits w }

abbrev behind_a : ℕ → List Item
behind_a w = moved 2 1 w ∷ moved 2 0 w ∷ moved 3 0 w ∷ []

lalr_equal_same_example :
    (r : Bool) × (lalr_equal (behind_a 1) (behind_a 6) ≡ done r)
    × ((r ≡ true) ↔ ((x : Item) → has_core x (behind_a 1) ≡ has_core x (behind_a 6)))
lalr_equal_same_example = lalr_equal_same (behind_a 1) (behind_a 6) refl refl

-- One state, with the item `A → b .` on the end of input and an edge to itself.
abbrev final_item : Item
final_item = moved 3 1 1

abbrev looping : GrammarState
looping = record { items = final_item ∷ []; merged_states = []; dfa = (257, 0) ∷ []; state_id = 0 }

abbrev single : Collection
single = record { state_n = 1; states = looping ∷ []; state_id_to_ptr = (0, 0) ∷ [] }

single-Fits : Fits lr_parser none single
single-Fits = record { states = omega arith; rules = omega arith; columns = omega arith }

looping-AllEdges : AllEdges lr_parser none single looping.dfa
unfolding to_index
looping-AllEdges = ((looping, 1, refl, omega arith, refl, omega arith), tt)

looping-AllReady : AllReady lr_parser none looping.items
unfolding to_index
looping-AllReady = (
  record {
    rule = record { token = 260; tok_n = 1; grammar = 258 ∷ [] };
    found = refl;
    column = 4;
    indexed = refl;
    sized = item_bits-IsBits 1 (omega arith);
  },
  tt,
)

single-IsNumbered : IsNumbered lr_parser none single
single-IsNumbered zero below = (0, looping, refl, refl, looping-AllEdges, looping-AllReady)
single-IsNumbered (suc id) below = absurd (omega arith)

generate-Reads_example :
    (table : List ℕ) × (conflict : Bool) × (reports : List Report) × (generate lr_parser none single
      ≡ done (table, conflict, reports))
    × (length table ≡ 1 * 5)
    × ((id k : ℕ)
        → id < 1
        → k < 5
        → (v : ℕ) × (table_from_matrix table id k 5 ≡ done v) × Reads lr_parser none single id k v)
generate-Reads_example =
    generate-Reads lr_parser none single single-Fits (λ i below. (0, refl)) single-IsNumbered

abbrev empty_row : Row
empty_row = record { cells = []; rr_conflicts = 0; sr_conflicts = 0; reports = [] }

abbrev filled_row : Row
filled_row = record empty_row { cells = re 3 ∷ sh 0 ∷ 0 ∷ 0 ∷ 0 ∷ [] }

looping_fills : fill_table lr_parser none single looping empty_row ≡ done filled_row
unfolding fill_table fill_edges fill_items to_index is_final reduce_entry indices indices_from
    contains test_bit fill_reduces fill_reduce conflict
looping_fills = refl

looping-Does : Does lr_parser none single looping 0 (reduce 3)
unfolding to_index
looping-Does =
    reduces final_item 4 (inl refl)
      (record { token = 260; tok_n = 1; grammar = 258 ∷ [] }, refl, refl, refl) refl refl

fill_table-Kept_example : classify (cell filled_row 0) ≡ reduce 3
fill_table-Kept_example =
    fill_table-Kept lr_parser none single single-Fits looping empty_row filled_row 0 (reduce 3) refl
      looping-AllEdges looping-AllReady looping_fills refl (omega arith) looping-Does

-- S' → S, S → A a, S → A b, and A → nothing.
abbrev nullable_rules : List GrammarRule
nullable_rules =
    start_rule
    ∷ record { token = 259; tok_n = 2; grammar = 260 ∷ 257 ∷ [] }
    ∷ record { token = 259; tok_n = 2; grammar = 260 ∷ 258 ∷ [] }
    ∷ record { token = 260; tok_n = 0; grammar = [] }
    ∷ []

abbrev nullable_parser : GrammarParser
nullable_parser = record lr_parser { grammar_rules = nullable_rules }

-- S can begin with a and with b, but its first set is empty.
misses_first :
    initial nullable_parser 10 (261 ∷ 259 ∷ 260 ∷ [])
    ≡ done (
      made 261 (0 ∷ []) 0
          ∷ made 259 (1 ∷ 2 ∷ []) 0
          ∷ record (made 260 (3 ∷ []) 0) { has_empty = true }
          ∷ [],
      [],
    )
unfolding test_bit grow empty_of contains select clear_at merge_words merge to_index is_action
    add_rules join_first first_of_rule first_of_rules lr_1_firstof_impl lr_1_firstof_init
    fill_firsts initial
misses_first = refl

abbrev no_firsts : Firsts
no_firsts = record { productions = lr_productions; visiting = empty_of 6; reports = [] }

first_of_rule_rest_example :
    first_of_rule nullable_parser (λ x f. done f) 259 1 no_firsts
    ≡ first_of_rule nullable_parser (λ x f. done f) 259 2 no_firsts
first_of_rule_rest_example =
    first_of_rule_rest nullable_parser (λ x f. done f) 259 1 2 260
      (record { token = 259; tok_n = 2; grammar = 260 ∷ 257 ∷ [] })
      (record { token = 259; tok_n = 2; grammar = 260 ∷ 258 ∷ [] }) no_firsts refl refl
      (omega arith) (omega arith) refl refl (inr (made 260 (2 ∷ 3 ∷ []) 6, refl))
