-- ===== src/Parsergen/Table.antt =====
-- `GrammarState::fill_table` of src/parsergen/derivation.cc, and `CanonicalCollection::generate`.
use neoast.Common.{
  ℕ, zero, suc, ◌+◌, List, [], ◌∷◌, ◌++◌, replicate, Bool, true, false, not, ◌==◌, ltb, ◌||◌,
  Option, none, some, bit_and, bit_or,
}
use neoast.Common.{if◌then◌else◌, Outcome, done, ◌>>=◌, ◌>>◌, assert, read, write}
use neoast.Runtime.Types.{GrammarRule, GrammarParser}
use neoast.Runtime.Table.{
  tok_accept_mask, tok_shift_mask, tok_reduce_mask, tok_syntax_error, tok_mask, has,
}
use neoast.Parsergen.BitVector.{indices}
use neoast.Parsergen.Items.{
  Item, Report, reduce_reduce, other_rule, shift_reduce, at_or_throw, rule_at, to_index, is_final,
}
use neoast.Parsergen.Collection.{GrammarState, Collection, state_at, lookup}

-- A row of the table, the numbers of conflicts, and what was reported.
pub record Row : Type 0 where
  pub cells : List ℕ
  pub rr_conflicts : ℕ
  pub sr_conflicts : ℕ
  pub reports : List Report

-- `PRECEDENCE_NONE`, `PRECEDENCE_LEFT` and `PRECEDENCE_RIGHT`.
abbrev pub precedence_none : ℕ
precedence_none = 0

abbrev pub precedence_left : ℕ
precedence_left = 1

abbrev pub precedence_right : ℕ
precedence_right = 2

-- `precedence_table[i]`, if there is a table.
abbrev pub precedence_at : Option (List ℕ) → ℕ → Outcome ℕ
precedence_at none i = done precedence_none
precedence_at (some table) i = read table i

abbrev pub set_cell : ℕ → ℕ → Row → Outcome Row
set_cell i v row = write row.cells i v >>= λ cells. done (record row { cells = cells })

-- Two rules can reduce.
abbrev pub count_rr : ℕ → ℕ → ℕ → Row → Row
count_rr rule i old row = record row {
  rr_conflicts = row.rr_conflicts + 1;
  reports =
      row.reports
      ++ record { problem = reduce_reduce; rule = rule; index = i }
        ∷ record { problem = other_rule; rule = bit_and old tok_mask; index = i }
        ∷ [];
}

-- A rule can reduce where the state shifts.
abbrev pub count_sr : ℕ → ℕ → Row → Row
count_sr rule i row = record row {
  sr_conflicts = row.sr_conflicts + 1;
  reports = row.reports ++ record { problem = shift_reduce; rule = rule; index = i } ∷ [];
}

-- A cell that is filled already: whether the new entry replaces it, and the reports.
unfoldable pub conflict : Option (List ℕ) → ℕ → ℕ → ℕ → Row → Outcome (Bool × Row)
conflict precedence rule i old row =
    if old == tok_syntax_error
    then done (true, row)
    else if has old tok_reduce_mask
    then done (true, count_rr rule i old row)
    else if has old tok_shift_mask
    then (precedence_at precedence i >>= λ p.
        if p == precedence_left
        then done (true, row)
        else if p == precedence_right
        then done (false, row)
        else done (true, count_sr rule i row))
    else done (true, row)

-- One lookahead of a final item.
unfoldable pub fill_reduce : Option (List ℕ) → ℕ → ℕ → ℕ → Row → Outcome Row
unfolding conflict
fill_reduce precedence rule entry i row = read row.cells i >>= λ old.
    conflict precedence rule i old row >>= λ checked.
    if checked.0 then set_cell i entry (checked.1) else done (checked.1)

unfoldable pub fill_reduces : Option (List ℕ) → ℕ → ℕ → List ℕ → Row → Outcome Row
unfolding fill_reduce
fill_reduces precedence rule entry [] row = done row
fill_reduces precedence rule entry (i ∷ is) row =
    fill_reduce precedence rule entry i row >>= λ row'. fill_reduces precedence rule entry is row'

module _ (parser : GrammarParser) (precedence : Option (List ℕ)) where
  -- The entry for a reduction by a rule; the rule of the augment token accepts.
  unfoldable pub reduce_entry : ℕ → GrammarRule → Outcome ℕ
  reduce_entry r rule = to_index parser rule.token >>= λ k.
      done (if k == parser.token_n then bit_or tok_accept_mask 0 else bit_or tok_reduce_mask r)

  unfoldable pub fill_items : List Item → Row → Outcome Row
  unfolding reduce_entry fill_reduces
  fill_items [] row = done row
  fill_items (item ∷ items) row = is_final parser item >>= λ final.
      (if final
        then (rule_at parser item.derivation >>= λ rule.
            reduce_entry item.derivation rule >>= λ entry.
            indices item.look_ahead >>= λ is. fill_reduces precedence item.derivation entry is row)
        else done row)
      >>= λ row'. fill_items items row'

  -- The edges, shifts and gotos alike.
  unfoldable pub fill_edges : Collection → List (ℕ × ℕ) → Row → Outcome Row
  fill_edges c [] row = done row
  fill_edges c (edge ∷ edges) row = state_at c (edge.1) >>= λ target.
      assert (ltb target.state_id c.state_n)
      >> (to_index parser (edge.0) >>= λ k.
          set_cell k (bit_or target.state_id tok_shift_mask) row >>= λ row'.
          fill_edges c edges row')

  -- `fill_table`; the row is in memory of its own.
  unfoldable pub fill_table : Collection → GrammarState → Row → Outcome Row
  unfolding fill_items fill_edges
  fill_table c s row =
      fill_edges c s.dfa (record row { cells = replicate parser.token_n 0 }) >>= λ row'.
      fill_items s.items row'

  -- The rows from state `id` on, of which `rounds` are left, behind the cells of those before.
  unfoldable pub fill_rows : Collection → ℕ → ℕ → Row → Outcome Row
  unfolding fill_table
  fill_rows c zero id row = done row
  fill_rows c (suc rounds) id row = at_or_throw (lookup id c.state_id_to_ptr) >>= λ p.
      state_at c p >>= λ s. fill_table c s row >>= λ row'.
      fill_rows c rounds (id + 1) (record row' { cells = row.cells ++ row'.cells })

  -- `generate`: the table, whether there was a conflict, and what was reported.
  unfoldable pub generate : Collection → Outcome (List ℕ × Bool × List Report)
  unfolding fill_rows
  generate c =
      fill_rows c c.state_n 0
        (record { cells = []; rr_conflicts = 0; sr_conflicts = 0; reports = [] })
      >>= λ row.
          done (row.cells, not (row.rr_conflicts == 0) || not (row.sr_conflicts == 0), row.reports)
