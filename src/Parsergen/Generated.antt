-- ===== src/Parsergen/Generated.antt =====
-- The table of `generate`, as the runtime reads it.
use native.Mathlib.Nat.{add-mul, mul-le-mul_right}
use neoast.Common.{
  ℕ, zero, suc, ◌+◌, ◌*◌, ◌≤◌, ◌<◌, ◌≡◌, refl, ap, sym, ◌∙◌, List, [], ◌∷◌, ◌++◌, length, not, ◌==◌,
  ◌||◌, get_or, Bool, Option, some, inl, inr, arith, subst,
}
use neoast.Common.{done, lt_or_le, get_elem?-eq-get_or, length-append}
use neoast.Runtime.Types.{GrammarParser}
use neoast.Runtime.Table.{classify, table_from_matrix}
use neoast.Parsergen.Items.{Report}
use neoast.Parsergen.Collection.{GrammarState, Collection, state_at, lookup}
use neoast.Parsergen.Table.{Row, fill_rows, generate}
use neoast.Parsergen.Fill.{cell, HasPrecedence}
use neoast.Parsergen.Edges.{AllEdges}
use neoast.Parsergen.Reductions.{AllReady}
use neoast.Parsergen.Rows.{Does, Fits, fill_table-Does}

get_or-append_left :
    (xs ys : List ℕ) (i : ℕ) → i < length xs → get_or (xs ++ ys) i 0 ≡ get_or xs i 0
get_or-append_left [] ys i below = absurd (omega (arith, below))
get_or-append_left (x ∷ xs) ys zero below = refl
get_or-append_left (x ∷ xs) ys (suc i) below = get_or-append_left xs ys i (omega (arith, below))

get_or-append_right : (xs ys : List ℕ) (j : ℕ) → get_or (xs ++ ys) (length xs + j) 0 ≡ get_or ys j 0
get_or-append_right [] ys j = ap (λ i. get_or ys i 0) (omega arith)
get_or-append_right (x ∷ xs) ys j =
    ap (λ i. get_or (x ∷ (xs ++ ys)) i 0) next ∙ get_or-append_right xs ys j
  where
    next : suc (length xs) + j ≡ suc (length xs + j)
    next = omega arith

next_row : (i t : ℕ) → (i + 1) * t ≡ i * t + t
next_row i t = omega (arith, add-mul i 1 t)

row_inside : (i n k t : ℕ) → i < n → k < t → i * t + k < n * t
row_inside i n k t below column =
    let e : (i + 1) * t ≤ n * t = mul-le-mul_right t (omega (arith, below)) in
    omega (arith, e, next_row i t, column)

module _ (parser : GrammarParser) (precedence : Option (List ℕ)) (c : Collection) where
  -- Each number of a state has a state, of which the edges and items are in order.
  abbrev pub IsNumbered : Type 0
  IsNumbered =
      (id : ℕ)
      → id < c.state_n
      → (p : ℕ) × (s : GrammarState) × (lookup id c.state_id_to_ptr ≡ some p)
        × (state_at c p ≡ done s)
        × AllEdges parser precedence c s.dfa
        × AllReady parser precedence s.items

  -- The entry `v` is an action, in column `k`, of the state with the number `id`.
  abbrev pub Reads : ℕ → ℕ → ℕ → Type 0
  Reads id k v =
      (p : ℕ) × (s : GrammarState) × (lookup id c.state_id_to_ptr ≡ some p)
      × (state_at c p ≡ done s)
      × Does parser precedence c s k (classify v)

  module _ (fits : Fits parser precedence c)
      (has_table : HasPrecedence precedence parser.action_token_n) (numbered : IsNumbered) where
    fill_rows_lem :
        (rounds id : ℕ) (row : Row)
        → id + rounds ≤ c.state_n
        → length row.cells ≡ id * parser.token_n
        → (row' : Row) × (fill_rows parser precedence c rounds id row ≡ done row')
          × (length row'.cells ≡ (id + rounds) * parser.token_n)
          × ((n : ℕ) → n < length row.cells → cell row' n ≡ cell row n)
          × ((i k : ℕ)
              → id ≤ i
              → i < id + rounds
              → k < parser.token_n
              → Reads i k (cell row' (i * parser.token_n + k)))
    unfolding fill_rows
    fill_rows_lem zero id row below long = (
      row,
      refl,
      long ∙ ap (λ n. n * parser.token_n) (omega arith),
      λ n inside. refl,
      λ i k above small column. absurd (omega (arith, above, small)),
    )
    fill_rows_lem (suc rounds) id row below long =
        let t = parser.token_n in
        let (p, s, found, at, edges, items) = numbered id (omega (arith, below)) in
        let (row₁, ran, width, does) =
          fill_table-Does parser precedence c fits s row has_table edges items in
        let cells = row.cells ++ row₁.cells in
        let long₁ : length cells ≡ (id + 1) * t =
          omega (arith, length-append row.cells row₁.cells, long, width, next_row id t) in
        let (row₂, ran', long₂, kept, reads) =
          fill_rows_lem rounds (id + 1) (record row₁ { cells = cells }) (omega (arith, below))
            long₁ in
        (
          row₂,
          rw (found, at, ran) ran',
          long₂ ∙ ap (λ n. n * t) (omega arith),
          λ n inside.
              kept n (omega (arith, inside, length-append row.cells row₁.cells))
              ∙ get_or-append_left row.cells row₁.cells n inside,
          λ i k above small column. elim (lt_or_le id i) [
            | inl later ↦ reads i k (omega (arith, later)) (omega (arith, small)) column
            | inr here ↦
                let e : i ≡ id = omega (arith, here, above) in
                let place : i * t + k ≡ length row.cells + k =
                  omega (arith, long, ap (λ n. n * t) e) in
                let value : cell row₂ (i * t + k) ≡ cell row₁ k =
                  ap (cell row₂) place
                  ∙ kept (length row.cells + k)
                      (omega (arith, column, width, length-append row.cells row₁.cells))
                  ∙ get_or-append_right row.cells row₁.cells k in
                subst (λ v. Reads i k v) (sym value)
                  (subst (λ j. Reads j k (cell row₁ k)) (sym e) (p, s, found, at, does k))
          ],
        )

    -- `generate` returns a table of a row for each state, and what the runtime finds in the row of a
    -- state, in the column of a symbol, is an action of that state in that column, or a syntax error.
    -- It needs numbered states whose edges go to numbered states by symbols with columns and whose
    -- items are of rules of the grammar, and at most 2^29 states and rules.
    pub generate-Reads :
        (table : List ℕ) × (conflict : Bool) × (reports : List Report) × (generate parser precedence
            c
          ≡ done (table, conflict, reports))
        × (length table ≡ c.state_n * parser.token_n)
        × ((id k : ℕ)
            → id < c.state_n
            → k < parser.token_n
            → (v : ℕ) × (table_from_matrix table id k parser.token_n ≡ done v) × Reads id k v)
    unfolding generate table_from_matrix
    generate-Reads =
        let t = parser.token_n in
        let start : Row = record { cells = []; rr_conflicts = 0; sr_conflicts = 0; reports = [] } in
        let (row, ran, long, kept, reads) =
          fill_rows_lem c.state_n 0 start (omega arith) (omega arith) in
        let size : length row.cells ≡ c.state_n * t = long ∙ ap (λ n. n * t) (omega arith) in
        (
          row.cells,
          not (row.rr_conflicts == 0) || not (row.sr_conflicts == 0),
          row.reports,
          rw ran refl,
          size,
          λ id k below column.
              let inside : id * t + k < length row.cells =
                omega (arith, size, row_inside id c.state_n k t below column) in
              (
                cell row (id * t + k),
                rw (get_elem?-eq-get_or row.cells (id * t + k) 0 inside) refl,
                reads id k (omega arith) (omega (arith, below)) column,
              ),
        )
