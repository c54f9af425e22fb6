-- ===== src/Parsergen/Rows.antt =====
-- `fill_table` as a whole, and how the runtime reads the row that it fills.
use neoast.Common.{
  ℕ, zero, suc, ◌^◌, ◌≤◌, ◌<◌, ◌≡◌, refl, ap, sym, ◌∙◌, List, [], ◌∷◌, length, replicate,
  length-replicate, get_or, true, false, ◌==◌, Option, none, inl, inr, bit_or, arith, subst,
}
use neoast.Common.{Outcome, done, Bool-cases, get_elem?-lt}
use neoast.Runtime.Types.{GrammarParser}
use neoast.Runtime.Table.{
  Action, syntax_error, accept, stuck, shift, reduce, classify, tok_accept_mask, tok_shift_mask,
  tok_reduce_mask,
}
use neoast.Parsergen.BitVector.Laws.{has_index}
use neoast.Parsergen.Items.{Item, to_index}
use neoast.Parsergen.Collection.{GrammarState, Collection, state_at}
use neoast.Parsergen.Table.{Row, precedence_at, fill_table}
use neoast.Parsergen.Decode.{
  is_strong, is_strong-shift, classify-shift, classify-reduce, classify-accept,
}
use neoast.Parsergen.Fill.{cell, conflicts, HasPrecedence}
use neoast.Parsergen.Edges.{In, AllEdges, IsEdge, fill_edges_lem}
use neoast.Parsergen.Reductions.{
  AllReady, FillsItems, IsReduction, Reduces, entry_of, fill_items-FillsItems,
}

module _ (parser : GrammarParser) (precedence : Option (List ℕ)) (c : Collection) where
  -- An action of the state `s` in column `k`.
  pub data Does (s : GrammarState) (k : ℕ) : Action → Type 0 where
    nothing : Does s k syntax_error
    goes :
        (x p : ℕ) (t : GrammarState)
        → In (x, p) s.dfa
        → state_at c p ≡ done t
        → to_index parser x ≡ done k
        → Does s k (shift t.state_id)
    reduces :
        (item : Item) (j : ℕ)
        → In item s.items
        → Reduces parser precedence item j
        → (j == parser.token_n) ≡ false
        → has_index item.look_ahead k ≡ true
        → Does s k (reduce item.derivation)
    accepts :
        (item : Item) (j : ℕ)
        → In item s.items
        → Reduces parser precedence item j
        → (j == parser.token_n) ≡ true
        → has_index item.look_ahead k ≡ true
        → Does s k accept

  numbered_target :
      (edges : List (ℕ × ℕ)) (x p : ℕ) (t : GrammarState)
      → AllEdges parser precedence c edges
      → In (x, p) edges
      → state_at c p ≡ done t
      → t.state_id < c.state_n
  numbered_target [] x p t ok there at = absurd there
  numbered_target (edge ∷ edges) x p t ((u, k, at', numbered, column, below), ok) (inl this) at =
      let e : u ≡ t = done_eq (sym at' ∙ ap (λ z. state_at c (z.1)) (sym this) ∙ at) in
      subst (λ z. z.state_id < c.state_n) e numbered
    where
      done_eq : {a b : GrammarState} → ◌≡◌ {A = Outcome GrammarState} (done a) (done b) → a ≡ b
      done_eq e = cc
  numbered_target (edge ∷ edges) x p t (here, ok) (inr later) at =
      numbered_target edges x p t ok later at

  -- The sizes of a grammar that the entries of a table have room for.
  pub record Fits : Type 0 where
    pub states : c.state_n ≤ 2 ^ 29
    pub rules : length parser.grammar_rules ≤ 2 ^ 29
    pub columns : parser.action_token_n ≤ parser.token_n

  module _ (fits : Fits) (s : GrammarState) where
    shifts_to :
        (k v x p : ℕ) (t : GrammarState)
        → AllEdges parser precedence c s.dfa
        → In (x, p) s.dfa
        → state_at c p ≡ done t
        → v ≡ bit_or t.state_id tok_shift_mask
        → (classify v ≡ shift t.state_id) × (is_strong v ≡ true)
    shifts_to k v x p t ok there at e =
        let numbered = numbered_target s.dfa x p t ok there at in
        let small : t.state_id < 2 ^ 29 = omega (arith, numbered, fits.states) in
        (
          ap classify e ∙ classify-shift t.state_id small,
          ap is_strong e ∙ is_strong-shift t.state_id small,
        )

    small_rule : (item : Item) (j : ℕ) → Reduces parser precedence item j → item.derivation < 2 ^ 29
    small_rule item j (rule, found, final, index) =
        omega (arith, get_elem?-lt parser.grammar_rules item.derivation found, fits.rules)

    IsEdge-Does :
        (k v : ℕ)
        → AllEdges parser precedence c s.dfa
        → IsEdge parser precedence c s.dfa k v
        → Does s k (classify v)
    IsEdge-Does k v ok (x, p, t, there, at, column, e) =
        subst (λ a. Does s k a) (sym (shifts_to k v x p t ok there at e).0)
          (goes x p t there at column)

    IsReduction-Does : (k v : ℕ) → IsReduction parser precedence s.items k v → Does s k (classify v)
    IsReduction-Does k v (item, j, there, how, has_k, e) = elim (Bool-cases (j == parser.token_n)) [
      | inl augment ↦
          let entry : entry_of parser precedence j item.derivation ≡ bit_or tok_accept_mask 0 =
            rw augment refl in
          subst (λ a. Does s k a) (sym (ap classify (e ∙ entry) ∙ classify-accept))
            (accepts item j there how augment has_k)
      | inr plain ↦
          let entry : entry_of parser precedence j item.derivation
              ≡ bit_or tok_reduce_mask item.derivation =
            rw plain refl in
          subst (λ a. Does s k a)
            (sym
              (ap classify (e ∙ entry) ∙ classify-reduce item.derivation (small_rule item j how)))
            (reduces item j there how plain has_k)
    ]

    -- What becomes of an action when no conflict is counted: a reduction stays, a shift is a shift.
    abbrev pub Kept : ℕ → Action → Action → Type 0
    Kept k (reduce r) b = b ≡ reduce r
    Kept k (shift n) b = (m : ℕ) × (b ≡ shift m) × Does s k (shift m)
    Kept k a b = Unit

    Kept-IsEdge :
        (k n v w : ℕ)
        → AllEdges parser precedence c s.dfa
        → IsEdge parser precedence c s.dfa k v
        → (is_strong v ≡ true → w ≡ v)
        → Kept k (shift n) (classify w)
    Kept-IsEdge k n v w ok (x, p, t, there, at, column, e) stays =
        let (read_v, strong) = shifts_to k v x p t ok there at e in
        (t.state_id, ap classify (stays strong) ∙ read_v, goes x p t there at column)

    Does-Kept :
        (k : ℕ) (a : Action) (row row₁ row₂ : Row)
        → AllEdges parser precedence c s.dfa
        → Does s k a
        → precedence ≡ none
        → conflicts row₂ ≡ conflicts row₁
        → k < parser.action_token_n
        → ((x p j : ℕ)
            → In (x, p) s.dfa
            → to_index parser x ≡ done j
            → IsEdge parser precedence c s.dfa j (cell row₁ j))
        → FillsItems parser precedence s.items row₁ row₂
        → Kept k a (classify (cell row₂ k))
    Does-Kept k syntax_error row row₁ row₂ ok nothing e₀ e below shifts fills = tt
    Does-Kept k stuck row row₁ row₂ ok does e₀ e below shifts fills = elim does [ ]
    Does-Kept k accept row row₁ row₂ ok (accepts item j there how augment has_k) e₀ e below shifts
          fills =
        tt
    Does-Kept k (shift n) row row₁ row₂ ok (goes x p t there at column) e₀ e below shifts fills =
        Kept-IsEdge k n (cell row₁ k) (cell row₂ k) ok (shifts x p k there column)
          (fills.kept e₀ e k)
    Does-Kept k (reduce r) row row₁ row₂ ok (reduces item j there how plain has_k) e₀ e below shifts
          fills =
        ap classify (fills.filled e₀ e item j k there how plain below has_k)
        ∙ classify-reduce item.derivation (small_rule item j how)

    -- The whole row.
    fill_table_lem :
        (row : Row)
        → HasPrecedence precedence parser.action_token_n
        → AllEdges parser precedence c s.dfa
        → AllReady parser precedence s.items
        → (row' : Row) × (fill_table parser precedence c s row ≡ done row')
          × (length row'.cells ≡ parser.token_n)
          × (conflicts row ≤ conflicts row')
          × ((k : ℕ) → Does s k (classify (cell row' k)))
          × (precedence ≡ none
              → conflicts row' ≡ conflicts row
              → (k : ℕ) (a : Action) → k < parser.action_token_n
              → Does s k a
              → Kept k a (classify (cell row' k)))
    unfolding fill_table classify
    fill_table_lem row has_table edges items =
        let row₀ = record row { cells = replicate parser.token_n 0 } in
        let long₀ = length-replicate {A = ℕ} parser.token_n 0 in
        let (row₁, ran, long₁, counted, cells, shifts) =
          fill_edges_lem parser precedence c s.dfa row₀ edges (omega (arith, long₀)) in
        let (row₂, ran', fills) =
          fill_items-FillsItems parser precedence has_table s.items row₁ items
            (omega (arith, long₀, long₁, fits.columns)) in
        (
          row₂,
          rw ran ran',
          fills.as_long ∙ long₁ ∙ long₀,
          omega (arith, fills.counts, counted),
          λ k. elim (fills.cells k) [
            | inr new ↦ IsReduction-Does k (cell row₂ k) new
            | inl same ↦ elim (cells k) [
              | inr edge ↦
                  subst (λ v. Does s k (classify v)) (sym same)
                    (IsEdge-Does k (cell row₁ k) edges edge)
              | inl empty ↦
                  subst (λ v. Does s k (classify v)) (sym (same ∙ empty ∙ zeros parser.token_n k))
                    nothing
            ]
          ],
          λ e₀ e k a below does.
              Does-Kept k a row row₁ row₂ edges does e₀ (e ∙ sym counted) below shifts fills,
        )
      where
        zeros : (n k : ℕ) → get_or {A = ℕ} (replicate n 0) k 0 ≡ 0
        zeros zero k = refl
        zeros (suc n) zero = refl
        zeros (suc n) (suc k) = zeros n k

    -- `fill_table` fills a row of `token_n` cells without a fault, and what the runtime reads in a cell
    -- is an action that the state has in that column, or a syntax error. It needs edges to numbered
    -- states by symbols with columns, items of rules of the grammar, and up to 2^29 states and rules.
    pub fill_table-Does :
        (row : Row)
        → HasPrecedence precedence parser.action_token_n
        → AllEdges parser precedence c s.dfa
        → AllReady parser precedence s.items
        → (row' : Row) × (fill_table parser precedence c s row ≡ done row')
          × (length row'.cells ≡ parser.token_n)
          × ((k : ℕ) → Does s k (classify (cell row' k)))
    fill_table-Does row has_table edges items =
        let (row', ran, long, counts, does, kept) = fill_table_lem row has_table edges items in
        (row', ran, long, does)

    -- Without precedences, when `fill_table` counts no conflict, each reduction that the state has in
    -- the column of an action token is what the runtime reads there, and where it has a shift the
    -- runtime reads a shift that it has.
    pub fill_table-Kept :
        (row row' : Row) (k : ℕ) (a : Action)
        → precedence ≡ none
        → AllEdges parser precedence c s.dfa
        → AllReady parser precedence s.items
        → fill_table parser precedence c s row ≡ done row'
        → conflicts row' ≡ conflicts row
        → k < parser.action_token_n
        → Does s k a
        → Kept k a (classify (cell row' k))
    fill_table-Kept row row' k a e₀ edges items ran clean below does =
        let has_table : HasPrecedence precedence parser.action_token_n =
          λ i small. (0, ap (λ q. precedence_at q i) e₀) in
        let (row₂, ran₂, long, counts, sound, kept) = fill_table_lem row has_table edges items in
        let e : row₂ ≡ row' = done_eq (sym ran₂ ∙ ran) in
        subst (λ r. Kept k a (classify (cell r k))) e
          (kept e₀ (ap conflicts e ∙ clean) k a below does)
      where
        done_eq : {a b : Row} → ◌≡◌ {A = Outcome Row} (done a) (done b) → a ≡ b
        done_eq e = cc
