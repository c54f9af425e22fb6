-- ===== src/Parsergen/Reductions.antt =====
-- The reductions that `fill_table` writes into a row.
use neoast.Common.{
  ℕ, ◌≤◌, ◌<◌, ◌≡◌, refl, ap, sym, ◌∙◌, List, [], ◌∷◌, length, get_elem?, true, false, ◌==◌, Option,
  none, some, ◌⊎◌, inl, inr, bit_or, arith, subst,
}
use neoast.Common.{if◌then◌else◌, Outcome, done, Bool-cases, ==_iff}
use neoast.Runtime.Types.{GrammarRule, GrammarParser}
use neoast.Runtime.Table.{tok_accept_mask, tok_reduce_mask}
use neoast.Parsergen.BitVector.Laws.{IsBits, has_index, passing, indices_lem}
use neoast.Parsergen.Items.{Item, is_final, to_index}
use neoast.Parsergen.Table.{Row, reduce_entry, fill_items}
use neoast.Parsergen.Decode.{is_strong, is_strong-reduce}
use neoast.Parsergen.Fill.{cell, conflicts, HasPrecedence, Fills, fill_reduces-Fills}
use neoast.Parsergen.Edges.{In, listed-passing, passing-listed}

module _ (parser : GrammarParser) (precedence : Option (List ℕ)) where
  -- What `reduce_entry` makes of a rule whose token has column `j`.
  abbrev pub entry_of : ℕ → ℕ → ℕ
  entry_of j r = if j == parser.token_n then bit_or tok_accept_mask 0 else bit_or tok_reduce_mask r

  -- An item of a rule, whose token has an index, with lookaheads of the right size.
  pub record IsReady (item : Item) : Type 0 where
    pub rule : GrammarRule
    pub found : get_elem? parser.grammar_rules item.derivation ≡ some rule
    pub column : ℕ
    pub indexed : to_index parser rule.token ≡ done column
    pub sized : IsBits parser.action_token_n item.look_ahead

  abbrev pub AllReady : List Item → Type 0
  AllReady [] = Unit
  AllReady (x ∷ xs) = IsReady x × AllReady xs

  -- `item` is final, and reduces by a rule whose token has column `j`.
  abbrev pub Reduces : Item → ℕ → Type 0
  Reduces item j =
      (rule : GrammarRule) × (get_elem? parser.grammar_rules item.derivation ≡ some rule)
      × (item.i ≡ rule.tok_n)
      × (to_index parser rule.token ≡ done j)

  -- `v` is the entry of a final item with lookahead `k`.
  abbrev pub IsReduction : List Item → ℕ → ℕ → Type 0
  IsReduction items k v =
      (item : Item) × (j : ℕ) × In item items
      × Reduces item j
      × (has_index item.look_ahead k ≡ true)
      × (v ≡ entry_of j item.derivation)

  -- What the items of a state do to a row.
  pub record FillsItems (items : List Item) (row row' : Row) : Type 0 where
    pub as_long : length row'.cells ≡ length row.cells
    pub counts : conflicts row ≤ conflicts row'
    pub cells : (k : ℕ) → (cell row' k ≡ cell row k) ⊎ IsReduction items k (cell row' k)
    pub kept :
        precedence ≡ none
        → conflicts row' ≡ conflicts row
        → (k : ℕ) → is_strong (cell row k) ≡ true
        → cell row' k ≡ cell row k
    pub filled :
        precedence ≡ none
        → conflicts row' ≡ conflicts row
        → (item : Item) (j k : ℕ) → In item items
        → Reduces item j
        → (j == parser.token_n) ≡ false
        → k < parser.action_token_n
        → has_index item.look_ahead k ≡ true
        → cell row' k ≡ bit_or tok_reduce_mask item.derivation

  Reduces-column :
      (item : Item) (ok : IsReady item) (j : ℕ)
      → Reduces item j
      → (j ≡ ok.column) × (item.i ≡ ok.rule.tok_n)
  Reduces-column item ok j (rule, found, final, index) =
      let e : rule ≡ ok.rule = some_eq (sym found ∙ ok.found) in
      (
        done_eq (sym index ∙ ap (λ r. to_index parser r.token) e ∙ ok.indexed),
        final ∙ ap (λ r. r.tok_n) e,
      )
    where
      some_eq : {a b : GrammarRule} → some a ≡ some b → a ≡ b
      some_eq e = cc

      done_eq : {a b : ℕ} → ◌≡◌ {A = Outcome ℕ} (done a) (done b) → a ≡ b
      done_eq e = cc

  IsReduction-later :
      (item : Item) (items : List Item) (k v : ℕ)
      → IsReduction items k v
      → IsReduction (item ∷ items) k v
  IsReduction-later item items k v (x, j, there, reduces, has_k, e) =
      (x, j, inr there, reduces, has_k, e)

  -- An item that is not final fills nothing.
  FillsItems-skip :
      (item : Item) (items : List Item) (row row' : Row) (ok : IsReady item)
      → (item.i == ok.rule.tok_n) ≡ false
      → FillsItems items row row'
      → FillsItems (item ∷ items) row row'
  FillsItems-skip item items row row' ok pending fills = record {
    as_long = fills.as_long;
    counts = fills.counts;
    cells = λ k. elim (fills.cells k) [
      | inl same ↦ inl same
      | inr new ↦ inr (IsReduction-later item items k (cell row' k) new)
    ];
    kept = fills.kept;
    filled = λ e₀ e x j k there reduces other below has_k. elim there [
      | inr later ↦ fills.filled e₀ e x j k later reduces other below has_k
      | inl this ↦
          let (column, final) = Reduces-column item ok j (subst (λ y. Reduces y j) this reduces) in
          absurd (ground (arith, final, pending))
    ];
  }

  -- A final item fills its lookaheads.
  FillsItems-Fills :
      (item : Item) (items : List Item) (row row₁ row₂ : Row) (ok : IsReady item)
      → (item.i == ok.rule.tok_n) ≡ true
      → Fills precedence
          (entry_of ok.column item.derivation)
          (passing (has_index item.look_ahead) parser.action_token_n 0)
          row
          row₁
      → FillsItems items row₁ row₂
      → FillsItems (item ∷ items) row row₂
  FillsItems-Fills item items row row₁ row₂ ok final first others = record {
    as_long = others.as_long ∙ first.as_long;
    counts = omega (arith, others.counts, first.counts);
    cells = λ k. elim (others.cells k) [
      | inr new ↦ inr (IsReduction-later item items k (cell row₂ k) new)
      | inl same ↦ elim (first.cells k) [
        | inl old ↦ inl (same ∙ old)
        | inr (new, there) ↦
            let (has_k, below) =
              listed-passing (has_index item.look_ahead) parser.action_token_n 0 k there in
            inr (
              item,
              ok.column,
              inl refl,
              (ok.rule, ok.found, (==_iff item.i ok.rule.tok_n).0 final, ok.indexed),
              has_k,
              same ∙ new,
            )
      ]
    ];
    kept = λ e₀ e k strong.
        let old = first.kept e₀ (omega (arith, e, others.counts, first.counts)) k strong in
        others.kept e₀ (omega (arith, e, others.counts, first.counts)) k (ap is_strong old ∙ strong)
        ∙ old;
    filled = λ e₀ e x j k there reduces other below has_k. elim there [
      | inr later ↦
          others.filled e₀ (omega (arith, e, others.counts, first.counts)) x j k later reduces other
            below has_k
      | inl this ↦
          let (column, whole) = Reduces-column item ok j (subst (λ y. Reduces y j) this reduces) in
          let entry : entry_of ok.column item.derivation ≡ bit_or tok_reduce_mask x.derivation =
            rw (sym column, other) (ap (λ y. bit_or tok_reduce_mask y.derivation) (sym this)) in
          let new : cell row₁ k ≡ bit_or tok_reduce_mask x.derivation =
            first.filled e₀ (omega (arith, e, others.counts, first.counts)) k (
              passing-listed (has_index item.look_ahead) parser.action_token_n 0 k
                (ap (λ y. has_index y.look_ahead k) (sym this) ∙ has_k) (omega arith)
                (omega (arith, below)))
            ∙ entry in
          others.kept e₀ (omega (arith, e, others.counts, first.counts)) k
            (ap is_strong new ∙ is_strong-reduce x.derivation)
          ∙ new
    ];
  }

  module _ (has_table : HasPrecedence precedence parser.action_token_n) where
    pub fill_items-FillsItems :
        (items : List Item) (row : Row)
        → AllReady items
        → parser.action_token_n ≤ length row.cells
        → (row' : Row) × (fill_items parser precedence items row ≡ done row')
          × FillsItems items row row'
    unfolding fill_items is_final reduce_entry
    fill_items-FillsItems [] row ok fits = (
      row,
      refl,
      record {
        as_long = refl;
        counts = omega arith;
        cells = λ k. inl refl;
        kept = λ e₀ e k strong. refl;
        filled = λ e₀ e x j k there. absurd there;
      },
    )
    fill_items-FillsItems (item ∷ items) row ok fits =
        let oi = ok.0 in
        elim (Bool-cases (item.i == oi.rule.tok_n)) [
          | inr pending ↦
              let (row', ran, fills) = fill_items-FillsItems items row ok.1 fits in
              (
                row',
                rw (oi.found, pending) ran,
                FillsItems-skip item items row row' oi pending fills,
              )
          | inl final ↦
              let n = parser.action_token_n in
              let (row₁, filled, first) =
                fill_reduces-Fills precedence item.derivation (entry_of oi.column item.derivation) n
                  (passing (has_index item.look_ahead) n 0) row has_table fits
                  (λ k there.
                    omega (arith, (listed-passing (has_index item.look_ahead) n 0 k there).1)) in
              let (row₂, ran, others) =
                fill_items-FillsItems items row₁ ok.1 (omega (arith, fits, first.as_long)) in
              (
                row₂,
                rw (oi.found, final, oi.indexed, indices_lem n item.look_ahead oi.sized, filled)
                    ran,
                FillsItems-Fills item items row row₁ row₂ oi final first others,
              )
        ]
