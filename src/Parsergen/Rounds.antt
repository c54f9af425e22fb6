-- ===== src/Parsergen/Rounds.antt =====
-- The rounds of the first loop of `apply_closure`: they end, and then each symbol that an item stands
-- before has been expanded.
use neoast.Common.{
  ℕ, zero, suc, ◌+◌, ◌≤◌, ◌<◌, ◌≡◌, refl, ap, sym, ◌∙◌, List, [], ◌∷◌, length, get_elem?, Bool,
  true, false, ltb, Option, none, some, inl, inr, all,
}
use neoast.Common.{Outcome, done, arith, Bool-cases, get_elem?_total}
use neoast.Runtime.Types.{GrammarParser}
use neoast.Runtime.Table.{ascii_max}
use neoast.Parsergen.BitVector.{BitVector, contains}
use neoast.Parsergen.BitVector.Laws.{IsBits, has_index, clears, contains_lem}
use neoast.Parsergen.BitVector.Select.{select_lem}
use neoast.Parsergen.Items.{Item, Production, find, to_index}
use neoast.Parsergen.Closure.{
  Expanding, expands, next_lookaheads, add_items, expand_item, expand_items, expand_rounds,
}
use neoast.Parsergen.Ready.{is_ready, action, production, next_lookaheads_lem, expands_lem}
use neoast.Parsergen.PassOn.{AllItems-get}
use neoast.Parsergen.Fill.{listed}
use neoast.Parsergen.Expand.{
  Extends, Extends-refl, Extends-trans, SameCores-Extends, add_items-Added, merge_all_lem,
}
use neoast.Parsergen.Covered.{
  IsExpanding, IsExpanding-Added, IsExpanding-done, IsExpanding-merged, StepsTo, StepsTo-trans,
}

module _ (parser : GrammarParser) (productions : List Production) where
  module _ (ready : is_ready parser productions ≡ true) where
    -- A step of a round.
    abbrev Steps : ℕ → List ℕ → Expanding → Type 0
    Steps at ats e =
        (e' : Expanding) × (expand_item parser productions at e ≡ done e')
        × IsExpanding parser productions ats e'
        × StepsTo parser productions e e'

    Steps-skip :
        (at : ℕ) (ats : List ℕ) (e : Expanding) (item : Item)
        → IsExpanding parser productions (at ∷ ats) e
        → get_elem? e.items at ≡ some item
        → expands parser productions item ≡ done none
        → Steps at ats e
    unfolding expand_item
    Steps-skip at ats e item inv got nothing = (
      e,
      rw (got, nothing) refl,
      IsExpanding-done parser productions at ats e item inv got
          (λ x k symbol index. absurd (differ (sym nothing ∙ symbol))),
      (Extends-refl e.items, inl refl, omega arith),
    )
      where
        differ : {x : ℕ} → ◌≡◌ {A = Outcome (Option ℕ)} (done none) (done (some x)) → ⊥
        differ e = cc

    Steps-merge_all :
        (at : ℕ) (ats : List ℕ) (e : Expanding) (item : Item) (x k : ℕ) (new : BitVector)
        → IsExpanding parser productions (at ∷ ats) e
        → get_elem? e.items at ≡ some item
        → expands parser productions item ≡ done (some x)
        → to_index parser x ≡ done k
        → contains e.expanded k ≡ done true
        → next_lookaheads parser productions item ≡ done new
        → IsBits parser.action_token_n new
        → Steps at ats e
    unfolding expand_item
    Steps-merge_all at ats e item x k new inv got symbol index before ran okn =
        let (items, merged, ok, same) =
          merge_all_lem parser productions x new e.items inv.valid okn in
        (
          record e { items = items },
          rw (got, symbol, index, before, ran, merged) refl,
          IsExpanding-merged parser productions ats e items
              (IsExpanding-done parser productions at ats e item inv got (λ x' k' symbol' index'.
                let ex : x ≡ x' = some_done (sym symbol ∙ symbol') in
                let ek : k ≡ k' = done_eq (sym index ∙ ap (λ z. to_index parser z) ex ∙ index') in
                ap (λ z. contains e.expanded z) (sym ek) ∙ before))
              ok same,
          (SameCores-Extends items e.items same, inl refl, omega arith),
        )
      where
        some_done : {a b : ℕ} → ◌≡◌ {A = Outcome (Option ℕ)} (done (some a)) (done (some b)) → a ≡ b
        some_done e = cc

        done_eq : {a b : ℕ} → ◌≡◌ {A = Outcome ℕ} (done a) (done b) → a ≡ b
        done_eq e = cc

    Steps-add_items :
        (at : ℕ) (ats : List ℕ) (e : Expanding) (item : Item) (x k : ℕ) (new : BitVector)
        (p : Production)
        → IsExpanding parser productions (at ∷ ats) e
        → get_elem? e.items at ≡ some item
        → expands parser productions item ≡ done (some x)
        → to_index parser x ≡ done k
        → ascii_max ≤ x
        → k < parser.token_n + 1
        → find x productions ≡ some p
        → all (λ r. ltb r (length parser.grammar_rules)) p.rules ≡ true
        → contains e.expanded k ≡ done false
        → next_lookaheads parser productions item ≡ done new
        → IsBits parser.action_token_n new
        → Steps at ats e
    unfolding expand_item
    Steps-add_items at ats e item x k new p inv got symbol index letter below found rules before ran
          okn =
        let n = parser.token_n + 1 in
        let (b, selected, okb, bits, fewer) = select_lem n k e.expanded inv.bits below in
        let added =
          add_items-Added parser productions new p.rules (record e { expanded = b }) okn rules
            inv.valid in
        let e' = add_items parser productions new p.rules (record e { expanded = b }) in
        let less : clears b < clears e.expanded =
          fewer (done_eq (sym (contains_lem n e.expanded k inv.bits below) ∙ before)) in
        (
          e',
          rw (got, symbol, index, before, ran, selected, found) refl,
          IsExpanding-Added parser productions at ats e e' b item x k p inv got symbol index letter
              below found okb bits added,
          (
            added.extends,
            inr (omega (arith, less, ap clears added.same)),
            omega (arith, less, ap clears added.same),
          ),
        )
      where
        done_eq : {a b : Bool} → ◌≡◌ {A = Outcome Bool} (done a) (done b) → a ≡ b
        done_eq e = cc

    expand_item-Steps :
        (at : ℕ) (ats : List ℕ) (e : Expanding)
        → IsExpanding parser productions (at ∷ ats) e
        → Steps at ats e
    expand_item-Steps at ats e inv =
        let (item, got) = get_elem?_total e.items at (inv.inside at (ground arith)) in
        let oi = AllItems-get parser productions e.items at item inv.valid got in
        elim (expands_lem parser productions ready item oi) [
          | inl nothing ↦ Steps-skip at ats e item inv got nothing
          | inr (x, symbol, what, high) ↦
              let (new, ran, okn) = next_lookaheads_lem parser productions ready item oi in
              elim what [
                | action k index small ↦ absurd (omega (arith, small, high k index))
                | production k p index above letter below found bits rules ↦
                    elim (Bool-cases (has_index e.expanded k)) [
                      | inl before ↦
                          Steps-merge_all at ats e item x k new inv got symbol index
                            (contains_lem (parser.token_n + 1) e.expanded k inv.bits below
                              ∙ ap done before)
                            ran okn
                      | inr not_before ↦
                          Steps-add_items at ats e item x k new p inv got symbol index letter below
                            found rules
                            (contains_lem (parser.token_n + 1) e.expanded k inv.bits below
                              ∙ ap done not_before)
                            ran okn
                    ]
              ]
        ]

    -- A whole round.
    expand_items-IsExpanding :
        (ats : List ℕ) (e : Expanding)
        → IsExpanding parser productions ats e
        → (e' : Expanding) × (expand_items parser productions ats e ≡ done e')
          × IsExpanding parser productions [] e'
          × StepsTo parser productions e e'
    unfolding expand_items
    expand_items-IsExpanding [] e inv =
        (e, refl, inv, (Extends-refl e.items, inl refl, omega arith))
    expand_items-IsExpanding (at ∷ ats) e inv =
        let (e₁, ran, inv₁, step) = expand_item-Steps at ats e inv in
        let (e₂, ran', inv₂, steps) = expand_items-IsExpanding ats e₁ inv₁ in
        (e₂, rw ran ran', inv₂, StepsTo-trans parser productions e e₁ e₂ step steps)

    abbrev resumed : Expanding → Expanding
    resumed e = record e { next_dirty = [] }

    resumed-IsExpanding :
        (e : Expanding)
        → IsExpanding parser productions [] e
        → IsExpanding parser productions e.next_dirty (resumed e)
    resumed-IsExpanding e inv = record {
      valid = inv.valid;
      bits = inv.bits;
      inside = λ j h. inv.inside j (ground (arith, h));
      covered = λ j y got. elim (inv.covered j y got) [
        | inl over ↦ inl over
        | inr pending ↦ inr (ground (arith, pending))
      ];
      rules = inv.rules;
    }

    -- The rounds end, within one more than there are symbols left to expand.
    pub expand_rounds-IsExpanding :
        (fuel : ℕ) (ats : List ℕ) (e : Expanding)
        → IsExpanding parser productions ats (resumed e)
        → clears e.expanded < fuel
        → (e' : Expanding) × (expand_rounds parser productions fuel ats e ≡ done e')
          × IsExpanding parser productions [] (resumed e')
          × Extends e'.items e.items
    unfolding expand_rounds
    expand_rounds-IsExpanding fuel [] e inv enough = (e, refl, inv, Extends-refl e.items)
    expand_rounds-IsExpanding zero (at ∷ ats) e inv enough = absurd (omega arith)
    expand_rounds-IsExpanding (suc fuel) (at ∷ ats) e inv enough =
        let (e₁, ran, inv₁, (longer, moved, less)) =
          expand_items-IsExpanding (at ∷ ats) (resumed e) inv in
        elim moved [
          | inl still ↦ (
            e₁,
            rw ran (ends fuel e₁ e₁.next_dirty still),
            record {
              valid = inv₁.valid;
              bits = inv₁.bits;
              inside = λ j h. absurd (ground (arith, h));
              covered = λ j y got. elim (inv₁.covered j y got) [
                | inl over ↦ inl over
                | inr pending ↦ absurd (ground (arith, pending, ap (λ xs. listed j xs) still))
              ];
              rules = inv₁.rules;
            },
            longer,
          )
          | inr fewer ↦
              let (e₂, ran', inv₂, longer') =
                expand_rounds-IsExpanding fuel e₁.next_dirty e₁ (resumed-IsExpanding e₁ inv₁)
                  (omega (arith, fewer, enough)) in
              (e₂, rw ran ran', inv₂, Extends-trans e₂.items e₁.items e.items longer' longer)
        ]
      where
        ends :
            (fuel : ℕ) (e : Expanding) (ats : List ℕ)
            → ats ≡ []
            → expand_rounds parser productions fuel ats e ≡ done e
        ends fuel e [] h = refl
        ends fuel e (at ∷ ats) h = cc
