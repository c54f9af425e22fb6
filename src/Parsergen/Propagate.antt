-- ===== src/Parsergen/Propagate.antt =====
-- The second loop of `apply_closure`: it passes lookaheads on until nothing changes, and then no item
-- lacks a lookahead that another one gives it.
use neoast.Common.{
  ℕ, zero, suc, ◌+◌, ◌≤◌, ◌<◌, ◌≡◌, refl, ap, ap₂, sym, ◌∙◌, List, [], ◌∷◌, length, get_elem?, Bool,
  true, false, ◌==◌, Option, none, some, inl, inr, subst,
}
use neoast.Common.{Outcome, done, arith, Bool-cases, ==_iff, get_elem?_total, get_elem?-lt}
use neoast.Runtime.Types.{GrammarParser}
use neoast.Parsergen.BitVector.{BitVector, empty_of, contains}
use neoast.Parsergen.Items.{Item, Production, to_index, is_final, curr}
use neoast.Parsergen.Closure.{
  expands, next_lookaheads, pass_on, propagate_item, propagate_from, propagate,
}
use neoast.Parsergen.Ready.{is_ready, Symbol, action, production, next_lookaheads_lem, expands_lem}
use neoast.Parsergen.PassOn.{
  SameCores, SameCores-refl, SameCores-trans, length-SameCores, total_clears, Absorbs, AllItems,
  AllItems-get, Progress, pass_on_dirty, pass_on_lem,
}

module _ (parser : GrammarParser) (productions : List Production) where
  -- The symbol behind an item has been expanded.
  abbrev pub IsExpanded : BitVector → Item → Type 0
  IsExpanded expanded item =
      (x k : ℕ)
      → expands parser productions item ≡ done (some x)
      → to_index parser x ≡ done k
      → contains expanded k ≡ done true

  abbrev pub AllExpanded : BitVector → List Item → Type 0
  AllExpanded expanded [] = Unit
  AllExpanded expanded (x ∷ xs) = IsExpanded expanded x × AllExpanded expanded xs

  AllExpanded-get :
      (expanded : BitVector) (xs : List Item) (at : ℕ) (x : Item)
      → AllExpanded expanded xs
      → get_elem? xs at ≡ some x
      → IsExpanded expanded x
  AllExpanded-get expanded [] at x all got = absurd (ground (arith, got))
  AllExpanded-get expanded (y ∷ ys) zero x all got =
      subst (λ z. IsExpanded expanded z) (some_eq got) all.0
    where
      some_eq : {a b : Item} → some a ≡ some b → a ≡ b
      some_eq e = cc
  AllExpanded-get expanded (y ∷ ys) (suc at) x all got = AllExpanded-get expanded ys at x all.1 got

  -- What an item is expanded for does not depend on its lookaheads.
  abbrev expands_at : ℕ → ℕ → Outcome (Option ℕ)
  expands_at r i =
      expands parser productions (record { derivation = r; i = i; look_ahead = empty_of 0 })

  expands_core : (x : Item) → expands parser productions x ≡ expands_at x.derivation x.i
  unfolding expands is_final curr
  expands_core x = refl

  pub expands-SameCore :
      (x y : Item)
      → x.derivation ≡ y.derivation
      → x.i ≡ y.i
      → expands parser productions x ≡ expands parser productions y
  expands-SameCore x y p q = expands_core x ∙ ap₂ expands_at p q ∙ sym (expands_core y)

  AllExpanded-SameCores :
      (expanded : BitVector) (xs ys : List Item)
      → SameCores xs ys
      → AllExpanded expanded ys
      → AllExpanded expanded xs
  AllExpanded-SameCores expanded [] [] same all = tt
  AllExpanded-SameCores expanded [] (y ∷ ys) same all = tt
  AllExpanded-SameCores expanded (x ∷ xs) [] same all = absurd same
  AllExpanded-SameCores expanded (x ∷ xs) (y ∷ ys) same all = (
    λ token k e e'. all.0 token k (sym (expands-SameCore x y same.0 same.1) ∙ e) e',
    AllExpanded-SameCores expanded xs ys same.3 all.1,
  )

  -- No item lacks a lookahead that `item` gives it.
  abbrev pub Settled : Item → List Item → Type 0
  Settled item items =
      (x : ℕ) (new : BitVector)
      → expands parser productions item ≡ done (some x)
      → next_lookaheads parser productions item ≡ done new
      → Absorbs parser productions x new items

  -- A closed set of items.
  abbrev pub IsClosed : List Item → Type 0
  IsClosed items = (at : ℕ) (item : Item) → get_elem? items at ≡ some item → Settled item items

  module _ (ready : is_ready parser productions ≡ true) (expanded : BitVector) where
    computes_item :
        (item : Item) (at x k : ℕ) (new : BitVector) (dirty : Bool) (items : List Item)
        → get_elem? items at ≡ some item
        → expands parser productions item ≡ done (some x)
        → to_index parser x ≡ done k
        → contains expanded k ≡ done true
        → next_lookaheads parser productions item ≡ done new
        → propagate_item parser productions expanded at (dirty, items)
          ≡ pass_on parser productions x new dirty items
    unfolding propagate_item
    computes_item item at x k new dirty items got e e' before ran =
        rw (got, e, e', before, ran) refl

    skips_item :
        (item : Item) (at : ℕ) (dirty : Bool) (items : List Item)
        → get_elem? items at ≡ some item
        → expands parser productions item ≡ done none
        → propagate_item parser productions expanded at (dirty, items) ≡ done (dirty, items)
    unfolding propagate_item
    skips_item item at dirty items got e = rw (got, e) refl

    index_of : {x : ℕ} → Symbol parser productions x → (k : ℕ) × (to_index parser x ≡ done k)
    index_of (action k e below) = (k, e)
    index_of (production k p e above letter below found bits rules) = (k, e)

    propagate_item_lem :
        (at : ℕ) (items : List Item)
        → AllItems parser productions items
        → AllExpanded expanded items
        → at < length items
        → (d : Bool) × (items' : List Item) × (propagate_item parser productions expanded at
              (false, items)
            ≡ done (d, items'))
          × AllItems parser productions items'
          × SameCores items' items
          × Progress parser productions d items' items
              ((item : Item) → get_elem? items at ≡ some item → Settled item items)
    propagate_item_lem at items ok all inside =
        let (item, got) = get_elem?_total items at inside in
        let oi = AllItems-get parser productions items at item ok got in
        elim (expands_lem parser productions ready item oi) [
          | inl nothing ↦ (
            false,
            items,
            skips_item item at false items got nothing,
            ok,
            SameCores-refl items,
            inl (
              refl,
              refl,
              λ y got' x new e ran. absurd (
                  differ (
                    sym nothing ∙ ap (λ z. expands parser productions z) (same_item got got') ∙ e)),
            ),
          )
          | inr (x, e, symbol, above) ↦
              let (k, e') = index_of symbol in
              let (new, ran, okn) = next_lookaheads_lem parser productions ready item oi in
              let (d, items', passed, ok', same, progress) =
                pass_on_lem parser productions x new items ok okn in
              (
                d,
                items',
                computes_item item at x k new false items got e e'
                      (AllExpanded-get expanded items at item all got x k e e') ran
                    ∙ passed,
                ok',
                same,
                elim progress [
                  | inl (clean, kept, absorbs) ↦ inl (
                    clean,
                    kept,
                    λ y got' x' new' f ran'.
                        let same_y = same_item got got' in
                        let fx : x ≡ x' =
                          some_done (sym e ∙ ap (λ z. expands parser productions z) same_y ∙ f) in
                        let fn : new ≡ new' = done_eq (
                          sym ran ∙ ap (λ z. next_lookaheads parser productions z) same_y ∙ ran') in
                        subst (λ t. Absorbs parser productions t new' items) fx
                          (subst (λ b. Absorbs parser productions x b items) fn absorbs),
                  )
                  | inr moved ↦ inr moved
                ],
              )
        ]
      where
        same_item : {o : Option Item} {a b : Item} → o ≡ some a → o ≡ some b → a ≡ b
        same_item p q = cc

        differ : {x : ℕ} → ◌≡◌ {A = Outcome (Option ℕ)} (done none) (done (some x)) → ⊥
        differ e = cc

        some_done : {a b : ℕ} → ◌≡◌ {A = Outcome (Option ℕ)} (done (some a)) (done (some b)) → a ≡ b
        some_done e = cc

        done_eq : {a b : BitVector} → ◌≡◌ {A = Outcome BitVector} (done a) (done b) → a ≡ b
        done_eq e = cc

    propagate_item_dirty :
        (at : ℕ) (items : List Item)
        → AllItems parser productions items
        → AllExpanded expanded items
        → at < length items
        → propagate_item parser productions expanded at (true, items) ≡ done (true, items)
    propagate_item_dirty at items ok all inside =
        let (item, got) = get_elem?_total items at inside in
        let oi = AllItems-get parser productions items at item ok got in
        elim (expands_lem parser productions ready item oi) [
          | inl nothing ↦ skips_item item at true items got nothing
          | inr (x, e, symbol, above) ↦
              let (k, e') = index_of symbol in
              let (new, ran, okn) = next_lookaheads_lem parser productions ready item oi in
              computes_item item at x k new true items got e e'
                (AllExpanded-get expanded items at item all got x k e e') ran
              ∙ pass_on_dirty parser productions x new items ok
        ]

    propagate_from_dirty :
        (rounds at : ℕ) (items : List Item)
        → AllItems parser productions items
        → AllExpanded expanded items
        → at + rounds ≡ length items
        → propagate_from parser productions expanded rounds at (true, items) ≡ done (true, items)
    unfolding propagate_from
    propagate_from_dirty zero at items ok all e = refl
    propagate_from_dirty (suc rounds) at items ok all e =
        rw (propagate_item_dirty at items ok all (omega (arith, e)))
          (propagate_from_dirty rounds (at + 1) items ok all (omega (arith, e)))

    propagate_from_lem :
        (rounds at : ℕ) (items : List Item)
        → AllItems parser productions items
        → AllExpanded expanded items
        → at + rounds ≡ length items
        → (d : Bool) × (items' : List Item) × (propagate_from parser productions expanded rounds at
              (false, items)
            ≡ done (d, items'))
          × AllItems parser productions items'
          × SameCores items' items
          × Progress parser productions d items' items
              ((j : ℕ) (item : Item) → at ≤ j → get_elem? items j ≡ some item → Settled item items)
    unfolding propagate_from
    propagate_from_lem zero at items ok all e = (
      false,
      items,
      refl,
      ok,
      SameCores-refl items,
      inl (
        refl,
        refl,
        λ j item above got. absurd (omega (arith, above, e, get_elem?-lt items j got)),
      ),
    )
    propagate_from_lem (suc rounds) at items ok all e =
        let (d, items₁, ran, ok₁, same, progress) =
          propagate_item_lem at items ok all (omega (arith, e)) in
        let long = length-SameCores items₁ items same in
        let all₁ = AllExpanded-SameCores expanded items₁ items same all in
        elim progress [
          | inl (clean, kept, settled) ↦
              let (d', items₂, ran', ok₂, same', progress') =
                propagate_from_lem rounds (at + 1) items ok all (omega (arith, e)) in
              (
                d',
                items₂,
                step rounds at d items items₁ (done (d', items₂)) ran clean kept ran',
                ok₂,
                same',
                elim progress' [
                  | inl (clean', kept', others) ↦ inl (
                    clean',
                    kept',
                    λ j item above got. elim (Bool-cases (j == at)) [
                      | inl here ↦
                          settled item (ap (get_elem? items) (sym ((==_iff j at).0 here)) ∙ got)
                      | inr later ↦ others j item (ground (arith, later, above)) got
                    ],
                  )
                  | inr moved ↦ inr moved
                ],
              )
          | inr (dirty, less) ↦ (
            true,
            items₁,
            rw (ran, dirty)
                (propagate_from_dirty rounds (at + 1) items₁ ok₁ all₁ (omega (arith, e, long))),
            ok₁,
            same,
            inr (refl, less),
          )
        ]
      where
        step :
            (rounds at : ℕ) (d : Bool) (items items₁ : List Item) (o : Outcome (Bool × List Item))
            → propagate_item parser productions expanded at (false, items) ≡ done (d, items₁)
            → d ≡ false
            → items₁ ≡ items
            → propagate_from parser productions expanded rounds (at + 1) (false, items) ≡ o
            → propagate_from parser productions expanded (suc rounds) at (false, items) ≡ o
        step rounds at d items items₁ o ran clean kept rest = rw (ran, clean, kept) rest

    -- The propagation ends within one round more than lookaheads are missing, and leaves a closed set
    -- of the same cores.
    pub propagate-IsClosed :
        (fuel : ℕ) (items : List Item)
        → AllItems parser productions items
        → AllExpanded expanded items
        → total_clears items < fuel
        → (items' : List Item) × (propagate parser productions fuel expanded items ≡ done items')
          × AllItems parser productions items'
          × SameCores items' items
          × IsClosed items'
    unfolding propagate
    propagate-IsClosed zero items ok all enough = absurd (omega arith)
    propagate-IsClosed (suc fuel) items ok all enough =
        let (d, items₁, ran, ok₁, same, progress) =
          propagate_from_lem (length items) 0 items ok all (omega arith) in
        elim progress [
          | inl (clean, kept, settled) ↦ (
            items,
            rw (ran, clean, kept) refl,
            ok,
            SameCores-refl items,
            λ at item got. settled at item (omega arith) got,
          )
          | inr (dirty, less) ↦
              let (items₂, ran', ok₂, same', closed) =
                propagate-IsClosed fuel items₁ ok₁
                  (AllExpanded-SameCores expanded items₁ items same all)
                  (omega (arith, less, enough)) in
              (
                items₂,
                rw (ran, dirty) ran',
                ok₂,
                SameCores-trans items₂ items₁ items same' same,
                closed,
              )
        ]
