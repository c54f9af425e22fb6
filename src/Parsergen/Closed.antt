-- ===== src/Parsergen/Closed.antt =====
-- `apply_closure` as a whole.
use neoast.Common.{
  ℕ, zero, suc, ◌+◌, ◌≤◌, ◌<◌, ◌≡◌, refl, ap, sym, ◌∙◌, List, [], ◌∷◌, length, get_elem?, Bool,
  true, false, ◌==◌, ◌||◌, Option, none, some, inl, inr,
}
use neoast.Common.{Outcome, done, >>=-eq-done, arith, Bool-cases, get_elem?-lt}
use neoast.Runtime.Types.{GrammarParser}
use neoast.Parsergen.BitVector.{BitVector, empty_of}
use neoast.Parsergen.BitVector.Laws.{clears}
use neoast.Parsergen.BitVector.Select.{contains-true, has_index-empty_of, empty_of-IsBits}
use neoast.Parsergen.Items.{Item, Production, find, to_index}
use neoast.Parsergen.Closure.{
  Expanding, expands, expand_items, expand_rounds, propagate_from, propagate, from, apply_closure,
}
use neoast.Parsergen.Ready.{is_ready, action, production, expands_lem}
use neoast.Parsergen.PassOn.{total_clears, SameCores, AllItems, AllItems-get}
use neoast.Parsergen.Propagate.{
  IsExpanded, AllExpanded, expands-SameCore, IsClosed, propagate-IsClosed,
}
use neoast.Parsergen.Fill.{listed}
use neoast.Parsergen.Expand.{Extends, Extends-trans, SameCores-Extends, HasStart, HasStart-Extends}
use neoast.Parsergen.Covered.{SameCores-get, IsExpanding}
use neoast.Parsergen.Rounds.{expand_rounds-IsExpanding}

listed-from : (n i k : ℕ) → listed k (from i n) ≡ true → k < i + n
listed-from zero i k h = absurd (ground (arith, h))
listed-from (suc n) i k h = elim (Bool-cases (k == i)) [
  | inl this ↦ ground (arith, this)
  | inr other ↦ omega (arith, listed-from n (suc i) k (ground (arith, h, other)))
]

from-listed : (n i k : ℕ) → i ≤ k → k < i + n → listed k (from i n) ≡ true
from-listed zero i k above below = absurd (omega arith)
from-listed (suc n) i k above below = elim (Bool-cases (k == i)) [
  | inl this ↦ ground (arith, this)
  | inr other ↦
      ground (
        arith,
        other,
        from-listed n (suc i) k (ground (arith, above, other)) (omega (arith, below)),
      )
]

module _ (parser : GrammarParser) (productions : List Production) where
  -- More fuel gives the same result.
  expand_rounds_more :
      (n m : ℕ) (ats : List ℕ) (e e' : Expanding)
      → expand_rounds parser productions n ats e ≡ done e'
      → n ≤ m
      → expand_rounds parser productions m ats e ≡ done e'
  unfolding expand_rounds
  expand_rounds_more n m [] e e' h le = h
  expand_rounds_more zero m (at ∷ ats) e e' h le = cc
  expand_rounds_more (suc n) zero (at ∷ ats) e e' h le = absurd (omega arith)
  expand_rounds_more (suc n) (suc m) (at ∷ ats) e e' h le =
      let (e₁, ran, rest) =
        >>=-eq-done (expand_items parser productions (at ∷ ats) (record e { next_dirty = [] }))
          (λ e'. expand_rounds parser productions n e'.next_dirty e') h in
      rw ran (expand_rounds_more n m e₁.next_dirty e₁ e' rest (omega (arith, le)))

  propagate_more :
      (n m : ℕ) (b : BitVector) (items items' : List Item)
      → propagate parser productions n b items ≡ done items'
      → n ≤ m
      → propagate parser productions m b items ≡ done items'
  unfolding propagate
  propagate_more zero m b items items' h le = cc
  propagate_more (suc n) zero b items items' h le = absurd (omega arith)
  propagate_more (suc n) (suc m) b items items' h le =
      let ((d, items₁), ran, rest) =
        >>=-eq-done (propagate_from parser productions b (length items) 0 (false, items))
          (λ s. elim (s.0) [ true ↦ propagate parser productions n b (s.1) | false ↦ done (s.1) ])
          h in
      rw ran (
        again d (propagate parser productions n b items₁) (propagate parser productions m b items₁)
          items₁ rest (λ h'. propagate_more n m b items₁ items' h' (omega (arith, le))))
    where
      again :
          (d : Bool) (old new : Outcome (List Item)) (items₁ : List Item)
          → (elim d [ true ↦ old | false ↦ done items₁ ]) ≡ done items'
          → (old ≡ done items' → new ≡ done items')
          → (elim d [ true ↦ new | false ↦ done items₁ ]) ≡ done items'
      again true old new items₁ h more = more h
      again false old new items₁ h more = h

  -- `items'` is a closed set with the items of `items`: each symbol that an item stands before has its
  -- rules as items, and none of them lacks a lookahead that the item gives it.
  pub record IsClosure (items' items : List Item) : Type 0 where
    pub valid : AllItems parser productions items'
    pub extends : Extends items' items
    pub rules :
        (at x r : ℕ) (item : Item) (p : Production)
        → get_elem? items' at ≡ some item
        → expands parser productions item ≡ done (some x)
        → find x productions ≡ some p
        → listed r p.rules ≡ true
        → HasStart r items'
    pub settled : IsClosed parser productions items'

  abbrev begun : List Item → Expanding
  begun items = record { items = items; expanded = empty_of (parser.token_n + 1); next_dirty = [] }

  begun-IsExpanding :
      (items : List Item)
      → AllItems parser productions items
      → IsExpanding parser productions (from 0 (length items)) (begun items)
  begun-IsExpanding items ok = record {
    valid = ok;
    bits = empty_of-IsBits (parser.token_n + 1);
    inside = λ j h. omega (arith, listed-from (length items) 0 j (ground (arith, h)));
    covered = λ j y got. inr (
        or_left (listed j (from 0 (length items))) false
          (from-listed (length items) 0 j (omega arith) (omega (arith, get_elem?-lt items j got))));
    rules = λ x k r p index letter there found has_r.
        let (below, has_k) =
          contains-true (parser.token_n + 1) (empty_of (parser.token_n + 1)) k
            (empty_of-IsBits (parser.token_n + 1)) there in
        absurd (clash (sym (has_index-empty_of (parser.token_n + 1) k) ∙ has_k));
  }
    where
      clash : false ≡ true → ⊥
      clash e = cc

      or_left : (a b : Bool) → a ≡ true → (a || b) ≡ true
      or_left a b h = ground arith

  AllExpanded-all :
      (expanded : BitVector) (xs : List Item)
      → ((at : ℕ) (x : Item) → get_elem? xs at ≡ some x → IsExpanded parser productions expanded x)
      → AllExpanded parser productions expanded xs
  AllExpanded-all expanded [] all = tt
  AllExpanded-all expanded (x ∷ xs) all =
      (all 0 x refl, AllExpanded-all expanded xs (λ at y got. all (suc at) y got))

  -- On a grammar that passes the check, `apply_closure` of items of its rules ends without a fault,
  -- given enough fuel, in a closed set that has the items it began with.
  pub apply_closure-IsClosure :
      (items : List Item)
      → is_ready parser productions ≡ true
      → AllItems parser productions items
      → (enough : ℕ) × (items' : List Item) × ((fuel : ℕ)
          → enough ≤ fuel
          → apply_closure parser productions fuel items ≡ done items')
        × IsClosure items' items
  unfolding apply_closure
  apply_closure-IsClosure items ready ok =
      let n₁ = suc (clears (empty_of (parser.token_n + 1))) in
      let ats = from 0 (length items) in
      let (e, ran, inv, longer) =
        expand_rounds-IsExpanding parser productions ready n₁ ats (begun items)
          (begun-IsExpanding items ok) (omega arith) in
      let over = done_lem e inv in
      let n₂ = suc (total_clears e.items) in
      let (items', ran', ok', same, closed) =
        propagate-IsClosed parser productions ready e.expanded n₂ e.items inv.valid
          (AllExpanded-all e.expanded e.items over) (omega arith) in
      (
        n₁ + n₂,
        items',
        λ fuel enough.
            rw
              (
                expand_rounds_more n₁ fuel ats (begun items) e ran (omega (arith, enough)),
                propagate_more n₂ fuel e.expanded e.items items' ran' (omega (arith, enough)),
              )
              refl,
        record {
          valid = ok';
          extends =
              Extends-trans items' e.items items (SameCores-Extends items' e.items same) longer;
          rules = rules_lem ready items' e inv over ok' same;
          settled = closed;
        },
      )
    where
      differ : {x : ℕ} → ◌≡◌ {A = Outcome (Option ℕ)} (done none) (done (some x)) → ⊥
      differ e = cc

      some_done : {a b : ℕ} → ◌≡◌ {A = Outcome (Option ℕ)} (done (some a)) (done (some b)) → a ≡ b
      some_done e = cc

      done_lem :
          (e : Expanding)
          → IsExpanding parser productions [] (record e { next_dirty = [] })
          → (at : ℕ) (x : Item) → get_elem? e.items at ≡ some x
          → IsExpanded parser productions e.expanded x
      done_lem e inv at x got = elim (inv.covered at x got) [
        | inl over ↦ over
        | inr pending ↦ absurd (ground (arith, pending))
      ]

      rules_lem :
          (ready : is_ready parser productions ≡ true) (items' : List Item) (e : Expanding)
          → IsExpanding parser productions [] (record e { next_dirty = [] })
          → ((at : ℕ) (x : Item)
              → get_elem? e.items at ≡ some x
              → IsExpanded parser productions e.expanded x)
          → AllItems parser productions items'
          → SameCores items' e.items
          → (at x r : ℕ) (item : Item) (p : Production) → get_elem? items' at ≡ some item
          → expands parser productions item ≡ done (some x)
          → find x productions ≡ some p
          → listed r p.rules ≡ true
          → HasStart r items'
      rules_lem ready items' e inv over ok' same at x r item p got symbol found has_r =
          let (y, there, rule, dot) = SameCores-get items' e.items at item same got in
          let oi = AllItems-get parser productions items' at item ok' got in
          elim (expands_lem parser productions ready item oi) [
            | inl nothing ↦ absurd (differ (sym nothing ∙ symbol))
            | inr (x', symbol', what, high) ↦
                let ex : x' ≡ x = some_done (sym symbol' ∙ symbol) in
                elim what [
                  | action k index small ↦ absurd (omega (arith, small, high k index))
                  | production k p' index above letter below found' bits all_rules ↦
                      let index_x : to_index parser x ≡ done k =
                        ap (λ z. to_index parser z) (sym ex) ∙ index in
                      HasStart-Extends r items' e.items (SameCores-Extends items' e.items same) (
                        inv.rules x k r p index_x (omega (arith, letter, ex))
                          (over at y there x k
                            (sym (expands-SameCore parser productions item y rule dot) ∙ symbol)
                            index_x)
                          found has_r)
                ]
          ]
