-- ===== src/Parsergen/PassOn.antt =====
-- One item of the second loop of `apply_closure` passes its lookaheads on.
use neoast.Common.{
  ℕ, zero, suc, ◌+◌, ◌<◌, ◌≡◌, refl, ap, ap₂, sym, ◌∙◌, List, [], ◌∷◌, length, get_elem?, Bool,
  true, false, ◌==◌, ◌||◌, some, ◌⊎◌, inl, inr, subst,
}
use neoast.Common.{done, arith, Bool-cases, ==_iff}
use neoast.Runtime.Types.{GrammarRule, GrammarParser}
use neoast.Parsergen.BitVector.{BitVector}
use neoast.Parsergen.BitVector.Laws.{IsBits, has_index, clears, merge_lem}
use neoast.Parsergen.Items.{Item, Production}
use neoast.Parsergen.Closure.{pass_on}
use neoast.Parsergen.Ready.{IsItem}

unfoldable pub total_clears : List Item → ℕ
total_clears [] = 0
total_clears (x ∷ xs) = clears x.look_ahead + total_clears xs

-- The same items, with more lookaheads perhaps.
abbrev pub SameCores : List Item → List Item → Type 0
SameCores [] [] = Unit
SameCores (x ∷ xs) (y ∷ ys) =
    (x.derivation ≡ y.derivation)
    × (x.i ≡ y.i)
    × ((k : ℕ) → has_index y.look_ahead k ≡ true → has_index x.look_ahead k ≡ true)
    × SameCores xs ys
SameCores _ _ = ⊥

pub SameCores-refl : (xs : List Item) → SameCores xs xs
SameCores-refl [] = tt
SameCores-refl (x ∷ xs) = (refl, refl, λ k h. h, SameCores-refl xs)

pub SameCores-trans : (xs ys zs : List Item) → SameCores xs ys → SameCores ys zs → SameCores xs zs
SameCores-trans [] [] [] p q = tt
SameCores-trans [] [] (z ∷ zs) p q = q
SameCores-trans [] (y ∷ ys) zs p q = absurd p
SameCores-trans (x ∷ xs) [] zs p q = absurd p
SameCores-trans (x ∷ xs) (y ∷ ys) [] p q = absurd q
SameCores-trans (x ∷ xs) (y ∷ ys) (z ∷ zs) p q =
    (p.0 ∙ q.0, p.1 ∙ q.1, λ k h. p.2 k (q.2 k h), SameCores-trans xs ys zs p.3 q.3)

pub length-SameCores : (xs ys : List Item) → SameCores xs ys → length xs ≡ length ys
length-SameCores [] [] s = refl
length-SameCores [] (y ∷ ys) s = absurd s
length-SameCores (x ∷ xs) [] s = absurd s
length-SameCores (x ∷ xs) (y ∷ ys) s = ap suc (length-SameCores xs ys s.3)

pub or_absorbed : (a b : Bool) → a ≡ (a || b) → b ≡ true → a ≡ true
or_absorbed a b e h = ground arith

pub or_left : (a b : Bool) → a ≡ true → (a || b) ≡ true
or_left a b h = ground arith

module _ (parser : GrammarParser) (productions : List Production) where
  abbrev pub AllItems : List Item → Type 0
  AllItems [] = Unit
  AllItems (x ∷ xs) = IsItem parser productions x × AllItems xs

  pub AllItems-get :
      (xs : List Item) (at : ℕ) (x : Item)
      → AllItems xs
      → get_elem? xs at ≡ some x
      → IsItem parser productions x
  AllItems-get [] at x ok got = absurd (ground (arith, got))
  AllItems-get (y ∷ ys) zero x ok got = subst (λ z. IsItem parser productions z) (some_eq got) ok.0
    where
      some_eq : {a b : Item} → some a ≡ some b → a ≡ b
      some_eq e = cc
  AllItems-get (y ∷ ys) (suc at) x ok got = AllItems-get ys at x ok.1 got

  -- Each item of a rule of `token` has all of `new`.
  abbrev pub Absorbs : ℕ → BitVector → List Item → Type 0
  Absorbs token new items =
      (at k : ℕ) (item : Item) (rule : GrammarRule)
      → get_elem? items at ≡ some item
      → get_elem? parser.grammar_rules item.derivation ≡ some rule
      → rule.token ≡ token
      → has_index new k ≡ true
      → has_index item.look_ahead k ≡ true

  -- Nothing has changed and `P` holds, or something has.
  abbrev pub Progress : Bool → List Item → List Item → Type 0 → Type 0
  Progress d items' items P =
      ((d ≡ false) × (items' ≡ items) × P)
      ⊎ ((d ≡ true) × (total_clears items' < total_clears items))

  pub Absorbs-cons :
      (token : ℕ) (new : BitVector) (x : Item) (xs : List Item)
      → ((rule : GrammarRule)
          → get_elem? parser.grammar_rules x.derivation ≡ some rule
          → rule.token ≡ token
          → (k : ℕ) → has_index new k ≡ true
          → has_index x.look_ahead k ≡ true)
      → Absorbs token new xs
      → Absorbs token new (x ∷ xs)
  Absorbs-cons token new x xs head tail zero k item rule got there same has =
      let e : x ≡ item = some_eq got in
      subst (λ y. has_index y.look_ahead k ≡ true) e
        (head rule (ap (λ y. get_elem? parser.grammar_rules y.derivation) e ∙ there) same k has)
    where
      some_eq : {a b : Item} → some a ≡ some b → a ≡ b
      some_eq e = cc
  Absorbs-cons token new x xs head tail (suc at) k item rule got there same has =
      tail at k item rule got there same has

  -- Once something has changed, the rest of a pass changes nothing.
  pub pass_on_dirty :
      (token : ℕ) (new : BitVector) (items : List Item)
      → AllItems items
      → pass_on parser productions token new true items ≡ done (true, items)
  unfolding pass_on
  pass_on_dirty token new [] ok = refl
  pass_on_dirty token new (x ∷ xs) ok = rw ((ok.0).found, pass_on_dirty token new xs ok.1) refl

  pub rule_same :
      (x : Item) (rule rule' : GrammarRule)
      → get_elem? parser.grammar_rules x.derivation ≡ some rule
      → get_elem? parser.grammar_rules x.derivation ≡ some rule'
      → rule ≡ rule'
  rule_same x rule rule' p q = some_eq (sym p ∙ q)
    where
      some_eq : {a b : GrammarRule} → some a ≡ some b → a ≡ b
      some_eq e = cc

  pub pass_on_lem :
      (token : ℕ) (new : BitVector) (items : List Item)
      → AllItems items
      → IsBits parser.action_token_n new
      → (d : Bool) × (items' : List Item) × (pass_on parser productions token new false items
          ≡ done (d, items'))
        × AllItems items'
        × SameCores items' items
        × Progress d items' items (Absorbs token new items)
  unfolding pass_on total_clears
  pass_on_lem token new [] ok okn = (
    false,
    [],
    refl,
    tt,
    tt,
    inl (refl, refl, λ at k item rule got. absurd (ground (arith, got))),
  )
  pass_on_lem token new (x ∷ xs) ok okn =
      let ox = ok.0 in
      elim (Bool-cases (ox.rule.token == token)) [
        | inr other ↦
            let (d, xs', ran, ok', same, progress) = pass_on_lem token new xs ok.1 okn in
            (
              d,
              x ∷ xs',
              rw (ox.found, other, ran) refl,
              (ox, ok'),
              (refl, refl, λ k h. h, same),
              elim progress [
                | inl (clean, kept, absorbs) ↦ inl (
                  clean,
                  ap (λ ys. x ∷ ys) kept,
                  Absorbs-cons token new x xs
                      (λ rule there eq k has. absurd (
                        clash (
                          sym other
                          ∙ (==_iff ox.rule.token token).1
                              (ap (λ r. r.token) (rule_same x ox.rule rule ox.found there) ∙ eq))))
                      absorbs,
                )
                | inr (dirty, less) ↦ inr (dirty, omega (arith, less))
              ],
            )
        | inl this ↦
            let (c, b, merged, okb, union, grown) =
              merge_lem parser.action_token_n x.look_ahead new ox.sized okn in
            let x' = record x { look_ahead = b } in
            let ox' : IsItem parser productions x' = record {
              rule = ox.rule;
              found = ox.found;
              inside = ox.inside;
              sized = okb;
            } in
            elim grown [
              | inl (clean, kept) ↦
                  let (d, xs', ran, ok', same, progress) = pass_on_lem token new xs ok.1 okn in
                  (
                    d,
                    x' ∷ xs',
                    rw (ox.found, this, merged, clean, ran) refl,
                    (ox', ok'),
                    (
                      refl,
                      refl,
                      λ k h. union k ∙ or_left (has_index x.look_ahead k) (has_index new k) h,
                      same,
                    ),
                    elim progress [
                      | inl (clean', kept', absorbs) ↦ inl (
                        clean',
                        ap₂ (λ l ys. record x { look_ahead = l } ∷ ys) kept kept',
                        Absorbs-cons token new x xs
                            (λ rule there eq k has.
                              or_absorbed (has_index x.look_ahead k) (has_index new k)
                                (ap (λ l. has_index l k) (sym kept) ∙ union k) has)
                            absorbs,
                      )
                      | inr (dirty, less) ↦ inr (dirty, omega (arith, less, ap clears kept))
                    ],
                  )
              | inr (changed, less) ↦ (
                true,
                x' ∷ xs,
                rw (ox.found, this, merged, changed, pass_on_dirty token new xs ok.1) refl,
                (ox', ok.1),
                (
                  refl,
                  refl,
                  λ k h. union k ∙ or_left (has_index x.look_ahead k) (has_index new k) h,
                  SameCores-refl xs,
                ),
                inr (refl, omega (arith, less)),
              )
            ]
      ]
    where
      clash : false ≡ true → ⊥
      clash e = cc
