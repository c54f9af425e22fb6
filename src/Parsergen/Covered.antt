-- ===== src/Parsergen/Covered.antt =====
-- What holds between the rounds of the first loop of `apply_closure`, and that each of its steps
-- keeps it.
use neoast.Common.{
  ℕ, zero, suc, ◌+◌, ◌≤◌, ◌<◌, ◌≡◌, refl, ap, sym, ◌∙◌, List, [], ◌∷◌, length, get_elem?, Bool,
  true, false, ◌==◌, ltb, ◌||◌, Option, some, ◌⊎◌, inl, inr, subst,
}
use neoast.Common.{Outcome, done, arith, Bool-cases, ==_iff}
use neoast.Runtime.Types.{GrammarParser}
use neoast.Runtime.Table.{ascii_max}
use neoast.Parsergen.BitVector.{BitVector, contains}
use neoast.Parsergen.BitVector.Laws.{IsBits, has_index, clears, contains_lem}
use neoast.Parsergen.BitVector.Select.{contains-true}
use neoast.Parsergen.Items.{Item, Production, find, to_index}
use neoast.Parsergen.Closure.{Expanding, expands}
use neoast.Parsergen.PassOn.{SameCores, length-SameCores, AllItems}
use neoast.Parsergen.Propagate.{IsExpanded, expands-SameCore}
use neoast.Parsergen.Fill.{listed}
use neoast.Parsergen.Expand.{
  Extends, Extends-trans, SameCores-Extends, length-Extends, HasStart, HasStart-Extends, Added,
}

pub SameCores-get :
    (xs ys : List Item) (at : ℕ) (x : Item)
    → SameCores xs ys
    → get_elem? xs at ≡ some x
    → (y : Item) × (get_elem? ys at ≡ some y) × (x.derivation ≡ y.derivation) × (x.i ≡ y.i)
SameCores-get [] ys at x same got = absurd (ground (arith, got))
SameCores-get (z ∷ zs) [] at x same got = absurd same
SameCores-get (z ∷ zs) (y ∷ ys) zero x same got =
    let e : z ≡ x = some_eq got in
    (y, refl, ap (λ w. w.derivation) (sym e) ∙ same.0, ap (λ w. w.i) (sym e) ∙ same.1)
  where
    some_eq : {a b : Item} → some a ≡ some b → a ≡ b
    some_eq e = cc
SameCores-get (z ∷ zs) (y ∷ ys) (suc at) x same got = SameCores-get zs ys at x same.3 got

contains_mono :
    (n k : ℕ) (b b' : BitVector)
    → IsBits n b
    → IsBits n b'
    → ((j : ℕ) → has_index b j ≡ true → has_index b' j ≡ true)
    → contains b k ≡ done true
    → contains b' k ≡ done true
contains_mono n k b b' ok ok' more h =
    let (below, has_k) = contains-true n b k ok h in
    contains_lem n b' k ok' below ∙ ap done (more k has_k)

to_index-token :
    (parser : GrammarParser) (x k : ℕ)
    → to_index parser x ≡ done k
    → ascii_max ≤ x
    → x ≡ ascii_max + k
unfolding to_index
to_index-token parser x k e above =
    let test : ltb x ascii_max ≡ false = ground (arith, above) in ground (arith, e, test, above)

module _ (parser : GrammarParser) (productions : List Production) where
  -- Each expanded symbol has its rules among the items.
  abbrev pub HasRules : BitVector → List Item → Type 0
  HasRules expanded items =
      (x k r : ℕ) (p : Production)
      → to_index parser x ≡ done k
      → ascii_max ≤ x
      → contains expanded k ≡ done true
      → find x productions ≡ some p
      → listed r p.rules ≡ true
      → HasStart r items

  -- The state of the first loop, with the indices `ats` left of the round.
  pub record IsExpanding (ats : List ℕ) (e : Expanding) : Type 0 where
    pub valid : AllItems parser productions e.items
    pub bits : IsBits (parser.token_n + 1) e.expanded
    pub inside : (at : ℕ) → (listed at ats || listed at e.next_dirty) ≡ true → at < length e.items
    pub covered :
        (at : ℕ) (item : Item)
        → get_elem? e.items at ≡ some item
        → IsExpanded parser productions e.expanded item
          ⊎ ((listed at ats || listed at e.next_dirty) ≡ true)
    pub rules : HasRules e.expanded e.items

  -- A step keeps the items and the expanded symbols, and is still or expands a symbol.
  abbrev pub StepsTo : Expanding → Expanding → Type 0
  StepsTo e e' =
      Extends e'.items e.items
      × ((e'.next_dirty ≡ e.next_dirty) ⊎ (clears e'.expanded < clears e.expanded))
      × (clears e'.expanded ≤ clears e.expanded)

  pub StepsTo-trans : (a b c : Expanding) → StepsTo a b → StepsTo b c → StepsTo a c
  StepsTo-trans a b c (e, moved, less) (e', moved', less') = (
    Extends-trans c.items b.items a.items e' e,
    elim moved [
      | inr grew ↦ inr (omega (arith, grew, less'))
      | inl still ↦ elim moved' [
        | inr grew ↦ inr (omega (arith, grew, less))
        | inl still' ↦ inl (still' ∙ still)
      ]
    ],
    omega (arith, less, less'),
  )

  pub IsExpanding-done :
      (at : ℕ) (ats : List ℕ) (e : Expanding) (item : Item)
      → IsExpanding (at ∷ ats) e
      → get_elem? e.items at ≡ some item
      → IsExpanded parser productions e.expanded item
      → IsExpanding ats e
  IsExpanding-done at ats e item inv got expanded = record {
    valid = inv.valid;
    bits = inv.bits;
    inside = λ j h. inv.inside j (ground (arith, h));
    covered = λ j y got'. elim (inv.covered j y got') [
      | inl over ↦ inl over
      | inr pending ↦ elim (Bool-cases (j == at)) [
        | inl this ↦
            let same : item ≡ y =
              some_eq (sym got ∙ ap (get_elem? e.items) (sym ((==_iff j at).0 this)) ∙ got') in
            inl (subst (λ z. IsExpanded parser productions e.expanded z) same expanded)
        | inr other ↦ inr (ground (arith, pending, other))
      ]
    ];
    rules = inv.rules;
  }
    where
      some_eq : {a b : Item} → some a ≡ some b → a ≡ b
      some_eq e = cc

  pub IsExpanding-merged :
      (ats : List ℕ) (e : Expanding) (items : List Item)
      → IsExpanding ats e
      → AllItems parser productions items
      → SameCores items e.items
      → IsExpanding ats (record e { items = items })
  IsExpanding-merged ats e items inv ok same = record {
    valid = ok;
    bits = inv.bits;
    inside = λ j h. omega (arith, inv.inside j h, length-SameCores items e.items same);
    covered = λ j y got.
        let (z, there, rule, dot) = SameCores-get items e.items j y same got in
        elim (inv.covered j z there) [
          | inl over ↦ inl (λ x k symbol index.
              over x k (sym (expands-SameCore parser productions y z rule dot) ∙ symbol) index)
          | inr pending ↦ inr pending
        ];
    rules = λ x k r p index letter there found has_r.
        HasStart-Extends r items e.items (SameCores-Extends items e.items same)
          (inv.rules x k r p index letter there found has_r);
  }

  pub IsExpanding-Added :
      (at : ℕ) (ats : List ℕ) (e e' : Expanding) (b : BitVector) (item : Item) (x k : ℕ)
      (p : Production)
      → IsExpanding (at ∷ ats) e
      → get_elem? e.items at ≡ some item
      → expands parser productions item ≡ done (some x)
      → to_index parser x ≡ done k
      → ascii_max ≤ x
      → k < parser.token_n + 1
      → find x productions ≡ some p
      → IsBits (parser.token_n + 1) b
      → ((j : ℕ) → has_index b j ≡ (j == k || has_index e.expanded j))
      → Added parser productions p.rules (record e { expanded = b }) e'
      → IsExpanding ats e'
  IsExpanding-Added at ats e e' b item x k p inv got symbol index letter below found okb bits
        added =
      let more : (j : ℕ) → contains e.expanded j ≡ done true → contains e'.expanded j ≡ done true =
        λ j h.
          ap (λ v. contains v j) added.same
          ∙ contains_mono (parser.token_n + 1) j e.expanded b inv.bits okb
              (λ i has_i. bits i ∙ or_right (i == k) (has_index e.expanded i) has_i) h in
      record {
        valid = added.valid;
        bits = subst (λ v. IsBits (parser.token_n + 1) v) (sym added.same) okb;
        inside = λ j h. elim (Bool-cases (listed j e'.next_dirty)) [
          | inl new ↦ elim (added.inside j new) [
            | inr small ↦ small
            | inl old ↦ omega (
              arith,
              inv.inside j (or_right (listed j (at ∷ ats)) (listed j e.next_dirty) old),
              length-Extends e'.items e.items added.extends,
            )
          ]
          | inr not_new ↦ omega (
            arith,
            inv.inside j (ground (arith, h, not_new)),
            length-Extends e'.items e.items added.extends,
          )
        ];
        covered = λ j y there. elim (added.old j y there) [
          | inr new ↦ inr (or_right (listed j ats) (listed j e'.next_dirty) new)
          | inl old ↦ elim (Bool-cases (j == at)) [
            | inl this ↦
                let same : item ≡ y =
                  some_eq (sym got ∙ ap (get_elem? e.items) (sym ((==_iff j at).0 this)) ∙ old) in
                inl (λ x' k' symbol' index'.
                  let ex : x ≡ x' =
                    some_done
                      (sym symbol ∙ ap (λ z. expands parser productions z) same ∙ symbol') in
                  let ek : k ≡ k' = done_eq (sym index ∙ ap (λ z. to_index parser z) ex ∙ index') in
                  ap (λ v. contains v k') added.same
                  ∙ ap (λ z. contains b z) (sym ek)
                  ∙ contains_lem (parser.token_n + 1) b k okb below
                  ∙ ap done (bits k ∙ or_left (k == k) (has_index e.expanded k) (ground arith)))
            | inr other ↦ elim (inv.covered j y old) [
              | inl over ↦ inl (λ x' k' symbol' index'. more k' (over x' k' symbol' index'))
              | inr pending ↦ elim (Bool-cases (listed j ats)) [
                | inl later ↦ inr (or_left (listed j ats) (listed j e'.next_dirty) later)
                | inr not_later ↦ inr (
                    or_right (listed j ats) (listed j e'.next_dirty)
                      (added.still j (ground (arith, pending, other, not_later))))
              ]
            ]
          ]
        ];
        rules = λ x' k' r p' index' letter' there found' has_r. elim (Bool-cases (k' == k)) [
          | inl this ↦
              let ex : x ≡ x' = omega (
                arith,
                to_index-token parser x k index letter,
                to_index-token parser x' k' index' letter',
                (==_iff k' k).0 this,
              ) in
              let ep : p' ≡ p =
                some_p (sym found' ∙ ap (λ z. find z productions) (sym ex) ∙ found) in
              added.starts r (ap (λ q. listed r q.rules) (sym ep) ∙ has_r)
          | inr other ↦
              let (small, has_k) =
                contains-true (parser.token_n + 1) b k' okb
                  (ap (λ v. contains v k') (sym added.same) ∙ there) in
              let before : has_index e.expanded k' ≡ true =
                ap (λ t. t || has_index e.expanded k') (sym other) ∙ sym (bits k') ∙ has_k in
              HasStart-Extends r e'.items e.items added.extends (
                inv.rules x' k' r p' index' letter'
                  (contains_lem (parser.token_n + 1) e.expanded k' inv.bits small ∙ ap done before)
                  found' has_r)
        ];
      }
    where
      or_left : (a b : Bool) → a ≡ true → (a || b) ≡ true
      or_left a b h = ground arith

      or_right : (a b : Bool) → b ≡ true → (a || b) ≡ true
      or_right a b h = ground arith

      some_eq : {a b : Item} → some a ≡ some b → a ≡ b
      some_eq e = cc

      some_p : {a b : Production} → some a ≡ some b → a ≡ b
      some_p e = cc

      some_done : {a b : ℕ} → ◌≡◌ {A = Outcome (Option ℕ)} (done (some a)) (done (some b)) → a ≡ b
      some_done e = cc

      done_eq : {a b : ℕ} → ◌≡◌ {A = Outcome ℕ} (done a) (done b) → a ≡ b
      done_eq e = cc
