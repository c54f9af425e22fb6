-- ===== src/Parsergen/Expand.antt =====
-- The first loop of `apply_closure`: it expands each symbol once, and then every symbol that an item
-- stands before has its rules among the items.
use neoast.Common.{
  ℕ, zero, suc, ◌+◌, ◌≤◌, ◌<◌, ◌≡◌, refl, ap, sym, ◌∙◌, List, [], ◌∷◌, ◌++◌, length, get_elem?,
  Bool, true, ◌==◌, ltb, ◌||◌, none, some, ◌⊎◌, inl, inr, subst, all,
}
use neoast.Common.{done, arith, Bool-cases, &&-elim, ==_iff, ltb→lt, get_elem?_total, get_elem?-lt}
use neoast.Runtime.Types.{GrammarParser}
use neoast.Parsergen.BitVector.{BitVector}
use neoast.Parsergen.BitVector.Laws.{IsBits, has_index, merge_lem}
use neoast.Parsergen.Items.{Item, Production, eqb_core, eqb_item}
use neoast.Parsergen.Closure.{find_item, emplace, Expanding, merge_all, add_items}
use neoast.Parsergen.Ready.{IsItem}
use neoast.Parsergen.PassOn.{SameCores, AllItems, or_left}
use neoast.Parsergen.Fill.{listed}

-- The old items with more lookaheads perhaps, and new items behind them.
abbrev pub Extends : List Item → List Item → Type 0
Extends xs [] = Unit
Extends [] (y ∷ ys) = ⊥
Extends (x ∷ xs) (y ∷ ys) =
    (x.derivation ≡ y.derivation)
    × (x.i ≡ y.i)
    × ((k : ℕ) → has_index y.look_ahead k ≡ true → has_index x.look_ahead k ≡ true)
    × Extends xs ys

pub Extends-refl : (xs : List Item) → Extends xs xs
Extends-refl [] = tt
Extends-refl (x ∷ xs) = (refl, refl, λ k h. h, Extends-refl xs)

pub Extends-trans : (xs ys zs : List Item) → Extends xs ys → Extends ys zs → Extends xs zs
Extends-trans xs ys [] p q = tt
Extends-trans xs [] (z ∷ zs) p q = absurd q
Extends-trans [] (y ∷ ys) (z ∷ zs) p q = absurd p
Extends-trans (x ∷ xs) (y ∷ ys) (z ∷ zs) p q =
    (p.0 ∙ q.0, p.1 ∙ q.1, λ k h. p.2 k (q.2 k h), Extends-trans xs ys zs p.3 q.3)

pub SameCores-Extends : (xs ys : List Item) → SameCores xs ys → Extends xs ys
SameCores-Extends [] [] s = tt
SameCores-Extends (x ∷ xs) [] s = tt
SameCores-Extends [] (y ∷ ys) s = absurd s
SameCores-Extends (x ∷ xs) (y ∷ ys) s = (s.0, s.1, s.2, SameCores-Extends xs ys s.3)

Extends-append : (xs ys : List Item) → Extends (xs ++ ys) xs
Extends-append [] ys = tt
Extends-append (x ∷ xs) ys = (refl, refl, λ k h. h, Extends-append xs ys)

pub length-Extends : (xs ys : List Item) → Extends xs ys → length ys ≤ length xs
length-Extends xs [] e = omega arith
length-Extends [] (y ∷ ys) e = absurd e
length-Extends (x ∷ xs) (y ∷ ys) e = omega (arith, length-Extends xs ys e.3)

-- An item of the rule `r` with nothing read.
abbrev pub HasStart : ℕ → List Item → Type 0
HasStart r items =
    (at : ℕ) × (item : Item) × (get_elem? items at ≡ some item)
    × (item.derivation ≡ r)
    × (item.i ≡ 0)

pub HasStart-Extends : (r : ℕ) (xs ys : List Item) → Extends xs ys → HasStart r ys → HasStart r xs
HasStart-Extends r xs [] e (at, item, got, rule, begin) = absurd (ground (arith, got))
HasStart-Extends r [] (y ∷ ys) e start = absurd e
HasStart-Extends r (x ∷ xs) (y ∷ ys) e (zero, item, got, rule, begin) =
    let same : y ≡ item = some_eq got in
    (0, x, refl, e.0 ∙ ap (λ z. z.derivation) same ∙ rule, e.1 ∙ ap (λ z. z.i) same ∙ begin)
  where
    some_eq : {a b : Item} → some a ≡ some b → a ≡ b
    some_eq e = cc
HasStart-Extends r (x ∷ xs) (y ∷ ys) e (suc at, item, got, rule, begin) =
    let (at', item', got', rule', begin') =
      HasStart-Extends r xs ys e.3 (at, item, got, rule, begin) in
    (suc at', item', got', rule', begin')

find_item_lem :
    (k : ℕ) (x : Item) (items : List Item)
    → (find_item k x items ≡ none)
      ⊎ ((j : ℕ) × (y : Item) × (find_item k x items ≡ some (k + j))
          × (get_elem? items j ≡ some y)
          × (y.derivation ≡ x.derivation)
          × (y.i ≡ x.i))
find_item_lem k x [] = inl refl
find_item_lem k x (y ∷ ys) = elim (Bool-cases (eqb_item y x)) [
  | inl same ↦
      let (core, bits) = &&-elim (eqb_core y x) _ same in
      let (rule, dot) = &&-elim (y.derivation == x.derivation) (y.i == x.i) core in
      inr (
        0,
        y,
        rw same (ap some (omega arith)),
        refl,
        (==_iff y.derivation x.derivation).0 rule,
        (==_iff y.i x.i).0 dot,
      )
  | inr other ↦ elim (find_item_lem (suc k) x ys) [
    | inl nowhere ↦ inl (rw other nowhere)
    | inr (j, z, found, got, rule, dot) ↦
        inr (suc j, z, rw other (found ∙ ap some (omega arith)), got, rule, dot)
  ]
]

get_elem?-append : (xs : List Item) (x : Item) → get_elem? (xs ++ x ∷ []) (length xs) ≡ some x
get_elem?-append [] x = refl
get_elem?-append (y ∷ ys) x = get_elem?-append ys x

get_elem?-old :
    (xs : List Item) (x y : Item) (at : ℕ)
    → get_elem? (xs ++ x ∷ []) at ≡ some y
    → (get_elem? xs at ≡ some y) ⊎ (at ≡ length xs)
get_elem?-old [] x y zero got = inr refl
get_elem?-old [] x y (suc at) got = absurd (ground (arith, got))
get_elem?-old (z ∷ zs) x y zero got = inl got
get_elem?-old (z ∷ zs) x y (suc at) got = elim (get_elem?-old zs x y at got) [
  | inl old ↦ inl old
  | inr last ↦ inr (ap suc last)
]

listed-append : (at k : ℕ) (xs : List ℕ) → listed at (xs ++ k ∷ []) ≡ (listed at xs || at == k)
listed-append at k [] = ground arith
listed-append at k (x ∷ xs) = ground (arith, listed-append at k xs)

module _ (parser : GrammarParser) (productions : List Production) where
  -- What `emplace` returns and leaves.
  pub record Emplaced (x : Item) (items : List Item) (k : ℕ) (items' : List Item) : Type 0 where
    pub inside : k < length items'
    pub extends : Extends items' items
    pub start : x.i ≡ 0 → HasStart x.derivation items'
    pub old :
        (at : ℕ) (y : Item)
        → get_elem? items' at ≡ some y
        → (get_elem? items at ≡ some y) ⊎ (at ≡ k)
    pub valid :
        AllItems parser productions items
        → IsItem parser productions x
        → AllItems parser productions items'

  AllItems-append :
      (xs : List Item) (x : Item)
      → AllItems parser productions xs
      → IsItem parser productions x
      → AllItems parser productions (xs ++ x ∷ [])
  AllItems-append [] x ok okx = (okx, tt)
  AllItems-append (y ∷ ys) x ok okx = (ok.0, AllItems-append ys x ok.1 okx)

  length-append : (xs : List Item) (x : Item) → length (xs ++ x ∷ []) ≡ suc (length xs)
  length-append [] x = refl
  length-append (y ∷ ys) x = ap suc (length-append ys x)

  emplace-Emplaced :
      (x : Item) (items : List Item)
      → (k : ℕ) × (items' : List Item) × (emplace x items ≡ (k, items')) × Emplaced x items k items'
  emplace-Emplaced x items = elim (find_item_lem 0 x items) [
    | inl nowhere ↦ (
      length items,
      items ++ x ∷ [],
      rw (emplace, nowhere) refl,
      record {
        inside = omega (arith, length-append items x);
        extends = Extends-append items (x ∷ []);
        start = λ begin. (length items, x, get_elem?-append items x, refl, begin);
        old = λ at y got. get_elem?-old items x y at got;
        valid = λ ok okx. AllItems-append items x ok okx;
      },
    )
    | inr (j, y, found, got, rule, dot) ↦ (
      0 + j,
      items,
      rw (emplace, found) refl,
      record {
        inside = omega (arith, get_elem?-lt items j got);
        extends = Extends-refl items;
        start = λ begin. (j, y, got, rule, dot ∙ begin);
        old = λ at z got'. inl got';
        valid = λ ok okx. ok;
      },
    )
  ]

  -- What the rules of a symbol add.
  pub record Added (rs : List ℕ) (e e' : Expanding) : Type 0 where
    pub valid : AllItems parser productions e'.items
    pub extends : Extends e'.items e.items
    pub same : e'.expanded ≡ e.expanded
    pub still : (at : ℕ) → listed at e.next_dirty ≡ true → listed at e'.next_dirty ≡ true
    pub inside :
        (at : ℕ)
        → listed at e'.next_dirty ≡ true
        → (listed at e.next_dirty ≡ true) ⊎ (at < length e'.items)
    pub old :
        (at : ℕ) (y : Item)
        → get_elem? e'.items at ≡ some y
        → (get_elem? e.items at ≡ some y) ⊎ (listed at e'.next_dirty ≡ true)
    pub starts : (r : ℕ) → listed r rs ≡ true → HasStart r e'.items

  Added-cons :
      (r k : ℕ) (rs : List ℕ) (items₁ : List Item) (x : Item) (e e' : Expanding)
      → x.derivation ≡ r
      → x.i ≡ 0
      → Emplaced x e.items k items₁
      → Added rs (record e { items = items₁; next_dirty = e.next_dirty ++ k ∷ [] }) e'
      → Added (r ∷ rs) e e'
  Added-cons r k rs items₁ x e e' rule begin first others = record {
    valid = others.valid;
    extends = Extends-trans e'.items items₁ e.items others.extends first.extends;
    same = others.same;
    still = λ at h.
        others.still at
          (listed-append at k e.next_dirty ∙ or_left (listed at e.next_dirty) (at == k) h);
    inside = λ at h. elim (others.inside at h) [
      | inr below ↦ inr below
      | inl there ↦ elim (Bool-cases (at == k)) [
        | inl this ↦ inr (
            omega (
              arith,
              (==_iff at k).0 this,
              first.inside,
              length-Extends e'.items items₁ others.extends,
            ))
        | inr other ↦ inl (ground (arith, there, other, listed-append at k e.next_dirty))
      ]
    ];
    old = λ at y got. elim (others.old at y got) [
      | inr new ↦ inr new
      | inl there ↦ elim (first.old at y there) [
        | inl older ↦ inl older
        | inr this ↦
            let here : (at == k) ≡ true = ground (arith, this) in
            inr (
              others.still at (
                listed-append at k e.next_dirty ∙ or_right (listed at e.next_dirty) (at == k) here))
      ]
    ];
    starts = λ q there. elim (Bool-cases (q == r)) [
      | inl this ↦
          HasStart-Extends q e'.items items₁ others.extends
            (subst (λ z. HasStart z items₁) (rule ∙ sym ((==_iff q r).0 this)) (first.start begin))
      | inr other ↦ others.starts q (ground (arith, there, other))
    ];
  }
    where
      or_right : (a b : Bool) → b ≡ true → (a || b) ≡ true
      or_right a b h = ground arith

  pub add_items-Added :
      (new : BitVector) (rs : List ℕ) (e : Expanding)
      → IsBits parser.action_token_n new
      → all (λ r. ltb r (length parser.grammar_rules)) rs ≡ true
      → AllItems parser productions e.items
      → Added rs e (add_items parser productions new rs e)
  unfolding add_items
  add_items-Added new [] e okn below ok = record {
    valid = ok;
    extends = Extends-refl e.items;
    same = refl;
    still = λ at h. h;
    inside = λ at h. inl h;
    old = λ at y got. inl got;
    starts = λ r there. absurd (ground (arith, there));
  }
  add_items-Added new (r ∷ rs) e okn below ok =
      let (here, others) =
        &&-elim (ltb r (length parser.grammar_rules))
          (all (λ r. ltb r (length parser.grammar_rules)) rs) below in
      let (rule, found) =
        get_elem?_total parser.grammar_rules r (ltb→lt r (length parser.grammar_rules) here) in
      let x : Item = record { derivation = r; i = 0; look_ahead = new } in
      let okx : IsItem parser productions x = record {
        rule = rule;
        found = found;
        inside = omega arith;
        sized = okn;
      } in
      let (k, items₁, ran, first) = emplace-Emplaced x e.items in
      let e₁ = record e { items = items₁; next_dirty = e.next_dirty ++ k ∷ [] } in
      rw ran (
        Added-cons r k rs items₁ x e (add_items parser productions new rs e₁) refl refl first
          (add_items-Added new rs e₁ okn others (first.valid ok okx)))

  pub merge_all_lem :
      (token : ℕ) (new : BitVector) (items : List Item)
      → AllItems parser productions items
      → IsBits parser.action_token_n new
      → (items' : List Item) × (merge_all parser productions token new items ≡ done items')
        × AllItems parser productions items'
        × SameCores items' items
  unfolding merge_all
  merge_all_lem token new [] ok okn = ([], refl, tt, tt)
  merge_all_lem token new (x ∷ xs) ok okn =
      let ox = ok.0 in
      let (xs', ran, ok', same) = merge_all_lem token new xs ok.1 okn in
      elim (Bool-cases (ox.rule.token == token)) [
        | inr other ↦
            (x ∷ xs', rw (ox.found, other, ran) refl, (ox, ok'), (refl, refl, λ k h. h, same))
        | inl this ↦
            let (c, b, merged, okb, union, grown) =
              merge_lem parser.action_token_n x.look_ahead new ox.sized okn in
            (
              record x { look_ahead = b } ∷ xs',
              rw (ox.found, this, merged, ran) refl,
              (record { rule = ox.rule; found = ox.found; inside = ox.inside; sized = okb }, ok'),
              (
                refl,
                refl,
                λ k h. union k ∙ or_left (has_index x.look_ahead k) (has_index new k) h,
                same,
              ),
            )
      ]
