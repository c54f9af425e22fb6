-- ===== src/Lexer/Matcher/Stops.antt =====
-- The tab stops that `matcher_scan` keeps for the margins of indented text.
use neoast.Common.{
  ℕ, suc, ◌+◌, ◌-◌, ◌%◌, ◌^◌, ◌≤◌, ◌<◌, ◌≡◌, refl, List, [], ◌∷◌, ◌++◌, length, take, set, true,
  false,
}
use neoast.Common.{ltb, ◌==◌, ◌&&◌, ◌⊎◌, inl, inr, Outcome, done, if◌then◌else◌, arith, Bool-cases}
use neoast.Common.{
  get_elem?, some, get_elem?-lt, ap, sym, ◌∙◌, length-take_le, write_lem, ==_iff, lt_or_le,
}
use neoast.Lexer.Vector.{Vector, size, resize}
use neoast.Lexer.Vector.Laws.{IsValid, push_back_lem}
use neoast.Lexer.Matcher.{Matcher}
use neoast.Lexer.Matcher.Indent.{last_stop}
use neoast.Lexer.Matcher.Scan.{stops_kept, align_stop, drop_stops, add_stop, update_stops}
use neoast.Lexer.Matcher.Rising.{
  IsRising, last_or, snoc-IsRising, get_elem?-last, align-IsRising, stops_kept_lem, IsRising-le,
  set-take,
}

resize-shorter :
    (v : Vector ℕ) (n fill : ℕ)
    → n ≤ size v
    → resize v n fill ≡ done (record v { items = take n v.items })
unfolding resize
resize-shorter v n fill le = ground arith

module _ {E : Type 0} where
  -- A margin before the last stop: of the stops, the first `kept` are those that are at most the
  -- margin. They stay, the last of them moves to the margin, and each of the others is a dedent.
  pub record IsDropped (m m' : Matcher E) : Type 0 where
    pub kept : ℕ
    pub stays : (i s : ℕ) → get_elem? m.tab.items i ≡ some s → i < kept → s ≤ m.col
    pub goes : (i s : ℕ) → get_elem? m.tab.items i ≡ some s → kept ≤ i → m.col < s
    pub stops :
        ((kept ≡ 0) × (m'.tab.items ≡ []))
        ⊎ ((j : ℕ) × (kept ≡ suc j) × (m'.tab.items ≡ take j m.tab.items ++ m.col ∷ []))
    pub dedents : m'.ded ≡ m.ded + (size m.tab - kept)

  -- The stops are in order. A margin behind the last stop, or behind 0, is a stop more; one at the last
  -- stop changes nothing.
  pub record IsMargin (m m' : Matcher E) : Type 0 where
    pub rising : IsRising 0 m'.tab.items
    pub deeper :
        last_or 0 m.tab.items < m.col
        → (m'.tab.items ≡ m.tab.items ++ m.col ∷ []) × (m'.ded ≡ m.ded)
    pub level : last_or 0 m.tab.items ≡ m.col → m' ≡ m
    pub shallower : m.col < last_or 0 m.tab.items → IsDropped m m'

  add_stop-IsMargin :
      (m : Matcher E)
      → IsRising 0 m.tab.items
      → IsValid m.tab
      → m.tab.s < 2 ^ 59
      → last_or 0 m.tab.items < m.col
      → (m' : Matcher E) × (add_stop m ≡ done m') × IsMargin m m'
  unfolding add_stop
  add_stop-IsMargin m rising valid fits deeper =
      let (tab, e, items, ok) = push_back_lem m.tab m.col valid fits in
      (
        record m { tab = tab },
        rw e refl,
        record {
          rising = rw items (snoc-IsRising 0 m.tab.items m.col rising deeper);
          deeper = λ _. (items, refl);
          level = λ same. absurd (omega (arith, same, deeper));
          shallower = λ less. absurd (omega (arith, less, deeper));
        },
      )

  -- The stops that stay.
  abbrev keeps : ℕ → Matcher E → Matcher E
  keeps k m = record m {
    ded = (m.ded + (size m.tab - k)) % 2 ^ 64;
    tab = record (m.tab) { items = take k m.tab.items };
  }

  drop_stops_computes :
      (m : Matcher E) (k : ℕ)
      → stops_kept m.tab.items m.col (size m.tab - 1) ≡ done k
      → k ≤ size m.tab
      → drop_stops m ≡ align_stop k (keeps k m)
  unfolding drop_stops
  drop_stops_computes m k e le = rw (e, resize-shorter m.tab k (2 ^ 64 - 1) le) refl

  abbrev aligned : ℕ → ℕ → Matcher E → Matcher E
  aligned k j m = record (keeps k m) {
    tab = record (m.tab) { items = set (take k m.tab.items) j m.col };
  }

  align_stop_computes :
      (m : Matcher E) (j : ℕ)
      → j < length (take (suc j) m.tab.items)
      → align_stop (suc j) (keeps (suc j) m) ≡ done (aligned (suc j) j m)
  unfolding align_stop
  align_stop_computes m j fits = rw (write_lem (take (suc j) m.tab.items) j m.col fits) refl

  drop_stops-IsMargin :
      (m : Matcher E)
      → IsRising 0 m.tab.items
      → size m.tab + m.ded < 2 ^ 64
      → m.col < last_or 0 m.tab.items
      → (m' : Matcher E) × (drop_stops m ≡ done m') × IsMargin m m'
  unfolding align_stop
  drop_stops-IsMargin m rising fits less =
      let (k, e, le, last, above) =
        stops_kept_lem m.tab.items m.col (size m.tab - 1) (omega arith) in
      let steps = drop_stops_computes m k e (omega (arith, le)) in
      let some_stop : 0 < size m.tab = has_stop m.tab.items less in
      let goes : (i s : ℕ) → get_elem? m.tab.items i ≡ some s → k ≤ i → m.col < s = λ i s at from_.
        elim (lt_or_le i (size m.tab - 1)) [
          | inl before ↦ above i s from_ before at
          | inr at_end ↦
              let same : i ≡ size m.tab - 1 =
                omega (arith, at_end, get_elem?-lt m.tab.items i at) in
              let got : some s ≡ some (last_or 0 m.tab.items) =
                sym at
                ∙ ap (get_elem? m.tab.items) same
                ∙ get_elem?-last 0 m.tab.items (size m.tab - 1) (omega (arith, some_stop)) in
              ground (arith, got, less)
        ] in
      elim last [
        | inl none_left ↦ (
          keeps 0 m,
          steps ∙ ap (λ k. align_stop k (keeps k m)) none_left,
          record {
            rising = tt;
            deeper = λ more. absurd (omega (arith, more, less));
            level = λ same. absurd (omega (arith, same, less));
            shallower = λ _. record {
              kept = 0;
              stays = λ i s at below. absurd (omega (arith, below));
              goes = λ i s at from_. goes i s at (omega (arith, none_left));
              stops = inl (refl, refl);
              dedents = omega (arith, fits);
            };
          },
        )
        | inr (j, s, at, got, low) ↦
            let (rising', last') = align-IsRising 0 m.tab.items j s m.col rising got low in
            let kept : length (take (suc j) m.tab.items) ≡ suc j =
              length-take_le (suc j) m.tab.items (omega (arith, le, at)) in
            (
              aligned (suc j) j m,
              steps
                  ∙ ap (λ k. align_stop k (keeps k m)) at
                  ∙ align_stop_computes m j (omega (arith, kept)),
              record {
                rising = rising';
                deeper = λ more. absurd (omega (arith, more, less));
                level = λ same. absurd (omega (arith, same, less));
                shallower = λ _. record {
                  kept = suc j;
                  stays = λ i s' at' below.
                      let up : s' ≤ s =
                        IsRising-le 0 m.tab.items i j s' s rising at' got (omega (arith, below)) in
                      omega (arith, up, low);
                  goes = λ i s' at' from_. goes i s' at' (omega (arith, at, from_));
                  stops = inr (j, refl, set-take m.tab.items j s m.col got);
                  dedents = omega (arith, fits, at, le);
                };
              },
            )
      ]
    where
      has_stop : (xs : List ℕ) → m.col < last_or 0 xs → 0 < length xs
      has_stop [] low = absurd (omega (arith, low))
      has_stop (x ∷ xs) low = omega arith

  -- The choice of `update_stops` for the last stop `stop`, 0 for none.
  abbrev choice : ℕ → Matcher E → Outcome (Matcher E)
  choice stop m =
      if ltb 0 m.col && ltb stop m.col
      then add_stop m
      else if ltb m.col stop
      then drop_stops m
      else done m

  update_stops_none :
      (m : Matcher E)
      → (size m.tab == 0) ≡ true
      → update_stops m ≡ (if ltb 0 m.col then add_stop m else done m)
  unfolding update_stops
  update_stops_none m e = rw e refl

  update_stops_some :
      (m : Matcher E) (stop : ℕ)
      → (size m.tab == 0) ≡ false
      → last_stop m ≡ done stop
      → update_stops m ≡ choice stop m
  unfolding update_stops
  update_stops_some m stop some_stop e = rw (some_stop, e) refl

  -- Without stops 0 is the last, and the choice is the same.
  no_stops : (m : Matcher E) → choice 0 m ≡ (if ltb 0 m.col then add_stop m else done m)
  no_stops m = ground arith

  update_stops_computes : (m : Matcher E) → update_stops m ≡ choice (last_or 0 m.tab.items) m
  update_stops_computes m = elim (Bool-cases (size m.tab == 0)) [
    | inl empty ↦
        update_stops_none m empty
        ∙ sym (no_stops m)
        ∙ ap (λ xs. choice (last_or 0 xs) m)
            (sym (nil_of m.tab.items ((==_iff (size m.tab) 0).0 empty)))
    | inr some_stop ↦
        let n : length m.tab.items ≡ suc (size m.tab - 1) = ground (arith, some_stop) in
        update_stops_some m (last_or 0 m.tab.items) some_stop
          (rw (get_elem?-last 0 m.tab.items (size m.tab - 1) n) refl)
  ]
    where
      nil_of : (xs : List ℕ) → length xs ≡ 0 → xs ≡ []
      nil_of [] e = refl
      nil_of (x ∷ xs) e = absurd (omega arith)

  -- From stops in increasing order, in a valid vector, a margin leaves stops in increasing order. One
  -- that is deeper than the last stop, or than 0 without stops, is added, and no dedent is due for it;
  -- one at the last stop changes nothing; for a shallower one, the stops up to it stay, the last of them
  -- moved to it, and for each of the others a dedent is due.
  pub update_stops-IsMargin :
      (m : Matcher E)
      → IsRising 0 m.tab.items
      → IsValid m.tab
      → m.tab.s < 2 ^ 59
      → size m.tab + m.ded < 2 ^ 64
      → (m' : Matcher E) × (update_stops m ≡ done m') × IsMargin m m'
  update_stops-IsMargin m rising valid room fits = elim (lt_or_le (last_or 0 m.tab.items) m.col) [
    | inl deeper ↦
        let (m', e, margin) = add_stop-IsMargin m rising valid room deeper in
        let add : choice (last_or 0 m.tab.items) m ≡ add_stop m = ground (arith, deeper) in
        (m', update_stops_computes m ∙ add ∙ e, margin)
    | inr not_deeper ↦ elim (Bool-cases (ltb m.col (last_or 0 m.tab.items))) [
      | inl shallower ↦
          let less : m.col < last_or 0 m.tab.items = ground (arith, shallower) in
          let (m', e, margin) = drop_stops-IsMargin m rising fits less in
          let drop_ : choice (last_or 0 m.tab.items) m ≡ drop_stops m =
            ground (arith, shallower, not_deeper) in
          (m', update_stops_computes m ∙ drop_ ∙ e, margin)
      | inr same ↦
          let stay : choice (last_or 0 m.tab.items) m ≡ done m = ground (arith, same, not_deeper) in
          (
            m,
            update_stops_computes m ∙ stay,
            record {
              rising = rising;
              deeper = λ more. absurd (omega (arith, more, not_deeper));
              level = λ _. refl;
              shallower = λ less. absurd (ground (arith, same, less));
            },
          )
    ]
  ]
