-- ===== src/Parsergen/Ready.antt =====
-- What a grammar and its first sets have to be for the closure of items, as a check that runs, and
-- that the lookaheads of an item are then computed without a fault.
use neoast.Common.{
  ℕ, zero, suc, ◌+◌, ◌/◌, ◌^◌, ◌≤◌, ◌<◌, ◌≡◌, refl, ap, sym, ◌∙◌, List, [], ◌∷◌, length, take, drop,
  get_elem?, Bool, true, false, ◌==◌, ltb, leb, ◌&&◌, all, Option, none, some, ◌⊎◌, inl, inr,
}
use neoast.Common.{
  if◌then◌else◌, Outcome, done, fault, arith, Bool-cases, &&-elim, ==_iff, ltb→lt, leb→le,
  get_elem?_total, get_elem?-take,
}
use neoast.Lexer.Input.Laws.{slice_lem}
use neoast.Runtime.Types.{GrammarRule, GrammarParser}
use neoast.Runtime.Table.{ascii_max}
use neoast.Parsergen.BitVector.{BitVector, empty_of}
use neoast.Parsergen.BitVector.Laws.{IsBits, AllSmall, merge_lem}
use neoast.Parsergen.BitVector.Select.{select_lem, empty_of-IsBits}
use neoast.Parsergen.Items.{
  Item, Production, find, to_index, is_action, is_final, curr, merge_first_of, merge_symbols,
  merge_next_lookaheads,
}
use neoast.Parsergen.Closure.{expands, next_lookaheads}

abbrev pub bits_ok : ℕ → BitVector → Bool
bits_ok n b = (b.len == n && length b.words == n / 32 + 1) && all (λ w. ltb w (2 ^ 32)) b.words

all-AllSmall : (ws : List ℕ) → all (λ w. ltb w (2 ^ 32)) ws ≡ true → AllSmall ws
all-AllSmall [] h = tt
all-AllSmall (w ∷ ws) h =
    let (here, others) = &&-elim (ltb w (2 ^ 32)) (all (λ w. ltb w (2 ^ 32)) ws) h in
    (ltb→lt w (2 ^ 32) here, all-AllSmall ws others)

bits_ok-IsBits : (n : ℕ) (b : BitVector) → bits_ok n b ≡ true → IsBits n b
bits_ok-IsBits n b h =
    let (sizes, words) =
      &&-elim (b.len == n && length b.words == n / 32 + 1) (all (λ w. ltb w (2 ^ 32)) b.words) h in
    let (len, fits) = &&-elim (b.len == n) (length b.words == n / 32 + 1) sizes in
    record {
      sized = (==_iff b.len n).0 len;
      fits = (==_iff (length b.words) (n / 32 + 1)).0 fits;
      small = all-AllSmall b.words words;
    }

all-get :
    {A : Type 0} (test : A → Bool) (xs : List A) (i : ℕ) (x : A)
    → all test xs ≡ true
    → get_elem? xs i ≡ some x
    → test x ≡ true
all-get test [] i x h got = absurd (ground (arith, got))
all-get test (y ∷ ys) zero x h got = ground (arith, h, got)
all-get test (y ∷ ys) (suc i) x h got =
    all-get test ys i x ((&&-elim (test y) (all test ys) h).1) got

all-drop :
    {A : Type 0} (test : A → Bool) (k : ℕ) (xs : List A)
    → all test xs ≡ true
    → all test (drop k xs) ≡ true
all-drop test zero xs h = h
all-drop test (suc k) [] h = h
all-drop test (suc k) (x ∷ xs) h = all-drop test k xs ((&&-elim (test x) (all test xs) h).1)

module _ (parser : GrammarParser) (productions : List Production) where
  abbrev pub entry_ok : Option Production → Bool
  entry_ok none = false
  entry_ok (some p) =
      bits_ok parser.action_token_n p.first_of
      && all (λ r. ltb r (length parser.grammar_rules)) p.rules

  -- A symbol is an action, or is no character and has an entry in the maps.
  abbrev pub index_ok : ℕ → Outcome ℕ → Bool
  index_ok x (fault e) = false
  index_ok x (done k) =
      if ltb k parser.action_token_n
      then true
      else (leb ascii_max x && ltb k (parser.token_n + 1)) && entry_ok (find x productions)

  unfoldable pub symbol_ok : ℕ → Bool
  symbol_ok x = index_ok x (to_index parser x)

  abbrev pub rule_ok : GrammarRule → Bool
  rule_ok rule =
      leb rule.tok_n (length rule.grammar) && all symbol_ok (take rule.tok_n rule.grammar)

  -- The check of a grammar with its productions.
  unfoldable pub is_ready : Bool
  unfolding symbol_ok
  is_ready = all rule_ok parser.grammar_rules

  -- What the check says of a symbol.
  pub data Symbol (x : ℕ) : Type 0 where
    action : (k : ℕ) → to_index parser x ≡ done k → k < parser.action_token_n → Symbol x
    production :
        (k : ℕ) (p : Production)
        → to_index parser x ≡ done k
        → parser.action_token_n ≤ k
        → ascii_max ≤ x
        → k < parser.token_n + 1
        → find x productions ≡ some p
        → IsBits parser.action_token_n p.first_of
        → all (λ r. ltb r (length parser.grammar_rules)) p.rules ≡ true
        → Symbol x

  entry_ok_lem :
      (o : Option Production)
      → entry_ok o ≡ true
      → (p : Production) × (o ≡ some p)
        × IsBits parser.action_token_n p.first_of
        × (all (λ r. ltb r (length parser.grammar_rules)) p.rules ≡ true)
  entry_ok_lem none h = cc
  entry_ok_lem (some p) h =
      let (bits, rules) =
        &&-elim (bits_ok parser.action_token_n p.first_of)
          (all (λ r. ltb r (length parser.grammar_rules)) p.rules) h in
      (p, refl, bits_ok-IsBits parser.action_token_n p.first_of bits, rules)

  index_ok-Symbol : (x : ℕ) (o : Outcome ℕ) → to_index parser x ≡ o → index_ok x o ≡ true → Symbol x
  index_ok-Symbol x (fault f) e h = cc
  index_ok-Symbol x (done k) e h = elim (Bool-cases (ltb k parser.action_token_n)) [
    | inl below ↦ action k e (ltb→lt k parser.action_token_n below)
    | inr above ↦
        let range = leb ascii_max x && ltb k (parser.token_n + 1) in
        let rest : (range && entry_ok (find x productions)) ≡ true =
          ap (λ b. if b then true else range && entry_ok (find x productions)) (sym above) ∙ h in
        let (in_range, entry) = &&-elim range (entry_ok (find x productions)) rest in
        let (not_ascii, low) = &&-elim (leb ascii_max x) (ltb k (parser.token_n + 1)) in_range in
        let (p, found, bits, rules) = entry_ok_lem (find x productions) entry in
        production k p e (ground (arith, above)) (leb→le ascii_max x not_ascii)
          (ltb→lt k (parser.token_n + 1) low) found bits rules
  ]

  symbol_ok-Symbol : (x : ℕ) → symbol_ok x ≡ true → Symbol x
  unfolding symbol_ok
  symbol_ok-Symbol x h = index_ok-Symbol x (to_index parser x) refl h

  is_action_lem :
      (x k : ℕ)
      → to_index parser x ≡ done k
      → is_action parser x ≡ done (ltb k parser.action_token_n)
  unfolding is_action
  is_action_lem x k e = rw e refl

  merge_first_of_lem :
      (x : ℕ) (dest : BitVector)
      → Symbol x
      → IsBits parser.action_token_n dest
      → (c : Bool) × (b : BitVector) × (merge_first_of parser productions dest x ≡ done (c, b))
        × IsBits parser.action_token_n b
  unfolding merge_first_of
  merge_first_of_lem x dest (action k e below) ok =
      let test : ltb k parser.action_token_n ≡ true = ground (arith, below) in
      let (b, ran, okb, bits, fewer) = select_lem parser.action_token_n k dest ok below in
      (false, b, rw (is_action_lem x k e, test, e, ran) refl, okb)
  merge_first_of_lem x dest (production k p e above letter below found bits rules) ok =
      let test : ltb k parser.action_token_n ≡ false = ground (arith, above) in
      let (c, b, ran, okb, union, grown) =
        merge_lem parser.action_token_n dest p.first_of ok bits in
      (p.has_empty, b, rw (is_action_lem x k e, test, found, ran) refl, okb)

  merge_symbols_lem :
      (look_ahead dest : BitVector) (xs : List ℕ)
      → all symbol_ok xs ≡ true
      → IsBits parser.action_token_n look_ahead
      → IsBits parser.action_token_n dest
      → (b : BitVector) × (merge_symbols parser productions look_ahead dest xs ≡ done b)
        × IsBits parser.action_token_n b
  unfolding merge_symbols
  merge_symbols_lem look_ahead dest [] h okl okd =
      let (c, b, ran, okb, union, grown) =
        merge_lem parser.action_token_n dest look_ahead okd okl in
      (b, rw ran refl, okb)
  merge_symbols_lem look_ahead dest (x ∷ xs) h okl okd =
      let (here, others) = &&-elim (symbol_ok x) (all symbol_ok xs) h in
      let (c, d, ran, okr) = merge_first_of_lem x dest (symbol_ok-Symbol x here) okd in
      elim (Bool-cases c) [
        | inl empty ↦
            let (b, ran', okb) = merge_symbols_lem look_ahead d xs others okl okr in
            (b, rw (ran, empty) ran', okb)
        | inr stop ↦ (d, rw (ran, stop) refl, okr)
      ]

  -- An item of a rule of the grammar, with lookaheads of the right size.
  pub record IsItem (item : Item) : Type 0 where
    pub rule : GrammarRule
    pub found : get_elem? parser.grammar_rules item.derivation ≡ some rule
    pub inside : item.i ≤ rule.tok_n
    pub sized : IsBits parser.action_token_n item.look_ahead

  module _ (ready : is_ready ≡ true) where
    rule_ok_lem :
        (r : ℕ) (rule : GrammarRule)
        → get_elem? parser.grammar_rules r ≡ some rule
        → (rule.tok_n ≤ length rule.grammar) × (all symbol_ok (take rule.tok_n rule.grammar) ≡ true)
    unfolding is_ready
    rule_ok_lem r rule found =
        let ok = all-get rule_ok parser.grammar_rules r rule ready found in
        let (fits, symbols) =
          &&-elim (leb rule.tok_n (length rule.grammar))
            (all symbol_ok (take rule.tok_n rule.grammar)) ok in
        (leb→le rule.tok_n (length rule.grammar) fits, symbols)

    -- The lookaheads behind the next symbol of an item.
    pub next_lookaheads_lem :
        (item : Item)
        → IsItem item
        → (b : BitVector) × (next_lookaheads parser productions item ≡ done b)
          × IsBits parser.action_token_n b
    unfolding next_lookaheads merge_next_lookaheads
    next_lookaheads_lem item ok =
        let (fits, symbols) = rule_ok_lem item.derivation ok.rule ok.found in
        let n = parser.action_token_n in
        let (b, ran, okb) =
          merge_symbols_lem item.look_ahead (empty_of n)
            (drop (item.i + 1) (take ok.rule.tok_n ok.rule.grammar))
            (all-drop symbol_ok (item.i + 1) (take ok.rule.tok_n ok.rule.grammar) symbols) ok.sized
            (empty_of-IsBits n) in
        (b, rw (ok.found, slice_lem ok.rule.grammar 0 ok.rule.tok_n (omega (arith, fits))) ran, okb)

    -- What an item is expanded for: nothing, or a symbol with productions.
    pub expands_lem :
        (item : Item)
        → IsItem item
        → (expands parser productions item ≡ done none)
          ⊎ ((x : ℕ) × (expands parser productions item ≡ done (some x))
              × Symbol x
              × ((j : ℕ) → to_index parser x ≡ done j → parser.action_token_n ≤ j))
    unfolding expands is_final curr
    expands_lem item ok = elim (Bool-cases (item.i == ok.rule.tok_n)) [
      | inl final ↦ inl (rw (ok.found, final) refl)
      | inr more ↦
          let (fits, symbols) = rule_ok_lem item.derivation ok.rule ok.found in
          let below : item.i < ok.rule.tok_n = ground (arith, more, ok.inside) in
          let (x, got) = get_elem?_total ok.rule.grammar item.i (omega (arith, below, fits)) in
          let symbol = symbol_ok-Symbol x (
            all-get symbol_ok (take ok.rule.tok_n ok.rule.grammar) item.i x symbols
              (get_elem?-take ok.rule.tok_n item.i ok.rule.grammar below ∙ got)) in
          elim symbol [
            | action k e small ↦
                let test : ltb k parser.action_token_n ≡ true = ground (arith, small) in
                inl (rw (ok.found, more, got, is_action_lem x k e, test) refl)
            | production k p e above letter in_range there bits rules ↦
                let test : ltb k parser.action_token_n ≡ false = ground (arith, above) in
                inr (
                  x,
                  rw (ok.found, more, got, is_action_lem x k e, test) refl,
                  production k p e above letter in_range there bits rules,
                  λ j e'. omega (arith, above, done_eq (sym e ∙ e')),
                )
          ]
    ]
      where
        done_eq : {a b : ℕ} → ◌≡◌ {A = Outcome ℕ} (done a) (done b) → a ≡ b
        done_eq e = cc
