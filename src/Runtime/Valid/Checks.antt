-- ===== src/Runtime/Valid/Checks.antt =====
-- What a table that passes the check gives, condition by condition.
use neoast.Common.{
  each_index, each_index_at, ℕ, ◌*◌, ◌^◌, ◌≤◌, ◌<◌, ◌≡◌, refl, List, [], ◌∷◌, length, get_elem?,
}
use neoast.Common.{Bool, true, ◌==◌, all, some, done, fault, none, Option, arith, ==_iff}
use neoast.Common.{◌⊎◌, Outcome, bit_and}
use neoast.Runtime.Types.{GrammarRule, GrammarParser}
use neoast.Runtime.Table.{Action, ascii_max, tok_mask, classify}
use neoast.Runtime.Grammar.{result, right_side}
use neoast.Runtime.Valid.{Certificate, Layer, elem, eqb_list, states, layers_of, entry}
use neoast.Runtime.Valid.{action_in, entry_in, is_valid, edge, goto_entry, rule_in, reduce_in}
use neoast.Runtime.Valid.{accept_in, rank_of, head_or, layer_symbols, states_under}

pub all-elem :
    (p : ℕ → Bool) (xs : List ℕ) (x : ℕ) → all p xs ≡ true → elem x xs ≡ true → p x ≡ true
all-elem p [] x h e = cc
all-elem p (y ∷ ys) x h e = ground (arith, all-elem p ys x)

pub eqb_list-eq : (xs ys : List ℕ) → eqb_list xs ys ≡ true → xs ≡ ys
eqb_list-eq [] [] h = refl
eqb_list-eq [] (y ∷ ys) h = cc
eqb_list-eq (x ∷ xs) [] h = cc
eqb_list-eq (x ∷ xs) (y ∷ ys) h = ground (arith, eqb_list-eq xs ys)

module _ (parser : GrammarParser) (table : List ℕ) (cert : Certificate) where
  -- The conditions on the table as a whole.
  pub record Shape : Type 0 where
    pub has_start : 0 < states parser table cert
    pub start_empty : length (layers_of parser table cert 0) ≤ 0
    pub tokens : 0 < parser.token_n
    pub actions : parser.action_token_n ≤ parser.token_n
    pub cells : states parser table cert * parser.token_n ≤ length table

  pub is_valid-Shape : is_valid parser table cert ≡ true → Shape
  unfolding is_valid
  is_valid-Shape h = ground arith

  entry_in-done :
      (s t : ℕ) (o : Outcome ℕ)
      → entry_in parser table cert s t o ≡ true
      → (v : ℕ) × (o ≡ done v) × (action_in parser table cert s t (classify v) ≡ true)
  unfolding entry_in
  entry_in-done s t (done v) h = (v, refl, h)
  entry_in-done s t (fault e) h = cc

  -- Every entry of the action columns is there and has passed.
  pub is_valid-entry :
      (s t : ℕ)
      → is_valid parser table cert ≡ true
      → s < states parser table cert
      → t < parser.action_token_n
      → (v : ℕ) × (entry parser table cert s t ≡ done v)
        × (action_in parser table cert s t (classify v) ≡ true)
  unfolding is_valid
  is_valid-entry s t h ls lt = entry_in-done s t (entry parser table cert s t) (
      each_index_at (λ u. entry_in parser table cert s u (entry parser table cert s u)) t
        parser.action_token_n lt (each_index_at row s (states parser table cert) ls rows))
    where
      row : ℕ → Bool
      row s =
          each_index (λ t. entry_in parser table cert s t (entry parser table cert s t))
            parser.action_token_n

      rows : each_index row (states parser table cert) ≡ true
      rows = ground arith

  pub goto_entry-done :
      (q x : ℕ) (o : Outcome ℕ)
      → goto_entry parser table cert q x o ≡ true
      → (g : ℕ) × (o ≡ done g) × (edge parser table cert q x (bit_and g tok_mask) ≡ true)
  unfolding goto_entry
  goto_entry-done q x (done g) h = (g, refl, h)
  goto_entry-done q x (fault e) h = cc

  -- What a shift needs.
  pub shift_in :
      (s t s' : ℕ)
      → action_in parser table cert s t (Action.shift s') ≡ true
      → (0 < t) × (edge parser table cert s t s' ≡ true)
  unfolding action_in
  shift_in s t s' h = ground arith

  -- What a rule needs to be reduced by in state `s`.
  pub record RuleIn (s : ℕ) (rule : GrammarRule) : Type 0 where
    pub has_args : 1 ≤ rule.tok_n
    pub above_ascii : ascii_max < rule.token
    pub fits_int : rule.token < 2 ^ 31
    pub a_production : parser.action_token_n ≤ result parser rule
    pub a_column : result parser rule < parser.token_n
    pub deep : rule.tok_n ≤ length (layers_of parser table cert s)
    pub ends_in :
        layer_symbols rule.tok_n (layers_of parser table cert s) [] ≡ right_side parser rule
    pub gotos :
        (q : ℕ)
        → elem q (states_under rule.tok_n (layers_of parser table cert s)) ≡ true
        → (g : ℕ) × (entry parser table cert q (result parser rule) ≡ done g)
          × (edge parser table cert q (result parser rule) (bit_and g tok_mask) ≡ true)
    pub ranked :
        (2 ≤ rule.tok_n)
        ⊎ (rank_of parser table cert (head_or (right_side parser rule) 0)
            < rank_of parser table cert (result parser rule))
    pub rank_bounded : rank_of parser table cert (result parser rule) ≤ cert.max_rank

  rule_in-RuleIn :
      (s : ℕ) (rule : GrammarRule) → rule_in parser table cert s rule ≡ true → RuleIn s rule
  unfolding rule_in
  rule_in-RuleIn s rule h = record {
    has_args = ground arith;
    above_ascii = ground arith;
    fits_int = ground arith;
    a_production = ground arith;
    a_column = ground arith;
    deep = ground arith;
    ends_in = eqb_list-eq _ _ (ground arith);
    gotos = λ q is_under.
        goto_entry-done q (result parser rule) (entry parser table cert q (result parser rule)) (
          all-elem
            (λ q.
              goto_entry parser table cert q (result parser rule)
                (entry parser table cert q (result parser rule)))
            (states_under rule.tok_n (layers_of parser table cert s)) q (ground arith) is_under);
    ranked = ground arith;
    rank_bounded = ground arith;
  }

  -- What a reduction needs.
  reduce_in-RuleIn :
      (s : ℕ) (o : Option GrammarRule)
      → reduce_in parser table cert s o ≡ true
      → (rule : GrammarRule) × (o ≡ some rule) × RuleIn s rule
  unfolding reduce_in
  reduce_in-RuleIn s none h = cc
  reduce_in-RuleIn s (some rule) h = (rule, refl, rule_in-RuleIn s rule h)

  -- What accepting needs.
  pub accept_in-start :
      (start : ℕ) (ls : List Layer)
      → accept_in parser table cert start ls ≡ true
      → (l : Layer) × (below : List Layer) × (ls ≡ l ∷ below)
        × (l.symbol ≡ start)
        × (parser.action_token_n ≤ l.symbol)
        × ((q : ℕ) → elem q l.under ≡ true → q ≡ 0)
  unfolding accept_in
  accept_in-start start [] h = cc
  accept_in-start start (l ∷ ls) h = (
    l,
    ls,
    refl,
    ground arith,
    ground arith,
    λ q is_under. (==_iff q 0).0 (all-elem (λ q. q == 0) l.under q (ground arith) is_under),
  )

  pub not_stuck : (s t : ℕ) → action_in parser table cert s t Action.stuck ≡ true → ⊥
  unfolding action_in
  not_stuck s t h = cc

  pub reduce_rule :
      (s t r : ℕ)
      → action_in parser table cert s t (Action.reduce r) ≡ true
      → (rule : GrammarRule) × (get_elem? parser.grammar_rules r ≡ some rule) × RuleIn s rule
  unfolding action_in
  reduce_rule s t r h = reduce_in-RuleIn s (get_elem? parser.grammar_rules r) h
