-- ===== src/Parsergen/FirstLaws.antt =====
-- What the first sets of src/parsergen/canonical_collection.cc look at.
use neoast.Common.{ℕ, ◌≤◌, ◌≡◌, refl, Bool, true, false, ◌==◌, some, ◌⊎◌, inl, inr, get_elem?}
use neoast.Common.{Outcome, done, fault, ◌>>=◌, arith}
use neoast.Runtime.Types.{GrammarRule, GrammarParser}
use neoast.Parsergen.Items.{Production, find, is_action}
use neoast.Parsergen.First.{Firsts, join_first, first_of_rule}

module _ (parser : GrammarParser) where
  join_first_long :
      (token x : ℕ) (rule rule' : GrammarRule) (f : Firsts)
      → (rule.tok_n == 1) ≡ (rule'.tok_n == 1)
      → join_first parser token x rule f ≡ join_first parser token x rule' f
  unfolding join_first
  join_first_long token x rule rule' f same = rw same refl

  first_of_rule-is_action :
      (o : Outcome Bool) (recur : ℕ → Firsts → Outcome Firsts) (token r r' x : ℕ)
      (rule rule' : GrammarRule) (f : Firsts)
      → get_elem? parser.grammar_rules r ≡ some rule
      → get_elem? parser.grammar_rules r' ≡ some rule'
      → 2 ≤ rule.tok_n
      → 2 ≤ rule'.tok_n
      → get_elem? rule.grammar 0 ≡ some x
      → get_elem? rule'.grammar 0 ≡ some x
      → is_action parser x ≡ o
      → (o ≡ done true) ⊎ ((q : Production) × (find x f.productions ≡ some q))
      → first_of_rule parser recur token r f ≡ first_of_rule parser recur token r' f
  unfolding first_of_rule
  first_of_rule-is_action (fault e) recur token r r' x rule rule' f got got' long long' first first'
        act known =
      let some_n : (rule.tok_n == 0) ≡ false = ground (arith, long) in
      let some_n' : (rule'.tok_n == 0) ≡ false = ground (arith, long') in
      rw (got, got', some_n, some_n', first, first', act) refl
  first_of_rule-is_action (done true) recur token r r' x rule rule' f got got' long long' first
        first' act known =
      let some_n : (rule.tok_n == 0) ≡ false = ground (arith, long) in
      let some_n' : (rule'.tok_n == 0) ≡ false = ground (arith, long') in
      rw (got, got', some_n, some_n', first, first', act) refl
  first_of_rule-is_action (done false) recur token r r' x rule rule' f got got' long long' first
        first' act (inl e) =
      cc
  first_of_rule-is_action (done false) recur token r r' x rule rule' f got got' long long' first
        first' act (inr (q, found)) =
      let some_n : (rule.tok_n == 0) ≡ false = ground (arith, long) in
      let some_n' : (rule'.tok_n == 0) ≡ false = ground (arith, long') in
      let one : (rule.tok_n == 1) ≡ (rule'.tok_n == 1) = ground (arith, long, long') in
      rw (got, got', some_n, some_n', first, first', act, found)
        (after (recur x f) (join_first parser token x rule) (join_first parser token x rule')
          (λ g. join_first_long token x rule rule' g one))
    where
      after :
          (o : Outcome Firsts) (j j' : Firsts → Outcome Firsts)
          → ((g : Firsts) → j g ≡ j' g)
          → (o >>= λ g. j g) ≡ (o >>= λ g. j' g)
      after (done g) j j' same = same g
      after (fault e) j j' same = refl

  -- For two rules of at least two symbols, of which the first is the same and is an action token or has
  -- productions, `first_of_rule` does the same, whatever the recursive call returns: that the first
  -- symbol can be empty makes no difference, so that what the second can begin with is left out.
  pub first_of_rule_rest :
      (recur : ℕ → Firsts → Outcome Firsts) (token r r' x : ℕ) (rule rule' : GrammarRule)
      (f : Firsts)
      → get_elem? parser.grammar_rules r ≡ some rule
      → get_elem? parser.grammar_rules r' ≡ some rule'
      → 2 ≤ rule.tok_n
      → 2 ≤ rule'.tok_n
      → get_elem? rule.grammar 0 ≡ some x
      → get_elem? rule'.grammar 0 ≡ some x
      → (is_action parser x ≡ done true) ⊎ ((q : Production) × (find x f.productions ≡ some q))
      → first_of_rule parser recur token r f ≡ first_of_rule parser recur token r' f
  unfolding first_of_rule
  first_of_rule_rest recur token r r' x rule rule' f got got' long long' first first' known =
      first_of_rule-is_action (is_action parser x) recur token r r' x rule rule' f got got' long
        long' first first' refl known
