-- ===== src/Codegen/GrammarTable.antt =====
-- About the grammar that `CGGrammars` of src/codegen/cg_grammar.cc hands to the parser generator.
use neoast.Common.{
  ℕ, zero, suc, ◌≡◌, refl, ap, sym, ◌∙◌, subst, List, [], ◌∷◌, ◌++◌, length, take, get_elem?, some,
  false, arith, done, >>=-eq-done, Ensures, Ensures-done, Ensures-map, Ensures-bind,
}
use neoast.Runtime.Types.{GrammarRule}
use neoast.Codegen.{Name, GrammarRuleProto, File}
use neoast.Codegen.Classes.{CgToken}
use neoast.Codegen.Impl.{CodeGenImpl, get_token, augment_name}
use neoast.Codegen.Grammars.{
  CgGrammar, Grammars, all_rules, lt_name, emplace_name, cg_grammar, add_grammar, add_grammars,
  add_all, cg_grammars, token_number, augment_rule, no_grammars, finish_rules, initialize_all,
  initialize_grammar, positions_of, grammars_size,
}
use neoast.Codegen.Ordered.{Sorted, All}
use neoast.Codegen.Pushed.{symbols, add_symbol}
use neoast.Codegen.Compiled.{CompiledAll, Inv, IsRule, cg_grammar-IsRule}
use neoast.Codegen.Compilation.{NotBefore, Starts, add_grammar-Inv}

-- A compiled rule: its number, and its tokens in the table.
pub record IsRuleOf (cg : CodeGenImpl) (s : Grammars) (rule : CgGrammar) (g : GrammarRule)
    : Type 0 where
  pub token : g.token ≡ token_number rule.return_type
  pub grammar : take g.tok_n g.grammar ≡ symbols cg rule.parent.tokens
  pub complete : s.input.err_n ≡ 0 → g.tok_n ≡ length rule.parent.tokens

-- The grammar of a file.
pub record IsBuilt (cg : CodeGenImpl) (s : Grammars) : Type 0 where
  pub sorted : Sorted s.rules_cg
  pub rule_n : length s.rules ≡ grammars_size s
  pub rule :
      (i : ℕ) (r : CgGrammar)
      → get_elem? (all_rules s.rules_cg) i ≡ some r
      → (g : GrammarRule) × (get_elem? s.rules i ≡ some g)
        × IsRuleOf cg s r g
        × (get_elem? s.rule_positions i ≡ some r.parent.position)

length-initialize_all :
    (table : List ℕ) (rules : List CgGrammar) → length (initialize_all table rules) ≡ length rules
unfolding initialize_all
length-initialize_all table [] = refl
length-initialize_all table (r ∷ rules) = ap suc (length-initialize_all table rules)

CompiledAll-append :
    (cg : CodeGenImpl) (e : ℕ) (table : List ℕ) (xs ys : List CgGrammar)
    → CompiledAll cg e table xs
    → CompiledAll cg e table ys
    → CompiledAll cg e table (xs ++ ys)
CompiledAll-append cg e table [] ys all all' = all'
CompiledAll-append cg e table (x ∷ xs) ys (first, others) all' =
    (first, CompiledAll-append cg e table xs ys others all')

all_rules-CompiledAll :
    (cg : CodeGenImpl) (e : ℕ) (table : List ℕ) (ps : List (Name × List CgGrammar))
    → All (CompiledAll cg e table) ps
    → CompiledAll cg e table (all_rules ps)
all_rules-CompiledAll cg e table [] all = tt
all_rules-CompiledAll cg e table (p ∷ ps) (first, others) =
    CompiledAll-append cg e table (p.1) (all_rules ps) first
      (all_rules-CompiledAll cg e table ps others)

initialize_all-IsRuleOf :
    (cg : CodeGenImpl) (s : Grammars) (rules : List CgGrammar) (i : ℕ) (r : CgGrammar)
    → CompiledAll cg s.input.err_n s.table rules
    → get_elem? rules i ≡ some r
    → (g : GrammarRule) × (get_elem? (initialize_all s.table rules) i ≡ some g)
      × IsRuleOf cg s r g
      × (get_elem? (positions_of rules) i ≡ some r.parent.position)
unfolding initialize_all
initialize_all-IsRuleOf cg s [] i r all got = absurd (ground (arith, got))
initialize_all-IsRuleOf cg s (x ∷ rules) zero r (first, others) got =
    let same : x ≡ r = some_eq got in
    (
      initialize_grammar s.table r,
      ap (λ y. some (initialize_grammar s.table y)) same,
      subst (λ y. IsRuleOf cg s y (initialize_grammar s.table y)) same
          (record { token = refl; grammar = first.in_table; complete = first.complete }),
      ap (λ y. some y.parent.position) same,
    )
  where
    some_eq : {a b : CgGrammar} → some a ≡ some b → a ≡ b
    some_eq e = cc
initialize_all-IsRuleOf cg s (x ∷ rules) (suc i) r (first, others) got =
    initialize_all-IsRuleOf cg s rules i r others got

module _ (digits : ℕ → ℕ) (cg : CodeGenImpl) where
  add_grammars-Inv :
      (iters : List GrammarRuleProto) (s : Grammars)
      → Inv cg s
      → Ensures
          (λ s'.
            Inv cg s'
            × ((p : Name × List CgGrammar) → NotBefore (p.0) iters → Starts p s → Starts p s'))
          (add_grammars digits cg iters s)
  unfolding add_grammars
  add_grammars-Inv [] s inv = (inv, λ p later starts. starts)
  add_grammars-Inv (iter ∷ iters) s inv =
      Ensures-bind
        (λ s'.
          Inv cg s'
          × ((p : Name × List CgGrammar)
              → NotBefore (p.0) (iter ∷ iters)
              → Starts p s
              → Starts p s'))
        (λ s₁.
          Inv cg s₁
          × ((p : Name × List CgGrammar)
              → ((name : Name) → iter.name ≡ some name → lt_name name (p.0) ≡ false)
              → Starts p s
              → Starts p s₁))
        (add_grammar digits cg iter s) (add_grammars digits cg iters)
        (add_grammar-Inv digits cg iter s inv)
        (λ s₁ (inv₁, first).
          Ensures-map (add_grammars digits cg iters s₁)
            (λ s' (inv', rest).
              (inv', λ p (here, later) starts. rest p later (first p here starts)))
            (add_grammars-Inv iters s₁ inv₁))

  -- The state before the rules of the file, and the rule that is there.
  begun :
      (a : CgToken) (r : CgGrammar × Grammars)
      → IsRule cg a (augment_rule cg) (no_grammars cg) r
      → Inv cg (record (r.1) { rules_cg = emplace_name augment_name (r.0 ∷ []) (r.1.rules_cg) })
  unfolding emplace_name
  begun a r p =
      let only : emplace_name augment_name (r.0 ∷ []) r.1.rules_cg ≡ (augment_name, r.0 ∷ []) ∷ [] =
        ap (emplace_name augment_name (r.0 ∷ [])) p.grows.rules_cg in
      let n : r.1.grammar_n ≡ 0 = p.grammar_n in
      record {
        sorted = subst Sorted (sym only) (tt, tt);
        compiled =
            subst (All (CompiledAll cg r.1.input.err_n r.1.table)) (sym only)
              ((p.compiled, tt), tt);
        count = ap (λ ps. length (all_rules ps)) only ∙ omega (arith, n);
      }

  -- What is so of a state that the loop over the rules leaves.
  finished : (s : Grammars) → Inv cg s → IsBuilt cg (finish_rules s)
  unfolding finish_rules grammars_size
  finished s inv = record {
    sorted = inv.sorted;
    rule_n = length-initialize_all s.table (all_rules s.rules_cg) ∙ inv.count;
    rule = λ i r got.
        let (g, at_i, is_rule, place) =
          initialize_all-IsRuleOf cg s (all_rules s.rules_cg) i r
            (all_rules-CompiledAll cg s.input.err_n s.table s.rules_cg inv.compiled) got in
        (
          g,
          at_i,
          record { token = is_rule.token; grammar = is_rule.grammar; complete = is_rule.complete },
          place,
        );
  }

  -- The parts of a run: the augment rule, and the loop.
  parts :
      (self : File) (s : Grammars) (a : CgToken)
      → cg_grammars digits cg self ≡ done s
      → get_token cg augment_name ≡ some a
      → (r : CgGrammar × Grammars) × (s' : Grammars) × IsRule cg a
          (augment_rule cg)
          (no_grammars cg)
          r
        × (add_grammars digits cg self.grammar_rules
              (record (r.1) { rules_cg = emplace_name augment_name (r.0 ∷ []) (r.1.rules_cg) })
            ≡ done s')
        × (s ≡ finish_rules s')
  unfolding cg_grammars add_all
  parts self s a h found =
      let (r, e, h₁) =
        >>=-eq-done (cg_grammar digits cg a (augment_rule cg) (no_grammars cg)) _ (sym start ∙ h) in
      let (s', e', h₂) =
        >>=-eq-done
          (add_grammars digits cg self.grammar_rules
            (record (r.1) { rules_cg = emplace_name augment_name (r.0 ∷ []) (r.1.rules_cg) }))
          _ h₁ in
      (
        r,
        s',
        Ensures-done (IsRule cg a (augment_rule cg) (no_grammars cg))
            (cg_grammar-IsRule digits cg a (augment_rule cg) (no_grammars cg)) e,
        e',
        done_eq (sym h₂),
      )
    where
      done_eq : {x y : Grammars} → (done x ≡ done y) → x ≡ y
      done_eq e = cc

      start : cg_grammars digits cg self ≡ add_all digits cg self a
      start = rw (cg_grammars, found) refl

  -- Where TOK_AUGMENT is a token, the grammar is built: the map of the rules is sorted by their names,
  -- there are as many rules as `grammars_size` counts, and each rule of the map has at its place its position, the
  -- number of its token, and a grammar whose first `tok_n` entries are the numbers of its declared
  -- tokens; these are all its tokens if there is no message about an error.
  pub cg_grammars-IsBuilt :
      (self : File) (s : Grammars) (a : CgToken)
      → cg_grammars digits cg self ≡ done s
      → get_token cg augment_name ≡ some a
      → IsBuilt cg s
  cg_grammars-IsBuilt self s a h found =
      let (r, s', p, e, same) = parts self s a h found in
      let (inv, starts) = Ensures-done _ (add_grammars-Inv self.grammar_rules _ (begun a r p)) e in
      subst (IsBuilt cg) (sym same) (finished s' inv)

  -- Where TOK_AUGMENT and the start token are tokens, and no rule has a name that sorts before
  -- "TOK_AUGMENT", rule 0 is the augment rule: it has the number of TOK_AUGMENT, and the start token as
  -- its only token.
  pub cg_grammars-augment_rule :
      (self : File) (s : Grammars) (a t : CgToken)
      → cg_grammars digits cg self ≡ done s
      → get_token cg augment_name ≡ some a
      → get_token cg cg.start_token ≡ some t
      → NotBefore augment_name self.grammar_rules
      → (g : GrammarRule) × (get_elem? s.rules 0 ≡ some g)
        × (g.token ≡ token_number a)
        × (take g.tok_n g.grammar ≡ token_number t ∷ [])
  unfolding emplace_name finish_rules
  cg_grammars-augment_rule self s a t h found start later =
      let (r, s', p, e, same) = parts self s a h found in
      let (inv, starts) = Ensures-done _ (add_grammars-Inv self.grammar_rules _ (begun a r p)) e in
      let (ps, first) =
        starts (augment_name, r.0 ∷ []) later
          ([], ap (emplace_name augment_name (r.0 ∷ [])) p.grows.rules_cg) in
      let built = finished s' inv in
      let (g, at_0, is_rule, place) =
        built.rule 0 (r.0) (ap (λ qs. get_elem? (all_rules qs) 0) first) in
      (
        g,
        ap (λ x. get_elem? x.rules 0) same ∙ at_0,
        is_rule.token ∙ ap token_number p.return_type,
        is_rule.grammar
            ∙ ap (λ proto. symbols cg proto.tokens) p.parent
            ∙ ap (λ o. add_symbol o []) start,
      )
