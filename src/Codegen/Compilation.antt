-- ===== src/Codegen/Compilation.antt =====
-- About one step of the loop over the rules in src/codegen/cg_grammar.cc.
use neoast.Common.{
  ℕ, ◌+◌, ◌≡◌, refl, ap, sym, ◌∙◌, subst, List, [], ◌∷◌, length, false, Option, none, some, arith,
  Ensures, Ensures-map, Ensures-bind, Bool-cases, inl, inr,
}
use mathlib.Core.List.{append-nil}
use neoast.Runtime.Types.{TokenPosition}
use neoast.Codegen.{Name, GrammarRuleProto}
use neoast.Codegen.Lines.{Notice, no_token_for_rule, action_as_rule, repeated_rule}
use neoast.Codegen.Classes.{CgToken, is_cg_action}
use neoast.Codegen.Impl.{CodeGenImpl, get_token, lookup_name}
use neoast.Codegen.Grammars.{
  CgGrammar, Grammars, all_rules, lt_name, emplace_name, complain, add_singles, add_grammar,
}
use neoast.Codegen.Ordered.{
  Sorted, Sorted-emplace_name, All, All-emplace_name, All-map, length-all_rules, emplace_name-first,
}
use neoast.Codegen.Pushed.{complain-Same}
use neoast.Codegen.Compiled.{CompiledAll, CompiledAll-grow, Inv, AreRules, add_singles-AreRules}

-- The names of rules do not sort before `k`.
abbrev pub NotBefore : Name → List GrammarRuleProto → Type 0
NotBefore k [] = Unit
NotBefore k (iter ∷ iters) =
    ((name : Name) → iter.name ≡ some name → lt_name name k ≡ false) × NotBefore k iters

-- The rules of the map start with the entry `p`.
abbrev pub Starts : Name × List CgGrammar → Grammars → Type 0
Starts p s = (ps : List (Name × List CgGrammar)) × (s.rules_cg ≡ p ∷ ps)

module _ (digits : ℕ → ℕ) (cg : CodeGenImpl) where
  -- A message leaves the rules as they are.
  complain-Inv :
      (at : Option TokenPosition) (what : Notice) (s : Grammars)
      → Inv cg s
      → Ensures (λ s'. Inv cg s' × (s'.rules_cg ≡ s.rules_cg)) (complain digits at what s)
  complain-Inv at what s inv =
      Ensures-map (complain digits at what s)
        (λ s' (errors, table, same). (
          record {
            sorted = subst Sorted (sym same.rules_cg) inv.sorted;
            compiled = subst (All (CompiledAll cg s'.input.err_n s'.table)) (sym same.rules_cg) (
                All-map (CompiledAll cg s.input.err_n s.table)
                  (CompiledAll cg s'.input.err_n s'.table)
                  (CompiledAll-grow cg s s' (record {
                    added = [];
                    table = table ∙ sym (append-nil s.table);
                    errors_stay = same.errors_stay;
                    rules_cg = same.rules_cg;
                  }))
                  s.rules_cg inv.compiled);
            count =
                ap (λ ps. length (all_rules ps)) same.rules_cg
                ∙ inv.count
                ∙ ap (λ n. n + 1) (sym same.grammar_n);
          },
          same.rules_cg,
        ))
        (complain-Same digits at what s)

  -- The rules of one errors_stay name.
  emplaced-Inv :
      (name : Name) (s : Grammars) (r : List CgGrammar × Grammars)
      → lookup_name name s.rules_cg ≡ none
      → Inv cg s
      → AreRules digits cg s r
      → Inv cg (record (r.1) { rules_cg = emplace_name name (r.0) (r.1.rules_cg) })
  emplaced-Inv name s r new inv p =
      let rules_cg = p.grows.rules_cg in
      record {
        sorted =
            Sorted-emplace_name name (r.0) r.1.rules_cg (subst Sorted (sym rules_cg) inv.sorted);
        compiled =
            All-emplace_name (CompiledAll cg r.1.input.err_n r.1.table) name (r.0) r.1.rules_cg
              p.compiled
              (subst (All (CompiledAll cg r.1.input.err_n r.1.table)) (sym rules_cg) (
                All-map (CompiledAll cg s.input.err_n s.table)
                  (CompiledAll cg r.1.input.err_n r.1.table) (CompiledAll-grow cg s (r.1) p.grows)
                  s.rules_cg inv.compiled));
        count = omega (
          arith,
          length-all_rules name (r.0) r.1.rules_cg (ap (lookup_name name) rules_cg ∙ new),
          ap (λ ps. length (all_rules ps)) rules_cg,
          inv.count,
          p.grammar_n,
        );
      }

  -- An entry that is first stays first, if the name does not sort before its name.
  pub add_grammar-Inv :
      (iter : GrammarRuleProto) (s : Grammars)
      → Inv cg s
      → Ensures
          (λ s'.
            Inv cg s'
            × ((p : Name × List CgGrammar)
                → ((name : Name) → iter.name ≡ some name → lt_name name (p.0) ≡ false)
                → Starts p s
                → Starts p s'))
          (add_grammar digits cg iter s)
  unfolding add_grammar
  add_grammar-Inv iter s inv = named iter.name refl
    where
      P : Grammars → Type 0
      P s' =
          Inv cg s'
          × ((p : Name × List CgGrammar)
              → ((name : Name) → iter.name ≡ some name → lt_name name (p.0) ≡ false)
              → Starts p s
              → Starts p s')

      complained : (what : Notice) → Ensures P (complain digits (some iter.position) what s)
      complained what =
          Ensures-map (complain digits (some iter.position) what s)
            (λ s' (inv', same). (inv', λ p later (ps, starts). (ps, same ∙ starts)))
            (complain-Inv (some iter.position) what s inv)

      emplaced :
          (name : Name)
          → iter.name ≡ some name
          → lookup_name name s.rules_cg ≡ none
          → (r : List CgGrammar × Grammars) → AreRules digits cg s r
          → P (record (r.1) { rules_cg = emplace_name name (r.0) (r.1.rules_cg) })
      emplaced name e new r p = (
        emplaced-Inv name s r new inv p,
        λ q later (ps, starts).
            let (qs, first) = emplace_name-first name (r.0) q ps (later name e) in
            (qs, ap (emplace_name name (r.0)) (p.grows.rules_cg ∙ starts) ∙ first),
      )

      fresh :
          (name : Name)
          → iter.name ≡ some name
          → (tok : CgToken) → get_token cg name ≡ some tok
          → is_cg_action tok ≡ false
          → (o : Option (List CgGrammar)) → lookup_name name s.rules_cg ≡ o
          → Ensures P (add_grammar digits cg iter s)
      fresh name e tok e' b (some other) e'' =
          rw (e, e', b, e'', Ensures) (complained repeated_rule)
      fresh name e tok e' b none e'' =
          rw (e, e', b, e'', Ensures)
            (Ensures-bind P (AreRules digits cg s) (add_singles digits cg tok iter.rules s) _
              (add_singles-AreRules digits cg tok iter.rules s) (emplaced name e e''))

      known :
          (name : Name)
          → iter.name ≡ some name
          → (o : Option CgToken) → get_token cg name ≡ o
          → Ensures P (add_grammar digits cg iter s)
      known name e none e' = rw (e, e', Ensures) (complained no_token_for_rule)
      known name e (some tok) e' = elim (Bool-cases (is_cg_action tok)) [
        | inl b ↦ rw (e, e', b, Ensures) (complained action_as_rule)
        | inr b ↦ fresh name e tok e' b (lookup_name name s.rules_cg) refl
      ]

      named : (o : Option Name) → iter.name ≡ o → Ensures P (add_grammar digits cg iter s)
      named none e = rw (e, Ensures) tt
      named (some name) e = known name e (get_token cg name) refl
