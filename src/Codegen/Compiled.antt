-- ===== src/Codegen/Compiled.antt =====
-- About the rules that `CGGrammars` of src/codegen/cg_grammar.cc holds, and their parts of its table.
use neoast.Common.{
  ℕ, ◌+◌, ◌-◌, ◌≤◌, ◌≡◌, refl, ap, sym, ◌∙◌, List, [], ◌∷◌, ◌++◌, length, take, drop, arith,
  Ensures, Ensures-map, Ensures-then, Ensures-bind, length-append, take-append_le, drop-append_le,
  drop-append_ge, length-drop, take-length,
}
use mathlib.Core.List.{append-nil, append_assoc}
use neoast.Codegen.{GrammarRuleSingleProto}
use neoast.Codegen.Classes.{CgToken, type_of_grammar}
use neoast.Codegen.Impl.{CodeGenImpl}
use neoast.Codegen.Grammars.{CgGrammar, Grammars, all_rules, push_tokens, cg_grammar, add_singles}
use neoast.Codegen.Ordered.{Sorted, All}
use neoast.Codegen.Pushed.{symbols, push_tokens-Pushed}

-- `e` is the number of messages about errors.
pub record Compiled (cg : CodeGenImpl) (e : ℕ) (table : List ℕ) (rule : CgGrammar) : Type 0 where
  pub fits : rule.table_offset + rule.token_n ≤ length table
  pub in_table : take rule.token_n (drop rule.table_offset table) ≡ symbols cg rule.parent.tokens
  pub complete : e ≡ 0 → rule.token_n ≡ length rule.parent.tokens

abbrev pub CompiledAll : CodeGenImpl → ℕ → List ℕ → List CgGrammar → Type 0
CompiledAll cg e table [] = Unit
CompiledAll cg e table (rule ∷ rules) = Compiled cg e table rule × CompiledAll cg e table rules

-- The table only grows at its end.
pub record Grows (s s' : Grammars) : Type 0 where
  pub added : List ℕ
  pub table : s'.table ≡ s.table ++ added
  pub errors_stay : s.input.err_n ≤ s'.input.err_n
  pub rules_cg : s'.rules_cg ≡ s.rules_cg

Grows-trans : (s s' s'' : Grammars) → Grows s s' → Grows s' s'' → Grows s s''
Grows-trans s s' s'' p q = record {
  added = p.added ++ q.added;
  table = q.table ∙ ap (λ t. t ++ q.added) p.table ∙ append_assoc s.table p.added q.added;
  errors_stay = omega (arith, p.errors_stay, q.errors_stay);
  rules_cg = q.rules_cg ∙ p.rules_cg;
}

module _ (cg : CodeGenImpl) (s s' : Grammars) (grows : Grows s s') where
  -- A rule keeps its in_table.
  Compiled-grow :
      (rule : CgGrammar)
      → Compiled cg s.input.err_n s.table rule
      → Compiled cg s'.input.err_n s'.table rule
  Compiled-grow rule p = record {
    fits = omega (arith, p.fits, ap length grows.table, length-append s.table grows.added);
    in_table =
        ap (λ t. take rule.token_n (drop rule.table_offset t)) grows.table
        ∙ ap (take rule.token_n)
            (drop-append_le rule.table_offset s.table grows.added (omega (arith, p.fits)))
        ∙ take-append_le rule.token_n (drop rule.table_offset s.table) grows.added
            (omega (arith, p.fits, length-drop rule.table_offset s.table))
        ∙ p.in_table;
    complete = λ clean. p.complete (omega (arith, clean, grows.errors_stay));
  }

  pub CompiledAll-grow :
      (rules : List CgGrammar)
      → CompiledAll cg s.input.err_n s.table rules
      → CompiledAll cg s'.input.err_n s'.table rules
  CompiledAll-grow [] all = tt
  CompiledAll-grow (rule ∷ rules) (first, others) =
      (Compiled-grow rule first, CompiledAll-grow rules others)

-- The state between two rules of a file.
pub record Inv (cg : CodeGenImpl) (s : Grammars) : Type 0 where
  pub sorted : Sorted s.rules_cg
  pub compiled : All (CompiledAll cg s.input.err_n s.table) s.rules_cg
  pub count : length (all_rules s.rules_cg) ≡ s.grammar_n + 1

-- What `cg_grammar` has made of a rule.
pub record IsRule (cg : CodeGenImpl) (tok : CgToken) (self : GrammarRuleSingleProto) (s : Grammars)
    (r : CgGrammar × Grammars) : Type 0 where
  pub parent : r.0.parent ≡ self
  pub return_type : r.0.return_type ≡ tok
  pub compiled : Compiled cg r.1.input.err_n r.1.table (r.0)
  pub grows : Grows s (r.1)
  pub grammar_n : r.1.grammar_n ≡ s.grammar_n

module _ (digits : ℕ → ℕ) (cg : CodeGenImpl) where
  pub cg_grammar-IsRule :
      (tok : CgToken) (self : GrammarRuleSingleProto) (s : Grammars)
      → Ensures (IsRule cg tok self s) (cg_grammar digits cg tok self s)
  unfolding cg_grammar
  cg_grammar-IsRule tok self s = Ensures-then (IsRule cg tok self s) (type_of_grammar tok) _ (λ ty.
      Ensures-map (push_tokens digits cg self.tokens _)
        (λ r p.
          let n : r.0.token_n ≡ length (symbols cg self.tokens) = omega (arith, p.token_n) in
          let nothing : length s.table - length s.table ≡ 0 = omega arith in
          let grown : length r.1.table ≡ length s.table + length (symbols cg self.tokens) =
            ap length p.table ∙ length-append s.table (symbols cg self.tokens) in
          record {
            parent = p.parent;
            return_type = p.return_type;
            compiled = record {
              fits = omega (arith, n, p.table_offset, grown);
              in_table =
                  ap (λ k. take k (drop r.0.table_offset r.1.table)) n
                  ∙ ap (take (length (symbols cg self.tokens))) (
                      ap (λ k. drop k r.1.table) p.table_offset
                      ∙ ap (drop (length s.table)) p.table
                      ∙ drop-append_ge (length s.table) s.table (symbols cg self.tokens)
                          (omega arith)
                      ∙ ap (λ k. drop k (symbols cg self.tokens)) nothing)
                  ∙ take-length (symbols cg self.tokens)
                  ∙ ap (λ proto. symbols cg proto.tokens) (sym p.parent);
              complete =
                  λ clean. n ∙ p.complete clean ∙ ap (λ proto. length proto.tokens) (sym p.parent);
            };
            grows = record {
              added = symbols cg self.tokens;
              table = p.table;
              errors_stay = p.same.errors_stay;
              rules_cg = p.same.rules_cg;
            };
            grammar_n = p.same.grammar_n;
          })
        (push_tokens-Pushed digits cg self.tokens _ s))

  -- What `add_singles` has made of the rules of a name.
  pub record AreRules (s : Grammars) (r : List CgGrammar × Grammars) : Type 0 where
    pub compiled : CompiledAll cg r.1.input.err_n r.1.table (r.0)
    pub grows : Grows s (r.1)
    pub grammar_n : r.1.grammar_n ≡ s.grammar_n + length (r.0)

  pub add_singles-AreRules :
      (tok : CgToken) (selves : List GrammarRuleSingleProto) (s : Grammars)
      → Ensures (AreRules s) (add_singles digits cg tok selves s)
  unfolding add_singles
  add_singles-AreRules tok [] s = record {
    compiled = tt;
    grows = record {
      added = [];
      table = sym (append-nil s.table);
      errors_stay = omega arith;
      rules_cg = refl;
    };
    grammar_n = omega arith;
  }
  add_singles-AreRules tok (self ∷ selves) s =
      Ensures-bind (AreRules s) (IsRule cg tok self s) (cg_grammar digits cg tok self s) _
        (cg_grammar-IsRule tok self s)
        (λ r p.
          let s₁ = record (r.1) { grammar_n = r.1.grammar_n + 1 } in
          Ensures-bind (AreRules s) (AreRules s₁) (add_singles digits cg tok selves s₁) _
            (add_singles-AreRules tok selves s₁)
            (λ rest q.
              let grows₁ : Grows s s₁ = record {
                added = p.grows.added;
                table = p.grows.table;
                errors_stay = p.grows.errors_stay;
                rules_cg = p.grows.rules_cg;
              } in
              record {
                compiled = (Compiled-grow cg s₁ (rest.1) q.grows (r.0) p.compiled, q.compiled);
                grows = Grows-trans s s₁ (rest.1) grows₁ q.grows;
                grammar_n = omega (arith, p.grammar_n, q.grammar_n);
              }))
