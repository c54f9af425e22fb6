-- ===== src/Codegen/Declared.antt =====
-- Rules as the grammar's actions build them, and what is freed of them.
use neoast.Common.{◌≡◌, refl, List, [], ◌∷◌, ◌++◌, some, none, done, ◌>>=◌, ap, sym, ◌∙◌}
use neoast.Runtime.Types.{TokenPosition}
use neoast.Codegen.{Name, LexerRuleProto, LexerRules, lexer_rule, no_rules, rule_then}
use neoast.Codegen.Rules.{declare_lexer_rule, declare_state_rule, lexer_rule_free, lexer_rules_free}

-- A rule that the functions of compiler.c build, with its strings in the order of a traversal: a state
-- has rules, and its name comes behind theirs.
mutual
  pub data Declares : LexerRuleProto → List Name → Type 0 where
    declared_rule :
        (p : TokenPosition) (regex action : Name) (r : LexerRuleProto)
        → declare_lexer_rule (some p) (some regex) (some action) ≡ done r
        → Declares r (action ∷ regex ∷ [])
    declared_state :
        (p : TokenPosition) (name : Name) (first : LexerRuleProto) (rest : LexerRules)
        (names : List Name) (r : LexerRuleProto)
        → DeclaresAll (rule_then first rest) names
        → declare_state_rule (some p) (some name) (rule_then first rest) ≡ done r
        → Declares r (names ++ name ∷ [])

  pub data DeclaresAll : LexerRules → List Name → Type 0 where
    declares_none : DeclaresAll no_rules []
    declares_then :
        (r : LexerRuleProto) (rs : LexerRules) (names others : List Name)
        → Declares r names
        → DeclaresAll rs others
        → DeclaresAll (rule_then r rs) (names ++ others)

plain_free :
    (p : TokenPosition) (regex action : Name) (r : LexerRuleProto)
    → declare_lexer_rule (some p) (some regex) (some action) ≡ done r
    → lexer_rule_free r ≡ done (action ∷ regex ∷ [])
unfolding declare_lexer_rule lexer_rule_free
plain_free p regex action r e =
    let same : lexer_rule p none no_rules (some regex) (some action) ≡ r = cc in
    ap lexer_rule_free (sym same)

state_free :
    (p : TokenPosition) (name : Name) (first : LexerRuleProto) (rest : LexerRules)
    (names : List Name) (r : LexerRuleProto)
    → declare_state_rule (some p) (some name) (rule_then first rest) ≡ done r
    → lexer_rules_free (rule_then first rest) ≡ done names
    → lexer_rule_free r ≡ done (names ++ name ∷ [])
unfolding declare_state_rule lexer_rule_free
state_free p name first rest names r e inner =
    let same : lexer_rule p (some name) (rule_then first rest) none none ≡ r = cc in
    ap lexer_rule_free (sym same) ∙ ap (λ o. o >>= λ names. done (names ++ name ∷ [])) inner

then_free :
    (r : LexerRuleProto) (rs : LexerRules) (names others : List Name)
    → lexer_rule_free r ≡ done names
    → lexer_rules_free rs ≡ done others
    → lexer_rules_free (rule_then r rs) ≡ done (names ++ others)
unfolding lexer_rules_free
then_free r rs names others e e' =
    ap (λ o. o >>= λ names. lexer_rules_free rs >>= λ others. done (names ++ others)) e
    ∙ ap (λ o. o >>= λ others. done (names ++ others)) e'

none_free : lexer_rules_free no_rules ≡ done []
unfolding lexer_rules_free
none_free = refl

mutual
  frees_rule :
      (r : LexerRuleProto) (names : List Name) → Declares r names → lexer_rule_free r ≡ done names
  frees_rule _ _ (declared_rule p regex action r e) = plain_free p regex action r e
  frees_rule _ _ (declared_state p name first rest inner r all e) =
      state_free p name first rest inner r e (frees_all (rule_then first rest) inner all)

  frees_all :
      (rs : LexerRules) (names : List Name)
      → DeclaresAll rs names
      → lexer_rules_free rs ≡ done names
  frees_all _ _ declares_none = none_free
  frees_all _ _ (declares_then r rs' these others d ds) =
      then_free r rs' these others (frees_rule r these d) (frees_all rs' others ds)

-- On the rules that `declare_lexer_rule` and `declare_state_rule` build, where a state has rules, no
-- assertion of `lexer_rule_free` fails, and each string is freed, once.
pub lexer_rules_free-DeclaresAll :
    (rs : LexerRules) (names : List Name) → DeclaresAll rs names → lexer_rules_free rs ≡ done names
lexer_rules_free-DeclaresAll rs names d = frees_all rs names d
