-- ===== src/Codegen/Rules.antt =====
-- The rules and the file of src/codegen/compiler.c, and what src/codegen/common.c frees of them.
use neoast.Common.{ℕ, List, [], ◌∷◌, ◌++◌, Bool, true, false, not, Option, none, some}
use neoast.Common.{Outcome, done, ◌>>=◌, ◌>>◌, assert, deref}
use neoast.Runtime.Types.{TokenPosition}
use neoast.Codegen.{
  Name, Token, LexerRuleProto, LexerRules, lexer_rule, no_rules, rule_then, GrammarRuleSingleProto,
  GrammarRuleProto, File,
}
use neoast.Codegen.Tokens.{given, tokens_free}
use neoast.Codegen.Pairs.{Store, is_some, key_val_free}

unfoldable pub declare_state_rule :
    Option TokenPosition → Option Name → LexerRules → Outcome LexerRuleProto
declare_state_rule p state_name rules = do
  at ← given p
  done (lexer_rule at state_name rules none none)

unfoldable pub declare_lexer_rule :
    Option TokenPosition → Option Name → Option Name → Outcome LexerRuleProto
declare_lexer_rule p regex action = do at ← given p; done (lexer_rule at none no_rules regex action)

unfoldable pub declare_single_grammar :
    Option TokenPosition → List Token → Option Name → Outcome GrammarRuleSingleProto
declare_single_grammar p tokens action = do
  at ← given p
  done (record { position = at; tokens = tokens; function = action })

unfoldable pub declare_grammar :
    Option TokenPosition → Option Name → List GrammarRuleSingleProto → Outcome GrammarRuleProto
declare_grammar p name grammars = do
  at ← given p
  done (record { position = at; name = name; rules = grammars })

unfoldable pub declare_file : Option ℕ → LexerRules → List GrammarRuleProto → File
declare_file header lexer_rules grammars = record {
  header = header;
  lexer_rules = lexer_rules;
  grammar_rules = grammars;
}

abbrev pub has_rules : LexerRules → Bool
has_rules no_rules = false
has_rules (rule_then r rs) = true

-- `lexer_rule_free` of the rules of a list: the strings that are freed, in order.
unfoldable mutual
  pub lexer_rule_free : LexerRuleProto → Outcome (List Name)
  lexer_rule_free (lexer_rule p (some state) rules regex function) =
      assert (not (is_some function))
      >> (assert (not (is_some regex))
          >> (assert (has_rules rules)
              >> (do inner ← lexer_rules_free rules; done (inner ++ state ∷ []))))
  lexer_rule_free (lexer_rule p none rules none none) = assert false >> done []
  lexer_rule_free (lexer_rule p none rules (some r) none) = assert false >> done []
  lexer_rule_free (lexer_rule p none rules none (some f)) = assert false >> done []
  lexer_rule_free (lexer_rule p none rules (some r) (some f)) =
      assert (not (has_rules rules)) >> done (f ∷ r ∷ [])

  pub lexer_rules_free : LexerRules → Outcome (List Name)
  lexer_rules_free no_rules = done []
  lexer_rules_free (rule_then r rs) = do
    first ← lexer_rule_free r
    rest ← lexer_rules_free rs
    done (first ++ rest)

unfoldable pub grammar_rule_single_free : List GrammarRuleSingleProto → Outcome (List Name)
unfolding tokens_free
grammar_rule_single_free [] = done []
grammar_rule_single_free (r ∷ rs) = do
  function ← given r.function
  rest ← grammar_rule_single_free rs
  done (function ∷ tokens_free r.tokens ++ rest)

unfoldable pub grammar_rule_multi_free : List GrammarRuleProto → Outcome (List Name)
unfolding grammar_rule_single_free
grammar_rule_multi_free [] = done []
grammar_rule_multi_free (r ∷ rs) = do
  name ← given r.name
  rules ← grammar_rule_single_free r.rules
  rest ← grammar_rule_multi_free rs
  done (name ∷ rules ++ rest)

-- `file_free`: the store without the header's nodes, if the fuel was enough, and the strings of the
-- rules.
unfoldable pub file_free : ℕ → File → Store → Outcome (Option Store × List Name)
unfolding key_val_free lexer_rules_free grammar_rule_multi_free
file_free fuel f s = do
  header ← deref f.header
  s' ← key_val_free fuel header s
  lexer ← lexer_rules_free f.lexer_rules
  grammar ← grammar_rule_multi_free f.grammar_rules
  done (s', lexer ++ grammar)
