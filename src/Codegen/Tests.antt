-- ===== src/Codegen/Tests.antt =====
-- Names, pairs and rules of a small grammar file.
use neoast.Common.{ℕ, zero, suc, ◌≡◌, refl, [], ◌∷◌, ◌++◌, length, true, false, none, some, pos}
use neoast.Common.{arith, done, fault, bounds, replicate, ◌>>=◌}
use neoast.Runtime.Types.{TokenPosition}
use neoast.Codegen.{
  Name, Token, token, token_ascii, type, LexerRules, rule_then, no_rules, lexer_rule,
}
use neoast.Codegen.Tokens.{
  get_ascii_from_name, get_ascii_token_name, build_token, starts_with, ascii_prefix,
}
use neoast.Codegen.Names.{get_ascii_from_name-get_ascii_token_name}
use neoast.Codegen.Pairs.{
  Store, tokens_to_kv, declare_types, declare_tokens, key_val_free, key_val_build, build_pairs,
  build_pair, close_pairs, free_chain,
}
use neoast.Codegen.Chains.{IsPairs, backwards}
use neoast.Codegen.Chains.{live}
use neoast.Codegen.Freed.{key_val_free-tokens_to_kv}
use neoast.Codegen.Built.{entries, tokens_to_kv-IsPairs, tokens_to_kv-refused}
use neoast.Codegen.Rules.{lexer_rules_free, declare_lexer_rule, declare_state_rule}
use neoast.Codegen.Declared.{
  lexer_rules_free-DeclaresAll, declared_rule, declared_state, declares_none, declares_then,
}

-- A number as that many bytes, in place of `%02X` and `strtoul`.
abbrev unary : ℕ → Name
unary n = replicate n 1

length-unary : (n : ℕ) → length (unary n) ≡ n
length-unary zero = refl
length-unary (suc n) = omega (arith, length-unary n)

get_ascii_from_name-get_ascii_token_name_example :
    get_ascii_from_name length (get_ascii_token_name unary (pos b'+')) ≡ done (pos b'+')
get_ascii_from_name-get_ascii_token_name_example =
    get_ascii_from_name-get_ascii_token_name unary length (pos b'+') (λ n small. length-unary n)
      (omega arith)

abbrev here : TokenPosition
here = record { line = 1; col = 2; len = 3 }

abbrev num : Token
num = record { position = here; name = some (b'N' ∷ []); ascii = pos 0 }

num_built : build_token (some here) (b'N' ∷ []) [] ≡ done (some num, [])
unfolding build_token starts_with
num_built = refl

abbrev plus : Token
plus = record { position = here; name = some (ascii_prefix ++ b'2' ∷ b'B' ∷ []); ascii = pos b'+' }

abbrev empty : Store
empty = record { nodes = []; reports = [] }

tokens_to_kv-IsPairs_example :
    (s' : Store) × (declare_tokens (num ∷ plus ∷ []) empty ≡ done (0, s'))
    × IsPairs s' 0 (backwards (entries none token token_ascii true (num ∷ plus ∷ [])) [])
    × (s'.reports ≡ [])
tokens_to_kv-IsPairs_example =
    tokens_to_kv-IsPairs none token token_ascii true num (plus ∷ []) empty refl

tokens_to_kv-refused_example :
    declare_types (some (b'i' ∷ [])) (plus ∷ num ∷ []) empty ≡ fault bounds
tokens_to_kv-refused_example =
    tokens_to_kv-refused (some (b'i' ∷ [])) type type false plus (num ∷ []) empty refl

-- A state with one rule.
abbrev in_state : LexerRules
in_state =
    rule_then
      (lexer_rule here (some (b'S' ∷ []))
        (rule_then (lexer_rule here none no_rules (some (b'r' ∷ [])) (some (b'a' ∷ []))) no_rules)
        none none)
      no_rules

lexer_rules_free-DeclaresAll_example :
    lexer_rules_free in_state ≡ done ((b'a' ∷ []) ∷ (b'r' ∷ []) ∷ (b'S' ∷ []) ∷ [])
unfolding declare_lexer_rule declare_state_rule
lexer_rules_free-DeclaresAll_example =
    lexer_rules_free-DeclaresAll in_state ((b'a' ∷ []) ∷ (b'r' ∷ []) ∷ (b'S' ∷ []) ∷ []) (
      declares_then
        (lexer_rule here (some (b'S' ∷ []))
          (rule_then (lexer_rule here none no_rules (some (b'r' ∷ [])) (some (b'a' ∷ []))) no_rules)
          none none)
        no_rules ((b'a' ∷ []) ∷ (b'r' ∷ []) ∷ (b'S' ∷ []) ∷ []) []
        (declared_state here (b'S' ∷ [])
          (lexer_rule here none no_rules (some (b'r' ∷ [])) (some (b'a' ∷ []))) no_rules
          ((b'a' ∷ []) ∷ (b'r' ∷ []) ∷ [])
          (lexer_rule here (some (b'S' ∷ []))
            (rule_then (lexer_rule here none no_rules (some (b'r' ∷ [])) (some (b'a' ∷ [])))
              no_rules)
            none none)
          (declares_then (lexer_rule here none no_rules (some (b'r' ∷ [])) (some (b'a' ∷ [])))
            no_rules ((b'a' ∷ []) ∷ (b'r' ∷ []) ∷ []) []
            (declared_rule here (b'r' ∷ []) (b'a' ∷ [])
              (lexer_rule here none no_rules (some (b'r' ∷ [])) (some (b'a' ∷ []))) refl)
            declares_none)
          refl)
        declares_none)

-- The pairs of a list are freed by way of the `back` of the first.
freed :
    (tokens_to_kv (num ∷ plus ∷ []) none token token_ascii true empty >>= λ r.
    key_val_free 2 (r.0) (r.1))
    ≡ done (some (record { nodes = none ∷ none ∷ []; reports = [] }))
unfolding tokens_to_kv build_pairs build_pair key_val_build close_pairs key_val_free free_chain
freed = refl

key_val_free-tokens_to_kv_example :
    (s' : Store) × ((tokens_to_kv (num ∷ plus ∷ []) none token token_ascii true empty >>= λ r.
    key_val_free 2 (r.0) (r.1))
      ≡ done (some s'))
    × (live s'.nodes ≡ 0)
key_val_free-tokens_to_kv_example =
    key_val_free-tokens_to_kv none token token_ascii true num (plus ∷ []) empty refl refl
