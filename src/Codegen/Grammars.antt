-- ===== src/Codegen/Grammars.antt =====
-- `CGGrammar` and `CGGrammars` of src/codegen/cg_grammar.cc: the table of the grammar that the rules
-- of a file are compiled to. A map from strings is a list in the order of its keys, which are compared
-- byte by byte; a pointer into the table is the rest of the table from there on.
use neoast.Common.{
  ℕ, ◌+◌, List, [], ◌∷◌, ◌++◌, length, drop, Bool, true, false, ◌==◌, ltb, Option, none, some, pos,
  if◌then◌else◌, Outcome, done, ◌>>=◌, deref,
}
use neoast.Runtime.Types.{TokenPosition, GrammarRule}
use neoast.Runtime.Table.{ascii_max}
use neoast.Codegen.{Name, Token, GrammarRuleSingleProto, GrammarRuleProto, File}
use neoast.Codegen.Lines.{
  InputFile, Notice, emit_error, undeclared_token, no_augment_token, no_token_for_rule,
  action_as_rule, repeated_rule,
}
use neoast.Codegen.Classes.{
  no_position, Code, CgToken, type_of_grammar, is_cg_action, type_of, or_empty,
}
use neoast.Codegen.Impl.{CodeGenImpl, get_token, lookup_name, augment_name}

-- `CGGrammar`: a rule, whose tokens are `token_n` entries of the table from `table_offset` on.
pub record CgGrammar : Type 0 where
  pub parent : GrammarRuleSingleProto
  pub return_type : CgToken
  pub argument_types : List Name
  pub action : Code
  pub table_offset : ℕ
  pub token_n : ℕ

-- `CGGrammarsImpl`, with the input file that messages go to.
pub record Grammars : Type 0 where
  pub input : InputFile
  pub table : List ℕ
  pub rules_cg : List (Name × List CgGrammar)
  pub rules : List GrammarRule
  pub rule_positions : List TokenPosition
  pub grammar_n : ℕ

-- `<` of strings.
unfoldable pub lt_name : Name → Name → Bool
lt_name [] [] = false
lt_name [] (b ∷ bs) = true
lt_name (a ∷ as_) [] = false
lt_name (a ∷ as_) (b ∷ bs) = if ltb a b then true else if a == b then lt_name as_ bs else false

-- `emplace_name` of a map from strings: an entry that is there stays.
unfoldable pub emplace_name : {A : Type 0} → Name → A → List (Name × A) → List (Name × A)
unfolding lt_name
emplace_name k a [] = (k, a) ∷ []
emplace_name k a (p ∷ ps) =
    if lt_name k (p.0)
    then (k, a) ∷ p ∷ ps
    else if lt_name (p.0) k
    then p ∷ emplace_name k a ps
    else p ∷ ps

-- The number of a token in the table.
abbrev pub token_number : CgToken → ℕ
token_number t = t.id + ascii_max

unfoldable pub initialize_grammar : List ℕ → CgGrammar → GrammarRule
initialize_grammar table rule = record {
  token = token_number rule.return_type;
  tok_n = rule.token_n;
  grammar = drop rule.table_offset table;
}

-- The rules in the order of the map.
abbrev pub all_rules : List (Name × List CgGrammar) → List CgGrammar
all_rules [] = []
all_rules (p ∷ ps) = p.1 ++ all_rules ps

unfoldable pub initialize_all : List ℕ → List CgGrammar → List GrammarRule
unfolding initialize_grammar
initialize_all table [] = []
initialize_all table (rule ∷ rules) = initialize_grammar table rule ∷ initialize_all table rules

abbrev pub positions_of : List CgGrammar → List TokenPosition
positions_of [] = []
positions_of (rule ∷ rules) = rule.parent.position ∷ positions_of rules

-- The end of the constructor.
unfoldable pub finish_rules : Grammars → Grammars
unfolding initialize_all
finish_rules s = record s {
  rules = initialize_all s.table (all_rules s.rules_cg);
  rule_positions = positions_of (all_rules s.rules_cg);
}

-- `augment_rule_single_tok`.
abbrev pub augment_rule : CodeGenImpl → GrammarRuleSingleProto
augment_rule cg = record {
  position = no_position;
  tokens = (record { position = no_position; name = some cg.start_token; ascii = pos 0 }) ∷ [];
  function = none;
}

abbrev pub no_grammars : CodeGenImpl → Grammars
no_grammars cg = record {
  input = cg.input;
  table = [];
  rules_cg = [];
  rules = [];
  rule_positions = [];
  grammar_n = 0;
}

-- `CGGrammars::size`.
unfoldable pub grammars_size : Grammars → ℕ
grammars_size s = s.grammar_n + 1

module _ (digits : ℕ → ℕ) where
  unfoldable pub complain : Option TokenPosition → Notice → Grammars → Outcome Grammars
  unfolding emit_error
  complain p what s = emit_error digits s.input p what >>= λ f. done (record s { input = f })

  -- The loop over the tokens of a rule.
  unfoldable pub push_tokens :
      CodeGenImpl → List Token → CgGrammar × Grammars → Outcome (CgGrammar × Grammars)
  unfolding get_token complain
  push_tokens cg [] r = done r
  push_tokens cg (iter ∷ iters) (rule, s) = deref iter.name >>= λ name. elim (get_token cg name) [
    | none ↦
        complain (some iter.position) undeclared_token s >>= λ s'. push_tokens cg iters (rule, s')
    | some t ↦ push_tokens cg iters (
      record rule {
        token_n = rule.token_n + 1;
        argument_types = rule.argument_types ++ type_of t ∷ [];
      },
      record s { table = s.table ++ token_number t ∷ [] },
    )
  ]

  -- The constructor of `CGGrammar`.
  unfoldable pub cg_grammar :
      CodeGenImpl → CgToken → GrammarRuleSingleProto → Grammars → Outcome (CgGrammar × Grammars)
  unfolding push_tokens
  cg_grammar cg return_type self s = type_of_grammar return_type >>= λ ty.
      push_tokens cg self.tokens (
        record {
          parent = self;
          return_type = return_type;
          argument_types = ty ∷ [];
          action = record { code = or_empty self.function; position = self.position };
          table_offset = length s.table;
          token_n = 0;
        },
        s,
      )

  -- The loop over the rules of one name.
  unfoldable pub add_singles :
      CodeGenImpl
      → CgToken
      → List GrammarRuleSingleProto
      → Grammars
      → Outcome (List CgGrammar × Grammars)
  unfolding cg_grammar
  add_singles cg return_type [] s = done ([], s)
  add_singles cg return_type (self ∷ selves) s = cg_grammar cg return_type self s >>= λ r.
      add_singles cg return_type selves (record (r.1) { grammar_n = r.1.grammar_n + 1 }) >>= λ rest.
      done (r.0 ∷ rest.0, rest.1)

  unfoldable pub add_grammar : CodeGenImpl → GrammarRuleProto → Grammars → Outcome Grammars
  unfolding get_token complain add_singles emplace_name
  add_grammar cg iter s = deref iter.name >>= λ name. elim (get_token cg name) [
    | none ↦ complain (some iter.position) no_token_for_rule s
    | some tok ↦
        if is_cg_action tok
        then complain (some iter.position) action_as_rule s
        else elim (lookup_name name s.rules_cg) [
          | some other ↦ complain (some iter.position) repeated_rule s
          | none ↦ add_singles cg tok iter.rules s >>= λ r.
              done (record (r.1) { rules_cg = emplace_name name (r.0) (r.1.rules_cg) })
        ]
  ]

  -- The loop over the rules of the file.
  unfoldable pub add_grammars : CodeGenImpl → List GrammarRuleProto → Grammars → Outcome Grammars
  unfolding add_grammar
  add_grammars cg [] s = done s
  add_grammars cg (iter ∷ iters) s = add_grammar cg iter s >>= λ s'. add_grammars cg iters s'

  -- What the constructor of `CGGrammars` does with the token of the augment rule.
  unfoldable pub add_all : CodeGenImpl → File → CgToken → Outcome Grammars
  unfolding cg_grammar emplace_name add_grammars finish_rules
  add_all cg self tok_augment_return =
      cg_grammar cg tok_augment_return (augment_rule cg) (no_grammars cg) >>= λ r.
      add_grammars cg self.grammar_rules
        (record (r.1) { rules_cg = emplace_name augment_name (r.0 ∷ []) (r.1.rules_cg) })
      >>= λ s. done (finish_rules s)

  -- The constructor.
  unfoldable pub cg_grammars : CodeGenImpl → File → Outcome Grammars
  unfolding get_token complain add_all
  cg_grammars cg self = elim (get_token cg augment_name) [
    | none ↦ complain none no_augment_token (no_grammars cg)
    | some tok ↦ add_all cg self tok
  ]
