-- ===== src/Codegen.antt =====
-- The structures of src/codegen/codegen.h, of which the parser of grammar files builds what it has
-- read. A string is the list of its bytes, or `none` for a null pointer; a list that is linked by
-- `next` alone is a list.
pub mod Tokens
pub mod Pairs
pub mod Rules
pub mod Chains
pub mod Built
pub mod Freed
pub mod Names
pub mod Declared
pub mod Lines
pub mod LinesLaws
pub mod Classes
pub mod Impl
pub mod Header
pub mod InOrder
pub mod HeaderSteps
pub mod FirstRound
pub mod SecondRound
pub mod Numbered
pub mod Grammars
pub mod Ordered
pub mod Pushed
pub mod Compiled
pub mod Compilation
pub mod GrammarTable
pub mod Emitted
mod Tests
mod GenTests
use neoast.Common.{ℕ, List, Option, ℤ}
use neoast.Runtime.Types.{TokenPosition}

abbrev pub Name : Type 0
Name = List ℕ

-- `key_val_t`.
pub data KeyValKind : Type 0 where
  top bottom option token token_ascii token_type type left right : KeyValKind
  macro start union destructor lexer include : KeyValKind

-- `struct Token`; `ascii` is a `char`.
pub record Token : Type 0 where
  pub position : TokenPosition
  pub name : Option Name
  pub ascii : ℤ

-- `struct KeyVal_`: `back` and `next` are indices of the nodes that are allocated.
pub record KeyVal : Type 0 where
  pub position : TokenPosition
  pub kind : KeyValKind
  pub key : Option Name
  pub value : Option Name
  pub back : Option ℕ
  pub next : Option ℕ

-- `struct LexerRuleProto`, and the lists of them.
mutual
  pub data LexerRuleProto : Type 0 where
    lexer_rule :
        (position : TokenPosition) (lexer_state : Option Name) (state_rules : LexerRules)
        (regex function : Option Name)
        → LexerRuleProto

  pub data LexerRules : Type 0 where
    no_rules : LexerRules
    rule_then : LexerRuleProto → LexerRules → LexerRules

-- `struct GrammarRuleSingleProto`.
pub record GrammarRuleSingleProto : Type 0 where
  pub position : TokenPosition
  pub tokens : List Token
  pub function : Option Name

-- `struct GrammarRuleProto`.
pub record GrammarRuleProto : Type 0 where
  pub position : TokenPosition
  pub name : Option Name
  pub rules : List GrammarRuleSingleProto

-- `struct File`.
pub record File : Type 0 where
  pub header : Option ℕ
  pub lexer_rules : LexerRules
  pub grammar_rules : List GrammarRuleProto

-- What `emit_error` was called with.
pub data Message : Type 0 where
  ascii_not_allowed reserved_name : Message

abbrev pub Report : Type 0
Report = Option TokenPosition × Message
