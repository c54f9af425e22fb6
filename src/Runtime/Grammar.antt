-- ===== src/Runtime/Grammar.antt =====
-- The language of a parser's grammar, in the columns of its table: what `parser_parse_lr` is meant
-- to accept.
pub mod Yields
use neoast.Common.{ℕ, ◌-◌, ◌<◌, ◌≡◌, List, [], ◌∷◌, ◌++◌, map, get_elem?, get_or, some, ltb}
use neoast.Common.{if◌then◌else◌}
use neoast.Runtime.Types.{GrammarRule, GrammarParser}
use neoast.Runtime.Table.{ascii_max}

module _ (parser : GrammarParser) where
  -- The column of a grammar symbol: a character goes through the mappings first.
  abbrev pub column : ℕ → ℕ
  column token =
      (if ltb token ascii_max then get_or parser.ascii_mappings token 0 else token) - ascii_max

  abbrev pub result : GrammarRule → ℕ
  result rule = rule.token - ascii_max

  abbrev pub right_side : GrammarRule → List ℕ
  right_side rule = map column rule.grammar

  mutual
    -- A symbol derives a word of tokens.
    pub data Derives : ℕ → List ℕ → Type 0 where
      leaf : (t : ℕ) → t < parser.action_token_n → Derives t (t ∷ [])
      node :
          (r : ℕ) (rule : GrammarRule) (w : List ℕ)
          → get_elem? parser.grammar_rules r ≡ some rule
          → DerivesAll (right_side rule) w
          → Derives (result rule) w

    -- The symbols of a list derive the parts of a word.
    pub data DerivesAll : List ℕ → List ℕ → Type 0 where
      nil : DerivesAll [] []
      cons :
          {x : ℕ} {xs u v : List ℕ} → Derives x u → DerivesAll xs v → DerivesAll (x ∷ xs) (u ++ v)
