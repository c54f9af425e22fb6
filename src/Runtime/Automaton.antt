-- ===== src/Runtime/Automaton.antt =====
-- What `parser_parse_lr` is meant to do: the LR automaton over a stack of (state, symbol, value)
-- frames, with no buffers and no indices, as a step relation.
use neoast.Common.{ℕ, zero, suc, ◌-◌, ◌≤◌, List, [], ◌∷◌, length, drop, get_elem?, some, bit_and}
use neoast.Common.{◌≡◌, ℤ, pos, done, ◌++◌}
use neoast.Runtime.Types.{Value, GrammarRule, GrammarParser}
use neoast.Runtime.Table.{ascii_max, tok_mask, classify, table_from_matrix, Action}
use neoast.Runtime.Client.{Client}

pub record Frame (U : Type 0) : Type 0 where
  pub state : ℕ
  pub symbol : ℕ
  pub value : Value U

-- The top of the stack comes first. `look` is the value of the lookahead `tok`, `prev` the symbol
-- pushed last.
pub record Config (U E : Type 0) : Type 0 where
  pub frames : List (Frame U)
  pub tok : ℤ
  pub look : Value U
  pub prev : ℕ
  pub env : E

module _ {U : Type 0} where
  abbrev pub top_state : List (Frame U) → ℕ
  top_state [] = 0
  top_state (f ∷ fs) = f.state

  -- The values of the top `n` frames, the lowest first, before `acc`.
  abbrev pub args : ℕ → List (Frame U) → List (Value U) → List (Value U)
  args zero fs acc = acc
  args (suc n) [] acc = acc
  args (suc n) (f ∷ fs) acc = args n fs (f.value ∷ acc)

module _ {U E : Type 0} (client : Client U E) where
  -- The lexer is asked for the next token. `cell` is what the cell of its value held before.
  abbrev pub fetched : List (Frame U) → ℕ → E → Value U → Config U E
  fetched frames prev env cell =
      let (tok, look, env') = client.ll_next cell env in
      record { frames = frames; tok = tok; look = look; prev = prev; env = env' }

  abbrev pub shifted : Config U E → ℕ → ℕ → Value U → Config U E
  shifted c state t cell =
      fetched (record { state = state; symbol = t; value = c.look } ∷ c.frames) t c.env cell

  abbrev pub reduced : Config U E → ℕ → GrammarRule → ℕ → Config U E
  reduced c r rule state =
      let symbol = rule.token - ascii_max in
      let (v, env) = client.parser_reduce r (args rule.tok_n c.frames []) c.env in
      record c {
        frames = record { state = state; symbol = symbol; value = v } ∷ drop rule.tok_n c.frames;
        prev = symbol;
        env = env;
      }

module _ {U E : Type 0} (client : Client U E) (parser : GrammarParser) (table : List ℕ) where
  -- The table's action in a state on a symbol.
  abbrev pub ActionAt : ℕ → ℕ → Action → Type 0
  ActionAt state symbol a =
      (v : ℕ) × (table_from_matrix table state symbol parser.token_n ≡ done v) × (classify v ≡ a)

  -- The table's entry for the goto.
  abbrev pub GotoEntry : ℕ → ℕ → ℕ → Type 0
  GotoEntry state symbol g = table_from_matrix table state symbol parser.token_n ≡ done g

  -- One move, with the tokens that it consumes.
  pub data Move : Config U E → List ℕ → Config U E → Type 0 where
    shift :
        (c : Config U E) (t state : ℕ) (cell : Value U)
        → c.tok ≡ pos t
        → ActionAt (top_state c.frames) t (Action.shift state)
        → Move c (t ∷ []) (shifted client c state t cell)
    reduce :
        (c : Config U E) (t r : ℕ) (rule : GrammarRule) (g : ℕ)
        → c.tok ≡ pos t
        → ActionAt (top_state c.frames) t (Action.reduce r)
        → get_elem? parser.grammar_rules r ≡ some rule
        → rule.tok_n ≤ length c.frames
        → GotoEntry (top_state (drop rule.tok_n c.frames)) (rule.token - ascii_max) g
        → Move c [] (reduced client c r rule (bit_and g tok_mask))

  -- Any number of moves.
  pub data Moves (c : Config U E) : List ℕ → Config U E → Type 0 where
    here : Moves c [] c
    and_then :
        {u w : List ℕ} {c₁ c₂ : Config U E} → Moves c u c₁ → Move c₁ w c₂ → Moves c (u ++ w) c₂
