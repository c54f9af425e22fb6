-- ===== src/Runtime/Correct/Setup.antt =====
-- What is assumed of the client and of the buffers, and what holds between the rounds.
use neoast.Common.{
  ℕ, zero, suc, ◌+◌, ◌-◌, ◌*◌, ◌^◌, ◌≤◌, ◌<◌, ◌≡◌, true, List, [], ◌∷◌, length, ℤ, pos, negsuc,
}
use neoast.Common.{Outcome, done, get_elem?, some, none}
use neoast.Runtime.Types.{Value, GrammarParser}
use neoast.Runtime.Table.{Action}
use neoast.Runtime.Client.{Client, Machine}
use neoast.Runtime.Loop.{Step, returned, minus_one}
use neoast.Runtime.Automaton.{Frame, Config, top_state, ActionAt, Moves}
use neoast.Runtime.Grammar.{Derives}
use neoast.Runtime.Grammar.Yields.{Yields}
use neoast.Runtime.Valid.{Certificate, is_valid, rank_of, start_of}
use neoast.Runtime.Valid.Frames.{Checked}
use neoast.Runtime.Refine.Errors.{IsSized, cleaned, reported}

-- The lexer works on a finite input: a token other than 0, the end of input, uses some of it up, and
-- no call adds to it. Its tokens are action tokens.
pub record Laws {U E : Type 0} (client : Client U E) (parser : GrammarParser) : Type 0 where
  pub remaining : E → ℕ
  pub in_range :
      (cell : Value U) (env : E) (t : ℕ)
      → (client.ll_next cell env).0 ≡ pos t
      → t < parser.action_token_n
  pub progress :
      (cell : Value U) (env : E) (t : ℕ)
      → (client.ll_next cell env).0 ≡ pos (suc t)
      → remaining (client.ll_next cell env).2 < remaining env
  pub no_growth : (cell : Value U) (env : E) → remaining (client.ll_next cell env).2 ≤ remaining env
  pub reduce_keeps :
      (r : ℕ) (vs : List (Value U)) (env : E)
      → remaining (client.parser_reduce r vs env).1 ≤ remaining env

module _ {U E : Type 0} (client : Client U E) (parser : GrammarParser) (table : List ℕ)
    (cert : Certificate) where
  -- The table has passed the check and has at most 2³² cells, the parser's arrays have an entry for each column, and buffers
  -- of these sizes hold `budget` tokens and the end of input.
  pub record IsReady (cells slots budget : ℕ) : Type 0 where
    pub valid : is_valid parser table cert ≡ true
    pub names : parser.token_n ≤ length parser.token_names
    pub sized : IsSized client parser parser.destructors
    pub small_table : length table ≤ 2 ^ 32
    pub enough_cells : budget < cells
    pub enough_slots : 2 * budget + 1 ≤ slots

  abbrev pub pending : ℤ → ℕ
  pending (negsuc n) = 0
  pending (pos zero) = 0
  pending (pos (suc n)) = 1

  abbrev pub left : Laws client parser → Config U E → ℕ
  left laws c = laws.remaining c.env + pending c.tok

  abbrev pub top_rank : List (Frame U) → ℕ
  top_rank [] = 0
  top_rank (f ∷ fs) = rank_of parser table cert f.symbol

  -- It falls in each round: by a token, by a frame, or by the rank of the top frame's symbol.
  abbrev pub measure : Laws client parser → Config U E → ℕ
  measure laws c =
      (2 * left laws c + length c.frames) * suc cert.max_rank + (cert.max_rank - top_rank c.frames)

  -- What holds after the moves from `c₀` that have consumed `w`.
  pub record Good (laws : Laws client parser) (budget : ℕ) (c₀ c : Config U E) (w : List ℕ)
      : Type 0 where
    pub checked : Checked parser table cert c.frames
    pub trail : Moves client parser table c₀ w c
    pub yields : Yields parser c.frames w
    pub bounded : length c.frames + left laws c ≤ budget
    pub in_columns : (t : ℕ) → c.tok ≡ pos t → t < parser.action_token_n
    pub previous : c.prev < parser.token_n

  -- How a parse from `c₀` ends. It accepts a word of the language, with the start symbol's value in
  -- cell 0; or the lexer fails, and the values on the stack are destroyed; or the table has no entry
  -- for the lookahead, which is reported, and the lookahead's value is destroyed before the stack's.
  pub data Ends (c₀ : Config U E) (o : Outcome (Step (Machine U E))) : Type 0 where
    accepted :
        (m : Machine U E) (c : Config U E) (w : List ℕ) (f : Frame U) (t : ℕ)
        → o ≡ done (returned (pos 0) m)
        → Moves client parser table c₀ w c
        → c.frames ≡ f ∷ []
        → c.tok ≡ pos t
        → ActionAt client parser table f.state t Action.accept
        → Derives parser (start_of parser table cert parser.grammar_rules) w
        → get_elem? m.value_table 0 ≡ some f.value
        → m.env ≡ c.env
        → Ends c₀ o
    lexer_failed :
        (m : Machine U E) (c : Config U E) (w : List ℕ) (n : ℕ)
        → o ≡ done (returned minus_one m)
        → Moves client parser table c₀ w c
        → c.tok ≡ negsuc n
        → m.env ≡ cleaned client parser parser.destructors none c.frames c.env
        → Ends c₀ o
    refused :
        (m : Machine U E) (c : Config U E) (w : List ℕ) (t : ℕ)
        → o ≡ done (returned minus_one m)
        → Moves client parser table c₀ w c
        → c.tok ≡ pos t
        → ActionAt client parser table (top_state c.frames) t Action.syntax_error
        → m.env
          ≡ cleaned client parser parser.destructors
              (some (c.tok, c.look))
              c.frames
              (reported client parser table c.look.position (top_state c.frames) t c.prev c.env)
        → Ends c₀ o
