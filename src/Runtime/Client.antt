-- ===== src/Runtime/Client.antt =====
-- What the runtime calls of its user, and its state: the arguments and locals of `parser_parse_lr`
-- with the buffers that it works in. One heap of the user, `E`, stands behind the lexer, the context
-- and whatever the values point to.
use Prim.Native.String.{String}
use neoast.Common.{ℕ, List, Option, ℤ}
use neoast.Runtime.Types.{TokenPosition, Value, ParsingStack}

-- The arguments of a `yy_error_cb`.
pub record ErrorReport : Type 0 where
  pub token_names : List String
  pub position : TokenPosition
  pub last_token : ℕ
  pub current_token : ℕ
  pub expected_tokens : List ℕ

-- The function pointers that are passed in. `ll_next` is given the cell that it may fill and returns
-- what the cell then holds. `parser_error` is `none` for a null pointer. `destructor t` is the
-- function that the array holds for token `t`.
pub record Client (U E : Type 0) : Type 0 where
  pub ll_next : Value U → E → ℤ × Value U × E
  pub parser_reduce : ℕ → List (Value U) → E → Value U × E
  pub parser_error : Option (ErrorReport → E → E)
  pub destructor : ℕ → Value U → E → E
  pub zeroed : Value U

-- The state of one call of `parser_parse_lr`. `lex_val` is the index of the cell it points to.
pub record Machine (U E : Type 0) : Type 0 where
  pub parsing_stack : ParsingStack
  pub token_table : List ℤ
  pub value_table : List (Value U)
  pub current_state : ℕ
  pub i : ℕ
  pub lex_val : ℕ
  pub prev_tok : ℕ
  pub tok : ℤ
  pub dest_idx : ℕ
  pub env : E
