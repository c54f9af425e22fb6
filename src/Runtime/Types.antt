-- ===== src/Runtime/Types.antt =====
-- The structures of include/neoast.h, and the allocation and reset of src/parser.c.
use Prim.Native.String.{String}
use neoast.Common.{ℕ, List, Option, Bool, ℤ}

-- `struct TokenPosition_prv`.
pub record TokenPosition : Type 0 where
  pub line : ℕ
  pub col : ℕ
  pub len : ℕ

-- One cell of the value table: `val_s` bytes, the user's union and the position behind it.
pub record Value (U : Type 0) : Type 0 where
  pub content : U
  pub position : TokenPosition

-- `struct GrammarRule_prv`.
pub record GrammarRule : Type 0 where
  pub token : ℕ
  pub tok_n : ℕ
  pub grammar : List ℕ

-- `struct GrammarParser_prv`. `destructors` is `none` for a null array, and holds for each token
-- whether its function pointer is set; the functions themselves are those of the client.
pub record GrammarParser : Type 0 where
  pub ascii_mappings : List ℕ
  pub grammar_rules : List GrammarRule
  pub token_names : List String
  pub destructors : Option (List Bool)
  pub grammar_n : ℕ
  pub token_n : ℕ
  pub action_token_n : ℕ

-- `struct ParsingStack_prv`: `slots` is the array `data`, as long as its allocation.
pub record ParsingStack : Type 0 where
  pub pos : ℕ
  pub slots : List ℕ

-- `struct ParserBuffers_prv`. The two tables are as long as their allocations.
pub record ParserBuffers (U : Type 0) : Type 0 where
  pub value_table : List (Value U)
  pub token_table : List ℤ
  pub parsing_stack : ParsingStack
  pub table_n : ℕ

-- `parser_allocate_stack`, given the memory that `malloc` returned.
unfoldable pub allocate_stack : List ℕ → ParsingStack
allocate_stack memory = record { pos = 0; slots = memory }

module _ {U : Type 0} where
  -- `parser_allocate_buffers`, given the memory of its allocations.
  unfoldable pub allocate_buffers : ℕ → List ℕ → List ℤ → List (Value U) → ParserBuffers U
  unfolding allocate_stack
  allocate_buffers max_tokens stack_memory token_memory value_memory = record {
    value_table = value_memory;
    token_table = token_memory;
    parsing_stack = allocate_stack stack_memory;
    table_n = max_tokens;
  }

  -- `parser_reset_buffers`: the tables keep what they hold.
  unfoldable pub reset_buffers : ParserBuffers U → ParserBuffers U
  reset_buffers b = record b { parsing_stack = record (b.parsing_stack) { pos = 0 } }
