-- ===== src/Runtime/Table.antt =====
-- The entries of a parsing table: the masks of include/neoast.h, and the row-major lookup of
-- src/lr.c.
use neoast.Common.{ℕ, ◌+◌, ◌*◌, List, Bool, Outcome, read, bit_and, ◌==◌, not, if◌then◌else◌}

abbrev pub ascii_max : ℕ
ascii_max = 256

abbrev pub tok_accept_mask : ℕ
tok_accept_mask = 0x2000_0000

abbrev pub tok_shift_mask : ℕ
tok_shift_mask = 0x4000_0000

abbrev pub tok_reduce_mask : ℕ
tok_reduce_mask = 0x8000_0000

abbrev pub tok_syntax_error : ℕ
tok_syntax_error = 0

abbrev pub tok_mask : ℕ
tok_mask = 0x1fff_ffff

-- `v & mask` as a condition.
abbrev pub has : ℕ → ℕ → Bool
has v mask = not (bit_and v mask == 0)

-- The branches of `parser_parse_lr` on a table entry. `stuck` is the entry that takes none of them.
pub data Action : Type 0 where
  syntax_error accept stuck : Action
  shift reduce : ℕ → Action

-- The chain of tests of `parser_parse_lr`, in its order; what a branch uses of the entry is masked.
unfoldable pub classify : ℕ → Action
classify v =
    if v == tok_syntax_error
    then syntax_error
    else if has v tok_shift_mask
    then shift (bit_and v tok_mask)
    else if has v tok_reduce_mask
    then reduce (bit_and v tok_mask)
    else if has v tok_accept_mask
    then accept
    else stuck

-- `g_table_from_matrix`, and the read through the pointer that it returns.
unfoldable pub table_from_matrix : List ℕ → ℕ → ℕ → ℕ → Outcome ℕ
table_from_matrix table row col col_n = read table (row * col_n + col)
