-- ===== src/Lexer/Matcher.antt =====
-- `struct NeoastMatcher_prv` of include/lexer/matcher_priv.h, and the functions of
-- src/lexer/matcher.c that set it up, without `WITH_SPAN`. The pointers `txt_` and `lpb_` are indices
-- of `buf_`, whose list is as long as its allocation. Sums of indices are below the allocation's size
-- and do not wrap. `context_`, `lcp_` and `lcs_` are not used by any code.
pub mod Lines
pub mod Buffer
pub mod Indent
pub mod Fsm
pub mod Scan
pub mod Window
pub mod Doubling
pub mod Grow
pub mod Reads
pub mod Chars
pub mod Sources
pub mod LineLaws
pub mod Scans
pub mod TextBack
pub mod Split
pub mod Words
pub mod Rising
pub mod Stops
pub mod Bytes
mod Tests
use neoast.Common.{ℕ, ◌*◌, List, [], Bool, true, false, ℤ, pos, set}
use neoast.Runtime.Types.{ParsingStack, allocate_stack}
use neoast.Lexer.Vector.{Vector, init}
use neoast.Lexer.Input.Get.{Input}

-- `CONST_UNK`, `CONST_BOB`, `CONST_BLOCK` and `CONST_REDO`.
abbrev pub const_unk : ℕ
const_unk = 256

abbrev pub const_bob : ℕ
const_bob = 257

abbrev pub const_block : ℕ
const_block = 262144

abbrev pub const_redo : ℕ
const_redo = 0x7FFF_FFFF

-- `struct Option`.
pub record Options : Type 0 where
  pub any : Bool
  pub nullable : Bool
  pub words : Bool
  pub tab_size : ℕ

-- `struct NeoastMatcherFSM_prv`.
pub record MatcherFsm : Type 0 where
  pub bol : Bool
  pub nul : Bool
  pub c1 : ℤ

-- A character in `chr` is its byte, 0 for none.
pub record Matcher (E : Type 0) : Type 0 where
  pub input : Input E
  pub lexing_state : ParsingStack
  pub opt : Options
  pub buf : List ℕ
  pub txt : ℕ
  pub len : ℕ
  pub cap_index : ℕ
  pub max : ℕ
  pub cur : ℕ
  pub pos : ℕ
  pub end : ℕ
  pub ind : ℕ
  pub blk : ℕ
  pub got : ℕ
  pub chr : ℕ
  pub lpb : ℕ
  pub lno : ℕ
  pub cno : ℕ
  pub num : ℕ
  pub eof : Bool
  pub ded : ℕ
  pub col : ℕ
  pub tab : Vector ℕ
  pub lap : Vector ℤ
  pub fsm : MatcherFsm
  pub mrk : Bool

-- `option_init` and `fsm_init`.
abbrev pub option_init : Options
option_init = record { any = false; nullable = false; words = false; tab_size = 8 }

abbrev pub fsm_init : MatcherFsm
fsm_init = record { bol = false; nul = false; c1 = pos 0 }

module _ {E : Type 0} where
  -- `matcher_reset`, given the memory of its allocation.
  unfoldable pub matcher_reset : List ℕ → Matcher E → Matcher E
  matcher_reset memory m = record m {
    buf = set memory 0 0;
    max = 2 * const_block;
    txt = 0;
    len = 0;
    cap_index = 0;
    cur = 0;
    pos = 0;
    end = 0;
    ind = 0;
    blk = 0;
    got = const_bob;
    chr = 0;
    lpb = 0;
    lno = 1;
    cno = 0;
    num = 0;
    eof = false;
    ded = 0;
    tab = record (m.tab) { items = [] };
  }

  -- `matcher_init`, with the memory of the stack of lexer states.
  unfoldable pub matcher_init : List ℕ → List ℕ → Matcher E → Matcher E
  unfolding matcher_reset allocate_stack init
  matcher_init memory stack_memory m = record (matcher_reset memory (record m { fsm = fsm_init })) {
    opt = option_init;
    lap = init 4;
    tab = init 8;
    lexing_state = allocate_stack stack_memory;
  }

  -- `matcher_new`; `fresh` is what `malloc` left in the struct.
  unfoldable pub matcher_new : List ℕ → List ℕ → Matcher E → Input E → Matcher E
  unfolding matcher_init
  matcher_new memory stack_memory fresh in_ =
      matcher_init memory stack_memory (record fresh { input = in_ })
