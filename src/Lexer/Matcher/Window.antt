-- ===== src/Lexer/Matcher/Window.antt =====
-- What the matcher's buffer stands for: the input from the start of the text on, of which the buffer
-- holds the first part. What is assumed of the input and of `realloc`.
use neoast.Common.{
  ℕ, ◌+◌, ◌-◌, ◌^◌, ◌≤◌, ◌<◌, ◌≡◌, List, [], ◌++◌, length, take, drop, Bool, true, done,
}
use neoast.Lexer.Input.Get.{Input, input_get}
use neoast.Lexer.Matcher.{Matcher}

-- An input that can be read delivers a list of bytes: each call returns some of them, at most `n`,
-- and none only if none is left.
pub record IsReader {E : Type 0} (get : E → ℕ → List ℕ × E) (left : Input E → List ℕ)
    (IsOpen : Input E → Type 0) : Type 0 where
  pub reads :
      (in_ : Input E) (n : ℕ)
      → IsOpen in_
      → (bytes : List ℕ) × (next : Input E) × (input_get get in_ n ≡ done (bytes, next))
        × (left in_ ≡ bytes ++ left next)
        × (length bytes ≤ n)
        × (0 < n → length bytes ≡ 0 → left in_ ≡ [])
        × IsOpen next

-- `realloc` to a larger size keeps what the cells hold.
pub record IsRealloc (realloc : List ℕ → ℕ → List ℕ) : Type 0 where
  pub extends :
      (cells : List ℕ) (n : ℕ)
      → length cells ≤ n
      → (more : List ℕ) × (realloc cells n ≡ cells ++ more) × (length cells + length more ≡ n)

-- How much of the buffer the window takes, and how far `pos_` is into the window.
abbrev pub held_length : {E : Type 0} → Matcher E → ℕ
held_length m = m.end - m.txt

abbrev pub offset : {E : Type 0} → Matcher E → ℕ
offset m = m.pos - m.txt

module _ {E : Type 0} (left : Input E → List ℕ) (IsOpen : Input E → Type 0) where
  -- The bytes of the text and behind it that the buffer holds.
  abbrev pub buffered : Matcher E → List ℕ
  buffered m = take (m.end - m.txt) (drop m.txt m.buf)

  abbrev pub window : Matcher E → List ℕ
  window m = buffered m ++ left m.input

  -- The indices are in order and in the buffer, which has room for a 0 behind its end. Reading by
  -- blocks is off, no terminating 0 is in the text, the end of the input has been seen only if nothing
  -- is left, and the input is shorter than 2⁶⁰ bytes.
  pub record IsBuffer (buf : List ℕ) (size txt cur pos end ind lpb blk chr : ℕ) (eof : Bool)
      (input : Input E) : Type 0 where
    pub allocated : length buf ≡ size
    pub room : end < size
    pub small : size ≤ 2 ^ 62
    pub from_text : txt ≤ cur
    pub read_text : txt ≤ pos
    pub indent_text : txt ≤ ind
    pub within : cur ≤ end
    pub reached : pos ≤ end
    pub margin : ind ≤ end
    pub counted : lpb ≤ txt
    pub unblocked : blk ≡ 0
    pub plain_text : chr ≡ 0
    pub ended : eof ≡ true → left input ≡ []
    pub short : length (take (end - txt) (drop txt buf) ++ left input) ≤ 2 ^ 60
    pub open_input : IsOpen input

  abbrev pub IsMatcher : Matcher E → Type 0
  IsMatcher m = IsBuffer m.buf m.max m.txt m.cur m.pos m.end m.ind m.lpb m.blk m.chr m.eof m.input

  -- Two matchers at the same place of the same input, with the same text.
  pub record SamePlace (m m' : Matcher E) : Type 0 where
    pub same_window : window m' ≡ window m
    pub same_cur : m'.cur - m'.txt ≡ m.cur - m.txt
    pub same_pos : m'.pos - m'.txt ≡ m.pos - m.txt
    pub same_ind : m'.ind - m'.txt ≡ m.ind - m.txt
    pub same_eof : m'.eof ≡ m.eof
    pub same_len : m'.len ≡ m.len
    pub same_ded : m'.ded ≡ m.ded
    pub same_mrk : m'.mrk ≡ m.mrk
    pub same_fsm : m'.fsm ≡ m.fsm
