-- ===== src/Codegen/Lines.antt =====
-- `InputFile` of src/codegen/input_file.cc: the lines of a grammar file, and the messages about it.
use neoast.Common.{
  ℕ, zero, suc, ◌+◌, ◌-◌, List, [], ◌∷◌, ◌++◌, length, take, drop, get_elem?, ◌==◌, leb, Option,
  none, some, if◌then◌else◌, Outcome, done, ◌>>=◌, assert,
}
use neoast.Runtime.Types.{TokenPosition}
use neoast.Parsergen.Items.{at_or_throw}

-- What a message is about.
pub data Notice : Type 0 where
  multiple_code repeated_token undefined_token type_in_precedence repeated_precedence : Notice
  repeated_start repeated_destructor no_lexing_rules undeclared_start : Notice
  no_augment_token undeclared_token no_token_for_rule action_as_rule repeated_rule : Notice
  invalid_parser_type unsupported_option invalid_boolean failed : Notice

-- The context of a message: numbered lines, and where the marks under them start and how many there
-- are behind the first.
pub record Context : Type 0 where
  pub lines : List (ℕ × List ℕ)
  pub marks : Option (ℕ × ℕ)

-- The streams hold the messages with their positions and contexts; the path is left out. The counters are
-- taken to stay below 2^32.
pub record InputFile : Type 0 where
  pub file_length : ℕ
  pub contents : List ℕ
  pub line_starts : List ℕ
  pub line_sizes : List ℕ
  pub warn_n : ℕ
  pub err_n : ℕ
  pub warning_stream : List (Option TokenPosition × Notice × Context)
  pub error_stream : List (Option TokenPosition × Notice × Context)

-- The loop over the bytes from position `pos` on: the starts and the sizes of the lines.
unfoldable pub scan_lines : ℕ → ℕ → List ℕ → List ℕ × List ℕ
scan_lines pos line_start [] = ([], [])
scan_lines pos line_start (c ∷ cs) =
    let rest = scan_lines (pos + 1) (if c == 10 then pos + 1 else line_start) cs in
    if c == 10 then (line_start ∷ rest.0, (pos - line_start) ∷ rest.1) else rest

-- The constructor, on the bytes of the file.
unfoldable pub index_file : List ℕ → InputFile
unfolding scan_lines
index_file text =
    let (starts, sizes) = scan_lines 0 0 text in
    record {
      file_length = length text;
      contents = text ++ 0 ∷ [];
      line_starts = starts;
      line_sizes = sizes;
      warn_n = 0;
      err_n = 0;
      warning_stream = [];
      error_stream = [];
    }

-- `get_line`: the bytes that are printed.
unfoldable pub get_line : InputFile → ℕ → Outcome (List ℕ)
get_line f lineno = do
  len ← at_or_throw (get_elem? f.line_sizes lineno)
  start ← at_or_throw (get_elem? f.line_starts lineno)
  _ ← assert (leb (start + len) f.file_length)
  done (take len (drop start f.contents))

module _ (digits : ℕ → ℕ) where
  -- `put_position`, for lines below 2^31: the line before, counted from 0, if there is one. `digits`
  -- is the length of the printed number.
  unfoldable pub put_position : InputFile → Option TokenPosition → Outcome Context
  unfolding get_line
  put_position f none = done (record { lines = []; marks = none })
  put_position f (some p) = elim p.line [
    | zero ↦ done (record { lines = []; marks = none })
    | suc i ↦ get_line f i >>= λ line. done (record {
      lines = (i + 1, line) ∷ [];
      marks = some (p.col + 3 + digits (suc i), p.len - 1);
    })
  ]

  unfoldable pub emit_error : InputFile → Option TokenPosition → Notice → Outcome InputFile
  unfolding put_position
  emit_error f p what = do
    context ← put_position f p
    done
        (record f { error_stream = f.error_stream ++ (p, what, context) ∷ []; err_n = f.err_n + 1 })

  unfoldable pub emit_warning : InputFile → Option TokenPosition → Notice → Outcome InputFile
  unfolding put_position
  emit_warning f p what = do
    context ← put_position f p
    done (record f {
      warning_stream = f.warning_stream ++ (p, what, context) ∷ [];
      warn_n = f.warn_n + 1;
    })

  -- `emit_error_message`, which is not counted.
  unfoldable pub emit_error_message : InputFile → Option TokenPosition → Notice → Outcome InputFile
  unfolding put_position
  emit_error_message f p what = do
    context ← put_position f p
    done (record f { error_stream = f.error_stream ++ (p, what, context) ∷ [] })
