-- ===== src/Codegen/Tokens.antt =====
-- The tokens of src/codegen/common.c. `asprintf` and `strtoul` in base 16 are parameters.
use neoast.Common.{
  ℕ, ◌%◌, List, [], ◌∷◌, ◌++◌, drop, Bool, true, false, ◌==◌, ◌&&◌, Option, none, some, ℤ, pos,
  to_u32, eqb_ℤ,
}
use neoast.Common.{if◌then◌else◌, Outcome, done, fault, assertion, ◌>>=◌, ◌>>◌, assert}
use neoast.Runtime.Types.{TokenPosition}
use neoast.Lexer.Matcher.Buffer.{as_char}
use neoast.Codegen.{Name, Token, Report, reserved_name}

-- `assert(p)`, and what `p` points to.
abbrev pub given {ℓ} : {A : Type ℓ} → Option A → Outcome A
given none = fault assertion
given (some a) = done a

-- "ASCII_CHAR_0x".
abbrev pub ascii_prefix : Name
ascii_prefix =
    b'A' ∷ b'S' ∷ b'C' ∷ b'I' ∷ b'I' ∷ b'_' ∷ b'C' ∷ b'H' ∷ b'A' ∷ b'R' ∷ b'_' ∷ b'0' ∷ b'x' ∷ []

-- `strncmp(name, prefix, strlen(prefix)) == 0`.
unfoldable pub starts_with : Name → Name → Bool
starts_with [] name = true
starts_with (p ∷ ps) [] = false
starts_with (p ∷ ps) (c ∷ cs) = p == c && starts_with ps cs

unfoldable pub build_token :
    Option TokenPosition → Name → List Report → Outcome (Option Token × List Report)
unfolding starts_with
build_token position name reports =
    if starts_with ascii_prefix name
    then done (none, reports ++ (position, reserved_name) ∷ [])
    else (do
      p ← given position
      done (some (record { position = p; name = some name; ascii = pos 0 }), reports))

-- `hex` prints the digits of `%02X`.
unfoldable pub get_ascii_token_name : (ℕ → Name) → ℤ → Name
get_ascii_token_name hex value = ascii_prefix ++ hex (to_u32 value)

-- `unhex` is `strtoul` in base 16.
unfoldable pub get_ascii_from_name : (Name → ℕ) → Name → Outcome ℤ
unfolding starts_with
get_ascii_from_name unhex name =
    assert (starts_with ascii_prefix name) >> done (as_char (unhex (drop 13 name) % 256))

unfoldable pub build_token_ascii : (ℕ → Name) → Option TokenPosition → ℤ → Outcome Token
unfolding get_ascii_token_name
build_token_ascii hex position value = do
  p ← given position
  done (record { position = p; name = some (get_ascii_token_name hex value); ascii = value })

-- `get_ascii_printable`, as the bytes of the literal, of the codes of `switch`.
unfoldable pub get_ascii_printable : ℤ → Option Name
get_ascii_printable c =
    if eqb_ℤ c (pos 7)
    then some (b'\\' ∷ b'a' ∷ [])
    else if eqb_ℤ c (pos 8)
    then some (b'\\' ∷ b'b' ∷ [])
    else if eqb_ℤ c (pos 12)
    then some (b'\\' ∷ b'f' ∷ [])
    else if eqb_ℤ c (pos 10)
    then some (b'\\' ∷ b'n' ∷ [])
    else if eqb_ℤ c (pos 13)
    then some (b'\\' ∷ b'r' ∷ [])
    else if eqb_ℤ c (pos 9)
    then some (b'\\' ∷ b't' ∷ [])
    else if eqb_ℤ c (pos 92)
    then some (b'\\' ∷ [])
    else if eqb_ℤ c (pos 39)
    then some (39 ∷ [])
    else if eqb_ℤ c (pos 34)
    then some (34 ∷ [])
    else if eqb_ℤ c (pos 63)
    then some (b'?' ∷ [])
    else none

-- `tokens_free`: the names that are freed, in order.
unfoldable pub tokens_free : List Token → List Name
tokens_free [] = []
tokens_free (t ∷ ts) = elim (t.name) [ none ↦ tokens_free ts | some name ↦ name ∷ tokens_free ts ]
