-- ===== src/Codegen/Names.antt =====
-- The names of tokens: those of characters can be read back, and no other token has one.
use neoast.Common.{ℕ, suc, ◌-◌, ◌%◌, ◌^◌, ◌<◌, ◌≡◌, refl, List, [], ◌∷◌, ◌++◌, true, false}
use neoast.Common.{
  Option, none, some, ℤ, pos, negsuc, to_u32, ltb, arith, ap, sym, ◌∙◌, Outcome, done, ◌>>=◌, ◌≢◌,
  Bool-cases, inl, inr,
}
use neoast.Runtime.Types.{TokenPosition}
use neoast.Lexer.Matcher.Buffer.{as_char}
use neoast.Codegen.{Name, Token, Report, reserved_name}
use neoast.Codegen.Tokens.{
  given, ascii_prefix, starts_with, build_token, get_ascii_token_name, get_ascii_from_name,
}

-- The values of a signed `char`.
abbrev pub IsChar : ℤ → Type 0
IsChar (pos n) = n < 128
IsChar (negsuc n) = n < 128

as_char-to_u32 : (v : ℤ) → IsChar v → as_char (to_u32 v % 256) ≡ v
unfolding as_char
as_char-to_u32 (pos n) small =
    let e : n % 2 ^ 32 % 256 ≡ n = omega (arith, small) in
    let test : ltb n 128 ≡ true = ground (arith, small) in rw (e, test) refl
as_char-to_u32 (negsuc n) small =
    let e : (2 ^ 32 - suc n) % 2 ^ 32 % 256 ≡ 255 - n = omega (arith, small) in
    let test : ltb (255 - n) 128 ≡ false = ground (arith, small) in
    rw (e, test) (ap negsuc (omega (arith, small)))

to_u32-small : (v : ℤ) → to_u32 v < 2 ^ 32
to_u32-small (pos n) = omega arith
to_u32-small (negsuc n) = omega arith

pub starts_with-append : (name : Name) → starts_with ascii_prefix (ascii_prefix ++ name) ≡ true
unfolding starts_with
starts_with-append name = refl

-- The name of a `char`, negative ones too, reads back as the same `char`, if `strtoul` reads what
-- `%02X` prints of an `unsigned int`.
pub get_ascii_from_name-get_ascii_token_name :
    (hex : ℕ → Name) (unhex : Name → ℕ) (v : ℤ)
    → ((n : ℕ) → n < 2 ^ 32 → unhex (hex n) ≡ n)
    → IsChar v
    → get_ascii_from_name unhex (get_ascii_token_name hex v) ≡ done v
unfolding get_ascii_from_name get_ascii_token_name
get_ascii_from_name-get_ascii_token_name hex unhex v reads small =
    ap (λ n. done (as_char (n % 256))) (reads (to_u32 v) (to_u32-small v))
    ∙ ap done (as_char-to_u32 v small)

build_token_reserved :
    (p : Option TokenPosition) (name : Name) (reports : List Report)
    → starts_with ascii_prefix name ≡ true
    → build_token p name reports ≡ done (none, reports ++ (p, reserved_name) ∷ [])
unfolding build_token
build_token_reserved p name reports e = rw e refl

build_token_allowed :
    (p : Option TokenPosition) (name : Name) (reports : List Report)
    → starts_with ascii_prefix name ≡ false
    → build_token p name reports ≡ (
        given p >>= λ at.
        done (some (record { position = at; name = some name; ascii = pos 0 }), reports))
unfolding build_token
build_token_allowed p name reports e = rw e refl

-- A token that `build_token` makes has the name it was given, and no character has that name.
build_token-get_ascii_token_name :
    (hex : ℕ → Name) (p : TokenPosition) (name : Name) (reports reports' : List Report) (t : Token)
    (v : ℤ)
    → build_token (some p) name reports ≡ done (some t, reports')
    → (t.name ≡ some name) × (t.name ≢ some (get_ascii_token_name hex v))
unfolding get_ascii_token_name
build_token-get_ascii_token_name hex p name reports reports' t v built =
    elim (Bool-cases (starts_with ascii_prefix name)) [
      | inl reserved ↦
          absurd (refused (sym (build_token_reserved (some p) name reports reserved) ∙ built))
      | inr allowed ↦
          let named = names (sym (build_token_allowed (some p) name reports allowed) ∙ built) in
          (
            sym named,
            λ same.
                let e : name ≡ ascii_prefix ++ hex (to_u32 v) = cc in
                absurd (
                  clash (
                    sym allowed
                    ∙ ap (starts_with ascii_prefix) e
                    ∙ starts_with-append (hex (to_u32 v)))),
          )
    ]
  where
    refused :
        {r r' : List Report} {u : Token}
        → ◌≡◌ {A = Outcome (Option Token × List Report)} (done (none, r)) (done (some u, r'))
        → ⊥
    refused e = cc

    names :
        {r r' : List Report} {u w : Token}
        → ◌≡◌ {A = Outcome (Option Token × List Report)} (done (some u, r)) (done (some w, r'))
        → u.name ≡ w.name
    names e = cc

    clash : false ≡ true → ⊥
    clash e = cc
