-- ===== src/Codegen/HeaderSteps.antt =====
-- What one declaration of a header does to the tokens.
use neoast.Common.{ℕ, suc, ◌+◌, ◌≤◌, ◌≡◌, refl, List, [], ◌∷◌, ◌++◌, Option, none, some, ℤ, arith}
use neoast.Common.{Outcome, done, fault, Ensures, Ensures-then}
use neoast.Runtime.Types.{TokenPosition}
use neoast.Codegen.{Name, KeyVal}
use neoast.Codegen.Lines.{
  InputFile, Notice, put_position, emit_error, emit_warning, repeated_token, invalid_boolean,
  unsupported_option, invalid_parser_type,
}
use neoast.Codegen.Classes.{CgToken, CodegenOptions, codegen_parse_bool, handle_option}
use neoast.Codegen.Impl.{CodeGenImpl, find_token, get_token}
use neoast.Codegen.Header.{report, map_ascii, register_action, register_grammar}
use neoast.Codegen.InOrder.{InOrder, InOrder-register_action, InOrder-register_grammar}

-- From one state to another no message is taken back, and if there is none in the end the tokens stay
-- in order.
abbrev pub Steps : ℕ → CodeGenImpl → ℕ → CodeGenImpl → Type 0
Steps n g n' g' =
    (g.input.err_n ≤ g'.input.err_n)
    × (g'.input.err_n ≡ 0
        → InOrder n g.action_tokens g.grammar_tokens
        → InOrder n' g'.action_tokens g'.grammar_tokens)

pub Steps-trans :
    (n : ℕ) (g : CodeGenImpl) (n₁ : ℕ) (g₁ : CodeGenImpl) (n₂ : ℕ) (g₂ : CodeGenImpl)
    → Steps n g n₁ g₁
    → Steps n₁ g₁ n₂ g₂
    → Steps n g n₂ g₂
Steps-trans n g n₁ g₁ n₂ g₂ (more, keeps) (more', keeps') = (
  omega (arith, more, more'),
  λ clean inv. keeps' clean (keeps (omega (arith, more', clean)) inv),
)

pub same_tokens : (n : ℕ) (g : CodeGenImpl) → Steps n g n g
same_tokens n g = (omega arith, λ clean inv. inv)

-- A step that returns the next number too.
abbrev pub Counts : ℕ → CodeGenImpl → ℕ × CodeGenImpl → Type 0
Counts n g s = Steps n g (s.0) (s.1)

module _ (digits : ℕ → ℕ) where
  -- A message about an error is counted.
  pub emit_error-counts :
      (f : InputFile) (p : Option TokenPosition) (what : Notice)
      → Ensures (λ f'. f'.err_n ≡ f.err_n + 1) (emit_error digits f p what)
  unfolding emit_error
  emit_error-counts f p what =
      Ensures-then (λ f'. f'.err_n ≡ f.err_n + 1) (put_position digits f p) _ (λ context. refl)

module _ (digits : ℕ → ℕ) (strtol : Name → ℤ) (unhex : Name → ℕ)
    (expand : List (Name × Name) → Name → Name) where
  -- One about a warning is not.
  pub emit_warning-keeps :
      (f : InputFile) (p : Option TokenPosition) (what : Notice)
      → Ensures (λ f'. f'.err_n ≡ f.err_n) (emit_warning digits f p what)
  unfolding emit_warning
  emit_warning-keeps f p what =
      Ensures-then (λ f'. f'.err_n ≡ f.err_n) (put_position digits f p) _ (λ context. refl)

  codegen_parse_bool-keeps :
      (self : KeyVal) (value : Name) (f : InputFile)
      → Ensures (λ r. r.1.err_n ≡ f.err_n) (codegen_parse_bool digits strtol self value f)
  unfolding codegen_parse_bool
  codegen_parse_bool-keeps self value f =
      ground (arith, emit_warning-keeps f (some self.position) invalid_boolean)

  pub handle_option-counts :
      (self : KeyVal) (o : CodegenOptions) (f : InputFile)
      → Ensures (λ r. f.err_n ≤ r.1.err_n) (handle_option digits strtol self o f)
  unfolding handle_option
  handle_option-counts self o f = ground (
    arith,
    emit_warning-keeps f (some self.position) unsupported_option,
    emit_error-counts digits f (some self.position) invalid_parser_type,
  )

  pub report-counts :
      (p : Option TokenPosition) (what : Notice) (g : CodeGenImpl)
      → Ensures
          (λ g'. g'.input.err_n ≡ g.input.err_n + 1)
          (report digits strtol unhex expand p what g)
  unfolding report
  report-counts p what g = ground (arith, emit_error-counts digits g.input p what)

  -- A message about an error leads anywhere.
  pub report-Steps :
      (n n' : ℕ) (p : Option TokenPosition) (what : Notice) (g : CodeGenImpl)
      → Ensures (λ g'. Steps n g n' g') (report digits strtol unhex expand p what g)
  report-Steps n n' p what g =
      failed (report digits strtol unhex expand p what g) (report-counts p what g)
    where
      failed :
          (o : Outcome CodeGenImpl)
          → Ensures (λ g'. g'.input.err_n ≡ g.input.err_n + 1) o
          → Ensures (λ g'. Steps n g n' g') o
      failed (done g') e = (omega (arith, e), λ clean inv. absurd (omega (arith, e, clean)))
      failed (fault x) e = tt

  pub register_action-Steps :
      (n : ℕ) (t : CgToken) (g : CodeGenImpl)
      → t.id ≡ n
      → Ensures (λ g'. Steps n g (suc n) g') (register_action digits strtol unhex expand t g)
  unfolding register_action get_token
  register_action-Steps n t g id =
      split (find_token t.name (g.action_tokens ++ g.grammar_tokens)) refl
    where
      split :
          (o : Option CgToken)
          → find_token t.name (g.action_tokens ++ g.grammar_tokens) ≡ o
          → Ensures (λ g'. Steps n g (suc n) g') (register_action digits strtol unhex expand t g)
      split (some other) e =
          rw (e, Ensures) (report-Steps n (suc n) (some t.position) repeated_token g)
      split none e =
          rw (e, Ensures)
            (Ensures-then (λ g'. Steps n g (suc n) g')
              (map_ascii digits strtol unhex expand t g.ascii_mappings)
              (λ mappings.
                done (record g {
                  ascii_mappings = mappings;
                  action_tokens = g.action_tokens ++ t ∷ [];
                }))
              (λ mappings. (
                omega arith,
                λ clean inv. InOrder-register_action n g.action_tokens g.grammar_tokens t id e inv,
              )))

  pub register_grammar-Steps :
      (n : ℕ) (t : CgToken) (g : CodeGenImpl)
      → Ensures (λ g'. Steps n g n g') (register_grammar digits strtol unhex expand t g)
  unfolding register_grammar get_token
  register_grammar-Steps n t g =
      split (find_token t.name (g.action_tokens ++ g.grammar_tokens)) refl
    where
      split :
          (o : Option CgToken)
          → find_token t.name (g.action_tokens ++ g.grammar_tokens) ≡ o
          → Ensures (λ g'. Steps n g n g') (register_grammar digits strtol unhex expand t g)
      split (some other) e = rw (e, Ensures) (report-Steps n n (some t.position) repeated_token g)
      split none e =
          rw (e, Ensures)
            (
              omega arith,
              λ clean inv. InOrder-register_grammar n g.action_tokens g.grammar_tokens t e inv,
            )
