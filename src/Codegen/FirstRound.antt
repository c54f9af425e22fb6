-- ===== src/Codegen/FirstRound.antt =====
-- What the first round over a header does to the tokens.
use neoast.Common.{ℕ, suc, ◌≤◌, ◌≡◌, refl, List, [], ◌∷◌, Option, none, some, ℤ}
use neoast.Common.{Outcome, done, fault, ◌>>=◌, Ensures, Ensures-then, Ensures-bind, deref}
use neoast.Runtime.Types.{TokenPosition}
use neoast.Codegen.{
  Name, KeyVal, KeyValKind, top, bottom, option, token, token_ascii, token_type, type, left, right,
  macro, start, union, destructor, lexer, include,
}
use neoast.Codegen.Lines.{InputFile, multiple_code}
use neoast.Codegen.Classes.{
  CgToken, ascii_action, typed_action, grammar_token, or_empty, Code, CodegenOptions,
}
use neoast.Codegen.Impl.{CodeGenImpl, code_of, blank}
use neoast.Codegen.Header.{register_action, register_grammar, single_code, first_entry, first_round}
use neoast.Codegen.HeaderSteps.{
  handle_option-counts, report-Steps, register_action-Steps, register_grammar-Steps, Steps,
  Steps-trans, same_tokens, Counts,
}

module _ (digits : ℕ → ℕ) (strtol : Name → ℤ) (unhex : Name → ℕ)
    (expand : List (Name × Name) → Name → Name) where
  single_code-Steps :
      (n : ℕ) (iter : KeyVal) (old : Option Code) (set_code : Option Code → CodeGenImpl)
      (g : CodeGenImpl)
      → ((c : Option Code) → Steps n g n (set_code c))
      → Ensures (λ g'. Steps n g n g') (single_code digits strtol unhex expand iter old set_code g)
  unfolding single_code
  single_code-Steps n iter (some old) set_code g same =
      report-Steps digits strtol unhex expand n n (some iter.position) multiple_code g
  single_code-Steps n iter none set_code g same =
      Ensures-then (λ g'. Steps n g n g') (code_of iter) (λ c. done (set_code (some c)))
        (λ c. same (some c))

  with_number :
      (n n' : ℕ) (g : CodeGenImpl) (o : Outcome CodeGenImpl)
      → Ensures (λ g'. Steps n g n' g') o
      → Ensures (Counts n g) (o >>= λ g'. done (n', g'))
  with_number n n' g (done g') p = p
  with_number n n' g (fault e) p = tt

  action_entry :
      (n : ℕ) (g : CodeGenImpl) (p : TokenPosition) (v : Option Name) (t : CgToken)
      → Ensures (Counts n g) (
          (deref v >>= λ name. done (record t { position = p; name = name; id = n })) >>= λ t'.
          register_action digits strtol unhex expand t' g >>= λ g'. done (suc n, g'))
  action_entry n g p none t = tt
  action_entry n g p (some name) t =
      let t' = record t { position = p; name = name; id = n } in
      with_number n (suc n) g (register_action digits strtol unhex expand t' g)
        (register_action-Steps digits strtol unhex expand n t' g refl)

  grammar_entry :
      (n : ℕ) (g : CodeGenImpl) (p : TokenPosition) (v : Option Name) (t : CgToken)
      → Ensures (Counts n g) (
          (deref v >>= λ name. done (record t { position = p; name = name; id = 0 })) >>= λ t'.
          register_grammar digits strtol unhex expand t' g >>= λ g'. done (n, g'))
  grammar_entry n g p none t = tt
  grammar_entry n g p (some name) t =
      let t' = record t { position = p; name = name; id = 0 } in
      with_number n n g (register_grammar digits strtol unhex expand t' g)
        (register_grammar-Steps digits strtol unhex expand n t' g)

  option_entry :
      (n : ℕ) (g : CodeGenImpl) (o : Outcome (CodegenOptions × InputFile))
      → Ensures (λ r. g.input.err_n ≤ r.1.err_n) o
      → Ensures (Counts n g) (o >>= λ r. done (n, record g { options = r.0; input = r.1 }))
  option_entry n g (done r) more = (more, λ clean inv. inv)
  option_entry n g (fault e) more = tt

  first_entry-Steps :
      (iter : KeyVal) (n : ℕ) (g : CodeGenImpl)
      → Ensures (Counts n g) (first_entry digits strtol unhex expand iter (n, g))
  unfolding first_entry
  first_entry-Steps iter n g = by_kind iter.kind refl
    where
      by_kind :
          (k : KeyValKind)
          → iter.kind ≡ k
          → Ensures (Counts n g) (first_entry digits strtol unhex expand iter (n, g))
      by_kind top e =
          rw (e, Ensures)
            (with_number n n g _ (
              single_code-Steps n iter g.top_code (λ c. record g { top_code = c }) g
                (λ c. same_tokens n g)))
      by_kind bottom e =
          rw (e, Ensures)
            (with_number n n g _ (
              single_code-Steps n iter g.bottom_code (λ c. record g { bottom_code = c }) g
                (λ c. same_tokens n g)))
      by_kind union e =
          rw (e, Ensures)
            (with_number n n g _ (
              single_code-Steps n iter g.union_code (λ c. record g { union_code = c }) g
                (λ c. same_tokens n g)))
      by_kind include e =
          rw (e, Ensures)
            (with_number n n g _ (
              single_code-Steps n iter g.include_code (λ c. record g { include_code = c }) g
                (λ c. same_tokens n g)))
      by_kind lexer e = rw (e, Ensures) tt
      by_kind token e = rw (e, Ensures) (action_entry n g iter.position iter.value blank)
      by_kind token_ascii e =
          rw (e, Ensures)
            (action_entry n g iter.position iter.value (record blank { class = ascii_action }))
      by_kind token_type e =
          rw (e, Ensures)
            (action_entry n g iter.position iter.value
              (record blank { class = typed_action (or_empty iter.key) }))
      by_kind type e =
          rw (e, Ensures)
            (grammar_entry n g iter.position iter.value
              (record blank { class = grammar_token (or_empty iter.key) }))
      by_kind option e =
          rw (e, Ensures)
            (option_entry n g _
              (handle_option-counts digits strtol unhex expand iter g.options g.input))
      by_kind left e = rw (e, Ensures) (same_tokens n g)
      by_kind right e = rw (e, Ensures) (same_tokens n g)
      by_kind macro e = rw (e, Ensures) (same_tokens n g)
      by_kind start e = rw (e, Ensures) (same_tokens n g)
      by_kind destructor e = rw (e, Ensures) (same_tokens n g)

  pub first_round-Steps :
      (iters : List KeyVal) (n : ℕ) (g : CodeGenImpl)
      → Ensures (Counts n g) (first_round digits strtol unhex expand iters (n, g))
  unfolding first_round
  first_round-Steps [] n g = same_tokens n g
  first_round-Steps (iter ∷ iters) n g =
      Ensures-bind (Counts n g) (Counts n g) (first_entry digits strtol unhex expand iter (n, g))
        (first_round digits strtol unhex expand iters) (first_entry-Steps iter n g)
        (λ s step.
          later s step (first_round digits strtol unhex expand iters s)
            (first_round-Steps iters (s.0) (s.1)))
    where
      later :
          (s : ℕ × CodeGenImpl)
          → Counts n g s
          → (o : Outcome (ℕ × CodeGenImpl)) → Ensures (Counts (s.0) (s.1)) o
          → Ensures (Counts n g) o
      later s step (done s') steps = Steps-trans n g (s.0) (s.1) (s'.0) (s'.1) step steps
      later s step (fault e) steps = tt
