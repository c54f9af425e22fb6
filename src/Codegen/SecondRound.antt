-- ===== src/Codegen/SecondRound.antt =====
-- What the second round over a header does to the tokens.
use neoast.Common.{
  ℕ, ◌≡◌, refl, List, [], ◌∷◌, Bool, true, false, ◌&&◌, Option, none, some, ℤ, arith,
}
use neoast.Common.{
  if◌then◌else◌, Outcome, done, fault, ◌>>=◌, Ensures, Ensures-then, Ensures-bind, deref,
}
use neoast.Codegen.{
  Name, KeyVal, KeyValKind, top, bottom, option, token, token_ascii, token_type, type, left, right,
  macro, start, union, destructor, lexer, include,
}
use neoast.Codegen.Lines.{
  InputFile, emit_warning, type_in_precedence, repeated_precedence, undefined_token, repeated_start,
  repeated_destructor,
}
use neoast.Codegen.Classes.{eqb_name, CgToken, is_cg_action, Code}
use neoast.Parsergen.Collection.{lookup}
use neoast.Parsergen.Table.{precedence_left, precedence_right}
use neoast.Codegen.Impl.{CodeGenImpl, get_token, code_of, put_name, lookup_name}
use neoast.Codegen.Header.{
  report, set_precedence, add_macro, set_start, add_destructor, second_entry, second_round,
}
use neoast.Codegen.HeaderSteps.{emit_warning-keeps, report-Steps, Steps, Steps-trans, same_tokens}

module _ (digits : ℕ → ℕ) (strtol : Name → ℤ) (unhex : Name → ℕ)
    (expand : List (Name × Name) → Name → Name) where
  set_precedence-Steps :
      (iter : KeyVal) (direction n : ℕ) (g : CodeGenImpl)
      → Ensures (λ g'. Steps n g n g') (set_precedence digits strtol unhex expand iter direction g)
  unfolding set_precedence
  set_precedence-Steps iter direction n g = named iter.value refl
    where
      Result : Type 0
      Result =
          Ensures (λ g'. Steps n g n g')
            (set_precedence digits strtol unhex expand iter direction g)

      mapped :
          (name : Name) (t : CgToken)
          → iter.value ≡ some name
          → get_token g name ≡ some t
          → (o : Option ℕ) → lookup t.id g.precedence_mapping ≡ o
          → (b : Bool) → is_cg_action t ≡ b
          → Result
      mapped name t e e' o e'' false b =
          rw (e, e', b, Ensures)
            (report-Steps digits strtol unhex expand n n (some iter.position) type_in_precedence g)
      mapped name t e e' (some x) e'' true b =
          rw (e, e', b, e'', Ensures)
            (report-Steps digits strtol unhex expand n n (some iter.position) repeated_precedence g)
      mapped name t e e' none e'' true b = rw (e, e', b, e'', Ensures) (same_tokens n g)

      found :
          (name : Name)
          → iter.value ≡ some name
          → (o : Option CgToken) → get_token g name ≡ o
          → Result
      found name e none e' =
          rw (e, e', Ensures)
            (report-Steps digits strtol unhex expand n n (some iter.position) undefined_token g)
      found name e (some t) e' =
          mapped name t e e' (lookup t.id g.precedence_mapping) refl (is_cg_action t) refl

      named : (v : Option Name) → iter.value ≡ v → Result
      named none e = rw (e, Ensures) tt
      named (some name) e = found name e (get_token g name) refl

  add_macro-Steps :
      (iter : KeyVal) (n : ℕ) (g : CodeGenImpl)
      → Ensures (λ g'. Steps n g n g') (add_macro digits strtol unhex expand iter g)
  unfolding add_macro
  add_macro-Steps iter n g = named iter.key iter.value
    where
      named :
          (key value : Option Name)
          → Ensures
              (λ g'. Steps n g n g')
              (deref key >>= λ k. deref value >>= λ v.
                done (record g { macros = put_name k (expand g.macros v) g.macros }))
      named none value = tt
      named (some k) none = tt
      named (some k) (some v) = same_tokens n g

  set_start-Steps :
      (iter : KeyVal) (n : ℕ) (g : CodeGenImpl)
      → Ensures (λ g'. Steps n g n g') (set_start digits strtol unhex expand iter g)
  unfolding set_start
  set_start-Steps iter n g =
      warned iter.key iter.value _ (quiet (eqb_name g.start_type [] && eqb_name g.start_token []))
    where
      quiet :
          (b : Bool)
          → Ensures
              (λ f'. f'.err_n ≡ g.input.err_n)
              (if b
                then done g.input
                else emit_warning digits g.input (some iter.position) repeated_start)
      quiet true = refl
      quiet false =
          emit_warning-keeps digits strtol unhex expand g.input (some iter.position) repeated_start

      warned :
          (key value : Option Name) (o : Outcome InputFile)
          → Ensures (λ f'. f'.err_n ≡ g.input.err_n) o
          → Ensures
              (λ g'. Steps n g n g')
              (o >>= λ f. deref key >>= λ k.
                deref value >>= λ v. done (record g { input = f; start_type = k; start_token = v }))
      warned key value (fault e) same = tt
      warned none value (done f) same = tt
      warned (some k) none (done f) same = tt
      warned (some k) (some v) (done f) same = (omega (arith, same), λ clean inv. inv)

  add_destructor-Steps :
      (iter : KeyVal) (n : ℕ) (g : CodeGenImpl)
      → Ensures (λ g'. Steps n g n g') (add_destructor digits strtol unhex expand iter g)
  unfolding add_destructor
  add_destructor-Steps iter n g = named iter.key refl
    where
      P : CodeGenImpl → Type 0
      P g' = Steps n g n g'

      stored :
          (k : Name) (o : Outcome CodeGenImpl)
          → Ensures P o
          → Ensures P (
              o >>= λ g'.
              code_of iter >>= λ c. done (record g' { destructors = put_name k c g'.destructors }))
      stored k (fault e) step = tt
      stored k (done g') step =
          Ensures-then P (code_of iter)
            (λ c. done (record g' { destructors = put_name k c g'.destructors })) (λ c. step)

      known :
          (k : Name)
          → iter.key ≡ some k
          → (o : Option Code) → lookup_name k g.destructors ≡ o
          → Ensures P (add_destructor digits strtol unhex expand iter g)
      known k e none e' = rw (e, e', Ensures) (stored k (done g) (same_tokens n g))
      known k e (some old) e' =
          rw (e, e', Ensures)
            (stored k (report digits strtol unhex expand (some iter.position) repeated_destructor g)
              (report-Steps digits strtol unhex expand n n (some iter.position) repeated_destructor
                g))

      named :
          (key : Option Name)
          → iter.key ≡ key
          → Ensures P (add_destructor digits strtol unhex expand iter g)
      named none e = rw (e, Ensures) tt
      named (some k) e = known k e (lookup_name k g.destructors) refl

  second_entry-Steps :
      (iter : KeyVal) (n : ℕ) (g : CodeGenImpl)
      → Ensures (λ g'. Steps n g n g') (second_entry digits strtol unhex expand iter g)
  unfolding second_entry
  second_entry-Steps iter n g = by_kind iter.kind refl
    where
      P : CodeGenImpl → Type 0
      P g' = Steps n g n g'

      by_kind :
          (k : KeyValKind)
          → iter.kind ≡ k
          → Ensures P (second_entry digits strtol unhex expand iter g)
      by_kind left e = rw (e, Ensures) (set_precedence-Steps iter precedence_left n g)
      by_kind right e = rw (e, Ensures) (set_precedence-Steps iter precedence_right n g)
      by_kind macro e = rw (e, Ensures) (add_macro-Steps iter n g)
      by_kind start e = rw (e, Ensures) (set_start-Steps iter n g)
      by_kind destructor e = rw (e, Ensures) (add_destructor-Steps iter n g)
      by_kind top e = rw (e, Ensures) (same_tokens n g)
      by_kind bottom e = rw (e, Ensures) (same_tokens n g)
      by_kind union e = rw (e, Ensures) (same_tokens n g)
      by_kind include e = rw (e, Ensures) (same_tokens n g)
      by_kind lexer e = rw (e, Ensures) (same_tokens n g)
      by_kind token e = rw (e, Ensures) (same_tokens n g)
      by_kind token_ascii e = rw (e, Ensures) (same_tokens n g)
      by_kind token_type e = rw (e, Ensures) (same_tokens n g)
      by_kind type e = rw (e, Ensures) (same_tokens n g)
      by_kind option e = rw (e, Ensures) (same_tokens n g)

  pub second_round-Steps :
      (iters : List KeyVal) (n : ℕ) (g : CodeGenImpl)
      → Ensures (λ g'. Steps n g n g') (second_round digits strtol unhex expand iters g)
  unfolding second_round
  second_round-Steps [] n g = same_tokens n g
  second_round-Steps (iter ∷ iters) n g =
      Ensures-bind (λ g'. Steps n g n g') (λ g'. Steps n g n g')
        (second_entry digits strtol unhex expand iter g)
        (second_round digits strtol unhex expand iters) (second_entry-Steps iter n g)
        (λ g' step.
          later g' step (second_round digits strtol unhex expand iters g')
            (second_round-Steps iters n g'))
    where
      later :
          (g' : CodeGenImpl)
          → Steps n g n g'
          → (o : Outcome CodeGenImpl) → Ensures (λ g''. Steps n g' n g'') o
          → Ensures (λ g''. Steps n g n g'') o
      later g' step (done g'') steps = Steps-trans n g n g' n g'' step steps
      later g' step (fault e) steps = tt
