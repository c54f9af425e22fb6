-- ===== src/Codegen/Pushed.antt =====
-- What the constructor of `CGGrammar` adds to the table.
use mathlib.Core.List.{append-nil, append_assoc}
use neoast.Common.{
  ℕ, suc, ◌+◌, ◌≤◌, ◌≡◌, refl, ap, ap₂, sym, ◌∙◌, List, [], ◌∷◌, ◌++◌, length, Option, none, some,
  arith, done, Ensures, Ensures-map, Ensures-bind,
}
use neoast.Runtime.Types.{TokenPosition}
use neoast.Codegen.{Name, Token}
use neoast.Codegen.Lines.{Notice, undeclared_token}
use neoast.Codegen.Classes.{CgToken, type_of}
use neoast.Codegen.Impl.{CodeGenImpl, get_token}
use neoast.Codegen.HeaderSteps.{emit_error-counts}
use neoast.Codegen.Grammars.{CgGrammar, Grammars, token_number, complain, push_tokens}

-- The declared tokens among those of a rule, as numbers.
abbrev pub found : CodeGenImpl → Option Name → Option CgToken
found cg none = none
found cg (some name) = get_token cg name

abbrev pub add_symbol : Option CgToken → List ℕ → List ℕ
add_symbol none ns = ns
add_symbol (some t) ns = token_number t ∷ ns

abbrev pub symbols : CodeGenImpl → List Token → List ℕ
symbols cg [] = []
symbols cg (iter ∷ iters) = add_symbol (found cg iter.name) (symbols cg iters)

-- The rules that are there stay, and no message is taken back.
pub record Same (s s' : Grammars) : Type 0 where
  pub rules_cg : s'.rules_cg ≡ s.rules_cg
  pub grammar_n : s'.grammar_n ≡ s.grammar_n
  pub errors_stay : s.input.err_n ≤ s'.input.err_n

pub record Pushed (cg : CodeGenImpl) (iters : List Token) (r r' : CgGrammar × Grammars)
    : Type 0 where
  pub parent : r'.0.parent ≡ r.0.parent
  pub return_type : r'.0.return_type ≡ r.0.return_type
  pub table_offset : r'.0.table_offset ≡ r.0.table_offset
  pub token_n : r'.0.token_n ≡ r.0.token_n + length (symbols cg iters)
  pub table : r'.1.table ≡ r.1.table ++ symbols cg iters
  pub same : Same (r.1) (r'.1)
  pub complete : r'.1.input.err_n ≡ 0 → length (symbols cg iters) ≡ length iters

Same-trans : (s s' s'' : Grammars) → Same s s' → Same s' s'' → Same s s''
Same-trans s s' s'' p q = record {
  rules_cg = q.rules_cg ∙ p.rules_cg;
  grammar_n = q.grammar_n ∙ p.grammar_n;
  errors_stay = omega (arith, p.errors_stay, q.errors_stay);
}

module _ (digits : ℕ → ℕ) where
  pub complain-Same :
      (p : Option TokenPosition) (what : Notice) (s : Grammars)
      → Ensures
          (λ s'. (s'.input.err_n ≡ s.input.err_n + 1) × (s'.table ≡ s.table) × Same s s')
          (complain digits p what s)
  unfolding complain
  complain-Same p what s =
      Ensures-bind (λ s'. (s'.input.err_n ≡ s.input.err_n + 1) × (s'.table ≡ s.table) × Same s s')
        (λ f. f.err_n ≡ s.input.err_n + 1) _ (λ f. done (record s { input = f }))
        (emit_error-counts digits s.input p what)
        (λ f e.
          (e, refl, record { rules_cg = refl; grammar_n = refl; errors_stay = omega (arith, e) }))

  pub push_tokens-Pushed :
      (cg : CodeGenImpl) (iters : List Token) (rule : CgGrammar) (s : Grammars)
      → Ensures (Pushed cg iters (rule, s)) (push_tokens digits cg iters (rule, s))
  unfolding push_tokens
  push_tokens-Pushed cg [] rule s = record {
    parent = refl;
    return_type = refl;
    table_offset = refl;
    token_n = omega arith;
    table = sym (append-nil s.table);
    same = record { rules_cg = refl; grammar_n = refl; errors_stay = omega arith };
    complete = λ clean. refl;
  }
  push_tokens-Pushed cg (iter ∷ iters) rule s = named (push_tokens-Pushed cg iters) iter.name refl
    where
      Rest : Type 0
      Rest =
          (rule' : CgGrammar) (s' : Grammars)
          → Ensures (Pushed cg iters (rule', s')) (push_tokens digits cg iters (rule', s'))

      P : CgGrammar × Grammars → Type 0
      P = Pushed cg (iter ∷ iters) (rule, s)

      start :
          (name : Name)
          → iter.name ≡ some name
          → (o : Option CgToken) → get_token cg name ≡ o
          → symbols cg (iter ∷ iters) ≡ add_symbol o (symbols cg iters)
      start name e o e' =
          ap (λ k. add_symbol (found cg k) (symbols cg iters)) e
          ∙ ap (λ x. add_symbol x (symbols cg iters)) e'

      skipped :
          (name : Name)
          → iter.name ≡ some name
          → get_token cg name ≡ none
          → (s₁ : Grammars)
          → (s₁.input.err_n ≡ s.input.err_n + 1) × (s₁.table ≡ s.table) × Same s s₁
          → (r : CgGrammar × Grammars) → Pushed cg iters (rule, s₁) r
          → P r
      skipped name e e' s₁ (errors, table, same) r q =
          let none_there : symbols cg (iter ∷ iters) ≡ symbols cg iters = start name e none e' in
          record {
            parent = q.parent;
            return_type = q.return_type;
            table_offset = q.table_offset;
            token_n = q.token_n ∙ ap (λ xs. rule.token_n + length xs) (sym none_there);
            table = q.table ∙ ap₂ (λ xs ys. xs ++ ys) table (sym none_there);
            same = Same-trans s s₁ (r.1) same q.same;
            complete = λ clean. absurd (omega (arith, clean, errors, q.same.errors_stay));
          }

      pushed :
          (name : Name)
          → iter.name ≡ some name
          → (t : CgToken) → get_token cg name ≡ some t
          → (r : CgGrammar × Grammars)
          → Pushed cg iters
              (
                record rule {
                  token_n = rule.token_n + 1;
                  argument_types = rule.argument_types ++ type_of t ∷ [];
                },
                record s { table = s.table ++ token_number t ∷ [] },
              )
              r
          → P r
      pushed name e t e' r q =
          let first : symbols cg (iter ∷ iters) ≡ token_number t ∷ symbols cg iters =
            start name e (some t) e' in
          record {
            parent = q.parent;
            return_type = q.return_type;
            table_offset = q.table_offset;
            token_n = omega (arith, q.token_n, ap length first);
            table =
                q.table
                ∙ append_assoc s.table (token_number t ∷ []) (symbols cg iters)
                ∙ ap (λ xs. s.table ++ xs) (sym first);
            same = record {
              rules_cg = q.same.rules_cg;
              grammar_n = q.same.grammar_n;
              errors_stay = q.same.errors_stay;
            };
            complete = λ clean. ap length first ∙ ap suc (q.complete clean);
          }

      known :
          Rest
          → (name : Name) → iter.name ≡ some name
          → (o : Option CgToken) → get_token cg name ≡ o
          → Ensures P (push_tokens digits cg (iter ∷ iters) (rule, s))
      known rest name e none e' =
          rw (e, e', Ensures)
            (Ensures-bind P
              (λ s₁. (s₁.input.err_n ≡ s.input.err_n + 1) × (s₁.table ≡ s.table) × Same s s₁)
              (complain digits (some iter.position) undeclared_token s)
              (λ s₁. push_tokens digits cg iters (rule, s₁))
              (complain-Same (some iter.position) undeclared_token s)
              (λ s₁ q.
                Ensures-map (push_tokens digits cg iters (rule, s₁)) (skipped name e e' s₁ q)
                  (rest rule s₁)))
      known rest name e (some t) e' =
          rw (e, e', Ensures) (Ensures-map _ (pushed name e t e') (rest _ _))

      named :
          Rest
          → (o : Option Name) → iter.name ≡ o
          → Ensures P (push_tokens digits cg (iter ∷ iters) (rule, s))
      named rest none e = rw (e, Ensures) tt
      named rest (some name) e = known rest name e (get_token cg name) refl
