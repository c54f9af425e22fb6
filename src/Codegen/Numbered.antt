-- ===== src/Codegen/Numbered.antt =====
-- About the tokens of a header: `parse_header` of src/codegen/codegen.cc.
use neoast.Common.{
  ℕ, suc, ◌+◌, ◌≤◌, ◌≡◌, refl, ap, ap₂, sym, ◌∙◌, subst, List, [], ◌∷◌, ◌++◌, length, get_elem?,
  Option, none, some, ℤ, arith, ◌⊎◌, inl, inr, length-append,
}
use neoast.Common.{Outcome, done, fault, >>=-eq-done, Ensures, Ensures-done}
use neoast.Codegen.{Name, KeyVal}
use neoast.Codegen.Lines.{InputFile, repeated_token}
use neoast.Codegen.Classes.{CgToken}
use neoast.Codegen.Impl.{
  CodeGenImpl, find_token, names_of, get_token, number_from, augment_name, code_gen,
}
use neoast.Codegen.Header.{
  register_grammar, first_round, second_round, eof_token, augment_token, parse_header, debug_names,
}
use neoast.Codegen.InOrder.{
  names_of-append, Distinct, Ids, Ids-append, Ids-get, find_token-get, InOrder,
}
use neoast.Codegen.HeaderSteps.{Steps, Steps-trans, register_grammar-Steps, report-counts}
use neoast.Codegen.FirstRound.{first_round-Steps}
use neoast.Codegen.SecondRound.{second_round-Steps}

number_from-Ids :
    (k : ℕ) (ts : List CgToken)
    → Ensures
        (λ ts'. Ids k ts' × (names_of ts' ≡ names_of ts) × (length ts' ≡ length ts))
        (number_from k ts)
unfolding number_from
number_from-Ids k [] = (tt, refl, refl)
number_from-Ids k (t ∷ ts) = ground (arith, number_from-Ids (suc k) ts)

-- The tokens of a header: each has the number of its place and is found by its name, and the last
-- one is the augment token.
pub record IsNumbered (g : CodeGenImpl) : Type 0 where
  pub ids :
      (i : ℕ) (t : CgToken) → get_elem? (g.action_tokens ++ g.grammar_tokens) i ≡ some t → t.id ≡ i
  pub found :
      (i : ℕ) (t : CgToken)
      → get_elem? (g.action_tokens ++ g.grammar_tokens) i ≡ some t
      → get_token g t.name ≡ some t
  pub names : g.tokens ≡ names_of (g.action_tokens ++ g.grammar_tokens)
  pub augment : (t : CgToken) × (get_token g augment_name ≡ some t) × (suc t.id ≡ length g.tokens)

get_elem?-second :
    (xs ys : List CgToken) (j : ℕ) → get_elem? (xs ++ ys) (length xs + j) ≡ get_elem? ys j
get_elem?-second [] ys j = ap (get_elem? ys) (omega arith)
get_elem?-second (x ∷ xs) ys j = ap (get_elem? (x ∷ (xs ++ ys))) next ∙ get_elem?-second xs ys j
  where
    next : suc (length xs) + j ≡ suc (length xs + j)
    next = omega arith

length-names_of : (ts : List CgToken) → length (names_of ts) ≡ length ts
length-names_of [] = refl
length-names_of (t ∷ ts) = ap suc (length-names_of ts)

-- Equal names at the last place.
last_name :
    (ts xs : List CgToken) (a : CgToken)
    → names_of ts ≡ names_of (xs ++ a ∷ [])
    → (t : CgToken) × (get_elem? ts (length xs) ≡ some t)
      × (t.name ≡ a.name)
      × (length ts ≡ suc (length xs))
last_name [] [] a e = cc
last_name [] (x ∷ xs) a e = cc
last_name (t ∷ ts) [] a e = (t, refl, cc, alone ts (cc))
  where
    alone : (us : List CgToken) → names_of us ≡ [] → suc (length us) ≡ 1
    alone [] h = refl
    alone (u ∷ us) h = cc
last_name (t ∷ ts) (x ∷ xs) a e =
    let (u, got, same, long) = last_name ts xs a (cc) in (u, got, same, ap suc long)

module _ (digits : ℕ → ℕ) (strtol : Name → ℤ) (unhex : Name → ℕ)
    (expand : List (Name × Name) → Name → Name) where
  register_grammar-adds :
      (t : CgToken) (g : CodeGenImpl)
      → Ensures
          (λ g'.
            (g'.input.err_n ≡ g.input.err_n + 1) ⊎ (g'.grammar_tokens ≡ g.grammar_tokens ++ t ∷ []))
          (register_grammar digits strtol unhex expand t g)
  unfolding register_grammar
  register_grammar-adds t g = split (get_token g t.name) refl
    where
      P : CodeGenImpl → Type 0
      P g' = (g'.input.err_n ≡ g.input.err_n + 1) ⊎ (g'.grammar_tokens ≡ g.grammar_tokens ++ t ∷ [])

      reported :
          (o : Outcome CodeGenImpl)
          → Ensures (λ g'. g'.input.err_n ≡ g.input.err_n + 1) o
          → Ensures P o
      reported (done g') e = inl e
      reported (fault x) e = tt

      split :
          (o : Option CgToken)
          → get_token g t.name ≡ o
          → Ensures P (register_grammar digits strtol unhex expand t g)
      split (some other) e =
          rw (e, Ensures)
            (reported _
              (report-counts digits strtol unhex expand (some t.position) repeated_token g))
      split none e = rw (e, Ensures) (inr refl)

-- The list that the numbering leaves.
numbered-IsNumbered :
    (n : ℕ) (g : CodeGenImpl) (ns xs : List CgToken) (a : CgToken) (as_ : List Name)
    → InOrder n g.action_tokens g.grammar_tokens
    → Ids n ns
    → names_of ns ≡ names_of g.grammar_tokens
    → g.grammar_tokens ≡ xs ++ a ∷ []
    → a.name ≡ augment_name
    → IsNumbered (record g {
      grammar_tokens = ns;
      tokens = names_of g.action_tokens ++ names_of ns;
      tokens_names = as_ ++ names_of ns;
    })
unfolding get_token
numbered-IsNumbered n g ns xs a as_ inv numbers same last name =
    let all = g.action_tokens ++ ns in
    let ids : Ids 0 all =
      Ids-append 0 g.action_tokens ns inv.ids
        (subst (λ k. Ids k ns) (omega (arith, inv.count)) numbers) in
    let distinct : Distinct (names_of all) =
      subst Distinct
        (sym (names_of-append g.action_tokens ns ∙ ap (λ ks. names_of g.action_tokens ++ ks) same))
        inv.distinct in
    let (t, got, called, long) = last_name ns xs a (same ∙ ap names_of last) in
    let place = length g.action_tokens + length xs in
    let got' : get_elem? all place ≡ some t =
      get_elem?-second g.action_tokens ns (length xs) ∙ got in
    let found : find_token augment_name all ≡ some t =
      subst (λ k. find_token k all ≡ some t) (called ∙ name)
        (find_token-get all place t distinct got') in
    let id : t.id ≡ place = Ids-get 0 all place t ids got' ∙ omega arith in
    let total : length (names_of g.action_tokens ++ names_of ns)
        ≡ length g.action_tokens + length ns =
      length-append (names_of g.action_tokens) (names_of ns)
      ∙ ap₂ (λ i j. i + j) (length-names_of g.action_tokens) (length-names_of ns) in
    record {
      ids = λ i u at_i. Ids-get 0 all i u ids at_i ∙ omega arith;
      found = λ i u at_i. find_token-get all i u distinct at_i;
      names = sym (names_of-append g.action_tokens ns);
      augment = (t, found, omega (arith, id, total, long));
    }

module _ (digits : ℕ → ℕ) (strtol : Name → ℤ) (unhex : Name → ℕ)
    (expand : List (Name × Name) → Name → Name) where
  -- After `parse_header` has ended without a message about an error, each token has its place in the
  -- list of the tokens as its number and is found by its name, `tokens` are the names in that order, and
  -- the token with the last number is TOK_AUGMENT.
  pub parse_header-IsNumbered :
      (header : List KeyVal) (f : InputFile) (g : CodeGenImpl)
      → parse_header digits strtol unhex expand header (code_gen f) ≡ done g
      → g.input.err_n ≡ 0
      → IsNumbered g
  unfolding parse_header
  parse_header-IsNumbered header f g h clean =
      let start : CodeGenImpl = record (code_gen f) {
        action_tokens = eof_token digits strtol unhex expand ∷ [];
      } in
      let ((n, g₁), e₁, h₁) =
        >>=-eq-done (first_round digits strtol unhex expand header (1, start)) _ h in
      let (g₂, e₂, h₂) = >>=-eq-done (second_round digits strtol unhex expand header g₁) _ h₁ in
      let a = augment_token digits strtol unhex expand g₂ in
      let (g₃, e₃, h₃) = >>=-eq-done (register_grammar digits strtol unhex expand a g₂) _ h₂ in
      let (ns, e₄, h₄) = >>=-eq-done (number_from n g₃.grammar_tokens) _ h₃ in
      let (as_, e₅, h₅) =
        >>=-eq-done (debug_names digits strtol unhex expand g₃.action_tokens) _ h₄ in
      let end : CodeGenImpl = record g₃ {
        grammar_tokens = ns;
        tokens = names_of g₃.action_tokens ++ names_of ns;
        tokens_names = as_ ++ names_of ns;
      } in
      let same : end ≡ g = done_eq h₅ in
      let clean₃ : g₃.input.err_n ≡ 0 = ap (λ x. x.input.err_n) same ∙ clean in
      let steps₁ =
        Ensures-done (λ s. Steps 1 start (s.0) (s.1))
          (first_round-Steps digits strtol unhex expand header 1 start) e₁ in
      let steps₂ =
        Ensures-done (λ x. Steps n g₁ n x)
          (second_round-Steps digits strtol unhex expand header n g₁) e₂ in
      let steps₃ =
        Ensures-done (λ x. Steps n g₂ n x)
          (register_grammar-Steps digits strtol unhex expand n a g₂) e₃ in
      let all = Steps-trans 1 start n g₁ n g₃ steps₁ (Steps-trans n g₁ n g₂ n g₃ steps₂ steps₃) in
      let inv = all.1 clean₃ (record { ids = (refl, tt); count = refl; distinct = (refl, tt) }) in
      let (numbers, names, long) =
        Ensures-done
          (λ ts.
            Ids n ts
            × (names_of ts ≡ names_of g₃.grammar_tokens)
            × (length ts ≡ length g₃.grammar_tokens))
          (number_from-Ids n g₃.grammar_tokens) e₄ in
      let last = added g₂ g₃ steps₃.0 clean₃ (
        Ensures-done
          (λ x.
            (x.input.err_n ≡ g₂.input.err_n + 1) ⊎ (x.grammar_tokens ≡ g₂.grammar_tokens ++ a ∷ []))
          (register_grammar-adds digits strtol unhex expand a g₂) e₃) in
      subst IsNumbered same
        (numbered-IsNumbered n g₃ ns g₂.grammar_tokens a as_ inv numbers names last refl)
    where
      done_eq : {x y : CodeGenImpl} → (done x ≡ done y) → x ≡ y
      done_eq e = cc

      added :
          (g₂ g₃ : CodeGenImpl) {P : Type 0}
          → g₂.input.err_n ≤ g₃.input.err_n
          → g₃.input.err_n ≡ 0
          → (g₃.input.err_n ≡ g₂.input.err_n + 1) ⊎ P
          → P
      added g₂ g₃ more zero_errors (inl e) = absurd (omega (arith, e, zero_errors))
      added g₂ g₃ more zero_errors (inr p) = p
