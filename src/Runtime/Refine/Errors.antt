-- ===== src/Runtime/Refine/Errors.antt =====
-- The error paths on a machine that represents a configuration: which values are destroyed, in
-- which order, and that nothing is read out of bounds.
use neoast.Common.{
  ℕ, zero, suc, ◌+◌, ◌*◌, ◌%◌, ◌^◌, ◌≤◌, ◌<◌, ◌≡◌, refl, ◌∙◌, ap, List, [], ◌∷◌, length,
}
use neoast.Common.{
  Bool, true, false, ◌&&◌, ◌==◌, Option, none, some, get_elem?, get_or, set, ltb, leb,
}
use neoast.Common.{
  if◌then◌else◌, ℤ, pos, to_u32, done, arith, get_elem?-eq-get_or, Outcome, subst, sym, assert,
  ◌>>=◌, get_elem?_total,
}
use neoast.Runtime.Types.{Value, GrammarParser, TokenPosition}
use neoast.Runtime.Stack.{IsStack, pop_lem}
use neoast.Runtime.Table.{tok_syntax_error}
use neoast.Runtime.Client.{Client, Machine}
use neoast.Runtime.Errors.{
  report_to, run_all, has_destructor, destroy_if, run_destructor, unwind, run_destructors,
  parse_error, expected_from,
}
use neoast.Runtime.Automaton.{Frame}
use neoast.Runtime.Refine.Rel.{flat, length-flat, Tables, Tables-set_value}

module _ {U E : Type 0} (client : Client U E) (parser : GrammarParser) where
  -- The effect of destroying one value, and of destroying those of a stack from its top down.
  abbrev pub destroyed : List Bool → ℕ → Value U → E → E
  destroyed ds t v env =
      if ltb t parser.token_n && get_or ds t false then client.destructor t v env else env

  abbrev pub destroyed_all : List Bool → List (Frame U) → E → E
  destroyed_all ds [] env = env
  destroyed_all ds (f ∷ fs) env =
      destroyed_all ds fs (destroyed ds (to_u32 (pos f.symbol)) f.value env)

  has_destructor_lem :
      (ds : List Bool) (t : ℕ)
      → parser.token_n ≤ length ds
      → has_destructor client parser ds t ≡ done (ltb t parser.token_n && get_or ds t false)
  unfolding has_destructor
  has_destructor_lem ds t sized = ground (arith, get_elem?-eq-get_or ds t false)

  -- One value destroyed, or kept: the cells below it, the tokens and the stack stay as they are.
  abbrev AfterDestroy : Machine U E → Outcome (Machine U E) → E → List (Frame U) → Type 0
  AfterDestroy m o env fs =
      (m' : Machine U E) × (o ≡ done m')
      × (m'.env ≡ env)
      × (m'.parsing_stack ≡ m.parsing_stack)
      × Tables m'.value_table m'.token_table fs

  destroy_if_lem :
      (b : Bool) (m : Machine U E) (index t : ℕ) (v : Value U) (fs : List (Frame U))
      → get_elem? m.value_table index ≡ some v
      → length fs ≤ index
      → Tables m.value_table m.token_table fs
      → AfterDestroy m
          (destroy_if client parser b t index m)
          (if b then client.destructor t v m.env else m.env)
          fs
  unfolding destroy_if
  destroy_if_lem false m index t v fs is_val below tables = (m, refl, refl, refl, tables)
  destroy_if_lem true m index t v fs is_val below tables = (
    record m {
      env = client.destructor t v m.env;
      value_table = set m.value_table index client.zeroed;
    },
    ground (arith, is_val),
    refl,
    refl,
    Tables-set_value m.value_table m.token_table fs index client.zeroed below tables,
  )

  run_destructor_lem :
      (ds : List Bool) (m : Machine U E) (index : ℕ) (t : ℤ) (v : Value U) (fs : List (Frame U))
      → parser.token_n ≤ length ds
      → get_elem? m.token_table index ≡ some t
      → get_elem? m.value_table index ≡ some v
      → length fs ≤ index
      → Tables m.value_table m.token_table fs
      → AfterDestroy m
          (run_destructor client parser ds m index)
          (destroyed ds (to_u32 t) v m.env)
          fs
  unfolding run_destructor
  run_destructor_lem ds m index t v fs sized is_tok is_val below tables =
      let (m', e, rest, same, kept) =
        destroy_if_lem (ltb (to_u32 t) parser.token_n && get_or ds (to_u32 t) false) m index
          (to_u32 t) v fs is_val below tables in
      (m', rw (is_tok, has_destructor_lem ds (to_u32 t) sized) e, rest, same, kept)

  -- The loop destroys the frames from the top down, and leaves the first state on the stack.
  unwind_lem :
      (ds : List Bool) (rounds : ℕ) (fs : List (Frame U)) (m : Machine U E)
      → parser.token_n ≤ length ds
      → length fs ≤ rounds
      → IsStack m.parsing_stack (flat fs)
      → Tables m.value_table m.token_table fs
      → (m' : Machine U E) × (unwind client parser ds rounds m ≡ done m')
        × (m'.env ≡ destroyed_all ds fs m.env)
        × (m'.parsing_stack.pos ≡ 1)
  unfolding unwind
  unwind_lem ds zero [] m sized enough stack tables = (m, refl, refl, stack.height)
  unwind_lem ds zero (f ∷ fs) m sized enough stack tables = absurd (omega arith)
  unwind_lem ds (suc rounds) [] m sized enough stack tables =
      (m, ground (arith, stack.height), refl, stack.height)
  unwind_lem ds (suc rounds) (f ∷ fs) m sized enough stack tables =
      let (s₁, e₁, h₁, k₁) = pop_lem m.parsing_stack f.state (length fs ∷ flat fs) stack in
      let (s₂, e₂, h₂, k₂) = pop_lem s₁ (length fs) (flat fs) h₁ in
      let m₂ : Machine U E = record m { parsing_stack = s₂ } in
      let (m₃, e₃, env₃, same₃, kept₃) =
        run_destructor_lem ds m₂ (length fs) (pos f.symbol) f.value fs sized tables.1 tables.0
          (omega arith) tables.2 in
      let (m', e', env', one) =
        unwind_lem ds rounds fs m₃ sized (omega arith)
          (subst (λ s. IsStack s (flat fs)) (sym same₃) h₂) kept₃ in
      let deep : leb m.parsing_stack.pos 1 ≡ false = ground (arith, stack.height, length-flat fs) in
      (m', rw (deep, e₁, e₂, e₃) e', env' ∙ ap (λ e. destroyed_all ds fs e) env₃, one)

  -- The array of destructors, if there is one, has an entry for each column.
  abbrev pub IsSized : Option (List Bool) → Type 0
  IsSized none = Unit
  IsSized (some ds) = parser.token_n ≤ length ds

  -- What the error paths destroy: the invalid token, if one is given, and then the stack.
  abbrev pub cleaned : Option (List Bool) → Option (ℤ × Value U) → List (Frame U) → E → E
  cleaned none look fs env = env
  cleaned (some ds) none fs env = destroyed_all ds fs env
  cleaned (some ds) (some (t, v)) fs env = destroyed_all ds fs (destroyed ds (to_u32 t) v env)

  -- The invalid token's cell is above the stack.
  abbrev pub LookAt : Machine U E → List (Frame U) → Option ℕ → Option (ℤ × Value U) → Type 0
  LookAt m fs none none = Unit
  LookAt m fs none (some _) = ⊥
  LookAt m fs (some i) none = ⊥
  LookAt m fs (some i) (some (t, v)) =
      (get_elem? m.token_table i ≡ some t) × (get_elem? m.value_table i ≡ some v) × (length fs ≤ i)

  unwind_all :
      (ds : List Bool) (fs : List (Frame U)) (m : Machine U E)
      → parser.token_n ≤ length ds
      → IsStack m.parsing_stack (flat fs)
      → Tables m.value_table m.token_table fs
      → (m' : Machine U E) × ((assert (m.parsing_stack.pos % 2 == 1) >>= λ _.
            unwind client parser ds m.parsing_stack.pos m)
          ≡ done m')
        × (m'.env ≡ destroyed_all ds fs m.env)
        × (m'.parsing_stack.pos ≡ 1)
  unwind_all ds fs m sized stack tables =
      let (m', e, env, one) =
        unwind_lem ds m.parsing_stack.pos fs m sized (omega (arith, stack.height, length-flat fs))
          stack tables in
      let odd : (m.parsing_stack.pos % 2 == 1) ≡ true =
        ground (arith, stack.height, length-flat fs) in
      (m', rw odd e, env, one)

  run_all_lem :
      (defined : Option (List Bool)) (m : Machine U E) (fs : List (Frame U)) (invalid : Option ℕ)
      (look : Option (ℤ × Value U))
      → IsSized defined
      → IsStack m.parsing_stack (flat fs)
      → Tables m.value_table m.token_table fs
      → LookAt m fs invalid look
      → (m' : Machine U E) × (run_all client parser defined m invalid ≡ done m')
        × (m'.env ≡ cleaned defined look fs m.env)
  unfolding run_all
  run_all_lem none m fs invalid look sized stack tables at = (m, refl, refl)
  run_all_lem (some ds) m fs none none sized stack tables at =
      let (m', e, env, one) = unwind_all ds fs m sized stack tables in (m', e, env)
  run_all_lem (some ds) m fs none (some _) sized stack tables at = absurd at
  run_all_lem (some ds) m fs (some i) none sized stack tables at = absurd at
  run_all_lem (some ds) m fs (some i) (some (t, v)) sized stack tables at =
      let (m₁, e₁, env₁, same, kept) =
        run_destructor_lem ds m i t v fs sized at.0 at.1 at.2 tables in
      let (m', e, env, one) =
        unwind_all ds fs m₁ sized (subst (λ s. IsStack s (flat fs)) (sym same) stack) kept in
      (m', rw e₁ e, env ∙ ap (λ x. destroyed_all ds fs x) env₁)

  -- The destructors run through, and destroy the invalid token, then every frame from the top down.
  pub run_destructors_lem :
      (m : Machine U E) (fs : List (Frame U)) (invalid : Option ℕ) (look : Option (ℤ × Value U))
      → IsSized parser.destructors
      → IsStack m.parsing_stack (flat fs)
      → Tables m.value_table m.token_table fs
      → LookAt m fs invalid look
      → (m' : Machine U E) × (run_destructors client parser m invalid ≡ done m')
        × (m'.env ≡ cleaned parser.destructors look fs m.env)
  unfolding run_destructors
  run_destructors_lem m fs invalid look sized stack tables at =
      run_all_lem parser.destructors m fs invalid look sized stack tables at

  -- The columns of a row that are no error, from column `i` on.
  abbrev pub expected : List ℕ → ℕ → ℕ → ℕ → List ℕ
  expected table off i zero = []
  expected table off i (suc left) =
      let rest = expected table off (i + 1) left in
      if get_or table (off + i) 0 == tok_syntax_error then rest else i ∷ rest

  expected_from_lem :
      (table : List ℕ) (off i left : ℕ)
      → off + i + left ≤ length table
      → length table ≤ 2 ^ 32
      → expected_from table off i left ≡ done (expected table off i left)
  unfolding expected_from
  expected_from_lem table off i zero h small = refl
  expected_from_lem table off i (suc left) h small =
      let no_wrap : (off + i) % 2 ^ 32 ≡ off + i = omega (arith, h, small) in
      rw
        (
          no_wrap,
          get_elem?-eq-get_or table (off + i) 0 (omega arith),
          expected_from_lem table off (i + 1) left (omega arith) small,
        )
        refl

  -- The start of a row wraps nowhere, unless the row is empty.
  row_lem :
      (table : List ℕ) (off n : ℕ)
      → off + n ≤ length table
      → length table ≤ 2 ^ 32
      → expected_from table (off % 2 ^ 32) 0 n ≡ done (expected table off 0 n)
  unfolding expected_from
  row_lem table off zero row small = refl
  row_lem table off (suc n) row small =
      ap (λ k. expected_from table k 0 (suc n)) (omega (arith, row, small))
      ∙ expected_from_lem table off 0 (suc n) (omega arith) small

  -- The effect of reporting a syntax error.
  abbrev pub reported : List ℕ → TokenPosition → ℕ → ℕ → ℕ → E → E
  reported table p state error_tok prev_tok env =
      report_to client parser client.parser_error
        (record {
          token_names = parser.token_names;
          position = p;
          last_token = prev_tok;
          current_token = error_tok;
          expected_tokens = expected table (state * parser.token_n) 0 parser.token_n;
        })
        env

  -- With both tokens named and the state's row inside the table, which has at most 2³² cells, a syntax
  -- error is reported: its position, the two tokens, and exactly the columns that hold no error, in
  -- order.
  pub parse_error_lem :
      (table : List ℕ) (p : TokenPosition) (state error_tok prev_tok : ℕ) (env : E)
      → error_tok < length parser.token_names
      → prev_tok < length parser.token_names
      → state * parser.token_n + parser.token_n ≤ length table
      → length table ≤ 2 ^ 32
      → parse_error client parser table p state error_tok prev_tok env
        ≡ done (reported table p state error_tok prev_tok env)
  unfolding parse_error
  parse_error_lem table p state error_tok prev_tok env e₁ e₂ row small =
      let (n₁, g₁) = get_elem?_total parser.token_names error_tok e₁ in
      let (n₂, g₂) = get_elem?_total parser.token_names prev_tok e₂ in
      rw (g₁, g₂, row_lem table (state * parser.token_n) parser.token_n row small)
