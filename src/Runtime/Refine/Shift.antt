-- ===== src/Runtime/Refine/Shift.antt =====
-- The lexer's call and the shift branch, on a machine that represents a configuration.
use neoast.Common.{ℕ, suc, ◌+◌, ◌*◌, ◌≤◌, ◌<◌, ◌≡◌, refl, List, ◌∷◌, length}
use neoast.Common.{pos, arith, done, set, some, get_elem?-set_self, length-set, ◌∙◌}
use neoast.Common.{get_elem?_total, ap}
use neoast.Runtime.Types.{Value, GrammarParser, ParsingStack}
use neoast.Runtime.Stack.{push, push_lem}
use neoast.Runtime.Client.{Client, Machine}
use neoast.Runtime.Loop.{next_token, do_shift}
use neoast.Runtime.Automaton.{Frame, Config, shifted, fetched}
use neoast.Runtime.Refine.Rel.{flat, length-flat, Tables-set_value, Tables-set_token}
use neoast.Runtime.Refine.Rel.{Placed, Represents}

module _ {U E : Type 0} (client : Client U E) (parser : GrammarParser) (table : List ℕ) where
  -- The lexer's call fills the cell at the top of the tables and leaves those below alone.
  pub next_token-Represents :
      {cells slots n : ℕ} {m : Machine U E} {fs : List (Frame U)} {prev : ℕ} {env : E}
      → length fs < cells
      → Placed cells slots n m fs prev env
      → (m' : Machine U E) × (cell : Value U) × (next_token client parser table m ≡ done m')
        × Represents cells slots n m' (fetched client fs prev env cell)
  unfolding next_token
  next_token-Represents {m} {fs} {prev} {env} room p =
      let (cell, got) = get_elem?_total m.value_table (length fs) (omega arith) in
      let (tok, look, env') = client.ll_next cell env in
      (
        record m {
          tok = tok;
          value_table = set m.value_table (length fs) look;
          token_table = set m.token_table (length fs) tok;
          env = env';
        },
        cell,
        ground
            (arith, get_elem?_total m.token_table m.i (omega arith), p.lex, p.index, p.heap, got),
        record {
          placed = record {
            stack = p.stack;
            tables =
                Tables-set_value _ _ fs (length fs) look (omega arith)
                  (Tables-set_token _ _ fs (length fs) tok (omega arith) p.tables);
            state = p.state;
            index = p.index;
            lex = p.lex;
            previous = p.previous;
            heap = refl;
            last = p.last;
            value_cells = length-set m.value_table (length fs) look ∙ p.value_cells;
            token_cells = length-set m.token_table (length fs) tok ∙ p.token_cells;
            stack_slots = p.stack_slots;
          };
          token = refl;
          look_token = get_elem?-set_self m.token_table (length fs) tok (omega arith);
          look_value = get_elem?-set_self m.value_table (length fs) look (omega arith);
        },
      )

  do_shift_computes :
      (state t : ℕ) (m : Machine U E) (s₁ s₂ : ParsingStack) (m' : Machine U E)
      → push m.parsing_stack m.i ≡ done s₁
      → push s₁ state ≡ done s₂
      → next_token client parser table (record m {
        parsing_stack = s₂;
        current_state = state;
        prev_tok = t;
        lex_val = m.lex_val + 1;
        i = m.i + 1;
      })
        ≡ done m'
      → do_shift client parser table state t m ≡ done m'
  unfolding do_shift
  do_shift_computes state t m s₁ s₂ m' e₁ e₂ e₃ = rw (e₁, e₂, e₃)

  -- A shift pushes the lookahead's frame and fetches the next token, if there is room for both.
  pub do_shift-Represents :
      {cells slots : ℕ} {m : Machine U E} {c : Config U E} (state t : ℕ)
      → c.tok ≡ pos t
      → t < parser.action_token_n
      → suc (length c.frames) < cells
      → 2 * length c.frames + 3 ≤ slots
      → Represents cells slots parser.action_token_n m c
      → (m' : Machine U E) × (cell : Value U) × (do_shift client parser table state t m ≡ done m')
        × Represents cells slots parser.action_token_n m' (shifted client c state t cell)
  do_shift-Represents {m} {c} state t is_tok small room deep r =
      let p = r.placed in
      let (s₁, e₁, h₁, k₁) =
        push_lem m.parsing_stack (flat c.frames) (length c.frames)
          (omega (arith, length-flat c.frames)) p.stack in
      let (s₂, e₂, h₂, k₂) =
        push_lem s₁ (length c.frames ∷ flat c.frames) state (omega (arith, length-flat c.frames))
          h₁ in
      let pushed : Machine U E = record m {
        parsing_stack = s₂;
        current_state = state;
        prev_tok = t;
        lex_val = m.lex_val + 1;
        i = m.i + 1;
      } in
      let (m', cell, computes, rep) = next_token-Represents {m = pushed} room (record {
        stack = h₂;
        tables = (r.look_value, r.look_token ∙ ap some is_tok, p.tables);
        state = refl;
        index = omega (arith, p.index);
        lex = omega (arith, p.lex);
        previous = refl;
        heap = p.heap;
        last = λ big. absurd (omega arith);
        value_cells = p.value_cells;
        token_cells = p.token_cells;
        stack_slots = k₂ ∙ k₁ ∙ p.stack_slots;
      }) in
      (
        m',
        cell,
        do_shift_computes state t m s₁ s₂ m' (ap (λ k. push m.parsing_stack k) p.index ∙ e₁) e₂
            computes,
        rep,
      )
