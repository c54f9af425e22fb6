-- ===== src/Runtime/Correct/Parse.antt =====
-- `parser_parse_lr` as a whole.
use neoast.Common.{
  ℕ, suc, ◌+◌, ◌-◌, ◌*◌, ◌≤◌, ◌<◌, ◌≡◌, refl, ◌∙◌, List, [], length, pos, arith, done,
}
use neoast.Runtime.Types.{Value, GrammarParser, ParserBuffers, ParsingStack}
use neoast.Runtime.Stack.{IsStack, push, push_lem}
use neoast.Runtime.Client.{Client, Machine}
use neoast.Runtime.Loop.{start, parse_lr, next_token}
use neoast.Runtime.Automaton.{fetched, Moves}
use neoast.Runtime.Valid.{Certificate}
use neoast.Runtime.Valid.Checks.{is_valid-Shape}
use neoast.Runtime.Refine.Rel.{Represents}
use neoast.Runtime.Refine.Shift.{next_token-Represents}
use neoast.Runtime.Correct.Setup.{Laws, IsReady, Good, Ends}
use neoast.Runtime.Correct.Branches.{fetch-left}
use neoast.Runtime.Correct.Run.{rounds-Ends}

module _ {U E : Type 0} (client : Client U E) (parser : GrammarParser) (table : List ℕ) where
  start_computes :
      (b : ParserBuffers U) (env : E) (s : ParsingStack) (m : Machine U E)
      → push b.parsing_stack 0 ≡ done s
      → next_token client parser table (record {
        parsing_stack = s;
        token_table = b.token_table;
        value_table = b.value_table;
        current_state = 0;
        i = 0;
        lex_val = 0;
        prev_tok = 0;
        tok = pos 0;
        dest_idx = 0;
        env = env;
      })
        ≡ done m
      → start client parser table b env ≡ done m
  unfolding start
  start_computes b env s m e₁ e₂ = rw (e₁, e₂)

  -- Buffers that are reset, of these sizes.
  pub record IsReset (cells slots : ℕ) (b : ParserBuffers U) : Type 0 where
    pub empty : b.parsing_stack.pos ≡ 0
    pub value_cells : length b.value_table ≡ cells
    pub token_cells : length b.token_table ≡ cells
    pub stack_slots : length b.parsing_stack.slots ≡ slots

  start-Represents :
      {cells slots n : ℕ} (b : ParserBuffers U) (env : E)
      → 0 < cells
      → 0 < slots
      → IsReset cells slots b
      → (m : Machine U E) × (cell : Value U) × (start client parser table b env ≡ done m)
        × Represents cells slots n m (fetched client [] 0 env cell)
  start-Represents b env some_cell some_slot reset =
      let bottom : IsStack b.parsing_stack [] = record { height = reset.empty; cells = tt } in
      let (s, e, h, k) = push_lem b.parsing_stack [] 0 (omega (arith, reset.stack_slots)) bottom in
      let (m, cell, e', rep) = next_token-Represents client parser table some_cell (record {
        stack = h;
        tables = tt;
        state = refl;
        index = refl;
        lex = refl;
        previous = refl;
        heap = refl;
        last = tt;
        value_cells = reset.value_cells;
        token_cells = reset.token_cells;
        stack_slots = k ∙ reset.stack_slots;
      }) in
      (m, cell, start_computes b env s m e e', rep)

  module _ (cert : Certificate) (laws : Laws client parser) where
    -- With a table of at most 2³² cells that passes the check, reset buffers with room for the input,
    -- and fuel that is linear in the input, `parser_parse_lr` returns: it does not fault, and no fuel
    -- is missing. If it accepts, the tokens that it consumed derive from the start symbol and the start
    -- symbol's value is in cell 0. If the table has no entry for the lookahead, that has been reported,
    -- and the values of the lookahead and of the stack are destroyed; if the lexer fails, the values of
    -- the stack are destroyed, and there is no report.
    pub parse_lr-Ends :
        {cells slots budget : ℕ} (b : ParserBuffers U) (env : E) (fuel : ℕ)
        → IsReady client parser table cert cells slots budget
        → IsReset cells slots b
        → laws.remaining env ≤ budget
        → (2 * budget + 1) * suc cert.max_rank ≤ fuel
        → (cell : Value U) × Ends client parser table cert
            (fetched client [] 0 env cell)
            (parse_lr client parser table fuel b env)
    unfolding parse_lr
    parse_lr-Ends {budget} b env fuel ready reset fits enough =
        let shape = is_valid-Shape parser table cert ready.valid in
        let (m, cell, e, rep) =
          start-Represents {n = parser.action_token_n} b env (omega (arith, ready.enough_cells))
            (omega (arith, ready.enough_slots)) reset in
        let c₀ = fetched client [] 0 env cell in
        let used = fetch-left client parser table cert laws cell env in
        let good : Good client parser table cert laws budget c₀ c₀ [] = record {
          checked = tt;
          trail = Moves.here;
          yields = refl;
          bounded = omega (arith, used, fits);
          in_columns = λ t is. laws.in_range cell env t is;
          previous = shape.tokens;
        } in
        (
          cell,
          rw e (
              rounds-Ends client parser table cert laws ready c₀ fuel m c₀ [] rep good
                (below used fits enough)),
        )
      where
        below :
            {l : ℕ}
            → l ≤ laws.remaining env
            → laws.remaining env ≤ budget
            → (2 * budget + 1) * suc cert.max_rank ≤ fuel
            → (2 * l + 0) * suc cert.max_rank + (cert.max_rank - 0) < fuel
        below {l} used fits enough = grind arith
