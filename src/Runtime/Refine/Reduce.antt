-- ===== src/Runtime/Refine/Reduce.antt =====
-- The reduce branch on a machine that represents a configuration. The rule has a right-hand side:
-- what an empty rule does instead is the subject of Runtime/Empty.
pub mod Computes
use neoast.Common.{ℕ, zero, suc, ◌+◌, ◌-◌, ◌*◌, ◌%◌, ◌^◌, ◌≤◌, ◌<◌, ◌≡◌, refl, sym, List, [], ◌∷◌}
use neoast.Common.{length, drop, ℤ, pos, arith, done, get_elem?, set, some, get_elem?-set_self, ap}
use neoast.Common.{length-set, ◌∙◌, get_elem?_total, get_elem?-lt, true, ◌&&◌, ◌==◌, ltb, bit_and}
use neoast.Common.{Holds-fits, subst, get_elem?-set_ne, eqb_ℤ, eqb_ℤ_refl}
use neoast.Runtime.Types.{Value, GrammarParser, GrammarRule, ParsingStack}
use neoast.Runtime.Stack.{IsStack, push, push_lem, peek, peek_lem}
use neoast.Runtime.Table.{ascii_max, tok_mask, table_from_matrix}
use neoast.Runtime.Client.{Client, Machine}
use neoast.Runtime.Reduce.{lr_reduce, pop_args}
use neoast.Runtime.Loop.{do_reduce}
use neoast.Runtime.Automaton.{Frame, Config, top_state, args, reduced, GotoEntry}
use neoast.Runtime.Refine.Rel.{flat, length-flat, Tables, Tables-set_value, Tables-set_token}
use neoast.Runtime.Refine.Rel.{Tables-drop, Placed, Represents}
use neoast.Runtime.Refine.Args.{length-drop, last_index, last_index-drop, pop_args_lem}
use Computes.{after_reduce, lr_reduce_computes, do_reduce_computes}

flat_head : {U : Type 0} (fs : List (Frame U)) → (below : List ℕ) × (flat fs ≡ top_state fs ∷ below)
flat_head [] = ([], refl)
flat_head (f ∷ fs) = (length fs ∷ flat fs, refl)

-- A rule that the runtime can reduce by: a right-hand side, and a token behind the lexer's.
pub record IsReducible (parser : GrammarParser) (rule : GrammarRule) : Type 0 where
  pub has_args : 1 ≤ rule.tok_n
  pub above_ascii : ascii_max < rule.token
  pub fits_int : rule.token < 2 ^ 31
  pub a_production : parser.action_token_n ≤ rule.token - ascii_max

module _ {U E : Type 0} (client : Client U E) (parser : GrammarParser) (table : List ℕ) where
  -- `g_lr_reduce` runs through, and pushes the result's index and the goto over the frames left.
  pub lr_reduce_lem :
      {cells slots : ℕ} {m : Machine U E} {c : Config U E} (r : ℕ) (rule : GrammarRule) (g : ℕ)
      → get_elem? parser.grammar_rules r ≡ some rule
      → IsReducible parser rule
      → rule.tok_n ≤ length c.frames
      → GotoEntry client parser table
          (top_state (drop rule.tok_n c.frames))
          (rule.token - ascii_max)
          g
      → Represents cells slots parser.action_token_n m c
      → let rest = drop rule.tok_n c.frames in
        let state = bit_and g tok_mask in
        (s : ParsingStack) × (lr_reduce client parser table m r
          ≡ done (
              after_reduce client parser table m r
                (length rest)
                (args rule.tok_n c.frames [])
                rule
                s
                state))
        × IsStack s (state ∷ length rest ∷ flat rest)
        × (length s.slots ≡ slots)
  lr_reduce_lem {m} {c} r rule g is_rule ok enough goto rep =
      let p = rep.placed in
      let fs = c.frames in
      let n = rule.tok_n in
      let rest = drop n fs in
      let state = bit_and g tok_mask in
      let (s, e, h, k) =
        pop_args_lem m.value_table m.token_table n fs m.parsing_stack m.dest_idx [] enough p.stack
          p.tables in
      let at = get_elem?-lt m.token_table (length fs) rep.look_token in
      let (below, is_top) = flat_head rest in
      let fits = Holds-fits m.parsing_stack.slots (flat fs) p.stack.cells in
      let small : length rest < length fs = omega (arith, length-drop n fs enough, ok.has_args) in
      let (s₁, e₁, h₁, k₁) =
        push_lem s (flat rest) (length rest)
          (omega (arith, length-flat rest, length-flat fs, fits, small, ap length k)) h in
      let (s₂, e₂, h₂, k₂) =
        push_lem s₁ (length rest ∷ flat rest) state
          (omega (arith, length-flat rest, length-flat fs, fits, small, ap length k, k₁)) h₁ in
      let (v, got_v) = get_elem?_total m.value_table (length rest) (omega (arith, small, at)) in
      let (t, got_t) = get_elem?_total m.token_table (length rest) (omega (arith, small, at)) in
      let popped =
        e
        ∙ ap (λ k. done (k, args n fs [], s))
            (last_index-drop n m.dest_idx fs ok.has_args enough) in
      let computes =
        lr_reduce_computes client parser table m r (length rest) (args n fs []) rule s s₁ s₂ v t
          (top_state rest) g is_rule (ground (arith, p.stack.height, length-flat fs)) popped
          (ground arith) got_v got_t
          (peek_lem s (top_state rest) below (subst (λ xs. IsStack s xs) is_top h)) goto e₁ e₂ in
      (s₂, computes, h₂, k₂ ∙ k₁ ∙ ap length k ∙ p.stack_slots)

  -- A reduction by a rule with a right-hand side does what the automaton does: the result and its
  -- symbol stand where the first argument was, and the lookahead right above.
  pub do_reduce-Represents :
      {cells slots : ℕ} {m : Machine U E} {c : Config U E} (r t : ℕ) (rule : GrammarRule) (g : ℕ)
      → t < parser.action_token_n
      → get_elem? parser.grammar_rules r ≡ some rule
      → IsReducible parser rule
      → rule.tok_n ≤ length c.frames
      → GotoEntry client parser table
          (top_state (drop rule.tok_n c.frames))
          (rule.token - ascii_max)
          g
      → Represents cells slots parser.action_token_n m c
      → (m' : Machine U E) × (do_reduce client parser table r t m ≡ done m')
        × Represents cells slots parser.action_token_n m'
            (reduced client c r rule (bit_and g tok_mask))
  do_reduce-Represents {m} {c} r t rule g small is_rule ok enough goto rep =
      let p = rep.placed in
      let fs = c.frames in
      let rest = drop rule.tok_n fs in
      let d = length rest in
      let vs = args rule.tok_n fs [] in
      let below : d < length fs = omega (arith, length-drop rule.tok_n fs enough, ok.has_args) in
      let (s, reduces, is_stack, slots_kept) = lr_reduce_lem r rule g is_rule ok enough goto rep in
      let v = (client.parser_reduce r vs m.env).0 in
      let sym = pos (rule.token - ascii_max) in
      let vt = set m.value_table d v in
      let tt₁ = set m.token_table d sym in
      let at_tok = get_elem?-lt m.token_table (length fs) rep.look_token in
      let at_val = get_elem?-lt m.value_table (length fs) rep.look_value in
      let look_tok : get_elem? tt₁ m.i ≡ some c.tok =
        ap (λ k. get_elem? tt₁ k) p.index
        ∙ get_elem?-set_ne m.token_table d (length fs) sym (omega arith)
        ∙ rep.look_token in
      let look_val : get_elem? vt m.lex_val ≡ some c.look =
        ap (λ k. get_elem? vt k) p.lex
        ∙ get_elem?-set_ne m.value_table d (length fs) v (omega arith)
        ∙ rep.look_value in
      let room_v : d + 1 < length vt = omega (arith, below, at_val, length-set m.value_table d v) in
      let room_t : d + 1 < length tt₁ =
        omega (arith, below, at_tok, length-set m.token_table d sym) in
      let (v', got_v) = get_elem?_total vt (d + 1) room_v in
      let (t', got_t) = get_elem?_total tt₁ (d + 1) room_t in
      let next_cell : suc d ≡ d + 1 = omega arith in
      let m₁ = after_reduce client parser table m r d vs rule s (bit_and g tok_mask) in
      let computes =
        do_reduce_computes client parser table m m₁ r t rule c.look v' c.tok t' (ground arith)
          reduces (ground (arith, below, p.index)) look_tok
          (ap (λ x. eqb_ℤ c.tok x) rep.token ∙ eqb_ℤ_refl c.tok) look_val got_v got_t is_rule in
      (
        _,
        computes,
        record {
          placed = record {
            stack = is_stack;
            tables = (
              get_elem?-set_ne vt (d + 1) d c.look (omega arith)
                  ∙ get_elem?-set_self m.value_table d v (omega (arith, below, at_val))
                  ∙ ap (λ e. some (client.parser_reduce r vs e).0) p.heap,
              get_elem?-set_ne tt₁ (d + 1) d c.tok (omega arith)
                  ∙ get_elem?-set_self m.token_table d sym (omega (arith, below, at_tok)),
              Tables-set_value _ _ rest (d + 1) c.look (omega arith) (
                  Tables-set_token _ _ rest (d + 1) c.tok (omega arith) (
                    Tables-set_value _ _ rest d v (omega arith) (
                      Tables-set_token _ _ rest d sym (omega arith)
                        (Tables-drop m.value_table m.token_table rule.tok_n fs p.tables)))),
            );
            state = refl;
            index = omega arith;
            lex = omega arith;
            previous = refl;
            heap = ap (λ e. (client.parser_reduce r vs e).1) p.heap;
            last = λ big. refl;
            value_cells =
                length-set vt (d + 1) c.look ∙ length-set m.value_table d v ∙ p.value_cells;
            token_cells =
                length-set tt₁ (d + 1) c.tok ∙ length-set m.token_table d sym ∙ p.token_cells;
            stack_slots = slots_kept;
          };
          token = rep.token;
          look_token =
              ap (λ k. get_elem? (set tt₁ (d + 1) c.tok) k) next_cell
              ∙ get_elem?-set_self tt₁ (d + 1) c.tok room_t;
          look_value =
              ap (λ k. get_elem? (set vt (d + 1) c.look) k) next_cell
              ∙ get_elem?-set_self vt (d + 1) c.look room_v;
        },
      )
