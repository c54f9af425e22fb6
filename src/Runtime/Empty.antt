-- ===== src/Runtime/Empty.antt =====
-- `g_lr_reduce` with a rule that has no right-hand side. The source takes for its result the index
-- of the last reduction, whose value is still in use.
use neoast.Common.{ℕ, ◌+◌, ◌-◌, ◌*◌, ◌^◌, ◌≤◌, ◌<◌, ◌≡◌, ap, ◌∙◌, List, [], ◌∷◌, length}
use neoast.Common.{done, arith, get_elem?, some, bit_and, get_elem?-set_self, get_elem?-lt, pos}
use neoast.Runtime.Types.{GrammarRule, GrammarParser}
use neoast.Runtime.Stack.{IsStack, push_lem, peek_lem}
use neoast.Runtime.Table.{ascii_max, tok_mask}
use neoast.Runtime.Client.{Client, Machine}
use neoast.Runtime.Reduce.{lr_reduce, pop_args}
use neoast.Runtime.Automaton.{Frame, GotoEntry}
use neoast.Runtime.Refine.Rel.{flat, length-flat, Placed}
use neoast.Runtime.Refine.Reduce.Computes.{lr_reduce_computes}

module _ {U E : Type 0} (client : Client U E) (parser : GrammarParser) (table : List ℕ) where
  pop_no_args :
      (m : Machine U E) (rule : GrammarRule)
      → rule.tok_n ≡ 0
      → pop_args m.value_table rule.tok_n m.parsing_stack m.dest_idx []
        ≡ done (m.dest_idx, [], m.parsing_stack)
  unfolding pop_args
  pop_no_args m rule none_left = rw none_left

  -- When a reduction's frame is on top, reducing by a rule without a right-hand side writes its
  -- result over that frame's value, and pushes a second frame with the same index.
  pub lr_reduce-empty :
      {cells slots : ℕ} {m : Machine U E} {f : Frame U} {fs : List (Frame U)} {prev : ℕ} {env : E}
      (r : ℕ) (rule : GrammarRule) (g : ℕ)
      → get_elem? parser.grammar_rules r ≡ some rule
      → rule.tok_n ≡ 0
      → ascii_max < rule.token
      → rule.token < 2 ^ 31
      → GotoEntry client parser table f.state (rule.token - ascii_max) g
      → parser.action_token_n ≤ f.symbol
      → 2 * length fs + 5 ≤ slots
      → Placed cells slots parser.action_token_n m (f ∷ fs) prev env
      → (m' : Machine U E) × (lr_reduce client parser table m r ≡ done m')
        × (get_elem? m'.value_table (length fs) ≡ some (client.parser_reduce r [] m.env).0)
        × IsStack m'.parsing_stack (bit_and g tok_mask ∷ length fs ∷ flat (f ∷ fs))
  lr_reduce-empty {m} {f} {fs} r rule g is_rule empty above fits goto big deep p =
      let at : m.dest_idx ≡ length fs = p.last big in
      let state = bit_and g tok_mask in
      let (s₁, e₁, h₁, k₁) =
        push_lem m.parsing_stack (flat (f ∷ fs)) (length fs)
          (omega (arith, length-flat fs, deep, p.stack_slots)) p.stack in
      let (s₂, e₂, h₂, k₂) =
        push_lem s₁ (length fs ∷ flat (f ∷ fs)) state
          (omega (arith, length-flat fs, deep, k₁, p.stack_slots)) h₁ in
      let popped = pop_no_args m rule empty ∙ ap (λ k. done (k, [], m.parsing_stack)) at in
      let cell = get_elem?-lt m.value_table (length fs) p.tables.0 in
      let computes =
        lr_reduce_computes client parser table m r (length fs) [] rule m.parsing_stack s₁ s₂ f.value
          (pos f.symbol) f.state g is_rule (ground (arith, p.stack.height, length-flat fs, empty))
          popped (ground arith) p.tables.0 p.tables.1
          (peek_lem m.parsing_stack f.state (length fs ∷ flat fs) p.stack) goto e₁ e₂ in
      (_, computes, get_elem?-set_self m.value_table (length fs) _ cell, h₂)
