-- ===== src/Runtime/Correct/Run.antt =====
-- The whole loop: from a machine that represents a configuration it ends, as `Ends` says.
use neoast.Common.{
  ℕ, zero, suc, ◌+◌, ◌*◌, ◌≤◌, ◌<◌, ◌≡◌, refl, ap, subst, ◌∙◌, true, List, [], ◌∷◌, length,
}
use neoast.Common.{ℤ, pos, negsuc, arith, Outcome, done, ◌>>=◌, get_elem?, some, none}
use neoast.Runtime.Types.{Value, GrammarParser}
use neoast.Runtime.Table.{Action, classify, table_from_matrix}
use neoast.Runtime.Client.{Client, Machine}
use neoast.Runtime.Loop.{Step, next, returned, minus_one, rounds, round, round_at, dispatch}
use neoast.Runtime.Loop.{do_syntax_error}
use neoast.Runtime.Errors.{run_destructors, parse_error}
use neoast.Runtime.Automaton.{Frame, Config, top_state, ActionAt}
use neoast.Runtime.Grammar.{Derives}
use neoast.Runtime.Grammar.Yields.{Yields, Yields-single}
use neoast.Runtime.Valid.{Certificate, Layer, elem, states, start_of, action_in, layers_of}
use neoast.Runtime.Valid.Checks.{is_valid-Shape, is_valid-entry, shift_in, reduce_rule, not_stuck}
use neoast.Runtime.Valid.Checks.{accept_in-start}
use neoast.Runtime.Valid.Frames.{Checked, Checked-top, Matches}
use neoast.Runtime.Refine.Rel.{Represents, Tables, LastReduction}
use neoast.Runtime.Refine.Errors.{cleaned, reported, parse_error_lem, run_destructors_lem}
use neoast.Runtime.Correct.Setup.{Laws, IsReady, Good, Ends, measure}
use neoast.Runtime.Correct.Branches.{shift-Advances, reduce-Advances}

module _ {U E : Type 0} (client : Client U E) (parser : GrammarParser) (table : List ℕ)
    (cert : Certificate) (laws : Laws client parser) {cells slots budget : ℕ}
    (ready : IsReady client parser table cert cells slots budget) (c₀ : Config U E) where
  -- Only the bottom of the stack is in the first state.
  only_bottom : (fs : List (Frame U)) → Checked parser table cert fs → top_state fs ≡ 0 → fs ≡ []
  only_bottom [] h e = refl
  only_bottom (f ∷ fs) h e = absurd (omega (arith, h.0))

  -- In an accepting state the stack is the start symbol alone.
  accepting_stack :
      (fs : List (Frame U)) (l : Layer) (below : List Layer)
      → Matches (l ∷ below) fs
      → Checked parser table cert fs
      → ((q : ℕ) → elem q l.under ≡ true → q ≡ 0)
      → (f : Frame U) × (fs ≡ f ∷ []) × (f.symbol ≡ l.symbol)
  accepting_stack [] l below m h bottom = absurd m
  accepting_stack (f ∷ fs) l below m h bottom =
      (f, ap (λ gs. f ∷ gs) (only_bottom fs h.3 (bottom (top_state fs) m.1)), m.0)

  accepts :
      (m : Machine U E) (c : Config U E) (w : List ℕ) (t : ℕ)
      → c.tok ≡ pos t
      → ActionAt client parser table (top_state c.frames) t Action.accept
      → action_in parser table cert (top_state c.frames) t Action.accept ≡ true
      → Represents cells slots parser.action_token_n m c
      → Good client parser table cert laws budget c₀ c w
      → Ends client parser table cert c₀ (done (returned (pos m.dest_idx) m))
  unfolding action_in
  accepts m c w t is_tok act allowed rep good =
      let shape = is_valid-Shape parser table cert ready.valid in
      let start = start_of parser table cert parser.grammar_rules in
      let (l, below, is_layers, is_start, big, bottom) =
        accept_in-start parser table cert start (layers_of parser table cert (top_state c.frames))
          allowed in
      let matches =
        subst (λ ls. Matches ls c.frames) is_layers
          (Checked-top parser table cert shape c.frames good.checked).1 in
      let (f, single, is_symbol) = accepting_stack c.frames l below matches good.checked bottom in
      let index =
        subst (λ fs. LastReduction parser.action_token_n m.dest_idx fs) single rep.placed.last
          (omega (arith, big, is_symbol)) in
      let derived =
        Yields-single parser f w (subst (λ fs. Yields parser fs w) single good.yields) in
      let cell = subst (λ fs. Tables m.value_table m.token_table fs) single rep.placed.tables in
      Ends.accepted m c w f t (ap (λ k. done (returned (pos k) m)) index) good.trail single is_tok
        (subst (λ fs. ActionAt client parser table (top_state fs) t Action.accept) single act)
        (subst (λ x. Derives parser x w) (is_symbol ∙ is_start) derived) cell.0 rep.placed.heap

  -- The branch of the syntax error: the report, and the destructors.
  do_syntax_error_computes :
      (m : Machine U E) (t : ℕ) (v : Value U) (env : E) (m' : Machine U E)
      → get_elem? m.value_table m.lex_val ≡ some v
      → parse_error client parser table v.position m.current_state t m.prev_tok m.env ≡ done env
      → run_destructors client parser (record m { env = env }) (some m.i) ≡ done m'
      → do_syntax_error client parser table t m ≡ done m'
  unfolding do_syntax_error
  do_syntax_error_computes m t v env m' e₁ e₂ e₃ = rw (e₁, e₂, e₃)

  refuses :
      (m : Machine U E) (c : Config U E) (w : List ℕ) (t : ℕ)
      → c.tok ≡ pos t
      → ActionAt client parser table (top_state c.frames) t Action.syntax_error
      → Represents cells slots parser.action_token_n m c
      → Good client parser table cert laws budget c₀ c w
      → (m' : Machine U E) × (do_syntax_error client parser table t m ≡ done m')
        × Ends client parser table cert c₀ (done (returned minus_one m'))
  refuses m c w t is_tok act rep good =
      let p = rep.placed in
      let shape = is_valid-Shape parser table cert ready.valid in
      let (in_states, _) = Checked-top parser table cert shape c.frames good.checked in
      let small = good.in_columns t is_tok in
      let s = top_state c.frames in
      let env = reported client parser table c.look.position s t c.prev c.env in
      let reports =
        parse_error_lem client parser table c.look.position s t c.prev c.env
          (omega (arith, small, shape.actions, ready.names))
          (omega (arith, good.previous, ready.names)) (row_fits s in_states shape.cells)
          ready.small_table in
      let at =
        ap (λ k. parse_error client parser table c.look.position k t m.prev_tok m.env) p.state
        ∙ ap (λ k. parse_error client parser table c.look.position s t k m.env) p.previous
        ∙ ap (λ k. parse_error client parser table c.look.position s t c.prev k) p.heap
        ∙ reports in
      let m₁ : Machine U E = record m { env = env } in
      let (m', e, effect) =
        run_destructors_lem client parser m₁ c.frames (some m.i) (some (c.tok, c.look)) ready.sized
          p.stack p.tables
          (
            ap (λ k. get_elem? m.token_table k) p.index ∙ rep.look_token,
            ap (λ k. get_elem? m.value_table k) p.index ∙ rep.look_value,
            omega (arith, p.index),
          ) in
      (
        m',
        do_syntax_error_computes m t c.look env m'
            (ap (λ k. get_elem? m.value_table k) p.lex ∙ rep.look_value) at e,
        Ends.refused m' c w t refl good.trail is_tok act effect,
      )
    where
      row_fits :
          (s : ℕ)
          → s < states parser table cert
          → states parser table cert * parser.token_n ≤ length table
          → s * parser.token_n + parser.token_n ≤ length table
      row_fits s lt fits = grind arith

  -- A negative token is the lexer's error.
  lexer_fails :
      (m : Machine U E) (c : Config U E) (w : List ℕ) (n : ℕ)
      → c.tok ≡ negsuc n
      → Represents cells slots parser.action_token_n m c
      → Good client parser table cert laws budget c₀ c w
      → (m' : Machine U E) × (round_at client parser table (negsuc n) m
          ≡ done (returned minus_one m'))
        × Ends client parser table cert c₀ (done (returned minus_one m'))
  unfolding round_at
  lexer_fails m c w n is_tok rep good =
      let p = rep.placed in
      let (m', e, effect) =
        run_destructors_lem client parser m c.frames none none ready.sized p.stack p.tables tt in
      (
        m',
        rw e,
        Ends.lexer_failed m' c w n refl good.trail is_tok
            (effect ∙ ap (λ x. cleaned client parser parser.destructors none c.frames x) p.heap),
      )

  -- What the rest of the loop makes of a round.
  abbrev pub carry_on : ℕ → Step (Machine U E) → Outcome (Step (Machine U E))
  carry_on fuel step = elim step [
    | next m' ↦ rounds client parser table fuel m'
    | returned r m' ↦ done (returned r m')
  ]

  -- The machine's run from here on ends well, on any fuel above the measure.
  abbrev pub EndsWithin : ℕ → Type 0
  EndsWithin fuel =
      (m : Machine U E) (c : Config U E) (w : List ℕ)
      → Represents cells slots parser.action_token_n m c
      → Good client parser table cert laws budget c₀ c w
      → measure client parser table cert laws c < fuel
      → Ends client parser table cert c₀ (rounds client parser table fuel m)

  dispatch-Ends :
      (fuel : ℕ) (a : Action) (m : Machine U E) (c : Config U E) (w : List ℕ) (t v : ℕ)
      → c.tok ≡ pos t
      → table_from_matrix table (top_state c.frames) t parser.token_n ≡ done v
      → classify v ≡ a
      → action_in parser table cert (top_state c.frames) t a ≡ true
      → Represents cells slots parser.action_token_n m c
      → Good client parser table cert laws budget c₀ c w
      → measure client parser table cert laws c < suc fuel
      → EndsWithin fuel
      → Ends client parser table cert c₀ (dispatch client parser table a t m >>= carry_on fuel)
  unfolding dispatch
  dispatch-Ends fuel Action.syntax_error m c w t v is_tok at is_a ok rep good bound rest =
      let (m', e, ends) = refuses m c w t is_tok (v, at, is_a) rep good in rw e ends
  dispatch-Ends fuel Action.accept m c w t v is_tok at is_a ok rep good bound rest =
      accepts m c w t is_tok (v, at, is_a) ok rep good
  dispatch-Ends fuel Action.stuck m c w t v is_tok at is_a ok rep good bound rest =
      absurd (not_stuck parser table cert (top_state c.frames) t ok)
  dispatch-Ends fuel (Action.shift s) m c w t v is_tok at is_a ok rep good bound rest =
      let (nonzero, is_edge) = shift_in parser table cert (top_state c.frames) t s ok in
      let (m', c', w', e, rep', good', less) =
        shift-Advances client parser table cert laws ready c₀ t s is_tok (v, at, is_a) nonzero
          is_edge rep good in
      rw e (rest m' c' w' rep' good' (omega (arith, less, bound)))
  dispatch-Ends fuel (Action.reduce r) m c w t v is_tok at is_a ok rep good bound rest =
      let (rule, is_rule, rule_ok) = reduce_rule parser table cert (top_state c.frames) t r ok in
      let (m', c', w', e, rep', good', less) =
        reduce-Advances client parser table cert laws ready c₀ t r rule is_tok (v, at, is_a) is_rule
          rule_ok rep good in
      rw e (rest m' c' w' rep' good' (omega (arith, less, bound)))

  round_pos :
      (m : Machine U E) (c : Config U E) (t v : ℕ)
      → c.tok ≡ pos t
      → Represents cells slots parser.action_token_n m c
      → table_from_matrix table (top_state c.frames) t parser.token_n ≡ done v
      → round client parser table m ≡ dispatch client parser table (classify v) t m
  unfolding round round_at
  round_pos m c t v is_tok rep at =
      ap (λ k. round_at client parser table k m) (rep.token ∙ is_tok)
      ∙ rw (ap (λ s. table_from_matrix table s t parser.token_n) rep.placed.state ∙ at)

  round_neg :
      (m : Machine U E) (c : Config U E) (n : ℕ)
      → c.tok ≡ negsuc n
      → Represents cells slots parser.action_token_n m c
      → round client parser table m ≡ round_at client parser table (negsuc n) m
  unfolding round
  round_neg m c n is_tok rep = ap (λ k. round_at client parser table k m) (rep.token ∙ is_tok)

  Ends-at :
      (fuel : ℕ) (k : ℤ) (m : Machine U E) (c : Config U E) (w : List ℕ)
      → c.tok ≡ k
      → Represents cells slots parser.action_token_n m c
      → Good client parser table cert laws budget c₀ c w
      → measure client parser table cert laws c < suc fuel
      → EndsWithin fuel
      → Ends client parser table cert c₀ (round client parser table m >>= carry_on fuel)
  Ends-at fuel (negsuc n) m c w is_tok rep good bound rest =
      let (m', e, ends) = lexer_fails m c w n is_tok rep good in
      rw (round_neg m c n is_tok rep, e) ends
  Ends-at fuel (pos t) m c w is_tok rep good bound rest =
      let shape = is_valid-Shape parser table cert ready.valid in
      let (v, at, ok) =
        is_valid-entry parser table cert (top_state c.frames) t ready.valid
          (Checked-top parser table cert shape c.frames good.checked).0
          (good.in_columns t is_tok) in
      rw (round_pos m c t v is_tok rep at)
        (dispatch-Ends fuel (classify v) m c w t v is_tok at refl ok rep good bound rest)

  -- With fuel above the measure the loop ends: it neither faults nor runs out of fuel.
  pub rounds-Ends : (fuel : ℕ) → EndsWithin fuel
  unfolding rounds
  rounds-Ends zero m c w rep good bound = absurd (omega arith)
  rounds-Ends (suc fuel) m c w rep good bound =
      Ends-at fuel c.tok m c w refl rep good bound (rounds-Ends fuel)
