-- ===== src/Runtime/Valid.antt =====
-- A check of a parsing table against its grammar, with a certificate that says for each state what
-- the stack holds when the state is on top. `parser_parse_lr` trusts its table; this is what the
-- trust amounts to. It is executable, so that a given table is checked by evaluation.
pub mod Checks
pub mod Frames
use neoast.Common.{
  each_index, ℕ, zero, suc, ◌+◌, ◌-◌, ◌*◌, ◌^◌, List, [], ◌∷◌, length, get_elem?, get_or, bit_and,
}
use neoast.Common.{Bool, true, false, not, ◌&&◌, ◌||◌, ◌==◌, ltb, leb, all, Option, none, some}
use neoast.Common.{Outcome, done, fault}
use neoast.Runtime.Types.{GrammarRule, GrammarParser}
use neoast.Runtime.Table.{Action, ascii_max, tok_mask, classify, table_from_matrix}
use neoast.Runtime.Grammar.{result, right_side}

-- A frame of the stack: its symbol, and the states that can be under it.
pub record Layer : Type 0 where
  pub symbol : ℕ
  pub under : List ℕ

-- For each state the topmost layers of the stack; for each symbol a rank, above the ranks of what a
-- rule with one symbol makes it from.
pub record Certificate : Type 0 where
  pub layers : List (List Layer)
  pub ranks : List ℕ
  pub max_rank : ℕ

abbrev pub elem : ℕ → List ℕ → Bool
elem x [] = false
elem x (y ∷ ys) = x == y || elem x ys

abbrev pub eqb_list : List ℕ → List ℕ → Bool
eqb_list [] [] = true
eqb_list (x ∷ xs) (y ∷ ys) = x == y && eqb_list xs ys
eqb_list _ _ = false

-- `covers a b`: a stack with the layers `b` has the layers `a`.
abbrev pub covers : List Layer → List Layer → Bool
covers [] b = true
covers (l ∷ a) [] = false
covers (l ∷ a) (k ∷ b) = l.symbol == k.symbol && all (λ q. elem q l.under) k.under && covers a b

-- The symbols of the top `n` layers, the lowest first, before `acc`.
abbrev pub layer_symbols : ℕ → List Layer → List ℕ → List ℕ
layer_symbols zero ls acc = acc
layer_symbols (suc n) [] acc = acc
layer_symbols (suc n) (l ∷ ls) acc = layer_symbols n ls (l.symbol ∷ acc)

-- The states under the `n`-th layer, counted from 1.
abbrev pub states_under : ℕ → List Layer → List ℕ
states_under zero ls = []
states_under (suc n) [] = []
states_under (suc zero) (l ∷ ls) = l.under
states_under (suc (suc n)) (l ∷ ls) = states_under (suc n) ls

abbrev pub head_or : List ℕ → ℕ → ℕ
head_or [] d = d
head_or (x ∷ xs) d = x

module _ (parser : GrammarParser) (table : List ℕ) (cert : Certificate) where
  abbrev pub states : ℕ
  states = length cert.layers

  abbrev pub layers_of : ℕ → List Layer
  layers_of s = get_or cert.layers s []

  abbrev pub rank_of : ℕ → ℕ
  rank_of x = get_or cert.ranks x 0

  abbrev pub entry : ℕ → ℕ → Outcome ℕ
  entry s x = table_from_matrix table s x parser.token_n

  -- The state `s'` may stand on symbol `x` over state `s`.
  unfoldable pub edge : ℕ → ℕ → ℕ → Bool
  edge s x s' =
      ltb 0 s'
      && ltb s' states
      && covers (layers_of s') (record { symbol = x; under = s ∷ [] } ∷ layers_of s)

  unfoldable pub goto_entry : ℕ → ℕ → Outcome ℕ → Bool
  unfolding edge
  goto_entry s x (fault e) = false
  goto_entry s x (done g) = edge s x (bit_and g tok_mask)

  -- A rule that is reduced in state `s`: the runtime can reduce by it, the stack ends in its right
  -- side, and every state that can come up has a goto.
  unfoldable pub rule_in : ℕ → GrammarRule → Bool
  unfolding goto_entry
  rule_in s rule =
      leb 1 rule.tok_n
      && (ltb ascii_max rule.token && ltb rule.token (2 ^ 31))
      && (leb parser.action_token_n (result parser rule) && ltb (result parser rule) parser.token_n)
      && leb rule.tok_n (length (layers_of s))
      && eqb_list (layer_symbols rule.tok_n (layers_of s) []) (right_side parser rule)
      && all (λ q. goto_entry q (result parser rule) (entry q (result parser rule)))
          (states_under rule.tok_n (layers_of s))
      && (leb 2 rule.tok_n
          || ltb (rank_of (head_or (right_side parser rule) 0)) (rank_of (result parser rule)))
      && leb (rank_of (result parser rule)) cert.max_rank

  unfoldable pub reduce_in : ℕ → Option GrammarRule → Bool
  unfolding rule_in
  reduce_in s none = false
  reduce_in s (some rule) = rule_in s rule

  -- Accepting is allowed where the stack is the start symbol, over the first state.
  unfoldable pub accept_in : ℕ → List Layer → Bool
  accept_in start [] = false
  accept_in start (l ∷ ls) =
      l.symbol == start && leb parser.action_token_n l.symbol && all (λ q. q == 0) l.under

  -- The first rule is the augmented one, from the start symbol.
  abbrev pub start_of : List GrammarRule → ℕ
  start_of [] = 0
  start_of (rule ∷ rules) = head_or (right_side parser rule) 0

  unfoldable pub action_in : ℕ → ℕ → Action → Bool
  unfolding edge reduce_in accept_in
  action_in s t Action.syntax_error = true
  action_in s t Action.accept = accept_in (start_of parser.grammar_rules) (layers_of s)
  action_in s t Action.stuck = false
  action_in s t (Action.shift s') = ltb 0 t && edge s t s'
  action_in s t (Action.reduce r) = reduce_in s (get_elem? parser.grammar_rules r)

  unfoldable pub entry_in : ℕ → ℕ → Outcome ℕ → Bool
  unfolding action_in
  entry_in s t (fault e) = false
  entry_in s t (done v) = action_in s t (classify v)

  unfoldable pub is_valid : Bool
  unfolding each_index entry_in
  is_valid =
      ltb 0 states
      && leb (length (layers_of 0)) 0
      && (ltb 0 parser.token_n && leb parser.action_token_n parser.token_n)
      && leb (states * parser.token_n) (length table)
      && each_index (λ s. each_index (λ t. entry_in s t (entry s t)) parser.action_token_n) states
