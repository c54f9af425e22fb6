-- ===== src/Runtime/Refine/Rel.antt =====
-- How the buffers of `parser_parse_lr` represent the stack of the LR automaton: the frame at depth
-- `d` has its value and its symbol in cell `d` of the tables, and the parsing stack holds for it
-- its state over that index.
use neoast.Common.{ℕ, zero, suc, ◌+◌, ◌*◌, ◌≤◌, ◌≡◌, List, [], ◌∷◌, some, length, drop}
use neoast.Common.{get_elem?, set, get_elem?-set_ne, ℤ, pos, arith, ◌∙◌}
use neoast.Runtime.Types.{Value}
use neoast.Runtime.Stack.{IsStack}
use neoast.Runtime.Client.{Machine}
use neoast.Runtime.Automaton.{Frame, Config, top_state}

module _ {U : Type 0} where
  -- The parsing stack for these frames, its top first; state 0 is at the bottom.
  abbrev pub flat : List (Frame U) → List ℕ
  flat [] = 0 ∷ []
  flat (f ∷ fs) = f.state ∷ length fs ∷ flat fs

  abbrev pub Tables : List (Value U) → List ℤ → List (Frame U) → Type 0
  Tables values tokens [] = Unit
  Tables values tokens (f ∷ fs) =
      (get_elem? values (length fs) ≡ some f.value)
      × (get_elem? tokens (length fs) ≡ some (pos f.symbol))
      × Tables values tokens fs

  pub length-flat : (fs : List (Frame U)) → length (flat fs) ≡ 2 * length fs + 1
  length-flat [] = omega arith
  length-flat (f ∷ fs) = omega (arith, length-flat fs)

  -- A write at or above the stack's depth leaves its cells alone.
  pub Tables-set_value :
      (values : List (Value U)) (tokens : List ℤ) (fs : List (Frame U)) (i : ℕ) (v : Value U)
      → length fs ≤ i
      → Tables values tokens fs
      → Tables (set values i v) tokens fs
  Tables-set_value values tokens [] i v le h = tt
  Tables-set_value values tokens (f ∷ fs) i v le h = (
    get_elem?-set_ne values i (length fs) v (omega arith) ∙ h.0,
    h.1,
    Tables-set_value values tokens fs i v (omega arith) h.2,
  )

  pub Tables-set_token :
      (values : List (Value U)) (tokens : List ℤ) (fs : List (Frame U)) (i : ℕ) (t : ℤ)
      → length fs ≤ i
      → Tables values tokens fs
      → Tables values (set tokens i t) fs
  Tables-set_token values tokens [] i t le h = tt
  Tables-set_token values tokens (f ∷ fs) i t le h = (
    h.0,
    get_elem?-set_ne tokens i (length fs) t (omega arith) ∙ h.1,
    Tables-set_token values tokens fs i t (omega arith) h.2,
  )

  pub Tables-drop :
      (values : List (Value U)) (tokens : List ℤ) (n : ℕ) (fs : List (Frame U))
      → Tables values tokens fs
      → Tables values tokens (drop n fs)
  Tables-drop values tokens zero fs h = h
  Tables-drop values tokens (suc n) [] h = h
  Tables-drop values tokens (suc n) (f ∷ fs) h = Tables-drop values tokens n fs h.2

  -- The index of the last reduction is that of the top frame, if that frame is a reduction's.
  abbrev pub LastReduction : ℕ → ℕ → List (Frame U) → Type 0
  LastReduction action_token_n dest_idx [] = Unit
  LastReduction action_token_n dest_idx (f ∷ fs) = action_token_n ≤ f.symbol → dest_idx ≡ length fs

module _ {U E : Type 0} where
  -- The machine holds these frames, in tables of `cells` cells and a stack of `slots`, and its next
  -- cell is the one above them.
  pub record Placed (cells slots action_token_n : ℕ) (m : Machine U E) (fs : List (Frame U))
      (prev : ℕ) (env : E) : Type 0 where
    pub stack : IsStack m.parsing_stack (flat fs)
    pub tables : Tables m.value_table m.token_table fs
    pub state : m.current_state ≡ top_state fs
    pub index : m.i ≡ length fs
    pub lex : m.lex_val ≡ length fs
    pub previous : m.prev_tok ≡ prev
    pub heap : m.env ≡ env
    pub last : LastReduction action_token_n m.dest_idx fs
    pub value_cells : length m.value_table ≡ cells
    pub token_cells : length m.token_table ≡ cells
    pub stack_slots : length m.parsing_stack.slots ≡ slots

  -- The machine represents the configuration: its lookahead stands in the cell above the frames.
  pub record Represents (cells slots action_token_n : ℕ) (m : Machine U E) (c : Config U E)
      : Type 0 where
    pub placed : Placed cells slots action_token_n m c.frames c.prev c.env
    pub token : m.tok ≡ c.tok
    pub look_token : get_elem? m.token_table (length c.frames) ≡ some c.tok
    pub look_value : get_elem? m.value_table (length c.frames) ≡ some c.look
