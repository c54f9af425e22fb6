-- ===== src/Parsergen/Collection.antt =====
-- The states of src/parsergen/derivation.cc, and the canonical collection that they make up,
-- src/parsergen/canonical_collection.cc. A pointer to a state is its index in the order of creation;
-- a set is a list in the order of insertion.
use neoast.Common.{
  ℕ, zero, suc, ◌+◌, ◌-◌, List, [], ◌∷◌, ◌++◌, length, Bool, true, false, map, ◌==◌, ltb, ◌&&◌,
  ◌||◌, all, Option, none, some,
}
use neoast.Common.{
  if◌then◌else◌, Outcome, done, fault, out_of_fuel, ◌>>=◌, ◌>>◌, assert, read, write,
}
use neoast.Runtime.Types.{GrammarParser}
use neoast.Parsergen.BitVector.{empty_of, select, merge}
use neoast.Parsergen.Items.{Item, Production, at_or_throw, is_final, curr, eqb_core, eqb_item}
use neoast.Parsergen.Closure.{insert_items, apply_closure}

-- `GrammarState`; `dfa` holds symbols with their states. `has_closure` holds from the constructor on.
pub record GrammarState : Type 0 where
  pub items : List Item
  pub merged_states : List ℕ
  pub dfa : List (ℕ × ℕ)
  pub state_id : ℕ

-- `state_n_`, `states_` and `state_id_to_ptr_`.
pub record Collection : Type 0 where
  pub state_n : ℕ
  pub states : List GrammarState
  pub state_id_to_ptr : List (ℕ × ℕ)

pub data ParserKind : Type 0 where
  lalr_1 clr_1 : ParserKind

-- Maps from numbers.
abbrev pub lookup {ℓ} : {A : Type ℓ} → ℕ → List (ℕ × A) → Option A
lookup k [] = none
lookup k (p ∷ ps) = if p.0 == k then some (p.1) else lookup k ps

abbrev pub put {ℓ} : {A : Type ℓ} → ℕ → A → List (ℕ × A) → List (ℕ × A)
put k a [] = (k, a) ∷ []
put k a (p ∷ ps) = if p.0 == k then (k, a) ∷ ps else p ∷ put k a ps

abbrev pub erase {ℓ} : {A : Type ℓ} → ℕ → List (ℕ × A) → List (ℕ × A)
erase k [] = []
erase k (p ∷ ps) = if p.0 == k then ps else p ∷ erase k ps

abbrev pub any_item : (Item → Bool) → List Item → Bool
any_item test [] = false
any_item test (x ∷ xs) = test x || any_item test xs

-- `operator==` of states: equal sets of items.
abbrev pub eqb_items : List Item → List Item → Bool
eqb_items a b = length a == length b && all (λ x. any_item (eqb_item x) b) a

-- A set of items by their cores, without an item that is there already.
abbrev pub add_core : Item → List Item → Bool × List Item
add_core x build = if any_item (eqb_core x) build then (false, build) else (true, build ++ x ∷ [])

-- The first loop of `lalr_equal`, with its assertion.
unfoldable pub build_cores : List Item → List Item → Outcome (List Item)
build_cores [] build = done build
build_cores (x ∷ xs) build =
    let added = add_core x build in assert (added.0) >> build_cores xs (added.1)

-- Its second loop: whether none of the items is added.
unfoldable pub cores_within : List Item → List Item → Bool
cores_within [] build = true
cores_within (x ∷ xs) build =
    let rest = cores_within xs build in if any_item (eqb_core x) build then rest else false

unfoldable pub lalr_equal : List Item → List Item → Outcome Bool
unfolding build_cores cores_within
lalr_equal a b =
    if length a == length b
    then (build_cores a [] >>= λ build. done (cores_within b build))
    else done false

-- One item of the other state is merged into ours of the same core.
unfoldable pub merge_core : Item → List Item → Outcome (List Item)
merge_core theirs [] = assert false >> done []
merge_core theirs (ours ∷ items) =
    let rest = merge_core theirs items in
    if eqb_core theirs ours
    then (merge ours.look_ahead theirs.look_ahead >>= λ merged.
        done (record ours { look_ahead = merged.1 } ∷ items))
    else (rest >>= λ items'. done (ours ∷ items'))

unfoldable pub merge_cores : List Item → List Item → Outcome (List Item)
unfolding merge_core
merge_cores [] items = done items
merge_cores (theirs ∷ others) items =
    merge_core theirs items >>= λ items'. merge_cores others items'

abbrev pub state_at : Collection → ℕ → Outcome GrammarState
state_at c p = read c.states p

abbrev pub set_state : ℕ → GrammarState → Collection → Outcome Collection
set_state p s c = write c.states p s >>= λ states. done (record c { states = states })

-- `lalr_merge` of the state at `merge_ptr` into the one at `keep`.
unfoldable pub lalr_merge : ℕ → ℕ → Collection → Outcome Collection
unfolding build_cores merge_cores
lalr_merge keep merge_ptr c = state_at c keep >>= λ k. state_at c merge_ptr >>= λ m.
    build_cores k.items [] >>= λ build. merge_cores m.items k.items >>= λ items.
    set_state keep (record k { items = items; merged_states = k.merged_states ++ merge_ptr ∷ [] }) c

-- A call for each of some states.
abbrev pub for_all :
    (ℕ → Collection → Outcome Collection) → List ℕ → Collection → Outcome Collection
for_all f [] c = done c
for_all f (p ∷ ps) c = f p c >>= λ c'. for_all f ps c'

-- `set_id`, for a state and those merged into it.
unfoldable pub set_id : ℕ → ℕ → ℕ → Collection → Outcome Collection
set_id zero id p c = fault out_of_fuel
set_id (suc fuel) id p c = state_at c p >>= λ s.
    set_state p (record s { state_id = id }) c >>= λ c'. for_all (set_id fuel id) s.merged_states c'

module _ (parser : GrammarParser) (productions : List Production) where
  -- An equal state among those from index `k` on.
  abbrev pub find_state : ℕ → List Item → List GrammarState → Option ℕ
  find_state k items [] = none
  find_state k items (s ∷ ss) =
      if eqb_items s.items items then some k else find_state (suc k) items ss

  -- `add_state`: the closure of the items, as a new state if there is none that is equal.
  unfoldable pub add_state : ℕ → List Item → Collection → Outcome (ℕ × Collection)
  add_state fuel initial c =
      apply_closure parser productions fuel (insert_items initial []) >>= λ items.
      done (elim (find_state 0 items c.states) [
        | some p ↦ (p, c)
        | none ↦ (
          length c.states,
          record {
            state_n = c.state_n + 1;
            states =
                c.states
                ++ record { items = items; merged_states = []; dfa = []; state_id = c.state_n }
                  ∷ [];
            state_id_to_ptr = put c.state_n (length c.states) c.state_id_to_ptr;
          },
        )
      ])

  -- The items behind each symbol.
  unfoldable pub group_items : List Item → List (ℕ × List Item) → Outcome (List (ℕ × List Item))
  unfolding is_final curr
  group_items [] groups = done groups
  group_items (item ∷ items) groups = is_final parser item >>= λ final.
      (if final
        then done groups
        else (curr parser item >>= λ token.
            let moved = record item { i = item.i + 1 } in
            done (elim (lookup token groups) [
              | none ↦ put token (moved ∷ []) groups
              | some others ↦ put token (others ++ moved ∷ []) groups
            ])))
      >>= λ groups'. group_items items groups'

  -- The edges of the state at `p`.
  unfoldable pub add_edges : ℕ → ℕ → List (ℕ × List Item) → Collection → Outcome Collection
  unfolding add_state
  add_edges fuel p [] c = done c
  add_edges fuel p ((token, initial) ∷ groups) c = add_state fuel initial c >>= λ added.
      state_at (added.1) p >>= λ s.
      set_state p (record s { dfa = put token (added.0) s.dfa }) (added.1) >>= λ c'.
      add_edges fuel p groups c'

  -- `GrammarState::resolve`.
  unfoldable pub resolve_state : ℕ → ℕ → Collection → Outcome Collection
  unfolding group_items add_edges
  resolve_state zero p c = fault out_of_fuel
  resolve_state (suc fuel) p c = state_at c p >>= λ s. elim s.dfa [
    | [] ↦ group_items s.items [] >>= λ groups. add_edges fuel p groups c >>= λ c₁.
        state_at c₁ p >>= λ s₁. for_all (resolve_state fuel) (map (λ edge. edge.1) s₁.dfa) c₁
    | edge ∷ edges ↦ done c
  ]

-- Two states of the same core become one: the state at `merge_ptr` loses its id, which the state
-- with the last id gets.
unfoldable pub merge_states : ℕ → ℕ → ℕ → Collection → Outcome Collection
unfolding lalr_merge set_id
merge_states fuel keep₀ merge₀ c = state_at c keep₀ >>= λ k₀. state_at c merge₀ >>= λ m₀.
    at_or_throw (lookup k₀.state_id c.state_id_to_ptr) >>= λ keep.
    at_or_throw (lookup m₀.state_id c.state_id_to_ptr) >>= λ merge_ptr.
    lalr_merge keep merge_ptr c >>= λ c₁.
    let last = c₁.state_n - 1 in
    at_or_throw (lookup last c₁.state_id_to_ptr) >>= λ removed. state_at c₁ removed >>= λ r.
    assert (r.state_id == last)
    >> (state_at c₁ merge_ptr >>= λ m.
        (if m.state_id == last
          then done c₁
          else set_id fuel m.state_id removed
              (record c₁ { state_id_to_ptr = put m.state_id removed c₁.state_id_to_ptr }))
        >>= λ c₂. state_at c₂ keep >>= λ k.
            set_id fuel k.state_id keep
              (record c₂ { state_n = last; state_id_to_ptr = erase last c₂.state_id_to_ptr })
            >>= λ c₃. state_at c₃ merge_ptr >>= λ m₃.
                state_at c₃ keep >>= λ k₃. assert (m₃.state_id == k₃.state_id) >> done c₃)

-- The state of `lalr_states` with the same core.
unfoldable pub find_core : List ℕ → GrammarState → Collection → Outcome (Option ℕ)
unfolding lalr_equal
find_core [] s c = done none
find_core (p ∷ ps) s c = state_at c p >>= λ t. lalr_equal t.items s.items >>= λ same. elim same [
  | true ↦ done (some p)
  | false ↦ find_core ps s c
]

-- The loop over `states_` in `CanonicalCollection::resolve`.
unfoldable pub lalr_states : ℕ → List ℕ → List ℕ → Collection → Outcome Collection
unfolding find_core merge_states
lalr_states fuel [] kept c = done c
lalr_states fuel (p ∷ ps) kept c = state_at c p >>= λ s. find_core kept s c >>= λ same. elim same [
  | none ↦ lalr_states fuel ps (kept ++ p ∷ []) c
  | some q ↦ state_at c q >>= λ t.
      (if ltb t.state_id s.state_id then merge_states fuel q p c else merge_states fuel p q c)
      >>= λ c'. lalr_states fuel ps kept c'
]

abbrev pub numbers : ℕ → ℕ → List ℕ
numbers i zero = []
numbers i (suc n) = i ∷ numbers (suc i) n

-- `CanonicalCollection::resolve`.
unfoldable pub resolve : GrammarParser → List Production → ℕ → ParserKind → Outcome Collection
unfolding add_state resolve_state lalr_states
resolve parser productions fuel kind = select 0 (empty_of parser.action_token_n) >>= λ end_of_input.
    add_state parser productions fuel
      (record { derivation = 0; i = 0; look_ahead = end_of_input } ∷ [])
      (record { state_n = 0; states = []; state_id_to_ptr = [] })
    >>= λ added. resolve_state parser productions fuel (added.0) (added.1) >>= λ c. elim kind [
      | clr_1 ↦ done c
      | lalr_1 ↦ lalr_states fuel (numbers 0 (length c.states)) [] c
    ]
