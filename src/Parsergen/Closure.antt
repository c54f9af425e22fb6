-- ===== src/Parsergen/Closure.antt =====
-- `GrammarState::apply_closure` of src/parsergen/derivation.cc. The set of items is a list in the
-- order of their insertion, and a pointer to an item is its index.
use neoast.Common.{
  ℕ, zero, suc, ◌+◌, List, [], ◌∷◌, ◌++◌, length, Bool, true, false, not, ◌==◌, ◌&&◌, Option, none,
  some,
}
use neoast.Common.{if◌then◌else◌, Outcome, done, fault, out_of_fuel, ◌>>=◌, ◌>>◌, assert, read}
use neoast.Runtime.Types.{GrammarParser}
use neoast.Parsergen.BitVector.{BitVector, empty_of, contains, select, merge}
use neoast.Parsergen.Items.{
  Item, Production, find, at_or_throw, rule_at, to_index, is_action, is_final, curr,
  merge_next_lookaheads, eqb_item,
}

-- The index of an equal item, from index `k` on.
abbrev pub find_item : ℕ → Item → List Item → Option ℕ
find_item k x [] = none
find_item k x (y ∷ ys) = if eqb_item y x then some k else find_item (suc k) x ys

-- `emplace`: the set, and where the item is.
abbrev pub emplace : Item → List Item → ℕ × List Item
emplace x items = elim (find_item 0 x items) [
  | some k ↦ (k, items)
  | none ↦ (length items, items ++ x ∷ [])
]

-- The items of a state before the closure.
abbrev pub insert_items : List Item → List Item → List Item
insert_items [] items = items
insert_items (x ∷ xs) items = insert_items xs ((emplace x items).1)

-- The items, the rules that are expanded, and the items of the next round.
pub record Expanding : Type 0 where
  pub items : List Item
  pub expanded : BitVector
  pub next_dirty : List ℕ

-- The indices of the first round.
abbrev pub from : ℕ → ℕ → List ℕ
from i zero = []
from i (suc n) = i ∷ from (suc i) n

module _ (parser : GrammarParser) (productions : List Production) where
  -- The symbol that an item has to be expanded for.
  unfoldable pub expands : Item → Outcome (Option ℕ)
  unfolding is_final curr is_action
  expands item = is_final parser item >>= λ final.
      if final
      then done none
      else (curr parser item >>= λ token.
          is_action parser token >>= λ action. done (if action then none else some token))

  -- `merge_next_lookaheads` into an empty set.
  unfoldable pub next_lookaheads : Item → Outcome BitVector
  next_lookaheads item =
      merge_next_lookaheads parser productions item (empty_of parser.action_token_n)

  -- A set is merged into each item of a rule of `token`.
  unfoldable pub merge_all : ℕ → BitVector → List Item → Outcome (List Item)
  merge_all token new [] = done []
  merge_all token new (item ∷ items) = rule_at parser item.derivation >>= λ rule.
      (if rule.token == token then merge item.look_ahead new else done (false, item.look_ahead))
      >>= λ merged.
          merge_all token new items >>= λ rest. done (record item { look_ahead = merged.1 } ∷ rest)

  -- The rules of a symbol become items.
  unfoldable pub add_items : BitVector → List ℕ → Expanding → Expanding
  add_items new [] e = e
  add_items new (r ∷ rs) e =
      let (k, items) = emplace (record { derivation = r; i = 0; look_ahead = new }) e.items in
      add_items new rs (record e { items = items; next_dirty = e.next_dirty ++ k ∷ [] })

  -- One item of `curr_dirty`.
  unfoldable pub expand_item : ℕ → Expanding → Outcome Expanding
  unfolding expands next_lookaheads merge_all add_items
  expand_item at e = read e.items at >>= λ item. expands item >>= λ symbol. elim symbol [
    | none ↦ done e
    | some token ↦ to_index parser token >>= λ k. contains e.expanded k >>= λ before.
        next_lookaheads item >>= λ new.
        if before
        then (merge_all token new e.items >>= λ items. done (record e { items = items }))
        else (select k e.expanded >>= λ expanded. at_or_throw (find token productions) >>= λ p.
            done (add_items new p.rules (record e { expanded = expanded })))
  ]

  unfoldable pub expand_items : List ℕ → Expanding → Outcome Expanding
  unfolding expand_item
  expand_items [] e = done e
  expand_items (at ∷ ats) e = expand_item at e >>= λ e'. expand_items ats e'

  -- `while (!curr_dirty->empty())`.
  unfoldable pub expand_rounds : ℕ → List ℕ → Expanding → Outcome Expanding
  unfolding expand_items
  expand_rounds fuel [] e = done e
  expand_rounds zero (at ∷ ats) e = fault out_of_fuel
  expand_rounds (suc fuel) (at ∷ ats) e =
      expand_items (at ∷ ats) (record e { next_dirty = [] }) >>= λ e'.
      expand_rounds fuel e'.next_dirty e'

  -- The inner loop of the propagation: once something has changed, nothing more is merged.
  unfoldable pub pass_on : ℕ → BitVector → Bool → List Item → Outcome (Bool × List Item)
  pass_on token new dirty [] = done (dirty, [])
  pass_on token new dirty (item ∷ items) = rule_at parser item.derivation >>= λ rule.
      (if not dirty && rule.token == token
        then merge item.look_ahead new
        else done (dirty, item.look_ahead))
      >>= λ merged. pass_on token new (merged.0) items >>= λ rest.
          done (rest.0, record item { look_ahead = merged.1 } ∷ rest.1)

  -- The item at `at`, if it is not final and its symbol not an action.
  unfoldable pub propagate_item : BitVector → ℕ → Bool × List Item → Outcome (Bool × List Item)
  unfolding expands next_lookaheads pass_on
  propagate_item expanded at (dirty, items) = read items at >>= λ item. expands item >>= λ symbol.
      elim symbol [
        | none ↦ done (dirty, items)
        | some token ↦ to_index parser token >>= λ k. contains expanded k >>= λ before.
            assert before >> (next_lookaheads item >>= λ new. pass_on token new dirty items)
      ]

  -- The items from index `at` on, of which `rounds` are left.
  unfoldable pub propagate_from : BitVector → ℕ → ℕ → Bool × List Item → Outcome (Bool × List Item)
  unfolding propagate_item
  propagate_from expanded zero at s = done s
  propagate_from expanded (suc rounds) at s =
      propagate_item expanded at s >>= λ s'. propagate_from expanded rounds (at + 1) s'

  -- `while (dirty)`.
  unfoldable pub propagate : ℕ → BitVector → List Item → Outcome (List Item)
  unfolding propagate_from
  propagate zero expanded items = fault out_of_fuel
  propagate (suc fuel) expanded items =
      propagate_from expanded (length items) 0 (false, items) >>= λ s. elim (s.0) [
        | true ↦ propagate fuel expanded (s.1)
        | false ↦ done (s.1)
      ]

  -- `apply_closure`; each of its two loops gets the fuel.
  unfoldable pub apply_closure : ℕ → List Item → Outcome (List Item)
  unfolding expand_rounds propagate
  apply_closure fuel items =
      expand_rounds fuel (from 0 (length items))
        (record { items = items; expanded = empty_of (parser.token_n + 1); next_dirty = [] })
      >>= λ e. propagate fuel e.expanded e.items
