-- ===== src/Parsergen/First.antt =====
-- The constructor of src/parsergen/canonical_collection.cc: the productions of each grammar symbol,
-- and the tokens that it can begin with.
use neoast.Common.{
  ℕ, zero, suc, ◌+◌, List, [], ◌∷◌, ◌++◌, true, false, ◌==◌, ◌&&◌, ◌||◌, none, some,
}
use neoast.Common.{if◌then◌else◌, Outcome, done, fault, out_of_fuel, ◌>>=◌, read}
use neoast.Runtime.Types.{GrammarRule, GrammarParser}
use neoast.Parsergen.BitVector.{BitVector, empty_of, contains, select, clear_at, merge}
use neoast.Parsergen.Items.{
  Production, Report, no_productions, find, at_or_throw, replace, rule_at, to_index, is_action,
}

-- What `lr_1_firstof_impl` changes.
pub record Firsts : Type 0 where
  pub productions : List Production
  pub visiting : BitVector
  pub reports : List Report

abbrev pub production_of : ℕ → Firsts → Outcome Production
production_of token f = at_or_throw (find token f.productions)

abbrev pub update : Production → Firsts → Firsts
update p f = record f { productions = replace p f.productions }

module _ (parser : GrammarParser) where
  -- One round of the constructor's first loop.
  abbrev pub add_rule : List Production → ℕ → GrammarRule → List Production
  add_rule productions r rule = elim (find rule.token productions) [
    | none ↦
        productions
        ++ record {
          token = rule.token;
          rules = r ∷ [];
          first_of = empty_of parser.action_token_n;
          initialized = false;
          has_empty = false;
        }
          ∷ []
    | some p ↦ replace (record p { rules = p.rules ++ r ∷ [] }) productions
  ]

  -- The constructor's first loop, from rule `r` on.
  unfoldable pub add_rules : ℕ → List GrammarRule → List Production → List Production
  add_rules r [] productions = productions
  add_rules r (rule ∷ rules) productions = add_rules (r + 1) rules (add_rule productions r rule)

  -- What follows the recursive call for the first symbol of a rule of `token`.
  unfoldable pub join_first : ℕ → ℕ → GrammarRule → Firsts → Outcome Firsts
  join_first token first_tok rule f = do
    q ← production_of first_tok f
    p ← production_of token f
    (_, dest) ← merge p.first_of q.first_of
    done (
        update
          (record p { first_of = dest; has_empty = p.has_empty || q.has_empty && rule.tok_n == 1 })
          f)

  -- One rule of `token`; `recur` is the recursive call.
  unfoldable pub first_of_rule : (ℕ → Firsts → Outcome Firsts) → ℕ → ℕ → Firsts → Outcome Firsts
  unfolding join_first
  first_of_rule recur token r f = rule_at parser r >>= λ rule.
      if rule.tok_n == 0
      then (production_of token f >>= λ p. done (update (record p { has_empty = true }) f))
      else (read rule.grammar 0 >>= λ first_tok. is_action parser first_tok >>= λ action.
          if action
          then (to_index parser first_tok >>= λ k. production_of token f >>= λ p.
              select k p.first_of >>= λ dest. done (update (record p { first_of = dest }) f))
          else elim (find first_tok f.productions) [
            | none ↦ to_index parser first_tok >>= λ k. done (record f {
              reports = f.reports ++ record { problem = no_productions; rule = r; index = k } ∷ [];
            })
            | some q ↦ recur first_tok f >>= λ f'. join_first token first_tok rule f'
          ])

  unfoldable pub first_of_rules :
      (ℕ → Firsts → Outcome Firsts) → ℕ → List ℕ → Firsts → Outcome Firsts
  unfolding first_of_rule
  first_of_rules recur token [] f = done f
  first_of_rules recur token (r ∷ rs) f =
      first_of_rule recur token r f >>= λ f'. first_of_rules recur token rs f'

  -- `lr_1_firstof_impl`, where `dest` is always the set of `token`: to merge a set into itself changes
  -- nothing.
  unfoldable pub lr_1_firstof_impl : ℕ → ℕ → Firsts → Outcome Firsts
  unfolding first_of_rules
  lr_1_firstof_impl zero token f = fault out_of_fuel
  lr_1_firstof_impl (suc fuel) token f = to_index parser token >>= λ k.
      contains f.visiting k >>= λ seen.
      if seen
      then done f
      else (production_of token f >>= λ p.
          if p.initialized
          then (merge p.first_of p.first_of >>= λ merged.
              done (update (record p { first_of = merged.1 }) f))
          else (select k f.visiting >>= λ entered.
              first_of_rules (lr_1_firstof_impl fuel) token p.rules
                (record f { visiting = entered })
              >>= λ f₁. clear_at k f₁.visiting >>= λ left. production_of token f₁ >>= λ p₁.
                  done (update (record p₁ { initialized = true }) (record f₁ { visiting = left }))))

  -- `lr_1_firstof_init`.
  unfoldable pub lr_1_firstof_init :
      ℕ → ℕ → List Production × List Report → Outcome (List Production × List Report)
  unfolding lr_1_firstof_impl
  lr_1_firstof_init fuel token (productions, reports) = do
    f ← lr_1_firstof_impl fuel token (record {
      productions = productions;
      visiting = empty_of (parser.token_n + 1);
      reports = reports;
    })
    done (f.productions, f.reports)

  -- The constructor's second loop, over the symbols in the order of the map; it stops at an error.
  unfoldable pub fill_firsts :
      ℕ → List ℕ → List Production × List Report → Outcome (List Production × List Report)
  unfolding lr_1_firstof_init
  fill_firsts fuel [] s = done s
  fill_firsts fuel (token ∷ tokens) s = at_or_throw (find token (s.0)) >>= λ p. elim p.initialized [
    | true ↦ fill_firsts fuel tokens s
    | false ↦ lr_1_firstof_init fuel token s >>= λ s'. elim (s'.1) [
      | [] ↦ fill_firsts fuel tokens s'
      | report ∷ others ↦ done s'
    ]
  ]

  -- The constructor, with the order of the map `first_options_`.
  unfoldable pub initial : ℕ → List ℕ → Outcome (List Production × List Report)
  unfolding add_rules fill_firsts
  initial fuel order = fill_firsts fuel order (add_rules 0 parser.grammar_rules [], [])
