-- ===== src/Parsergen/Items.antt =====
-- The items of src/parsergen/derivation.h, and what a canonical collection knows of its grammar
-- before any state: canonical_collection.h. A rule is its index in `grammar_rules`.
use neoast.Common.{
  ℕ, ◌+◌, ◌-◌, List, [], ◌∷◌, Bool, true, false, ◌==◌, ltb, leb, ◌&&◌, Option, none, some, drop,
}
use neoast.Common.{if◌then◌else◌, Outcome, done, fault, out_of_range, ◌>>=◌, ◌>>◌, assert, read}
use neoast.Lexer.Input.{slice}
use neoast.Runtime.Types.{GrammarRule, GrammarParser}
use neoast.Runtime.Table.{ascii_max}
use neoast.Parsergen.BitVector.{BitVector, select, merge, eqb_bits}

-- `LR1`, with the fields of `LR0`.
pub record Item : Type 0 where
  pub derivation : ℕ
  pub i : ℕ
  pub look_ahead : BitVector

-- What is kept for a grammar symbol: `productions_`, `first_ofs_` and the two flags of
-- `first_options_`.
pub record Production : Type 0 where
  pub token : ℕ
  pub rules : List ℕ
  pub first_of : BitVector
  pub initialized : Bool
  pub has_empty : Bool

-- What was reported to the context: a rule and the kind of the report.
pub data Problem : Type 0 where
  no_productions reduce_reduce other_rule shift_reduce : Problem

pub record Report : Type 0 where
  pub problem : Problem
  pub rule : ℕ
  pub index : ℕ

-- The maps of one key type, as one list of entries.
abbrev pub find : ℕ → List Production → Option Production
find token [] = none
find token (p ∷ ps) = if p.token == token then some p else find token ps

-- `at`, which throws if there is no entry.
abbrev pub at_or_throw {ℓ} : {A : Type ℓ} → Option A → Outcome A
at_or_throw none = fault out_of_range
at_or_throw (some a) = done a

abbrev pub replace : Production → List Production → List Production
replace q [] = []
replace q (p ∷ ps) = if p.token == q.token then q ∷ ps else p ∷ replace q ps

module _ (parser : GrammarParser) where
  abbrev pub rule_at : ℕ → Outcome GrammarRule
  rule_at r = read parser.grammar_rules r

  unfoldable pub to_index : ℕ → Outcome ℕ
  to_index token =
      if ltb token ascii_max
      then (read parser.ascii_mappings token >>= λ t.
          assert (leb ascii_max t) >> done (t - ascii_max))
      else done (token - ascii_max)

  unfoldable pub is_action : ℕ → Outcome Bool
  unfolding to_index
  is_action token = do k ← to_index token; done (ltb k parser.action_token_n)

  -- `is_final` and `curr` of an item.
  unfoldable pub is_final : Item → Outcome Bool
  is_final item = do rule ← rule_at item.derivation; done (item.i == rule.tok_n)

  unfoldable pub curr : Item → Outcome ℕ
  curr item = do rule ← rule_at item.derivation; read rule.grammar item.i

  -- `merge_first_of`: the set with what a symbol can begin with, and whether it can be empty.
  unfoldable pub merge_first_of : List Production → BitVector → ℕ → Outcome (Bool × BitVector)
  unfolding is_action to_index
  merge_first_of productions dest token = do
    action ← is_action token
    elim action [
      | true ↦ to_index token >>= λ k. select k dest >>= λ b. done (false, b)
      | false ↦ at_or_throw (find token productions) >>= λ p.
          merge dest p.first_of >>= λ merged. done (p.has_empty, merged.1)
    ]

  -- The rounds of `merge_next_lookaheads` on the symbols behind the next one.
  unfoldable pub merge_symbols :
      List Production → BitVector → BitVector → List ℕ → Outcome BitVector
  unfolding merge_first_of
  merge_symbols productions look_ahead dest [] = do (_, b) ← merge dest look_ahead; done b
  merge_symbols productions look_ahead dest (token ∷ tokens) =
      merge_first_of productions dest token >>= λ r. elim (r.0) [
        | true ↦ merge_symbols productions look_ahead (r.1) tokens
        | false ↦ done (r.1)
      ]

  -- `LR1::merge_next_lookaheads`.
  unfoldable pub merge_next_lookaheads : List Production → Item → BitVector → Outcome BitVector
  unfolding merge_symbols
  merge_next_lookaheads productions item dest = do
    rule ← rule_at item.derivation
    symbols ← slice rule.grammar 0 rule.tok_n
    merge_symbols productions item.look_ahead dest (drop (item.i + 1) symbols)

-- `LR0::operator==`, and `LR1::operator==`.
abbrev pub eqb_core : Item → Item → Bool
eqb_core a b = a.derivation == b.derivation && a.i == b.i

abbrev pub eqb_item : Item → Item → Bool
eqb_item a b = eqb_core a b && eqb_bits a.look_ahead b.look_ahead
