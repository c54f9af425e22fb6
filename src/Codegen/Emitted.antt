-- ===== src/Codegen/Emitted.antt =====
-- `put_table` and `put_rules` of src/codegen/cg_grammar.cc: the two tables that are written, of tokens and
-- of rules, without the layout of the text.
use neoast.Common.{
  ℕ, zero, suc, ◌+◌, ◌-◌, ◌≡◌, refl, ap, sym, ◌∙◌, List, [], ◌∷◌, ◌++◌, length, take, drop,
  get_elem?, Option, none, some, arith, done, length-append, take-length, take-append_le,
}
use mathlib.Core.List.{append_assoc}
use neoast.Runtime.Types.{GrammarRule}
use neoast.Runtime.Table.{ascii_max}
use neoast.Codegen.{Name, Token, File}
use neoast.Codegen.Classes.{CgToken}
use neoast.Codegen.Impl.{CodeGenImpl, get_token, augment_name}
use neoast.Codegen.Grammars.{CgGrammar, Grammars, all_rules, cg_grammars}
use neoast.Codegen.GrammarTable.{cg_grammars-IsBuilt}

-- `put_grammar_entry`.
unfoldable pub put_grammar_entry : List Token → List (Option Name)
put_grammar_entry [] = []
put_grammar_entry (tok ∷ toks) = tok.name ∷ put_grammar_entry toks

-- `put_table`, on the rules in the order of the map.
unfoldable pub put_table : List CgGrammar → List (Option Name)
unfolding put_grammar_entry
put_table [] = []
put_table (rule ∷ rules) = put_grammar_entry rule.parent.tokens ++ put_table rules

-- A rule as it is written: the index of the name of its token, the number of its tokens, and where they
-- start in the table.
pub record Written : Type 0 where
  pub name_index : ℕ
  pub written_n : ℕ
  pub grammar_offset : ℕ

-- `put_rules`, with `grammar_offset_i`.
unfoldable pub put_rules : ℕ → List GrammarRule → List Written
put_rules grammar_offset_i [] = []
put_rules grammar_offset_i (rule ∷ rules) =
    record {
      name_index = rule.token - ascii_max;
      written_n = rule.tok_n;
      grammar_offset = grammar_offset_i;
    }
    ∷ put_rules (grammar_offset_i + rule.tok_n) rules

length-put_grammar_entry : (toks : List Token) → length (put_grammar_entry toks) ≡ length toks
unfolding put_grammar_entry
length-put_grammar_entry [] = refl
length-put_grammar_entry (tok ∷ toks) = ap suc (length-put_grammar_entry toks)

-- The rules that are written have as many tokens as those of the map.
abbrev Agree : List CgGrammar → List GrammarRule → Type 0
Agree cs gs =
    (i : ℕ) (c : CgGrammar)
    → get_elem? cs i ≡ some c
    → (g : GrammarRule) × (get_elem? gs i ≡ some g) × (g.tok_n ≡ length c.parent.tokens)

cut :
    (before xs ys : List (Option Name)) (n : ℕ)
    → n ≡ length xs
    → take n (drop (length before) (before ++ (xs ++ ys))) ≡ xs
cut [] xs ys n e = take-append_le n xs ys (omega arith) ∙ ap (λ k. take k xs) e ∙ take-length xs
cut (b ∷ before) xs ys n e = cut before xs ys n e

-- Behind a part of the table that is as long as the offset, each rule finds its tokens.
put_rules-cut :
    (before : List (Option Name)) (cs : List CgGrammar) (gs : List GrammarRule) (i : ℕ)
    (c : CgGrammar)
    → Agree cs gs
    → get_elem? cs i ≡ some c
    → (w : Written) × (get_elem? (put_rules (length before) gs) i ≡ some w)
      × (take w.written_n (drop w.grammar_offset (before ++ put_table cs))
          ≡ put_grammar_entry c.parent.tokens)
unfolding put_rules put_table
put_rules-cut before [] gs i c agree got = absurd (ground (arith, got))
put_rules-cut before (x ∷ cs) [] i c agree got = absurd (none_there (agree 0 x refl))
  where
    none_there : (g : GrammarRule) × (none ≡ some g) × (g.tok_n ≡ length x.parent.tokens) → ⊥
    none_there (g, e, n) = cc
put_rules-cut before (x ∷ cs) (g ∷ gs) zero c agree got =
    let same : x ≡ c = some_eq got in
    let n = head_n (agree 0 x refl) in
    (
      record {
        name_index = g.token - ascii_max;
        written_n = g.tok_n;
        grammar_offset = length before;
      },
      refl,
      cut before (put_grammar_entry x.parent.tokens) (put_table cs) g.tok_n
            (n ∙ sym (length-put_grammar_entry x.parent.tokens))
          ∙ ap (λ y. put_grammar_entry y.parent.tokens) same,
    )
  where
    some_eq : {a b : CgGrammar} → some a ≡ some b → a ≡ b
    some_eq e = cc

    head_n :
        (g' : GrammarRule) × (some g ≡ some g') × (g'.tok_n ≡ length x.parent.tokens)
        → g.tok_n ≡ length x.parent.tokens
    head_n (g', e, n) = cc
put_rules-cut before (x ∷ cs) (g ∷ gs) (suc i) c agree got =
    let entry = put_grammar_entry x.parent.tokens in
    let long : length (before ++ entry) ≡ length before + g.tok_n =
      length-append before entry
      ∙ ap (λ k. length before + k)
          (length-put_grammar_entry x.parent.tokens ∙ sym (head_n (agree 0 x refl))) in
    let (w, at_i, found) = put_rules-cut (before ++ entry) cs gs i c (λ j. agree (suc j)) got in
    (
      w,
      ap (λ k. get_elem? (put_rules k gs) i) (sym long) ∙ at_i,
      ap (λ t. take w.written_n (drop w.grammar_offset t))
            (sym (append_assoc before entry (put_table cs)))
          ∙ found,
    )
  where
    head_n :
        (g' : GrammarRule) × (some g ≡ some g') × (g'.tok_n ≡ length x.parent.tokens)
        → g.tok_n ≡ length x.parent.tokens
    head_n (g', e, n) = cc

-- Where TOK_AUGMENT is a token and there is no message about an error, each rule of the map has at its
-- place among the written rules an entry whose part of the written table is the names of its tokens.
pub put_rules-put_table :
    (digits : ℕ → ℕ) (cg : CodeGenImpl) (self : File) (s : Grammars) (a : CgToken)
    → cg_grammars digits cg self ≡ done s
    → get_token cg augment_name ≡ some a
    → s.input.err_n ≡ 0
    → (i : ℕ) (c : CgGrammar) → get_elem? (all_rules s.rules_cg) i ≡ some c
    → (w : Written) × (get_elem? (put_rules 0 s.rules) i ≡ some w)
      × (take w.written_n (drop w.grammar_offset (put_table (all_rules s.rules_cg)))
          ≡ put_grammar_entry c.parent.tokens)
put_rules-put_table digits cg self s a h found clean i c got =
    put_rules-cut [] (all_rules s.rules_cg) s.rules i c
      (λ j d at_j.
        let (g, there, is_rule, place) =
          (cg_grammars-IsBuilt digits cg self s a h found).rule j d at_j in
        (g, there, is_rule.complete clean))
      got
