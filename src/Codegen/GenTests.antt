-- ===== src/Codegen/GenTests.antt =====
-- The header and the rules of a small grammar file.
use neoast.Common.{
  ℕ, ◌+◌, ◌≡◌, refl, subst, List, [], ◌∷◌, ◌++◌, take, get_elem?, false, Option, none, some, ℤ, pos,
  Outcome, done, fault, out_of_range,
}
use neoast.Runtime.Types.{TokenPosition, GrammarRule}
use neoast.Runtime.Table.{ascii_max}
use neoast.Codegen.{
  Name, Token, KeyVal, KeyValKind, token, token_ascii, type, start, left, GrammarRuleSingleProto,
  File, no_rules,
}
use neoast.Codegen.Tokens.{ascii_prefix, get_ascii_from_name, get_ascii_printable}
use neoast.Lexer.Matcher.Buffer.{as_char}
use neoast.Codegen.Lines.{index_file, get_line}
use neoast.Codegen.LinesLaws.{get_line-lines_of}
use neoast.Codegen.Classes.{CgToken, codes, eqb_name}
use neoast.Codegen.Impl.{CodeGenImpl, code_gen, get_token, augment_name, blank}
use neoast.Codegen.Header.{parse_header}
use neoast.Codegen.Numbered.{IsNumbered, parse_header-IsNumbered}
use neoast.Codegen.Grammars.{Grammars, no_grammars, cg_grammars, token_number, lt_name}
use neoast.Codegen.GrammarTable.{IsBuilt, cg_grammars-IsBuilt, cg_grammars-augment_rule}
use neoast.Common.{drop}
use neoast.Codegen.Grammars.{CgGrammar, all_rules}
use neoast.Codegen.Emitted.{Written, put_grammar_entry, put_table, put_rules, put_rules-put_table}

-- A file of two lines and a third without a newline.
abbrev text : List ℕ
text = codes "%%\nab\nc"

get_line-lines_of_example : get_line (index_file text) 1 ≡ done (codes "ab")
get_line-lines_of_example = get_line-lines_of text 1

no_last_line : get_line (index_file text) 2 ≡ fault out_of_range
unfolding get_line index_file
no_last_line = refl

abbrev result {ℓ} : {A : Type ℓ} → A → Outcome A → A
result a (done x) = x
result a (fault e) = a

abbrev token_or : Option CgToken → CgToken
token_or none = blank
token_or (some t) = t

-- What stands for the functions of C, and for the macros, of which there are none.
abbrev one_digit : ℕ → ℕ
one_digit n = 1

abbrev no_number : Name → ℤ
no_number s = pos 0

abbrev plus_code : Name → ℕ
plus_code s = b'+'

abbrev no_macros : List (Name × Name) → Name → Name
no_macros macros s = s

abbrev place : TokenPosition
place = record { line = 1; col = 1; len = 1 }

abbrev entry : KeyValKind → Option Name → Name → KeyVal
entry kind key value = record {
  position = place;
  kind = kind;
  key = key;
  value = some value;
  back = none;
  next = none;
}

abbrev plus : Name
plus = ascii_prefix ++ codes "2B"

-- %token<...> NUM, '+' and a type of which the name is given, which is the start token.
abbrev header : Name → List KeyVal
header name =
    entry left none plus
    ∷ entry type (some (codes "int")) name
    ∷ entry token none (codes "NUM")
    ∷ entry token_ascii none plus
    ∷ entry start (some (codes "int")) name
    ∷ []

abbrev generator : Name → CodeGenImpl
generator name = result (code_gen (index_file text)) (
    parse_header one_digit no_number plus_code no_macros (header name) (code_gen (index_file text)))

abbrev expr : CodeGenImpl
expr = generator (codes "expr")

expr_read :
    parse_header one_digit no_number plus_code no_macros
      (header (codes "expr"))
      (code_gen (index_file text))
    ≡ done expr
unfolding parse_header index_file eqb_name get_ascii_from_name as_char get_ascii_printable
expr_read = refl

expr_clean : expr.input.err_n ≡ 0
unfolding parse_header index_file eqb_name get_ascii_from_name as_char get_ascii_printable
expr_clean = refl

parse_header-IsNumbered_example : IsNumbered expr
parse_header-IsNumbered_example =
    parse_header-IsNumbered one_digit no_number plus_code no_macros (header (codes "expr"))
      (index_file text) expr expr_read expr_clean

expr_tokens : expr.tokens ≡ codes "EOF" ∷ codes "NUM" ∷ plus ∷ codes "expr" ∷ augment_name ∷ []
unfolding parse_header eqb_name get_ascii_from_name as_char get_ascii_printable
expr_tokens = refl

abbrev word : Name → Token
word name = record { position = place; name = some name; ascii = pos 0 }

abbrev single : List Token → GrammarRuleSingleProto
single tokens = record { position = place; tokens = tokens; function = none }

-- A sum, of which the type has the name given.
abbrev sums : Name → File
sums name = record {
  header = none;
  lexer_rules = no_rules;
  grammar_rules =
      (record {
        position = place;
        name = some name;
        rules =
            single (word name ∷ word plus ∷ word (codes "NUM") ∷ [])
            ∷ single (word (codes "NUM") ∷ [])
            ∷ [];
      })
      ∷ [];
}

abbrev grammars : Name → Grammars
grammars name =
    result (no_grammars (generator name)) (cg_grammars one_digit (generator name) (sums name))

abbrev expr_augment : CgToken
expr_augment = token_or (get_token expr augment_name)

abbrev expr_start : CgToken
expr_start = token_or (get_token expr (codes "expr"))

expr_compiled : cg_grammars one_digit expr (sums (codes "expr")) ≡ done (grammars (codes "expr"))
unfolding cg_grammars parse_header eqb_name get_ascii_from_name as_char get_ascii_printable
expr_compiled = refl

expr_found : get_token expr augment_name ≡ some expr_augment
unfolding get_token parse_header eqb_name get_ascii_from_name as_char get_ascii_printable
expr_found = refl

expr_started : get_token expr expr.start_token ≡ some expr_start
unfolding get_token parse_header eqb_name get_ascii_from_name as_char get_ascii_printable
expr_started = refl

expr_later : (name : Name) → some (codes "expr") ≡ some name → lt_name name augment_name ≡ false
unfolding lt_name
expr_later name e = subst (λ o. lt_name (name_or o) augment_name ≡ false) e refl
  where
    name_or : Option Name → Name
    name_or none = []
    name_or (some k) = k

cg_grammars-IsBuilt_example : IsBuilt expr (grammars (codes "expr"))
cg_grammars-IsBuilt_example =
    cg_grammars-IsBuilt one_digit expr (sums (codes "expr")) (grammars (codes "expr")) expr_augment
      expr_compiled expr_found

cg_grammars-augment_rule_example :
    (g : GrammarRule) × (get_elem? (grammars (codes "expr")).rules 0 ≡ some g)
    × (g.token ≡ token_number expr_augment)
    × (take g.tok_n g.grammar ≡ token_number expr_start ∷ [])
cg_grammars-augment_rule_example =
    cg_grammars-augment_rule one_digit expr (sums (codes "expr")) (grammars (codes "expr"))
      expr_augment expr_start expr_compiled expr_found expr_started (expr_later, tt)

abbrev rule_or : Option CgGrammar → CgGrammar
rule_or none = record {
  parent = single [];
  return_type = blank;
  argument_types = [];
  action = record { code = []; position = place };
  table_offset = 0;
  token_n = 0;
}
rule_or (some rule) = rule

-- The rules in the order of the map: that of TOK_AUGMENT and the two of expr.
abbrev expr_rules : List CgGrammar
expr_rules = all_rules (grammars (codes "expr")).rules_cg

expr_second : get_elem? expr_rules 1 ≡ some (rule_or (get_elem? expr_rules 1))
unfolding cg_grammars parse_header eqb_name get_ascii_from_name as_char get_ascii_printable
expr_second = refl

expr_no_error : (grammars (codes "expr")).input.err_n ≡ 0
unfolding index_file cg_grammars parse_header eqb_name get_ascii_from_name as_char
    get_ascii_printable
expr_no_error = refl

put_rules-put_table_example :
    (w : Written) × (get_elem? (put_rules 0 (grammars (codes "expr")).rules) 1 ≡ some w)
    × (take w.written_n (drop w.grammar_offset (put_table expr_rules))
        ≡ put_grammar_entry (rule_or (get_elem? expr_rules 1)).parent.tokens)
put_rules-put_table_example =
    put_rules-put_table one_digit expr (sums (codes "expr")) (grammars (codes "expr")) expr_augment
      expr_compiled expr_found expr_no_error 1 (rule_or (get_elem? expr_rules 1)) expr_second

expr_table :
    put_table expr_rules
    ≡ some (codes "expr")
      ∷ some (codes "expr")
      ∷ some plus
      ∷ some (codes "NUM")
      ∷ some (codes "NUM")
      ∷ []
unfolding cg_grammars parse_header put_table eqb_name get_ascii_from_name as_char
    get_ascii_printable
expr_table = refl

-- "SUM" sorts before "TOK_AUGMENT": rule 0 is a rule of SUM, with three tokens.
sum_first :
    get_elem? (grammars (codes "SUM")).rules 0
    ≡ some (record {
      token = ascii_max + 3;
      tok_n = 3;
      grammar = (ascii_max + 3) ∷ (ascii_max + 2) ∷ (ascii_max + 1) ∷ (ascii_max + 1) ∷ [];
    })
unfolding cg_grammars parse_header eqb_name get_ascii_from_name as_char get_ascii_printable
sum_first = refl
