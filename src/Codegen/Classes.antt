-- ===== src/Codegen/Classes.antt =====
-- The classes of src/codegen/codegen_priv.h and the options of src/codegen/cg_util.h.
use Prim.Native.Char.{code}
use Prim.Native.String.{String}
use neoast.Common.{
  ℕ, List, [], ◌∷◌, Bool, true, false, ◌==◌, ◌&&◌, ◌||◌, Option, none, some, ℤ, pos, if◌then◌else◌,
  Outcome, done, fault, bounds, ◌>>=◌, deref,
}
use neoast.Runtime.Types.{TokenPosition}
use neoast.Codegen.{Name, KeyVal}
use neoast.Codegen.Lines.{
  InputFile, emit_error, emit_warning, invalid_parser_type, unsupported_option, invalid_boolean,
}
use neoast.Parsergen.Collection.{ParserKind, lalr_1, clr_1}

-- `==` of strings, and `strcmp(a, b) == 0`.
unfoldable pub eqb_name : Name → Name → Bool
eqb_name [] [] = true
eqb_name (a ∷ as_) (b ∷ bs) = a == b && eqb_name as_ bs
eqb_name _ _ = false

-- `NO_POSITION`.
abbrev pub no_position : TokenPosition
no_position = record { line = 0; col = 0; len = 0 }

-- `Code`, without its file.
pub record Code : Type 0 where
  pub code : Name
  pub position : TokenPosition

-- The classes below `CGToken`, with the type that a typed one has.
pub data CgClass : Type 0 where
  action ascii_action : CgClass
  typed_action grammar_token : Name → CgClass

pub record CgToken : Type 0 where
  pub position : TokenPosition
  pub name : Name
  pub id : ℕ
  pub class : CgClass

-- `dynamic_cast<CGAction*>`.
abbrev pub is_cg_action : CgToken → Bool
is_cg_action t = elim t.class [
  | action ↦ true
  | ascii_action ↦ true
  | typed_action ty ↦ true
  | grammar_token ty ↦ false
]

abbrev pub is_ascii_token : CgToken → Bool
is_ascii_token t = elim t.class [
  | action ↦ false
  | ascii_action ↦ true
  | typed_action ty ↦ false
  | grammar_token ty ↦ false
]

-- The type of a `CGTyped`, and of any other token the empty string.
abbrev pub type_of : CgToken → Name
type_of t = elim t.class [
  | action ↦ []
  | ascii_action ↦ []
  | typed_action ty ↦ ty
  | grammar_token ty ↦ ty
]

-- The type of a `CGGrammarToken`; a token that is cast to one has to be one.
abbrev pub type_of_grammar : CgToken → Outcome Name
type_of_grammar t = elim t.class [
  | action ↦ fault bounds
  | ascii_action ↦ fault bounds
  | typed_action ty ↦ fault bounds
  | grammar_token ty ↦ done ty
]

abbrev pub or_empty : Option Name → Name
or_empty none = []
or_empty (some name) = name

-- `struct Options`, without `max_tokens`, which nothing sets.
pub record CodegenOptions : Type 0 where
  pub annotate_line : Bool
  pub track_position_type : Name
  pub debug_ids : Name
  pub prefix : Name
  pub lexing_error_cb : Name
  pub syntax_error_cb : Name
  pub parser_type : ParserKind
  pub parsing_stack_n : ℤ

abbrev pub codes : String → List ℕ
codes String.[] = []
codes (String.◌∷◌ c s) = code c ∷ codes s

abbrev pub default_options : CodegenOptions
default_options = record {
  annotate_line = true;
  track_position_type = codes "TokenPosition";
  debug_ids = [];
  prefix = codes "neoast";
  lexing_error_cb = [];
  syntax_error_cb = [];
  parser_type = lalr_1;
  parsing_stack_n = pos 1024;
}

module _ (digits : ℕ → ℕ) (strtol : Name → ℤ) where
  unfoldable pub codegen_parse_bool : KeyVal → Name → InputFile → Outcome (Bool × InputFile)
  unfolding eqb_name emit_warning
  codegen_parse_bool self value f =
      if eqb_name value (codes "TRUE")
        || (eqb_name value (codes "true")
            || (eqb_name value (codes "True") || eqb_name value (codes "1")))
      then done (true, f)
      else if eqb_name value (codes "FALSE")
          || (eqb_name value (codes "false")
              || (eqb_name value (codes "False") || eqb_name value (codes "0")))
      then done (false, f)
      else (emit_warning digits f (some self.position) invalid_boolean >>= λ f'. done (false, f'))

  -- `Options::handle`.
  unfoldable pub handle_option :
      KeyVal → CodegenOptions → InputFile → Outcome (CodegenOptions × InputFile)
  unfolding codegen_parse_bool emit_error
  handle_option self o f = do
    key ← deref self.key
    value ← deref self.value
    if eqb_name key (codes "parser_type")
        then (if eqb_name value (codes "LALR(1)")
            then done (record o { parser_type = lalr_1 }, f)
            else if eqb_name value (codes "CLR(1)")
            then done (record o { parser_type = clr_1 }, f)
            else (emit_error digits f (some self.position) invalid_parser_type >>= λ f'.
                done (o, f')))
        else if eqb_name key (codes "track_position_type")
        then done (record o { track_position_type = value }, f)
        else if eqb_name key (codes "annotate_line")
        then (codegen_parse_bool self value f >>= λ r. done (record o { annotate_line = r.0 }, r.1))
        else if eqb_name key (codes "debug_ids")
        then done (record o { debug_ids = value }, f)
        else if eqb_name key (codes "prefix")
        then done (record o { prefix = value }, f)
        else if eqb_name key (codes "parsing_stack_size")
        then done (record o { parsing_stack_n = strtol value }, f)
        else if eqb_name key (codes "parsing_error_cb")
        then done (record o { syntax_error_cb = value }, f)
        else if eqb_name key (codes "lexing_error_cb")
        then done (record o { lexing_error_cb = value }, f)
        else (emit_warning digits f (some self.position) unsupported_option >>= λ f'. done (o, f'))
