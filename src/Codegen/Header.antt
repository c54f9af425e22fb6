-- ===== src/Codegen/Header.antt =====
-- `CodeGenImpl::parse_header` of src/codegen/codegen.cc. The list that `header` links is given as the
-- list of its nodes. `strtol` is that of C, `unhex` reads a hexadecimal number, and `expand` is
-- `MacroEngine::expand`; `digits` is for the messages.
use neoast.Common.{
  ℕ, suc, ◌+◌, List, [], ◌∷◌, ◌++◌, ◌-◌, not, ◌&&◌, Option, none, some, ℤ, pos, negsuc,
  if◌then◌else◌, Outcome, done, fault, bounds, ◌>>=◌, deref, write,
}
use neoast.Runtime.Types.{TokenPosition}
use neoast.Runtime.Table.{ascii_max}
use neoast.Codegen.{
  Name, KeyVal, top, bottom, option, token, token_ascii, token_type, type, left, right, macro,
  start, union, destructor, lexer, include,
}
use neoast.Codegen.Tokens.{get_ascii_from_name, get_ascii_printable}
use neoast.Codegen.Lines.{
  Notice, emit_error, emit_warning, multiple_code, repeated_token, undefined_token,
  type_in_precedence, repeated_precedence, repeated_start, repeated_destructor,
}
use neoast.Codegen.Classes.{
  eqb_name, Code, CgToken, ascii_action, typed_action, grammar_token, is_cg_action, is_ascii_token,
  or_empty, codes, handle_option,
}
use neoast.Parsergen.Collection.{lookup, put}
use neoast.Parsergen.Table.{precedence_left, precedence_right}
use neoast.Codegen.Impl.{
  CodeGenImpl, names_of, get_token, lookup_name, put_name, augment_name, code_of, token_of, blank,
  number_from,
}

module _ (digits : ℕ → ℕ) (strtol : Name → ℤ) (unhex : Name → ℕ)
    (expand : List (Name × Name) → Name → Name) where
  unfoldable pub report : Option TokenPosition → Notice → CodeGenImpl → Outcome CodeGenImpl
  unfolding emit_error
  report p what g = emit_error digits g.input p what >>= λ f. done (record g { input = f })

  -- `ascii_mappings`, which register_action writes for the token of a character; the index is a `char`.
  unfoldable pub map_ascii : CgToken → List ℕ → Outcome (List ℕ)
  map_ascii t mappings =
      if is_ascii_token t
      then (get_ascii_from_name unhex t.name >>= λ c. elim c [
        | pos n ↦ write mappings n (t.id + ascii_max)
        | negsuc n ↦ fault bounds
      ])
      else done mappings

  unfoldable pub register_action : CgToken → CodeGenImpl → Outcome CodeGenImpl
  unfolding get_token report map_ascii
  register_action t g = elim (get_token g t.name) [
    | some other ↦ report (some t.position) repeated_token g
    | none ↦ map_ascii t g.ascii_mappings >>= λ mappings.
        done (record g { ascii_mappings = mappings; action_tokens = g.action_tokens ++ t ∷ [] })
  ]

  unfoldable pub register_grammar : CgToken → CodeGenImpl → Outcome CodeGenImpl
  unfolding get_token report
  register_grammar t g = elim (get_token g t.name) [
    | some other ↦ report (some t.position) repeated_token g
    | none ↦ done (record g { grammar_tokens = g.grammar_tokens ++ t ∷ [] })
  ]

  -- The piece of code of a kind that may appear once: `old` is what there is.
  unfoldable pub single_code :
      KeyVal → Option Code → (Option Code → CodeGenImpl) → CodeGenImpl → Outcome CodeGenImpl
  unfolding report
  single_code iter (some old) set_code g = report (some iter.position) multiple_code g
  single_code iter none set_code g = code_of iter >>= λ c. done (set_code (some c))

  -- One entry in the first round, with `action_id`. There is no slot for KEY_VAL_LEXER in the map, so
  -- that a null pointer is read.
  unfoldable pub first_entry : KeyVal → ℕ × CodeGenImpl → Outcome (ℕ × CodeGenImpl)
  unfolding register_action register_grammar single_code
  first_entry iter (n, g) = elim iter.kind [
    | top ↦ single_code iter g.top_code (λ c. record g { top_code = c }) g >>= λ g'. done (n, g')
    | bottom ↦
        single_code iter g.bottom_code (λ c. record g { bottom_code = c }) g >>= λ g'. done (n, g')
    | union ↦
        single_code iter g.union_code (λ c. record g { union_code = c }) g >>= λ g'. done (n, g')
    | include ↦ single_code iter g.include_code (λ c. record g { include_code = c }) g >>= λ g'.
        done (n, g')
    | lexer ↦ fault bounds
    | token ↦ token_of iter n blank >>= λ t. register_action t g >>= λ g'. done (suc n, g')
    | token_ascii ↦ token_of iter n (record blank { class = ascii_action }) >>= λ t.
        register_action t g >>= λ g'. done (suc n, g')
    | token_type ↦
        token_of iter n (record blank { class = typed_action (or_empty iter.key) }) >>= λ t.
        register_action t g >>= λ g'. done (suc n, g')
    | type ↦ token_of iter 0 (record blank { class = grammar_token (or_empty iter.key) }) >>= λ t.
        register_grammar t g >>= λ g'. done (n, g')
    | option ↦ handle_option digits strtol iter g.options g.input >>= λ r.
        done (n, record g { options = r.0; input = r.1 })
    | left ↦ done (n, g)
    | right ↦ done (n, g)
    | macro ↦ done (n, g)
    | start ↦ done (n, g)
    | destructor ↦ done (n, g)
  ]

  unfoldable pub first_round : List KeyVal → ℕ × CodeGenImpl → Outcome (ℕ × CodeGenImpl)
  unfolding first_entry
  first_round [] s = done s
  first_round (iter ∷ iters) s = first_entry iter s >>= λ s'. first_round iters s'

  unfoldable pub set_precedence : KeyVal → ℕ → CodeGenImpl → Outcome CodeGenImpl
  unfolding get_token report
  set_precedence iter direction g = deref iter.value >>= λ name. elim (get_token g name) [
    | none ↦ report (some iter.position) undefined_token g
    | some t ↦
        if not (is_cg_action t)
        then report (some iter.position) type_in_precedence g
        else elim (lookup t.id g.precedence_mapping) [
          | some other ↦ report (some iter.position) repeated_precedence g
          | none ↦ done (record g { precedence_mapping = put t.id direction g.precedence_mapping })
        ]
  ]

  unfoldable pub add_macro : KeyVal → CodeGenImpl → Outcome CodeGenImpl
  add_macro iter g = deref iter.key >>= λ key. deref iter.value >>= λ value.
      done (record g { macros = put_name key (expand g.macros value) g.macros })

  unfoldable pub set_start : KeyVal → CodeGenImpl → Outcome CodeGenImpl
  unfolding emit_warning
  set_start iter g =
      (if eqb_name g.start_type [] && eqb_name g.start_token []
        then done g.input
        else emit_warning digits g.input (some iter.position) repeated_start)
      >>= λ f. deref iter.key >>= λ key. deref iter.value >>= λ value.
          done (record g { input = f; start_type = key; start_token = value })

  -- The new code takes the place of the old one, after the message.
  unfoldable pub add_destructor : KeyVal → CodeGenImpl → Outcome CodeGenImpl
  unfolding report
  add_destructor iter g = deref iter.key >>= λ key.
      (elim (lookup_name key g.destructors) [
        | some other ↦ report (some iter.position) repeated_destructor g
        | none ↦ done g
      ])
      >>= λ g'.
          code_of iter >>= λ c. done (record g' { destructors = put_name key c g'.destructors })

  -- One entry in the second round.
  unfoldable pub second_entry : KeyVal → CodeGenImpl → Outcome CodeGenImpl
  unfolding set_precedence add_macro set_start add_destructor
  second_entry iter g = elim iter.kind [
    | left ↦ set_precedence iter precedence_left g
    | right ↦ set_precedence iter precedence_right g
    | macro ↦ add_macro iter g
    | start ↦ set_start iter g
    | destructor ↦ add_destructor iter g
    | top ↦ done g
    | bottom ↦ done g
    | union ↦ done g
    | include ↦ done g
    | lexer ↦ done g
    | token ↦ done g
    | token_ascii ↦ done g
    | token_type ↦ done g
    | type ↦ done g
    | option ↦ done g
  ]

  unfoldable pub second_round : List KeyVal → CodeGenImpl → Outcome CodeGenImpl
  unfolding second_entry
  second_round [] g = done g
  second_round (iter ∷ iters) g = second_entry iter g >>= λ g'. second_round iters g'

  -- The name of a token in messages.
  unfoldable pub debug_name : CgToken → Outcome Name
  debug_name t =
      if is_ascii_token t
      then (get_ascii_from_name unhex t.name >>= λ c. elim (get_ascii_printable c) [
        | some printable ↦ done printable
        | none ↦ elim c [ pos n ↦ done (n ∷ []) | negsuc n ↦ done ((255 - n) ∷ []) ]
      ])
      else done t.name

  unfoldable pub debug_names : List CgToken → Outcome (List Name)
  unfolding debug_name
  debug_names [] = done []
  debug_names (t ∷ ts) = debug_name t >>= λ name. debug_names ts >>= λ names. done (name ∷ names)

  abbrev pub eof_token : CgToken
  eof_token = record blank { name = codes "EOF" }

  abbrev pub augment_token : CodeGenImpl → CgToken
  augment_token g = record blank { name = augment_name; class = grammar_token g.start_type }

  unfoldable pub parse_header : List KeyVal → CodeGenImpl → Outcome CodeGenImpl
  unfolding first_round second_round register_grammar number_from debug_names
  parse_header header g₀ = do
    (n, g₁) ←
        first_round header (1, record g₀ { action_tokens = g₀.action_tokens ++ eof_token ∷ [] })
    g₂ ← second_round header g₁
    g₃ ← register_grammar (augment_token g₂) g₂
    numbered ← number_from n g₃.grammar_tokens
    actions ← debug_names g₃.action_tokens
    done (record g₃ {
      grammar_tokens = numbered;
      tokens = names_of g₃.action_tokens ++ names_of numbered;
      tokens_names = actions ++ names_of numbered;
    })
