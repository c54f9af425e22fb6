-- ===== src/Codegen/Impl.antt =====
-- `CodeGenImpl` of src/codegen/codegen_impl.h and src/codegen/codegen.cc, and its tokens.
use neoast.Common.{
  ℕ, suc, List, [], ◌∷◌, ◌++◌, replicate, ◌==◌, Option, none, some, if◌then◌else◌, Outcome, done,
  ◌>>=◌, assert, deref,
}
use neoast.Codegen.{Name, KeyVal}
use neoast.Codegen.Lines.{InputFile}
use neoast.Codegen.Classes.{
  eqb_name, no_position, Code, CgToken, action, codes, CodegenOptions, default_options,
}

-- `CodeGenImpl`, as far as the header fills it.
pub record CodeGenImpl : Type 0 where
  pub input : InputFile
  pub macros : List (Name × Name)
  pub top_code : Option Code
  pub bottom_code : Option Code
  pub union_code : Option Code
  pub include_code : Option Code
  pub start_type : Name
  pub start_token : Name
  pub action_tokens : List CgToken
  pub grammar_tokens : List CgToken
  pub tokens : List Name
  pub tokens_names : List Name
  pub destructors : List (Name × Code)
  pub options : CodegenOptions
  pub ascii_mappings : List ℕ
  pub precedence_mapping : List (ℕ × ℕ)

-- The constructor.
abbrev pub code_gen : InputFile → CodeGenImpl
code_gen f = record {
  input = f;
  macros = [];
  top_code = none;
  bottom_code = none;
  union_code = none;
  include_code = none;
  start_type = [];
  start_token = [];
  action_tokens = [];
  grammar_tokens = [];
  tokens = [];
  tokens_names = [];
  destructors = [];
  options = default_options;
  ascii_mappings = replicate 256 0;
  precedence_mapping = [];
}

abbrev pub find_token : Name → List CgToken → Option CgToken
find_token name [] = none
find_token name (t ∷ ts) = if eqb_name t.name name then some t else find_token name ts

abbrev pub names_of : List CgToken → List Name
names_of [] = []
names_of (t ∷ ts) = t.name ∷ names_of ts

-- `get_token`: the action tokens first.
unfoldable pub get_token : CodeGenImpl → Name → Option CgToken
get_token g name = find_token name (g.action_tokens ++ g.grammar_tokens)

-- Maps from strings.
abbrev pub lookup_name : {A : Type 0} → Name → List (Name × A) → Option A
lookup_name k [] = none
lookup_name k (p ∷ ps) = if eqb_name (p.0) k then some (p.1) else lookup_name k ps

abbrev pub put_name : {A : Type 0} → Name → A → List (Name × A) → List (Name × A)
put_name k a [] = (k, a) ∷ []
put_name k a (p ∷ ps) = if eqb_name (p.0) k then (k, a) ∷ ps else p ∷ put_name k a ps

-- "TOK_AUGMENT".
abbrev pub augment_name : Name
augment_name = codes "TOK_AUGMENT"

-- `Code(iter)`.
abbrev pub code_of : KeyVal → Outcome Code
code_of iter = deref iter.value >>= λ v. done (record { code = v; position = iter.position })

-- A token of an entry.
abbrev pub token_of : KeyVal → ℕ → CgToken → Outcome CgToken
token_of iter id t =
    deref iter.value >>= λ name. done (record t { position = iter.position; name = name; id = id })

abbrev pub blank : CgToken
blank = record { position = no_position; name = []; id = 0; class = action }

-- `grammar_tok->id = action_id + grammar_i++`, with the assertion.
unfoldable pub number_from : ℕ → List CgToken → Outcome (List CgToken)
number_from k [] = done []
number_from k (t ∷ ts) = do
  _ ← assert (t.id == 0)
  rest ← number_from (suc k) ts
  done (record t { id = k } ∷ rest)
