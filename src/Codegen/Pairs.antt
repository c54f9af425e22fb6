-- ===== src/Codegen/Pairs.antt =====
-- The key-value pairs of src/codegen/compiler.c and common.c. A store holds the nodes that `malloc`
-- returned, `none` where one was freed.
use neoast.Common.{
  ℕ, zero, suc, List, [], ◌∷◌, ◌++◌, length, Bool, true, false, not, ◌&&◌, Option, none, some, pos,
  eqb_ℤ,
}
use neoast.Common.{if◌then◌else◌, Outcome, done, ◌>>=◌, ◌>>◌, assert, read, write, deref}
use neoast.Runtime.Types.{TokenPosition}
use neoast.Codegen.{
  Name, Token, KeyVal, Report, KeyValKind, ascii_not_allowed, top, bottom, option, token,
  token_ascii, token_type, type, left, right, start, union, destructor, include,
}
use neoast.Codegen.Tokens.{given}

pub record Store : Type 0 where
  pub nodes : List (Option KeyVal)
  pub reports : List Report

-- What a pointer to a node points to; a fault if the node was freed.
abbrev pub node_at : Store → ℕ → Outcome KeyVal
node_at s i = read s.nodes i >>= deref

abbrev pub set_node : Store → ℕ → KeyVal → Outcome Store
set_node s i n = do nodes ← write s.nodes i (some n); done (record s { nodes = nodes })

unfoldable pub key_val_build :
    Option TokenPosition → KeyValKind → Option Name → Option Name → Store → Outcome (ℕ × Store)
key_val_build position kind key value s = do
  p ← given position
  done (
    length s.nodes,
    record s {
      nodes =
          s.nodes
          ++ some (record {
            position = p;
            kind = kind;
            key = key;
            value = value;
            back = none;
            next = none;
          })
            ∷ [];
    },
  )

-- The locals of `tokens_to_kv`.
pub record Building : Type 0 where
  pub first : Option ℕ
  pub next : Option ℕ
  pub store : Store

abbrev pub is_some {ℓ} : {A : Type ℓ} → Option A → Bool
is_some none = false
is_some (some a) = true

-- One round of the loop: whether it goes on.
unfoldable pub build_pair :
    Option Name → KeyValKind → KeyValKind → Bool → Token → Building → Outcome (Bool × Building)
unfolding key_val_build
build_pair key kind ascii_kind allow_ascii t b =
    let ascii = not (eqb_ℤ t.ascii (pos 0)) in
    if ascii && not allow_ascii
    then done (
      false,
      record b {
        store = record (b.store) {
          reports = b.store.reports ++ (some t.position, ascii_not_allowed) ∷ [];
        };
      },
    )
    else (do
      (curr, s₁) ←
          key_val_build (some t.position) (if ascii then ascii_kind else kind) key t.name b.store
      n ← node_at s₁ curr
      s₂ ← set_node s₁ curr (record n { next = b.next })
      done (
        true,
        record {
          first = if is_some b.first then b.first else some curr;
          next = some curr;
          store = s₂;
        },
      ))

unfoldable pub build_pairs :
    Option Name → KeyValKind → KeyValKind → Bool → List Token → Building → Outcome Building
build_pairs key kind ascii_kind allow_ascii [] b = done b
build_pairs key kind ascii_kind allow_ascii (t ∷ ts) b =
    build_pair key kind ascii_kind allow_ascii t b >>= λ r. elim (r.0) [
      | true ↦ build_pairs key kind ascii_kind allow_ascii ts (r.1)
      | false ↦ done (r.1)
    ]

-- From the assertion on: the first node gets the last as its `back`.
unfoldable pub close_pairs : Building → Outcome (ℕ × Store)
close_pairs b = do
  i ← deref b.first
  n ← node_at b.store i
  assert (not (is_some n.next))
      >> (do s ← set_node b.store i (record n { back = b.next }); done (i, s))

-- `tokens_to_kv`; the tokens are freed, and their names are in the pairs.
unfoldable pub tokens_to_kv :
    List Token → Option Name → KeyValKind → KeyValKind → Bool → Store → Outcome (ℕ × Store)
unfolding build_pairs close_pairs
tokens_to_kv tokens key kind ascii_kind allow_ascii s = do
  b ←
      build_pairs key kind ascii_kind allow_ascii tokens
        (record { first = none; next = none; store = s })
  close_pairs b

abbrev pub declare_tokens : List Token → Store → Outcome (ℕ × Store)
declare_tokens tokens s = tokens_to_kv tokens none token token_ascii true s

abbrev pub declare_typed_tokens : Option Name → List Token → Store → Outcome (ℕ × Store)
declare_typed_tokens key tokens s = tokens_to_kv tokens key token_type token_type false s

abbrev pub declare_types : Option Name → List Token → Store → Outcome (ℕ × Store)
declare_types key tokens s = tokens_to_kv tokens key type type false s

abbrev pub declare_right : List Token → Store → Outcome (ℕ × Store)
declare_right tokens s = tokens_to_kv tokens none right right true s

abbrev pub declare_left : List Token → Store → Outcome (ℕ × Store)
declare_left tokens s = tokens_to_kv tokens none left left true s

abbrev pub declare_option :
    Option TokenPosition → Option Name → Option Name → Store → Outcome (ℕ × Store)
declare_option p name value s = key_val_build p option name value s

abbrev pub declare_start :
    Option TokenPosition → Option Name → Option Name → Store → Outcome (ℕ × Store)
declare_start p union_type rule s = key_val_build p start union_type rule s

abbrev pub declare_destructor :
    Option TokenPosition → Option Name → Option Name → Store → Outcome (ℕ × Store)
declare_destructor p key action s = key_val_build p destructor key action s

abbrev pub declare_top : Option TokenPosition → Option Name → Store → Outcome (ℕ × Store)
declare_top p action s = key_val_build p top none action s

abbrev pub declare_include : Option TokenPosition → Option Name → Store → Outcome (ℕ × Store)
declare_include p action s = key_val_build p include none action s

abbrev pub declare_bottom : Option TokenPosition → Option Name → Store → Outcome (ℕ × Store)
declare_bottom p action s = key_val_build p bottom none action s

abbrev pub declare_union : Option TokenPosition → Option Name → Store → Outcome (ℕ × Store)
declare_union p action s = key_val_build p union none action s

-- The loop of `key_val_free` on the nodes that `next` links; `none` means that the fuel ran out.
unfoldable pub free_chain : ℕ → Option ℕ → Store → Outcome (Option Store)
free_chain fuel none s = done (some s)
free_chain zero (some i) s = done none
free_chain (suc fuel) (some i) s = do
  n ← node_at s i
  assert (is_some n.value)
      >> (do nodes ← write s.nodes i none; free_chain fuel n.next (record s { nodes = nodes }))

-- `key_val_free`.
unfoldable pub key_val_free : ℕ → ℕ → Store → Outcome (Option Store)
unfolding free_chain
key_val_free fuel i s = do
  n ← node_at s i
  free_chain fuel (if is_some n.back then n.back else some i) s
