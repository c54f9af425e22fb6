-- ===== src/Codegen/Chains.antt =====
-- The list of pairs that `tokens_to_kv` builds, from the node that it returns.
use neoast.Common.{suc, zero, ◌<◌, arith}
use neoast.Common.{ℕ, ◌≡◌, refl, List, [], ◌∷◌, ◌++◌, length, set, get_elem?, true, false}
use neoast.Common.{Option, none, some, ap, sym, ◌∙◌, Bool-cases, inl, inr, subst, ◌==◌, ==_iff}
use neoast.Common.{get_elem?-lt, get_elem?-append_lt, get_elem?-set_self, get_elem?-set_ne}
use neoast.Codegen.{KeyVal}
use neoast.Codegen.Pairs.{Store}

-- `xs` backwards, before `ys`.
abbrev pub backwards {ℓ} : {A : Type ℓ} → List A → List A → List A
backwards [] ys = ys
backwards (x ∷ xs) ys = backwards xs (x ∷ ys)

-- A node without its links.
abbrev pub bare : KeyVal → KeyVal
bare n = record n { back = none; next = none }

-- From `p` on, `next` links nodes that hold `xs`, and ends behind the last. Each node is below `b` and
-- those before it, so none comes twice.
abbrev pub IsChain : List (Option KeyVal) → ℕ → Option ℕ → List KeyVal → Type 0
IsChain nodes b p [] = p ≡ none
IsChain nodes b p (x ∷ xs) =
    (i : ℕ) × (n : KeyVal) × (i < b)
    × (p ≡ some i)
    × (get_elem? nodes i ≡ some (some n))
    × (bare n ≡ x)
    × IsChain nodes i n.next xs

-- The nodes that are there stay, with what they hold and their `next`.
abbrev pub Keeps : List (Option KeyVal) → List (Option KeyVal) → Type 0
Keeps nodes nodes' =
    (i : ℕ) (n : KeyVal)
    → get_elem? nodes i ≡ some (some n)
    → (n' : KeyVal) × (get_elem? nodes' i ≡ some (some n'))
      × (n'.next ≡ n.next)
      × (bare n' ≡ bare n)

pub IsChain-Keeps :
    (nodes nodes' : List (Option KeyVal)) (b : ℕ) (p : Option ℕ) (xs : List KeyVal)
    → Keeps nodes nodes'
    → IsChain nodes b p xs
    → IsChain nodes' b p xs
IsChain-Keeps nodes nodes' b p [] kept chain = chain
IsChain-Keeps nodes nodes' b p (x ∷ xs) kept (i, n, below, at, got, holds, rest) =
    let (n', got', same_next, same) = kept i n got in
    (
      i,
      n',
      below,
      at,
      got',
      same ∙ holds,
      subst (λ q. IsChain nodes' i q xs) (sym same_next)
          (IsChain-Keeps nodes nodes' i n.next xs kept rest),
    )

pub append-Keeps :
    (nodes : List (Option KeyVal)) (m : Option KeyVal) → Keeps nodes (nodes ++ m ∷ [])
append-Keeps nodes m i n got =
    (n, get_elem?-append_lt nodes (m ∷ []) i (get_elem?-lt nodes i got) ∙ got, refl, refl)

pub set_back-Keeps :
    (nodes : List (Option KeyVal)) (base : ℕ) (n : KeyVal) (p : Option ℕ)
    → get_elem? nodes base ≡ some (some n)
    → Keeps nodes (set nodes base (some (record n { back = p })))
set_back-Keeps nodes base n p at i m got = elim (Bool-cases (i == base)) [
  | inl same ↦
      let e : i ≡ base = (==_iff i base).0 same in
      let same_node : n ≡ m = inner (sym at ∙ ap (get_elem? nodes) (sym e) ∙ got) in
      (
        record n { back = p },
        ap (get_elem? (set nodes base (some (record n { back = p })))) e
            ∙ get_elem?-set_self nodes base (some (record n { back = p }))
                (get_elem?-lt nodes base at),
        ap (λ k. k.next) same_node,
        ap bare same_node,
      )
  | inr other ↦ (
    m,
    get_elem?-set_ne nodes base i (some (record n { back = p }))
          (λ e. differ (sym other ∙ (==_iff i base).1 (sym e)))
        ∙ got,
    refl,
    refl,
  )
]
  where
    inner : {a b : KeyVal} → some (some a) ≡ some (some b) → a ≡ b
    inner e = cc

    differ : false ≡ true → ⊥
    differ e = cc

-- The list of pairs that a pointer stands for is the one from the node's `back` on.
abbrev pub IsPairs : Store → ℕ → List KeyVal → Type 0
IsPairs s i xs =
    (n : KeyVal) × (get_elem? s.nodes i ≡ some (some n))
    × IsChain s.nodes (length s.nodes) n.back xs

-- The nodes that are not freed.
abbrev pub live : List (Option KeyVal) → ℕ
live [] = 0
live (none ∷ nodes) = live nodes
live (some n ∷ nodes) = suc (live nodes)

pub live-append :
    (nodes : List (Option KeyVal)) (n : KeyVal) → live (nodes ++ some n ∷ []) ≡ suc (live nodes)
live-append [] n = refl
live-append (none ∷ nodes) n = live-append nodes n
live-append (some m ∷ nodes) n = ap suc (live-append nodes n)

pub live-set :
    (nodes : List (Option KeyVal)) (i : ℕ) (n m : KeyVal)
    → get_elem? nodes i ≡ some (some n)
    → live (set nodes i (some m)) ≡ live nodes
live-set [] i n m got = absurd (ground (arith, got))
live-set (none ∷ nodes) zero n m got = absurd (ground (arith, got))
live-set (some k ∷ nodes) zero n m got = refl
live-set (none ∷ nodes) (suc i) n m got = live-set nodes i n m got
live-set (some k ∷ nodes) (suc i) n m got = ap suc (live-set nodes i n m got)

pub live-freed :
    (nodes : List (Option KeyVal)) (i : ℕ) (n : KeyVal)
    → get_elem? nodes i ≡ some (some n)
    → suc (live (set nodes i none)) ≡ live nodes
live-freed [] i n got = absurd (ground (arith, got))
live-freed (none ∷ nodes) zero n got = absurd (ground (arith, got))
live-freed (some k ∷ nodes) zero n got = refl
live-freed (none ∷ nodes) (suc i) n got = live-freed nodes i n got
live-freed (some k ∷ nodes) (suc i) n got = ap suc (live-freed nodes i n got)

pub get_elem?-append_length :
    {A : Type 0} (xs : List A) (a : A) → get_elem? (xs ++ a ∷ []) (length xs) ≡ some a
get_elem?-append_length [] a = refl
get_elem?-append_length (x ∷ xs) a = get_elem?-append_length xs a

pub set-append_length :
    {A : Type 0} (xs : List A) (a b : A) → set (xs ++ a ∷ []) (length xs) b ≡ xs ++ b ∷ []
set-append_length [] a b = refl
set-append_length (x ∷ xs) a b = ap (λ ys. x ∷ ys) (set-append_length xs a b)
