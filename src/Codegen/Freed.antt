-- ===== src/Codegen/Freed.antt =====
-- `key_val_free` of src/codegen/common.c, on the pairs that `tokens_to_kv` builds.
use neoast.Common.{
  ℕ, zero, suc, ◌+◌, ◌≤◌, ◌<◌, ◌≡◌, refl, List, [], ◌∷◌, length, set, get_elem?, Bool, true, Option,
  none, some,
}
use neoast.Common.{if◌then◌else◌, all, &&-elim, ap, sym, ◌∙◌, arith, done, ◌>>=◌, get_elem?-set_ne}
use neoast.Codegen.{Name, Token, KeyVal, KeyValKind}
use neoast.Codegen.Pairs.{Store, tokens_to_kv, free_chain, key_val_free, is_some}
use neoast.Codegen.Chains.{backwards, IsChain, IsPairs, live, live-freed}
use neoast.Codegen.Built.{entries, AllAllowed, tokens_to_kv_builds}

IsChain-below :
    (nodes nodes' : List (Option KeyVal)) (b : ℕ) (p : Option ℕ) (xs : List KeyVal)
    → ((i : ℕ) → i < b → get_elem? nodes' i ≡ get_elem? nodes i)
    → IsChain nodes b p xs
    → IsChain nodes' b p xs
IsChain-below nodes nodes' b p [] same chain = chain
IsChain-below nodes nodes' b p (x ∷ xs) same (i, n, below, at, got, holds, rest) = (
  i,
  n,
  below,
  at,
  same i below ∙ got,
  holds,
  IsChain-below nodes nodes' i n.next xs (λ j lt. same j (omega (arith, lt, below))) rest,
)

free_none : (fuel : ℕ) (s : Store) → free_chain fuel none s ≡ done (some s)
unfolding free_chain
free_none fuel s = refl

free_one :
    (fuel i : ℕ) (n : KeyVal) (s : Store)
    → get_elem? s.nodes i ≡ some (some n)
    → is_some n.value ≡ true
    → free_chain (suc fuel) (some i) s
      ≡ free_chain fuel n.next (record s { nodes = set s.nodes i none })
unfolding free_chain
free_one fuel i n s got named = rw (got, named) refl

abbrev pub AllNamed : List KeyVal → Type 0
AllNamed xs = all (λ x. is_some x.value) xs ≡ true

free_chain-IsChain :
    (fuel b : ℕ) (p : Option ℕ) (xs : List KeyVal) (s : Store)
    → IsChain s.nodes b p xs
    → AllNamed xs
    → length xs ≤ fuel
    → (s' : Store) × (free_chain fuel p s ≡ done (some s'))
      × (live s'.nodes + length xs ≡ live s.nodes)
free_chain-IsChain fuel b p [] s chain named enough =
    (s, ap (λ q. free_chain fuel q s) chain ∙ free_none fuel s, omega arith)
free_chain-IsChain zero b p (x ∷ xs) s chain named enough = absurd (omega (arith, enough))
free_chain-IsChain (suc fuel) b p (x ∷ xs) s (i, n, below, at, got, holds, rest) named enough =
    let (this, others) = &&-elim (is_some x.value) (all (λ x. is_some x.value) xs) named in
    let left_over =
      IsChain-below s.nodes (set s.nodes i none) i n.next xs
        (λ j lt. get_elem?-set_ne s.nodes i j none (omega (arith, lt))) rest in
    let (s', e, counts) =
      free_chain-IsChain fuel i n.next xs (record s { nodes = set s.nodes i none }) left_over others
        (omega (arith, enough)) in
    (
      s',
      ap (λ q. free_chain (suc fuel) q s) at
          ∙ free_one fuel i n s got (ap (λ k. is_some k.value) holds ∙ this)
          ∙ e,
      omega (arith, counts, live-freed s.nodes i n got),
    )

length-backwards : {A : Type 0} (xs ys : List A) → length (backwards xs ys) ≡ length xs + length ys
length-backwards [] ys = omega arith
length-backwards (x ∷ xs) ys = omega (arith, length-backwards xs (x ∷ ys))

all-backwards :
    {A : Type 0} (test : A → Bool) (xs ys : List A)
    → all test xs ≡ true
    → all test ys ≡ true
    → all test (backwards xs ys) ≡ true
all-backwards test [] ys h h' = h'
all-backwards test (x ∷ xs) ys h h' =
    let (this, others) = &&-elim (test x) (all test xs) h in
    all-backwards test xs (x ∷ ys) others (ground (arith, this, h'))

key_val_free-IsPairs :
    (i : ℕ) (x : KeyVal) (xs : List KeyVal) (s : Store)
    → IsPairs s i (x ∷ xs)
    → AllNamed (x ∷ xs)
    → (s' : Store) × (key_val_free (length (x ∷ xs)) i s ≡ done (some s'))
      × (live s'.nodes + length (x ∷ xs) ≡ live s.nodes)
unfolding key_val_free
key_val_free-IsPairs i x xs s (n, got, chain) named =
    let (j, m, below, at, at_node, holds, rest) = chain in
    let (s', e, counts) =
      free_chain-IsChain (length (x ∷ xs)) (length s.nodes) n.back (x ∷ xs) s chain named
        (omega arith) in
    (
      s',
      rw got (
          ap (λ q. free_chain (length (x ∷ xs)) (if is_some q then q else some i) s) at
          ∙ ap (λ q. free_chain (length (x ∷ xs)) q s) (sym at)
          ∙ e),
      counts,
    )

key_val_free-list :
    (i : ℕ) (xs : List KeyVal) (s : Store)
    → 0 < length xs
    → IsPairs s i xs
    → AllNamed xs
    → (s' : Store) × (key_val_free (length xs) i s ≡ done (some s'))
      × (live s'.nodes + length xs ≡ live s.nodes)
key_val_free-list i [] s some_pair pairs named = absurd (omega (arith, some_pair))
key_val_free-list i (x ∷ xs) s some_pair pairs named = key_val_free-IsPairs i x xs s pairs named

module _ (key : Option Name) (kind ascii_kind : KeyValKind) (allow_ascii : Bool) where
  -- The pairs of the tokens.
  abbrev pairs_of : List Token → List KeyVal
  pairs_of ts = backwards (entries key kind ascii_kind allow_ascii ts) []

  entries-named :
      (ts : List Token)
      → all (λ t. is_some t.name) ts ≡ true
      → AllNamed (entries key kind ascii_kind allow_ascii ts)
  entries-named [] named = refl
  entries-named (t ∷ ts) named =
      let (this, others) = &&-elim (is_some t.name) (all (λ t. is_some t.name) ts) named in
      ground (arith, this, entries-named ts others)

  length-entries :
      (ts : List Token) → length (entries key kind ascii_kind allow_ascii ts) ≡ length ts
  length-entries [] = refl
  length-entries (t ∷ ts) = ap suc (length-entries ts)

  length-pairs_of : (ts : List Token) → length (pairs_of ts) ≡ length ts
  length-pairs_of ts =
      omega
        (arith, length-backwards (entries key kind ascii_kind allow_ascii ts) [], length-entries ts)

  -- What `tokens_to_kv` makes of tokens with names, of which none is refused, `key_val_free` frees
  -- within as many rounds as there are tokens: no node is read or freed twice, no assertion fails, and
  -- as many nodes are left as before.
  pub key_val_free-tokens_to_kv :
      (t : Token) (ts : List Token) (s : Store)
      → AllAllowed key kind ascii_kind allow_ascii (t ∷ ts)
      → all (λ t. is_some t.name) (t ∷ ts) ≡ true
      → (s' : Store) × ((tokens_to_kv (t ∷ ts) key kind ascii_kind allow_ascii s >>= λ r.
            key_val_free (length (t ∷ ts)) (r.0) (r.1))
          ≡ done (some s'))
        × (live s'.nodes ≡ live s.nodes)
  key_val_free-tokens_to_kv t ts s allowed named =
      let (s₁, e, pairs, alive, silent) =
        tokens_to_kv_builds key kind ascii_kind allow_ascii t ts s allowed in
      let count = length-pairs_of (t ∷ ts) in
      let (s', e', counts) =
        key_val_free-list (length s.nodes) (pairs_of (t ∷ ts)) s₁ (omega (arith, count)) pairs (
          all-backwards (λ x. is_some x.value) (entries key kind ascii_kind allow_ascii (t ∷ ts)) []
            (entries-named (t ∷ ts) named) refl) in
      (
        s',
        ap (λ o. o >>= λ r. key_val_free (length (t ∷ ts)) (r.0) (r.1)) e
            ∙ ap (λ k. key_val_free k (length s.nodes) s₁) (sym count)
            ∙ e',
        omega (arith, counts, alive),
      )
