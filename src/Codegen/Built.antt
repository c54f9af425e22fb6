-- ===== src/Codegen/Built.antt =====
-- `tokens_to_kv` of src/codegen/compiler.c: what its rounds build, and where it faults.
use neoast.Common.{subst, sym, length-append, length-set, ◌+◌}
use neoast.Common.{
  ℕ, ◌≡◌, refl, List, [], ◌∷◌, ◌++◌, length, set, get_elem?, Bool, true, false, not, ◌&&◌,
}
use neoast.Common.{Option, none, some, pos, eqb_ℤ, if◌then◌else◌, all, &&-elim, ap, ◌∙◌, arith}
use neoast.Common.{done, fault, bounds, ◌>>=◌, get_elem?-lt, get_elem?-set_self}
use neoast.Codegen.{Name, Token, KeyVal, KeyValKind, ascii_not_allowed}
use neoast.Codegen.Pairs.{
  Store, Building, build_pair, build_pairs, close_pairs, tokens_to_kv, is_some, key_val_build,
}
use neoast.Codegen.Chains.{
  live, live-append, live-set, backwards, IsChain, IsPairs, IsChain-Keeps, append-Keeps,
  set_back-Keeps, get_elem?-append_length, set-append_length,
}

module _ (key : Option Name) (kind ascii_kind : KeyValKind) (allow_ascii : Bool) where
  abbrev pub is_refused : Token → Bool
  is_refused t = not (eqb_ℤ t.ascii (pos 0)) && not allow_ascii

  -- What `tokens_to_kv` makes of a token.
  abbrev pub entry : Token → KeyVal
  entry t = record {
    position = t.position;
    kind = if not (eqb_ℤ t.ascii (pos 0)) then ascii_kind else kind;
    key = key;
    value = t.name;
    back = none;
    next = none;
  }

  abbrev pub entries : List Token → List KeyVal
  entries [] = []
  entries (t ∷ ts) = entry t ∷ entries ts

  abbrev after : Token → Building → Building
  after t b = record {
    first = if is_some b.first then b.first else some (length b.store.nodes);
    next = some (length b.store.nodes);
    store = record (b.store) {
      nodes = b.store.nodes ++ some (record (entry t) { next = b.next }) ∷ [];
    };
  }

  build_pair_computes :
      (t : Token) (b : Building)
      → is_refused t ≡ false
      → build_pair key kind ascii_kind allow_ascii t b ≡ done (true, after t b)
  unfolding build_pair key_val_build
  build_pair_computes t b allowed =
      rw
        (
          allowed,
          get_elem?-append_length b.store.nodes (some (entry t)),
          set-append_length b.store.nodes (some (entry t))
              (some (record (entry t) { next = b.next })),
        )
        refl

  -- After some rounds: what `first` points to, which is the end of the list, and the list so far.
  record IsBuilt (held base : ℕ) (xs : List KeyVal) (b : Building) : Type 0 where
    from_base : b.first ≡ some base
    last_node : (n : KeyVal) × (get_elem? b.store.nodes base ≡ some (some n)) × (n.next ≡ none)
    linked : IsChain b.store.nodes (length b.store.nodes) b.next xs
    alive : live b.store.nodes ≡ held + length xs

  first-IsBuilt :
      (t : Token) (s : Store)
      → IsBuilt
          (live s.nodes)
          (length s.nodes)
          (entry t ∷ [])
          (after t (record { first = none; next = none; store = s }))
  first-IsBuilt t s =
      let got = get_elem?-append_length s.nodes (some (entry t)) in
      record {
        from_base = refl;
        last_node = (entry t, got, refl);
        linked = (
          length s.nodes,
          entry t,
          omega (arith, length-append s.nodes (some (entry t) ∷ [])),
          refl,
          got,
          refl,
          refl,
        );
        alive = omega (arith, live-append s.nodes (entry t));
      }

  after-IsBuilt :
      (held base : ℕ) (xs : List KeyVal) (t : Token) (b : Building)
      → IsBuilt held base xs b
      → IsBuilt held base (entry t ∷ xs) (after t b)
  after-IsBuilt held base xs t b built =
      let new = record (entry t) { next = b.next } in
      let kept = append-Keeps b.store.nodes (some new) in
      let (n, got, ends) = built.last_node in
      let (n', got', same, _) = kept base n got in
      record {
        from_base = ap (λ p. if is_some p then p else some (length b.store.nodes)) built.from_base;
        last_node = (n', got', same ∙ ends);
        linked = (
          length b.store.nodes,
          new,
          omega (arith, length-append b.store.nodes (some new ∷ [])),
          refl,
          get_elem?-append_length b.store.nodes (some new),
          refl,
          IsChain-Keeps b.store.nodes (b.store.nodes ++ some new ∷ []) (length b.store.nodes) b.next
              xs kept built.linked,
        );
        alive = omega (arith, live-append b.store.nodes new, built.alive);
      }

  abbrev pub AllAllowed : List Token → Type 0
  AllAllowed ts = all (λ t. not (is_refused t)) ts ≡ true

  build_pairs_step :
      (t : Token) (ts : List Token) (b : Building)
      → is_refused t ≡ false
      → build_pairs key kind ascii_kind allow_ascii (t ∷ ts) b
        ≡ build_pairs key kind ascii_kind allow_ascii ts (after t b)
  unfolding build_pairs
  build_pairs_step t ts b allowed = rw (build_pair_computes t b allowed) refl

  build_pairs-IsBuilt :
      (ts : List Token) (held base : ℕ) (xs : List KeyVal) (b : Building)
      → AllAllowed ts
      → IsBuilt held base xs b
      → (b' : Building) × (build_pairs key kind ascii_kind allow_ascii ts b ≡ done b')
        × IsBuilt held base (backwards (entries ts) xs) b'
        × (b'.store.reports ≡ b.store.reports)
  unfolding build_pairs
  build_pairs-IsBuilt [] held base xs b allowed built = (b, refl, built, refl)
  build_pairs-IsBuilt (t ∷ ts) held base xs b allowed built =
      let (this, others) =
        &&-elim (not (is_refused t)) (all (λ t. not (is_refused t)) ts) allowed in
      let (b', e, built', silent) =
        build_pairs-IsBuilt ts held base (entry t ∷ xs) (after t b) others
          (after-IsBuilt held base xs t b built) in
      (b', build_pairs_step t ts b (ground (arith, this)) ∙ e, built', silent)

  close_pairs-IsPairs :
      (held base : ℕ) (xs : List KeyVal) (b : Building)
      → IsBuilt held base xs b
      → (s' : Store) × (close_pairs b ≡ done (base, s'))
        × IsPairs s' base xs
        × (live s'.nodes ≡ held + length xs)
        × (s'.reports ≡ b.store.reports)
  unfolding close_pairs
  close_pairs-IsPairs held base xs b built =
      let (n, got, ends) = built.last_node in
      let closed = record n { back = b.next } in
      (
        record (b.store) { nodes = set b.store.nodes base (some closed) },
        rw (built.from_base, got, ends) refl,
        (
          closed,
          get_elem?-set_self b.store.nodes base (some closed) (get_elem?-lt b.store.nodes base got),
          subst (λ k. IsChain (set b.store.nodes base (some closed)) k b.next xs)
              (sym (length-set b.store.nodes base (some closed)))
              (IsChain-Keeps b.store.nodes (set b.store.nodes base (some closed))
                (length b.store.nodes) b.next xs (set_back-Keeps b.store.nodes base n b.next got)
                built.linked),
        ),
        live-set b.store.nodes base n closed got ∙ built.alive,
        refl,
      )

  tokens_to_kv_computes :
      (t : Token) (ts : List Token) (s : Store) (b : Building)
      → is_refused t ≡ false
      → build_pairs key kind ascii_kind allow_ascii ts
          (after t (record { first = none; next = none; store = s }))
        ≡ done b
      → tokens_to_kv (t ∷ ts) key kind ascii_kind allow_ascii s ≡ close_pairs b
  unfolding tokens_to_kv
  tokens_to_kv_computes t ts s b allowed e =
      ap (λ o. o >>= close_pairs)
        (build_pairs_step t ts (record { first = none; next = none; store = s }) allowed ∙ e)

  pub tokens_to_kv_builds :
      (t : Token) (ts : List Token) (s : Store)
      → AllAllowed (t ∷ ts)
      → (s' : Store) × (tokens_to_kv (t ∷ ts) key kind ascii_kind allow_ascii s
          ≡ done (length s.nodes, s'))
        × IsPairs s' (length s.nodes) (backwards (entries (t ∷ ts)) [])
        × (live s'.nodes ≡ live s.nodes + length (backwards (entries (t ∷ ts)) []))
        × (s'.reports ≡ s.reports)
  tokens_to_kv_builds t ts s allowed =
      let (this, others) =
        &&-elim (not (is_refused t)) (all (λ t. not (is_refused t)) ts) allowed in
      let (b, e, built, silent) =
        build_pairs-IsBuilt ts (live s.nodes) (length s.nodes) (entry t ∷ [])
          (after t (record { first = none; next = none; store = s })) others (first-IsBuilt t s) in
      let (s', e', pairs, alive, silent') =
        close_pairs-IsPairs (live s.nodes) (length s.nodes) (backwards (entries ts) (entry t ∷ []))
          b built in
      (
        s',
        tokens_to_kv_computes t ts s b (ground (arith, this)) e ∙ e',
        pairs,
        alive,
        silent' ∙ silent,
      )

  -- Tokens of which none is refused become pairs, and nothing is reported: the result points to the
  -- node of the first, whose `back` starts a list of all of them, the last one first.
  pub tokens_to_kv-IsPairs :
      (t : Token) (ts : List Token) (s : Store)
      → AllAllowed (t ∷ ts)
      → (s' : Store) × (tokens_to_kv (t ∷ ts) key kind ascii_kind allow_ascii s
          ≡ done (length s.nodes, s'))
        × IsPairs s' (length s.nodes) (backwards (entries (t ∷ ts)) [])
        × (s'.reports ≡ s.reports)
  tokens_to_kv-IsPairs t ts s allowed =
      let (s', e, pairs, alive, silent) = tokens_to_kv_builds t ts s allowed in
      (s', e, pairs, silent)

  refused_pairs :
      (t : Token) (ts : List Token) (b : Building)
      → is_refused t ≡ true
      → (b' : Building) × (build_pairs key kind ascii_kind allow_ascii (t ∷ ts) b ≡ done b')
        × (b'.first ≡ b.first)
  unfolding build_pairs build_pair
  refused_pairs t ts b refused = (
    record b {
      store = record (b.store) {
        reports = b.store.reports ++ (some t.position, ascii_not_allowed) ∷ [];
      };
    },
    rw refused refl,
    refl,
  )

  null_first : (b : Building) → b.first ≡ none → close_pairs b ≡ fault bounds
  unfolding close_pairs
  null_first b e = rw e refl

  -- If already the first token is refused, because it is a character and these are not allowed, the
  -- null pointer `first` is read.
  pub tokens_to_kv-refused :
      (t : Token) (ts : List Token) (s : Store)
      → is_refused t ≡ true
      → tokens_to_kv (t ∷ ts) key kind ascii_kind allow_ascii s ≡ fault bounds
  unfolding tokens_to_kv
  tokens_to_kv-refused t ts s refused =
      let (b, e, none_yet) =
        refused_pairs t ts (record { first = none; next = none; store = s }) refused in
      ap (λ o. o >>= close_pairs) e ∙ null_first b none_yet
