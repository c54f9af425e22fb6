-- ===== src/Codegen/Ordered.antt =====
-- Maps from strings, as lists in the order of their keys.
use neoast.Common.{
  ◌+◌, ◌≡◌, refl, List, [], ◌∷◌, ◌++◌, length, true, false, none, arith, inl, inr, Bool-cases,
  length-append,
}
use neoast.Codegen.{Name}
use neoast.Codegen.Classes.{eqb_name}
use neoast.Codegen.Impl.{lookup_name}
use neoast.Codegen.Grammars.{CgGrammar, lt_name, emplace_name, all_rules}

-- Names neither of which sorts before the other are the same.
lt_name-eqb_name : (a b : Name) → lt_name a b ≡ false → lt_name b a ≡ false → eqb_name a b ≡ true
unfolding lt_name eqb_name
lt_name-eqb_name [] [] h h' = refl
lt_name-eqb_name [] (b ∷ bs) h h' = cc
lt_name-eqb_name (a ∷ as_) [] h h' = cc
lt_name-eqb_name (a ∷ as_) (b ∷ bs) h h' = ground (arith, lt_name-eqb_name as_ bs, h, h')

module _ {A : Type 0} where
  -- The first key, if there is one, sorts after `k`.
  abbrev pub After : Name → List (Name × A) → Type 0
  After k [] = Unit
  After k (p ∷ ps) = lt_name k (p.0) ≡ true

  abbrev pub Sorted : List (Name × A) → Type 0
  Sorted [] = Unit
  Sorted (p ∷ ps) = After (p.0) ps × Sorted ps

  abbrev pub All : (A → Type 0) → List (Name × A) → Type 0
  All P [] = Unit
  All P (p ∷ ps) = P (p.1) × All P ps

  -- Where a name goes: before an entry, behind it, or nowhere.
  emplace_name-elim :
      (P : List (Name × A) → Type 0) (k : Name) (a : A) (p : Name × A) (ps : List (Name × A))
      → (lt_name k (p.0) ≡ true → P ((k, a) ∷ p ∷ ps))
      → (lt_name k (p.0) ≡ false → lt_name (p.0) k ≡ true → P (p ∷ emplace_name k a ps))
      → (lt_name k (p.0) ≡ false → lt_name (p.0) k ≡ false → P (p ∷ ps))
      → P (emplace_name k a (p ∷ ps))
  unfolding emplace_name
  emplace_name-elim P k a p ps before behind same = elim (Bool-cases (lt_name k (p.0))) [
    | inl less ↦ rw less (before less)
    | inr not_less ↦ elim (Bool-cases (lt_name (p.0) k)) [
      | inl errors_stay ↦ rw (not_less, errors_stay) (behind not_less errors_stay)
      | inr not_more ↦ rw (not_less, not_more) (same not_less not_more)
    ]
  ]

  After-emplace_name :
      (j k : Name) (a : A) (ps : List (Name × A))
      → lt_name j k ≡ true
      → After j ps
      → After j (emplace_name k a ps)
  unfolding emplace_name
  After-emplace_name j k a [] new after = new
  After-emplace_name j k a (p ∷ ps) new after =
      emplace_name-elim (After j) k a p ps (λ _. new) (λ _ _. after) (λ _ _. after)

  pub Sorted-emplace_name :
      (k : Name) (a : A) (ps : List (Name × A)) → Sorted ps → Sorted (emplace_name k a ps)
  unfolding emplace_name
  Sorted-emplace_name k a [] sorted = (tt, tt)
  Sorted-emplace_name k a (p ∷ ps) (after, sorted) =
      emplace_name-elim Sorted k a p ps (λ less. (less, (after, sorted)))
        (λ _ errors_stay.
          (After-emplace_name (p.0) k a ps errors_stay after, Sorted-emplace_name k a ps sorted))
        (λ _ _. (after, sorted))

  pub All-emplace_name :
      (P : A → Type 0) (k : Name) (a : A) (ps : List (Name × A))
      → P a
      → All P ps
      → All P (emplace_name k a ps)
  unfolding emplace_name
  All-emplace_name P k a [] here all = (here, tt)
  All-emplace_name P k a (p ∷ ps) here (first, others) =
      emplace_name-elim (All P) k a p ps (λ _. (here, (first, others)))
        (λ _ _. (first, All-emplace_name P k a ps here others)) (λ _ _. (first, others))

  pub All-map :
      (P Q : A → Type 0) → ((a : A) → P a → Q a) → (ps : List (Name × A)) → All P ps → All Q ps
  All-map P Q f [] all = tt
  All-map P Q f (p ∷ ps) (first, others) = (f (p.1) first, All-map P Q f ps others)

  -- A first key that does not sort after `k` stays the first.
  pub emplace_name-first :
      (k : Name) (a : A) (p : Name × A) (ps : List (Name × A))
      → lt_name k (p.0) ≡ false
      → (qs : List (Name × A)) × (emplace_name k a (p ∷ ps) ≡ p ∷ qs)
  emplace_name-first k a p ps not_less =
      emplace_name-elim (λ rs. (qs : List (Name × A)) × (rs ≡ p ∷ qs)) k a p ps
        (λ less. absurd (ground (arith, less, not_less))) (λ _ _. (emplace_name k a ps, refl))
        (λ _ _. (ps, refl))

-- A new name adds its rules.
pub length-all_rules :
    (k : Name) (rules : List CgGrammar) (ps : List (Name × List CgGrammar))
    → lookup_name k ps ≡ none
    → length (all_rules (emplace_name k rules ps)) ≡ length rules + length (all_rules ps)
unfolding emplace_name
length-all_rules k rules [] new = length-append rules []
length-all_rules k rules (p ∷ ps) new =
    emplace_name-elim (λ qs. length (all_rules qs) ≡ length rules + length (all_rules (p ∷ ps))) k
      rules p ps (λ _. length-append rules (p.1 ++ all_rules ps))
      (λ _ _. omega (
        arith,
        length-append (p.1) (all_rules (emplace_name k rules ps)),
        length-append (p.1) (all_rules ps),
        length-all_rules k rules ps (other new),
      ))
      (λ not_less not_more. absurd (known (lt_name-eqb_name (p.0) k not_more not_less)))
  where
    other : lookup_name k (p ∷ ps) ≡ none → lookup_name k ps ≡ none
    other h = ground (arith, h)

    known : eqb_name (p.0) k ≡ true → ⊥
    known e = ground (arith, e, new)
