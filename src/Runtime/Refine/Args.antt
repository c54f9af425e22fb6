-- ===== src/Runtime/Refine/Args.antt =====
-- The argument loop of `g_lr_reduce` takes the values of the top frames, and stops at the index of
-- the lowest of them.
use neoast.Common.{ℕ, zero, suc, ◌+◌, ◌≤◌, ◌≡◌, refl, List, [], ◌∷◌, length, drop, ℤ, arith}
use neoast.Common.{done, ◌∙◌}
use neoast.Runtime.Types.{Value, ParsingStack}
use neoast.Runtime.Stack.{IsStack, pop_lem}
use neoast.Runtime.Reduce.{pop_args}
use neoast.Runtime.Automaton.{Frame, args}
use neoast.Runtime.Refine.Rel.{flat, Tables}

module _ {U : Type 0} where
  abbrev pub last_index : ℕ → ℕ → List (Frame U) → ℕ
  last_index zero idx fs = idx
  last_index (suc n) idx [] = idx
  last_index (suc n) idx (f ∷ fs) = last_index n (length fs) fs

  pub length-drop :
      (n : ℕ) (fs : List (Frame U)) → n ≤ length fs → length (drop n fs) + n ≡ length fs
  length-drop zero fs h = omega arith
  length-drop (suc n) [] h = absurd (omega arith)
  length-drop (suc n) (f ∷ fs) h = omega (arith, length-drop n fs (omega arith))

  last_index-length :
      (n : ℕ) (fs : List (Frame U))
      → n ≤ length fs
      → last_index n (length fs) fs ≡ length (drop n fs)
  last_index-length zero fs h = refl
  last_index-length (suc n) [] h = absurd (omega arith)
  last_index-length (suc n) (f ∷ fs) h = last_index-length n fs (omega arith)

  -- A rule with a right-hand side puts its result where its first argument was.
  pub last_index-drop :
      (n idx : ℕ) (fs : List (Frame U))
      → 1 ≤ n
      → n ≤ length fs
      → last_index n idx fs ≡ length (drop n fs)
  last_index-drop zero idx fs p h = absurd (omega arith)
  last_index-drop (suc n) idx [] p h = absurd (omega arith)
  last_index-drop (suc n) idx (f ∷ fs) p h = last_index-length n fs (omega arith)

  pub pop_args_lem :
      (values : List (Value U)) (tokens : List ℤ) (n : ℕ) (fs : List (Frame U)) (s : ParsingStack)
      (idx : ℕ) (acc : List (Value U))
      → n ≤ length fs
      → IsStack s (flat fs)
      → Tables values tokens fs
      → (t : ParsingStack) × (pop_args values n s idx acc
          ≡ done (last_index n idx fs, args n fs acc, t))
        × IsStack t (flat (drop n fs))
        × (t.slots ≡ s.slots)
  unfolding pop_args
  pop_args_lem values tokens zero fs s idx acc le h tb = (s, refl, h, refl)
  pop_args_lem values tokens (suc n) [] s idx acc le h tb = absurd (omega arith)
  pop_args_lem values tokens (suc n) (f ∷ fs) s idx acc le h tb =
      let (s₁, e₁, h₁, k₁) = pop_lem s f.state (length fs ∷ flat fs) h in
      let (s₂, e₂, h₂, k₂) = pop_lem s₁ (length fs) (flat fs) h₁ in
      let (t, e, h', k) =
        pop_args_lem values tokens n fs s₂ (length fs) (f.value ∷ acc) (omega arith) h₂ tb.2 in
      (t, rw (e₁, e₂, tb.0) e, h', k ∙ k₂ ∙ k₁)
