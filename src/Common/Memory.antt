-- ===== src/Common/Memory.antt =====
-- An array whose first cells hold a stack: the lowest cell holds the bottom.
use Prim.Native.Nat.{ℕ, ◌≤◌, ◌<◌}
use mathlib.Core.Path.{◌≡◌, ◌∙◌}
use mathlib.Core.List.{List, [], ◌∷◌, ◌++◌}
use mathlib.Core.Option.{some}
use native.Mathlib.Omega.{arith}
use neoast.Common.Lists.{length, get_elem?, set, get_elem?-set_self, get_elem?-set_ne, get_elem?-lt}

module _ {ℓ} {A : Type ℓ} where
  -- `Holds cells xs`: the cells `0 .. length xs` are `xs`, its head in the last of them.
  abbrev pub Holds : List A → List A → Type ℓ
  Holds cells [] = Unit
  Holds cells (x ∷ xs) = (get_elem? cells (length xs) ≡ some x) × Holds cells xs

  pub Holds-set :
      (cells xs : List A) (i : ℕ) (v : A)
      → length xs ≤ i
      → Holds cells xs
      → Holds (set cells i v) xs
  Holds-set cells [] i v le h = tt
  Holds-set cells (x ∷ xs) i v le h = (
    get_elem?-set_ne cells i (length xs) v (omega arith) ∙ h.0,
    Holds-set cells xs i v (omega arith) h.1,
  )

  pub Holds-push :
      (cells xs : List A) (v : A)
      → length xs < length cells
      → Holds cells xs
      → Holds (set cells (length xs) v) (v ∷ xs)
  Holds-push cells xs v lt h =
      (get_elem?-set_self cells (length xs) v lt, Holds-set cells xs (length xs) v (omega arith) h)

  pub Holds-append : (cells xs ys : List A) → Holds cells (xs ++ ys) → Holds cells ys
  Holds-append cells [] ys h = h
  Holds-append cells (x ∷ xs) ys h = Holds-append cells xs ys h.1

  -- What is held fits the allocation.
  pub Holds-fits : (cells xs : List A) → Holds cells xs → length xs ≤ length cells
  Holds-fits cells [] h = omega arith
  Holds-fits cells (x ∷ xs) h = get_elem?-lt cells (length xs) h.0
