-- ===== src/Common/Faults.antt =====
-- What C leaves undefined, and a failed `assert`, as values: a run either is done or faults.
use Prim.Native.Nat.{ℕ, ◌<◌}
use mathlib.Core.Path.{◌≡◌, refl, subst}
use mathlib.Core.Bool.{Bool, true, false}
use mathlib.Core.List.{List}
use mathlib.Core.Option.{Option, none, some}
use native.Mathlib.Omega.{arith}
use neoast.Common.Lists.{length, get_elem?, set, get_elem?_total}
use neoast.Common.Tests.{if◌then◌else◌}

-- `assertion` is a failed `assert`; `bounds` is an access outside an allocation; `out_of_range` is the
-- exception of `at` for a missing key; `out_of_fuel` is a loop of the model that was given too few
-- rounds.
pub data Fault : Type 0 where
  assertion bounds out_of_range out_of_fuel : Fault

pub data Outcome {ℓ} (A : Type ℓ) : Type ℓ where
  done : A → Outcome A
  fault : Fault → Outcome A

infixl 5 ◌>>=◌ ◌>>◌
abbrev pub ◌>>=◌ {ℓ κ} : {A : Type ℓ} {B : Type κ} → Outcome A → (A → Outcome B) → Outcome B
done a >>= f = f a
fault e >>= f = fault e

abbrev pub ◌>>◌ {ℓ} : {B : Type ℓ} → Outcome (Unit {0}) → Outcome B → Outcome B
m >> k = m >>= λ _. k

abbrev pub assert : Bool → Outcome (Unit {0})
assert true = done tt
assert false = fault assertion

module _ {ℓ} {A : Type ℓ} where
  abbrev pub deref : Option A → Outcome A
  deref none = fault bounds
  deref (some a) = done a

  -- `cells[i]` as a value.
  abbrev pub read : List A → ℕ → Outcome A
  read cells i = deref (get_elem? cells i)

  -- `cells[i] = v`.
  abbrev pub write : List A → ℕ → A → Outcome (List A)
  write cells i v = deref (get_elem? cells i) >>= λ _. done (set cells i v)

module _ {ℓ} {A : Type ℓ} where
  pub write_lem :
      (cells : List A) (i : ℕ) (v : A) → i < length cells → write cells i v ≡ done (set cells i v)
  write_lem cells i v lt = ground (arith, get_elem?_total cells i lt)

  pub read_lem :
      (cells : List A) (i : ℕ) (v : A) → get_elem? cells i ≡ some v → read cells i ≡ done v
  read_lem cells i v e = rw e

-- A chain that is done was done at its first link.
pub >>=-eq-done {ℓ κ} :
    {A : Type ℓ} {B : Type κ} (m : Outcome A) (f : A → Outcome B) {b : B}
    → (m >>= f) ≡ done b
    → (a : A) × (m ≡ done a) × (f a ≡ done b)
>>=-eq-done (done a) f h = (a, refl, h)
>>=-eq-done (fault e) f h = cc

-- What a run returns, if it does, has a property.
abbrev pub Ensures {ℓ} : {A : Type ℓ} → (A → Type 0) → Outcome A → Type 0
Ensures P (done a) = P a
Ensures P (fault e) = Unit

module _ {ℓ} {A : Type ℓ} (P : A → Type 0) where
  pub Ensures-done : {o : Outcome A} {a : A} → Ensures P o → o ≡ done a → P a
  Ensures-done p e = subst (λ o. Ensures P o) e p

  pub Ensures-if :
      (b : Bool) (x y : Outcome A) → Ensures P x → Ensures P y → Ensures P (if b then x else y)
  Ensures-if true x y p q = p
  Ensures-if false x y p q = q

pub Ensures-map {ℓ} :
    {A : Type ℓ} {P Q : A → Type 0} (o : Outcome A)
    → ((a : A) → P a → Q a)
    → Ensures P o
    → Ensures Q o
Ensures-map (done a) f p = f a p
Ensures-map (fault e) f p = tt

module _ {ℓ κ} {A : Type ℓ} {B : Type κ} (P : B → Type 0) where
  pub Ensures-then :
      (m : Outcome A) (f : A → Outcome B) → ((a : A) → Ensures P (f a)) → Ensures P (m >>= λ a. f a)
  Ensures-then (done a) f all = all a
  Ensures-then (fault e) f all = tt

  pub Ensures-bind :
      (Q : A → Type 0) (m : Outcome A) (f : A → Outcome B)
      → Ensures Q m
      → ((a : A) → Q a → Ensures P (f a))
      → Ensures P (m >>= λ a. f a)
  Ensures-bind Q (done a) f q all = all a q
  Ensures-bind Q (fault e) f q all = tt
