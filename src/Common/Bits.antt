-- ===== src/Common/Bits.antt =====
-- What the masks and the shifts of the source come to on numbers.
use Prim.Native.Nat.{
  ℕ, zero, suc, ◌+◌, ◌-◌, ◌/◌, ◌%◌, ◌^◌, ◌≤◌, ◌<◌, min, bit_and, bit_or, digits, bit_and-bitwise,
}
use mathlib.Core.Path.{◌≡◌, refl, ◌∙◌}
use mathlib.Core.Bool.{Bool, true, ◌&&◌}
use native.Mathlib.Omega.{arith}
use neoast.Common.Tests.{◌==◌, ==_iff}

-- The test at each index below a bound.
unfoldable pub each_index : (ℕ → Bool) → ℕ → Bool
each_index test zero = true
each_index test (suc last) = each_index test last && test last

pub each_index_at :
    (test : ℕ → Bool) (k bound : ℕ) → k < bound → each_index test bound ≡ true → test k ≡ true
unfolding each_index
each_index_at test k zero below passed = absurd (omega arith)
each_index_at test k (suc last) below passed = ground (arith, each_index_at test k last)

-- `bit_and` on a count of digits.
abbrev low : ℕ → ℕ → ℕ → ℕ
low count a mask = digits (λ b. zero) min count a mask

low-0 : (count a : ℕ) → low count a 0 ≡ 0
low-0 zero a = refl
low-0 (suc count) zero = refl
low-0 (suc count) (suc a) = omega (arith, low-0 count (suc a / 2))

low-1 : (count a : ℕ) → a ≤ count → low count a 1 ≡ a % 2
low-1 zero a within = omega arith
low-1 (suc count) zero within = refl
low-1 (suc count) (suc a) within = omega (arith, low-0 count (suc a / 2))

low-3 : (count a : ℕ) → a ≤ count → low count a 3 ≡ a % 4
low-3 zero a within = omega arith
low-3 (suc count) zero within = refl
low-3 (suc count) (suc a) within = omega (arith, low-1 count (suc a / 2) (omega arith))

low-7 : (count a : ℕ) → a ≤ count → low count a 7 ≡ a % 8
low-7 zero a within = omega arith
low-7 (suc count) zero within = refl
low-7 (suc count) (suc a) within = omega (arith, low-3 count (suc a / 2) (omega arith))

low-15 : (count a : ℕ) → a ≤ count → low count a 15 ≡ a % 16
low-15 zero a within = omega arith
low-15 (suc count) zero within = refl
low-15 (suc count) (suc a) within = omega (arith, low-7 count (suc a / 2) (omega arith))

low-31 : (count a : ℕ) → a ≤ count → low count a 31 ≡ a % 32
low-31 zero a within = omega arith
low-31 (suc count) zero within = refl
low-31 (suc count) (suc a) within = omega (arith, low-15 count (suc a / 2) (omega arith))

low-63 : (count a : ℕ) → a ≤ count → low count a 63 ≡ a % 64
low-63 zero a within = omega arith
low-63 (suc count) zero within = refl
low-63 (suc count) (suc a) within = omega (arith, low-31 count (suc a / 2) (omega arith))

pub bit_and-7 : (a : ℕ) → bit_and a 7 ≡ a % 8
bit_and-7 a = (bit_and-bitwise a 7) ∙ low-7 a a (omega arith)

pub bit_and-15 : (a : ℕ) → bit_and a 15 ≡ a % 16
bit_and-15 a = (bit_and-bitwise a 15) ∙ low-15 a a (omega arith)

pub bit_and-31 : (a : ℕ) → bit_and a 31 ≡ a % 32
bit_and-31 a = (bit_and-bitwise a 31) ∙ low-31 a a (omega arith)

pub bit_and-63 : (a : ℕ) → bit_and a 63 ≡ a % 64
bit_and-63 a = (bit_and-bitwise a 63) ∙ low-63 a a (omega arith)

-- A mask above the digits of `a` adds.
or_table :
    (mask bound a : ℕ)
    → a < bound
    → each_index (λ k. bit_or mask k == mask + k) bound ≡ true
    → bit_or mask a ≡ mask + a
or_table mask bound a below passed =
    (==_iff (bit_or mask a) (mask + a)).0
      (each_index_at (λ k. bit_or mask k == mask + k) a bound below passed)

pub bit_or-128 : (a : ℕ) → a < 64 → bit_or 128 a ≡ 128 + a
unfolding each_index
bit_or-128 a below = or_table 128 64 a below refl

pub bit_or-192 : (a : ℕ) → a < 32 → bit_or 192 a ≡ 192 + a
unfolding each_index
bit_or-192 a below = or_table 192 32 a below refl

pub bit_or-224 : (a : ℕ) → a < 16 → bit_or 224 a ≡ 224 + a
unfolding each_index
bit_or-224 a below = or_table 224 16 a below refl

pub bit_or-240 : (a : ℕ) → a < 8 → bit_or 240 a ≡ 240 + a
unfolding each_index
bit_or-240 a below = or_table 240 8 a below refl

-- `a - b` in 64 bits.
unfoldable pub sub64 : ℕ → ℕ → ℕ
sub64 a b = (a + 2 ^ 64 - b) % 2 ^ 64

pub sub64_le : (a b : ℕ) → b ≤ a → a < 2 ^ 64 → sub64 a b ≡ a - b
unfolding sub64
sub64_le a b h small = omega arith
