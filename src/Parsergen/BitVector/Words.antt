-- ===== src/Parsergen/BitVector/Words.antt =====
-- The bits of one word: what `|` and a mask do to them, and how many are clear.
use Prim.Native.Nat.{max, min, digits, bit_and-bitwise, bit_or-bitwise}
use native.Mathlib.Nat.{pow-succ'}
use neoast.Common.{
  ℕ, zero, suc, ◌+◌, ◌-◌, ◌*◌, ◌/◌, ◌%◌, ◌^◌, ◌≤◌, ◌<◌, ◌≡◌, refl, ap, ap₂, sym, ◌∙◌, Bool, false,
  not, ◌==◌, ◌||◌, bit_and, bit_or, arith, ◌⊎◌, inl,
}
use neoast.Parsergen.BitVector.{test_bit}

module _ (rest : ℕ → ℕ) (digit : ℕ → ℕ → ℕ) where
  abbrev by_digits : ℕ → ℕ → ℕ → ℕ
  by_digits = digits rest digit

  -- The result does not depend on the count, once that covers the first number.
  by_digits_count : (x y k l : ℕ) → x ≤ k → x ≤ l → by_digits k x y ≡ by_digits l x y
  by_digits_count zero y zero zero covers covers' = refl
  by_digits_count zero y zero (suc l) covers covers' = refl
  by_digits_count zero y (suc k) zero covers covers' = refl
  by_digits_count zero y (suc k) (suc l) covers covers' = refl
  by_digits_count (suc x) y zero l covers covers' = absurd (omega (arith, covers))
  by_digits_count (suc x) y (suc k) zero covers covers' = absurd (omega (arith, covers'))
  by_digits_count (suc x) y (suc k) (suc l) covers covers' =
      let shorter =
        by_digits_count (suc x / 2) (y / 2) k l (omega (arith, covers)) (omega (arith, covers')) in
      ap (λ high. high * 2 + digit (suc x % 2) (y % 2)) shorter

  -- The lowest digit, and the others, where what is left of the second number has the same law.
  by_digits_step :
      ((y : ℕ) → rest y ≡ rest (y / 2) * 2 + digit 0 (y % 2))
      → (x y : ℕ) → by_digits x x y ≡ by_digits (x / 2) (x / 2) (y / 2) * 2 + digit (x % 2) (y % 2)
  by_digits_step law zero y = law y
  by_digits_step law (suc x) y =
      ap (λ high. high * 2 + digit (suc x % 2) (y % 2))
        (by_digits_count (suc x / 2) (y / 2) x (suc x / 2) (omega arith) (omega arith))

pub bit_or_step : (a b : ℕ) → bit_or a b ≡ bit_or (a / 2) (b / 2) * 2 + max (a % 2) (b % 2)
bit_or_step a b =
    let law : (y : ℕ) → y ≡ y / 2 * 2 + max 0 (y % 2) = λ y. omega arith in
    let halves : bit_or (a / 2) (b / 2) ≡ digits (λ y. y) max (a / 2) (a / 2) (b / 2) =
      bit_or-bitwise (a / 2) (b / 2) in
    bit_or-bitwise a b
    ∙ by_digits_step (λ y. y) max law a b
    ∙ ap (λ high. high * 2 + max (a % 2) (b % 2)) (sym halves)

pub bit_and_step : (a b : ℕ) → bit_and a b ≡ bit_and (a / 2) (b / 2) * 2 + min (a % 2) (b % 2)
bit_and_step a b =
    let law : (y : ℕ) → 0 ≡ 0 * 2 + min 0 (y % 2) = λ y. omega arith in
    let halves : bit_and (a / 2) (b / 2) ≡ digits (λ y. 0) min (a / 2) (a / 2) (b / 2) =
      bit_and-bitwise (a / 2) (b / 2) in
    bit_and-bitwise a b
    ∙ by_digits_step (λ y. 0) min law a b
    ∙ ap (λ high. high * 2 + min (a % 2) (b % 2)) (sym halves)

double_half : (k : ℕ) → (2 ^ suc k / 2 ≡ 2 ^ k) × (2 ^ suc k % 2 ≡ 0)
double_half k = let e : 2 ^ suc k ≡ 2 * 2 ^ k = pow-succ' 2 k in omega (arith, e)

-- Nothing is left of a number under an empty mask; `bound` is no less than the number.
pub and_nothing : (bound w : ℕ) → w ≤ bound → bit_and w 0 ≡ 0
and_nothing zero w small = ap (λ v. bit_and v 0) (zero_of w small)
  where
    zero_of : (v : ℕ) → v ≤ 0 → v ≡ 0
    zero_of v h = omega arith
and_nothing (suc bound) w small =
    let halved = and_nothing bound (w / 2) (omega (arith, small)) in
    omega (arith, halved, bit_and_step w 0)

-- The bit `k`, digit by digit.
abbrev pub bit_at : ℕ → ℕ → Bool
bit_at w zero = w % 2 == 1
bit_at w (suc k) = bit_at (w / 2) k

pub test_bit-bit_at : (w k : ℕ) → test_bit w k ≡ bit_at w k
unfolding test_bit
test_bit-bit_at w zero = ground (arith, bit_and_step w 1, and_nothing (w / 2) (w / 2) (omega arith))
test_bit-bit_at w (suc k) =
    let (half, even) = double_half k in
    let e : bit_and w (2 ^ suc k) ≡ bit_and (w / 2) (2 ^ k) * 2 =
      bit_and_step w (2 ^ suc k) ∙ rw (half, even) (omega arith) in
    let z : (bit_and w (2 ^ suc k) == 0) ≡ (bit_and (w / 2) (2 ^ k) == 0) = ground (arith, e) in
    ap not z ∙ test_bit-bit_at (w / 2) k

pub bit_at-bit_or : (a b k : ℕ) → bit_at (bit_or a b) k ≡ (bit_at a k || bit_at b k)
bit_at-bit_or a b zero = ground (arith, bit_or_step a b)
bit_at-bit_or a b (suc k) =
    let e : bit_or a b / 2 ≡ bit_or (a / 2) (b / 2) = omega (arith, bit_or_step a b) in
    ap (λ w. bit_at w k) e ∙ bit_at-bit_or (a / 2) (b / 2) k

-- How many of the lowest `n` bits are clear.
unfoldable pub clear_bits : ℕ → ℕ → ℕ
clear_bits zero w = 0
clear_bits (suc n) w = (1 - w % 2) + clear_bits n (w / 2)

zero_or : (a b : ℕ) → a ≡ 0 → b ≡ 0 → bit_or a b ≡ 0
zero_or a b p q = ap₂ bit_or p q

pub bit_or_fits : (n a b : ℕ) → a < 2 ^ n → b < 2 ^ n → bit_or a b < 2 ^ n
bit_or_fits zero a b p q = omega (arith, zero_or a b (omega arith) (omega arith))
bit_or_fits (suc n) a b p q =
    let e : 2 ^ suc n ≡ 2 * 2 ^ n = pow-succ' 2 n in
    omega (
      arith,
      e,
      bit_or_step a b,
      bit_or_fits n (a / 2) (b / 2) (omega (arith, e)) (omega (arith, e)),
    )

-- `|` changes nothing, or sets a bit.
pub bit_or_grows :
    (n a b : ℕ)
    → a < 2 ^ n
    → b < 2 ^ n
    → (bit_or a b ≡ a) ⊎ (clear_bits n (bit_or a b) < clear_bits n a)
unfolding clear_bits
bit_or_grows zero a b p q = inl (zero_or a b (omega arith) (omega arith) ∙ omega arith)
bit_or_grows (suc n) a b p q =
    let e : 2 ^ suc n ≡ 2 * 2 ^ n = pow-succ' 2 n in
    let half : bit_or a b / 2 ≡ bit_or (a / 2) (b / 2) = omega (arith, bit_or_step a b) in
    ground (
      arith,
      bit_or_step a b,
      half,
      bit_or_grows n (a / 2) (b / 2) (omega (arith, e)) (omega (arith, e)),
    )

pub zero-bit_at : (k : ℕ) → bit_at 0 k ≡ false
zero-bit_at zero = refl
zero-bit_at (suc k) = zero-bit_at k

-- A power of two has one bit.
pub bit_at-pow : (m k : ℕ) → bit_at (2 ^ m) k ≡ (k == m)
bit_at-pow zero zero = refl
bit_at-pow zero (suc k) = ground (arith, zero-bit_at k)
bit_at-pow (suc m) zero = let (half, even) = double_half m in ground (arith, even)
bit_at-pow (suc m) (suc k) =
    let (half, even) = double_half m in ap (λ w. bit_at w k) half ∙ bit_at-pow m k ∙ ground arith
