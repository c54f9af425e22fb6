-- ===== src/Common/Shifts.antt =====
-- `bit_or` of a number that is shifted to the left and one that fits below it.
use Prim.Native.Nat.{ℕ, zero, suc, ◌+◌, ◌*◌, ◌/◌, ◌≤◌, ◌<◌, max, bit_or, digits, bit_or-bitwise}
use mathlib.Core.Path.{◌≡◌, refl, ap, ◌∙◌}
use native.Mathlib.Omega.{arith}

-- `x << k`, and `1 << k`.
abbrev shl : ℕ → ℕ → ℕ
shl zero x = x
shl (suc k) x = shl k x * 2

-- `bit_or` on a count of digits.
abbrev either : ℕ → ℕ → ℕ → ℕ
either count a b = digits (λ b. b) max count a b

shl-half : (k x : ℕ) → shl (suc k) x / 2 ≡ shl k x
shl-half k x = omega arith

either-high : (k count x y z : ℕ) → z ≡ shl k x → z ≤ count → y < shl k 1 → either count z y ≡ z + y
either-high k zero x y z is within below = omega arith
either-high k (suc count) x y zero is within below = omega arith
either-high zero (suc count) x y (suc z) is within below =
    let none_below : y ≡ 0 = omega (arith, below) in
    ap (either (suc count) (suc z)) none_below
    ∙ alone (suc count) (suc z) within
    ∙ omega (arith, below)
  where
    alone : (count z : ℕ) → z ≤ count → either count z 0 ≡ z
    alone zero z within = omega arith
    alone (suc count) zero within = refl
    alone (suc count) (suc z) within = omega (arith, alone count (suc z / 2) (omega arith))
either-high (suc k) (suc count) x y (suc z) is within below =
    let ih : either count (suc z / 2) (y / 2) ≡ suc z / 2 + y / 2 =
      either-high k count x (y / 2) (suc z / 2) (ap (λ n. n / 2) is ∙ shl-half k x)
        (omega (arith, within)) (omega (arith, below)) in
    omega (arith, ih, is)

either-low : (k count x y z : ℕ) → z ≡ shl k x → y ≤ count → y < shl k 1 → either count y z ≡ y + z
either-low k zero x y z is within below = omega arith
either-low k (suc count) x zero z is within below = omega arith
either-low zero (suc count) x (suc y) z is within below = absurd (omega (arith, below))
either-low (suc k) (suc count) x (suc y) z is within below =
    let ih : either count (suc y / 2) (z / 2) ≡ suc y / 2 + z / 2 =
      either-low k count x (suc y / 2) (z / 2) (ap (λ n. n / 2) is ∙ shl-half k x)
        (omega (arith, within)) (omega (arith, below)) in
    omega (arith, ih, is)

pub bit_or-shl : (k x y : ℕ) → y < shl k 1 → bit_or (shl k x) y ≡ shl k x + y
bit_or-shl k x y below =
    bit_or-bitwise (shl k x) y ∙ either-high k (shl k x) x y (shl k x) refl (omega arith) below

pub bit_or-below : (k x y : ℕ) → y < shl k 1 → bit_or y (shl k x) ≡ y + shl k x
bit_or-below k x y below =
    bit_or-bitwise y (shl k x) ∙ either-low k y x y (shl k x) refl (omega arith) below

-- Two bytes, and four, from the most significant one down and from the least significant one up.
pub or_two : (a b : ℕ) → b < 256 → bit_or (a * 256) b ≡ a * 256 + b
or_two a b small = ap (λ n. bit_or n b) shift ∙ bit_or-shl 8 a b small ∙ omega arith
  where
    shift : a * 256 ≡ shl 8 a
    shift = omega arith

pub two_or : (a b : ℕ) → a < 256 → bit_or a (b * 256) ≡ a + b * 256
two_or a b small = ap (bit_or a) shift ∙ bit_or-below 8 b a small ∙ omega arith
  where
    shift : b * 256 ≡ shl 8 b
    shift = omega arith

pub or_four :
    (a b c d : ℕ)
    → b < 256
    → c < 256
    → d < 256
    → bit_or (bit_or (bit_or (a * 16777216) (b * 65536)) (c * 256)) d
      ≡ a * 16777216 + b * 65536 + c * 256 + d
or_four a b c d b_small c_small d_small =
    ap (λ n. bit_or (bit_or n (c * 256)) d) first
    ∙ ap (λ n. bit_or n d) second
    ∙ ap (λ n. bit_or n d) third_at
    ∙ or_two (a * 65536 + b * 256 + c) d d_small
    ∙ omega arith
  where
    shift : a * 16777216 ≡ shl 24 a
    shift = omega arith

    first : bit_or (a * 16777216) (b * 65536) ≡ shl 16 (a * 256 + b)
    first =
        ap (λ n. bit_or n (b * 65536)) shift
        ∙ bit_or-shl 24 a (b * 65536) (omega (arith, b_small))
        ∙ omega arith

    second : bit_or (shl 16 (a * 256 + b)) (c * 256) ≡ shl 16 (a * 256 + b) + c * 256
    second = bit_or-shl 16 (a * 256 + b) (c * 256) (omega (arith, c_small))

    third_at : shl 16 (a * 256 + b) + c * 256 ≡ (a * 65536 + b * 256 + c) * 256
    third_at = omega arith

pub four_or :
    (a b c d : ℕ)
    → a < 256
    → b < 256
    → c < 256
    → bit_or (bit_or (bit_or a (b * 256)) (c * 65536)) (d * 16777216)
      ≡ a + b * 256 + c * 65536 + d * 16777216
four_or a b c d a_small b_small c_small =
    ap (λ n. bit_or (bit_or n (c * 65536)) (d * 16777216)) (two_or a b a_small)
    ∙ ap (λ n. bit_or n (d * 16777216)) second
    ∙ third
  where
    shift : c * 65536 ≡ shl 16 c
    shift = omega arith

    second : bit_or (a + b * 256) (c * 65536) ≡ a + b * 256 + c * 65536
    second =
        ap (bit_or (a + b * 256)) shift
        ∙ bit_or-below 16 c (a + b * 256) (omega (arith, a_small, b_small))
        ∙ omega arith

    shift' : d * 16777216 ≡ shl 24 d
    shift' = omega arith

    third : bit_or (a + b * 256 + c * 65536) (d * 16777216) ≡ a + b * 256 + c * 65536 + d * 16777216
    third =
        ap (bit_or (a + b * 256 + c * 65536)) shift'
        ∙ bit_or-below 24 d (a + b * 256 + c * 65536) (omega (arith, a_small, b_small, c_small))
        ∙ omega arith
