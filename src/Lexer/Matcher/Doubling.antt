-- ===== src/Lexer/Matcher/Doubling.antt =====
-- The loop of `matcher_grow` that doubles the size of the buffer.
use neoast.Common.{ℕ, zero, suc, ◌*◌, ◌%◌, ◌^◌, ◌≤◌, ◌<◌, ◌≡◌, ◌⊎◌}
use neoast.Common.{ap, arith, inl, inr, ltb, Bool-cases, lt_or_le}
use neoast.Common.{ltb→lt}
use native.Mathlib.Nat.{pow-succ'}
use neoast.Lexer.Matcher.Buffer.{double_until}

doubled : (size newmax rounds : ℕ) → newmax ≤ size * 2 ^ suc rounds → newmax ≤ size * 2 * 2 ^ rounds
doubled size newmax rounds reach =
    let e : size * 2 ^ suc rounds ≡ size * (2 * 2 ^ rounds) =
      ap (λ t. size * t) (pow-succ' 2 rounds) in
    grind (arith, e)

-- With rounds enough the size reaches the bound, and stays below twice the bound, or where it was.
pub double_until_bounds :
    (rounds newmax size most : ℕ)
    → 0 < size
    → size ≤ 2 ^ 63
    → newmax ≤ 2 ^ 62
    → newmax ≤ size * 2 ^ rounds
    → size ≤ most
    → 2 * newmax ≤ most
    → (newmax ≤ double_until rounds newmax size)
      × (size ≤ double_until rounds newmax size)
      × (double_until rounds newmax size ≤ most)
unfolding double_until
double_until_bounds zero newmax size most some small fits reach a b =
    (omega arith, omega arith, omega arith)
double_until_bounds (suc rounds) newmax size most some small fits reach a b =
    elim (Bool-cases (ltb size newmax)) [
      | inl less ↦
          let lt : size < newmax = ltb→lt size newmax less in
          let e : size * 2 % 2 ^ 64 ≡ size * 2 = omega arith in
          let ih =
            double_until_bounds rounds newmax (size * 2) most (omega arith) (omega arith) fits
              (doubled size newmax rounds reach) (omega arith) b in
          rw (less, e) (ih.0, omega (arith, ih.1), ih.2)
      | inr enough ↦ let le : newmax ≤ size = ground arith in rw enough (le, omega arith, a)
    ]

-- The loop ends within 64 rounds, for a size that is not 0 and sizes of at most 2⁶²: the result is
-- neither below the old size nor below the bound, and it is the old size or at most twice the bound.
pub double_until_lem :
    (newmax size : ℕ)
    → 0 < size
    → size ≤ 2 ^ 62
    → newmax ≤ 2 ^ 62
    → (newmax ≤ double_until 64 newmax size)
      × (size ≤ double_until 64 newmax size)
      × ((double_until 64 newmax size ≡ size) ⊎ (double_until 64 newmax size ≤ 2 * newmax))
double_until_lem newmax size some small fits = elim (lt_or_le size (2 * newmax)) [
  | inl less ↦
      let (reached, grown, least) =
        double_until_bounds 64 newmax size (2 * newmax) some (omega arith) fits
          (omega (arith, fits, some)) (omega arith) (omega arith) in
      (reached, grown, inr least)
  | inr enough ↦
      let (reached, grown, least) =
        double_until_bounds 64 newmax size size some (omega arith) fits (omega (arith, fits, some))
          (omega arith) enough in
      (reached, grown, inl (omega (arith, grown, least)))
]
