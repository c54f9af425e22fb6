-- ===== src/Parsergen/Decode.antt =====
-- The entries that the generator writes are what the runtime reads: Runtime/Table takes them apart.
use native.Mathlib.Nat.{pow-succ'}
use neoast.Common.{
  ℕ, zero, suc, ◌+◌, ◌-◌, ◌*◌, ◌/◌, ◌^◌, ◌≤◌, ◌<◌, ◌≡◌, refl, ap, ap₂, ◌∙◌, Bool, true, false, ◌==◌,
  ◌||◌, bit_and, bit_or, arith,
}
use neoast.Runtime.Table.{
  accept, shift, reduce, classify, has, tok_accept_mask, tok_shift_mask, tok_reduce_mask,
}
use neoast.Parsergen.BitVector.{test_bit}
use neoast.Parsergen.BitVector.Words.{
  and_nothing, bit_or_step, bit_and_step, bit_at, test_bit-bit_at, bit_at-bit_or,
}

double : (m : ℕ) → 2 ^ suc m ≡ 2 * 2 ^ m
double m = pow-succ' 2 m

or_pow : (m a : ℕ) → a < 2 ^ m → bit_or a (2 ^ m) ≡ a + 2 ^ m
or_pow zero zero p = refl
or_pow zero (suc a) p = absurd (omega (arith, p))
or_pow (suc m) a p =
    let d = double m in
    let half : 2 ^ suc m / 2 ≡ 2 ^ m = omega (arith, d) in
    let e : bit_or (a / 2) (2 ^ suc m / 2) ≡ a / 2 + 2 ^ m =
      ap (bit_or (a / 2)) half ∙ or_pow m (a / 2) (omega (arith, p, d)) in
    omega (arith, bit_or_step a (2 ^ suc m), e, d)

pow_or : (m a : ℕ) → a < 2 ^ m → bit_or (2 ^ m) a ≡ a + 2 ^ m
pow_or zero zero p = refl
pow_or zero (suc a) p = absurd (omega (arith, p))
pow_or (suc m) a p =
    let d = double m in
    let half : 2 ^ suc m / 2 ≡ 2 ^ m = omega (arith, d) in
    let e : bit_or (2 ^ suc m / 2) (a / 2) ≡ a / 2 + 2 ^ m =
      ap (λ x. bit_or x (a / 2)) half ∙ pow_or m (a / 2) (omega (arith, p, d)) in
    omega (arith, bit_or_step (2 ^ suc m) a, e, d)

-- A mask takes the low bits.
and_low : (m n a : ℕ) → a < 2 ^ m → m ≤ n → bit_and (a + 2 ^ n) (2 ^ m - 1) ≡ a
and_low zero n zero p q = and_nothing (0 + 2 ^ n) (0 + 2 ^ n) (omega arith)
and_low zero n (suc a) p q = absurd (omega (arith, p))
and_low (suc m) zero a p q = absurd (omega (arith, q))
and_low (suc m) (suc n) a p q =
    let d = double m in
    let d' = double n in
    let half : (a + 2 ^ suc n) / 2 ≡ a / 2 + 2 ^ n = omega (arith, d') in
    let half' : (2 ^ suc m - 1) / 2 ≡ 2 ^ m - 1 = omega (arith, d) in
    let e : bit_and ((a + 2 ^ suc n) / 2) ((2 ^ suc m - 1) / 2) ≡ a / 2 =
      ap₂ bit_and half half' ∙ and_low m n (a / 2) (omega (arith, p, d)) (omega (arith, q)) in
    omega (arith, bit_and_step (a + 2 ^ suc n) (2 ^ suc m - 1), e, d, d', p)

bit_at_small : (k a : ℕ) → a < 2 ^ k → bit_at a k ≡ false
bit_at_small zero zero p = refl
bit_at_small zero (suc a) p = absurd (omega (arith, p))
bit_at_small (suc k) a p = bit_at_small k (a / 2) (omega (arith, p, double k))

has_bit : (k v : ℕ) → has v (2 ^ k) ≡ bit_at v k
unfolding test_bit
has_bit k v = test_bit-bit_at v k

-- A shift entry reads as that shift.
pub classify-shift : (s : ℕ) → s < 2 ^ 29 → classify (bit_or s tok_shift_mask) ≡ shift s
unfolding classify
classify-shift s small =
    let v : bit_or s (2 ^ 30) ≡ s + 2 ^ 30 = or_pow 30 s (omega (arith, small)) in
    let some_bit : (bit_or s (2 ^ 30) == 0) ≡ false = ground (arith, v) in
    let is_shift : has (bit_or s (2 ^ 30)) (2 ^ 30) ≡ true =
      has_bit 30 (bit_or s (2 ^ 30))
      ∙ bit_at-bit_or s (2 ^ 30) 30
      ∙ ap (λ b. b || true) (bit_at_small 30 s (omega (arith, small))) in
    let masked : bit_and (bit_or s (2 ^ 30)) (2 ^ 29 - 1) ≡ s =
      ap (λ x. bit_and x (2 ^ 29 - 1)) v ∙ and_low 29 30 s small (omega arith) in
    rw (some_bit, is_shift) (ap shift masked)

-- A reduce entry reads as the reduction by that rule.
pub classify-reduce : (r : ℕ) → r < 2 ^ 29 → classify (bit_or tok_reduce_mask r) ≡ reduce r
unfolding classify
classify-reduce r small =
    let v : bit_or (2 ^ 31) r ≡ r + 2 ^ 31 = pow_or 31 r (omega (arith, small)) in
    let some_bit : (bit_or (2 ^ 31) r == 0) ≡ false = ground (arith, v) in
    let no_shift : has (bit_or (2 ^ 31) r) (2 ^ 30) ≡ false =
      has_bit 30 (bit_or (2 ^ 31) r)
      ∙ bit_at-bit_or (2 ^ 31) r 30
      ∙ ap (λ b. bit_at (2 ^ 31) 30 || b) (bit_at_small 30 r (omega (arith, small))) in
    let is_reduce : has (bit_or (2 ^ 31) r) (2 ^ 31) ≡ true =
      has_bit 31 (bit_or (2 ^ 31) r) ∙ bit_at-bit_or (2 ^ 31) r 31 ∙ refl in
    let masked : bit_and (bit_or (2 ^ 31) r) (2 ^ 29 - 1) ≡ r =
      ap (λ x. bit_and x (2 ^ 29 - 1)) v ∙ and_low 29 31 r small (omega arith) in
    rw (some_bit, no_shift, is_reduce) (ap reduce masked)

pub classify-accept : classify (bit_or tok_accept_mask 0) ≡ accept
unfolding classify
classify-accept = refl

-- Entries that the generator does not overwrite in silence.
abbrev pub is_strong : ℕ → Bool
is_strong v = has v tok_reduce_mask || has v tok_shift_mask

pub is_strong-shift : (s : ℕ) → s < 2 ^ 29 → is_strong (bit_or s tok_shift_mask) ≡ true
is_strong-shift s small =
    let is_shift : has (bit_or s (2 ^ 30)) (2 ^ 30) ≡ true =
      has_bit 30 (bit_or s (2 ^ 30))
      ∙ bit_at-bit_or s (2 ^ 30) 30
      ∙ ap (λ b. b || true) (bit_at_small 30 s (omega (arith, small))) in
    ground (arith, is_shift)

pub is_strong-reduce : (r : ℕ) → is_strong (bit_or tok_reduce_mask r) ≡ true
is_strong-reduce r =
    let is_reduce : has (bit_or (2 ^ 31) r) (2 ^ 31) ≡ true =
      has_bit 31 (bit_or (2 ^ 31) r) ∙ bit_at-bit_or (2 ^ 31) r 31 ∙ refl in
    ground (arith, is_reduce)
