-- ===== src/Parsergen/BitVector/Select.antt =====
-- `select` adds an index to the set, and a new vector is the empty set.
use neoast.Common.{
  ℕ, zero, suc, ◌+◌, ◌-◌, ◌/◌, ◌%◌, ◌^◌, ◌<◌, ◌≡◌, refl, ap, ap₂, sym, ◌∙◌, List, [], ◌∷◌, length,
  get_or, set, Bool, true, false, ◌==◌, ltb, ◌||◌, bit_or, arith, ==_iff, inl, inr,
}
use neoast.Common.{replicate, length-replicate, each_index, each_index_at, ltb→lt, lt_or_le}
use neoast.Common.{Outcome, done, if◌then◌else◌, length-set, get_elem?-eq-get_or, Bool-cases}
use neoast.Parsergen.BitVector.{grow, empty_of, BitVector, contains, select}
use neoast.Parsergen.BitVector.Words.{
  bit_at, bit_at-bit_or, zero-bit_at, clear_bits, bit_or_fits, bit_or_grows, bit_at-pow,
}
use neoast.Parsergen.BitVector.Laws.{
  AllSmall, IsBits, has_word, has_index, clear_words, clears, contains_lem,
}

pow_small : (m : ℕ) → m < 32 → 2 ^ m < 2 ^ 32
unfolding each_index
pow_small m below =
    ltb→lt (2 ^ m) (2 ^ 32) (each_index_at (λ m. ltb (2 ^ m) (2 ^ 32)) m 32 below refl)

AllSmall-get : (ws : List ℕ) (i : ℕ) → AllSmall ws → get_or ws i 0 < 2 ^ 32
AllSmall-get [] i small = omega arith
AllSmall-get (w ∷ ws) zero small = small.0
AllSmall-get (w ∷ ws) (suc i) small = AllSmall-get ws i small.1

AllSmall-set : (ws : List ℕ) (i w : ℕ) → AllSmall ws → w < 2 ^ 32 → AllSmall (set ws i w)
AllSmall-set [] i w small fits = tt
AllSmall-set (v ∷ ws) zero w small fits = (fits, small.1)
AllSmall-set (v ∷ ws) (suc i) w small fits = (small.0, AllSmall-set ws i w small.1 fits)

has_word-set :
    (ws : List ℕ) (i w j m : ℕ)
    → i < length ws
    → bit_at (get_or (set ws i w) j 0) m ≡ (if j == i then bit_at w m else bit_at (get_or ws j 0) m)
has_word-set [] i w j m below = absurd (omega arith)
has_word-set (v ∷ ws) zero w zero m below = refl
has_word-set (v ∷ ws) zero w (suc j) m below = ground arith
has_word-set (v ∷ ws) (suc i) w zero m below = ground arith
has_word-set (v ∷ ws) (suc i) w (suc j) m below =
    has_word-set ws i w j m (omega (arith, below))
    ∙ ap (λ b. if b then bit_at w m else bit_at (get_or ws j 0) m) (suc_eq j i)
  where
    suc_eq : (a b : ℕ) → (a == b) ≡ (suc a == suc b)
    suc_eq a b = ground arith

select_bits :
    (ws : List ℕ) (j k : ℕ)
    → (if j / 32 == k / 32
        then bit_at (bit_or (get_or ws (k / 32) 0) (2 ^ (k % 32))) (j % 32)
        else has_word ws j)
      ≡ (j == k || has_word ws j)
select_bits ws j k = elim (Bool-cases (j / 32 == k / 32)) [
  | inl same ↦
      let e : j / 32 ≡ k / 32 = (==_iff (j / 32) (k / 32)).0 same in
      let test : (j % 32 == k % 32) ≡ (j == k) = ground (arith, e) in
      rw same (
        bit_at-bit_or (get_or ws (k / 32) 0) (2 ^ (k % 32)) (j % 32)
        ∙ ap₂ (λ x y. x || y) (ap (λ i. bit_at (get_or ws i 0) (j % 32)) (sym e))
            (bit_at-pow (k % 32) (j % 32) ∙ test)
        ∙ swap (has_word ws j) (j == k))
  | inr other ↦ let test : (j == k) ≡ false = ground (arith, other) in rw (other, test) refl
]
  where
    swap : (a b : Bool) → (a || b) ≡ (b || a)
    swap a b = ground arith

clear_words-set :
    (ws : List ℕ) (i w : ℕ)
    → i < length ws
    → clear_words (set ws i w) + clear_bits 32 (get_or ws i 0) ≡ clear_words ws + clear_bits 32 w
unfolding clear_words
clear_words-set [] i w below = absurd (omega arith)
clear_words-set (v ∷ ws) zero w below = omega arith
clear_words-set (v ∷ ws) (suc i) w below =
    omega (arith, clear_words-set ws i w (omega (arith, below)))

replicate_small : (n : ℕ) → AllSmall (replicate n 0)
replicate_small zero = tt
replicate_small (suc n) = (omega arith, replicate_small n)

sets_bit :
    (w m : ℕ)
    → w < 2 ^ 32
    → m < 32
    → bit_at w m ≡ false
    → clear_bits 32 (bit_or w (2 ^ m)) < clear_bits 32 w
sets_bit w m fits below absent = elim (bit_or_grows 32 w (2 ^ m) fits (pow_small m below)) [
  | inl unchanged ↦
      let here : (m == m) ≡ true = ground arith in
      absurd (
        differ (bit_at w m) absent (
          sym (bit_at-bit_or w (2 ^ m) m ∙ ap (λ b. bit_at w m || b) (bit_at-pow m m ∙ here))
          ∙ ap (λ v. bit_at v m) unchanged))
  | inr fewer ↦ fewer
]
  where
    differ : (b : Bool) → b ≡ false → (b || true) ≡ b → ⊥
    differ false e h = cc
    differ true e h = cc

-- An index in range is added, and nothing else changes.
pub select_lem :
    (n k : ℕ) (b : BitVector)
    → IsBits n b
    → k < n
    → (b' : BitVector) × (select k b ≡ done b')
      × IsBits n b'
      × ((j : ℕ) → has_index b' j ≡ (j == k || has_index b j))
      × (has_index b k ≡ false → clears b' < clears b)
unfolding select
select_lem n k b ok below =
    let test : ltb k b.len ≡ true = ground (arith, ok.sized) in
    let inside : k / 32 < length b.words = omega (arith, ok.fits) in
    let w = get_or b.words (k / 32) 0 in
    let m = k % 32 in
    let w' = bit_or w (2 ^ m) in
    (
      record b { words = set b.words (k / 32) w' },
      rw (test, get_elem?-eq-get_or b.words (k / 32) 0 inside) refl,
      record {
        sized = ok.sized;
        fits = length-set b.words (k / 32) w' ∙ ok.fits;
        small = AllSmall-set b.words (k / 32) w' ok.small (
            bit_or_fits 32 w (2 ^ m) (AllSmall-get b.words (k / 32) ok.small)
              (pow_small m (omega arith)));
      },
      λ j. has_word-set b.words (k / 32) w' (j / 32) (j % 32) inside ∙ select_bits b.words j k,
      λ absent.
          let less : clear_bits 32 w' < clear_bits 32 w =
            sets_bit w m (AllSmall-get b.words (k / 32) ok.small) (omega arith) absent in
          omega (arith, less, clear_words-set b.words (k / 32) w' inside),
    )

pub empty_of-IsBits : (n : ℕ) → IsBits n (empty_of n)
unfolding empty_of grow
empty_of-IsBits n = record {
  sized = omega arith;
  fits = length-replicate {A = ℕ} ((0 + n) / 32 + 1 - 0) 0 ∙ omega arith;
  small = replicate_small ((0 + n) / 32 + 1 - 0);
}

pub has_index-empty_of : (n k : ℕ) → has_index (empty_of n) k ≡ false
unfolding empty_of grow
has_index-empty_of n k =
    ap (λ w. bit_at w (k % 32)) (zeros ((0 + n) / 32 + 1 - 0) (k / 32)) ∙ zero-bit_at (k % 32)
  where
    zeros : (m i : ℕ) → get_or {A = ℕ} (replicate m 0) i 0 ≡ 0
    zeros zero i = refl
    zeros (suc m) zero = refl
    zeros (suc m) (suc i) = zeros m i

pub contains-true :
    (n : ℕ) (b : BitVector) (k : ℕ)
    → IsBits n b
    → contains b k ≡ done true
    → (k < n) × (has_index b k ≡ true)
unfolding contains
contains-true n b k ok h = elim (lt_or_le k n) [
  | inl below ↦ (below, done_eq (sym (contains_lem n b k ok below) ∙ h))
  | inr above ↦
      let test : ltb k b.len ≡ false = ground (arith, ok.sized, above) in
      absurd (out_of_bounds b k test h)
]
  where
    done_eq : {a b : Bool} → ◌≡◌ {A = Outcome Bool} (done a) (done b) → a ≡ b
    done_eq e = cc

    out_of_bounds : (b : BitVector) (k : ℕ) → ltb k b.len ≡ false → contains b k ≡ done true → ⊥
    out_of_bounds b k test h = ground (arith, test, h)
