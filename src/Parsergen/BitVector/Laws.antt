-- ===== src/Parsergen/BitVector/Laws.antt =====
-- A `BitVector` is a set of indices: `merge` is the union, and says whether it added something.
use neoast.Common.{
  ℕ, zero, suc, ◌+◌, ◌/◌, ◌%◌, ◌^◌, ◌≤◌, ◌<◌, ◌≡◌, refl, ap, ap₂, sym, ◌∙◌, List, [], ◌∷◌, length,
  get_or, Bool, true, false, not, ◌==◌, ltb, ◌||◌, bit_or, arith, ==_iff, ◌⊎◌, inl, inr,
}
use neoast.Common.{done, if◌then◌else◌, get_elem?-eq-get_or, Bool-cases}
use neoast.Parsergen.BitVector.{BitVector, contains, merge_words, merge, indices_from, indices}
use neoast.Parsergen.BitVector.Words.{
  bit_at, test_bit-bit_at, bit_at-bit_or, clear_bits, bit_or_fits, bit_or_grows,
}

abbrev pub AllSmall : List ℕ → Type 0
AllSmall [] = Unit
AllSmall (w ∷ ws) = (w < 2 ^ 32) × AllSmall ws

-- A vector of `n` indices.
pub record IsBits (n : ℕ) (b : BitVector) : Type 0 where
  pub sized : b.len ≡ n
  pub fits : length b.words ≡ n / 32 + 1
  pub small : AllSmall b.words

-- Whether an index is in the set.
abbrev pub has_word : List ℕ → ℕ → Bool
has_word ws k = bit_at (get_or ws (k / 32) 0) (k % 32)

abbrev pub has_index : BitVector → ℕ → Bool
has_index b k = has_word b.words k

unfoldable pub clear_words : List ℕ → ℕ
clear_words [] = 0
clear_words (w ∷ ws) = clear_bits 32 w + clear_words ws

-- How many bits are clear.
abbrev pub clears : BitVector → ℕ
clears b = clear_words b.words

pub contains_lem :
    (n : ℕ) (b : BitVector) (k : ℕ) → IsBits n b → k < n → contains b k ≡ done (has_index b k)
unfolding contains
contains_lem n b k ok below =
    let test : ltb k b.len ≡ true = ground (arith, ok.sized) in
    let inside : k / 32 < length b.words = omega (arith, ok.fits) in
    rw (test, get_elem?-eq-get_or b.words (k / 32) 0 inside)
      (ap done (test_bit-bit_at (get_or b.words (k / 32) 0) (k % 32)))

-- A merge does not change the words, and says so; or it sets bits.
abbrev pub Grown : Bool → List ℕ → List ℕ → Type 0
Grown c v' v = ((c ≡ false) × (v' ≡ v)) ⊎ ((c ≡ true) × (clear_words v' < clear_words v))

merge_words-Grown :
    (c : Bool) (w r : ℕ) (ws ws' : List ℕ)
    → w < 2 ^ 32
    → r < 2 ^ 32
    → Grown c ws' ws
    → Grown (not (bit_or w r == w) || c) (bit_or w r ∷ ws') (w ∷ ws)
unfolding clear_words
merge_words-Grown c w r ws ws' sw sr (inl (same, kept)) = elim (bit_or_grows 32 w r sw sr) [
  | inl unchanged ↦ inl (ground (arith, same, unchanged), ap₂ (λ x xs. x ∷ xs) unchanged kept)
  | inr fewer ↦ elim (Bool-cases (bit_or w r == w)) [
    | inl equal ↦
        absurd (omega (arith, fewer, ap (λ x. clear_bits 32 x) ((==_iff (bit_or w r) w).0 equal)))
    | inr other ↦ inr (rw other refl, omega (arith, fewer, ap clear_words kept))
  ]
]
merge_words-Grown c w r ws ws' sw sr (inr (same, grown)) = elim (bit_or_grows 32 w r sw sr) [
  | inl unchanged ↦
      inr (ground (arith, same), omega (arith, grown, ap (λ x. clear_bits 32 x) unchanged))
  | inr fewer ↦ inr (ground (arith, same), omega (arith, grown, fewer))
]

bits_of_merge :
    (w r : ℕ) (ws rs ws' : List ℕ)
    → ((i j : ℕ)
        → bit_at (get_or ws' i 0) j ≡ (bit_at (get_or ws i 0) j || bit_at (get_or rs i 0) j))
    → (i j : ℕ)
    → bit_at (get_or (bit_or w r ∷ ws') i 0) j
      ≡ (bit_at (get_or (w ∷ ws) i 0) j || bit_at (get_or (r ∷ rs) i 0) j)
bits_of_merge w r ws rs ws' bits zero j = bit_at-bit_or w r j
bits_of_merge w r ws rs ws' bits (suc i) j = bits i j

merge_words_lem :
    (v r : List ℕ)
    → length r ≡ length v
    → AllSmall v
    → AllSmall r
    → (c : Bool) × (v' : List ℕ) × (merge_words v r ≡ done (c, v'))
      × (length v' ≡ length v)
      × AllSmall v'
      × ((i j : ℕ)
          → bit_at (get_or v' i 0) j ≡ (bit_at (get_or v i 0) j || bit_at (get_or r i 0) j))
      × Grown c v' v
unfolding merge_words
merge_words_lem [] [] e sv sr = (false, [], refl, refl, tt, λ i j. ground arith, inl (refl, refl))
merge_words_lem [] (r ∷ rs) e sv sr = absurd (omega arith)
merge_words_lem (w ∷ ws) [] e sv sr = absurd (omega arith)
merge_words_lem (w ∷ ws) (r ∷ rs) e sv sr =
    let (c, ws', ran, same, small, bits, grown) = merge_words_lem ws rs (omega arith) sv.1 sr.1 in
    (
      not (bit_or w r == w) || c,
      bit_or w r ∷ ws',
      rw ran refl,
      omega (arith, same),
      (bit_or_fits 32 w r sv.0 sr.0, small),
      bits_of_merge w r ws rs ws' bits,
      merge_words-Grown c w r ws ws' sv.0 sr.0 grown,
    )

-- On vectors of the same number of indices `merge` does not fault, the result is the union, and it
-- says truly whether the vector has changed: it is then larger.
pub merge_lem :
    (n : ℕ) (b r : BitVector)
    → IsBits n b
    → IsBits n r
    → (c : Bool) × (b' : BitVector) × (merge b r ≡ done (c, b'))
      × IsBits n b'
      × ((k : ℕ) → has_index b' k ≡ (has_index b k || has_index r k))
      × (((c ≡ false) × (b' ≡ b)) ⊎ ((c ≡ true) × (clears b' < clears b)))
unfolding merge
merge_lem n b r okb okr =
    let (c, ws, ran, same, small, bits, grown) =
      merge_words_lem b.words r.words (okr.fits ∙ sym okb.fits) okb.small okr.small in
    (
      c,
      record b { words = ws },
      rw ran refl,
      record { sized = okb.sized; fits = same ∙ okb.fits; small = small },
      λ k. bits (k / 32) (k % 32),
      elim grown [
        | inl (no_change, kept) ↦ inl (no_change, ap (λ words. record b { words = words }) kept)
        | inr larger ↦ inr larger
      ],
    )

-- The numbers from `i` on that pass a test, of the next `rounds`.
abbrev pub passing : (ℕ → Bool) → ℕ → ℕ → List ℕ
passing test zero i = []
passing test (suc rounds) i =
    let rest = passing test rounds (i + 1) in if test i then i ∷ rest else rest

indices_from_lem :
    (n rounds i : ℕ) (b : BitVector)
    → IsBits n b
    → i + rounds ≤ n
    → indices_from rounds i b ≡ done (passing (has_index b) rounds i)
unfolding indices_from
indices_from_lem n zero i b ok below = refl
indices_from_lem n (suc rounds) i b ok below =
    rw
      (
        contains_lem n b i ok (omega (arith, below)),
        indices_from_lem n rounds (i + 1) b ok (omega (arith, below)),
      )
      refl

-- The iterator visits the indices of the set, in order.
pub indices_lem :
    (n : ℕ) (b : BitVector) → IsBits n b → indices b ≡ done (passing (has_index b) n 0)
unfolding indices
indices_lem n b ok =
    ap (λ k. indices_from k 0 b) ok.sized ∙ indices_from_lem n n 0 b ok (omega arith)
