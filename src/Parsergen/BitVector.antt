-- ===== src/Parsergen/BitVector.antt =====
-- `BitVector` of src/parsergen/bit_vector.h.
pub mod Words
pub mod Laws
pub mod Select
use neoast.Common.{
  ℕ, zero, suc, ◌+◌, ◌-◌, ◌/◌, ◌%◌, ◌^◌, List, [], ◌∷◌, ◌++◌, length, replicate, Bool, true, false,
  not, ◌==◌, ltb, leb, ◌||◌, ◌&&◌, drop, map, bit_and, bit_or,
}
use neoast.Common.{if◌then◌else◌, Outcome, done, ◌>>=◌, ◌>>◌, assert, read, write}

-- `v` holds words of 32 bits.
pub record BitVector : Type 0 where
  pub len : ℕ
  pub words : List ℕ

-- `v & (1 << k)` as a condition.
unfoldable pub test_bit : ℕ → ℕ → Bool
test_bit w k = not (bit_and w (2 ^ k) == 0)

unfoldable pub grow : ℕ → BitVector → BitVector
grow amount b =
    let n = (b.len + amount) / 32 + 1 in
    record { len = b.len + amount; words = b.words ++ replicate (n - length b.words) 0 }

-- The constructor that reserves.
unfoldable pub empty_of : ℕ → BitVector
unfolding grow
empty_of n = grow n (record { len = 0; words = [] })

-- `operator[]`.
unfoldable pub contains : BitVector → ℕ → Outcome Bool
unfolding test_bit
contains b k = assert (ltb k b.len) >> (read b.words (k / 32) >>= λ w. done (test_bit w (k % 32)))

unfoldable pub select : ℕ → BitVector → Outcome BitVector
select k b =
    assert (ltb k b.len)
    >> (read b.words (k / 32) >>= λ w. write b.words (k / 32) (bit_or w (2 ^ (k % 32))) >>= λ words.
        done (record b { words = words }))

-- `clear` of one index.
unfoldable pub clear_at : ℕ → BitVector → Outcome BitVector
clear_at k b =
    assert (ltb k b.len)
    >> (read b.words (k / 32) >>= λ w.
        write b.words (k / 32) (bit_and w (2 ^ 32 - 1 - 2 ^ (k % 32))) >>= λ words.
        done (record b { words = words }))

-- The loop of `merge` over the words of the other vector, which may not be more.
unfoldable pub merge_words : List ℕ → List ℕ → Outcome (Bool × List ℕ)
merge_words v [] = done (false, v)
merge_words v (r ∷ rs) = do
  w ← read v 0
  (changed, rest) ← merge_words (drop 1 v) rs
  done (not (bit_or w r == w) || changed, bit_or w r ∷ rest)

-- `merge`: whether it changed the vector.
unfoldable pub merge : BitVector → BitVector → Outcome (Bool × BitVector)
unfolding merge_words
merge b r = do
  (changed, words) ← merge_words b.words r.words
  done (changed, record b { words = words })

abbrev pub eqb_words : List ℕ → List ℕ → Bool
eqb_words [] [] = true
eqb_words (a ∷ as_) (b ∷ bs) = a == b && eqb_words as_ bs
eqb_words _ _ = false

-- `operator==`, which compares the words only.
abbrev pub eqb_bits : BitVector → BitVector → Bool
eqb_bits a b = eqb_words a.words b.words

abbrev pub any_word : List ℕ → Bool
any_word [] = false
any_word (w ∷ ws) = not (w == 0) || any_word ws

abbrev pub has_any : BitVector → Bool
has_any b = any_word b.words

abbrev pub has_none : BitVector → Bool
has_none b = not (any_word b.words)

-- `clear` of all.
abbrev pub clear : BitVector → BitVector
clear b = record b { words = map (λ w. 0) b.words }

-- What the iterator visits from `i` on, with `rounds` indices left.
unfoldable pub indices_from : ℕ → ℕ → BitVector → Outcome (List ℕ)
unfolding contains
indices_from zero i b = done []
indices_from (suc rounds) i b = do
  here ← contains b i
  rest ← indices_from rounds (i + 1) b
  done (if here then i ∷ rest else rest)

-- From `begin()` to `end()`.
unfoldable pub indices : BitVector → Outcome (List ℕ)
unfolding indices_from
indices b = indices_from b.len 0 b
