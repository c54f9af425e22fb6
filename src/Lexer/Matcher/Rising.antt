-- ===== src/Lexer/Matcher/Rising.antt =====
-- Tab stops in increasing order.
use neoast.Common.{
  ℕ, zero, suc, ◌≤◌, ◌<◌, ◌≡◌, refl, List, [], ◌∷◌, ◌++◌, length, take, set, get_elem?,
}
use neoast.Common.{
  some, leb, ◌⊎◌, inl, inr, done, arith, Bool-cases, get_elem?_total, leb→le, lt_or_le, ap, sym,
  ◌∙◌,
}
use neoast.Lexer.Matcher.Scan.{stops_kept}

-- Each stop is larger than the one before it, and the first larger than `b`.
abbrev pub IsRising : ℕ → List ℕ → Type 0
IsRising b [] = Unit
IsRising b (x ∷ xs) = (b < x) × IsRising x xs

abbrev pub last_or : ℕ → List ℕ → ℕ
last_or b [] = b
last_or b (x ∷ xs) = last_or x xs

pub snoc-IsRising :
    (b : ℕ) (xs : List ℕ) (c : ℕ) → IsRising b xs → last_or b xs < c → IsRising b (xs ++ c ∷ [])
snoc-IsRising b [] c rising above = (above, tt)
snoc-IsRising b (x ∷ xs) c rising above = (rising.0, snoc-IsRising x xs c rising.1 above)

pub last_or-snoc : (b : ℕ) (xs : List ℕ) (c : ℕ) → last_or b (xs ++ c ∷ []) ≡ c
last_or-snoc b [] c = refl
last_or-snoc b (x ∷ xs) c = last_or-snoc x xs c

pub get_elem?-last :
    (b : ℕ) (xs : List ℕ) (k : ℕ) → length xs ≡ suc k → get_elem? xs k ≡ some (last_or b xs)
get_elem?-last b [] k e = absurd (omega arith)
get_elem?-last b (x ∷ []) zero e = refl
get_elem?-last b (x ∷ y ∷ ys) zero e = absurd (omega arith)
get_elem?-last b (x ∷ []) (suc k) e = absurd (omega arith)
get_elem?-last b (x ∷ y ∷ ys) (suc k) e = get_elem?-last x (y ∷ ys) k (omega arith)

-- The stops up to one that is at most `c`, with `c` in its place.
pub align-IsRising :
    (b : ℕ) (xs : List ℕ) (k s c : ℕ)
    → IsRising b xs
    → get_elem? xs k ≡ some s
    → s ≤ c
    → IsRising b (set (take (suc k) xs) k c) × (last_or b (set (take (suc k) xs) k c) ≡ c)
align-IsRising b [] k s c rising e fits = absurd (ground arith)
align-IsRising b (x ∷ xs) zero s c rising e fits = ((ground (arith, e, fits, rising.0), tt), refl)
align-IsRising b (x ∷ xs) (suc k) s c rising e fits =
    let ih = align-IsRising x xs k s c rising.1 e fits in ((rising.0, ih.0), ih.1)

-- A stop is at most as large as one that is not before it.
pub IsRising-le :
    (b : ℕ) (xs : List ℕ) (i j s t : ℕ)
    → IsRising b xs
    → get_elem? xs i ≡ some s
    → get_elem? xs j ≡ some t
    → i ≤ j
    → s ≤ t
IsRising-le b [] i j s t rising at_i at_j le = absurd (ground (arith, at_i))
IsRising-le b (x ∷ xs) zero zero s t rising at_i at_j le = ground (arith, at_i, at_j)
IsRising-le b (x ∷ xs) zero (suc j) s t rising at_i at_j le =
    let low : x < t = above x xs j t rising.1 at_j in ground (arith, at_i, low)
  where
    above : (b : ℕ) (ys : List ℕ) (j t : ℕ) → IsRising b ys → get_elem? ys j ≡ some t → b < t
    above b [] j t rising at_j = absurd (ground (arith, at_j))
    above b (y ∷ ys) zero t rising at_j = ground (arith, at_j, rising.0)
    above b (y ∷ ys) (suc j) t rising at_j = omega (arith, above y ys j t rising.1 at_j, rising.0)
IsRising-le b (x ∷ xs) (suc i) zero s t rising at_i at_j le = absurd (omega (arith, le))
IsRising-le b (x ∷ xs) (suc i) (suc j) s t rising at_i at_j le =
    IsRising-le x xs i j s t rising.1 at_i at_j (omega (arith, le))

-- The last stop that stays has the column in its place.
pub set-take :
    (xs : List ℕ) (j s c : ℕ)
    → get_elem? xs j ≡ some s
    → set (take (suc j) xs) j c ≡ take j xs ++ c ∷ []
set-take [] j s c at = absurd (ground (arith, at))
set-take (x ∷ xs) zero s c at = refl
set-take (x ∷ xs) (suc j) s c at = ap (λ ys. x ∷ ys) (set-take xs j s c at)

-- The number of stops that stay: none, or the last of them is at most `col`; the others are above.
pub stops_kept_lem :
    (stops : List ℕ) (col n : ℕ)
    → n ≤ length stops
    → (k : ℕ) × (stops_kept stops col n ≡ done k)
      × (k ≤ n)
      × ((k ≡ 0) ⊎ ((j : ℕ) × (s : ℕ) × (k ≡ suc j) × (get_elem? stops j ≡ some s) × (s ≤ col)))
      × ((i s : ℕ) → k ≤ i → i < n → get_elem? stops i ≡ some s → col < s)
unfolding stops_kept
stops_kept_lem stops col zero fits =
    (0, refl, omega arith, inl refl, λ i s le lt at. absurd (omega (arith, lt)))
stops_kept_lem stops col (suc n) fits =
    let (s, e) = get_elem?_total stops n (omega arith) in
    elim (Bool-cases (leb s col)) [
      | inl low ↦ (
        suc n,
        rw (e, low) refl,
        omega arith,
        inr (n, s, refl, e, leb→le s col low),
        λ i s' le lt at. absurd (omega (arith, le, lt)),
      )
      | inr high ↦
          let (k, e', le, last, above) = stops_kept_lem stops col n (omega arith) in
          (
            k,
            rw (e, high) e',
            omega (arith, le),
            last,
            λ i s' from_ lt at. elim (lt_or_le i n) [
              | inl before ↦ above i s' from_ before at
              | inr at_end ↦
                  let same : i ≡ n = omega (arith, at_end, lt) in
                  let got : get_elem? stops n ≡ some s' = ap (get_elem? stops) (sym same) ∙ at in
                  ground (arith, e, got, high)
            ],
          )
    ]
