-- ===== src/Parsergen/Fill.antt =====
-- The rows that `fill_table` fills: each entry is an action of the state, and none gets lost unless a
-- conflict is counted.
use neoast.Common.{
  ℕ, zero, suc, ◌+◌, ◌≤◌, ◌<◌, ◌≡◌, refl, ap, sym, ◌∙◌, List, [], ◌∷◌, length, get_or, set, Bool,
  true, false, ◌==◌, ◌||◌, Option, none, some, ◌⊎◌, inl, inr, arith,
}
use neoast.Common.{
  if◌then◌else◌, done, write_lem, length-set, get_elem?-eq-get_or, Bool-cases, ==_iff,
}
use neoast.Runtime.Table.{has, tok_syntax_error, tok_shift_mask, tok_reduce_mask}
use neoast.Parsergen.Decode.{is_strong}
use neoast.Parsergen.Table.{
  Row, precedence_at, precedence_left, precedence_right, count_rr, count_sr, conflict, fill_reduce,
  fill_reduces,
}

abbrev pub cell : Row → ℕ → ℕ
cell row k = get_or row.cells k 0

-- How many conflicts were counted.
abbrev pub conflicts : Row → ℕ
conflicts row = row.rr_conflicts + row.sr_conflicts

pub get_or-set :
    (ws : List ℕ) (i v j : ℕ)
    → i < length ws
    → get_or (set ws i v) j 0 ≡ (if j == i then v else get_or ws j 0)
get_or-set [] i v j below = absurd (omega (arith, below))
get_or-set (w ∷ ws) zero v zero below = refl
get_or-set (w ∷ ws) zero v (suc j) below = ground arith
get_or-set (w ∷ ws) (suc i) v zero below = ground arith
get_or-set (w ∷ ws) (suc i) v (suc j) below =
    let same : (suc j == suc i) ≡ (j == i) = ground arith in
    get_or-set ws i v j (omega (arith, below)) ∙ rw same refl

-- Whether an index is listed.
abbrev pub listed : ℕ → List ℕ → Bool
listed k [] = false
listed k (i ∷ is) = k == i || listed k is

-- Each lookahead has a precedence, if there is a table of them.
abbrev pub HasPrecedence : Option (List ℕ) → ℕ → Type 0
HasPrecedence precedence n = (i : ℕ) → i < n → (p : ℕ) × (precedence_at precedence i ≡ done p)

-- What filling in `entry` for some lookaheads does to a row.
pub record Fills (precedence : Option (List ℕ)) (entry : ℕ) (is : List ℕ) (row row' : Row)
    : Type 0 where
  pub as_long : length row'.cells ≡ length row.cells
  pub counts : conflicts row ≤ conflicts row'
  pub cells : (k : ℕ) → (cell row' k ≡ cell row k) ⊎ ((cell row' k ≡ entry) × (listed k is ≡ true))
  pub kept :
      precedence ≡ none
      → conflicts row' ≡ conflicts row
      → (k : ℕ) → is_strong (cell row k) ≡ true
      → cell row' k ≡ cell row k
  pub filled :
      precedence ≡ none
      → conflicts row' ≡ conflicts row
      → (k : ℕ) → listed k is ≡ true
      → cell row' k ≡ entry

conflict_plain :
    (rule i old : ℕ) (row : Row)
    → (row' : Row) × (conflict none rule i old row ≡ done (true, row'))
      × (row'.cells ≡ row.cells)
      × (conflicts row ≤ conflicts row')
      × (conflicts row' ≡ conflicts row → is_strong old ≡ false)
unfolding conflict
conflict_plain rule i old row = elim (Bool-cases (old == tok_syntax_error)) [
  | inl empty ↦ (
    row,
    rw empty refl,
    refl,
    omega arith,
    λ e. ap is_strong ((==_iff old tok_syntax_error).0 empty),
  )
  | inr other ↦ elim (Bool-cases (has old tok_reduce_mask)) [
    | inl reduces ↦ (
      count_rr rule i old row,
      rw (other, reduces) refl,
      refl,
      omega arith,
      λ e. absurd (omega (arith, e)),
    )
    | inr no_reduce ↦ elim (Bool-cases (has old tok_shift_mask)) [
      | inl shifts ↦ (
        count_sr rule i row,
        rw (other, no_reduce, shifts) refl,
        refl,
        omega arith,
        λ e. absurd (omega (arith, e)),
      )
      | inr no_shift ↦ (
        row,
        rw (other, no_reduce, no_shift) refl,
        refl,
        omega arith,
        λ e. rw (no_reduce, no_shift) refl,
      )
    ]
  ]
]

conflict_ranked :
    (precedence : Option (List ℕ)) (rule i old p : ℕ) (row : Row)
    → precedence_at precedence i ≡ done p
    → (take : Bool) × (row' : Row) × (conflict precedence rule i old row ≡ done (take, row'))
      × (row'.cells ≡ row.cells)
      × (conflicts row ≤ conflicts row')
unfolding conflict
conflict_ranked precedence rule i old p row found = elim (Bool-cases (old == tok_syntax_error)) [
  | inl empty ↦ (true, row, rw empty refl, refl, omega arith)
  | inr other ↦ elim (Bool-cases (has old tok_reduce_mask)) [
    | inl reduces ↦ (true, count_rr rule i old row, rw (other, reduces) refl, refl, omega arith)
    | inr no_reduce ↦ elim (Bool-cases (has old tok_shift_mask)) [
      | inl shifts ↦ elim (Bool-cases (p == precedence_left)) [
        | inl left ↦ (true, row, rw (other, no_reduce, shifts, found, left) refl, refl, omega arith)
        | inr not_left ↦ elim (Bool-cases (p == precedence_right)) [
          | inl right ↦ (
            false,
            row,
            rw (other, no_reduce, shifts, found, not_left, right) refl,
            refl,
            omega arith,
          )
          | inr neither ↦ (
            true,
            count_sr rule i row,
            rw (other, no_reduce, shifts, found, not_left, neither) refl,
            refl,
            omega arith,
          )
        ]
      ]
      | inr no_shift ↦ (true, row, rw (other, no_reduce, no_shift) refl, refl, omega arith)
    ]
  ]
]

fill_reduce-Fills :
    (precedence : Option (List ℕ)) (rule entry i p : ℕ) (row : Row)
    → precedence_at precedence i ≡ done p
    → i < length row.cells
    → (row' : Row) × (fill_reduce precedence rule entry i row ≡ done row')
      × Fills precedence entry (i ∷ []) row row'
unfolding fill_reduce
fill_reduce-Fills none rule entry i p row found inside =
    let (checked, ran, same, more, weak) = conflict_plain rule i (cell row i) row in
    let row' = record checked { cells = set row.cells i entry } in
    (
      row',
      rw (get_elem?-eq-get_or row.cells i 0 inside, ran, same, write_lem row.cells i entry inside)
          refl,
      record {
        as_long = length-set row.cells i entry;
        counts = more;
        cells = λ k. elim (Bool-cases (k == i)) [
          | inl here ↦ inr (get_or-set row.cells i entry k inside ∙ rw here refl, rw here refl)
          | inr other ↦ inl (get_or-set row.cells i entry k inside ∙ rw other refl)
        ];
        kept = λ e₀ e k strong. elim (Bool-cases (k == i)) [
          | inl here ↦
              absurd (
                clash
                  (sym strong ∙ ap (λ j. is_strong (cell row j)) ((==_iff k i).0 here) ∙ weak e))
          | inr other ↦ get_or-set row.cells i entry k inside ∙ rw other refl
        ];
        filled = λ e₀ e k there.
            let here : (k == i) ≡ true = ground (arith, there) in
            get_or-set row.cells i entry k inside ∙ rw here refl;
      },
    )
  where
    clash : true ≡ false → ⊥
    clash e = cc
fill_reduce-Fills (some table) rule entry i p row found inside =
    let (take, checked, ran, same, more) =
      conflict_ranked (some table) rule i (cell row i) p row found in
    let old = get_elem?-eq-get_or row.cells i 0 inside in
    elim (Bool-cases take) [
      | inl taken ↦ (
        record checked { cells = set row.cells i entry },
        rw (old, ran, taken, same, write_lem row.cells i entry inside) refl,
        record {
          as_long = length-set row.cells i entry;
          counts = more;
          cells = λ k. elim (Bool-cases (k == i)) [
            | inl here ↦ inr (get_or-set row.cells i entry k inside ∙ rw here refl, rw here refl)
            | inr other ↦ inl (get_or-set row.cells i entry k inside ∙ rw other refl)
          ];
          kept = λ e₀. absurd (differ table e₀);
          filled = λ e₀. absurd (differ table e₀);
        },
      )
      | inr refused ↦ (
        checked,
        rw (old, ran, refused) refl,
        record {
          as_long = ap length same;
          counts = more;
          cells = λ k. inl (ap (λ ws. get_or ws k 0) same);
          kept = λ e₀. absurd (differ table e₀);
          filled = λ e₀. absurd (differ table e₀);
        },
      )
    ]
  where
    differ : (t : List ℕ) → some t ≡ none → ⊥
    differ t e = cc

Fills-cons :
    (precedence : Option (List ℕ)) (entry i : ℕ) (is : List ℕ) (row row₁ row₂ : Row)
    → Fills precedence entry (i ∷ []) row row₁
    → Fills precedence entry is row₁ row₂
    → Fills precedence entry (i ∷ is) row row₂
Fills-cons precedence entry i is row row₁ row₂ first others = record {
  as_long = others.as_long ∙ first.as_long;
  counts = omega (arith, others.counts, first.counts);
  cells = λ k. elim (others.cells k) [
    | inr (new, there) ↦ inr (new, ground (arith, there))
    | inl same ↦ elim (first.cells k) [
      | inl old ↦ inl (same ∙ old)
      | inr (new, there) ↦ inr (same ∙ new, ground (arith, there))
    ]
  ];
  kept = λ e₀ e k strong.
      let old = first.kept e₀ (omega (arith, e, others.counts, first.counts)) k strong in
      others.kept e₀ (omega (arith, e, others.counts, first.counts)) k (ap is_strong old ∙ strong)
      ∙ old;
  filled = λ e₀ e k there. elim (others.cells k) [
    | inr (new, again) ↦ new
    | inl same ↦ elim (Bool-cases (k == i)) [
      | inl this ↦
          same
          ∙ first.filled e₀ (omega (arith, e, others.counts, first.counts)) k (ground (arith, this))
      | inr other ↦
          others.filled e₀ (omega (arith, e, others.counts, first.counts)) k
            (ground (arith, there, other))
    ]
  ];
}

pub fill_reduces-Fills :
    (precedence : Option (List ℕ)) (rule entry n : ℕ) (is : List ℕ) (row : Row)
    → HasPrecedence precedence n
    → n ≤ length row.cells
    → ((k : ℕ) → listed k is ≡ true → k < n)
    → (row' : Row) × (fill_reduces precedence rule entry is row ≡ done row')
      × Fills precedence entry is row row'
unfolding fill_reduces
fill_reduces-Fills precedence rule entry n [] row has_table fits below = (
  row,
  refl,
  record {
    as_long = refl;
    counts = omega arith;
    cells = λ k. inl refl;
    kept = λ e₀ e k strong. refl;
    filled = λ e₀ e k there. absurd (ground (arith, there));
  },
)
fill_reduces-Fills precedence rule entry n (i ∷ is) row has_table fits below =
    let here : i < n = below i (ground arith) in
    let (p, found) = has_table i here in
    let (row₁, ran, first) =
      fill_reduce-Fills precedence rule entry i p row found (omega (arith, here, fits)) in
    let (row₂, ran', others) =
      fill_reduces-Fills precedence rule entry n is row₁ has_table
        (omega (arith, fits, first.as_long)) (λ k there. below k (ground (arith, there))) in
    (row₂, rw ran ran', Fills-cons precedence entry i is row row₁ row₂ first others)
