-- ===== src/Parsergen/Edges.antt =====
-- The transitions that `fill_table` writes into a row.
use neoast.Common.{
  ℕ, zero, suc, ◌+◌, ◌≤◌, ◌<◌, ◌≡◌, refl, ap, sym, ◌∙◌, List, [], ◌∷◌, length, set, Bool, true,
  ◌==◌, ltb, Option, ◌⊎◌, inl, inr, bit_or, arith,
}
use neoast.Common.{Outcome, done, write_lem, length-set, Bool-cases, ==_iff}
use neoast.Runtime.Types.{GrammarParser}
use neoast.Runtime.Table.{tok_shift_mask}
use neoast.Parsergen.BitVector.Laws.{passing}
use neoast.Parsergen.Items.{to_index}
use neoast.Parsergen.Collection.{GrammarState, Collection, state_at}
use neoast.Parsergen.Table.{Row, fill_edges}
use neoast.Parsergen.Fill.{cell, conflicts, get_or-set, listed}

-- An element of a list.
abbrev pub In : {A : Type 0} → A → List A → Type 0
In x [] = ⊥
In x (y ∷ ys) = (x ≡ y) ⊎ In x ys

pub listed-passing :
    (test : ℕ → Bool) (n i k : ℕ)
    → listed k (passing test n i) ≡ true
    → (test k ≡ true) × (k < i + n)
listed-passing test zero i k h = absurd (ground (arith, h))
listed-passing test (suc n) i k h = elim (Bool-cases (test i)) [
  | inl here ↦ elim (Bool-cases (k == i)) [
    | inl same ↦ let e = (==_iff k i).0 same in (ap test e ∙ here, omega (arith, e))
    | inr other ↦
        let rest : listed k (passing test n (i + 1)) ≡ true = ground (arith, h, here, other) in
        let (yes_k, below) = listed-passing test n (i + 1) k rest in (yes_k, omega (arith, below))
  ]
  | inr not_here ↦
      let rest : listed k (passing test n (i + 1)) ≡ true = ground (arith, h, not_here) in
      let (yes_k, below) = listed-passing test n (i + 1) k rest in (yes_k, omega (arith, below))
]

pub passing-listed :
    (test : ℕ → Bool) (n i k : ℕ)
    → test k ≡ true
    → i ≤ k
    → k < i + n
    → listed k (passing test n i) ≡ true
passing-listed test zero i k h above below = absurd (omega (arith, above, below))
passing-listed test (suc n) i k h above below = elim (Bool-cases (k == i)) [
  | inl same ↦
      let e : test i ≡ true = ap test (sym ((==_iff k i).0 same)) ∙ h in ground (arith, e, same)
  | inr other ↦
      let rest : listed k (passing test n (i + 1)) ≡ true =
        passing-listed test n (i + 1) k h (ground (arith, above, other)) (omega (arith, below)) in
      elim (Bool-cases (test i)) [
        | inl here ↦ ground (arith, rest, here)
        | inr not_here ↦ ground (arith, rest, not_here)
      ]
]

module _ (parser : GrammarParser) (precedence : Option (List ℕ)) (c : Collection) where
  -- `v` is the shift of an edge whose symbol has column `k`.
  abbrev pub IsEdge : List (ℕ × ℕ) → ℕ → ℕ → Type 0
  IsEdge edges k v =
      (x p : ℕ) × (t : GrammarState) × In (x, p) edges
      × (state_at c p ≡ done t)
      × (to_index parser x ≡ done k)
      × (v ≡ bit_or t.state_id tok_shift_mask)

  -- The edges go to states with numbers of the table, by symbols with columns.
  abbrev pub AllEdges : List (ℕ × ℕ) → Type 0
  AllEdges [] = Unit
  AllEdges (edge ∷ edges) =
      ((t : GrammarState) × (k : ℕ) × (state_at c (edge.1) ≡ done t)
        × (t.state_id < c.state_n)
        × (to_index parser (edge.0) ≡ done k)
        × (k < parser.token_n))
      × AllEdges edges

  IsEdge-later :
      (edge : ℕ × ℕ) (edges : List (ℕ × ℕ)) (k v : ℕ) → IsEdge edges k v → IsEdge (edge ∷ edges) k v
  IsEdge-later edge edges k v (x, p, t, there, at, column, e) = (x, p, t, inr there, at, column, e)

  pub fill_edges_lem :
      (edges : List (ℕ × ℕ)) (row : Row)
      → AllEdges edges
      → parser.token_n ≤ length row.cells
      → (row' : Row) × (fill_edges parser precedence c edges row ≡ done row')
        × (length row'.cells ≡ length row.cells)
        × (conflicts row' ≡ conflicts row)
        × ((k : ℕ) → (cell row' k ≡ cell row k) ⊎ IsEdge edges k (cell row' k))
        × ((x p k : ℕ)
            → In (x, p) edges
            → to_index parser x ≡ done k
            → IsEdge edges k (cell row' k))
  unfolding fill_edges
  fill_edges_lem [] row ok fits =
      (row, refl, refl, refl, λ k. inl refl, λ x p k there. absurd there)
  fill_edges_lem ((x, p) ∷ edges) row ((t, k, at, numbered, column, small), ok) fits =
      let entry = bit_or t.state_id tok_shift_mask in
      let inside : k < length row.cells = omega (arith, small, fits) in
      let long = length-set row.cells k entry in
      let in_range : ltb t.state_id c.state_n ≡ true = ground (arith, numbered) in
      let (row', ran, same, counted, cells, shifts) =
        fill_edges_lem edges (record row { cells = set row.cells k entry }) ok
          (omega (arith, long, fits)) in
      let here : (j : ℕ) → j ≡ k → (cell row' j ≡ entry) ⊎ IsEdge edges j (cell row' j) = λ j e.
        elim (cells j) [
          | inr later ↦ inr later
          | inl kept ↦
              let this : (j == k) ≡ true = ground (arith, e) in
              inl (kept ∙ get_or-set row.cells k entry j inside ∙ rw this refl)
        ] in
      (
        row',
        rw (at, in_range, column, write_lem row.cells k entry inside) ran,
        same ∙ long,
        counted,
        λ j. elim (Bool-cases (j == k)) [
          | inl this ↦ inr (
              first_edge x p t k j edges (cell row' j) at column ((==_iff j k).0 this)
                (here j ((==_iff j k).0 this)))
          | inr other ↦ elim (cells j) [
            | inr later ↦ inr (IsEdge-later (x, p) edges j (cell row' j) later)
            | inl kept ↦ inl (kept ∙ get_or-set row.cells k entry j inside ∙ rw other refl)
          ]
        ],
        λ y q j there column'. elim there [
          | inr later ↦ IsEdge-later (x, p) edges j (cell row' j) (shifts y q j later column')
          | inl this ↦
              let e : j ≡ k =
                done_eq (sym column' ∙ ap (λ z. to_index parser (z.0)) this ∙ column) in
              first_edge x p t k j edges (cell row' j) at column e (here j e)
        ],
      )
    where
      done_eq : {a b : ℕ} → ◌≡◌ {A = Outcome ℕ} (done a) (done b) → a ≡ b
      done_eq e = cc

      first_edge :
          (x p : ℕ) (t : GrammarState) (k j : ℕ) (edges : List (ℕ × ℕ)) (v : ℕ)
          → state_at c p ≡ done t
          → to_index parser x ≡ done k
          → j ≡ k
          → (v ≡ bit_or t.state_id tok_shift_mask) ⊎ IsEdge edges j v
          → IsEdge ((x, p) ∷ edges) j v
      first_edge x p t k j edges v at column e (inl new) =
          (x, p, t, inl refl, at, column ∙ ap done (sym e), new)
      first_edge x p t k j edges v at column e (inr later) = IsEdge-later (x, p) edges j v later
