-- ===== src/Runtime/Stack.antt =====
-- The macros `NEOAST_STACK_PUSH`, `NEOAST_STACK_POP` and `NEOAST_STACK_PEEK`.
use neoast.Common.{ℕ, zero, suc, ◌+◌, ◌≡◌, List, ◌∷◌, Outcome, fault, done, bounds}
use neoast.Common.{◌>>=◌, read, write, length, ◌<◌, arith, Holds, Holds-push, set}
use neoast.Common.{length-set, write_lem, refl, subst, sym}
use neoast.Runtime.Types.{ParsingStack}

-- `data[pos++] = i`.
unfoldable pub push : ParsingStack → ℕ → Outcome ParsingStack
push s i = do cells ← write s.slots s.pos i; done (record s { pos = s.pos + 1; slots = cells })

-- `data[--pos]`. At 0 the unsigned `pos` wraps and the read is out of bounds.
pop_at : ℕ → ParsingStack → Outcome (ℕ × ParsingStack)
pop_at zero s = fault bounds
pop_at (suc p) s = do x ← read s.slots p; done (x, record s { pos = p })

unfoldable pub pop : ParsingStack → Outcome (ℕ × ParsingStack)
unfolding pop_at
pop s = pop_at s.pos s

-- `data[pos - 1]`.
peek_at : ℕ → ParsingStack → Outcome ℕ
peek_at zero s = fault bounds
peek_at (suc p) s = read s.slots p

unfoldable pub peek : ParsingStack → Outcome ℕ
unfolding peek_at
peek s = peek_at s.pos s

-- The stack holds exactly the list, its top first.
pub record IsStack (s : ParsingStack) (xs : List ℕ) : Type 0 where
  pub height : s.pos ≡ length xs
  pub cells : Holds s.slots xs

-- With room for one more, a push succeeds, puts its argument on top and keeps the allocation.
pub push_lem :
    (s : ParsingStack) (xs : List ℕ) (i : ℕ)
    → length xs < length s.slots
    → IsStack s xs
    → (t : ParsingStack) × (push s i ≡ done t)
      × IsStack t (i ∷ xs)
      × (length t.slots ≡ length s.slots)
unfolding push
push_lem s xs i room h = (
  record { pos = s.pos + 1; slots = set s.slots s.pos i },
  rw (write_lem s.slots s.pos i (rw h.height room)),
  record {
    height = omega (arith, h.height);
    cells =
        subst (λ p. Holds (set s.slots p i) (i ∷ xs)) (sym h.height)
          (Holds-push s.slots xs i room h.cells);
  },
  length-set s.slots s.pos i,
)

-- A pop returns the top and leaves the rest.
pub pop_lem :
    (s : ParsingStack) (x : ℕ) (xs : List ℕ)
    → IsStack s (x ∷ xs)
    → (t : ParsingStack) × (pop s ≡ done (x, t)) × IsStack t xs × (t.slots ≡ s.slots)
unfolding pop
pop_lem s x xs h = (
  record { pos = length xs; slots = s.slots },
  rw (h.height, h.cells.0),
  record { height = refl; cells = h.cells.1 },
  refl,
)

pub peek_lem : (s : ParsingStack) (x : ℕ) (xs : List ℕ) → IsStack s (x ∷ xs) → peek s ≡ done x
unfolding peek
peek_lem s x xs h = rw (h.height, h.cells.0)
