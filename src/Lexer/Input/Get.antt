-- ===== src/Lexer/Input/Get.antt =====
-- `NeoastInput` and `input_get` of src/lexer/input.c. The callback of a custom input is a parameter,
-- over a state of its own.
use neoast.Common.{
  ℕ, ◌+◌, ◌-◌, ◌≤◌, ◌≡◌, refl, List, [], ◌∷◌, ◌++◌, length, take, drop, ltb, arith, ap, sym, ◌∙◌,
}
use neoast.Common.{lt_or_le, inl, inr, if◌then◌else◌, Outcome, done, fault, assertion, ◌>>=◌}
use neoast.Common.{drop-take, drop-drop, take-take, take-take_ge, take-sum, length-drop}
use neoast.Lexer.Input.{FileHandle, slice, file_get}
use neoast.Lexer.Input.Laws.{slice_lem, least_part}

-- `cstring` is the memory from the pointer `cstring_` on.
pub record BufferHandle : Type 0 where
  pub cstring : List ℕ
  pub size : ℕ

pub data Input (E : Type 0) : Type 0 where
  unknown : Input E
  buffer : BufferHandle → Input E
  from_file : FileHandle → Input E
  custom : E → Input E

-- `input_new_from_buffer`.
unfoldable pub new_from_buffer : {E : Type 0} → List ℕ → ℕ → Input E
new_from_buffer str len = buffer (record { cstring = str; size = len })

unfoldable pub sum : List ℕ → ℕ
sum [] = 0
sum (n ∷ ns) = n + sum ns

least_all : (n u : ℕ) → u ≤ n → (if ltb n u then n else u) ≡ u
least_all n u all = ground arith

module _ {E : Type 0} (get : E → ℕ → List ℕ × E) where
  unfoldable pub input_get : Input E → ℕ → Outcome (List ℕ × Input E)
  input_get unknown n = fault assertion
  input_get (buffer b) n =
      let k = if ltb n b.size then n else b.size in
      slice b.cstring 0 k >>= λ bytes.
      done (bytes, buffer (record { cstring = drop k b.cstring; size = b.size - k }))
  input_get (from_file h) n = file_get h n >>= λ got. done (got.0, from_file (got.1))
  input_get (custom e) n = let (bytes, e') = get e n in done (bytes, custom e')

  -- A run of requests, and all that they return.
  unfoldable pub get_chunks : Input E → List ℕ → Outcome (List ℕ × Input E)
  get_chunks input [] = done ([], input)
  get_chunks input (n ∷ ns) =
      input_get input n >>= λ got. get_chunks (got.1) ns >>= λ rest. done (got.0 ++ rest.0, rest.1)

  abbrev pub contents : BufferHandle → List ℕ
  contents b = take b.size b.cstring

  none_left :
      (b : BufferHandle) (n : ℕ)
      → b.size ≤ n
      → take (b.size - b.size) (drop b.size b.cstring) ≡ drop n (contents b)
  none_left b n all =
      let e₁ : b.size - b.size ≡ 0 = omega arith in
      let e₂ : 0 ≡ b.size - n = omega arith in
      ap (λ k. take k (drop b.size b.cstring)) e₁
      ∙ ap (λ k. take k (drop n b.cstring)) e₂
      ∙ sym (drop-take n b.size b.cstring)

  pub input_get-buffer :
      (b : BufferHandle) (n : ℕ)
      → b.size ≤ length b.cstring
      → (b' : BufferHandle) × (input_get (buffer b) n ≡ done (take n (contents b), buffer b'))
        × (contents b' ≡ drop n (contents b))
        × (b'.size ≤ length b'.cstring)
  unfolding input_get
  input_get-buffer b n inside = elim (lt_or_le n b.size) [
    | inl less ↦ (
      record { cstring = drop n b.cstring; size = b.size - n },
      rw (least_part n b.size (omega arith), slice_lem b.cstring 0 n (omega (arith, inside)))
          (ap (λ t. done (t, buffer (record { cstring = drop n b.cstring; size = b.size - n })))
            (sym (take-take n b.size b.cstring (omega arith)))),
      sym (drop-take n b.size b.cstring),
      omega (arith, length-drop n b.cstring, inside),
    )
    | inr all ↦ (
      record { cstring = drop b.size b.cstring; size = b.size - b.size },
      rw (least_all n b.size all, slice_lem b.cstring 0 b.size (omega (arith, inside)))
          (ap
            (λ t.
              done (t, buffer (record { cstring = drop b.size b.cstring; size = b.size - b.size })))
            (sym (take-take_ge n b.size b.cstring all))),
      none_left b n all,
      omega arith,
    )
  ]

  -- A buffer that is no longer than its memory is delivered in order, whatever the sizes of the
  -- requests, and no request reads past its end.
  pub get_chunks-buffer :
      (b : BufferHandle) (ns : List ℕ)
      → b.size ≤ length b.cstring
      → (b' : BufferHandle) × (get_chunks (buffer b) ns
          ≡ done (take (sum ns) (contents b), buffer b'))
        × (contents b' ≡ drop (sum ns) (contents b))
  unfolding get_chunks sum
  get_chunks-buffer b [] inside = (b, refl, refl)
  get_chunks-buffer b (n ∷ ns) inside =
      let (b₁, e₁, left₁, inside₁) = input_get-buffer b n inside in
      let (b₂, e₂, left₂) = get_chunks-buffer b₁ ns inside₁ in
      (
        b₂,
        rw (e₁, e₂)
            (ap (λ t. done (t, buffer b₂))
              (ap (λ t. take n (contents b) ++ take (sum ns) t) left₁
                ∙ sym (take-sum n (sum ns) (contents b)))),
        left₂ ∙ ap (λ t. drop (sum ns) t) left₁ ∙ drop-drop (sum ns) n (contents b),
      )
