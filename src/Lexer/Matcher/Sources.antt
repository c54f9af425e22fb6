-- ===== src/Lexer/Matcher/Sources.antt =====
-- The inputs of Lexer/Input as what the matcher reads from, and a new matcher on one of them.
use neoast.Common.{
  ℕ, zero, suc, ◌*◌, ◌^◌, ◌≤◌, ◌<◌, ◌≡◌, refl, List, [], ◌∷◌, ◌++◌, length, take, length-set,
}
use neoast.Common.{done, ◌>>=◌, ap, sym, ◌∙◌, arith, length-take, take-append-drop}
use neoast.Lexer.Input.Laws.{pending, IsPlain, file_get-IsPlain}
use neoast.Lexer.Input.Get.{
  Input, unknown, buffer, from_file, custom, input_get, contents, input_get-buffer,
}
use neoast.Lexer.Matcher.{Matcher, const_block, matcher_new}
use neoast.Lexer.Matcher.Window.{IsReader, IsMatcher, window}

length-take_zero : (n : ℕ) (xs : List ℕ) → 0 < n → length (take n xs) ≡ 0 → xs ≡ []
length-take_zero zero xs some_room e = absurd (omega arith)
length-take_zero (suc n) [] some_room e = refl
length-take_zero (suc n) (x ∷ xs) some_room e = absurd (omega arith)

module _ {E : Type 0} (get : E → ℕ → List ℕ × E) where
  -- What a buffer or a plain file still has to deliver.
  abbrev pub source : Input E → List ℕ
  source unknown = []
  source (buffer b) = contents get b
  source (from_file h) = pending h
  source (custom e) = []

  abbrev pub IsSource : Input E → Type 0
  IsSource unknown = ⊥
  IsSource (buffer b) = b.size ≤ length b.cstring
  IsSource (from_file h) = IsPlain h
  IsSource (custom e) = ⊥

  pub source-IsReader : IsReader get source IsSource
  unfolding input_get
  source-IsReader = record { reads = λ in_ n ok. reads_source in_ n ok }
    where
      reads_source :
          (in_ : Input E) (n : ℕ)
          → IsSource in_
          → (bytes : List ℕ) × (next : Input E) × (input_get get in_ n ≡ done (bytes, next))
            × (source in_ ≡ bytes ++ source next)
            × (length bytes ≤ n)
            × (0 < n → length bytes ≡ 0 → source in_ ≡ [])
            × IsSource next
      reads_source unknown n ok = absurd ok
      reads_source (custom e) n ok = absurd ok
      reads_source (buffer b) n ok =
          let (b', e, left, ok') = input_get-buffer get b n ok in
          (
            take n (contents get b),
            buffer b',
            e,
            sym (take-append-drop n (contents get b))
                ∙ ap (λ t. take n (contents get b) ++ t) (sym left),
            length-take n (contents get b),
            λ some_room. length-take_zero n (contents get b) some_room,
            ok',
          )
      reads_source (from_file h) n ok =
          let (h', e, left, ok') = file_get-IsPlain h n ok in
          (
            take n (pending h),
            from_file h',
            ap (λ o. o >>= λ got. done (got.0, from_file (got.1))) e,
            sym (take-append-drop n (pending h)) ∙ ap (λ t. take n (pending h) ++ t) (sym left),
            length-take n (pending h),
            λ some_room. length-take_zero n (pending h) some_room,
            ok',
          )

module _ {E : Type 0} (left : Input E → List ℕ) (IsOpen : Input E → Type 0) where
  -- On memory of the size that is allocated, and an open input shorter than 2⁶⁰ bytes, a new matcher is
  -- well formed, and its buffer stands for the whole input.
  pub matcher_new-IsMatcher :
      (memory stack_memory : List ℕ) (fresh : Matcher E) (in_ : Input E)
      → length memory ≡ 2 * const_block
      → IsOpen in_
      → length (left in_) ≤ 2 ^ 60
      → IsMatcher left IsOpen (matcher_new memory stack_memory fresh in_)
        × (window left IsOpen (matcher_new memory stack_memory fresh in_) ≡ left in_)
  unfolding matcher_new
  matcher_new-IsMatcher memory stack_memory fresh in_ size opened short = (
    record {
      allocated = length-set memory 0 0 ∙ size;
      room = omega arith;
      small = omega arith;
      from_text = omega arith;
      read_text = omega arith;
      indent_text = omega arith;
      within = omega arith;
      reached = omega arith;
      margin = omega arith;
      counted = omega arith;
      unblocked = refl;
      plain_text = refl;
      ended = λ e. cc;
      short = short;
      open_input = opened;
    },
    refl,
  )
