-- ===== src/Lexer/Input/Laws.antt =====
-- `file_get` on a file without an encoding to undo: it delivers the bytes as they are, in order.
use neoast.Common.{ℕ, suc, ◌+◌, ◌-◌, ◌≤◌, ◌<◌, ◌≡◌, List, [], ◌++◌, length, take, drop, ltb, arith}
use neoast.Common.{done, ap, sym, ◌∙◌, lt_or_le, inl, inr, ◌⊎◌, if◌then◌else◌, ◌%◌, ◌^◌}
use neoast.Common.{
  take-append_le, take-append_ge, drop-append_le, drop-append_ge, take-take, drop-take, drop-drop,
}
use neoast.Common.{length-take_le, length-drop}
use neoast.Lexer.Input.Fetch.{Encoding, plain, utf_8}
use neoast.Lexer.Input.{
  FileHandle, slice, get_rest, read_by, copy_plain, count_down, flush, file_get,
}

-- What `utf8_` holds of the input, and with it what is still to be delivered.
abbrev pub held : FileHandle → List ℕ
held h = take h.ulen (drop h.uidx h.utf8_buf)

abbrev pub pending : FileHandle → List ℕ
pending h = held h ++ h.file

-- Nothing is decoded, and the held bytes are inside of `utf8_`.
pub record IsPlain (h : FileHandle) : Type 0 where
  pub copied : (h.encoding ≡ plain) ⊎ (h.encoding ≡ utf_8)
  pub within : h.uidx + h.ulen ≤ length h.utf8_buf
  pub small : length h.utf8_buf ≤ 8

read_by-plain :
    (e : Encoding) (n : ℕ) (h : FileHandle)
    → (e ≡ plain) ⊎ (e ≡ utf_8)
    → read_by e n h ≡ done (copy_plain n h)
unfolding read_by
read_by-plain e n h (inl is) = rw is
read_by-plain e n h (inr is) = rw is

length-held : (h : FileHandle) → IsPlain h → length (held h) ≡ h.ulen
length-held h ok =
    length-take_le h.ulen (drop h.uidx h.utf8_buf)
      (omega (arith, length-drop h.uidx h.utf8_buf, ok.within))

pub slice_lem :
    (cells : List ℕ) (i k : ℕ)
    → i + k ≤ length cells
    → slice cells i k ≡ done (take k (drop i cells))
unfolding slice
slice_lem cells i k fits = ground arith

module _ (flushed : List ℕ) (n : ℕ) (h : FileHandle) where
  -- The handle after a copy of `n` bytes.
  abbrev copied_to : FileHandle
  copied_to = record h {
    file = drop n h.file;
    size = count_down (length flushed + length (take n h.file)) h.size;
  }

  get_rest-plain : IsPlain h → get_rest flushed n h ≡ done (flushed ++ take n h.file, copied_to)
  unfolding get_rest copy_plain
  get_rest-plain ok = rw (read_by-plain h.encoding n h ok.copied)

-- Part of what is held fills the request.
part_lem :
    (h : FileHandle) (n : ℕ)
    → IsPlain h
    → n ≤ h.ulen
    → (take n (drop h.uidx h.utf8_buf) ≡ take n (pending h))
      × (take (h.ulen - n) (drop (h.uidx + n) h.utf8_buf) ++ h.file ≡ drop n (pending h))
part_lem h n ok part =
    let inside : n ≤ length (held h) = omega (arith, length-held h ok, part) in
    (
      sym (
          take-append_le n (held h) h.file inside
          ∙ take-take n h.ulen (drop h.uidx h.utf8_buf) part),
      sym (
          drop-append_le n (held h) h.file inside
          ∙ ap (λ t. t ++ h.file)
              (drop-take n h.ulen (drop h.uidx h.utf8_buf)
                ∙ ap (λ t. take (h.ulen - n) t) (drop-drop n h.uidx h.utf8_buf))),
    )

-- The held bytes, and more of the file.
whole_lem :
    (h : FileHandle) (n : ℕ)
    → IsPlain h
    → h.ulen ≤ n
    → (held h ++ take (n - h.ulen) h.file ≡ take n (pending h))
      × (drop (n - h.ulen) h.file ≡ drop n (pending h))
whole_lem h n ok all =
    let exact : length (held h) ≡ h.ulen = length-held h ok in
    let inside : length (held h) ≤ n = omega (arith, exact, all) in
    (
      sym (take-append_ge n (held h) h.file inside ∙ ap (λ k. held h ++ take (n - k) h.file) exact),
      sym (drop-append_ge n (held h) h.file inside ∙ ap (λ k. drop (n - k) h.file) exact),
    )

pub least_part : (n u : ℕ) → n ≤ u → (if ltb n u then n else u) ≡ n
least_part n u part = ground arith

least_whole : (n u : ℕ) → u < n → (if ltb n u then n else u) ≡ u
least_whole n u all = ground arith

module _ (h : FileHandle) (n : ℕ) where
  -- The handle after `n` held bytes went.
  abbrev advanced : FileHandle
  advanced = record h {
    uidx = (h.uidx + n) % 2 ^ 16;
    ulen = h.ulen - n;
    size = count_down n h.size;
  }

  file_get-part :
      IsPlain h
      → 0 < h.ulen
      → n ≤ h.ulen
      → file_get h n ≡ done (take n (drop h.uidx h.utf8_buf), advanced)
  unfolding file_get flush
  file_get-part ok some_held part =
      let none_left : n - n ≡ 0 = omega arith in
      rw
        (
          least_part n h.ulen part,
          slice_lem h.utf8_buf h.uidx n (omega (arith, ok.within, part)),
          none_left,
        )
        (ground arith)

  abbrev emptied : FileHandle
  emptied = record h { uidx = (h.uidx + h.ulen) % 2 ^ 16; ulen = 0 }

  file_get-whole :
      IsPlain h → 0 < h.ulen → h.ulen < n → file_get h n ≡ get_rest (held h) (n - h.ulen) emptied
  unfolding file_get flush
  file_get-whole ok some_held all =
      rw (least_whole n h.ulen all, slice_lem h.utf8_buf h.uidx h.ulen ok.within) (ground arith)

  pub file_get-none : h.ulen ≡ 0 → file_get h n ≡ get_rest [] n h
  unfolding file_get
  file_get-none none_held = rw none_held

-- A plain file is delivered as it is: each call returns the next `n` bytes of what is pending, or all
-- if there are fewer, and leaves the others pending.
pub file_get-IsPlain :
    (h : FileHandle) (n : ℕ)
    → IsPlain h
    → (h' : FileHandle) × (file_get h n ≡ done (take n (pending h), h'))
      × (pending h' ≡ drop n (pending h))
      × IsPlain h'
file_get-IsPlain h n ok = elim (lt_or_le 0 h.ulen) [
  | inl some_held ↦ elim (lt_or_le n (suc h.ulen)) [
    | inl part ↦
        let (given, left) = part_lem h n ok (omega arith) in
        let exact : (h.uidx + n) % 2 ^ 16 ≡ h.uidx + n = omega (arith, ok.within, ok.small, part) in
        (
          advanced h n,
          file_get-part h n ok some_held (omega arith) ∙ ap (λ t. done (t, advanced h n)) given,
          ap (λ i. take (h.ulen - n) (drop i h.utf8_buf) ++ h.file) exact ∙ left,
          record {
            copied = ok.copied;
            within = omega (arith, exact, ok.within, part);
            small = ok.small;
          },
        )
    | inr all ↦
        let (given, left) = whole_lem h n ok (omega arith) in
        let after = copied_to (held h) (n - h.ulen) (emptied h n) in
        let plain_rest : IsPlain (emptied h n) = record {
          copied = ok.copied;
          within = omega (arith, ok.within, ok.small);
          small = ok.small;
        } in
        (
          after,
          file_get-whole h n ok some_held (omega arith)
              ∙ get_rest-plain (held h) (n - h.ulen) (emptied h n) plain_rest
              ∙ ap (λ t. done (t, after)) given,
          left,
          record { copied = ok.copied; within = plain_rest.within; small = ok.small },
        )
  ]
  | inr none ↦
      let none_held : h.ulen ≡ 0 = omega arith in
      let rest : pending h ≡ h.file =
        ap (λ k. take k (drop h.uidx h.utf8_buf) ++ h.file) none_held in
      let after = copied_to [] n h in
      (
        after,
        file_get-none h n none_held
            ∙ get_rest-plain [] n h ok
            ∙ ap (λ t. done (take n t, after)) (sym rest),
        ap (λ k. take k (drop h.uidx h.utf8_buf) ++ drop n h.file) none_held
            ∙ ap (λ t. drop n t) (sym rest),
        record { copied = ok.copied; within = ok.within; small = ok.small },
      )
]
