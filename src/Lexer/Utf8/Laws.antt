-- ===== src/Lexer/Utf8/Laws.antt =====
-- The bytes that `utf8` writes can be read back, whatever follows them.
use neoast.Common.{
  ℕ, zero, suc, ◌+◌, ◌-◌, ◌*◌, ◌/◌, ◌%◌, ◌≤◌, ◌<◌, ◌≡◌, List, [], ◌∷◌, ◌++◌, pos, ltb, leb,
}
use neoast.Common.{
  Option, none, some, if◌then◌else◌, ◌&&◌, arith, ap, ◌∙◌, inl, inr, lt_or_le, bit_and, bit_or,
}
use neoast.Common.{
  bit_and-7, bit_and-15, bit_and-31, bit_and-63, bit_or-128, bit_or-192, bit_or-224, bit_or-240,
}
use neoast.Lexer.Utf8.{tail_byte, head_bytes, lead_bytes, utf8}

-- The continuation bytes of a character, so many of them, after the bits so far.
unfoldable pub decode_tail : ℕ → ℕ → List ℕ → Option (ℕ × List ℕ)
decode_tail zero bits bytes = some (bits, bytes)
decode_tail (suc left) bits [] = none
decode_tail (suc left) bits (b ∷ bytes) =
    let rest = decode_tail left (bits * 64 + (b - 0x80)) bytes in
    if leb 0x80 b && ltb b 0xC0 then rest else none

-- One character of UTF-8 by the standard's table of first bytes, and what follows it.
unfoldable pub decode : List ℕ → Option (ℕ × List ℕ)
unfolding decode_tail
decode [] = none
decode (b ∷ bytes) =
    if ltb b 0x80
    then some (b, bytes)
    else if ltb b 0xC0
    then none
    else if ltb b 0xE0
    then decode_tail 1 (b - 0xC0) bytes
    else if ltb b 0xF0
    then decode_tail 2 (b - 0xE0) bytes
    else if ltb b 0xF8
    then decode_tail 3 (b - 0xF0) bytes
    else none

tail_byte_lem : (x : ℕ) → tail_byte x ≡ 128 + x % 64
tail_byte_lem x = ap (bit_or 0x80) (bit_and-63 x) ∙ bit_or-128 (x % 64) (omega arith)

lead_two : (x : ℕ) → x < 32 → bit_or 0xC0 (bit_and x 0x1F) ≡ 192 + x
lead_two x small = ap (bit_or 0xC0) (bit_and-31 x ∙ omega arith) ∙ bit_or-192 x small

lead_three : (x : ℕ) → x < 16 → bit_or 0xE0 (bit_and x 0x0F) ≡ 224 + x
lead_three x small = ap (bit_or 0xE0) (bit_and-15 x ∙ omega arith) ∙ bit_or-224 x small

lead_four : (x : ℕ) → x < 8 → bit_or 0xF0 (bit_and x 0x07) ≡ 240 + x
lead_four x small = ap (bit_or 0xF0) (bit_and-7 x ∙ omega arith) ∙ bit_or-240 x small

decode_tail-step :
    (left bits x : ℕ) (bytes : List ℕ)
    → decode_tail (suc left) bits (tail_byte x ∷ bytes)
      ≡ decode_tail left (bits * 64 + x % 64) bytes
unfolding decode_tail
decode_tail-step left bits x bytes =
    let exact : 128 + x % 64 - 128 ≡ x % 64 = omega arith in
    rw (tail_byte_lem x, exact) (ground arith)

decode-two :
    (x y : ℕ) (bytes : List ℕ)
    → x < 32
    → decode ((192 + x) ∷ tail_byte y ∷ bytes) ≡ some (x * 64 + y % 64, bytes)
unfolding decode
decode-two x y bytes small =
    let exact : 192 + x - 192 ≡ x = omega arith in
    rw exact (ground (arith, decode_tail-step 0 x y bytes))

decode-three :
    (x y z : ℕ) (bytes : List ℕ)
    → x < 16
    → decode ((224 + x) ∷ tail_byte y ∷ tail_byte z ∷ bytes)
      ≡ some ((x * 64 + y % 64) * 64 + z % 64, bytes)
unfolding decode
decode-three x y z bytes small =
    let exact : 224 + x - 224 ≡ x = omega arith in
    rw exact (
      ground (
        arith,
        decode_tail-step 1 x y (tail_byte z ∷ bytes),
        decode_tail-step 0 (x * 64 + y % 64) z bytes,
      ))

decode-four :
    (w x y z : ℕ) (bytes : List ℕ)
    → w < 8
    → decode ((240 + w) ∷ tail_byte x ∷ tail_byte y ∷ tail_byte z ∷ bytes)
      ≡ some (((w * 64 + x % 64) * 64 + y % 64) * 64 + z % 64, bytes)
unfolding decode
decode-four w x y z bytes small =
    let exact : 240 + w - 240 ≡ w = omega arith in
    rw exact (
      ground (
        arith,
        decode_tail-step 2 w x (tail_byte y ∷ tail_byte z ∷ bytes),
        decode_tail-step 1 (w * 64 + x % 64) y (tail_byte z ∷ bytes),
        decode_tail-step 0 ((w * 64 + x % 64) * 64 + y % 64) z bytes,
      ))

pub utf8-two : (c : ℕ) → 128 ≤ c → c < 2048 → utf8 (pos c) ≡ (192 + c / 64) ∷ tail_byte c ∷ []
unfolding utf8 lead_bytes
utf8-two c least most = ground (arith, lead_two (c / 64) (omega arith))

pub utf8-three :
    (c : ℕ)
    → 2048 ≤ c
    → c < 65536
    → utf8 (pos c) ≡ (224 + c / 4096) ∷ tail_byte (c / 64) ∷ tail_byte c ∷ []
unfolding utf8 lead_bytes head_bytes
utf8-three c least most = ground (arith, lead_three (c / 4096) (omega arith))

pub utf8-four :
    (c : ℕ)
    → 65536 ≤ c
    → c ≤ 0x10FFFF
    → utf8 (pos c)
      ≡ (240 + c / 262144) ∷ tail_byte (c / 4096) ∷ tail_byte (c / 64) ∷ tail_byte c ∷ []
unfolding utf8 lead_bytes head_bytes
utf8-four c least most = ground (arith, lead_four (c / 262144) (omega arith))

-- A character in the range of Unicode is written in UTF-8: the bytes of `utf8`, whatever follows
-- them, decode to the character and what follows.
pub decode-utf8 :
    (c : ℕ) (bytes : List ℕ) → c ≤ 0x10FFFF → decode (utf8 (pos c) ++ bytes) ≡ some (c, bytes)
unfolding decode utf8
decode-utf8 c bytes range = elim (lt_or_le c 128) [
  | inl one ↦ ground arith
  | inr more ↦ elim (lt_or_le c 2048) [
    | inl two ↦
        rw (utf8-two c more two)
          (decode-two (c / 64) c bytes (omega arith) ∙ ap (λ d. some (d, bytes)) (omega arith))
    | inr wide ↦ elim (lt_or_le c 65536) [
      | inl three ↦ rw (utf8-three c wide three) (
          decode-three (c / 4096) (c / 64) c bytes (omega arith)
          ∙ ap (λ d. some (d, bytes)) (omega arith))
      | inr four ↦ rw (utf8-four c four range) (
          decode-four (c / 262144) (c / 4096) (c / 64) c bytes (omega arith)
          ∙ ap (λ d. some (d, bytes)) (omega arith))
    ]
  ]
]
