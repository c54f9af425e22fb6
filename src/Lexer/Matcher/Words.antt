-- ===== src/Lexer/Matcher/Words.antt =====
-- The word anchors of include/lexer/matcher_fsm.h.
use neoast.Common.{ℕ, ◌%◌, ◌^◌, ◌<◌, ◌≡◌, refl, true, false, ◌==◌, pos, bit_or, arith}
use neoast.Common.{ap, ◌∙◌}
use neoast.Lexer.Matcher.Fsm.{isword, holds, fsm_meta_nwe}

isword-letter :
    (isalnum : ℕ → ℕ) (c : ℕ) → c < 256 → (c == b'_') ≡ false → isword isalnum (pos c) ≡ isalnum c
unfolding isword
isword-letter isalnum c small other =
    let e : c % 2 ^ 32 % 256 ≡ c = omega (arith, small) in rw (other, e) refl

isword-under : (isalnum : ℕ → ℕ) → isalnum b'_' ≡ 0 → isword isalnum (pos b'_') ≡ 1
unfolding isword
isword-under isalnum under = ap (λ n. bit_or n 1) under

-- Between a letter or a digit and an underscore `FSM_META_NWE` says that there is an edge of a word,
-- though both are word characters, where `isalnum` returns another number than 1 for the former and
-- 0 for the underscore.
pub fsm_meta_nwe-underscore :
    (isalnum : ℕ → ℕ) (c : ℕ)
    → c < 256
    → (c == b'_') ≡ false
    → 1 < isalnum c
    → isalnum b'_' ≡ 0
    → (holds (isword isalnum (pos c)) ≡ true)
      × (holds (isword isalnum (pos b'_')) ≡ true)
      × (fsm_meta_nwe isalnum (pos c) (pos b'_') ≡ false)
unfolding fsm_meta_nwe
fsm_meta_nwe-underscore isalnum c small other letter under =
    let here : isword isalnum (pos c) ≡ isalnum c = isword-letter isalnum c small other in
    let there : isword isalnum (pos b'_') ≡ 1 = isword-under isalnum under in
    (
      ap holds here ∙ ground (arith, letter),
      ap holds there,
      ap (λ n. n == isword isalnum (pos b'_')) here
          ∙ ap (λ n. isalnum c == n) there
          ∙ ground (arith, letter),
    )
