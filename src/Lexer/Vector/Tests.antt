-- ===== src/Lexer/Vector/Tests.antt =====
-- Vectors of items of eight bytes and of 24.
use neoast.Common.{ℕ, ◌≡◌, refl, [], ◌∷◌, ◌++◌, replicate, done, fault, bounds, arith}
use neoast.Lexer.Vector.{Vector, push_back, make_room}
use neoast.Lexer.Vector.Laws.{IsValid, push_back_lem, push_back-overflow}

-- Eight tab stops in a vector of `size_t`, full up to the growth.
abbrev stops : Vector ℕ
stops = record { items = replicate 15 4; s = 16; item_len = 8; bytes = 128 }

stops-IsValid : IsValid stops
stops-IsValid = omega arith

-- The push that makes the vector grow.
grows :
    push_back stops 9
    ≡ done (record { items = replicate 15 4 ++ 9 ∷ []; s = 32; item_len = 8; bytes = 256 })
unfolding push_back make_room
grows = refl

-- The same with items of 24 bytes.
abbrev wide : Vector ℕ
wide = record { items = replicate 15 4; s = 16; item_len = 24; bytes = 384 }

push_back_lem_example :
    (v' : Vector ℕ) × (push_back stops 9 ≡ done v')
    × (v'.items ≡ replicate 15 4 ++ 9 ∷ [])
    × IsValid v'
push_back_lem_example = push_back_lem stops 9 stops-IsValid (omega arith)

push_back-overflow_example : push_back wide 9 ≡ fault bounds
push_back-overflow_example = push_back-overflow wide 9 (omega arith) refl (omega arith)
