-- ===== src/Lexer/Vector.antt =====
-- `NeoastVector` of src/lexer/container.c. The items are a list, `n` of them; `bytes` is the size of
-- the allocation behind `ptr`, and a copy that would pass its end is a fault.
pub mod Laws
mod Tests
use neoast.Common.{
  ℕ, zero, suc, ◌+◌, ◌-◌, ◌*◌, ◌%◌, ◌^◌, List, [], ◌∷◌, ◌++◌, length, take, replicate, ltb,
}
use neoast.Common.{leb, if◌then◌else◌, Outcome, done, fault, bounds, ◌>>=◌}

pub record Vector (A : Type 0) : Type 0 where
  pub items : List A
  pub s : ℕ
  pub item_len : ℕ
  pub bytes : ℕ

-- `sizeof(size_t)`, the size of the field `item_len`.
abbrev pub sizeof_size : ℕ
sizeof_size = 8

module _ {A : Type 0} where
  abbrev pub size : Vector A → ℕ
  size v = length v.items

  -- `neoast_vector_init`.
  unfoldable pub init : ℕ → Vector A
  init item_len = record { items = []; s = 16; item_len = item_len; bytes = item_len * 16 }

  -- `neoast_vector_grow`: the allocation is `sizeof(self->item_len) * self->s`.
  unfoldable pub grow : Vector A → ℕ → Vector A
  grow v next_size =
      if ltb v.s next_size
      then record v { s = next_size; bytes = sizeof_size * next_size % 2 ^ 64 }
      else v

  -- The copy of one item behind the last.
  abbrev pub append_item : Vector A → A → Outcome (Vector A)
  append_item v x =
      if leb (suc (size v) * v.item_len) v.bytes
      then done (record v { items = v.items ++ x ∷ [] })
      else fault bounds

  -- The doubling at the start of `neoast_vector_push_back`.
  unfoldable pub make_room : Vector A → Vector A
  unfolding grow
  make_room v = if leb v.s (size v + 1) then grow v (v.s * 2 % 2 ^ 64) else v

  -- `neoast_vector_push_back`.
  unfoldable pub push_back : Vector A → A → Outcome (Vector A)
  push_back v x = append_item (make_room v) x

  -- The `memset` of the items from the old size to the new.
  abbrev pub fill_items : Vector A → ℕ → A → Outcome (Vector A)
  fill_items v next_size fill =
      if leb (next_size * v.item_len) v.bytes
      then done (record v { items = v.items ++ replicate (next_size - size v) fill })
      else fault bounds

  -- `neoast_vector_resize`, where `fill` is the item of which each byte is the given one.
  unfoldable pub resize : Vector A → ℕ → A → Outcome (Vector A)
  unfolding grow
  resize v next_size fill =
      if ltb (size v) next_size
      then fill_items (grow v next_size) next_size fill
      else done (record v { items = take next_size v.items })

  -- Any number of pushes.
  unfoldable pub push_all : Vector A → List A → Outcome (Vector A)
  push_all v [] = done v
  push_all v (x ∷ xs) = push_back v x >>= λ v'. push_all v' xs
