-- ===== src/Lexer/Vector/Laws.antt =====
-- Vectors of items of at most eight bytes: no copy passes the end of the allocation.
use neoast.Common.{
  ℕ, suc, ◌+◌, ◌-◌, ◌*◌, ◌%◌, ◌^◌, ◌≤◌, ◌<◌, ◌≡◌, refl, [], ◌∷◌, ◌++◌, length, take, replicate,
}
use neoast.Common.{
  length-replicate, length-take, ltb→lt, if◌then◌else◌, ltb, leb, done, fault, bounds, arith,
  length-append, Bool-cases, inl, inr, ap, ◌∙◌,
}
use neoast.Lexer.Vector.{
  Vector, size, init, grow, push_back, resize, sizeof_size, make_room, append_item, fill_items,
}

-- The items fit the capacity, and the capacity fits the allocation.
pub record IsValid {A : Type 0} (v : Vector A) : Type 0 where
  pub small : v.item_len ≤ sizeof_size
  pub some_room : 0 < v.s
  pub within : size v ≤ v.s
  pub allocated : v.s * v.item_len ≤ v.bytes

fits_eight : (k len : ℕ) → len ≤ 8 → k < 2 ^ 60 → k * len ≤ 8 * k % 2 ^ 64
fits_eight k len small fits =
    let exact : 8 * k % 2 ^ 64 ≡ 8 * k = omega arith in rw exact (grind arith)

fits_below : (n s len bytes : ℕ) → n ≤ s → s * len ≤ bytes → n * len ≤ bytes
fits_below n s len bytes le fits = grind arith

past_eight : (s len n : ℕ) → n + 1 ≡ s → 16 < len → s < 2 ^ 59 → 8 * (s * 2) % 2 ^ 64 < suc n * len
past_eight s len n e big fits =
    let exact : 8 * (s * 2) % 2 ^ 64 ≡ 16 * s = omega arith in
    let more : s * 17 ≤ s * len = grind arith in
    let as_s : suc n ≡ s = omega arith in rw (exact, as_s) (omega (arith, more, e))

module _ {A : Type 0} where
  pub init-IsValid : (item_len : ℕ) → item_len ≤ sizeof_size → IsValid {A = A} (init item_len)
  unfolding init
  init-IsValid item_len le = omega arith

  -- Growing keeps the items, reaches the size asked for, and never shrinks.
  grow_lem :
      (v : Vector A) (k : ℕ)
      → IsValid v
      → k < 2 ^ 60
      → IsValid (grow v k) × ((grow v k).items ≡ v.items) × (k ≤ (grow v k).s)
  unfolding grow
  grow_lem v k valid fits = ground (arith, fits_eight k v.item_len)

  make_room_lem :
      (v : Vector A)
      → IsValid v
      → v.s < 2 ^ 59
      → IsValid (make_room v) × ((make_room v).items ≡ v.items) × (suc (size v) ≤ (make_room v).s)
  unfolding make_room
  make_room_lem v valid fits = elim (Bool-cases (leb v.s (size v + 1))) [
    | inl full ↦
        let exact : v.s * 2 % 2 ^ 64 ≡ v.s * 2 = omega arith in
        let (ok, same, reached) = grow_lem v (v.s * 2) valid (omega arith) in
        rw (full, exact) (ok, same, omega (arith, reached, valid.some_room, valid.within))
    | inr free ↦ rw free (valid, refl, ground arith)
  ]

  append_item_lem :
      (v : Vector A) (x : A)
      → IsValid v
      → suc (size v) ≤ v.s
      → (v' : Vector A) × (append_item v x ≡ done v') × (v'.items ≡ v.items ++ x ∷ []) × IsValid v'
  append_item_lem v x valid room = (
    record v { items = v.items ++ x ∷ [] },
    ground (arith, fits_below (suc (size v)) v.s v.item_len v.bytes),
    refl,
    record {
      small = valid.small;
      some_room = valid.some_room;
      within = omega (arith, length-append v.items (x ∷ []), room);
      allocated = valid.allocated;
    },
  )

  -- A push of an item of at most eight bytes never writes past the allocation: it appends the item
  -- and keeps the vector valid.
  pub push_back_lem :
      (v : Vector A) (x : A)
      → IsValid v
      → v.s < 2 ^ 59
      → (v' : Vector A) × (push_back v x ≡ done v') × (v'.items ≡ v.items ++ x ∷ []) × IsValid v'
  unfolding push_back
  push_back_lem v x valid fits =
      let (ok, same, room) = make_room_lem v valid fits in
      let (v', e, items, valid') =
        append_item_lem (make_room v) x ok (omega (arith, room, ap length same)) in
      (v', e, items ∙ ap (λ xs. xs ++ x ∷ []) same, valid')

  fill_items_lem :
      (v : Vector A) (k : ℕ) (fill : A)
      → IsValid v
      → size v ≤ k
      → k ≤ v.s
      → (v' : Vector A) × (fill_items v k fill ≡ done v')
        × (v'.items ≡ v.items ++ replicate (k - size v) fill)
        × IsValid v'
  fill_items_lem v k fill valid more room = (
    record v { items = v.items ++ replicate (k - size v) fill },
    ground (arith, fits_below k v.s v.item_len v.bytes),
    refl,
    record {
      small = valid.small;
      some_room = valid.some_room;
      within = omega (
        arith,
        length-append v.items (replicate (k - size v) fill),
        length-replicate (k - size v) fill,
        room,
      );
      allocated = valid.allocated;
    },
  )

  -- A resize to more items fills the new ones, and a resize to fewer drops the last ones; both keep
  -- the vector valid and neither writes past the allocation.
  resize_lem :
      (v : Vector A) (k : ℕ) (fill : A)
      → IsValid v
      → k < 2 ^ 60
      → (v' : Vector A) × (resize v k fill ≡ done v')
        × (v'.items
            ≡ (if ltb (size v) k then v.items ++ replicate (k - size v) fill else take k v.items))
        × IsValid v'
  unfolding resize
  resize_lem v k fill valid fits = elim (Bool-cases (ltb (size v) k)) [
    | inl more ↦
        let (ok, same, reached) = grow_lem v k valid fits in
        let (v', e, items, valid') =
          fill_items_lem (grow v k) k fill ok
            (omega (arith, ltb→lt (size v) k more, ap length same)) reached in
        rw more (v', e, items ∙ ap (λ xs. xs ++ replicate (k - length xs) fill) same, valid')
    | inr fewer ↦ rw fewer (
      record v { items = take k v.items },
      refl,
      refl,
      record {
        small = valid.small;
        some_room = valid.some_room;
        within = ground (arith, length-take k v.items, valid.within, fewer);
        allocated = valid.allocated;
      },
    )
  ]

  -- Items of more than sixteen bytes: the first push that has to grow writes past the allocation,
  -- whose new size counts eight bytes for each.
  pub push_back-overflow :
      (v : Vector A) (x : A)
      → sizeof_size * 2 < v.item_len
      → size v + 1 ≡ v.s
      → v.s < 2 ^ 59
      → push_back v x ≡ fault bounds
  unfolding push_back make_room grow
  push_back-overflow v x big full fits =
      let exact : v.s * 2 % 2 ^ 64 ≡ v.s * 2 = omega arith in
      let past : 8 * (v.s * 2) % 2 ^ 64 < suc (size v) * v.item_len =
        past_eight v.s v.item_len (size v) full big fits in
      ground (arith, exact, past)
