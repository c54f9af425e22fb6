-- ===== src/Parsergen/Cores.antt =====
-- `lalr_equal` compares sets of cores.
use neoast.Common.{
  suc, ◌≤◌, ◌≡◌, refl, ap, ap₂, sym, ◌∙◌, List, [], ◌∷◌, ◌++◌, length, Bool, true, false, not, ◌==◌,
  ◌||◌, ◌&&◌, inl, inr, arith, ◌↔◌,
}
use neoast.Common.{if◌then◌else◌, done, Bool-cases, &&-elim, ==_iff}
use neoast.Parsergen.Items.{Item, eqb_core}
use neoast.Parsergen.Collection.{any_item, build_cores, cores_within, lalr_equal}

-- Whether an item of the same core is there.
abbrev pub has_core : Item → List Item → Bool
has_core x xs = any_item (eqb_core x) xs

abbrev pub distinct_cores : List Item → Bool
distinct_cores [] = true
distinct_cores (x ∷ xs) = not (has_core x xs) && distinct_cores xs

eqb_core_refl : (x : Item) → eqb_core x x ≡ true
eqb_core_refl x = ground arith

eqb_core_left : (x y z : Item) → eqb_core x y ≡ true → eqb_core x z ≡ eqb_core y z
eqb_core_left x y z h =
    let (rule, dot) = &&-elim (x.derivation == y.derivation) (x.i == y.i) h in
    ground (arith, (==_iff x.derivation y.derivation).0 rule, (==_iff x.i y.i).0 dot)

eqb_core_sym : (x y : Item) → eqb_core x y ≡ true → eqb_core y x ≡ true
eqb_core_sym x y h = sym (eqb_core_left x y x h) ∙ eqb_core_refl x

has_core_same : (x y : Item) (xs : List Item) → eqb_core x y ≡ true → has_core x xs ≡ has_core y xs
has_core_same x y [] h = refl
has_core_same x y (z ∷ zs) h = ap₂ (λ a b. a || b) (eqb_core_left x y z h) (has_core_same x y zs h)

has_core-append :
    (x : Item) (xs ys : List Item) → has_core x (xs ++ ys) ≡ (has_core x xs || has_core x ys)
has_core-append x [] ys = refl
has_core-append x (z ∷ zs) ys =
    ap (λ b. eqb_core x z || b) (has_core-append x zs ys)
    ∙ assoc (eqb_core x z) (has_core x zs) (has_core x ys)
  where
    assoc : (a b c : Bool) → (a || (b || c)) ≡ ((a || b) || c)
    assoc a b c = ground arith

remove : Item → List Item → List Item
remove x [] = []
remove x (y ∷ ys) = if eqb_core x y then ys else y ∷ remove x ys

length-remove :
    (x : Item) (xs : List Item) → has_core x xs ≡ true → suc (length (remove x xs)) ≡ length xs
unfolding remove
length-remove x [] h = cc
length-remove x (y ∷ ys) h = elim (Bool-cases (eqb_core x y)) [
  | inl same ↦ rw same refl
  | inr other ↦
      let rest = length-remove x ys (ap (λ b. b || has_core x ys) (sym other) ∙ h) in
      rw other (ap suc rest)
]

has_core-remove :
    (z x : Item) (xs : List Item)
    → eqb_core z x ≡ false
    → has_core z xs ≡ true
    → has_core z (remove x xs) ≡ true
unfolding remove
has_core-remove z x [] ne h = h
has_core-remove z x (y ∷ ys) ne h = elim (Bool-cases (eqb_core x y)) [
  | inl same ↦
      let away : eqb_core z y ≡ false = ne_left same in
      rw same (ap (λ b. b || has_core z ys) (sym away) ∙ h)
  | inr other ↦ elim (Bool-cases (eqb_core z y)) [
    | inl here ↦ rw (other, here) refl
    | inr later ↦
        let rest = has_core-remove z x ys ne (ap (λ b. b || has_core z ys) (sym later) ∙ h) in
        rw (other, later) rest
  ]
]
  where
    clash : true ≡ false → ⊥
    clash e = cc

    ne_left : eqb_core x y ≡ true → eqb_core z y ≡ false
    ne_left same = elim (Bool-cases (eqb_core z y)) [
      | inr no_z ↦ no_z
      | inl z_y ↦
          absurd
            (clash (sym (eqb_core_sym x z (eqb_core_left x y z same ∙ eqb_core_sym z y z_y)) ∙ ne))
    ]

-- Distinct cores that are all in another list are no more than its items.
length-within :
    (xs ys : List Item)
    → distinct_cores xs ≡ true
    → ((z : Item) → has_core z xs ≡ true → has_core z ys ≡ true)
    → length xs ≤ length ys
length-within [] ys distinct within = omega arith
length-within (x ∷ xs) ys distinct within =
    let (new, others) = &&-elim (not (has_core x xs)) (distinct_cores xs) distinct in
    let here : has_core x ys ≡ true =
      within x (or_left (eqb_core x x) (has_core x xs) (eqb_core_refl x)) in
    let rest = length-within xs (remove x ys) others (λ z h.
      has_core-remove z x ys (apart z h new)
        (within z (or_right (eqb_core z x) (has_core z xs) h))) in
    omega (arith, rest, length-remove x ys here)
  where
    or_left : (a b : Bool) → a ≡ true → (a || b) ≡ true
    or_left a b h = ground arith

    or_right : (a b : Bool) → b ≡ true → (a || b) ≡ true
    or_right a b h = ground arith

    not_both : (b : Bool) → b ≡ true → not b ≡ true → ⊥
    not_both true h k = cc
    not_both false h k = cc

    apart : (z : Item) → has_core z xs ≡ true → not (has_core x xs) ≡ true → eqb_core z x ≡ false
    apart z h new = elim (Bool-cases (eqb_core z x)) [
      | inr other ↦ other
      | inl same ↦ absurd (not_both (has_core x xs) (sym (has_core_same z x xs same) ∙ h) new)
    ]

build_cores_lem :
    (xs build : List Item)
    → distinct_cores xs ≡ true
    → ((z : Item) → has_core z build ≡ true → has_core z xs ≡ false)
    → (build' : List Item) × (build_cores xs build ≡ done build')
      × ((z : Item) → has_core z build' ≡ (has_core z build || has_core z xs))
unfolding build_cores
build_cores_lem [] build distinct apart = (build, refl, λ z. or_false (has_core z build))
  where
    or_false : (a : Bool) → a ≡ (a || false)
    or_false a = ground arith
build_cores_lem (x ∷ xs) build distinct apart =
    let (new, others) = &&-elim (not (has_core x xs)) (distinct_cores xs) distinct in
    let fresh : has_core x build ≡ false = absent (apart x) in
    let (build', ran, has) = build_cores_lem xs (build ++ x ∷ []) others (λ z h. step z new h) in
    (
      build',
      rw fresh ran,
      λ z.
          has z
          ∙ ap (λ b. b || has_core z xs) (has_core-append z build (x ∷ []))
          ∙ assoc (has_core z build) (eqb_core z x) (has_core z xs),
    )
  where
    assoc : (a b c : Bool) → ((a || (b || false)) || c) ≡ (a || (b || c))
    assoc a b c = ground arith

    clash : false ≡ true → ⊥
    clash e = cc

    absent : (has_core x build ≡ true → has_core x (x ∷ xs) ≡ false) → has_core x build ≡ false
    absent h = elim (Bool-cases (has_core x build)) [
      | inr fresh ↦ fresh
      | inl old ↦ absurd (clash (sym (h old) ∙ ap (λ b. b || has_core x xs) (eqb_core_refl x)))
    ]

    not_true : (b : Bool) → not b ≡ true → b ≡ false
    not_true b h = ground arith

    or_false_right : (a b : Bool) → (a || b) ≡ false → b ≡ false
    or_false_right a b h = ground arith

    drop_last : (a b : Bool) → b ≡ false → (a || (b || false)) ≡ true → a ≡ true
    drop_last a b e h = ground arith

    step :
        (z : Item)
        → not (has_core x xs) ≡ true
        → has_core z (build ++ x ∷ []) ≡ true
        → has_core z xs ≡ false
    step z new h = elim (Bool-cases (eqb_core z x)) [
      | inl same ↦ has_core_same z x xs same ∙ not_true (has_core x xs) new
      | inr other ↦ or_false_right (eqb_core z x) (has_core z xs) (
          apart z (
            drop_last (has_core z build) (eqb_core z x) other
              (sym (has_core-append z build (x ∷ [])) ∙ h)))
    ]

cores_within_lem :
    (xs build : List Item)
    → cores_within xs build ≡ true
    → (z : Item) → has_core z xs ≡ true
    → has_core z build ≡ true
unfolding cores_within
cores_within_lem [] build h z there = cc
cores_within_lem (x ∷ xs) build h z there = elim (Bool-cases (has_core x build)) [
  | inr missing ↦ absurd (ground (arith, h, missing))
  | inl here ↦ elim (Bool-cases (eqb_core z x)) [
    | inl same ↦ has_core_same z x build same ∙ here
    | inr other ↦
        cores_within_lem xs build (ground (arith, h, here)) z
          (ap (λ b. b || has_core z xs) (sym other) ∙ there)
  ]
]

within-cores_within :
    (xs build : List Item)
    → ((z : Item) → has_core z xs ≡ true → has_core z build ≡ true)
    → cores_within xs build ≡ true
unfolding cores_within
within-cores_within [] build h = refl
within-cores_within (x ∷ xs) build h =
    let here : has_core x build ≡ true =
      h x (or_left (eqb_core x x) (has_core x xs) (eqb_core_refl x)) in
    let rest : cores_within xs build ≡ true =
      within-cores_within xs build
        (λ z there. h z (or_right (eqb_core z x) (has_core z xs) there)) in
    rw (here, rest) refl
  where
    or_left : (a b : Bool) → a ≡ true → (a || b) ≡ true
    or_left a b h = ground arith

    or_right : (a b : Bool) → b ≡ true → (a || b) ≡ true
    or_right a b h = ground arith

-- As many items with distinct cores that are all in the other list leave none of its cores out.
no_others :
    (a b : List Item)
    → distinct_cores b ≡ true
    → length a ≡ length b
    → ((z : Item) → has_core z b ≡ true → has_core z a ≡ true)
    → (x : Item) → has_core x a ≡ has_core x b
no_others a b distinct long within x = elim (Bool-cases (has_core x b)) [
  | inl there ↦ within x there ∙ sym there
  | inr missing ↦ elim (Bool-cases (has_core x a)) [
    | inr neither ↦ neither ∙ sym missing
    | inl only_a ↦
        let more = length-within (x ∷ b) a (both (has_core x b) missing distinct) (λ z h.
          elim (Bool-cases (eqb_core z x)) [
            | inl same ↦ has_core_same z x a same ∙ only_a
            | inr other ↦ within z (ap (λ t. t || has_core z b) (sym other) ∙ h)
          ]) in
        absurd (omega (arith, more, long))
  ]
]
  where
    both : (t : Bool) {d : Bool} → t ≡ false → d ≡ true → (not t && d) ≡ true
    both t e h = ground arith

-- Of two sets of items, each with distinct cores, `lalr_equal` says without a fault whether they have
-- the same cores.
pub lalr_equal_same :
    (a b : List Item)
    → distinct_cores a ≡ true
    → distinct_cores b ≡ true
    → (r : Bool) × (lalr_equal a b ≡ done r)
      × ((r ≡ true) ↔ ((x : Item) → has_core x a ≡ has_core x b))
unfolding lalr_equal
lalr_equal_same a b da db = elim (Bool-cases (length a == length b)) [
  | inr other ↦ (
    false,
    rw other refl,
    (
      λ e. cc,
      λ same. absurd (
          ground (
            arith,
            other,
            length-within a b da (λ z h. sym (same z) ∙ h),
            length-within b a db (λ z h. same z ∙ h),
          )),
    ),
  )
  | inl long ↦
      let (build, ran, has) = build_cores_lem a [] da (λ z h. absurd (clash h)) in
      (
        cores_within b build,
        rw (long, ran) refl,
        (
          λ e.
              no_others a b db ((==_iff (length a) (length b)).0 long)
                (λ z h. sym (has z) ∙ cores_within_lem b build e z h),
          λ same. within-cores_within b build (λ z h. has z ∙ same z ∙ h),
        ),
      )
]
  where
    clash : false ≡ true → ⊥
    clash e = cc
