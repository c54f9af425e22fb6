-- ===== src/Codegen/InOrder.antt =====
-- Lists of tokens with distinct names and the numbers of their places.
use mathlib.Core.List.{append-nil, append_assoc}
use neoast.Common.{
  ℕ, zero, suc, ◌+◌, ◌≡◌, refl, ap, ap₂, sym, ◌∙◌, subst, List, [], ◌∷◌, ◌++◌, length, get_elem?,
  Bool, true, false, ◌||◌, none, some, arith, inl, inr, Bool-cases, length-append,
}
use neoast.Codegen.{Name}
use neoast.Codegen.Classes.{eqb_name, CgToken}
use neoast.Codegen.Impl.{find_token, names_of}

pub eqb_name_refl : (a : Name) → eqb_name a a ≡ true
unfolding eqb_name
eqb_name_refl [] = refl
eqb_name_refl (x ∷ xs) = ground (arith, eqb_name_refl xs)

eqb_name_sym : (a b : Name) → eqb_name a b ≡ eqb_name b a
unfolding eqb_name
eqb_name_sym [] [] = refl
eqb_name_sym [] (y ∷ ys) = refl
eqb_name_sym (x ∷ xs) [] = refl
eqb_name_sym (x ∷ xs) (y ∷ ys) = ground (arith, eqb_name_sym xs ys)

-- Whether a name is listed.
abbrev pub has_name : Name → List Name → Bool
has_name k [] = false
has_name k (x ∷ xs) = eqb_name x k || has_name k xs

abbrev pub Distinct : List Name → Type 0
Distinct [] = Unit
Distinct (x ∷ xs) = (has_name x xs ≡ false) × Distinct xs

pub names_of-append : (xs ys : List CgToken) → names_of (xs ++ ys) ≡ names_of xs ++ names_of ys
names_of-append [] ys = refl
names_of-append (x ∷ xs) ys = ap (λ ns. x.name ∷ ns) (names_of-append xs ys)

find_token-none :
    (k : Name) (ts : List CgToken) → find_token k ts ≡ none → has_name k (names_of ts) ≡ false
find_token-none k [] h = refl
find_token-none k (t ∷ ts) h = elim (Bool-cases (eqb_name t.name k)) [
  | inl same ↦ absurd (differ (sym (rw same refl) ∙ h))
  | inr other ↦
      ap (λ b. b || has_name k (names_of ts)) other ∙ find_token-none k ts (skip other ∙ h)
]
  where
    differ : some t ≡ none → ⊥
    differ e = cc

    skip : eqb_name t.name k ≡ false → find_token k ts ≡ find_token k (t ∷ ts)
    skip other = rw other refl

-- A new name may stand anywhere.
Distinct-insert :
    (xs ys : List Name) (k : Name)
    → Distinct (xs ++ ys)
    → has_name k (xs ++ ys) ≡ false
    → Distinct (xs ++ k ∷ ys)
Distinct-insert [] ys k distinct new = (new, distinct)
Distinct-insert (x ∷ xs) ys k (here, others) new = (
  keeps xs here (eqb_name_sym k x ∙ left (eqb_name x k) (has_name k (xs ++ ys)) new),
  Distinct-insert xs ys k others (right (eqb_name x k) (has_name k (xs ++ ys)) new),
)
  where
    left : (a b : Bool) → (a || b) ≡ false → a ≡ false
    left a b h = ground arith

    right : (a b : Bool) → (a || b) ≡ false → b ≡ false
    right a b h = ground arith

    keeps :
        (zs : List Name)
        → has_name x (zs ++ ys) ≡ false
        → eqb_name k x ≡ false
        → has_name x (zs ++ k ∷ ys) ≡ false
    keeps [] h apart = ap (λ b. b || has_name x ys) apart ∙ h
    keeps (z ∷ zs) h apart =
        ap₂ (λ a b. a || b) (left (eqb_name z x) (has_name x (zs ++ ys)) h)
          (keeps zs (right (eqb_name z x) (has_name x (zs ++ ys)) h) apart)

-- The tokens have the numbers from `k` on.
abbrev pub Ids : ℕ → List CgToken → Type 0
Ids k [] = Unit
Ids k (t ∷ ts) = (t.id ≡ k) × Ids (suc k) ts

pub Ids-append :
    (k : ℕ) (xs ys : List CgToken) → Ids k xs → Ids (k + length xs) ys → Ids k (xs ++ ys)
Ids-append k [] ys p q = subst (λ n. Ids n ys) (omega arith) q
Ids-append k (x ∷ xs) ys (here, others) q =
    (here, Ids-append (suc k) xs ys others (subst (λ n. Ids n ys) (omega arith) q))

pub Ids-get :
    (k : ℕ) (ts : List CgToken) (i : ℕ) (t : CgToken)
    → Ids k ts
    → get_elem? ts i ≡ some t
    → t.id ≡ k + i
Ids-get k [] i t p got = absurd (ground (arith, got))
Ids-get k (x ∷ xs) zero t p got = ap (λ y. y.id) (sym (some_eq got)) ∙ p.0 ∙ omega arith
  where
    some_eq : {a b : CgToken} → some a ≡ some b → a ≡ b
    some_eq e = cc
Ids-get k (x ∷ xs) (suc i) t p got = Ids-get (suc k) xs i t p.1 got ∙ omega arith

-- Where names are distinct, a token is found by its name.
pub find_token-get :
    (ts : List CgToken) (i : ℕ) (t : CgToken)
    → Distinct (names_of ts)
    → get_elem? ts i ≡ some t
    → find_token t.name ts ≡ some t
find_token-get [] i t distinct got = absurd (ground (arith, got))
find_token-get (x ∷ xs) zero t distinct got =
    let e : x ≡ t = some_eq got in
    subst (λ y. find_token y.name (x ∷ xs) ≡ some y) e (rw (eqb_name_refl x.name) refl)
  where
    some_eq : {a b : CgToken} → some a ≡ some b → a ≡ b
    some_eq e = cc
find_token-get (x ∷ xs) (suc i) t (here, others) got =
    let apart : eqb_name x.name t.name ≡ false = eqb_name_sym x.name t.name ∙ away xs i here got in
    rw apart (find_token-get xs i t others got)
  where
    some_eq : {a b : CgToken} → some a ≡ some b → a ≡ b
    some_eq e = cc

    away :
        (ys : List CgToken) (j : ℕ)
        → has_name x.name (names_of ys) ≡ false
        → get_elem? ys j ≡ some t
        → eqb_name t.name x.name ≡ false
    away [] j h got = absurd (ground (arith, got))
    away (y ∷ ys) zero h got =
        ap (λ z. eqb_name z.name x.name) (sym (some_eq got))
        ∙ left (eqb_name y.name x.name) (has_name x.name (names_of ys)) h
      where
        left : (a b : Bool) → (a || b) ≡ false → a ≡ false
        left a b h = ground arith
    away (y ∷ ys) (suc j) h got =
        away ys j (right (eqb_name y.name x.name) (has_name x.name (names_of ys)) h) got
      where
        right : (a b : Bool) → (a || b) ≡ false → b ≡ false
        right a b h = ground arith

-- What is so of the tokens while the header is read: `n` is the next number.
pub record InOrder (n : ℕ) (actions grammars : List CgToken) : Type 0 where
  pub ids : Ids 0 actions
  pub count : n ≡ length actions
  pub distinct : Distinct (names_of actions ++ names_of grammars)

pub InOrder-register_action :
    (n : ℕ) (as_ gs : List CgToken) (t : CgToken)
    → t.id ≡ n
    → find_token t.name (as_ ++ gs) ≡ none
    → InOrder n as_ gs
    → InOrder (suc n) (as_ ++ t ∷ []) gs
InOrder-register_action n as_ gs t id new inv = record {
  ids = Ids-append 0 as_ (t ∷ []) inv.ids (id ∙ omega (arith, inv.count), tt);
  count = omega (arith, inv.count, length-append as_ (t ∷ []));
  distinct =
      subst Distinct
        (sym (append_assoc (names_of as_) (t.name ∷ []) (names_of gs))
          ∙ ap (λ ns. ns ++ names_of gs) (sym (names_of-append as_ (t ∷ []))))
        (Distinct-insert (names_of as_) (names_of gs) t.name inv.distinct (
          ap (has_name t.name) (sym (names_of-append as_ gs))
          ∙ find_token-none t.name (as_ ++ gs) new));
}

pub InOrder-register_grammar :
    (n : ℕ) (as_ gs : List CgToken) (t : CgToken)
    → find_token t.name (as_ ++ gs) ≡ none
    → InOrder n as_ gs
    → InOrder n as_ (gs ++ t ∷ [])
InOrder-register_grammar n as_ gs t new inv = record {
  ids = inv.ids;
  count = inv.count;
  distinct =
      let all = names_of as_ ++ names_of gs in
      let still : all ++ [] ≡ all = append-nil all in
      let unknown : has_name t.name (all ++ []) ≡ false =
        ap (has_name t.name) (still ∙ sym (names_of-append as_ gs))
        ∙ find_token-none t.name (as_ ++ gs) new in
      subst Distinct
        (append_assoc (names_of as_) (names_of gs) (t.name ∷ [])
          ∙ ap (λ ns. names_of as_ ++ ns) (sym (names_of-append gs (t ∷ []))))
        (Distinct-insert all [] t.name (subst Distinct (sym still) inv.distinct) unknown);
}
