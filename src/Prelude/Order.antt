-- ===== src/Prelude/Order.antt =====
-- The order of texts (SQLite's BINARY collation, Go's sort.Strings) and stable sorting by a key,
-- as ORDER BY does it.
use Prim.Native.Char.{code}
use Prim.Native.String.{String}
use mathlib.Core.Path.{◌≡◌, refl, subst}
use mathlib.Core.Logic.{◌⊎◌, ◌↔◌, inl, inr}
use mathlib.Core.Bool.{Bool, true, false}
use mathlib.Core.Option.{none, some}
use mathlib.Core.List.{List, [], ◌∷◌}
use native.Mathlib.Omega.{arith}
use runtime_pulse.Prelude.Tests.{ltb, if◌then◌else◌, Bool-cases}
use runtime_pulse.Prelude.Lists.{All, All-In, All-map, In, head?}

-- Code point by code point, which for UTF-8 is the order of the bytes.
unfoldable pub str_leb : String → String → Bool
str_leb String.[] t = true
str_leb (String.◌∷◌ c s) String.[] = false
str_leb (String.◌∷◌ c s) (String.◌∷◌ d t) =
    let rest = str_leb s t in
    if ltb (code c) (code d) then true else if ltb (code d) (code c) then false else rest

pub str_leb_total : (s t : String) → str_leb s t ≡ false → str_leb t s ≡ true
unfolding str_leb
str_leb_total String.[] t h = cc
str_leb_total (String.◌∷◌ c s) String.[] h = refl
str_leb_total (String.◌∷◌ c s) (String.◌∷◌ d t) h = ground (arith, str_leb_total s t)

pub str_leb_refl : (s : String) → str_leb s s ≡ true
unfolding str_leb
str_leb_refl String.[] = refl
str_leb_refl (String.◌∷◌ c s) = ground (arith, str_leb_refl s)

pub str_leb_trans : (r s t : String) → str_leb r s ≡ true → str_leb s t ≡ true → str_leb r t ≡ true
unfolding str_leb
str_leb_trans String.[] s t h k = refl
str_leb_trans (String.◌∷◌ b r) String.[] t h k = cc
str_leb_trans (String.◌∷◌ b r) (String.◌∷◌ c s) String.[] h k = cc
str_leb_trans (String.◌∷◌ b r) (String.◌∷◌ c s) (String.◌∷◌ d t) h k =
    ground (arith, str_leb_trans r s t)

-- A total preorder by which rows are sorted.
pub record IsOrder {A : Type 0} (le : A → A → Bool) : Type 0 where
  pub total : (a b : A) → le a b ≡ false → le b a ≡ true
  pub trans : (a b c : A) → le a b ≡ true → le b c ≡ true → le a c ≡ true

module _ {A : Type 0} (le : A → A → Bool) where
  unfoldable pub insert_by : A → List A → List A
  insert_by a [] = a ∷ []
  insert_by a (x ∷ xs) = let rest = insert_by a xs in if le a x then a ∷ x ∷ xs else x ∷ rest

  -- Stable: rows with equal keys keep the order of the table.
  unfoldable pub sort_by : List A → List A
  unfolding insert_by
  sort_by [] = []
  sort_by (x ∷ xs) = insert_by x (sort_by xs)

  abbrev pub Sorted : List A → Type 0
  Sorted [] = Unit
  Sorted (x ∷ xs) = All (λ y. le x y ≡ true) xs × Sorted xs

  In-insert_by_to : (a b : A) (xs : List A) → In b (insert_by a xs) → (b ≡ a) ⊎ In b xs
  unfolding insert_by
  In-insert_by_to a b [] h = h
  In-insert_by_to a b (x ∷ xs) h = elim (Bool-cases (le a x)) [
    | inl e ↦ rw e at h
    | inr e ↦ elim (rw e at h) [
      | inl q ↦ inr (inl q)
      | inr r ↦ elim (In-insert_by_to a b xs r) [ inl q ↦ inl q | inr i ↦ inr (inr i) ]
    ]
  ]

  In-insert_by_of : (a b : A) (xs : List A) → (b ≡ a) ⊎ In b xs → In b (insert_by a xs)
  unfolding insert_by
  In-insert_by_of a b [] h = h
  In-insert_by_of a b (x ∷ xs) h = elim (Bool-cases (le a x)) [
    | inl e ↦ rw e h
    | inr e ↦ rw e (elim h [
      | inl q ↦ inr (In-insert_by_of a b xs (inl q))
      | inr (inl q) ↦ inl q
      | inr (inr i) ↦ inr (In-insert_by_of a b xs (inr i))
    ])
  ]

  In-sort_by_to : (b : A) (xs : List A) → In b (sort_by xs) → In b xs
  unfolding sort_by
  In-sort_by_to b [] h = h
  In-sort_by_to b (x ∷ xs) h = elim (In-insert_by_to x b (sort_by xs) h) [
    | inl e ↦ inl e
    | inr i ↦ inr (In-sort_by_to b xs i)
  ]

  In-sort_by_of : (b : A) (xs : List A) → In b xs → In b (sort_by xs)
  unfolding sort_by
  In-sort_by_of b [] h = h
  In-sort_by_of b (x ∷ xs) (inl e) = In-insert_by_of x b (sort_by xs) (inl e)
  In-sort_by_of b (x ∷ xs) (inr i) = In-insert_by_of x b (sort_by xs) (inr (In-sort_by_of b xs i))

  -- Sorting neither loses a row nor makes one up.
  pub In-sort_by : (b : A) (xs : List A) → In b (sort_by xs) ↔ In b xs
  In-sort_by b xs = (In-sort_by_to b xs, In-sort_by_of b xs)

  module _ (o : IsOrder le) where
    All-insert_by : (a : A) (P : A → Type 0) (xs : List A) → P a → All P xs → All P (insert_by a xs)
    unfolding insert_by
    All-insert_by a P [] p h = (p, tt)
    All-insert_by a P (x ∷ xs) p h = elim (Bool-cases (le a x)) [
      | inl e ↦ rw e (p, h)
      | inr e ↦ rw e (h.0, All-insert_by a P xs p h.1)
    ]

    insert_by-Sorted : (a : A) (xs : List A) → Sorted xs → Sorted (insert_by a xs)
    unfolding insert_by
    insert_by-Sorted a [] h = (tt, tt)
    insert_by-Sorted a (x ∷ xs) h = elim (Bool-cases (le a x)) [
      | inl e ↦ rw e ((e, All-map xs (λ y k. o.trans a x y e k) h.0), h)
      | inr e ↦
          rw e
            (All-insert_by a (λ y. le x y ≡ true) xs (o.total a x e) h.0, insert_by-Sorted a xs h.1)
    ]

    pub sort_by-Sorted : (xs : List A) → Sorted (sort_by xs)
    unfolding sort_by
    sort_by-Sorted [] = tt
    sort_by-Sorted (x ∷ xs) = insert_by-Sorted x (sort_by xs) (sort_by-Sorted xs)

    le_refl : (a : A) → le a a ≡ true
    le_refl a = elim (Bool-cases (le a a)) [ inl e ↦ e | inr e ↦ o.total a a e ]

    head-Sorted :
        (l : List A) (c : A) → Sorted l → head? l ≡ some c → In c l × All (λ d. le c d ≡ true) l
    head-Sorted [] c s h = cc
    head-Sorted (x ∷ l) c s h =
        let e : x ≡ c = cc in
        subst (λ z. In z (x ∷ l) × All (λ d. le z d ≡ true) (x ∷ l)) e (inl refl, (le_refl x, s.0))

    -- ORDER BY … LIMIT 1 finds a row that stands before every other, if there is a row.
    pub head-sort_by :
        (xs : List A) (c : A)
        → head? (sort_by xs) ≡ some c
        → In c xs × ((d : A) → In d xs → le c d ≡ true)
    head-sort_by xs c h =
        let first : In c (sort_by xs) × All (λ d. le c d ≡ true) (sort_by xs) =
          head-Sorted (sort_by xs) c (sort_by-Sorted xs) h in
        (
          In-sort_by_to c xs first.0,
          λ d i. All-In (λ d. le c d ≡ true) d (sort_by xs) first.1 (In-sort_by_of d xs i),
        )

  pub head-sort_by-none : (xs : List A) → head? (sort_by xs) ≡ none → (d : A) → ¬ In d xs
  head-sort_by-none xs h d i = none_empty (sort_by xs) h (In-sort_by_of d xs i)
    where
      none_empty : (l : List A) → head? l ≡ none → ¬ In d l
      none_empty [] e j = j
      none_empty (x ∷ l) e j = cc
