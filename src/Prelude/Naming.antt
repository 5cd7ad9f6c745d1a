-- ===== src/Prelude/Naming.antt =====
-- Lists whose elements are named apart by a column, as by a PRIMARY KEY.
use Prim.Native.String.{String}
use mathlib.Core.Path.{◌≡◌, refl, sym, ap, ◌∙◌}
use mathlib.Core.Logic.{◌⊎◌, inl, inr}
use mathlib.Core.Bool.{Bool, false}
use mathlib.Core.List.{List, [], ◌∷◌, ◌++◌, map}
use native.Mathlib.Omega.{arith}
use text.Mathlib.Text.{◌==◌}
use text.Mathlib.TextEquality.{eq_iff}
use runtime_pulse.Prelude.Tests.{Bool-cases}
use runtime_pulse.Prelude.Lists.{any, any-append, any-In, filter, In}

-- A column whose values name the rows.
abbrev pub UniqueBy : {A : Type 0} → (A → String) → List A → Type 0
UniqueBy name [] = Unit
UniqueBy name (x ∷ l) = (any (λ y. name y == name x) l ≡ false) × UniqueBy name l

module _ {A : Type 0} (name : A → String) where
  pub named_once :
      (a b : A) (l : List A) → UniqueBy name l → In a l → In b l → name a ≡ name b → a ≡ b
  named_once a b [] u i j e = absurd i
  named_once a b (x ∷ l) u (inl p) (inl q) e = p ∙ sym q
  named_once a b (x ∷ l) u (inl p) (inr j) e = absurd (
      cc (
        any-In (λ y. name y == name x) b l j (ground (arith, eq_iff (name b) (name x), ap name p)),
        u.0,
      ))
  named_once a b (x ∷ l) u (inr i) (inl q) e = absurd (
      cc (
        any-In (λ y. name y == name x) a l i (ground (arith, eq_iff (name a) (name x), ap name q)),
        u.0,
      ))
  named_once a b (x ∷ l) u (inr i) (inr j) e = named_once a b l u.1 i j e

  pub UniqueBy-snoc :
      (l : List A) (x : A)
      → any (λ y. name y == name x) l ≡ false
      → UniqueBy name l
      → UniqueBy name (l ++ x ∷ [])
  UniqueBy-snoc [] x h u = (refl, tt)
  UniqueBy-snoc (y ∷ l) x h u = (
    ground (
      arith,
      any-append (λ z. name z == name y) l (x ∷ []),
      u.0,
      eq_iff (name y) (name x),
      eq_iff (name x) (name y),
    ),
    UniqueBy-snoc l x (ground arith) u.1,
  )

  any-name-map :
      (f : A → A) (k : (x : A) → name (f x) ≡ name x) (s : String) (l : List A)
      → any (λ y. name y == s) (map f l) ≡ any (λ y. name y == s) l
  any-name-map f k s [] = refl
  any-name-map f k s (x ∷ l) = rw (k x, any-name-map f k s l)

  pub UniqueBy-map :
      (f : A → A)
      → ((x : A) → name (f x) ≡ name x)
      → (l : List A) → UniqueBy name l
      → UniqueBy name (map f l)
  UniqueBy-map f k [] u = tt
  UniqueBy-map f k (x ∷ l) u = (rw (k x, any-name-map f k (name x) l) u.0, UniqueBy-map f k l u.1)

  any-name-filter :
      (p : A → Bool) (s : String) (l : List A)
      → any (λ y. name y == s) l ≡ false
      → any (λ y. name y == s) (filter p l) ≡ false
  any-name-filter p s [] h = refl
  any-name-filter p s (x ∷ l) h = ground (arith, any-name-filter p s l)

  pub UniqueBy-filter : (p : A → Bool) (l : List A) → UniqueBy name l → UniqueBy name (filter p l)
  UniqueBy-filter p [] u = tt
  UniqueBy-filter p (x ∷ l) u = elim (Bool-cases (p x)) [
    | inl e ↦ rw e (any-name-filter p (name x) l u.0, UniqueBy-filter p l u.1)
    | inr e ↦ rw e (UniqueBy-filter p l u.1)
  ]

module _ {A B : Type 0} where
  pub In-map_of : (f : A → B) (a : A) (l : List A) → In a l → In (f a) (map f l)
  In-map_of f a [] i = i
  In-map_of f a (x ∷ l) (inl e) = inl (ap f e)
  In-map_of f a (x ∷ l) (inr i) = inr (In-map_of f a l i)

module _ {A : Type 0} where
  pub In-append : (a : A) (xs ys : List A) → In a (xs ++ ys) → In a xs ⊎ In a ys
  In-append a [] ys i = inr i
  In-append a (x ∷ xs) ys (inl e) = inl (inl e)
  In-append a (x ∷ xs) ys (inr i) = elim (In-append a xs ys i) [
    | inl j ↦ inl (inr j)
    | inr j ↦ inr j
  ]
