-- ===== src/Prelude/Lists.antt =====
-- Lists filtered, counted and measured by Boolean tests and native numbers.
use Prim.Native.Nat.{ℕ, zero, suc, ◌+◌}
use mathlib.Core.Path.{◌≡◌, refl, sym, subst}
use mathlib.Core.Logic.{◌⊎◌, ◌↔◌, inl, inr}
use mathlib.Core.Bool.{Bool, true, false, not, ◌||◌}
use mathlib.Core.Option.{Option, none, some}
use mathlib.Core.List.{List, [], ◌∷◌, ◌++◌, map}
use native.Mathlib.Omega.{arith}
use runtime_pulse.Prelude.Tests.{if◌then◌else◌, Bool-cases}

module _ {ℓ} {A : Type ℓ} where
  abbrev pub length : List A → ℕ
  length [] = 0
  length (x ∷ xs) = suc (length xs)

  abbrev pub take : ℕ → List A → List A
  take zero xs = []
  take (suc n) [] = []
  take (suc n) (x ∷ xs) = x ∷ take n xs

  abbrev pub head? : List A → Option A
  head? [] = none
  head? (x ∷ xs) = some x

  -- The rows that a WHERE clause selects, in table order.
  abbrev pub filter : (A → Bool) → List A → List A
  filter p [] = []
  filter p (x ∷ xs) = let rest = filter p xs in if p x then x ∷ rest else rest

  abbrev pub any : (A → Bool) → List A → Bool
  any p [] = false
  any p (x ∷ xs) = let rest = any p xs in if p x then true else rest

  abbrev pub All {κ} : (A → Type κ) → List A → Type κ
  All P [] = Unit
  All P (x ∷ xs) = P x × All P xs

  pub length-append : (xs ys : List A) → length (xs ++ ys) ≡ length xs + length ys
  length-append [] ys = omega arith
  length-append (x ∷ xs) ys = omega (arith, length-append xs ys)

  pub append_nil : (l : List A) → l ++ [] ≡ l
  append_nil [] = refl
  append_nil (x ∷ l) = rw (append_nil l)

  pub append_assoc : (k l m : List A) → (k ++ l) ++ m ≡ k ++ (l ++ m)
  append_assoc [] l m = refl
  append_assoc (x ∷ k) l m = rw (append_assoc k l m)

  pub filter-append :
      (p : A → Bool) (xs ys : List A) → filter p (xs ++ ys) ≡ filter p xs ++ filter p ys
  filter-append p [] ys = refl
  filter-append p (x ∷ xs) ys = ground (arith, filter-append p xs ys)

  pub any-append : (p : A → Bool) (xs ys : List A) → any p (xs ++ ys) ≡ (any p xs || any p ys)
  any-append p [] ys = refl
  any-append p (x ∷ xs) ys = ground (arith, any-append p xs ys)

  -- What a DELETE leaves and what it removes add up.
  pub length-filter-not :
      (p : A → Bool) (xs : List A)
      → length (filter p xs) + length (filter (λ x. not (p x)) xs) ≡ length xs
  length-filter-not p [] = omega arith
  length-filter-not p (x ∷ xs) = ground (arith, length-filter-not p xs)

  pub All-append {κ} : (P : A → Type κ) (xs ys : List A) → All P xs → All P ys → All P (xs ++ ys)
  All-append P [] ys hx hy = hy
  All-append P (x ∷ xs) ys hx hy = (hx.0, All-append P xs ys hx.1 hy)

  pub All-filter {κ} :
      (P : A → Type κ) (p : A → Bool) (xs : List A) → All P xs → All P (filter p xs)
  All-filter P p [] h = h
  All-filter P p (x ∷ xs) h = elim (Bool-cases (p x)) [
    | inl e ↦ rw e (h.0, All-filter P p xs h.1)
    | inr e ↦ rw e (All-filter P p xs h.1)
  ]

  pub All-map {κ μ} :
      {P : A → Type κ} {Q : A → Type μ} (xs : List A) → ((x : A) → P x → Q x) → All P xs → All Q xs
  All-map [] f h = tt
  All-map (x ∷ xs) f h = (f x h.0, All-map xs f h.1)

  pub All-zip {κ μ} :
      (P : A → Type κ) (Q : A → Type μ) (xs : List A)
      → All P xs
      → All Q xs
      → All (λ x. P x × Q x) xs
  All-zip P Q [] h k = tt
  All-zip P Q (x ∷ xs) h k = ((h.0, k.0), All-zip P Q xs h.1 k.1)

-- An element of a list of rows, with the place where it stands.
abbrev pub In : {A : Type 0} → A → List A → Type 0
In a [] = ⊥
In a (x ∷ xs) = (a ≡ x) ⊎ In a xs

module _ {A : Type 0} where
  In-filter_kept :
      (p : A → Bool) (a : A) (xs : List A) → In a (filter p xs) → In a xs × (p a ≡ true)
  In-filter_kept p a [] h = absurd h
  In-filter_kept p a (x ∷ xs) h = elim (Bool-cases (p x)) [
    | inl e ↦ elim (rw e at h) [
      | inl q ↦ (inl q, rw q e)
      | inr r ↦ let k : In a xs × (p a ≡ true) = In-filter_kept p a xs r in (inr k.0, k.1)
    ]
    | inr e ↦ let k : In a xs × (p a ≡ true) = In-filter_kept p a xs (rw e at h) in (inr k.0, k.1)
  ]

  In-filter_keep : (p : A → Bool) (a : A) (xs : List A) → In a xs → p a ≡ true → In a (filter p xs)
  In-filter_keep p a [] h e = h
  In-filter_keep p a (x ∷ xs) (inl q) e = rw (← q) (rw e (inl refl))
  In-filter_keep p a (x ∷ xs) (inr r) e = elim (Bool-cases (p x)) [
    | inl t ↦ rw t (inr (In-filter_keep p a xs r e))
    | inr t ↦ rw t (In-filter_keep p a xs r e)
  ]

  -- A filtered list holds exactly the elements that pass the test.
  pub In-filter :
      (p : A → Bool) (a : A) (xs : List A) → In a (filter p xs) ↔ (In a xs × (p a ≡ true))
  In-filter p a xs = (In-filter_kept p a xs, λ h. In-filter_keep p a xs h.0 h.1)

  pub In-append_left : (a : A) (xs ys : List A) → In a xs → In a (xs ++ ys)
  In-append_left a [] ys h = absurd h
  In-append_left a (x ∷ xs) ys (inl e) = inl e
  In-append_left a (x ∷ xs) ys (inr r) = inr (In-append_left a xs ys r)

  pub In-append_right : (a : A) (xs ys : List A) → In a ys → In a (xs ++ ys)
  In-append_right a [] ys h = h
  In-append_right a (x ∷ xs) ys h = inr (In-append_right a xs ys h)

  pub All-In {κ} : (P : A → Type κ) (a : A) (xs : List A) → All P xs → In a xs → P a
  All-In P a [] h i = absurd i
  All-In P a (x ∷ xs) h (inl e) = subst P (sym e) h.0
  All-In P a (x ∷ xs) h (inr i) = All-In P a xs h.1 i

  pub any-In : (p : A → Bool) (a : A) (xs : List A) → In a xs → p a ≡ true → any p xs ≡ true
  any-In p a [] h e = absurd h
  any-In p a (x ∷ xs) (inl q) e = rw (← q) (rw e)
  any-In p a (x ∷ xs) (inr r) e = ground (arith, any-In p a xs r e)

  pub In-of_any : (p : A → Bool) (xs : List A) → any p xs ≡ true → (a : A) × In a xs × (p a ≡ true)
  In-of_any p [] h = cc
  In-of_any p (x ∷ xs) h = elim (Bool-cases (p x)) [
    | inl e ↦ (x, inl refl, e)
    | inr e ↦ let (a, i, q) = In-of_any p xs (rw e at h) in (a, inr i, q)
  ]

  pub All-of_In {κ} : (P : A → Type κ) (xs : List A) → ((x : A) → In x xs → P x) → All P xs
  All-of_In P [] f = tt
  All-of_In P (x ∷ xs) f = (f x (inl refl), All-of_In P xs (λ y i. f y (inr i)))

module _ {A B : Type 0} where
  pub In-map : (f : A → B) (b : B) (xs : List A) → In b (map f xs) → (a : A) × In a xs × (b ≡ f a)
  In-map f b [] h = absurd h
  In-map f b (x ∷ xs) (inl e) = (x, inl refl, e)
  In-map f b (x ∷ xs) (inr i) = let (a, j, e) = In-map f b xs i in (a, inr j, e)

  -- What a map makes of each element.
  pub All-of_map {κ μ} :
      (P : A → Type κ) (Q : B → Type μ) (f : A → B) (xs : List A)
      → ((x : A) → P x → Q (f x))
      → All P xs
      → All Q (map f xs)
  All-of_map P Q f [] g h = tt
  All-of_map P Q f (x ∷ xs) g h = (g x h.0, All-of_map P Q f xs g h.1)

  pub length-map : (f : A → B) (xs : List A) → length (map f xs) ≡ length xs
  length-map f [] = refl
  length-map f (x ∷ xs) = omega (arith, length-map f xs)
