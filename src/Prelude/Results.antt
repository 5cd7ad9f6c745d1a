-- ===== src/Prelude/Results.antt =====
-- Go's `(value, error)` pair: a value, or the text of an error.
use Prim.Native.String.{String}
use mathlib.Core.Path.{◌≡◌, refl, subst}
use mathlib.Core.Logic.{◌⊎◌, inl, inr}
use native.Mathlib.Omega.{arith}

pub data Result {ℓ} (A : Type ℓ) : Type ℓ where
  ok : A → Result A
  err : String → Result A

pub Result-cases {ℓ} :
    {A : Type ℓ} (r : Result A) → ((e : String) × (r ≡ err e)) ⊎ ((a : A) × (r ≡ ok a))
Result-cases (ok a) = inr (a, refl)
Result-cases (err e) = inl (e, refl)

-- What holds of one successful outcome holds of an equal one.
pub along_ok {ℓ} :
    {A D : Type 0} (P : A → D → Type ℓ) {a a' : A} {d d' : D}
    → ◌≡◌ {A = Result (A × D)} (ok (a, d)) (ok (a', d'))
    → P a d
    → P a' d'
along_ok P {a} {a'} {d} {d'} e p =
    let ea : a ≡ a' = ground arith in
    let ed : d ≡ d' = ground arith in subst (λ x. P x d') ea (subst (λ y. P a y) ed p)
