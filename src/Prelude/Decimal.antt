-- ===== src/Prelude/Decimal.antt =====
-- strconv.Itoa and strconv.FormatInt in base ten.
use Prim.Native.Nat.{ℕ, zero, suc, ◌/◌, ◌%◌, ◌<◌, ◌≤◌}
use mathlib.Core.Path.{◌≡◌, refl, ap}
use mathlib.Core.Logic.{inl, inr}
use native.Mathlib.Omega.{arith}
use Prim.Native.String.{String, ◌++◌ as str_append}
use mathlib.Core.List.{List, [], ◌∷◌}
use runtime_pulse.Prelude.Tests.{ltb, Bool-cases, if◌then◌else◌}
use runtime_pulse.Prelude.Int.{ℤ, pos, negsuc}

abbrev digit_texts : List String
digit_texts = "0" ∷ "1" ∷ "2" ∷ "3" ∷ "4" ∷ "5" ∷ "6" ∷ "7" ∷ "8" ∷ "9" ∷ []

abbrev nth_text : List String → ℕ → String
nth_text [] n = ""
nth_text (s ∷ l) zero = s
nth_text (s ∷ l) (suc n) = nth_text l n

digit_text : ℕ → String
digit_text d = nth_text digit_texts d

-- The digits with as much fuel; `decimal` gives the number's successor.
decimal_from : ℕ → ℕ → String
unfolding digit_text
decimal_from zero n = ""
decimal_from (suc fuel) n =
    let more = str_append (decimal_from fuel (n / 10)) (digit_text (n % 10)) in
    if ltb n 10 then digit_text n else more

unfoldable pub decimal : ℕ → String
unfolding decimal_from
decimal n = decimal_from (suc n) n

unfoldable pub itoa : ℤ → String
unfolding decimal
itoa (pos n) = decimal n
itoa (negsuc n) = str_append "-" (decimal (suc n))

-- More fuel gives the same digits.
decimal_from_enough : (f g n : ℕ) → n < f → n < g → decimal_from f n ≡ decimal_from g n
unfolding decimal_from
decimal_from_enough zero g n h k = absurd (omega (arith, h))
decimal_from_enough (suc f) zero n h k = absurd (omega (arith, k))
decimal_from_enough (suc f) (suc g) n h k = elim (Bool-cases (ltb n 10)) [
  | inl e ↦ rw e refl
  | inr e ↦
      let small : 10 ≤ n = ground arith in
      rw e (
        ap (λ s. str_append s (digit_text (n % 10)))
          (decimal_from_enough f g (n / 10) (omega arith) (omega arith)))
]
