-- ===== src/Setup/Texts.antt =====
-- strings.Index, strings.TrimRight and slices, on texts by their characters.
use Prim.Native.Char.{Char, code}
use runtime_pulse.Prelude.{
  ℕ, zero, suc, Bool, true, false, Option, none, some, [], ◌∷◌, ◌++◌, nat_eq, if◌then◌else◌,
}
use runtime_pulse.Setup.{Text}

abbrev pub same_char : Char → Char → Bool
same_char c d = nat_eq (code c) (code d)

-- strings.HasPrefix
abbrev pub starts : Text → Text → Bool
starts [] s = true
starts (c ∷ p) [] = false
starts (c ∷ p) (d ∷ s) = let rest = starts p s in if same_char c d then rest else false

abbrev later : Option ℕ → Option ℕ
later none = none
later (some n) = some (suc n)

-- strings.Index
abbrev pub index : Text → Text → Option ℕ
index p [] = if starts p [] then some 0 else none
index p (c ∷ s) = let rest = index p s in if starts p (c ∷ s) then some 0 else later rest

abbrev pub drop : ℕ → Text → Text
drop zero s = s
drop (suc n) [] = []
drop (suc n) (c ∷ s) = drop n s

abbrev pub newline : Char → Bool
newline c = nat_eq (code c) 10

abbrev pub keep_unless_blank : Char → Text → Text
keep_unless_blank c [] = if newline c then [] else c ∷ []
keep_unless_blank c (d ∷ s) = c ∷ d ∷ s

-- strings.TrimRight(s, "\n")
abbrev pub trim_right : Text → Text
trim_right [] = []
trim_right (c ∷ s) = keep_unless_blank c (trim_right s)

-- No occurrence of `p` in `x ++ u` begins in `x`.
abbrev pub unhit : Text → Text → Text → Bool
unhit p [] u = true
unhit p (c ∷ x) u = let rest = unhit p x u in if starts p (c ∷ (x ++ u)) then false else rest

-- Equality of texts.
abbrev pub same_text : Text → Text → Bool
same_text [] [] = true
same_text [] (d ∷ t) = false
same_text (c ∷ s) [] = false
same_text (c ∷ s) (d ∷ t) = let rest = same_text s t in if same_char c d then rest else false
