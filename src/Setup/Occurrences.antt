-- ===== src/Setup/Occurrences.antt =====
-- Texts: where a pattern occurs first, and the parts around it.
use Prim.Native.Char.{Char}
use runtime_pulse.Prelude.{
  ℕ, zero, suc, ◌+◌, ◌≤◌, ◌≡◌, refl, ap, true, false, not, ◌&&◌, none, some, [], ◌∷◌, ◌++◌, any,
  length, length-append, append_assoc, take, arith, inl, inr, Bool-cases, Option-cases,
}
use text.Mathlib.TextEquality.{Char-path}
use runtime_pulse.Setup.{Text}
use runtime_pulse.Setup.Texts.{
  same_char, starts, index, drop, newline, keep_unless_blank, trim_right, unhit,
}

-- The first occurrence comes after `x`.
pub index-unhit :
    (p x u : Text) (n : ℕ)
    → unhit p x u ≡ true
    → index p u ≡ some n
    → index p (x ++ u) ≡ some (length x + n)
index-unhit p [] u n h e = ground (arith, e)
index-unhit p (c ∷ x) u n h e = ground (arith, index-unhit p x u n, e)

-- And none comes before the first.
pub unhit-index :
    (p x u : Text) (n : ℕ) → index p (x ++ u) ≡ some n → length x ≤ n → unhit p x u ≡ true
unhit-index p [] u n e le = refl
unhit-index p (c ∷ x) u n e le = elim (Bool-cases (starts p (c ∷ (x ++ u)))) [
  | inl s ↦ absurd (ground (arith, e, s))
  | inr s ↦ elim (Option-cases (index p (x ++ u))) [
    | inl o ↦ absurd (ground (arith, e, s, o))
    | inr (m, o) ↦ rw s (unhit-index p x u m o (ground (arith, e, s, o)))
  ]
]

pub unhit-none : (p x u : Text) → index p (x ++ u) ≡ none → unhit p x u ≡ true
unhit-none p [] u e = refl
unhit-none p (c ∷ x) u e = elim (Bool-cases (starts p (c ∷ (x ++ u)))) [
  | inl s ↦ absurd (ground (arith, e, s))
  | inr s ↦ elim (Option-cases (index p (x ++ u))) [
    | inl o ↦ rw s (unhit-none p x u o)
    | inr (m, o) ↦ absurd (ground (arith, e, s, o))
  ]
]

-- Whether a text starts with a pattern depends on as many characters as the pattern has.
starts_within : (p q t t' : Text) → length p ≤ length q → starts p (q ++ t) ≡ starts p (q ++ t')
starts_within [] q t t' le = refl
starts_within (c ∷ p) [] t t' le = absurd (omega (arith, le))
starts_within (c ∷ p) (d ∷ q) t t' le = ground (arith, starts_within p q t t')

pub unhit_within :
    (p x q t t' : Text) → length p ≤ length q → unhit p x (q ++ t) ≡ unhit p x (q ++ t')
unhit_within p [] q t t' le = refl
unhit_within p (c ∷ x) q t t' le =
    let same : starts p ((c ∷ (x ++ q)) ++ t) ≡ starts p ((c ∷ (x ++ q)) ++ t') =
      starts_within p (c ∷ (x ++ q)) t t' (omega (arith, le, length-append x q)) in
    ground (arith, unhit_within p x q t t' le, same, append_assoc x q t, append_assoc x q t')

pub starts_self : (p t : Text) → starts p (p ++ t) ≡ true
starts_self [] t = refl
starts_self (c ∷ p) t = ground (arith, starts_self p t)

pub index_self : (p t : Text) → index p (p ++ t) ≡ some 0
index_self [] [] = refl
index_self [] (c ∷ t) = refl
index_self (c ∷ p) t = ground (arith, starts_self p t)

pub take_prefix : (x s : Text) → take (length x) (x ++ s) ≡ x
take_prefix [] [] = ground arith
take_prefix [] (c ∷ s) = ground arith
take_prefix (c ∷ x) s = ap (λ l. c ∷ l) (take_prefix x s)

pub drop_prefix : (x s : Text) → drop (length x) (x ++ s) ≡ s
drop_prefix [] s = refl
drop_prefix (c ∷ x) s = drop_prefix x s

starts_split : (p s : Text) → starts p s ≡ true → s ≡ p ++ drop (length p) s
starts_split [] s h = refl
starts_split (c ∷ p) [] h = absurd (cc h)
starts_split (c ∷ p) (d ∷ s) h = elim (Bool-cases (same_char c d)) [
  | inl e ↦
      let same : d ≡ c = Char-path d c (ground arith) in
      rw same (ap (λ l. c ∷ l) (starts_split p s (ground arith)))
  | inr e ↦ absurd (ground arith)
]

pub drop-drop : (n k : ℕ) (s : Text) → drop (n + k) s ≡ drop k (drop n s)
drop-drop zero k s = let same : zero + k ≡ k = omega arith in rw same refl
drop-drop (suc n) zero [] = let same : suc n + zero ≡ suc n = omega arith in rw same refl
drop-drop (suc n) (suc k) [] =
    let same : suc n + suc k ≡ suc (n + suc k) = omega arith in rw same refl
drop-drop (suc n) k (c ∷ s) =
    let same : suc n + k ≡ suc (n + k) = omega arith in rw same (drop-drop n k s)

-- The first occurrence, with what is before it and after it.
pub index_split :
    (p s : Text) (n : ℕ)
    → index p s ≡ some n
    → (s ≡ take n s ++ (p ++ drop (length p) (drop n s))) × (length (take n s) ≡ n)
index_split p s zero h = (starts_split p s (first p s h), refl)
  where
    first : (p s : Text) → index p s ≡ some 0 → starts p s ≡ true
    first p [] h = ground arith
    first p (c ∷ s) h = elim (Option-cases (index p s)) [
      | inl o ↦ ground (arith, o)
      | inr (m, o) ↦ ground (arith, o)
    ]
index_split p [] (suc n) h = absurd (ground arith)
index_split p (c ∷ s) (suc n) h = elim (Option-cases (index p s)) [
  | inl o ↦ absurd (ground (arith, o))
  | inr (m, o) ↦
      let (split, len) = index_split p s n (ground (arith, o)) in
      (ap (λ l. c ∷ l) split, ap suc len)
]

pub unhit-append : (p x y u : Text) → unhit p (x ++ y) u ≡ (unhit p x (y ++ u) && unhit p y u)
unhit-append p [] y u = refl
unhit-append p (c ∷ x) y u = ground (arith, unhit-append p x y u, append_assoc x y u)

-- A pattern on one line does not reach past the end of a line.
starts_line :
    (p x v y : Text) (c : Char)
    → any newline p ≡ false
    → newline c ≡ true
    → starts p (x ++ c ∷ v) ≡ true
    → starts p (x ++ y) ≡ true
starts_line [] x v y c np nc h = refl
starts_line (a ∷ p) [] v y c np nc h = absurd (ground arith)
starts_line (a ∷ p) (b ∷ x) v y c np nc h = ground (arith, starts_line p x v y c)

pub unhit_line :
    (p x v y : Text) (c : Char)
    → any newline p ≡ false
    → newline c ≡ true
    → unhit p x y ≡ true
    → unhit p x (c ∷ v) ≡ true
unhit_line p [] v y c np nc h = refl
unhit_line p (b ∷ x) v y c np nc h =
    ground (arith, unhit_line p x v y c np nc, starts_line p (b ∷ x) v y c np nc)

-- A text of line ends.
abbrev pub IsBlank : Text → Type 0
IsBlank s = any (λ c. not (newline c)) s ≡ false

pub trimmed : (s : Text) → (rest : Text) × (s ≡ trim_right s ++ rest) × IsBlank rest
trimmed [] = ([], refl, refl)
trimmed (c ∷ s) =
    let (rest, e, blank) = trimmed s in
    elim (trim_right s)
        as (λ k.
          s ≡ k ++ rest → (rest : Text) × (c ∷ s ≡ keep_unless_blank c k ++ rest) × IsBlank rest) [
            | [] ↦ λ e. elim (Bool-cases (newline c)) [
              | inl b ↦ (c ∷ s, rw b refl, rw (b, e) blank)
              | inr b ↦ (rest, rw b (ap (λ l. c ∷ l) e), blank)
            ]
            | d ∷ k ↦ λ e. (rest, ap (λ l. c ∷ l) e, blank)
          ]
      e
